-- ===== src/Team/Linked.antt =====
-- A row of the effectifs that has an account carries no invitation.
use les_traiteurs_engages_v.Accounts.{Characters, PasswordError, validate_password}
use les_traiteurs_engages_v.Base.{
  All-update_first, Ensures, List, Option, String, [], fetch-Ensures, gets-Ensures, modify-Ensures,
  none, ok, or_rollback, or_rollback-holds, raise, raise_if-Ensures, refl, return-Ensures, some,
  then-Ensures, ℕ, ◌∷◌,
}
use les_traiteurs_engages_v.Models.{Database, User}
use les_traiteurs_engages_v.PasswordReset.{Hashes}
use les_traiteurs_engages_v.Team.Invitations.{
  InviteError, check_password, has_token, signup_invite, weak,
}
use les_traiteurs_engages_v.Team.Settled.{AllSettled, IsSettled, handler-AllSettled}
use les_traiteurs_engages_v.Team.Run.{TeamAction, handler, perform_team}

-- A post on some company's team page, or an invitation redeemed.
pub data StaffAction : Type 0 where
  on_team : ℕ → ℕ → TeamAction → StaffAction
  joins : String → String → String → Option String → ℕ → ℕ → StaffAction

module _ (c : Characters) (hashes : Hashes) where
  unfoldable pub perform_staff : List StaffAction → Database → Database
  perform_staff [] db = db
  perform_staff (on_team company admin_id a ∷ rest) db =
      perform_staff rest (perform_team c.lower hashes.sha256 company admin_id a db)
  perform_staff (joins salt token password accepted today now ∷ rest) db =
      perform_staff rest
        (or_rollback db (signup_invite c hashes salt token password accepted today now db))

signup-AllSettled :
    (c : Characters) (hashes : Hashes) (salt token password : String) (accept_terms : Option String)
    (today now : ℕ) (db : Database)
    → AllSettled db
    → Ensures
        (λ e s. Unit)
        (λ user s. AllSettled s)
        (signup_invite c hashes salt token password accept_terms today now db)
unfolding signup_invite check_password
signup-AllSettled c hashes salt token password accept_terms today now db all =
    fetch-Ensures Ends Keeps _ _ _ _ (λ _. tt)
      λ employee invited.
        raise_if-Ensures Ends Keeps _ _ _ _ (λ _. tt)
          λ given.
            then-Ensures Ends (λ u s. AllSettled s) Keeps _ _ _
              (policy (validate_password c password))
              λ s fine.
                raise_if-Ensures Ends Keeps _ _ _ _ (λ _. tt)
                  λ accepted.
                    fetch-Ensures Ends Keeps _ _ _ _ (λ _. tt)
                      λ terms in_force. gets-Ensures Ends Keeps _ _ _ (
                        raise_if-Ensures Ends Keeps _ _ _ _ (λ _. tt)
                          λ free. gets-Ensures Ends Keeps _ _ _ (
                            modify-Ensures Ends Keeps _ _ _ (
                              modify-Ensures Ends Keeps _ _ _ (
                                return-Ensures Ends Keeps _ _ (
                                  All-update_first IsSettled (has_token (hashes.sha256 token)) _
                                    s.employees (λ x h _ linked. refl) fine)))))
  where
    Ends : InviteError → Database → Type 0
    Ends e s = Unit

    Keeps : User → Database → Type 0
    Keeps user s = AllSettled s

    policy :
        (v : Option PasswordError)
        → Ensures {S = Database} {E = InviteError} {A = Unit {0}} Ends
            (λ u s. AllSettled s)
            (elim v [ none ↦ (ok tt, db) | some error ↦ (raise (weak error), db) ])
    policy none = all
    policy (some error) = tt

-- Whatever is posted on the team pages of whatever companies, and whatever invitations are redeemed
-- in between: if no employee with an account carries an invitation before, none does after.
pub perform_staff-AllSettled :
    (c : Characters) (hashes : Hashes) (actions : List StaffAction) (db : Database)
    → AllSettled db
    → AllSettled (perform_staff c hashes actions db)
unfolding perform_staff perform_team
perform_staff-AllSettled c hashes [] db all = all
perform_staff-AllSettled c hashes (on_team company admin_id a ∷ rest) db all =
    perform_staff-AllSettled c hashes rest
      (or_rollback db (handler c.lower hashes.sha256 company admin_id a db))
      (or_rollback-holds AllSettled db (handler c.lower hashes.sha256 company admin_id a db) all
        (handler-AllSettled c.lower hashes.sha256 company admin_id db all a))
perform_staff-AllSettled c hashes (joins salt token password accepted today now ∷ rest) db all =
    perform_staff-AllSettled c hashes rest
      (or_rollback db (signup_invite c hashes salt token password accepted today now db))
      (or_rollback-holds AllSettled db
        (signup_invite c hashes salt token password accepted today now db) all
        (signup-AllSettled c hashes salt token password accepted today now db all))
