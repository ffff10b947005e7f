-- ===== src/Team/Settled.antt =====
-- The posts of the team page keep an invitation off a row with an account.
use les_traiteurs_engages_v.Base.{
  ◌>>=◌, fetch, All, All-append, All-delete_first, All-update_first, All-update_found, Bool,
  Ensures, Option, String, [], exists, false, fetch-Ensures, gets-Ensures, if◌then◌else◌, is_some,
  modify-Ensures, modify_last-Ensures, none, raise_if-Ensures, refl, some, sym, true, update_first,
  ℕ, ◌++◌, ◌+◌, ◌∙◌, ◌∷◌, ◌≡◌,
}
use les_traiteurs_engages_v.Models.{CompanyEmployee, Database, MembershipStatus, User}
use les_traiteurs_engages_v.Notifications.{Notice, notify}
use les_traiteurs_engages_v.Scoping.{get_company_employee}
use les_traiteurs_engages_v.Team.{
  ServiceForm, Handling, EmployeeForm, TeamError, is_employee, team_employee_create,
  team_employee_delete, team_employee_edit, team_employee_invite, team_employee_invite_revoke,
  team_service_create, team_service_delete, team_service_edit,
}
use les_traiteurs_engages_v.Team.Memberships.{
  employee_of, is_pending_in, is_row_of, link, team_approve, team_reject, with_membership,
}
use les_traiteurs_engages_v.Team.Run.{
  TeamAction, approve_user, create_employee, create_service, delete_employee, delete_service,
  edit_employee, edit_service, handler, invite_employee, reject_user, revoke_invite,
}

-- An employee with an account has no invitation that could be redeemed.
abbrev pub IsSettled : CompanyEmployee → Type 0
IsSettled e = is_some e.user_id ≡ true → e.invite_token ≡ none

abbrev pub AllSettled : Database → Type 0
AllSettled db = All IsSettled db.employees

Bad : TeamError → Database → Type 0
Bad e s = Unit

Good : Unit {0} → Database → Type 0
Good u s = AllSettled s

false-settled : {A : Type 0} → false ≡ true → A
false-settled e = cc

add :
    (db : Database) (e : CompanyEmployee)
    → AllSettled db
    → IsSettled e
    → All IsSettled (db.employees ++ e ∷ [])
add db e all h = All-append IsSettled db.employees (e ∷ []) all (h, tt)

staffed :
    (company : ℕ) (target : User) (n : Notice) (b : Bool) (d : Database)
    → AllSettled d
    → AllSettled (
        notify target.id n (
          if b
          then record d {
            employees = update_first (is_row_of company target) (link target) d.employees;
          }
          else record d {
            employees = d.employees ++ employee_of company target (d.uuid4 d.drawn) ∷ [];
            drawn = d.drawn + 1;
          }))
unfolding notify
staffed company target n true d all =
    All-update_first IsSettled (is_row_of company target) (link target) d.employees
      (λ x h _ linked. refl) all
staffed company target n false d all = add d _ all (λ linked. refl)

module _ (lower sha256 : String → String) (company admin_id : ℕ) (db : Database)
    (all : AllSettled db) where
  -- The first step of a handler, where an exception needs no proof.
  given :
      {A : Type 0} (q : Database → Option A) (e : TeamError) (k : A → Handling (Unit {0}))
      → ((a : A) → q db ≡ some a → Ensures Bad Good (k a db))
      → Ensures Bad Good ((fetch q e >>= k) db)
  unfolding Bad
  given q e k next = fetch-Ensures Bad Good q e k db (λ _. tt) next

  service_create-AllSettled :
      (form : Option ServiceForm) → Ensures Bad Good (team_service_create company form db)
  unfolding team_service_create get_company_employee Good Bad
  service_create-AllSettled form = given _ _ _ λ f given. modify_last-Ensures Bad Good _ _ all

  service_edit-AllSettled :
      (id : ℕ) (form : Option ServiceForm) → Ensures Bad Good (team_service_edit company id form db)
  unfolding team_service_edit get_company_employee Good Bad
  service_edit-AllSettled id form =
      given _ _ _ λ s there. given _ _ _ λ f given. modify_last-Ensures Bad Good _ _ all

  service_delete-AllSettled : (id : ℕ) → Ensures Bad Good (team_service_delete company id db)
  unfolding team_service_delete get_company_employee Good Bad
  service_delete-AllSettled id = given _ _ _ λ s there.
      gets-Ensures Bad Good _ _ _
        (raise_if-Ensures Bad Good _ _ _ _ (λ _. tt) λ unused. modify_last-Ensures Bad Good _ _ all)

  employee_create-AllSettled :
      (form : Option EmployeeForm) (raw : String) (now : ℕ)
      → Ensures Bad Good (team_employee_create lower sha256 company form raw now db)
  unfolding team_employee_create get_company_employee Good Bad
  employee_create-AllSettled form raw now = given _ _ _ λ f given. gets-Ensures Bad Good _ _ _ (
      raise_if-Ensures Bad Good _ _ _ _ (λ _. tt)
        λ fresh. modify_last-Ensures Bad Good _ _ (add db _ all (λ e. false-settled e)))

  employee_edit-AllSettled :
      (id : ℕ) (form : Option EmployeeForm)
      → Ensures Bad Good (team_employee_edit lower company id form db)
  unfolding team_employee_edit get_company_employee Good Bad
  employee_edit-AllSettled id form = given _ _ _ λ e there. given _ _ _ λ f given.
      modify_last-Ensures Bad Good _ _
        (All-update_first IsSettled (is_employee id company) _ db.employees (λ x h _. h) all)

  employee_delete-AllSettled :
      (id : ℕ) → Ensures Bad Good (team_employee_delete company admin_id id db)
  unfolding team_employee_delete get_company_employee Good Bad
  employee_delete-AllSettled id = given _ _ _ λ e there.
      raise_if-Ensures Bad Good _ _ _ _ (λ _. tt)
        λ not_own.
          modify_last-Ensures Bad Good _ _
            (All-delete_first IsSettled (is_employee id company) db.employees all)

  employee_invite-AllSettled :
      (id : ℕ) (raw : String) (now : ℕ)
      → Ensures Bad Good (team_employee_invite sha256 company id raw now db)
  unfolding team_employee_invite get_company_employee Good Bad
  employee_invite-AllSettled id raw now = given _ _ _ λ e there.
      raise_if-Ensures Bad Good _ _ _ _ (λ _. tt)
        λ free. modify_last-Ensures Bad Good _ _ (
          All-update_found IsSettled (is_employee id company) _ db.employees e there
            (λ linked. false-settled (sym free ∙ linked)) all)

  invite_revoke-AllSettled : (id : ℕ) → Ensures Bad Good (team_employee_invite_revoke company id db)
  unfolding team_employee_invite_revoke get_company_employee Good Bad
  invite_revoke-AllSettled id = given _ _ _ λ e there. modify_last-Ensures Bad Good _ _ (
      All-update_first IsSettled (is_employee id company) _ db.employees (λ x h _ linked. refl) all)

  approve-AllSettled : (user_id : ℕ) → Ensures Bad Good (team_approve company user_id db)
  unfolding team_approve get_company_employee Good Bad
  approve-AllSettled user_id = given _ _ _ λ target there. modify-Ensures Bad Good _ _ _ (
      modify-Ensures Bad Good _ _ _ (
        modify_last-Ensures Bad Good _ _ (
          staffed company target _ (exists (is_row_of company target) db.employees)
            (record db {
              users =
                  update_first (is_pending_in user_id company)
                    (with_membership MembershipStatus.active) db.users;
            })
            all)))

  reject-AllSettled : (user_id : ℕ) → Ensures Bad Good (team_reject company user_id db)
  unfolding team_reject get_company_employee Good Bad
  reject-AllSettled user_id = given _ _ _ λ target there. modify_last-Ensures Bad Good _ _ all

  pub handler-AllSettled :
      (a : TeamAction)
      → Ensures (λ e s. Unit) (λ u s. AllSettled s) (handler lower sha256 company admin_id a db)
  unfolding handler Good Bad
  handler-AllSettled (create_service form) = service_create-AllSettled form
  handler-AllSettled (edit_service id form) = service_edit-AllSettled id form
  handler-AllSettled (delete_service id) = service_delete-AllSettled id
  handler-AllSettled (create_employee form raw now) = employee_create-AllSettled form raw now
  handler-AllSettled (edit_employee id form) = employee_edit-AllSettled id form
  handler-AllSettled (delete_employee id) = employee_delete-AllSettled id
  handler-AllSettled (invite_employee id raw now) = employee_invite-AllSettled id raw now
  handler-AllSettled (revoke_invite id) = invite_revoke-AllSettled id
  handler-AllSettled (approve_user user_id) = approve-AllSettled user_id
  handler-AllSettled (reject_user user_id) = reject-AllSettled user_id
