-- ===== src/Team/Invited.antt =====
-- An invitation is redeemed once.
use text.Mathlib.Text.{◌==◌ as str_eq}
use les_traiteurs_engages_v.Accounts.{Characters, PasswordError, validate_password}
use les_traiteurs_engages_v.Accounts.Policy.{IsStrong, validate_password-IsStrong}
use les_traiteurs_engages_v.Base.{
  ◌<◌, ◌-◌, ◌/◌, Bool, Ensures, List, Option, String, [], ap, arith, count,
  count-update_first_cleared, exists, false, fetch-Ensures, find, gets-Ensures, if◌then◌else◌,
  is_empty, is_some, modify-Ensures, none, ok, raise, raise_if-Ensures, refl, return-Ensures, some,
  some_inj, subst, sym, then-Ensures, true, update_first, ℕ, ◌++◌, ◌+◌, ◌||◌, ◌∷◌, ◌≡◌, ◌≤◌,
}
use les_traiteurs_engages_v.Models.{TermsVersion, CompanyEmployee, Database, User, UserRole}
use les_traiteurs_engages_v.PasswordReset.{Hashes}
use les_traiteurs_engages_v.Terms.{current_terms_version}
use les_traiteurs_engages_v.Terms.Current.{HasAccepted, current_terms_version-IsCurrent}
use les_traiteurs_engages_v.Team.Invitations.{
  InviteError, check_password, has_token, invited_user, is_expired, redeem_invite, resolve_invite,
  signup_invite, usable, weak,
}

-- What a redeemed invitation leaves.
pub record Joined (c : Characters) (hashes : Hashes) (salt token password : String) (today now : ℕ)
    (before : Database) (user : User) (after : Database) : Type 0 where
  pub employee : CompanyEmployee
  pub invited : find (has_token (hashes.sha256 token)) before.employees ≡ some employee
  pub without_account : employee.user_id ≡ none
  pub in_time : (at : ℕ) → employee.invited_at ≡ some at → (now - at) / 86400 < 7
  pub within_policy : IsStrong c password
  pub new_address : exists (λ u. str_eq u.email employee.email) before.users ≡ false
  pub same_company : user.company_id ≡ some employee.company_id
  pub hashed : user.password_hash ≡ hashes.hashpw password salt
  pub same_address : user.email ≡ employee.email
  pub as_client_user : user.role ≡ UserRole.client_user
  pub users_grow : after.users ≡ before.users ++ user ∷ []
  pub accepted_terms : HasAccepted today now before user
  pub linked :
      after.employees
      ≡ update_first
          (has_token (hashes.sha256 token))
          (λ e. record e { user_id = some user.id; invite_token = none })
          before.employees
  pub used_up : (later : ℕ) → resolve_invite hashes.sha256 token later after ≡ none

-- What a token that resolves has passed.
resolved :
    (sha256 : String → String) (token : String) (now : ℕ) (db : Database) (e : CompanyEmployee)
    → resolve_invite sha256 token now db ≡ some e
    → (find (has_token (sha256 token)) db.employees ≡ some e)
      × (e.user_id ≡ none)
      × (is_expired e.invited_at now ≡ false)
unfolding resolve_invite
resolved sha256 token now db e h =
    given (is_empty token) (find (has_token (sha256 token)) db.employees) h
  where
    is_none-of : (o : Option ℕ) → is_some o ≡ false → o ≡ none
    is_none-of none g = refl
    is_none-of (some k) g = cc

    passed :
        (b : Bool) (x : CompanyEmployee)
        → (if b then none else some x) ≡ some e
        → (b ≡ false) × (x ≡ e)
    passed true x g = cc
    passed false x g = (refl, some_inj g)

    given :
        (b : Bool) (o : Option CompanyEmployee)
        → (if b then none else usable now o) ≡ some e
        → (o ≡ some e) × (e.user_id ≡ none) × (is_expired e.invited_at now ≡ false)
    given true o g = cc
    given false none g = cc
    given false (some x) g =
        let (checks, same) = passed (is_some x.user_id || is_expired x.invited_at now) x g in
        (
          ap some same,
          subst (λ y. y.user_id ≡ none) same (is_none-of x.user_id (ground (arith, checks))),
          subst (λ y. is_expired y.invited_at now ≡ false) same (ground (arith, checks)),
        )

-- An invitation that is not expired is less than seven days old.
within_week :
    (invited_at : Option ℕ) (now at : ℕ)
    → invited_at ≡ some at
    → is_expired invited_at now ≡ false
    → (now - at) / 86400 < 7
within_week none now at e h = cc
within_week (some t) now at e h = subst (λ t. (now - t) / 86400 < 7) (some_inj e) (ground arith)

find-none-of_count :
    (t : CompanyEmployee → Bool) (es : List CompanyEmployee) → count t es ≡ 0 → find t es ≡ none
unfolding find count
find-none-of_count t [] h = refl
find-none-of_count t (e ∷ es) h = ground (arith, find-none-of_count t es)

unresolved :
    (sha256 : String → String) (token : String) (now : ℕ) (db : Database)
    → find (has_token (sha256 token)) db.employees ≡ none
    → resolve_invite sha256 token now db ≡ none
unfolding resolve_invite
unresolved sha256 token now db h =
    elim (is_empty token)
      as (λ b.
        (if b then none else usable now (find (has_token (sha256 token)) db.employees)) ≡ none) [
          | true ↦ refl
          | false ↦ ap (usable now) h
        ]

-- A refused invitation changes nothing. One that is redeemed belonged to an employee without an
-- account, was less than seven days old where it has a date, and its address was no user's: it adds
-- one user, a `client_user` of the employee's company with the employee's address and the hash of a
-- password of twelve characters and of three of the four classes that is no common one, which has
-- accepted the version of the terms in force, links the employee's row to it, and can never be
-- resolved again; where no two employees have one token.
pub signup_invite_once :
    (c : Characters) (hashes : Hashes) (salt token password : String) (accept_terms : Option String)
    (today now : ℕ) (db : Database)
    → count (has_token (hashes.sha256 token)) db.employees ≤ 1
    → Ensures
        (λ e s. s ≡ db)
        (λ user s. Joined c hashes salt token password today now db user s)
        (signup_invite c hashes salt token password accept_terms today now db)
unfolding signup_invite check_password
signup_invite_once c hashes salt token password accept_terms today now db unique =
    fetch-Ensures Bad Good _ _ _ _ (λ _. refl)
      λ employee invited.
        raise_if-Ensures Bad Good _ _ _ _ (λ _. refl)
          λ given.
            then-Ensures Bad (λ u s. (s ≡ db) × (validate_password c password ≡ none)) Good _ _ _
              (policy (validate_password c password) refl)
              λ s fine.
                raise_if-Ensures Bad Good _ _ _ _ (λ _. fine.0)
                  λ accepted.
                    fetch-Ensures Bad Good _ _ _ _ (λ _. fine.0)
                      λ terms in_force. gets-Ensures Bad Good _ _ _ (
                        raise_if-Ensures Bad Good _ _ _ _ (λ _. fine.0)
                          λ free. gets-Ensures Bad Good _ _ _ (
                            modify-Ensures Bad Good _ _ _ (
                              modify-Ensures Bad Good _ _ _ (
                                return-Ensures Bad Good _ _
                                  (joined employee terms s invited fine.0 fine.1 in_force free)))))
  where
    Bad : InviteError → Database → Type 0
    Bad e s = s ≡ db

    Good : User → Database → Type 0
    Good user s = Joined c hashes salt token password today now db user s

    checked : Option PasswordError → Type 0
    checked v =
        Ensures {S = Database} {E = InviteError} {A = Unit {0}} (λ e s. s ≡ db)
          (λ u s. (s ≡ db) × (validate_password c password ≡ none))
          (elim v [ none ↦ (ok tt, db) | some error ↦ (raise (weak error), db) ])

    policy :
        (v : Option PasswordError)
        → validate_password c password ≡ v
        → Ensures
            (λ e s. s ≡ db)
            (λ u s. (s ≡ db) × (validate_password c password ≡ none))
            (check_password c password db)
    policy none h = subst checked (sym h) (refl, h)
    policy (some error) h = subst checked (sym h) refl

    joined :
        (employee : CompanyEmployee) (terms : TermsVersion) (s : Database)
        → resolve_invite hashes.sha256 token now db ≡ some employee
        → s ≡ db
        → validate_password c password ≡ none
        → current_terms_version today s ≡ some terms
        → exists (λ u. str_eq u.email employee.email) s.users ≡ false
        → let user =
            invited_user employee (hashes.hashpw password salt) terms now (s.uuid4 s.drawn) in
          Good user (record s {
            users = s.users ++ user ∷ [];
            drawn = s.drawn + 1;
            employees =
                update_first (has_token (hashes.sha256 token)) (redeem_invite user.id) s.employees;
          })
    joined employee terms s invited same fine in_force free =
        let there = resolved hashes.sha256 token now db employee invited in
        let user =
          invited_user employee (hashes.hashpw password salt) terms now (s.uuid4 s.drawn) in
        let same_rows = ap (λ d. d.employees) same in
        let token_here = has_token (hashes.sha256 token) in
        record {
          employee = employee;
          invited = there.0;
          without_account = there.1;
          in_time = λ at e. within_week employee.invited_at now at e there.2;
          within_policy = validate_password-IsStrong c password fine;
          new_address =
              subst (λ us. exists (λ u. str_eq u.email employee.email) us ≡ false)
                (ap (λ d. d.users) same) free;
          same_company = refl;
          hashed = refl;
          same_address = refl;
          as_client_user = refl;
          users_grow = ap (λ us. us ++ user ∷ []) (ap (λ d. d.users) same);
          accepted_terms = record {
            terms = terms;
            is_current =
                current_terms_version-IsCurrent today db terms
                  (subst (λ d. current_terms_version today d ≡ some terms) same in_force);
            of_version = refl;
            at_time = refl;
          };
          linked = ap (update_first token_here (redeem_invite user.id)) same_rows;
          used_up = λ later. unresolved hashes.sha256 token later _ (
              find-none-of_count token_here
                (update_first token_here (redeem_invite user.id) s.employees)
                (none_left user.id s.employees
                  (subst (λ es. find token_here es ≡ some employee) (sym same_rows) there.0)
                  (subst (λ es. count token_here es ≤ 1) (sym same_rows) unique)));
        }
      where
        none_left :
            (id : ℕ) (es : List CompanyEmployee)
            → find (has_token (hashes.sha256 token)) es ≡ some employee
            → count (has_token (hashes.sha256 token)) es ≤ 1
            → count
                (has_token (hashes.sha256 token))
                (update_first (has_token (hashes.sha256 token)) (redeem_invite id) es)
              ≡ 0
        none_left id es found few =
            let one_fewer =
              count-update_first_cleared (has_token (hashes.sha256 token)) (redeem_invite id) es
                employee (λ e h. refl) found in
            omega (arith, one_fewer, few)
