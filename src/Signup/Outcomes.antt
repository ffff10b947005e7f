-- ===== src/Signup/Outcomes.antt =====
-- What a sign-up leaves behind on each of its branches.
use text.Mathlib.Text.{◌==◌ as str_eq}
use les_traiteurs_engages_v.Accounts.{
  missing_fields, user_by_email, Characters, Checker, Cookie, LoginReply, check_login, is_blocked,
  logged_in, login, refused_account, stamp_session, wrong_credentials,
}
use les_traiteurs_engages_v.Base.{
  is_empty, find-append_none, ap, strip, str_eq_refl, Bool, Bool-cases, List, String, [], arith,
  exists, false, find, if◌then◌else◌, inl, inr, none, not, refl, some, some_inj, subst, sym, true,
  ◌++◌, ◌||◌, ◌∙◌, ◌∷◌, ◌≡◌,
}
use les_traiteurs_engages_v.Models.{
  CompanyEmployee, UserRole, Caterer, Company, Database, MembershipStatus, User,
}
use les_traiteurs_engages_v.Notifications.{is_text}
use les_traiteurs_engages_v.Signup.{
  company_by_siret, SignupForm, SignupReply, clean_email, first_free, waiting, welcome_caterer,
  welcome_client,
}

-- The account that asks to join a company: it waits, and no login opens a session for it.
pub record Waits (c : Characters) (form : SignupForm) (db : Database) (user : User) (s : Database)
    : Type 0 where
  pub company : Company
  pub company_known : company_by_siret (strip form.siret) db ≡ some company
  pub of_company : user.company_id ≡ some company.id
  pub is_pending : user.membership_status ≡ some MembershipStatus.pending
  pub users_grow : s.users ≡ db.users ++ user ∷ []
  pub same_companies : s.companies ≡ db.companies
  pub no_entry :
      (check : Checker) (password : String) (cookie : Cookie)
      → (login c check form.email password cookie s).1 ≡ cookie

-- The account that founds its company, which nobody had founded.
pub record Founds (form : SignupForm) (db : Database) (user : User) (cookie : Cookie) (s : Database)
    : Type 0 where
  pub company : Company
  pub company_new : company_by_siret (strip form.siret) db ≡ none
  pub companies_grow : s.companies ≡ db.companies ++ company ∷ []
  pub of_siret : company.siret ≡ strip form.siret
  pub of_company : user.company_id ≡ some company.id
  pub is_admin : user.role ≡ UserRole.client_admin
  pub users_grow : s.users ≡ db.users ++ user ∷ []
  pub employee : CompanyEmployee
  pub employees_grow : s.employees ≡ db.employees ++ employee ∷ []
  pub is_employee : (employee.company_id ≡ company.id) × (employee.user_id ≡ some user.id)
  pub stamped : cookie ≡ stamp_session user

-- The account of a caterer, whom an administrator has yet to validate.
pub record OpensKitchen (db : Database) (user : User) (cookie : Cookie) (s : Database)
    : Type 0 where
  pub caterer : Caterer
  pub prefix : String
  pub caterers_grow : s.caterers ≡ db.caterers ++ caterer ∷ []
  pub not_validated : caterer.is_validated ≡ false
  pub has_prefix : caterer.invoice_prefix ≡ some prefix
  pub prefix_new : exists (λ c. is_text c.invoice_prefix prefix) db.caterers ≡ false
  pub of_caterer : user.caterer_id ≡ some caterer.id
  pub users_grow : s.users ≡ db.users ++ user ∷ []
  pub stamped : cookie ≡ stamp_session user

abbrev pub Guarded : Characters → SignupForm → Database → SignupReply → Database → Type 0
Guarded c form db (waiting user) s = Waits c form db user s
Guarded c form db (welcome_client user cookie) s = Founds form db user cookie s
Guarded c form db (welcome_caterer user cookie) s = OpensKitchen db user cookie s

-- The user of the account that is opened.
abbrev pub new_user : SignupReply → User
new_user (waiting user) = user
new_user (welcome_client user cookie) = user
new_user (welcome_caterer user cookie) = user

find-none-of_exists : (t : User → Bool) (us : List User) → exists t us ≡ false → find t us ≡ none
unfolding exists find
find-none-of_exists t [] h = refl
find-none-of_exists t (u ∷ us) h = ground (arith, find-none-of_exists t us, h)

found_alone : (t : User → Bool) (user : User) → t user ≡ true → find t (user ∷ []) ≡ some user
unfolding find
found_alone t user h = ground (arith, h)

pending_out :
    (check : Checker) (password : String) (user : User) (cookie : Cookie)
    → user.membership_status ≡ some MembershipStatus.pending
    → (check_login check password (some user) cookie).1 ≡ cookie
pending_out check password user cookie h =
    out (check.checkpw password user.password_hash) user.is_active
      (subst (λ m. is_blocked m ≡ true) (sym h) refl)
  where
    tried : Bool → Bool → Bool → LoginReply × Cookie
    tried right active blocked =
        if not right
        then (wrong_credentials, cookie)
        else if not active || blocked
        then (refused_account, cookie)
        else (logged_in user.role, stamp_session user)

    out :
        (right active : Bool)
        → is_blocked user.membership_status ≡ true
        → (tried right active (is_blocked user.membership_status)).1 ≡ cookie
    out right active b = ground (arith, b)

pub kept_out :
    (c : Characters) (check : Checker) (form : SignupForm) (password : String) (user : User)
    (cookie : Cookie) (db s : Database)
    → user.email ≡ clean_email c form
    → user.membership_status ≡ some MembershipStatus.pending
    → exists (λ u. str_eq u.email (clean_email c form)) db.users ≡ false
    → s.users ≡ db.users ++ user ∷ []
    → (login c check form.email password cookie s).1 ≡ cookie
unfolding login
kept_out c check form password user cookie db s mine pending free grown =
    elim (is_empty (clean_email c form) || is_empty password)
      as (λ b.
        (if b
          then (missing_fields, cookie)
          else check_login check password (user_by_email (clean_email c form) s) cookie).1
        ≡ cookie) [
          | true ↦ refl
          | false ↦
              ap (λ o. (check_login check password o cookie).1) found
              ∙ pending_out check password user cookie pending
        ]
  where
    own : find (λ u. str_eq u.email (clean_email c form)) (user ∷ []) ≡ some user
    own =
        found_alone (λ u. str_eq u.email (clean_email c form)) user
          (subst (λ e. str_eq e (clean_email c form) ≡ true) (sym mine)
            (str_eq_refl (clean_email c form)))

    found : user_by_email (clean_email c form) s ≡ some user
    found =
        ap (find (λ u. str_eq u.email (clean_email c form))) grown
        ∙ find-append_none (λ u. str_eq u.email (clean_email c form)) db.users (user ∷ [])
            (find-none-of_exists (λ u. str_eq u.email (clean_email c form)) db.users free)
        ∙ own

pub prefix-new :
    (draws : List String) (db : Database) (prefix : String)
    → first_free draws db ≡ some prefix
    → exists (λ c. is_text c.invoice_prefix prefix) db.caterers ≡ false
unfolding first_free
prefix-new [] db prefix h = cc
prefix-new (slug ∷ draws) db prefix h =
    elim (Bool-cases (exists (λ c. is_text c.invoice_prefix slug) db.caterers)) [
      | inl taken ↦ prefix-new draws db prefix (rw taken at h)
      | inr free ↦
          subst (λ p. exists (λ c. is_text c.invoice_prefix p) db.caterers ≡ false)
            (some_inj (rw free at h)) free
    ]
