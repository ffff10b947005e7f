-- ===== src/Signup.antt =====
-- blueprints/auth.py: sign-up by SIRET, and services/slugs.py. What `random` draws, bcrypt and its
-- salt, Python's str methods, the day and the clock are arguments.
pub mod Outcomes
pub mod Prefix
pub mod Guarded
use text.Mathlib.Text.{◌==◌ as str_eq}
use les_traiteurs_engages_v.Accounts.{
  Characters, Cookie, PasswordError, any_char, stamp_session, validate_password,
}
use les_traiteurs_engages_v.Base.{
  ◌>>◌, ◌>>=◌, str, map, Bool, Call, List, Option, String, [], chars, exists, fail, false, fetch,
  find, gets, if◌then◌else◌, is_empty, modify, none, not, raise_if, return, some, strip, true, ℕ,
  ◌+++◌, ◌++◌, ◌+◌, ◌==◌, ◌||◌, ◌∷◌,
}
use les_traiteurs_engages_v.Terms.{current_terms_version, is_terms_accepted}
use les_traiteurs_engages_v.Models.{
  TermsVersion, Caterer, Company, CompanyEmployee, CompanyService, Database, MembershipStatus, User,
  UserRole,
}
use les_traiteurs_engages_v.Notifications.{
  Notice, company_admin_user_ids, is_text, notify_users, super_admin_user_ids,
}
use les_traiteurs_engages_v.PasswordReset.{Hashes}

pub record SignupForm : Type 0 where
  pub role : String
  pub email : String
  pub password : String
  pub first_name : String
  pub last_name : String
  pub siret : String
  pub accept_terms : Option String
  pub caterer_name : String
  pub structure_type : String

-- The pages that send the form back, and the errors of the two helpers.
pub data SignupError : Type 0 where
  missing_fields terms_refused bad_siret no_terms_version email_taken : SignupError
  missing_caterer_fields no_prefix bad_role : SignupError
  weak : PasswordError → SignupError

-- The three ends of a sign-up; the last two stamp a session.
pub data SignupReply : Type 0 where
  waiting : User → SignupReply
  welcome_client welcome_caterer : User → Cookie → SignupReply

abbrev Signing : Type 0 → Type 0
Signing = Call Database SignupError

-- What every branch puts down: the hash, the version of the terms and the time of their acceptance.
pub record Entry : Type 0 where
  pub password_hash : String
  pub active_terms : TermsVersion
  pub accepted_at : ℕ

-- The address under which an account is kept.
abbrev pub clean_email : Characters → SignupForm → String
clean_email c form = c.lower (strip form.email)

abbrev is_incomplete : Characters → SignupForm → Bool
is_incomplete c form =
    is_empty form.role
    || is_empty (clean_email c form)
    || is_empty form.password
    || is_empty (strip form.first_name)
    || is_empty (strip form.last_name)
    || is_empty (strip form.siret)

-- `len(siret) != 14 or not siret.isdigit()`.
unfoldable pub is_bad_siret : Characters → String → Bool
is_bad_siret c siret = not (chars siret == 14) || any_char (λ x. not (c.is_digit x)) siret

-- What `random` draws for a prefix: the letters of `choices`, by their number, and the numbers of
-- `randint`, one for each turn of the last loop.
pub record Draws : Type 0 where
  pub choices : ℕ → String
  pub randints : List ℕ

abbrev pub slugs_of : Draws → List String
slugs_of d = d.choices 5 ∷ d.choices 8 ∷ d.choices 10 ∷ map str d.randints

-- The first that no caterer has.
unfoldable pub first_free : List String → Database → Option String
first_free [] db = none
first_free (slug ∷ slugs) db =
    let later = first_free slugs db in
    if exists (λ c. is_text c.invoice_prefix slug) db.caterers then later else some slug

abbrev pub generate_invoice_prefix : Draws → Database → Option String
generate_invoice_prefix d db = first_free (slugs_of d) db

abbrev pub account :
    Characters → SignupForm → Entry → UserRole → Option ℕ → Option ℕ → MembershipStatus → ℕ → User
account c form entry role company caterer status id = record {
  id = id;
  email = clean_email c form;
  password_hash = entry.password_hash;
  first_name = strip form.first_name;
  last_name = strip form.last_name;
  role = role;
  company_id = company;
  caterer_id = caterer;
  is_active = true;
  membership_status = some status;
  stripe_customer_id = none;
  password_changed_at = none;
  terms_accepted_version_id = some entry.active_terms.id;
  terms_accepted_at = some entry.accepted_at;
}

abbrev add_user : User → Database → Database
add_user user db = record db { users = db.users ++ user ∷ []; drawn = db.drawn + 1 }

abbrev company_by_siret : String → Database → Option Company
company_by_siret siret db = find (λ (c : Company). str_eq c.siret siret) db.companies

abbrev joining_notice : User → Notice
joining_notice user = record {
  type = "pending_membership";
  title = "Demande de rattachement";
  body =
      user.first_name
      +++ (" "
          +++ (user.last_name
              +++ (" (" +++ (user.email +++ ") souhaite rejoindre votre structure."))));
  related_entity_type = some "user";
  related_entity_id = some user.id;
}

-- The account asks to join a company that exists.
unfoldable pub join_company : Characters → SignupForm → Entry → Company → Signing SignupReply
join_company c form entry company = do
  user ← gets λ db.
      account c form entry UserRole.client_user (some company.id) none MembershipStatus.pending
        (db.uuid4 db.drawn)
  modify (add_user user)
  modify λ db. notify_users (company_admin_user_ids (some company.id) db) (joining_notice user) db
  return (waiting user)

abbrev new_company : String → ℕ → Company
new_company siret id = record { id = id; name = siret; siret = siret; logo_url = none }

abbrev direction_of : ℕ → ℕ → CompanyService
direction_of company id = record {
  id = id;
  company_id = company;
  name = "Direction";
  description = none;
  annual_budget = none;
}

abbrev administrator_of : ℕ → ℕ → User → ℕ → CompanyEmployee
administrator_of company service user id = record {
  id = id;
  company_id = company;
  service_id = some service;
  first_name = user.first_name;
  last_name = user.last_name;
  email = user.email;
  position = some "Administrateur";
  invited_at = none;
  invite_token = none;
  user_id = some user.id;
}

-- The account founds its company, with a service and a row in its staff.
unfoldable pub found_company : Characters → SignupForm → Entry → Signing SignupReply
found_company c form entry = do
  company ← gets λ db. new_company (strip form.siret) (db.uuid4 db.drawn)
  modify λ db. record db { companies = db.companies ++ company ∷ []; drawn = db.drawn + 1 }
  user ← gets λ db.
      account c form entry UserRole.client_admin (some company.id) none MembershipStatus.active
        (db.uuid4 db.drawn)
  modify (add_user user)
  service ← gets λ db. direction_of company.id (db.uuid4 db.drawn)
  modify λ db. record db { services = db.services ++ service ∷ []; drawn = db.drawn + 1 }
  employee ← gets λ db. administrator_of company.id service.id user (db.uuid4 db.drawn)
  modify λ db. record db { employees = db.employees ++ employee ∷ []; drawn = db.drawn + 1 }
  return (welcome_client user (stamp_session user))

abbrev new_caterer : SignupForm → String → ℕ → Caterer
new_caterer form prefix id = record {
  id = id;
  name = strip form.caterer_name;
  siret = strip form.siret;
  structure_type = strip form.structure_type;
  is_validated = false;
  service_offerings = [];
  commission_rate = 500;
  logo_url = none;
  stripe_account_id = none;
  stripe_charges_enabled = none;
  stripe_payouts_enabled = none;
  invoice_prefix = some prefix;
}

abbrev kitchen_notice : Caterer → Notice
kitchen_notice caterer = record {
  type = "caterer_pending_validation";
  title = "Nouveau traiteur en attente";
  body = caterer.name +++ (" (" +++ (caterer.structure_type +++ ") attend votre validation."));
  related_entity_type = some "caterer";
  related_entity_id = some caterer.id;
}

unfoldable pub open_kitchen : Characters → Draws → SignupForm → Entry → Signing SignupReply
open_kitchen c draws form entry = do
  raise_if (is_empty (strip form.caterer_name) || is_empty (strip form.structure_type))
      missing_caterer_fields
  prefix ← fetch (generate_invoice_prefix draws) no_prefix
  caterer ← gets λ db. new_caterer form prefix (db.uuid4 db.drawn)
  modify λ db. record db { caterers = db.caterers ++ caterer ∷ []; drawn = db.drawn + 1 }
  user ← gets λ db.
      account c form entry UserRole.caterer none (some caterer.id) MembershipStatus.active
        (db.uuid4 db.drawn)
  modify (add_user user)
  modify λ db. notify_users (super_admin_user_ids db) (kitchen_notice caterer) db
  return (welcome_caterer user (stamp_session user))

abbrev client_side : Characters → SignupForm → Entry → Option Company → Signing SignupReply
client_side c form entry (some company) = join_company c form entry company
client_side c form entry none = found_company c form entry

abbrev open_account : Characters → Draws → SignupForm → Entry → Option Company → Signing SignupReply
open_account c draws form entry company =
    if str_eq form.role "client_admin"
    then client_side c form entry company
    else if str_eq form.role "caterer"
    then open_kitchen c draws form entry
    else fail bad_role

unfoldable pub check_policy : Option PasswordError → Signing (Unit {0})
check_policy none = return tt
check_policy (some error) = fail (weak error)

-- `signup`, for a POST.
unfoldable pub signup :
    Characters → Hashes → String → Draws → ℕ → ℕ → SignupForm → Signing SignupReply
signup c hashes salt draws today now form = do
  raise_if (is_incomplete c form) missing_fields
  raise_if (not (is_terms_accepted c.lower form.accept_terms)) terms_refused
  raise_if (is_bad_siret c (strip form.siret)) bad_siret
  check_policy (validate_password c form.password)
  active_terms ← fetch (current_terms_version today) no_terms_version
  taken ← gets (λ db. exists (λ u. str_eq u.email (clean_email c form)) db.users)
  company ← gets (company_by_siret (strip form.siret))
  raise_if taken email_taken
  open_account c draws form
      (record {
        password_hash = hashes.hashpw form.password salt;
        active_terms = active_terms;
        accepted_at = now;
      })
      company
