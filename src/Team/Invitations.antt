-- ===== src/Team/Invitations.antt =====
-- blueprints/auth.py: an invitation of an employee, redeemed.
use text.Mathlib.Text.{◌==◌ as str_eq}
use les_traiteurs_engages_v.Accounts.{Characters, PasswordError, validate_password}
use les_traiteurs_engages_v.Base.{
  ◌>>◌, ◌>>=◌, return, update_first, modify, Bool, Call, Option, String, [], exists, false, fetch,
  find, gets, if◌then◌else◌, is_empty, is_some, leb, none, not, ok, raise, raise_if, some, true, ℕ,
  ◌++◌, ◌+◌, ◌-◌, ◌/◌, ◌||◌, ◌∷◌,
}
use les_traiteurs_engages_v.Terms.{current_terms_version, is_terms_accepted}
use les_traiteurs_engages_v.Models.{
  TermsVersion, CompanyEmployee, Database, MembershipStatus, User, UserRole,
}
use les_traiteurs_engages_v.Notifications.{is_text}
use les_traiteurs_engages_v.PasswordReset.{Hashes}

-- INVITE_TOKEN_TTL_DAYS.
abbrev invite_token_ttl_days : ℕ
invite_token_ttl_days = 7

abbrev pub is_expired : Option ℕ → ℕ → Bool
is_expired none now = false
is_expired (some at) now = leb invite_token_ttl_days ((now - at) / 86400)

abbrev pub has_token : String → CompanyEmployee → Bool
has_token digest e = is_text e.invite_token digest

abbrev pub usable : ℕ → Option CompanyEmployee → Option CompanyEmployee
usable now none = none
usable now (some e) = if is_some e.user_id || is_expired e.invited_at now then none else some e

-- `_resolve_invite`.
unfoldable pub resolve_invite : (String → String) → String → ℕ → Database → Option CompanyEmployee
resolve_invite sha256 token now db =
    if is_empty token then none else usable now (find (has_token (sha256 token)) db.employees)

-- Where `signup_invite` ends without an account.
pub data InviteError : Type 0 where
  invalid_invite missing_password terms_refused no_terms_version address_taken : InviteError
  weak : PasswordError → InviteError

abbrev pub invited_user : CompanyEmployee → String → TermsVersion → ℕ → ℕ → User
invited_user e hash terms now id = record {
  id = id;
  email = e.email;
  password_hash = hash;
  first_name = e.first_name;
  last_name = e.last_name;
  role = UserRole.client_user;
  company_id = some e.company_id;
  caterer_id = none;
  is_active = true;
  membership_status = some MembershipStatus.active;
  stripe_customer_id = none;
  password_changed_at = none;
  terms_accepted_version_id = some terms.id;
  terms_accepted_at = some now;
}

abbrev pub redeem_invite : ℕ → CompanyEmployee → CompanyEmployee
redeem_invite user_id e = record e { user_id = some user_id; invite_token = none }

unfoldable pub check_password : Characters → String → Call Database InviteError (Unit {0})
check_password c password db = elim (validate_password c password) [
  | none ↦ (ok tt, db)
  | some error ↦ (raise (weak error), db)
]

-- `signup_invite`, for a POST, with the check box, the day and the clock. The e-mail address that is
-- taken in between, which the database refuses, is
-- the case that the lookup finds here.
unfoldable pub signup_invite :
    Characters
    → Hashes
    → String
    → String
    → String
    → Option String
    → ℕ
    → ℕ
    → Call Database InviteError User
signup_invite c hashes salt token password accept_terms today now = do
  employee ← fetch (resolve_invite hashes.sha256 token now) invalid_invite
  raise_if (is_empty password) missing_password
  check_password c password
  raise_if (not (is_terms_accepted c.lower accept_terms)) terms_refused
  active_terms ← fetch (current_terms_version today) no_terms_version
  taken ← gets (λ db. exists (λ u. str_eq u.email employee.email) db.users)
  raise_if taken address_taken
  user ←
      gets λ db.
        invited_user employee (hashes.hashpw password salt) active_terms now (db.uuid4 db.drawn)
  modify λ db. record db { users = db.users ++ user ∷ []; drawn = db.drawn + 1 }
  modify λ db. record db {
    employees = update_first (has_token (hashes.sha256 token)) (redeem_invite user.id) db.employees;
  }
  return user
