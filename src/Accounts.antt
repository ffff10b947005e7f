-- ===== src/Accounts.antt =====
-- blueprints/auth.py and app.py: the password policy, the login, and the user of a session on each
-- request. bcrypt, and what Python's str methods say of a character, are arguments.
pub mod Policy
pub mod Login
pub mod Reset
pub mod Session
use Prim.Native.Char.{Char}
use text.Mathlib.Text.{◌==◌ as str_eq}
use les_traiteurs_engages_v.Base.{
  Bool, List, Option, Result, String, [], chars, exists, false, find, if◌then◌else◌, is_empty, ltb,
  none, not, ok, raise, some, strip, true, ℕ, ◌+◌, ◌==◌, ◌||◌, ◌∷◌,
}
use les_traiteurs_engages_v.Models.{Database, MembershipStatus, User, UserRole}
use les_traiteurs_engages_v.PasswordReset.{Hashes, ResetError, consume_token}

-- `str.lower`, and `islower`, `isupper`, `isdigit` and `isalnum` of one character.
pub record Characters : Type 0 where
  pub lower : String → String
  pub is_lower : Char → Bool
  pub is_upper : Char → Bool
  pub is_digit : Char → Bool
  pub is_alnum : Char → Bool

-- PASSWORD_MIN_LENGTH and PASSWORD_BLOCKLIST.
abbrev password_min_length : ℕ
password_min_length = 12

abbrev password_blocklist : List String
password_blocklist =
    "password" ∷ "password1" ∷ "password123" ∷ "passw0rd" ∷ "motdepasse" ∷ "azerty" ∷ "azerty123"
    ∷ "qwerty" ∷ "qwerty123" ∷ "qwertyuiop" ∷ "123456" ∷ "123456789" ∷ "1234567890" ∷ "111111"
    ∷ "000000" ∷ "12345678" ∷ "iloveyou" ∷ "admin" ∷ "admin123" ∷ "letmein" ∷ "welcome" ∷ "welcome1"
    ∷ "monkey" ∷ "dragon" ∷ "abc123" ∷ "abcdef" ∷ "changeme" ∷ "changeme123" ∷ "secret" ∷ "test1234"
    ∷ []

-- `any(t(c) for c in s)`.
unfoldable pub any_char : (Char → Bool) → String → Bool
any_char t String.[] = false
any_char t (String.◌∷◌ c s) = t c || any_char t s

-- The errors of `validate_password`.
pub data PasswordError : Type 0 where
  too_short too_common too_uniform : PasswordError

abbrev one_if : Bool → ℕ
one_if b = if b then 1 else 0

unfoldable pub classes : Characters → String → ℕ
classes c s =
    one_if (any_char c.is_lower s)
    + one_if (any_char c.is_upper s)
    + one_if (any_char c.is_digit s)
    + one_if (any_char (λ x. not (c.is_alnum x)) s)

unfoldable pub validate_password : Characters → String → Option PasswordError
validate_password c password =
    if ltb (chars password) password_min_length
    then some too_short
    else if exists (λ p. str_eq p (c.lower password)) password_blocklist
    then some too_common
    else if ltb (classes c password) 3
    then some too_uniform
    else none

-- The cookie: the user's identifier and the time of the password's last change at the login.
pub record Cookie : Type 0 where
  pub user_id : Option ℕ
  pub pwd_changed_at : Option ℕ

abbrev pub cleared : Cookie
cleared = record { user_id = none; pwd_changed_at = none }

-- `_stamp_session`, after `session.clear()`.
abbrev pub stamp_session : User → Cookie
stamp_session user = record { user_id = some user.id; pwd_changed_at = user.password_changed_at }

-- `membership_status in (pending, rejected)`.
abbrev pub is_blocked : Option MembershipStatus → Bool
is_blocked (some MembershipStatus.pending) = true
is_blocked (some MembershipStatus.rejected) = true
is_blocked _ = false

-- The page that `login` answers with; the last one is the redirection to a dashboard.
pub data LoginReply : Type 0 where
  missing_fields wrong_credentials refused_account : LoginReply
  logged_in : UserRole → LoginReply

-- bcrypt's comparison, and the hash that stands for a missing user's.
pub record Checker : Type 0 where
  pub checkpw : String → String → Bool
  pub dummy_password_hash : String

abbrev pub check_login : Checker → String → Option User → Cookie → LoginReply × Cookie
check_login check password none cookie =
    let password_ok = check.checkpw password check.dummy_password_hash in
    (wrong_credentials, cookie)
check_login check password (some user) cookie =
    if not (check.checkpw password user.password_hash)
    then (wrong_credentials, cookie)
    else if not user.is_active || is_blocked user.membership_status
    then (refused_account, cookie)
    else (logged_in user.role, stamp_session user)

abbrev pub user_by_email : String → Database → Option User
user_by_email email db = find (λ u. str_eq u.email email) db.users

-- `login`, for a POST with a form's e-mail address and password.
unfoldable pub login :
    Characters → Checker → String → String → Cookie → Database → LoginReply × Cookie
login c check email password cookie db =
    if is_empty (c.lower (strip email)) || is_empty password
    then (missing_fields, cookie)
    else check_login check password (user_by_email (c.lower (strip email)) db) cookie

-- A comparison of two nullable times.
abbrev is_same_time : Option ℕ → Option ℕ → Bool
is_same_time none none = true
is_same_time none (some b) = false
is_same_time (some a) none = false
is_same_time (some a) (some b) = a == b

abbrev admit : Cookie → User → Option User × Cookie
admit cookie user =
    if is_blocked user.membership_status
    then (none, cookie)
    else if not user.is_active
    then (none, cleared)
    else if is_same_time cookie.pwd_changed_at user.password_changed_at
    then (some user, cookie)
    else (none, cleared)

-- `load_current_user`, on a page that is neither static nor of the `auth` blueprint.
unfoldable pub load_current_user : Cookie → Database → Option User × Cookie
load_current_user cookie db = elim cookie.user_id [
  | none ↦ (none, cookie)
  | some id ↦ elim (find (λ u. u.id == id) db.users) [
    | none ↦ (none, cookie)
    | some user ↦ admit cookie user
  ]
]

-- What `reset_password` answers to a POST: two errors of the form, the refused link, and success.
pub data ResetReply : Type 0 where
  passwords_differ invalid_link password_updated : ResetReply
  weak_password : PasswordError → ResetReply

-- The commit after `consume_token`, and the redirection where it raises.
abbrev reset_reply : Database → Result ResetError User × Database → ResetReply × Database
reset_reply before (ok user, after) = (password_updated, after)
reset_reply before (raise e, after) = (invalid_link, before)

unfoldable pub reset_password :
    Characters
    → Hashes
    → String
    → String
    → String
    → String
    → ℕ
    → ℕ
    → Database
    → ResetReply × Database
reset_password c hashes salt token new_password confirm checked now db =
    if not (str_eq new_password confirm)
    then (passwords_differ, db)
    else elim (validate_password c new_password) [
      | some error ↦ (weak_password error, db)
      | none ↦ reset_reply db (consume_token hashes salt token new_password checked now db)
    ]
