-- ===== src/PasswordReset.antt =====
-- services/password_reset.py, and the two pages of blueprints/auth.py that call it: a token is
-- issued, and redeemed once. SHA-256 and bcrypt, the random token, the salt and the readings of the
-- clock are arguments, as is Unicode's `str.lower`.
pub mod Redeemed
pub mod Once
pub mod Lifetime
use text.Mathlib.Text.{◌==◌ as str_eq}
use les_traiteurs_engages_v.Base.{
  ◌>>◌, ◌>>=◌, Bool, Call, Option, String, [], fetch, find, if◌then◌else◌, is_empty, is_some, ltb,
  modify, none, not, raise_if, return, some, strip, update_first, ℕ, ◌+++◌, ◌++◌, ◌+◌, ◌/◌, ◌==◌,
  ◌∷◌,
}
use les_traiteurs_engages_v.Models.{Database, PasswordResetToken, User, user_by}

-- `ResetTokenInvalid`.
pub data ResetError : Type 0 where
  reset_token_invalid : ResetError

-- RESET_TOKEN_TTL, in seconds.
abbrev reset_token_ttl : ℕ
reset_token_ttl = 3600

-- What hashlib and bcrypt compute: the hexadecimal digest of a text, and the hash of a password
-- with a salt.
pub record Hashes : Type 0 where
  pub sha256 : String → String
  pub hashpw : String → String → String

abbrev is_token : String → PasswordResetToken → Bool
is_token digest row = str_eq row.token digest

abbrev pub token_by : String → Database → Option PasswordResetToken
token_by digest db = find (is_token digest) db.reset_tokens

abbrev token_for : Hashes → String → ℕ → User → ℕ → PasswordResetToken
token_for hashes raw now user id = record {
  id = id;
  user_id = user.id;
  token = hashes.sha256 raw;
  expires_at = now + reset_token_ttl;
  used_at = none;
}

-- `issue_token`, without the pair that it returns: the row is the last of the table.
unfoldable pub issue_token : Hashes → String → ℕ → User → Database → Database
issue_token hashes raw now user db = record db {
  reset_tokens = db.reset_tokens ++ token_for hashes raw now user (db.uuid4 db.drawn) ∷ [];
  drawn = db.drawn + 1;
}

abbrev pub use_up : ℕ → PasswordResetToken → PasswordResetToken
use_up now row = record row { used_at = some now }

abbrev pub set_password : String → ℕ → User → User
set_password hash now user = record user { password_hash = hash; password_changed_at = some now }

abbrev redeem : String → ℕ → String → ℕ → Database → Database
redeem digest user_id hash now db = record db {
  reset_tokens = update_first (is_token digest) (use_up now) db.reset_tokens;
  users = update_first (λ u. u.id == user_id) (set_password hash now) db.users;
}

-- `consume_token`; `checked` is the reading of the clock for the expiry, `now` the later one.
unfoldable pub consume_token :
    Hashes → String → String → String → ℕ → ℕ → Call Database ResetError User
consume_token hashes salt raw password checked now = do
  raise_if (is_empty raw) reset_token_invalid
  row ← fetch (token_by (hashes.sha256 raw)) reset_token_invalid
  raise_if (is_some row.used_at) reset_token_invalid
  raise_if (ltb row.expires_at checked) reset_token_invalid
  user ← fetch (user_by row.user_id) reset_token_invalid
  raise_if (not user.is_active) reset_token_invalid
  modify (redeem (hashes.sha256 raw) row.user_id (hashes.hashpw password salt) now)
  return (set_password (hashes.hashpw password salt) now user)

-- The message that is queued.
pub record ResetMail : Type 0 where
  pub to : String
  pub reset_url : String
  pub ttl_minutes : ℕ

abbrev pub reset_mail : String → String → User → ResetMail
reset_mail base_url raw user = record {
  to = user.email;
  reset_url = base_url +++ ("/reset-password/" +++ raw);
  ttl_minutes = reset_token_ttl / 60;
}

abbrev active_user_by_email : String → Database → Option User
active_user_by_email email db = elim (find (λ u. str_eq u.email email) db.users) [
  | none ↦ none
  | some user ↦ if user.is_active then some user else none
]

-- What `kick_off_reset` does for the user who is found: the queued message, if any, and the
-- database.
abbrev send_link :
    Hashes → String → String → ℕ → Option User → Database → Option ResetMail × Database
send_link hashes base_url raw now none db = (none, db)
send_link hashes base_url raw now (some user) db =
    (some (reset_mail base_url raw user), issue_token hashes raw now user db)

unfoldable pub kick_off_reset :
    Hashes
    → (String → String)
    → String
    → String
    → ℕ
    → String
    → Database
    → Option ResetMail × Database
kick_off_reset hashes lower base_url raw now email db =
    send_link hashes base_url raw now (active_user_by_email (strip (lower email)) db) db
