-- ===== src/PasswordReset/Lifetime.antt =====
-- A link that was just sent is good for an hour.
use text.Mathlib.Text.{◌==◌ as str_eq}
use les_traiteurs_engages_v.Base.{String, false, is_empty, none, some, true, ℕ, ◌≡◌}
use les_traiteurs_engages_v.Models.{Database, PasswordResetToken, User, user_by}
use les_traiteurs_engages_v.PasswordReset.{Hashes, issue_token, token_by, token_for}

module _ (hashes : Hashes) (salt raw password : String) (issued checked now : ℕ) (user : User)
    (db : Database) (own : user_by user.id db ≡ some user) (active : user.is_active ≡ true)
    (fresh : token_by (hashes.sha256 raw) db ≡ none) (given : is_empty raw ≡ false) where
  issued_row : PasswordResetToken
  issued_row = token_for hashes raw issued user (db.uuid4 db.drawn)

  issued_db : Database
  issued_db = issue_token hashes raw issued user db
