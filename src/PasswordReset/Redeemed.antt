-- ===== src/PasswordReset/Redeemed.antt =====
-- What a redeemed link has checked, and what it writes.
use les_traiteurs_engages_v.Base.{
  Ensures, Ensures-map, Option, String, ap, arith, false, fetch-Ensures, find-update_first,
  find-update_first_other, is_empty, is_some, modify-Ensures, none, raise_if-Ensures, refl,
  return-Ensures, some, sym, true, ℕ, ◌==◌, ◌∙◌, ◌≡◌, ◌≢◌, ◌≤◌,
}
use les_traiteurs_engages_v.Models.{Database, PasswordResetToken, User, user_by}
use les_traiteurs_engages_v.PasswordReset.{
  Hashes, ResetError, consume_token, is_token, redeem, set_password, token_by, use_up,
}

-- The rows behind a link that can be redeemed.
pub record Redeemable (digest : String) (checked : ℕ) (db : Database) : Type 0 where
  pub row : PasswordResetToken
  pub owner : User
  pub row_found : token_by digest db ≡ some row
  pub is_unused : row.used_at ≡ none
  pub is_current : checked ≤ row.expires_at
  pub owner_found : user_by row.user_id db ≡ some owner
  pub owner_active : owner.is_active ≡ true

is_none-of : {A : Type 0} (o : Option A) → is_some o ≡ false → o ≡ none
is_none-of none h = refl
is_none-of (some a) h = cc

pub consume_token-Ensures :
    (hashes : Hashes) (salt raw password : String) (checked now : ℕ) (db : Database)
    → Ensures
        (λ e s. s ≡ db)
        (λ user s.
          (is_empty raw ≡ false)
          × ((found : Redeemable (hashes.sha256 raw) checked db) × (user
                ≡ set_password (hashes.hashpw password salt) now found.owner)
              × (s
                  ≡ redeem
                      (hashes.sha256 raw)
                      found.row.user_id
                      (hashes.hashpw password salt)
                      now
                      db)))
        (consume_token hashes salt raw password checked now db)
unfolding consume_token
consume_token-Ensures hashes salt raw password checked now db =
    raise_if-Ensures Bad Good _ _ _ _ (λ _. refl)
      λ given.
        fetch-Ensures Bad Good _ _ _ _ (λ _. refl)
          λ row found.
            raise_if-Ensures Bad Good _ _ _ _ (λ _. refl)
              λ unused.
                raise_if-Ensures Bad Good _ _ _ _ (λ _. refl)
                  λ current.
                    fetch-Ensures Bad Good _ _ _ _ (λ _. refl)
                      λ owner o.
                        raise_if-Ensures Bad Good _ _ _ _ (λ _. refl)
                          λ active. modify-Ensures Bad Good _ _ _ (
                            return-Ensures Bad Good _ _ (
                              given,
                              (
                                record {
                                  row = row;
                                  owner = owner;
                                  row_found = found;
                                  is_unused = is_none-of row.used_at unused;
                                  is_current = ground (arith, current);
                                  owner_found = o;
                                  owner_active = ground (arith, active);
                                },
                                refl,
                                refl,
                              ),
                            ))
  where
    Bad : ResetError → Database → Type 0
    Bad e s = s ≡ db

    Good : User → Database → Type 0
    Good user s =
        (is_empty raw ≡ false)
        × ((found : Redeemable (hashes.sha256 raw) checked db) × (user
              ≡ set_password (hashes.hashpw password salt) now found.owner)
            × (s
                ≡ redeem (hashes.sha256 raw) found.row.user_id (hashes.hashpw password salt) now
                    db))

-- A refused link changes nothing. One that is redeemed was issued, unused and not expired, and its
-- owner is active: the owner's row then has the hash of the new password and the time of the
-- change, which the sessions are compared with; the row of every other user is as before, and the
-- link's row is used.
pub consume_token_resets :
    (hashes : Hashes) (salt raw password : String) (checked now : ℕ) (db : Database)
    → Ensures
        (λ e s. s ≡ db)
        (λ user s.
          (found : Redeemable (hashes.sha256 raw) checked db) × (user
            ≡ set_password (hashes.hashpw password salt) now found.owner)
          × (user_by found.row.user_id s ≡ some user)
          × ((other : ℕ) → other ≢ found.row.user_id → user_by other s ≡ user_by other db)
          × (token_by (hashes.sha256 raw) s ≡ some (use_up now found.row)))
        (consume_token hashes salt raw password checked now db)
consume_token_resets hashes salt raw password checked now db =
    Ensures-map (consume_token hashes salt raw password checked now db) (λ e s h. h)
      (λ user s g.
        let digest = hashes.sha256 raw in
        let hash = hashes.hashpw password salt in
        let found = g.1.0 in
        let at = g.1.2 in
        (
          found,
          g.1.1,
          ap (user_by found.row.user_id) at
              ∙ find-update_first (λ u. u.id == found.row.user_id) (set_password hash now) db.users
                  found.owner (λ u h. h) found.owner_found
              ∙ ap some (sym g.1.1),
          λ other differs.
              ap (user_by other) at
              ∙ find-update_first_other (λ u. u.id == other) (λ u. u.id == found.row.user_id)
                  (set_password hash now) db.users (λ u h. ground (arith, h, differs))
                  (λ u h. ground (arith, h, differs)),
          ap (token_by digest) at
              ∙ find-update_first (is_token digest) (use_up now) db.reset_tokens found.row
                  (λ r h. h) found.row_found,
        ))
      (consume_token-Ensures hashes salt raw password checked now db)
