-- ===== src/PasswordReset/Once.antt =====
-- A link is redeemed once.
use les_traiteurs_engages_v.Base.{
  Bool-cases, Ensures, Ensures-map, List, String, [], fetch-some, find-append,
  find-update_first_kept, inl, inr, is_empty, is_some, none, or_rollback, or_rollback-holds, raise,
  raise_if-false, raise_if-true, refl, some, strip, subst, sym, true, ℕ, ◌∙◌, ◌∷◌, ◌≡◌,
}
use les_traiteurs_engages_v.Models.{Database, PasswordResetToken}
use les_traiteurs_engages_v.PasswordReset.{
  Hashes, active_user_by_email, consume_token, is_token, issue_token, kick_off_reset,
  reset_token_invalid, send_link, token_by, use_up,
}
use les_traiteurs_engages_v.PasswordReset.Redeemed.{consume_token-Ensures, consume_token_resets}

-- The two pages, as transactions: the link asked for with an e-mail address, and redeemed.
pub data ResetAction : Type 0 where
  forgot : String → ℕ → String → ResetAction
  redeeming : String → String → String → ℕ → ℕ → ResetAction

module _ (hashes : Hashes) (lower : String → String) (base_url : String) where
  -- `forgot_password` and `reset_password`, past their forms. The first commits, the second commits
  -- unless the link is refused.
  unfoldable pub perform_reset : ResetAction → Database → Database
  perform_reset (forgot raw now email) db =
      (kick_off_reset hashes lower base_url raw now (strip email) db).1
  perform_reset (redeeming salt raw password checked now) db =
      or_rollback db (consume_token hashes salt raw password checked now db)

  unfoldable pub perform_resets : List ResetAction → Database → Database
  perform_resets [] db = db
  perform_resets (a ∷ rest) db = perform_resets rest (perform_reset a db)

-- The link's row is used.
abbrev IsSpent : String → Database → Type 0
IsSpent digest db =
    (row : PasswordResetToken) × (token_by digest db ≡ some row) × (is_some row.used_at ≡ true)

spent-refused :
    (hashes : Hashes) (salt raw password : String) (checked now : ℕ) (db : Database)
    → IsSpent (hashes.sha256 raw) db
    → consume_token hashes salt raw password checked now db ≡ (raise reset_token_invalid, db)
unfolding consume_token
spent-refused hashes salt raw password checked now db (row, found, used) =
    elim (Bool-cases (is_empty raw)) [
      | inl none_given ↦ raise_if-true _ _ _ _ none_given
      | inr given ↦
          raise_if-false _ _ _ _ given ∙ fetch-some _ _ _ _ row found ∙ raise_if-true _ _ _ _ used
    ]

perform_reset-IsSpent :
    (hashes : Hashes) (lower : String → String) (base_url digest : String) (a : ResetAction)
    (db : Database)
    → IsSpent digest db
    → IsSpent digest (perform_reset hashes lower base_url a db)
unfolding perform_reset kick_off_reset issue_token
perform_reset-IsSpent hashes lower base_url digest (forgot raw now email) db (row, found, used) =
    elim (active_user_by_email (strip (lower (strip email))) db)
      as (λ o. IsSpent digest (send_link hashes base_url raw now o db).1) [
        | none ↦ (row, found, used)
        | some user ↦ (row, find-append (is_token digest) db.reset_tokens _ row found, used)
      ]
perform_reset-IsSpent hashes lower base_url digest (redeeming salt raw password checked now) db
      (row, found, used) =
    or_rollback-holds (IsSpent digest) db (consume_token hashes salt raw password checked now db)
      (row, found, used)
      (Ensures-map (consume_token hashes salt raw password checked now db) (λ e s h. tt)
        (λ user s g.
          subst (IsSpent digest) (sym g.1.2)
            (elim (find-update_first_kept (is_token digest) (is_token (hashes.sha256 raw))
              (use_up now) db.reset_tokens row (λ r. refl) found) [
                | inl same ↦ (row, same, used)
                | inr written ↦ (use_up now row, written, refl)
              ]))
        (consume_token-Ensures hashes salt raw password checked now db))

perform_resets-IsSpent :
    (hashes : Hashes) (lower : String → String) (base_url digest : String)
    (actions : List ResetAction) (db : Database)
    → IsSpent digest db
    → IsSpent digest (perform_resets hashes lower base_url actions db)
unfolding perform_resets
perform_resets-IsSpent hashes lower base_url digest [] db h = h
perform_resets-IsSpent hashes lower base_url digest (a ∷ rest) db h =
    perform_resets-IsSpent hashes lower base_url digest rest
      (perform_reset hashes lower base_url a db)
      (perform_reset-IsSpent hashes lower base_url digest a db h)

-- Once a link has been redeemed, it is refused and changes nothing, whatever links are asked for
-- and redeemed in between, with whatever password and at whatever time.
pub consume_token_once :
    (hashes : Hashes) (lower : String → String) (base_url salt raw password : String)
    (checked now : ℕ) (db : Database)
    → Ensures
        (λ e s. s ≡ db)
        (λ user s.
          (between : List ResetAction) (salt' password' : String) (checked' now' : ℕ)
          → let later = perform_resets hashes lower base_url between s in
            consume_token hashes salt' raw password' checked' now' later
            ≡ (raise reset_token_invalid, later))
        (consume_token hashes salt raw password checked now db)
consume_token_once hashes lower base_url salt raw password checked now db =
    Ensures-map (consume_token hashes salt raw password checked now db) (λ e s h. h)
      (λ user s g between salt' password' checked' now'.
        spent-refused hashes salt' raw password' checked' now'
          (perform_resets hashes lower base_url between s)
          (perform_resets-IsSpent hashes lower base_url (hashes.sha256 raw) between s
            (use_up now g.0.row, g.4, refl)))
      (consume_token_resets hashes salt raw password checked now db)
