-- ===== src/Accounts/Reset.antt =====
-- A password that is reset ends the sessions of its owner.
use text.Mathlib.Text.{◌==◌ as str_eq}
use les_traiteurs_engages_v.Accounts.{
  Characters, Cookie, PasswordError, ResetReply, admit, is_same_time, load_current_user,
  password_updated, passwords_differ, reset_password, reset_reply, validate_password, weak_password,
}
use les_traiteurs_engages_v.Accounts.Policy.{IsStrong, validate_password-IsStrong}
use les_traiteurs_engages_v.Base.{
  ==_iff, Ensures, Option, Option-cases, Result, String, ap, arith, false, find, find-holds,
  if◌then◌else◌, inl, inr, none, not, ok, raise, refl, some, subst, sym, true, ℕ, ◌==◌, ◌∙◌, ◌≡◌,
  ◌≢◌, ◌⊎◌, ◌≤◌,
}
use les_traiteurs_engages_v.Models.{PasswordResetToken, Database, User, user_by}
use les_traiteurs_engages_v.PasswordReset.{
  Hashes, ResetError, consume_token, set_password, token_by, use_up,
}
use les_traiteurs_engages_v.PasswordReset.Redeemed.{Redeemable, consume_token_resets}

-- What a reset leaves: the link was issued for its owner, not used, not expired, and is used now; the
-- owner's row has the hash of the new password, which is within the policy, and else what it had but
-- for the time of the change; a session of the owner that was stamped with another time than the
-- reset's is no longer honoured; and the sessions of the others are as before.
pub record SignedOut (c : Characters) (hashes : Hashes) (salt token new_password : String)
    (checked now : ℕ) (before after : Database) : Type 0 where
  pub link : PasswordResetToken
  pub link_found : token_by (hashes.sha256 token) before ≡ some link
  pub link_unused : link.used_at ≡ none
  pub link_current : checked ≤ link.expires_at
  pub link_used : token_by (hashes.sha256 token) after ≡ some (record link { used_at = some now })
  pub owner : User
  pub owner_found : find (λ u. u.id == link.user_id) before.users ≡ some owner
  pub password_set :
      find (λ u. u.id == link.user_id) after.users
      ≡ some (record owner {
        password_hash = hashes.hashpw new_password salt;
        password_changed_at = some now;
      })
  pub within_policy : IsStrong c new_password
  pub owner_out :
      (cookie : Cookie)
      → cookie.user_id ≡ some owner.id
      → is_same_time cookie.pwd_changed_at (some now) ≡ false
      → (load_current_user cookie after).0 ≡ none
  pub others_stay :
      (cookie : Cookie) (other : ℕ)
      → cookie.user_id ≡ some other
      → other ≢ owner.id
      → load_current_user cookie after ≡ load_current_user cookie before

loaded : Cookie → Option User → Option User × Cookie
loaded cookie o = elim o [ none ↦ (none, cookie) | some user ↦ admit cookie user ]

load_at :
    (cookie : Cookie) (id : ℕ) (db : Database)
    → cookie.user_id ≡ some id
    → load_current_user cookie db ≡ loaded cookie (find (λ u. u.id == id) db.users)
unfolding load_current_user loaded
load_at cookie id db h =
    ap
      (λ o. elim o [
        | none ↦ (none, cookie)
        | some id ↦ elim (find (λ u. u.id == id) db.users) [
          | none ↦ (none, cookie)
          | some user ↦ admit cookie user
        ]
      ])
      h

stale_out :
    (cookie : Cookie) (user : User)
    → is_same_time cookie.pwd_changed_at user.password_changed_at ≡ false
    → (admit cookie user).0 ≡ none
stale_out cookie user h = ground (arith, h)

-- The reset page either changes nothing, or uses up a link that was neither used nor expired, puts
-- the hash of the new password, which has twelve characters, of three of the four classes, and is no
-- common one, on the row of the user for whom the link was issued, and ends every session of that user
-- that does not date from the time of the reset, while the sessions of the others go on.
pub reset_password_signs_out :
    (c : Characters) (hashes : Hashes) (salt token new_password confirm : String) (checked now : ℕ)
    (db : Database)
    → let (reply, after) = reset_password c hashes salt token new_password confirm checked now db in
      (after ≡ db)
      ⊎ ((reply ≡ password_updated)
          × SignedOut c hashes salt token new_password checked now db after)
unfolding reset_password loaded
reset_password_signs_out c hashes salt token new_password confirm checked now db =
    elim (str_eq new_password confirm)
      as (λ b. Outcome (
        if not b
        then (passwords_differ, db)
        else checked_reply (validate_password c new_password))) [
          | false ↦ inl refl
          | true ↦ elim (Option-cases (validate_password c new_password)) [
            | inr (error, weak) ↦ subst (λ v. Outcome (checked_reply v)) (sym weak) (inl refl)
            | inl fine ↦
                subst (λ v. Outcome (checked_reply v)) (sym fine)
                  (replied fine (consume_token hashes salt token new_password checked now db)
                    (consume_token_resets hashes salt token new_password checked now db))
          ]
        ]
  where
    checked_reply : Option PasswordError → ResetReply × Database
    checked_reply v = elim v [
      | some error ↦ (weak_password error, db)
      | none ↦ reset_reply db (consume_token hashes salt token new_password checked now db)
    ]

    Outcome : ResetReply × Database → Type 0
    Outcome r =
        (r.1 ≡ db)
        ⊎ ((r.0 ≡ password_updated) × SignedOut c hashes salt token new_password checked now db r.1)

    Found : User → Database → Type 0
    Found user s =
        (found : Redeemable (hashes.sha256 token) checked db) × (user
          ≡ set_password (hashes.hashpw new_password salt) now found.owner)
        × (user_by found.row.user_id s ≡ some user)
        × ((other : ℕ) → other ≢ found.row.user_id → user_by other s ≡ user_by other db)
        × (token_by (hashes.sha256 token) s ≡ some (use_up now found.row))

    replied :
        validate_password c new_password ≡ none
        → (r : Result ResetError User × Database) → Ensures (λ e s. s ≡ db) Found r
        → Outcome (reset_reply db r)
    replied fine (raise e, s) h = inl refl
    replied fine (ok user, s) (found, made, there, rest, used) = inr (
      refl,
      let own =
            (==_iff found.owner.id found.row.user_id).0 (
              find-holds (λ u. u.id == found.row.user_id) db.users found.owner found.owner_found) in
          record {
            link = found.row;
            link_found = found.row_found;
            link_unused = found.is_unused;
            link_current = found.is_current;
            link_used = used;
            owner = found.owner;
            owner_found = found.owner_found;
            password_set = there ∙ ap some made;
            within_policy = validate_password-IsStrong c new_password fine;
            owner_out = λ cookie of_owner stale.
                ap (λ l. l.0) (load_at cookie found.owner.id s of_owner)
                ∙ ap (λ i. (loaded cookie (user_by i s)).0) own
                ∙ ap (λ o. (loaded cookie o).0) (there ∙ ap some made)
                ∙ stale_out cookie (set_password (hashes.hashpw new_password salt) now found.owner)
                    stale;
            others_stay = λ cookie other of_other differs.
                load_at cookie other s of_other
                ∙ ap (loaded cookie) (rest other (λ e. differs (e ∙ sym own)))
                ∙ sym (load_at cookie other db of_other);
          },
    )
