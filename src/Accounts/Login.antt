-- ===== src/Accounts/Login.antt =====
-- Whom a login lets in, and that the session it opens is honoured.
use les_traiteurs_engages_v.Accounts.{
  Characters, Checker, Cookie, LoginReply, admit, check_login, is_blocked, is_same_time,
  load_current_user, logged_in, login, missing_fields, stamp_session, user_by_email,
}
use les_traiteurs_engages_v.Base.{
  ==_refl, Bool, Bool-cases, Option, String, ap, arith, false, find, if◌then◌else◌, inl, inr,
  is_empty, none, refl, some, strip, subst, sym, true, ℕ, ◌==◌, ◌||◌, ◌∙◌, ◌≡◌, ◌⊎◌,
}
use les_traiteurs_engages_v.Models.{Database, User}

abbrev pub is_logged_in : LoginReply → Bool
is_logged_in (logged_in role) = true
is_logged_in _ = false

-- A login that succeeds.
pub record Opened (check : Checker) (email password : String) (db : Database) (reply : LoginReply)
    (after : Cookie) : Type 0 where
  pub user : User
  pub user_found : user_by_email email db ≡ some user
  pub password_right : check.checkpw password user.password_hash ≡ true
  pub is_active : user.is_active ≡ true
  pub is_member : is_blocked user.membership_status ≡ false
  pub to_dashboard : reply ≡ logged_in user.role
  pub stamped : after ≡ stamp_session user
  pub honoured :
      find (λ u. u.id == user.id) db.users ≡ some user
      → load_current_user after db ≡ (some user, after)

same_time_refl : (t : Option ℕ) → is_same_time t t ≡ true
same_time_refl none = refl
same_time_refl (some a) = ==_refl a

stamp_honoured :
    (user : User) (db : Database)
    → user.is_active ≡ true
    → is_blocked user.membership_status ≡ false
    → find (λ u. u.id == user.id) db.users ≡ some user
    → load_current_user (stamp_session user) db ≡ (some user, stamp_session user)
unfolding load_current_user
stamp_honoured user db active member found =
    ap (λ o. elim o [ none ↦ (none, stamp_session user) | some u ↦ admit (stamp_session user) u ])
      found
    ∙ admitted
  where
    admitted : admit (stamp_session user) user ≡ (some user, stamp_session user)
    admitted = ground (arith, member, active, same_time_refl user.password_changed_at)

Outcome : Checker → String → String → Cookie → Database → LoginReply × Cookie → Type 0
Outcome check email password cookie db r =
    ((is_logged_in r.0 ≡ false) × (r.1 ≡ cookie)) ⊎ Opened check email password db r.0 r.1

check_login-Outcome :
    (check : Checker) (email password : String) (found : Option User) (cookie : Cookie)
    (db : Database)
    → user_by_email email db ≡ found
    → Outcome check email password cookie db (check_login check password found cookie)
unfolding Outcome
check_login-Outcome check email password none cookie db h = inl (refl, refl)
check_login-Outcome check email password (some user) cookie db h =
    elim (Bool-cases (check.checkpw password user.password_hash)) [
      | inr wrong ↦ rw wrong (inl (refl, refl))
      | inl right ↦ elim (Bool-cases user.is_active) [
        | inr inactive ↦ rw right (rw inactive (inl (refl, refl)))
        | inl active ↦ elim (Bool-cases (is_blocked user.membership_status)) [
          | inl blocked ↦ rw right (rw active (rw blocked (inl (refl, refl))))
          | inr member ↦
              subst (Outcome check email password cookie db) (sym (passes right active member)) (
                inr (record {
                  user = user;
                  user_found = h;
                  password_right = right;
                  is_active = active;
                  is_member = member;
                  to_dashboard = refl;
                  stamped = refl;
                  honoured = stamp_honoured user db active member;
                }))
        ]
      ]
    ]
  where
    passes :
        check.checkpw password user.password_hash ≡ true
        → user.is_active ≡ true
        → is_blocked user.membership_status ≡ false
        → check_login check password (some user) cookie ≡ (logged_in user.role, stamp_session user)
    passes right active member = ground (arith, right, active, member)

-- A login either fails and leaves the cookie alone, or it is of an active user whose membership is
-- neither pending nor refused, with the right password, and stamps a session that the next request
-- honours, where the user is the one with its identifier.
pub login-Opened :
    (c : Characters) (check : Checker) (email password : String) (cookie : Cookie) (db : Database)
    → let (reply, after) = login c check email password cookie db in
      ((is_logged_in reply ≡ false) × (after ≡ cookie))
      ⊎ Opened check (c.lower (strip email)) password db reply after
unfolding login Outcome
login-Opened c check email password cookie db =
    elim (is_empty (c.lower (strip email)) || is_empty password)
      as (λ b. Outcome check (c.lower (strip email)) password cookie db (
        if b
        then (missing_fields, cookie)
        else check_login check password (user_by_email (c.lower (strip email)) db) cookie)) [
          | true ↦ inl (refl, refl)
          | false ↦
              check_login-Outcome check (c.lower (strip email)) password
                (user_by_email (c.lower (strip email)) db) cookie db refl
        ]
