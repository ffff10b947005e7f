-- ===== src/Accounts/Session.antt =====
-- Whom a cookie lets in.
use les_traiteurs_engages_v.Base.{
  Bool, Option, ap, arith, false, find, if◌then◌else◌, none, not, refl, some, some_inj, subst, true,
  ℕ, ◌==◌, ◌≡◌,
}
use les_traiteurs_engages_v.Accounts.{
  Cookie, admit, cleared, is_blocked, is_same_time, load_current_user,
}
use les_traiteurs_engages_v.Models.{Database, User}

-- The user of the cookie: active, of no blocked membership, with the password of the login.
pub record Admitted (cookie : Cookie) (db : Database) (user : User) : Type 0 where
  pub id : ℕ
  pub of_cookie : cookie.user_id ≡ some id
  pub found : find (λ u. u.id == id) db.users ≡ some user
  pub unblocked : is_blocked user.membership_status ≡ false
  pub active : user.is_active ≡ true
  pub same_password : cookie.pwd_changed_at ≡ user.password_changed_at

same_time-eq : (a b : Option ℕ) → is_same_time a b ≡ true → a ≡ b
same_time-eq none none h = refl
same_time-eq none (some b) h = cc
same_time-eq (some a) none h = cc
same_time-eq (some a) (some b) h = ap some (ground (arith, h))

-- `admit`, on the outcomes of its tests.
tried : Bool → Bool → Bool → Cookie → User → Option User × Cookie
tried blocked active same cookie user =
    if blocked
    then (none, cookie)
    else if not active
    then (none, cleared)
    else if same
    then (some user, cookie)
    else (none, cleared)

tried-some :
    (blocked active same : Bool) (cookie : Cookie) (user target : User)
    → (tried blocked active same cookie user).0 ≡ some target
    → (user ≡ target) × (blocked ≡ false) × (active ≡ true) × (same ≡ true)
unfolding tried
tried-some true active same cookie user target h = cc
tried-some false false same cookie user target h = cc
tried-some false true false cookie user target h = cc
tried-some false true true cookie user target h = (some_inj h, refl, refl, refl)

pub load_current_user-Admitted :
    (cookie : Cookie) (db : Database) (user : User)
    → (load_current_user cookie db).0 ≡ some user
    → Admitted cookie db user
unfolding load_current_user tried
load_current_user-Admitted cookie db user h = by_id cookie.user_id refl h
  where
    by_row :
        (id : ℕ) (o : Option User)
        → cookie.user_id ≡ some id
        → find (λ u. u.id == id) db.users ≡ o
        → (elim o as (λ _. Option User × Cookie) [
          | none ↦ (none, cookie)
          | some u ↦ admit cookie u
        ]).0
          ≡ some user
        → Admitted cookie db user
    by_row id none of_cookie found e = cc
    by_row id (some u) of_cookie found e =
        let (same, unblocked, active, time) =
          tried-some (is_blocked u.membership_status) u.is_active
            (is_same_time cookie.pwd_changed_at u.password_changed_at) cookie u user e in
        subst (Admitted cookie db) same (record {
          id = id;
          of_cookie = of_cookie;
          found = found;
          unblocked = unblocked;
          active = active;
          same_password = same_time-eq cookie.pwd_changed_at u.password_changed_at time;
        })

    by_id :
        (o : Option ℕ)
        → cookie.user_id ≡ o
        → (elim o as (λ _. Option User × Cookie) [
          | none ↦ (none, cookie)
          | some id ↦ elim (find (λ u. u.id == id) db.users) [
            | none ↦ (none, cookie)
            | some u ↦ admit cookie u
          ]
        ]).0
          ≡ some user
        → Admitted cookie db user
    by_id none of_cookie e = cc
    by_id (some id) of_cookie e = by_row id (find (λ u. u.id == id) db.users) of_cookie refl e
