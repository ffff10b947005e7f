-- ===== src/Team/Approved.antt =====
-- The approval of a user who asked to join a company.
use les_traiteurs_engages_v.Base.{
  ==_refl, Bool, Bool-cases, Ensures, IsKeyed, List, Option-cases, [], ap, arith, exists, false,
  fetch-Ensures, fetch-none, find, find-holds, find-key, if◌then◌else◌, inl, inr, is_id, length,
  length-update_first, modify-Ensures, modify_last-Ensures, none, raise, refl, some, some_inj,
  subst, sym, true, update_first, update_first-IsKeyed, ℕ, ◌&&◌, ◌++◌, ◌+◌, ◌==◌, ◌∙◌, ◌∷◌, ◌≡◌,
  ◌≤◌,
}
use les_traiteurs_engages_v.Models.{
  CompanyEmployee, Database, MembershipStatus, User, is_pending_member,
}
use les_traiteurs_engages_v.Notifications.{Notice, notify}
use les_traiteurs_engages_v.Scoping.{get_pending_user, is_same_id}
use les_traiteurs_engages_v.Team.{TeamError, not_found}
use les_traiteurs_engages_v.Team.Memberships.{
  employee_of, is_pending_in, is_row_of, link, put_on_staff, team_approve, with_membership,
}

-- What an approval leaves.
record Approved (company user_id : ℕ) (before after : Database) : Type 0 where
  pub target : User
  pub pending : get_pending_user user_id (some company) before ≡ some target
  pub now_active :
      find (λ u. u.id == user_id) after.users
      ≡ some (with_membership MembershipStatus.active target)
  pub on_staff :
      exists (λ e. e.company_id == company && is_id e.user_id target.id) after.employees ≡ true
  pub no_second_row : length after.employees ≤ length before.employees + 1
  pub told : length after.notifications ≡ length before.notifications + 1
  pub not_again : team_approve company user_id after ≡ (raise not_found, after)

exists-update_first :
    (t u : CompanyEmployee → Bool) (f : CompanyEmployee → CompanyEmployee)
    (es : List CompanyEmployee)
    → exists t es ≡ true
    → ((e : CompanyEmployee) → t e ≡ true → u (f e) ≡ true)
    → exists u (update_first t f es) ≡ true
unfolding exists update_first
exists-update_first t u f [] h k = cc
exists-update_first t u f (e ∷ es) h k = ground (arith, h, k e, exists-update_first t u f es)

exists-last :
    (t : CompanyEmployee → Bool) (es : List CompanyEmployee) (e : CompanyEmployee)
    → t e ≡ true
    → exists t (es ++ e ∷ []) ≡ true
unfolding exists
exists-last t [] e h = ground (arith, h)
exists-last t (x ∷ es) e h = ground (arith, exists-last t es e h)

length-last : {A : Type 0} (xs : List A) (x : A) → length (xs ++ x ∷ []) ≡ length xs + 1
length-last [] x = refl
length-last (y ∷ xs) x = ground (arith, length-last xs x)

-- The rows of the company after the approval, by whether the user had one.
staff_after : Bool → ℕ → User → Database → Database
staff_after b company target db =
    if b
    then record db {
      employees = update_first (is_row_of company target) (link target) db.employees;
    }
    else record db {
      employees = db.employees ++ employee_of company target (db.uuid4 db.drawn) ∷ [];
      drawn = db.drawn + 1;
    }

record Staffed (company : ℕ) (target : User) (before after : Database) : Type 0 where
  pub on_staff :
      exists (λ e. e.company_id == company && is_id e.user_id target.id) after.employees ≡ true
  pub no_second_row : length after.employees ≤ length before.employees + 1
  pub same_users : after.users ≡ before.users
  pub same_notifications : after.notifications ≡ before.notifications

staff_after-Staffed :
    (b : Bool) (company : ℕ) (target : User) (db : Database)
    → exists (is_row_of company target) db.employees ≡ b
    → Staffed company target db (staff_after b company target db)
unfolding staff_after
staff_after-Staffed true company target db h = record {
  on_staff =
      exists-update_first (is_row_of company target)
        (λ e. e.company_id == company && is_id e.user_id target.id) (link target) db.employees h
        (λ e own. linked e own);
  no_second_row =
      ground (arith, length-update_first (is_row_of company target) (link target) db.employees);
  same_users = refl;
  same_notifications = refl;
}
  where
    linked :
        (e : CompanyEmployee)
        → is_row_of company target e ≡ true
        → (e.company_id == company && (target.id == target.id)) ≡ true
    linked e own = ground (arith, own, ==_refl target.id)
staff_after-Staffed false company target db h = record {
  on_staff =
      exists-last (λ e. e.company_id == company && is_id e.user_id target.id) db.employees _
        (ground (arith, ==_refl company, ==_refl target.id));
  no_second_row =
      ground (arith, length-last db.employees (employee_of company target (db.uuid4 db.drawn)));
  same_users = refl;
  same_notifications = refl;
}

-- The row that a key finds, once the same row is written through another condition.
find-update_through :
    (t u : User → Bool) (f : User → User) (us : List User) (a : User)
    → ((x : User) → u x ≡ true → t x ≡ true)
    → ((x : User) → t (f x) ≡ t x)
    → find t us ≡ some a
    → find u us ≡ some a
    → find t (update_first u f us) ≡ some (f a)
unfolding find update_first
find-update_through t u f [] a h k e g = cc
find-update_through t u f (x ∷ us) a h k e g = elim (Bool-cases (u x)) [
  | inl y ↦ rw y (rw (k x ∙ h x y) (ap some (ap f (some_inj (rw y at g)))))
  | inr n ↦ elim (Bool-cases (t x)) [
    | inl y ↦ absurd (missed y n)
    | inr m ↦ rw n (rw m (find-update_through t u f us a h k (rw m at e) (rw n at g)))
  ]
]
  where
    missed : t x ≡ true → u x ≡ false → ⊥
    missed y n =
        let same = some_inj (rw y at e) in
        cc (subst (λ z. u z ≡ true) (sym same) (find-holds u us a (rw n at g)), n)

-- An approval of somebody who is not pending in the company changes nothing. Otherwise the user's
-- membership is active, the user is on the company's staff with at most one row more, one
-- notification is sent, and a second approval is refused; where identifiers of users are distinct.
team_approve-Approved :
    (company user_id : ℕ) (db : Database)
    → IsKeyed (λ (u : User). u.id) db.users
    → Ensures
        (λ e s. s ≡ db)
        (λ u s. Approved company user_id db s)
        (team_approve company user_id db)
unfolding team_approve get_pending_user staff_after notify
team_approve-Approved company user_id db keyed =
    fetch-Ensures Bad Good _ _ _ _ (λ _. refl)
      λ target pending.
        modify-Ensures Bad Good _ _ _ (
          modify-Ensures Bad Good _ _ _
            (modify_last-Ensures Bad Good _ _ (finish target pending _)))
  where
    Bad : TeamError → Database → Type 0
    Bad e s = s ≡ db

    Good : Unit {0} → Database → Type 0
    Good u s = Approved company user_id db s

    activate : User → User
    activate = with_membership MembershipStatus.active

    users_after : List User
    users_after = update_first (is_pending_in user_id company) activate db.users

    still_keyed : IsKeyed (λ (u : User). u.id) users_after
    still_keyed =
        update_first-IsKeyed (λ (u : User). u.id) (is_pending_in user_id company) activate db.users
          (λ u. refl) keyed

    active_now :
        (target : User)
        → find (is_pending_in user_id company) db.users ≡ some target
        → find (λ (u : User). u.id == user_id) users_after ≡ some (activate target)
    active_now target pending =
        find-update_through (λ u. u.id == user_id) (is_pending_in user_id company) activate db.users
          target (λ u h. ground (arith, h)) (λ u. refl)
          (find-key (λ (u : User). u.id)
            (λ u. is_same_id u.company_id (some company) && is_pending_member u.membership_status)
            user_id db.users target keyed pending)
          pending

    none_pending :
        (target : User)
        → find (is_pending_in user_id company) db.users ≡ some target
        → find (is_pending_in user_id company) users_after ≡ none
    none_pending target pending =
        elim (Option-cases (find (is_pending_in user_id company) users_after)) [
          | inl e ↦ e
          | inr (u, e) ↦
              let same = some_inj (
                sym (
                  find-key (λ (x : User). x.id)
                    (λ x.
                      is_same_id x.company_id (some company)
                      && is_pending_member x.membership_status)
                    user_id users_after u still_keyed e)
                ∙ active_now target pending) in
              absurd
                (settled target u same (find-holds (is_pending_in user_id company) users_after u e))
        ]
      where
        settled : (a u : User) → u ≡ activate a → is_pending_in user_id company u ≡ true → ⊥
        settled a u same h =
            not_pending (subst (λ x. is_pending_in user_id company x ≡ true) same h)
          where
            not_pending : is_pending_in user_id company (activate a) ≡ true → ⊥
            not_pending g = ground (arith, g)

    finish :
        (target : User)
        → get_pending_user user_id (some company) db ≡ some target
        → (n : Notice)
        → Approved company user_id db
            (notify target.id n (put_on_staff company target (record db { users = users_after })))
    finish target pending n =
        let d = record db { users = users_after } in
        let staffed =
          staff_after-Staffed (exists (is_row_of company target) db.employees) company target d
            refl in
        record {
          target = target;
          pending = pending;
          now_active =
              ap (find (λ (u : User). u.id == user_id)) staffed.same_users
              ∙ active_now target pending;
          on_staff = staffed.on_staff;
          no_second_row = staffed.no_second_row;
          told = length-last _ _ ∙ ap (λ ns. length ns + 1) staffed.same_notifications;
          not_again = fetch-none _ _ _ _ (
              ap (find (is_pending_in user_id company)) staffed.same_users
              ∙ none_pending target pending);
        }
