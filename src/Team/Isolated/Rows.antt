-- ===== src/Team/Isolated/Rows.antt =====
-- The writes of one company leave the rows of another as they were.
use les_traiteurs_engages_v.Base.{
  Bool, List, Option, [], ap, arith, false, if◌then◌else◌, is_id, none, refl, select,
  select-append_other, select-update_first_other, some, true, update_first, ℕ, ◌++◌, ◌+◌, ◌==◌, ◌∙◌,
  ◌∷◌, ◌≡◌, ◌≢◌,
}
use les_traiteurs_engages_v.Models.{
  CompanyEmployee, CompanyService, Database, MembershipStatus, QuoteRequest, User,
}
use les_traiteurs_engages_v.Notifications.{Notice, notify}
use les_traiteurs_engages_v.Team.{is_employee}
use les_traiteurs_engages_v.Team.Memberships.{
  employee_of, is_pending_in, is_row_of, link, with_membership,
}

-- The rows of a company are the same in both.
pub record SameRows (other : ℕ) (before after : Database) : Type 0 where
  pub same_employees :
      select (λ (e : CompanyEmployee). e.company_id == other) after.employees
      ≡ select (λ (e : CompanyEmployee). e.company_id == other) before.employees
  pub same_services :
      select (λ (s : CompanyService). s.company_id == other) after.services
      ≡ select (λ (s : CompanyService). s.company_id == other) before.services
  pub same_users :
      select (λ (u : User). is_id u.company_id other) after.users
      ≡ select (λ (u : User). is_id u.company_id other) before.users

module _ (company other : ℕ) (apart : company ≢ other) where
  pub with_employees :
      (db : Database) (new : List CompanyEmployee) (n : ℕ)
      → select (λ (e : CompanyEmployee). e.company_id == other) new
        ≡ select (λ (e : CompanyEmployee). e.company_id == other) db.employees
      → SameRows other db (record db { employees = new; drawn = n })
  with_employees db new n h = record { same_employees = h; same_services = refl; same_users = refl }

  pub with_services :
      (db : Database) (new : List CompanyService) (n : ℕ) (rs : List QuoteRequest)
      → select (λ (s : CompanyService). s.company_id == other) new
        ≡ select (λ (s : CompanyService). s.company_id == other) db.services
      → SameRows other db (record db { services = new; drawn = n; requests = rs })
  with_services db new n rs h = record {
    same_employees = refl;
    same_services = h;
    same_users = refl;
  }

  pub not_other : (a : ℕ) → is_id (some company) a ≡ true → (a == other) ≡ false
  not_other a h = ground (arith, h, apart)

  pub write_own :
      (id : ℕ) (f : CompanyEmployee → CompanyEmployee) (es : List CompanyEmployee)
      → ((e : CompanyEmployee) → (f e).company_id ≡ e.company_id)
      → select
          (λ (e : CompanyEmployee). e.company_id == other)
          (update_first (is_employee id company) f es)
        ≡ select (λ (e : CompanyEmployee). e.company_id == other) es
  write_own id f es keeps =
      select-update_first_other (λ e. e.company_id == other) (is_employee id company) f es
        (λ e h. own e h) (λ e h. ap (λ c. c == other) (keeps e) ∙ own e h)
    where
      own :
          (e : CompanyEmployee) → is_employee id company e ≡ true → (e.company_id == other) ≡ false
      own e h = not_other e.company_id (ground (arith, h))

  pub new_is_own : (company == other) ≡ false
  new_is_own = ground (arith, apart)

  pub write_user :
      (user_id : ℕ) (status : MembershipStatus) (us : List User)
      → select
          (λ (u : User). is_id u.company_id other)
          (update_first (is_pending_in user_id company) (with_membership status) us)
        ≡ select (λ (u : User). is_id u.company_id other) us
  write_user user_id status us =
      select-update_first_other (λ u. is_id u.company_id other) (is_pending_in user_id company)
        (with_membership status) us (λ u h. own u h) (λ u h. own u h)
    where
      outside : (o : Option ℕ) → is_id o company ≡ true → is_id o other ≡ false
      outside none h = refl
      outside (some k) h = ground (arith, h, apart)

      own : (u : User) → is_pending_in user_id company u ≡ true → is_id u.company_id other ≡ false
      own u h = outside u.company_id (ground (arith, h))

  -- The row of an approved user is written or added, and the user is told.
  pub staffed :
      (b : Bool) (target : User) (n : Notice) (db d : Database)
      → SameRows other db d
      → SameRows other db (
          notify target.id n (
            if b
            then record d {
              employees = update_first (is_row_of company target) (link target) d.employees;
            }
            else record d {
              employees = d.employees ++ employee_of company target (d.uuid4 d.drawn) ∷ [];
              drawn = d.drawn + 1;
            }))
  unfolding notify
  staffed true target n db d h = record {
    same_employees =
        select-update_first_other (λ (e : CompanyEmployee). e.company_id == other)
          (is_row_of company target) (link target) d.employees (λ e r. row_own e r)
          (λ e r. row_own e r)
        ∙ h.same_employees;
    same_services = h.same_services;
    same_users = h.same_users;
  }
    where
      row_own :
          (e : CompanyEmployee)
          → is_row_of company target e ≡ true
          → (e.company_id == other) ≡ false
      row_own e r = ground (arith, r, apart)
  staffed false target n db d h = record {
    same_employees =
        select-append_other (λ (e : CompanyEmployee). e.company_id == other) d.employees _
          new_is_own
        ∙ h.same_employees;
    same_services = h.same_services;
    same_users = h.same_users;
  }

  pub with_users :
      (db : Database) (new : List User)
      → select (λ (u : User). is_id u.company_id other) new
        ≡ select (λ (u : User). is_id u.company_id other) db.users
      → SameRows other db (record db { users = new })
  with_users db new h = record { same_employees = refl; same_services = refl; same_users = h }
