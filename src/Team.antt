-- ===== src/Team.antt =====
-- blueprints/client/team.py: the services and the people of a company, as its administrator edits
-- them, and the invitations. `company` is the administrator's. A form comes validated, with `none` for one that is not; the random token,
-- SHA-256, the clock and `str.lower` are arguments. What goes into cookies is left out.
pub mod Invitations
pub mod Memberships
pub mod Run
pub mod Settled
pub mod Linked
pub mod Isolated
pub mod Approved
pub mod Invited
use text.Mathlib.Text.{◌==◌ as str_eq}
use les_traiteurs_engages_v.Base.{
  ◌>>◌, ◌>>=◌, Bool, Call, Option, String, [], count, delete_first, exists, fetch, find, gets,
  is_id, is_some, ltb, modify, none, raise_if, some, strip, text_or, text_or_none, update_first,
  update_where, ℕ, ◌&&◌, ◌++◌, ◌+◌, ◌==◌, ◌∷◌,
}
use les_traiteurs_engages_v.Models.{CompanyEmployee, CompanyService, Database, QuoteRequest}
use les_traiteurs_engages_v.Scoping.{get_company_employee, get_company_service}

-- Where a handler ends without its write: `abort(404)`, or a message on the page.
pub data TeamError : Type 0 where
  not_found invalid_form service_in_use duplicate_email own_row has_account : TeamError

abbrev pub Handling : Type 0 → Type 0
Handling = Call Database TeamError

record ServiceForm : Type 0 where
  pub name : String
  pub description : Option String
  pub annual_budget : Option ℕ

-- `service_id` is the UUID that the field holds, if it holds one.
record EmployeeForm : Type 0 where
  pub first_name : String
  pub last_name : String
  pub email : String
  pub position : Option String
  pub service_id : Option ℕ

-- `(field or "").strip() or None`.
abbrev pub clean : Option String → Option String
clean field = text_or_none (some (strip (text_or field "")))

abbrev is_service : ℕ → ℕ → CompanyService → Bool
is_service id company s = s.id == id && is_id (some company) s.company_id

abbrev pub is_employee : ℕ → ℕ → CompanyEmployee → Bool
is_employee id company e = e.id == id && is_id (some company) e.company_id

abbrev write_service : ServiceForm → CompanyService → CompanyService
write_service form s = record s {
  name = strip form.name;
  description = clean form.description;
  annual_budget = form.annual_budget;
}

abbrev new_service : ℕ → ServiceForm → ℕ → CompanyService
new_service company form id = record {
  id = id;
  company_id = company;
  name = strip form.name;
  description = clean form.description;
  annual_budget = form.annual_budget;
}

unfoldable team_service_create : ℕ → Option ServiceForm → Handling (Unit {0})
team_service_create company submitted = do
  form ← fetch (λ db. submitted) invalid_form
  modify λ db. record db {
    services = db.services ++ new_service company form (db.uuid4 db.drawn) ∷ [];
    drawn = db.drawn + 1;
  }

unfoldable team_service_edit : ℕ → ℕ → Option ServiceForm → Handling (Unit {0})
team_service_edit company service_id submitted = do
  service ← fetch (get_company_service service_id (some company)) not_found
  form ← fetch (λ db. submitted) invalid_form
  modify λ db. record db {
    services = update_first (is_service service_id company) (write_service form) db.services;
  }

-- What SQLAlchemy does to the requests of a service that is deleted: their column is set to NULL.
abbrev without_service : QuoteRequest → QuoteRequest
without_service r = record r { company_service_id = none }

unfoldable team_service_delete : ℕ → ℕ → Handling (Unit {0})
team_service_delete company service_id = do
  service ← fetch (get_company_service service_id (some company)) not_found
  employee_count ← gets (λ db. count (λ e. is_id e.service_id service_id) db.employees)
  raise_if (ltb 0 employee_count) service_in_use
  modify λ db. record db {
    services = delete_first (is_service service_id company) db.services;
    requests =
        update_where (λ r. is_id r.company_service_id service_id) without_service db.requests;
  }

-- `own_service_id`.
abbrev pub own_service_id : ℕ → Option ℕ → Database → Option ℕ
own_service_id company none db = none
own_service_id company (some raw) db = elim (find (is_service raw company) db.services) [
  | none ↦ none
  | some s ↦ some s.id
]

abbrev new_employee : ℕ → EmployeeForm → String → Option ℕ → String → ℕ → ℕ → CompanyEmployee
new_employee company form email service digest now id = record {
  id = id;
  company_id = company;
  service_id = service;
  first_name = strip form.first_name;
  last_name = strip form.last_name;
  email = email;
  position = clean form.position;
  invited_at = some now;
  invite_token = some digest;
  user_id = none;
}

module _ (lower sha256 : String → String) where
  unfoldable team_employee_create : ℕ → Option EmployeeForm → String → ℕ → Handling (Unit {0})
  team_employee_create company submitted raw_token now = do
    form ← fetch (λ db. submitted) invalid_form
    duplicate ← gets (λ db.
        exists (λ e. e.company_id == company && str_eq e.email (lower (strip form.email)))
          db.employees)
    raise_if duplicate duplicate_email
    modify λ db. record db {
      employees =
          db.employees
          ++ new_employee company form (lower (strip form.email))
              (own_service_id company form.service_id db) (sha256 raw_token) now (db.uuid4 db.drawn)
            ∷ [];
      drawn = db.drawn + 1;
    }

abbrev write_employee :
    (String → String) → EmployeeForm → Option ℕ → CompanyEmployee → CompanyEmployee
write_employee lower form service e = record e {
  first_name = strip form.first_name;
  last_name = strip form.last_name;
  email = lower (strip form.email);
  position = clean form.position;
  service_id = service;
}

unfoldable team_employee_edit :
    (String → String) → ℕ → ℕ → Option EmployeeForm → Handling (Unit {0})
team_employee_edit lower company employee_id submitted = do
  employee ← fetch (get_company_employee employee_id (some company)) not_found
  form ← fetch (λ db. submitted) invalid_form
  modify λ db. record db {
    employees =
        update_first (is_employee employee_id company)
          (write_employee lower form (own_service_id company form.service_id db)) db.employees;
  }

unfoldable pub team_employee_delete : ℕ → ℕ → ℕ → Handling (Unit {0})
team_employee_delete company admin_id employee_id = do
  employee ← fetch (get_company_employee employee_id (some company)) not_found
  raise_if (is_id employee.user_id admin_id) own_row
  modify λ db. record db { employees = delete_first (is_employee employee_id company) db.employees }

abbrev with_invite : Option String → Option ℕ → CompanyEmployee → CompanyEmployee
with_invite token at e = record e { invite_token = token; invited_at = at }

unfoldable team_employee_invite : (String → String) → ℕ → ℕ → String → ℕ → Handling (Unit {0})
team_employee_invite sha256 company employee_id raw_token now = do
  employee ← fetch (get_company_employee employee_id (some company)) not_found
  raise_if (is_some employee.user_id) has_account
  modify λ db. record db {
    employees =
        update_first (is_employee employee_id company)
          (with_invite (some (sha256 raw_token)) (some now)) db.employees;
  }

unfoldable team_employee_invite_revoke : ℕ → ℕ → Handling (Unit {0})
team_employee_invite_revoke company employee_id = do
  employee ← fetch (get_company_employee employee_id (some company)) not_found
  modify λ db. record db {
    employees = update_first (is_employee employee_id company) (with_invite none none) db.employees;
  }
