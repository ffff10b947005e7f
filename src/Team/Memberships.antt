-- ===== src/Team/Memberships.antt =====
-- blueprints/client/team.py: an administrator of the company approves or rejects who asks to join it.
use text.Mathlib.Text.{◌==◌ as str_eq}
use les_traiteurs_engages_v.Base.{
  ◌>>◌, ◌>>=◌, Bool, String, [], exists, fetch, find, if◌then◌else◌, is_id, modify, none, some,
  update_first, ℕ, ◌&&◌, ◌+++◌, ◌++◌, ◌+◌, ◌==◌, ◌||◌, ◌∷◌,
}
use les_traiteurs_engages_v.Models.{
  Company, CompanyEmployee, Database, MembershipStatus, User, is_pending_member,
}
use les_traiteurs_engages_v.Notifications.{Notice, notify}
use les_traiteurs_engages_v.Scoping.{get_pending_user, is_same_id}
use les_traiteurs_engages_v.Team.{Handling, not_found}

abbrev pub is_pending_in : ℕ → ℕ → User → Bool
is_pending_in user_id company u =
    u.id == user_id
    && (is_same_id u.company_id (some company) && is_pending_member u.membership_status)

abbrev pub with_membership : MembershipStatus → User → User
with_membership status u = record u { membership_status = some status }

-- The row of the approved user in the effectifs: linked already, or of the same address.
abbrev pub is_row_of : ℕ → User → CompanyEmployee → Bool
is_row_of company user e =
    e.company_id == company && (is_id e.user_id user.id || str_eq e.email user.email)

abbrev pub link : User → CompanyEmployee → CompanyEmployee
link user e = record e {
  user_id = some user.id;
  first_name = user.first_name;
  last_name = user.last_name;
  email = user.email;
  invite_token = none;
  invited_at = none;
}

abbrev pub employee_of : ℕ → User → ℕ → CompanyEmployee
employee_of company user id = record {
  id = id;
  company_id = company;
  service_id = none;
  first_name = user.first_name;
  last_name = user.last_name;
  email = user.email;
  position = none;
  invited_at = none;
  invite_token = none;
  user_id = some user.id;
}

abbrev pub put_on_staff : ℕ → User → Database → Database
put_on_staff company user db =
    if exists (is_row_of company user) db.employees
    then record db { employees = update_first (is_row_of company user) (link user) db.employees }
    else record db {
      employees = db.employees ++ employee_of company user (db.uuid4 db.drawn) ∷ [];
      drawn = db.drawn + 1;
    }

abbrev company_name : ℕ → Database → String
company_name company db = elim (find (λ (c : Company). c.id == company) db.companies) [
  | none ↦ "votre structure"
  | some c ↦ c.name
]

abbrev membership_notice : ℕ → String → Notice
membership_notice company name = record {
  type = "membership_approved";
  title = "Bienvenue !";
  body = "Votre rattachement à " +++ (name +++ " a été validé.");
  related_entity_type = some "company";
  related_entity_id = some company;
}

unfoldable pub team_approve : ℕ → ℕ → Handling (Unit {0})
team_approve company user_id = do
  target ← fetch (get_pending_user user_id (some company)) not_found
  modify λ db. record db {
    users =
        update_first (is_pending_in user_id company) (with_membership MembershipStatus.active)
          db.users;
  }
  modify (put_on_staff company target)
  modify λ db. notify target.id (membership_notice company (company_name company db)) db

unfoldable pub team_reject : ℕ → ℕ → Handling (Unit {0})
team_reject company user_id = do
  target ← fetch (get_pending_user user_id (some company)) not_found
  modify λ db. record db {
    users =
        update_first (is_pending_in user_id company) (with_membership MembershipStatus.rejected)
          db.users;
  }
