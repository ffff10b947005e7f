-- ===== src/Team/Isolated.antt =====
-- The team page of one company does not touch the rows of another.
pub mod Rows
use les_traiteurs_engages_v.Base.{
  ◌>>=◌, fetch, Ensures, Option, String, arith, exists, fetch-Ensures, gets-Ensures, modify-Ensures,
  modify_last-Ensures, none, or_rollback-holds, raise_if-Ensures, refl, select, select-append_other,
  select-delete_first_other, select-update_first_other, some, ℕ, ◌+◌, ◌==◌, ◌≡◌, ◌≢◌,
}
use les_traiteurs_engages_v.Models.{CompanyEmployee, CompanyService, Database, MembershipStatus}
use les_traiteurs_engages_v.Team.{
  ServiceForm, Handling, EmployeeForm, TeamError, is_employee, is_service, own_service_id,
  team_employee_create, team_employee_delete, team_employee_edit, team_employee_invite,
  team_employee_invite_revoke, team_service_create, team_service_delete, team_service_edit,
  with_invite, write_employee, write_service,
}
use les_traiteurs_engages_v.Team.Memberships.{is_row_of, team_approve, team_reject}
use les_traiteurs_engages_v.Team.Run.{
  TeamAction, approve_user, create_employee, create_service, delete_employee, delete_service,
  edit_employee, edit_service, handler, invite_employee, perform_team, reject_user, revoke_invite,
}
use les_traiteurs_engages_v.Team.Isolated.Rows.{
  SameRows, with_employees, with_services, not_other, write_own, new_is_own, write_user, staffed,
  with_users,
}

module _ (lower sha256 : String → String) (company admin_id other : ℕ)
    (apart : company ≢ other) where
  Bad : TeamError → Database → Type 0
  Bad e s = Unit

  Good : Database → Unit {0} → Database → Type 0
  Good db u s = SameRows other db s

  module _ (db : Database) where
    -- The steps of a handler, where an exception needs no proof.
    given :
        {A : Type 0} (q : Database → Option A) (e : TeamError) (k : A → Handling (Unit {0}))
        → ((a : A) → q db ≡ some a → Ensures Bad (Good db) (k a db))
        → Ensures Bad (Good db) ((fetch q e >>= k) db)
    unfolding Bad
    given q e k next = fetch-Ensures Bad (Good db) q e k db (λ _. tt) next

    service_create-SameRows :
        (form : Option ServiceForm) → Ensures Bad (Good db) (team_service_create company form db)
    unfolding team_service_create Good Bad
    service_create-SameRows form = given _ _ _ λ f given. modify_last-Ensures Bad (Good db) _ _ (
        with_services company other apart db _ (db.drawn + 1) db.requests (
          select-append_other (λ (s : CompanyService). s.company_id == other) db.services _
            (new_is_own company other apart)))

    service_edit-SameRows :
        (id : ℕ) (form : Option ServiceForm)
        → Ensures Bad (Good db) (team_service_edit company id form db)
    unfolding team_service_edit Good Bad
    service_edit-SameRows id form = given _ _ _ λ s there. given _ _ _ λ f given.
        modify_last-Ensures Bad (Good db) _ _ (
          with_services company other apart db _ db.drawn db.requests (
            select-update_first_other (λ s. s.company_id == other) (is_service id company)
              (write_service f) db.services
              (λ s h. not_other company other apart s.company_id (ground (arith, h)))
              (λ s h. not_other company other apart s.company_id (ground (arith, h)))))

    service_delete-SameRows : (id : ℕ) → Ensures Bad (Good db) (team_service_delete company id db)
    unfolding team_service_delete Good Bad
    service_delete-SameRows id = given _ _ _ λ s there. gets-Ensures Bad (Good db) _ _ _ (
        raise_if-Ensures Bad (Good db) _ _ _ _ (λ _. tt)
          λ unused. modify_last-Ensures Bad (Good db) _ _ (
            with_services company other apart db _ db.drawn _ (
              select-delete_first_other (λ s. s.company_id == other) (is_service id company)
                db.services
                (λ s h. not_other company other apart s.company_id (ground (arith, h))))))

    employee_create-SameRows :
        (form : Option EmployeeForm) (raw : String) (now : ℕ)
        → Ensures Bad (Good db) (team_employee_create lower sha256 company form raw now db)
    unfolding team_employee_create Good Bad
    employee_create-SameRows form raw now = given _ _ _ λ f given.
        gets-Ensures Bad (Good db) _ _ _ (
          raise_if-Ensures Bad (Good db) _ _ _ _ (λ _. tt)
            λ fresh. modify_last-Ensures Bad (Good db) _ _ (
              with_employees company other apart db _ (db.drawn + 1) (
                select-append_other (λ (e : CompanyEmployee). e.company_id == other) db.employees _
                  (new_is_own company other apart))))

    employee_edit-SameRows :
        (id : ℕ) (form : Option EmployeeForm)
        → Ensures Bad (Good db) (team_employee_edit lower company id form db)
    unfolding team_employee_edit Good Bad
    employee_edit-SameRows id form = given _ _ _ λ e there. given _ _ _ λ f given.
        modify_last-Ensures Bad (Good db) _ _ (
          with_employees company other apart db _ db.drawn (
            write_own company other apart id
              (write_employee lower f (own_service_id company f.service_id db)) db.employees
              (λ e. refl)))

    employee_delete-SameRows :
        (id : ℕ) → Ensures Bad (Good db) (team_employee_delete company admin_id id db)
    unfolding team_employee_delete Good Bad
    employee_delete-SameRows id = given _ _ _ λ e there.
        raise_if-Ensures Bad (Good db) _ _ _ _ (λ _. tt)
          λ not_own. modify_last-Ensures Bad (Good db) _ _ (
            with_employees company other apart db _ db.drawn (
              select-delete_first_other (λ e. e.company_id == other) (is_employee id company)
                db.employees
                (λ e h. not_other company other apart e.company_id (ground (arith, h)))))

    employee_invite-SameRows :
        (id : ℕ) (raw : String) (now : ℕ)
        → Ensures Bad (Good db) (team_employee_invite sha256 company id raw now db)
    unfolding team_employee_invite Good Bad
    employee_invite-SameRows id raw now = given _ _ _ λ e there.
        raise_if-Ensures Bad (Good db) _ _ _ _ (λ _. tt)
          λ free. modify_last-Ensures Bad (Good db) _ _ (
            with_employees company other apart db _ db.drawn (
              write_own company other apart id (with_invite (some (sha256 raw)) (some now))
                db.employees (λ e. refl)))

    invite_revoke-SameRows :
        (id : ℕ) → Ensures Bad (Good db) (team_employee_invite_revoke company id db)
    unfolding team_employee_invite_revoke Good Bad
    invite_revoke-SameRows id = given _ _ _ λ e there. modify_last-Ensures Bad (Good db) _ _ (
        with_employees company other apart db _ db.drawn
          (write_own company other apart id (with_invite none none) db.employees (λ e. refl)))

    approve-SameRows : (user_id : ℕ) → Ensures Bad (Good db) (team_approve company user_id db)
    unfolding team_approve Good Bad
    approve-SameRows user_id = given _ _ _ λ target there. modify-Ensures Bad (Good db) _ _ _ (
        modify-Ensures Bad (Good db) _ _ _ (
          modify_last-Ensures Bad (Good db) _ _ (
            staffed company other apart (exists (is_row_of company target) db.employees) target _ db
              _
              (with_users company other apart db _
                (write_user company other apart user_id MembershipStatus.active db.users)))))

    reject-SameRows : (user_id : ℕ) → Ensures Bad (Good db) (team_reject company user_id db)
    unfolding team_reject Good Bad
    reject-SameRows user_id = given _ _ _ λ target there. modify_last-Ensures Bad (Good db) _ _ (
        with_users company other apart db _
          (write_user company other apart user_id MembershipStatus.rejected db.users))

    handler-SameRows :
        (a : TeamAction) → Ensures Bad (Good db) (handler lower sha256 company admin_id a db)
    unfolding handler
    handler-SameRows (create_service form) = service_create-SameRows form
    handler-SameRows (edit_service id form) = service_edit-SameRows id form
    handler-SameRows (delete_service id) = service_delete-SameRows id
    handler-SameRows (create_employee form raw now) = employee_create-SameRows form raw now
    handler-SameRows (edit_employee id form) = employee_edit-SameRows id form
    handler-SameRows (delete_employee id) = employee_delete-SameRows id
    handler-SameRows (invite_employee id raw now) = employee_invite-SameRows id raw now
    handler-SameRows (revoke_invite id) = invite_revoke-SameRows id
    handler-SameRows (approve_user user_id) = approve-SameRows user_id
    handler-SameRows (reject_user user_id) = reject-SameRows user_id

-- No post on the team page of one company changes a service, an employee or a user of another.
pub perform_team-SameRows :
    (lower sha256 : String → String) (company admin_id other : ℕ) (a : TeamAction) (db : Database)
    → company ≢ other
    → SameRows other db (perform_team lower sha256 company admin_id a db)
unfolding perform_team Good Bad
perform_team-SameRows lower sha256 company admin_id other a db apart =
    or_rollback-holds (SameRows other db) db (handler lower sha256 company admin_id a db)
      (record { same_employees = refl; same_services = refl; same_users = refl })
      (handler-SameRows lower sha256 company admin_id other apart db a)
