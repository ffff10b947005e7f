-- ===== src/Team/Run.antt =====
-- The posts of the team page of one company, as transactions.
use les_traiteurs_engages_v.Base.{Option, String, or_rollback, ℕ}
use les_traiteurs_engages_v.Models.{Database}
use les_traiteurs_engages_v.Team.{
  EmployeeForm, Handling, ServiceForm, team_employee_create, team_employee_delete,
  team_employee_edit, team_employee_invite, team_employee_invite_revoke, team_service_create,
  team_service_delete, team_service_edit,
}
use les_traiteurs_engages_v.Team.Memberships.{team_approve, team_reject}

pub data TeamAction : Type 0 where
  create_service : Option ServiceForm → TeamAction
  edit_service : ℕ → Option ServiceForm → TeamAction
  delete_service : ℕ → TeamAction
  create_employee : Option EmployeeForm → String → ℕ → TeamAction
  edit_employee : ℕ → Option EmployeeForm → TeamAction
  delete_employee : ℕ → TeamAction
  invite_employee : ℕ → String → ℕ → TeamAction
  revoke_invite approve_user reject_user : ℕ → TeamAction

module _ (lower sha256 : String → String) (company admin_id : ℕ) where
  unfoldable pub handler : TeamAction → Handling (Unit {0})
  handler (create_service form) = team_service_create company form
  handler (edit_service id form) = team_service_edit company id form
  handler (delete_service id) = team_service_delete company id
  handler (create_employee form raw now) = team_employee_create lower sha256 company form raw now
  handler (edit_employee id form) = team_employee_edit lower company id form
  handler (delete_employee id) = team_employee_delete company admin_id id
  handler (invite_employee id raw now) = team_employee_invite sha256 company id raw now
  handler (revoke_invite id) = team_employee_invite_revoke company id
  handler (approve_user user_id) = team_approve company user_id
  handler (reject_user user_id) = team_reject company user_id

  -- The handler commits after its write, and writes nothing before it ends otherwise.
  unfoldable pub perform_team : TeamAction → Database → Database
  perform_team a db = or_rollback db (handler a db)
