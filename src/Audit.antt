-- ===== src/Audit.antt =====
-- services/audit.py: the journal of what administrators do.
use les_traiteurs_engages_v.Base.{String, [], some, ℕ, ◌++◌, ◌+◌, ◌∷◌}
use les_traiteurs_engages_v.Models.{AuditLog, Database, User}

-- The row of `log_admin_action`; the address and the agent of the request are not kept, nor is
-- `extra`.
abbrev pub audit_row : User → String → String → ℕ → AuditLog
audit_row actor action target_type target_id = record {
  actor_id = some actor.id;
  actor_email = some actor.email;
  action = action;
  target_type = some target_type;
  target_id = some target_id;
}

abbrev pub log_admin_action : User → String → String → ℕ → Database → Database
log_admin_action actor action target_type target_id db = record db {
  audit_logs = db.audit_logs ++ audit_row actor action target_type target_id ∷ [];
  drawn = db.drawn + 1;
}
