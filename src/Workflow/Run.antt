-- ===== src/Workflow/Run.antt =====
-- The workflow behind its HTTP handlers (blueprints/client/requests.py, blueprints/admin.py,
-- blueprints/caterer/requests.py and blueprints/caterer/orders.py): each handler runs one call in a
-- transaction, commits it on success and aborts on an exception, and calls on one request are
-- serialised by the row lock, so that a run of the system is a sequence of such transactions.
pub mod Soundness
pub mod Settling
pub mod Sending
pub mod Invariance
pub mod Reopening
use les_traiteurs_engages_v.Base.{
  Bool, List, Option, String, [], false, or_commit, or_rollback, true, ℕ, ◌∷◌,
}
use les_traiteurs_engages_v.Models.{Caterer, Database, User}
use les_traiteurs_engages_v.Workflow.Acceptance.{accept_quote}
use les_traiteurs_engages_v.Workflow.Approval.{approve_quote_request}
use les_traiteurs_engages_v.Workflow.Delivering.{mark_delivered}
use les_traiteurs_engages_v.Workflow.Errors.{
  WorkflowError, quote_request_closed, quote_request_not_open,
}
use les_traiteurs_engages_v.Workflow.Refusal.{refuse_quote, reject_quote_request}
use les_traiteurs_engages_v.Workflow.Submission.{submit_quote}

-- `quote_send` commits after `QuoteRequestClosed` and `QuoteRequestNotOpen` too, to keep the healed
-- row, and aborts after `QuoteNotFound`.
abbrev pub commits_on : WorkflowError → Bool
commits_on quote_request_closed = true
commits_on quote_request_not_open = true
commits_on _ = false

pub data Action : Type 0 where
  accept : ℕ → ℕ → ℕ → User → Action
  refuse : ℕ → ℕ → User → Option String → Action
  approve : ℕ → Action
  reject : ℕ → Option String → Action
  submit : ℕ → ℕ → ℕ → Caterer → Action
  deliver : ℕ → Caterer → Action

unfoldable pub perform : Action → Database → Database
perform (Action.accept today request_id quote_id user) db =
    or_rollback db (accept_quote today request_id quote_id user db)
perform (Action.refuse request_id quote_id user reason) db =
    or_rollback db (refuse_quote request_id quote_id user reason db)
perform (Action.approve request_id) db = or_rollback db (approve_quote_request request_id db)
perform (Action.reject request_id reason) db =
    or_rollback db (reject_quote_request request_id reason db)
perform (Action.submit now request_id quote_id caterer) db =
    or_commit commits_on db (submit_quote now request_id quote_id caterer db)
perform (Action.deliver order_id caterer) db = or_rollback db (mark_delivered order_id caterer db)

unfoldable pub run : List Action → Database → Database
run [] db = db
run (a ∷ rest) db = run rest (perform a db)
