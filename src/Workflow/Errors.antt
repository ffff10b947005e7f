-- ===== src/Workflow/Errors.antt =====
-- services/workflow.py: the exceptions, the session that the functions run on, and the conditions
-- of their queries.
use les_traiteurs_engages_v.Base.{
  Bool, Call, Option, String, if◌then◌else◌, is_empty, is_id, none, some, ℕ, ◌&&◌, ◌+++◌, ◌==◌,
}
use les_traiteurs_engages_v.Models.{
  Database, Quote, QuoteRequest, QuoteRequestStatus, User, is_sent,
}

-- `WorkflowError` and its subclasses. `attribute_error` is Python's own, at a row that a foreign key
-- promises and that is not there.
pub data WorkflowError : Type 0 where
  request_not_found quote_not_found quote_not_available quote_expired : WorkflowError
  quote_request_closed quote_request_not_open order_not_found attribute_error : WorkflowError

abbrev pub Session : Type 0 → Type 0
Session = Call Database WorkflowError

-- A request by its identifier, in the company of the user.
abbrev pub is_own_request : ℕ → User → QuoteRequest → Bool
is_own_request request_id user r = r.id == request_id && is_id user.company_id r.company_id

-- A quote by its identifier, on the request.
abbrev pub is_quote_of : ℕ → ℕ → Quote → Bool
is_quote_of request_id quote_id q = q.id == quote_id && q.quote_request_id == request_id

-- The quotes of a request that the client can still answer.
abbrev pub is_open_quote : ℕ → Quote → Bool
is_open_quote request_id q = q.quote_request_id == request_id && is_sent q.status

abbrev pub with_status : QuoteRequestStatus → QuoteRequest → QuoteRequest
with_status s r = record r { status = s }

-- The text that closes a refusal's notification, if there is a reason.
abbrev pub with_reason : String → Option String → String
with_reason body none = body
with_reason body (some reason) = if is_empty reason then body else body +++ (" Motif : " +++ reason)
