-- ===== src/Workflow/Run/Invariance.antt =====
-- Every transaction keeps the state sound, and so does every run.
use les_traiteurs_engages_v.Base.{
  Ensures, Ensures-map, List, [], or_commit-holds, or_rollback, or_rollback-holds, ◌∷◌,
}
use les_traiteurs_engages_v.Models.{Database}
use les_traiteurs_engages_v.Workflow.Acceptance.{accept_quote}
use les_traiteurs_engages_v.Workflow.Acceptance.Branches.{Accepted, accept_quote-Ensures}
use les_traiteurs_engages_v.Workflow.Approval.{approve_quote_request}
use les_traiteurs_engages_v.Workflow.Approval.Effects.{FannedOut, approve_quote_request_fans_out}
use les_traiteurs_engages_v.Workflow.Delivering.{mark_delivered}
use les_traiteurs_engages_v.Workflow.Delivering.Effects.{Delivered, mark_delivered_delivers}
use les_traiteurs_engages_v.Workflow.Errors.{Session}
use les_traiteurs_engages_v.Workflow.Refusal.{refuse_quote, reject_quote_request}
use les_traiteurs_engages_v.Workflow.Refusal.Effects.{
  Cancelled, Turned, refuse_quote_turns, reject_quote_request_cancels,
}
use les_traiteurs_engages_v.Workflow.Run.{Action, commits_on, perform, run}
use les_traiteurs_engages_v.Workflow.Run.Sending.{submit-IsSound}
use les_traiteurs_engages_v.Workflow.Run.Settling.{accept-IsSound}
use les_traiteurs_engages_v.Workflow.Run.Soundness.{
  IsSound, approve-IsSound, deliver-IsSound, refuse-IsSound, same-IsSound,
}
use les_traiteurs_engages_v.Workflow.Submission.{submit_quote}

module _ {db : Database} (s : IsSound db) where
  committed :
      {A : Type 0} (call : Session A) (Good : A → Database → Type 0)
      → ((a : A) (d : Database) → Good a d → IsSound d)
      → Ensures (λ e d. Unit {0}) Good (call db)
      → IsSound (or_rollback db (call db))
  committed call Good keep h =
      or_rollback-holds IsSound db (call db) s (Ensures-map (call db) (λ e d _. tt) keep h)

  perform-IsSound : (a : Action) → IsSound (perform a db)
  unfolding perform
  perform-IsSound (Action.accept today request_id quote_id user) =
      committed (accept_quote today request_id quote_id user)
        (Accepted today request_id quote_id user db)
        (accept-IsSound s today request_id quote_id user)
        (Ensures-map (accept_quote today request_id quote_id user db) (λ e d _. tt) (λ a d h. h)
          (accept_quote-Ensures today request_id quote_id user db))
  perform-IsSound (Action.refuse request_id quote_id user reason) =
      committed (refuse_quote request_id quote_id user reason)
        (λ u. Turned request_id quote_id user reason db)
        (λ u d. refuse-IsSound s request_id quote_id user reason)
        (Ensures-map (refuse_quote request_id quote_id user reason db) (λ e d _. tt) (λ a d h. h)
          (refuse_quote_turns request_id quote_id user reason db))
  perform-IsSound (Action.approve request_id) =
      committed (approve_quote_request request_id) (FannedOut request_id db)
        (λ new d. approve-IsSound s request_id new)
        (Ensures-map (approve_quote_request request_id db) (λ e d _. tt) (λ a d h. h)
          (approve_quote_request_fans_out request_id db))
  perform-IsSound (Action.reject request_id reason) =
      committed (reject_quote_request request_id reason) (λ u. Cancelled request_id reason db)
        (λ u d c. same-IsSound s c.quotes c.orders c.qrcs)
        (Ensures-map (reject_quote_request request_id reason db) (λ e d _. tt) (λ a d h. h)
          (reject_quote_request_cancels request_id reason db))
  perform-IsSound (Action.submit now request_id quote_id caterer) =
      or_commit-holds IsSound commits_on db (submit_quote now request_id quote_id caterer db) s
        (submit-IsSound now request_id quote_id caterer s)
  perform-IsSound (Action.deliver order_id caterer) =
      committed (mark_delivered order_id caterer) (Delivered order_id caterer db)
        (λ o d. deliver-IsSound s order_id caterer o)
        (Ensures-map (mark_delivered order_id caterer db) (λ e d _. tt) (λ a d h. h)
          (mark_delivered_delivers order_id caterer db))

-- Any sequence of transactions (acceptances, refusals, approvals, rejections, submissions and
-- deliveries, each committed or rolled back as its handler does) keeps a sound state sound: quotes
-- keep distinct identifiers, an ordered quote is neither a draft nor `sent`, no quote is ordered
-- twice, and on no request are the rows of more than three of the solicited caterers transmitted.
pub run-IsSound : (actions : List Action) (db : Database) → IsSound db → IsSound (run actions db)
unfolding run
run-IsSound [] db s = s
run-IsSound (a ∷ rest) db s = run-IsSound rest (perform a db) (perform-IsSound s a)
