-- ===== src/Workflow/Acceptance/Closed.antt =====
-- A request that is not open to quotes any more.
use les_traiteurs_engages_v.Base.{
  Ensures, IsKeyed, arith, false, fetch-some, find, find-key, is_id, ok, raise, raise_if-true, some,
  subst, ℕ, ◌==◌, ◌∙◌, ◌≡◌,
}
use les_traiteurs_engages_v.Models.{
  Caterer, Database, Order, QuoteRequest, User, is_sent_to_caterers,
}
use les_traiteurs_engages_v.Workflow.Acceptance.{accept_quote}
use les_traiteurs_engages_v.Workflow.Acceptance.Effects.{Settled, accept_quote_settles}
use les_traiteurs_engages_v.Workflow.Errors.{
  Session, WorkflowError, is_own_request, quote_not_available, quote_request_not_open,
}
use les_traiteurs_engages_v.Workflow.Submission.{submit_quote}

-- A call that ends in the exception `e` and writes nothing.
abbrev pub Rejects : {A : Type 0} → Session A → WorkflowError → Database → Type 0
Rejects call e db = call db ≡ (raise e, db)

pub accept_quote_not_open :
    (today request_id quote_id : ℕ) (user : User) (db : Database) (r : QuoteRequest)
    → find (is_own_request request_id user) db.requests ≡ some r
    → is_sent_to_caterers r.status ≡ false
    → Rejects (accept_quote today request_id quote_id user) quote_not_available db
unfolding accept_quote
accept_quote_not_open today request_id quote_id user db r h c =
    fetch-some _ _ _ _ _ h ∙ raise_if-true _ _ _ _ (ground arith)

pub submit_quote_not_open :
    (now request_id quote_id : ℕ) (caterer : Caterer) (db : Database) (r : QuoteRequest)
    → find (λ r. r.id == request_id) db.requests ≡ some r
    → is_sent_to_caterers r.status ≡ false
    → Rejects (submit_quote now request_id quote_id caterer) quote_request_not_open db
unfolding submit_quote
submit_quote_not_open now request_id quote_id caterer db r h c =
    fetch-some _ _ _ _ _ h ∙ raise_if-true _ _ _ _ (ground arith)

-- The request of an accepted quote is there for the company, and is not open to quotes. (The primary
-- keys hold.)
pub accept_quote_closes :
    (today request_id quote_id : ℕ) (user colleague : User) (db db' : Database) (order : Order)
    → IsKeyed (λ q. q.id) db.quotes
    → IsKeyed (λ r. r.id) db'.requests
    → colleague.company_id ≡ user.company_id
    → accept_quote today request_id quote_id user db ≡ (ok order, db')
    → (r : QuoteRequest) × (find (is_own_request request_id colleague) db'.requests ≡ some r)
      × (find (λ r. r.id == request_id) db'.requests ≡ some r)
      × (is_sent_to_caterers r.status ≡ false)
accept_quote_closes today request_id quote_id user colleague db db' order keyed keyed' same e =
    let s =
      subst (Ensures (λ e db'. db' ≡ db) (Settled today request_id quote_id user db)) e
        (accept_quote_settles today request_id quote_id user db keyed) in
    (
      s.request,
      rw same s.completed,
      find-key (λ r. r.id) (λ r. is_id user.company_id r.company_id) request_id db'.requests
          s.request keyed' s.completed,
      rw (s.is_completed),
    )
