-- ===== src/Workflow/Acceptance/Branches.antt =====
-- Every way in which `accept_quote` can end.
use les_traiteurs_engages_v.Base.{
  Ensures, arith, false, fetch-Ensures, find, gets-Ensures, modify-Ensures, raise_if-Ensures, refl,
  return-Ensures, some, ℕ, ◌≡◌,
}
use les_traiteurs_engages_v.Models.{Database, Order, Quote, QuoteRequest, QuoteRequestStatus, User}
use les_traiteurs_engages_v.Notifications.Frame.{OnlyNotifies, notify_users-OnlyNotifies}
use les_traiteurs_engages_v.Workflow.Acceptance.{
  accept_quote, is_acceptable, is_past, new_order, settle,
}
use les_traiteurs_engages_v.Workflow.Errors.{WorkflowError, is_own_request}

module _ (today request_id quote_id : ℕ) (user : User) (db : Database) where
  -- What a successful call found, and what it wrote beside notifications.
  pub record Accepted (order : Order) (db' : Database) : Type 0 where
    pub request : QuoteRequest
    pub quote : Quote
    pub has_request : find (is_own_request request_id user) db.requests ≡ some request
    pub was_open : request.status ≡ QuoteRequestStatus.sent_to_caterers
    pub has_quote : find (is_acceptable request_id quote_id) db.quotes ≡ some quote
    pub not_past : is_past today quote.valid_until ≡ false
    pub ordered : order ≡ new_order request quote user db
    pub written : OnlyNotifies (settle request_id quote_id user request quote db) db'

  -- A refused call writes nothing.
  abbrev Untouched : WorkflowError → Database → Type 0
  Untouched e db' = db' ≡ db

  pub accept_quote-Ensures :
      Ensures Untouched Accepted (accept_quote today request_id quote_id user db)
  unfolding accept_quote
  accept_quote-Ensures =
      fetch-Ensures Untouched Accepted _ _ _ _ (λ _. refl)
        λ qr has_request.
          raise_if-Ensures Untouched Accepted _ _ _ _ (λ _. refl)
            λ is_open.
              fetch-Ensures Untouched Accepted _ _ _ _ (λ _. refl)
                λ quote has_quote.
                  raise_if-Ensures Untouched Accepted _ _ _ _ (λ _. refl)
                    λ not_past. gets-Ensures Untouched Accepted _ _ _ (
                      modify-Ensures Untouched Accepted _ _ _ (
                        modify-Ensures Untouched Accepted _ _ _ (
                          return-Ensures Untouched Accepted _ _ (record {
                            request = qr;
                            quote = quote;
                            has_request = has_request;
                            was_open = ground arith;
                            has_quote = has_quote;
                            not_past = not_past;
                            ordered = refl;
                            written = notify_users-OnlyNotifies _ _ _;
                          }))))
