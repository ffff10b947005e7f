-- ===== src/Workflow/Acceptance/Effects.antt =====
-- What an accepted quote leaves behind.
use les_traiteurs_engages_v.Base.{
  All, Ensures, Ensures-map, IsKeyed, List, [], ap, arith, count, count-update_where_cleared, find,
  find-All, find-holds, find-update_first, refl, some, update_first, update_where, ℕ, ◌++◌, ◌∷◌,
  ◌≡◌, ◌≢◌,
}
use les_traiteurs_engages_v.Models.{
  Database, Order, OrderStatus, Quote, QuoteRequest, QuoteRequestStatus, User,
}
use les_traiteurs_engages_v.Notifications.Frame.{OnlyNotifies-SameRows}
use les_traiteurs_engages_v.Workflow.Acceptance.{
  accept, accept_quote, close_qrc, is_acceptable, is_losing_qrc, is_other, lose, settle,
}
use les_traiteurs_engages_v.Workflow.Acceptance.Branches.{Accepted, accept_quote-Ensures}
use les_traiteurs_engages_v.Workflow.Errors.{
  is_open_quote, is_own_request, is_quote_of, with_status,
}

module _ (request_id : ℕ) where
  losers_refused :
      (i : ℕ) (qs : List Quote)
      → All (λ q. q.id ≢ i) qs
      → count (is_open_quote request_id) (update_where (is_other request_id i) lose qs) ≡ 0
  unfolding count update_where
  losers_refused i [] h = refl
  losers_refused i (q ∷ qs) h = ground (arith, losers_refused i qs h.1)

  none_open :
      (quote_id : ℕ) (qs : List Quote) (a : Quote)
      → IsKeyed (λ q. q.id) qs
      → find (is_acceptable request_id quote_id) qs ≡ some a
      → count (is_open_quote request_id) (
          update_where
            (is_other request_id a.id)
            lose
            (update_first (is_acceptable request_id quote_id) accept qs))
        ≡ 0
  unfolding count update_where update_first find
  none_open quote_id [] a k e = cc
  none_open quote_id (q ∷ qs) a k e = ground (
    arith,
    losers_refused q.id qs k.0,
    none_open quote_id qs a k.1,
    find-holds (is_acceptable request_id quote_id) qs a,
  )

  winner_accepted :
      (quote_id : ℕ) (qs : List Quote) (a : Quote)
      → IsKeyed (λ q. q.id) qs
      → find (is_acceptable request_id quote_id) qs ≡ some a
      → find (is_quote_of request_id quote_id) (
          update_where
            (is_other request_id a.id)
            lose
            (update_first (is_acceptable request_id quote_id) accept qs))
        ≡ some (accept a)
  unfolding update_where update_first find
  winner_accepted quote_id [] a k e = cc
  winner_accepted quote_id (q ∷ qs) a k e = ground (
    arith,
    winner_accepted quote_id qs a k.1,
    find-holds (is_acceptable request_id quote_id) qs a,
    λ (h : find (is_acceptable request_id quote_id) qs ≡ some a).
        find-All (λ y. y.id ≢ q.id) (is_acceptable request_id quote_id) qs k.0 h,
  )

module _ (today request_id quote_id : ℕ) (user : User) where
  -- Of the request: no quote is `sent`, the quote is `accepted`, the request is `completed`, and no
  -- other caterer's row is still open; the order is the one new row of its table, for that quote.
  pub record Settled (db : Database) (order : Order) (db' : Database) : Type 0 where
    pub none_open : count (is_open_quote request_id) db'.quotes ≡ 0
    pub quote : Quote
    pub found : find (is_acceptable request_id quote_id) db.quotes ≡ some quote
    pub accepted : find (is_quote_of request_id quote_id) db'.quotes ≡ some (accept quote)
    pub ordered : order.quote_id ≡ quote_id
    pub confirmed : order.status ≡ OrderStatus.confirmed
    pub one_order : db'.orders ≡ db.orders ++ order ∷ []
    pub request : QuoteRequest
    pub completed : find (is_own_request request_id user) db'.requests ≡ some request
    pub is_completed : request.status ≡ QuoteRequestStatus.completed
    pub losers_closed : count (is_losing_qrc request_id quote.caterer_id) db'.qrcs ≡ 0

  -- The writes of `settle`, read back.
  settled :
      (db : Database) (order : Order) (db' : Database)
      → IsKeyed (λ q. q.id) db.quotes
      → Accepted today request_id quote_id user db order db'
      → Settled db order db'
  unfolding settle
  settled db order db' keyed a =
      let same =
        OnlyNotifies-SameRows (settle request_id quote_id user a.request a.quote db) db'
          a.written in
      record {
        none_open =
            rw same.quotes (none_open request_id quote_id db.quotes a.quote keyed a.has_quote);
        quote = a.quote;
        found = a.has_quote;
        accepted =
            rw same.quotes
              (winner_accepted request_id quote_id db.quotes a.quote keyed a.has_quote);
        ordered = ground (
          arith,
          a.ordered,
          find-holds (is_acceptable request_id quote_id) db.quotes a.quote a.has_quote,
        );
        confirmed = ap (λ o. o.status) a.ordered;
        one_order = rw (same.orders, a.ordered) refl;
        request = with_status QuoteRequestStatus.completed a.request;
        completed = rw same.requests (
            find-update_first (is_own_request request_id user)
              (with_status QuoteRequestStatus.completed) db.requests a.request (λ x e. e)
              a.has_request);
        is_completed = refl;
        losers_closed = rw same.qrcs (
            count-update_where_cleared (is_losing_qrc request_id a.quote.caterer_id) close_qrc
              db.qrcs (λ c h. ground arith));
      }

  -- A call of `accept_quote` that is refused changes nothing at all. One that succeeds, where the
  -- primary key of the quotes holds, leaves of the request no quote that is `sent`, the quote
  -- `accepted`, the request `completed` and the rows of the other caterers rejected or closed, and
  -- appends one order, `confirmed`, for that quote.
  pub accept_quote_settles :
      (db : Database)
      → IsKeyed (λ q. q.id) db.quotes
      → Ensures (λ e db'. db' ≡ db) (Settled db) (accept_quote today request_id quote_id user db)
  accept_quote_settles db keyed =
      Ensures-map (accept_quote today request_id quote_id user db) (λ e s h. h)
        (λ o s. settled db o s keyed) (accept_quote-Ensures today request_id quote_id user db)
