-- ===== src/Workflow/Delivering.antt =====
-- services/workflow.py: `mark_delivered`.
pub mod Effects
use les_traiteurs_engages_v.Base.{
  ◌>>◌, ◌>>=◌, Bool, Option, exists, fetch, find, modify, none, return, some, update_first, ℕ, ◌&&◌,
  ◌+++◌, ◌==◌,
}
use les_traiteurs_engages_v.Models.{
  Caterer, Database, Order, OrderStatus, QuoteRequest, is_confirmed,
}
use les_traiteurs_engages_v.Notifications.{Notice, company_admin_user_ids, notify_users}
use les_traiteurs_engages_v.Workflow.Errors.{Session, attribute_error, order_not_found}

-- The join of an order with its quote, on the quote's caterer.
abbrev is_order_of : ℕ → Database → Order → Bool
is_order_of caterer_id db o =
    exists (λ q. q.id == o.quote_id && q.caterer_id == caterer_id) db.quotes

abbrev is_deliverable : ℕ → ℕ → Database → Order → Bool
is_deliverable order_id caterer_id db o =
    o.id == order_id && is_order_of caterer_id db o && is_confirmed o.status

abbrev pub deliver : Order → Order
deliver o = record o { status = OrderStatus.delivered }

-- `order.quote.quote_request`, along the foreign keys.
unfoldable pub request_of_order : Order → Database → Option QuoteRequest
request_of_order o db = elim (find (λ q. q.id == o.quote_id) db.quotes) [
  | none ↦ none
  | some q ↦ find (λ r. r.id == q.quote_request_id) db.requests
]

abbrev delivered_notice : Caterer → Order → Notice
delivered_notice caterer order = record {
  type = "order_delivered";
  title = "Commande marquée comme livrée";
  body = caterer.name +++ " a marqué la commande comme livrée.";
  related_entity_type = some "order";
  related_entity_id = some order.id;
}

unfoldable pub mark_delivered : ℕ → Caterer → Session Order
mark_delivered order_id caterer = do
  order ← fetch (λ db. find (is_deliverable order_id caterer.id db) db.orders) order_not_found
  modify λ db. record db {
    orders = update_first (is_deliverable order_id caterer.id db) deliver db.orders;
  }
  qr ← fetch (request_of_order order) attribute_error
  modify λ db.
      notify_users (company_admin_user_ids (some qr.company_id) db) (delivered_notice caterer order)
        db
  return (deliver order)
