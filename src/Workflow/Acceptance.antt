-- ===== src/Workflow/Acceptance.antt =====
-- services/workflow.py: `accept_quote`.
pub mod Branches
pub mod Effects
pub mod Closed
use les_traiteurs_engages_v.Base.{
  ◌>>◌, ◌>>=◌, Bool, Option, [], false, fetch, find, gets, ltb, modify, none, not, raise_if, return,
  some, str_or_none, update_first, update_where, ℕ, ◌&&◌, ◌+++◌, ◌++◌, ◌+◌, ◌==◌, ◌||◌, ◌∷◌,
}
use les_traiteurs_engages_v.Models.{
  Database, Order, OrderStatus, QrcStatus, Quote, QuoteRequest, QuoteRequestCaterer,
  QuoteRequestStatus, QuoteStatus, User, is_closed, is_rejected, is_sent, is_sent_to_caterers,
}
use les_traiteurs_engages_v.Notifications.{Notice, caterer_user_ids, notify_users}
use les_traiteurs_engages_v.Workflow.Errors.{
  Session, is_own_request, quote_expired, quote_not_available, request_not_found, with_status,
}

-- The quote that is accepted: `sent`, on the request.
abbrev pub is_acceptable : ℕ → ℕ → Quote → Bool
is_acceptable request_id quote_id q =
    q.id == quote_id && q.quote_request_id == request_id && is_sent q.status

-- `valid_until and valid_until < today`.
abbrev is_past : ℕ → Option ℕ → Bool
is_past today none = false
is_past today (some d) = ltb d today

abbrev pub accept : Quote → Quote
accept q = record q { status = QuoteStatus.accepted }

-- The quotes that lose: `sent` on the same request, with another identifier.
abbrev pub is_other : ℕ → ℕ → Quote → Bool
is_other request_id accepted_id q =
    q.quote_request_id == request_id && not (q.id == accepted_id) && is_sent q.status

abbrev pub lose : Quote → Quote
lose q = record q {
  status = QuoteStatus.refused;
  refusal_reason = some "Un autre devis a ete accepte.";
}

abbrev pub is_losing_qrc : ℕ → ℕ → QuoteRequestCaterer → Bool
is_losing_qrc request_id caterer_id c =
    c.quote_request_id == request_id
    && not (c.caterer_id == caterer_id)
    && not (is_rejected c.status || is_closed c.status)

abbrev pub close_qrc : QuoteRequestCaterer → QuoteRequestCaterer
close_qrc c = record c { status = QrcStatus.closed }

abbrev pub new_order : QuoteRequest → Quote → User → Database → Order
new_order qr accepted user db = record {
  id = db.uuid4 db.drawn;
  quote_id = accepted.id;
  client_admin_id = user.id;
  status = OrderStatus.confirmed;
  delivery_date = qr.event_date;
  delivery_address = some (
      str_or_none qr.event_address
      +++ (", " +++ (str_or_none qr.event_zip_code +++ (" " +++ str_or_none qr.event_city))));
  notes = none;
  stripe_invoice_id = none;
  stripe_hosted_invoice_url = none;
  invoice_attempt = 0;
}

-- The writes that follow the guards, up to the notification.
unfoldable pub settle : ℕ → ℕ → User → QuoteRequest → Quote → Database → Database
settle request_id quote_id user qr accepted db = record db {
  quotes =
      update_where (is_other request_id accepted.id) lose
        (update_first (is_acceptable request_id quote_id) accept db.quotes);
  orders = db.orders ++ new_order qr accepted user db ∷ [];
  requests =
      update_first (is_own_request request_id user) (with_status QuoteRequestStatus.completed)
        db.requests;
  qrcs = update_where (is_losing_qrc request_id accepted.caterer_id) close_qrc db.qrcs;
  drawn = db.drawn + 1;
}

abbrev accepted_notice : ℕ → Notice
accepted_notice order_id = record {
  type = "quote_accepted";
  title = "Devis accepté !";
  body = "Votre devis a été retenu. Une commande a été créée.";
  related_entity_type = some "order";
  related_entity_id = some order_id;
}

-- `today` is `datetime.date.today()`.
unfoldable pub accept_quote : ℕ → ℕ → ℕ → User → Session Order
accept_quote today request_id quote_id user = do
  qr ← fetch (λ db. find (is_own_request request_id user) db.requests) request_not_found
  raise_if (not (is_sent_to_caterers qr.status)) quote_not_available
  accepted ← fetch (λ db. find (is_acceptable request_id quote_id) db.quotes) quote_not_available
  raise_if (is_past today accepted.valid_until) quote_expired
  order ← gets (new_order qr accepted user)
  modify (settle request_id quote_id user qr accepted)
  modify λ db.
      notify_users (caterer_user_ids (some accepted.caterer_id) db) (accepted_notice order.id) db
  return order
