-- ===== src/Webhook.antt =====
-- blueprints/api.py: `stripe_webhook`. Whether Stripe's signature is valid, and the event that the
-- payload then holds, is an argument.
pub mod Frame
pub mod Once
pub mod Settled
pub mod Paid
use text.Mathlib.Text.{◌==◌ as str_eq}
use les_traiteurs_engages_v.Base.{
  ◌>>◌, ◌>>=◌, Bool, Call, List, Option, Result, String, [], exists, false, fetch, find, gets,
  if◌then◌else◌, is_empty, modify, none, ok, raise, return, some, true, update_first, ℕ, ◌++◌, ◌==◌,
  ◌∷◌,
}
use les_traiteurs_engages_v.Models.{
  Caterer, Database, Order, OrderStatus, Payment, PaymentStatus, order_by, quote_by, request_by,
}
use les_traiteurs_engages_v.Notifications.{
  Notice, caterer_user_ids, company_admin_user_ids, notify_users,
}
use les_traiteurs_engages_v.Reviews.{notify_review_invite}

-- A field that `_field` may find missing, null or with a value.
pub data Field : Type 0 where
  absent null : Field
  value : Bool → Field

-- An event: its own `id` and `type`, and the fields of its object. Of the two texts, missing and null
-- are the same to `_field`.
pub record Event : Type 0 where
  pub id : String
  pub event_type : String
  pub object_id : Option String
  pub charge : Option String
  pub charges_enabled : Field
  pub payouts_enabled : Field

-- `_field(obj, key, False)`.
abbrev or_false : Field → Option Bool
or_false absent = some false
or_false null = none
or_false (value b) = some b

-- What an exception in the handler comes from: a row that a foreign key promises and that is missing.
pub data HandlerError : Type 0 where
  missing_relation : HandlerError

abbrev pub Handling : Type 0 → Type 0
Handling = Call Database HandlerError

-- `Column == value` as a query: a null value is compared with IS NULL.
abbrev same_text : Option String → Option String → Bool
same_text none none = true
same_text (some a) (some b) = str_eq a b
same_text _ _ = false

abbrev pub is_payment_of : Event → Payment → Bool
is_payment_of e p = same_text p.stripe_invoice_id e.object_id

abbrev is_account_of : Event → Caterer → Bool
is_account_of e c = same_text c.stripe_account_id e.object_id

abbrev pub succeed : Event → Payment → Payment
succeed e p = record p { status = PaymentStatus.succeeded; stripe_charge_id = e.charge }

-- `_TERMINAL_PAID_STATES`.
abbrev is_terminal : PaymentStatus → Bool
is_terminal PaymentStatus.succeeded = true
is_terminal PaymentStatus.refunded = true
is_terminal _ = false

abbrev fail_payment : Payment → Payment
fail_payment p = if is_terminal p.status then p else record p { status = PaymentStatus.failed }

abbrev pub pay : Order → Order
pay o = record o { status = OrderStatus.paid }

abbrev client_notice : ℕ → Notice
client_notice order_id = record {
  type = "order_paid";
  title = "Paiement enregistré";
  body = "Le paiement de votre commande a été enregistré. Merci !";
  related_entity_type = some "order";
  related_entity_id = some order_id;
}

abbrev caterer_notice : ℕ → Notice
caterer_notice order_id = record {
  type = "order_paid";
  title = "Paiement reçu";
  body = "Le paiement de la commande a été reçu et sera viré sous peu.";
  related_entity_type = some "order";
  related_entity_id = some order_id;
}

-- The order is paid: both sides are told, and the requester is asked for a review.
unfoldable pub close_order : Option Order → Handling (Unit {0})
close_order none = return tt
close_order (some order) = do
  modify λ db. record db { orders = update_first (λ o. o.id == order.id) pay db.orders }
  quote ← fetch (quote_by order.quote_id) missing_relation
  qr ← fetch (request_by quote.quote_request_id) missing_relation
  modify λ db.
      notify_users (company_admin_user_ids (some qr.company_id) db) (client_notice order.id) db
  modify
      λ db. notify_users (caterer_user_ids (some quote.caterer_id) db) (caterer_notice order.id) db
  modify (notify_review_invite (pay order))

unfoldable pub invoice_paid : Event → Option Payment → Handling (Unit {0})
invoice_paid e none = return tt
invoice_paid e (some payment) = do
  modify λ db. record db { payments = update_first (is_payment_of e) (succeed e) db.payments }
  order ← gets (order_by payment.order_id)
  close_order order

unfoldable pub payment_failed : Event → Database → Database
payment_failed e db = record db {
  payments = update_first (is_payment_of e) fail_payment db.payments;
}

abbrev enable : Event → Caterer → Caterer
enable e c = record c {
  stripe_charges_enabled = or_false e.charges_enabled;
  stripe_payouts_enabled = or_false e.payouts_enabled;
}

unfoldable pub account_updated : Event → Database → Database
account_updated e db = record db {
  caterers = update_first (is_account_of e) (enable e) db.caterers;
}

-- The branches on `event_type`; another type is only recorded.
abbrev pub dispatch : Bool → Bool → Bool → Event → Handling (Unit {0})
dispatch true _ _ e = do
  payment ← gets (λ db. find (is_payment_of e) db.payments)
  invoice_paid e payment
dispatch false true _ e = modify (payment_failed e)
dispatch false false true e = modify (account_updated e)
dispatch false false false e = return tt

unfoldable pub handle : Event → Handling (Unit {0})
handle e =
    dispatch (str_eq e.event_type "invoice.paid") (str_eq e.event_type "invoice.payment_failed")
      (str_eq e.event_type "account.updated") e

-- The answers: 503, 400, 200 for a duplicate, 200, 500.
pub data WebhookReply : Type 0 where
  not_configured invalid_signature duplicate handled internal_error : WebhookReply

abbrev pub is_seen : Event → Database → Bool
is_seen e db = exists (λ s. str_eq s.id e.id) db.stripe_events

abbrev pub record_event : Event → Database → Database
record_event e db = record db {
  stripe_events = db.stripe_events ++ record { id = e.id; event_type = e.event_type } ∷ [];
}

-- The insertion of the event and what it gates are one transaction.
abbrev pub reply_of : {S : Type 0} → S → Result HandlerError (Unit {0}) × S → WebhookReply × S
reply_of before (ok u, after) = (handled, after)
reply_of before (raise e, after) = (internal_error, before)

unfoldable pub process : Event → Database → WebhookReply × Database
process e db = if is_seen e db then (duplicate, db) else reply_of db (handle e (record_event e db))

-- `secret` is `config.STRIPE_WEBHOOK_SECRET`; the event is missing where the signature is invalid.
unfoldable pub stripe_webhook : String → Option Event → Database → WebhookReply × Database
stripe_webhook secret event db =
    if is_empty secret
    then (not_configured, db)
    else elim event [ none ↦ (invalid_signature, db) | some e ↦ process e db ]

-- Several requests, one after the other.
unfoldable pub deliveries : String → List (Option Event) → Database → Database
deliveries secret [] db = db
deliveries secret (e ∷ es) db = deliveries secret es (stripe_webhook secret e db).1
