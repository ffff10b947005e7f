-- ===== src/Invoicing.antt =====
-- services/stripe_service.py: `create_invoice_for_order`, and services/billing_tasks.py: the task
-- that runs it. What Stripe answers is an argument: the identifiers that its calls return, or
-- nothing where one of them raises `StripeError`. What the session holds by then is kept: the caller
-- rolls it back.
pub mod Customer
pub mod Ledger
pub mod Retry
use les_traiteurs_engages_v.Base.{
  text_or_none, return, ◌>>◌, ◌>>=◌, Bool, Call, List, Option, String, [], false, fetch, find, gets,
  if◌then◌else◌, is_empty, map, modify, none, not, or_rollback, replace_first, select, some, true,
  update_first, ℕ, ◌*◌, ◌+++◌, ◌++◌, ◌+◌, ◌==◌, ◌∷◌,
}
use les_traiteurs_engages_v.Models.{
  Caterer, CommissionInvoice, Database, Invoice, Order, OrderStatus, Payment, PaymentStatus, Quote,
  QuoteLine, User,
}
use les_traiteurs_engages_v.Pricing.Lines.{Line}
use les_traiteurs_engages_v.Pricing.Rounding.{round_half_even}
use les_traiteurs_engages_v.Pricing.Split.{InvoiceAmounts, split_invoice_amounts}
use les_traiteurs_engages_v.Pricing.Totals.{QuoteTotals, calculate_quote_totals}

pub record StripeReply : Type 0 where
  pub invoice_id : String
  pub hosted_invoice_url : String

-- The customer that `Customer.create` makes, if it is called; and what the calls from `Invoice.create`
-- to `send_invoice` return.
pub record StripeAnswers : Type 0 where
  pub customer_id : Option String
  pub invoice : Option StripeReply

pub data BillingError : Type 0 where
  stripe_error missing_row : BillingError

abbrev pub Billing : Type 0 → Type 0
Billing = Call Database BillingError

-- The scale of the columns: a thousandth.
abbrev thousand : ℕ
thousand = 1000

-- `ln.as_dict()`, with the numbers of the columns in thousandths.
abbrev as_line : QuoteLine → Line
as_line l = record {
  position = l.position;
  section = l.section;
  description = l.description;
  quantity = l.quantity;
  unit_price_ht = 10 * l.unit_price_ht;
  tva_rate = 10 * l.tva_rate;
}

abbrev lines_of : Quote → Database → List Line
lines_of quote db = map as_line (select (λ l. l.quote_id == quote.id) db.quote_lines)

-- `derive_invoice_reference`.
unfoldable pub derive_invoice_reference : String → String
derive_invoice_reference reference = replace_first 6 "DEVIS-" "FAC-" reference

abbrev with_customer : String → User → User
with_customer customer_id u = record u { stripe_customer_id = some customer_id }

-- A customer that Stripe has created is noted on the user.
unfoldable pub create_customer : User → Option String → Billing String
create_customer user created = do
  customer_id ← fetch (λ db. created) stripe_error
  modify λ db. record db {
    users = update_first (λ u. u.id == user.id) (with_customer customer_id) db.users;
  }
  return customer_id

unfoldable pub get_or_create_customer : User → Option String → Billing String
get_or_create_customer user created = elim (text_or_none user.stripe_customer_id) [
  | some customer_id ↦ return customer_id
  | none ↦ create_customer user created
]

-- `order.invoice_attempt += 1`, which is flushed before the invoice is created.
abbrev pub attempted : Order → Order
attempted o = record o { invoice_attempt = o.invoice_attempt + 1 }

abbrev pub count_attempt : Order → Database → Database
count_attempt order db = record db {
  orders = update_first (λ o. o.id == order.id) attempted db.orders;
}

abbrev pub invoiced_as : StripeReply → Order → Order
invoiced_as reply o = record o {
  stripe_invoice_id = some reply.invoice_id;
  stripe_hosted_invoice_url = some reply.hosted_invoice_url;
  status = OrderStatus.invoiced;
}

abbrev payment_for : StripeReply → Order → Caterer → InvoiceAmounts → ℕ → Payment
payment_for reply order caterer a id = record {
  id = id;
  order_id = order.id;
  caterer_id = caterer.id;
  stripe_invoice_id = some reply.invoice_id;
  stripe_charge_id = none;
  status = PaymentStatus.pending;
  amount_total_cents = a.invoice_total_cents;
  application_fee_cents = a.application_fee_cents;
  amount_to_caterer_cents = a.amount_to_caterer_cents;
}

-- `(total_tva / total_ht).quantize(0.0001) if total_ht else None`.
abbrev average_rate : QuoteTotals → Option ℕ
average_rate t =
    if t.total_ht == 0 then none else some (round_half_even (t.total_tva * 10000) t.total_ht)

abbrev esat_mention_of : String → Option String
esat_mention_of structure = if is_empty structure then none else some ("Structure " +++ structure)

abbrev invoice_for : Order → Quote → Caterer → QuoteTotals → Invoice
invoice_for order quote caterer t = record {
  order_id = order.id;
  caterer_id = caterer.id;
  reference = derive_invoice_reference quote.reference;
  amount_ht = t.total_ht;
  tva_rate = average_rate t;
  amount_ttc = t.total_ttc;
  esat_mention = esat_mention_of caterer.structure_type;
}

-- The number is the sequence's, the rate 0.20.
abbrev commission_for : Order → QuoteTotals → String → ℕ → CommissionInvoice
commission_for order t party number = record {
  invoice_number = number;
  order_id = order.id;
  party = party;
  amount_ht = t.platform_fee_ht;
  tva_rate = 2000;
  amount_ttc = t.platform_fee_ht + t.platform_fee_tva;
}

-- The writes on the order, the payment, the invoice and the two commission invoices.
unfoldable pub book_invoice :
    StripeReply → Order → Quote → Caterer → QuoteTotals → Database → Database
book_invoice reply order quote caterer t db = record db {
  orders = update_first (λ o. o.id == order.id) (invoiced_as reply) db.orders;
  payments =
      db.payments
      ++ payment_for reply order caterer
          (split_invoice_amounts 100 t.total_ttc t.platform_fee_ht t.platform_fee_tva)
          (db.uuid4 db.drawn)
        ∷ [];
  invoices = db.invoices ++ invoice_for order quote caterer t ∷ [];
  commissions =
      db.commissions
      ++ commission_for order t "client" db.commission_seq
        ∷ commission_for order t "caterer" (db.commission_seq + 1)
        ∷ [];
  commission_seq = db.commission_seq + 2;
  drawn = db.drawn + 1;
}

unfoldable pub create_invoice_for_order : StripeAnswers → Order → Billing (Unit {0})
create_invoice_for_order answers order = do
  quote ← fetch (λ db. find (λ q. q.id == order.quote_id) db.quotes) missing_row
  caterer ← fetch (λ db. find (λ c. c.id == quote.caterer_id) db.caterers) missing_row
  client ← fetch (λ db. find (λ u. u.id == order.client_admin_id) db.users) missing_row
  qr ← fetch (λ db. find (λ r. r.id == quote.quote_request_id) db.requests) missing_row
  lines ← gets (lines_of quote)
  customer_id ← get_or_create_customer client answers.customer_id
  modify (count_attempt order)
  reply ← fetch (λ db. answers.invoice) stripe_error
  modify (
      book_invoice reply order quote caterer
        (calculate_quote_totals thousand lines qr.guest_count (some caterer.commission_rate)))

-- `order.status not in (invoicing, delivered)`.
abbrev pub awaits_invoice : OrderStatus → Bool
awaits_invoice OrderStatus.invoicing = true
awaits_invoice OrderStatus.delivered = true
awaits_invoice _ = false

-- `send_invoice_for_order`, in a session that is committed at the end and thrown away after an
-- exception: a missing order, or one in another status, is skipped.
unfoldable pub send_invoice_for_order : StripeAnswers → ℕ → Database → Database
send_invoice_for_order answer order_id db = elim (find (λ o. o.id == order_id) db.orders) [
  | none ↦ db
  | some order ↦
      if awaits_invoice order.status
      then or_rollback db (create_invoice_for_order answer order db)
      else db
]
