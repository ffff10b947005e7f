-- ===== src/Models/Billing.antt =====
-- models.py: orders, the invoices and payments that follow them, and Stripe's event log. Amounts
-- are in cents; the rates of the invoices are in units of 0.0001.
use Prim.Native.Nat.{ℕ}
use Prim.Native.String.{String}
use mathlib.Core.Option.{Option}
use les_traiteurs_engages_v.Models.Enums.{OrderStatus, PaymentStatus}

pub record Order : Type 0 where
  pub id : ℕ
  pub quote_id : ℕ
  pub client_admin_id : ℕ
  pub status : OrderStatus
  pub delivery_date : Option ℕ
  pub delivery_address : Option String
  pub notes : Option String
  pub stripe_invoice_id : Option String
  pub stripe_hosted_invoice_url : Option String
  pub invoice_attempt : ℕ

pub record Invoice : Type 0 where
  pub order_id : ℕ
  pub caterer_id : ℕ
  pub reference : String
  pub amount_ht : ℕ
  pub tva_rate : Option ℕ
  pub amount_ttc : ℕ
  pub esat_mention : Option String

pub record CommissionInvoice : Type 0 where
  pub invoice_number : ℕ
  pub order_id : ℕ
  pub party : String
  pub amount_ht : ℕ
  pub tva_rate : ℕ
  pub amount_ttc : ℕ

pub record Payment : Type 0 where
  pub id : ℕ
  pub order_id : ℕ
  pub caterer_id : ℕ
  pub stripe_invoice_id : Option String
  pub stripe_charge_id : Option String
  pub status : PaymentStatus
  pub amount_total_cents : ℕ
  pub application_fee_cents : ℕ
  pub amount_to_caterer_cents : ℕ

pub record StripeEvent : Type 0 where
  pub id : String
  pub event_type : String
