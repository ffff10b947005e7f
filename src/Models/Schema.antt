-- ===== src/Models/Schema.antt =====
-- The tables of the database, as a session sees them, and the identifiers that `uuid.uuid4` draws:
-- `uuid4 n` is the n-th identifier of the run, `drawn` the number drawn so far. `commission_seq` is
-- the next value of the sequence that numbers the commission invoices.
use Prim.Native.Nat.{ℕ}
use mathlib.Core.List.{List}
use les_traiteurs_engages_v.Models.Accounts.{
  Company, Caterer, TermsVersion, User, CompanyService, CompanyEmployee, PasswordResetToken,
}
use les_traiteurs_engages_v.Models.Requests.{QuoteRequest, QuoteRequestCaterer, Quote, QuoteLine}
use les_traiteurs_engages_v.Models.Billing.{Order, Invoice, CommissionInvoice, Payment, StripeEvent}
use les_traiteurs_engages_v.Models.Messages.{Notification, Message, CatererReview, AuditLog}

pub record Database : Type 0 where
  pub companies : List Company
  pub caterers : List Caterer
  pub terms_versions : List TermsVersion
  pub users : List User
  pub services : List CompanyService
  pub employees : List CompanyEmployee
  pub reset_tokens : List PasswordResetToken
  pub requests : List QuoteRequest
  pub qrcs : List QuoteRequestCaterer
  pub quotes : List Quote
  pub quote_lines : List QuoteLine
  pub orders : List Order
  pub invoices : List Invoice
  pub commissions : List CommissionInvoice
  pub payments : List Payment
  pub stripe_events : List StripeEvent
  pub notifications : List Notification
  pub messages : List Message
  pub reviews : List CatererReview
  pub audit_logs : List AuditLog
  pub uuid4 : ℕ → ℕ
  pub drawn : ℕ
  pub commission_seq : ℕ
