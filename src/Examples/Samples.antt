-- ===== src/Examples/Samples.antt =====
-- The rows of the shop: company 50 with its administrator, two caterers, an open request with one
-- quote transmitted and one in preparation, and four orders at different stages.
use les_traiteurs_engages_v.Base.{[], false, none, some, true, ℕ, ◌+◌, ◌∷◌}
use les_traiteurs_engages_v.Models.{
  Caterer, Database, MembershipStatus, Order, OrderStatus, Payment, PaymentStatus, QrcStatus, Quote,
  QuoteLine, QuoteRequest, QuoteRequestCaterer, QuoteRequestStatus, QuoteStatus, TermsVersion, User,
  UserRole,
}

abbrev pub buyer : User
buyer = record {
  id = 100;
  email = "a@b.fr";
  password_hash = "x";
  first_name = "Ada";
  last_name = "B";
  role = UserRole.client_admin;
  company_id = some 50;
  caterer_id = none;
  is_active = true;
  membership_status = some MembershipStatus.active;
  stripe_customer_id = none;
  password_changed_at = none;
  terms_accepted_version_id = none;
  terms_accepted_at = none;
}

abbrev pub cook : User
cook = record buyer {
  id = 200;
  role = UserRole.caterer;
  company_id = none;
  caterer_id = some 60;
  membership_status = none;
}

abbrev pub kitchen : Caterer
kitchen = record {
  id = 60;
  name = "Les Fourneaux";
  siret = "";
  structure_type = "ESAT";
  is_validated = true;
  service_offerings = "aperitif" ∷ [];
  commission_rate = 500;
  logo_url = none;
  stripe_account_id = none;
  stripe_charges_enabled = none;
  stripe_payouts_enabled = none;
  invoice_prefix = some "FOURN";
}

abbrev pub rival : Caterer
rival = record kitchen { id = 61; name = "La Table"; invoice_prefix = some "TABLE" }

abbrev pub open_request : QuoteRequest
open_request = record {
  id = 1;
  company_id = 50;
  user_id = some 100;
  company_service_id = none;
  status = QuoteRequestStatus.sent_to_caterers;
  submission_token = none;
  meal_type = none;
  event_date = some 20;
  guest_count = some 10;
  event_address = some "1 rue A";
  event_city = some "Lyon";
  event_zip_code = some "69001";
  drinks = none;
  drinks_alcohol = false;
  is_compare_mode = true;
  message_to_caterer = none;
}

abbrev pending_request : QuoteRequest
pending_request = record open_request { id = 2; status = QuoteRequestStatus.pending_review }

abbrev pub closed_request : QuoteRequest
closed_request = record open_request { id = 3; status = QuoteRequestStatus.completed }

abbrev transmitted_qrc : QuoteRequestCaterer
transmitted_qrc = record {
  id = 11;
  quote_request_id = 1;
  caterer_id = 60;
  status = QrcStatus.transmitted_to_client;
  responded_at = some 5;
  response_rank = some 1;
}

abbrev waiting_qrc : QuoteRequestCaterer
waiting_qrc = record transmitted_qrc {
  id = 12;
  caterer_id = 61;
  status = QrcStatus.selected;
  responded_at = none;
  response_rank = none;
}

abbrev pub sent_quote : Quote
sent_quote = record {
  id = 21;
  quote_request_id = 1;
  caterer_id = 60;
  reference = "DEVIS-FOURN-2026-001";
  total_amount_ht = some 10000;
  amount_per_person = some 1000;
  notes = none;
  valid_until = some 15;
  status = QuoteStatus.sent;
  refusal_reason = none;
  created_at = 0;
}

abbrev draft_quote : Quote
draft_quote = record sent_quote { id = 22; caterer_id = 61; status = QuoteStatus.draft }

abbrev pub ordered_quote : ℕ → Quote
ordered_quote i = record sent_quote { id = i; quote_request_id = 3; status = QuoteStatus.accepted }

abbrev pub order_at : ℕ → ℕ → OrderStatus → Order
order_at i q s = record {
  id = i;
  quote_id = q;
  client_admin_id = 100;
  status = s;
  delivery_date = some 20;
  delivery_address = none;
  notes = none;
  stripe_invoice_id = none;
  stripe_hosted_invoice_url = none;
  invoice_attempt = 0;
}

abbrev pub open_payment : Payment
open_payment = record {
  id = 41;
  order_id = 33;
  caterer_id = 60;
  stripe_invoice_id = some "in_1";
  stripe_charge_id = none;
  status = PaymentStatus.pending;
  amount_total_cents = 10500;
  application_fee_cents = 500;
  amount_to_caterer_cents = 10000;
}

abbrev menu_line : QuoteLine
menu_line = record {
  quote_id = 24;
  position = 0;
  section = "principal";
  description = some "Menu";
  quantity = 10000;
  unit_price_ht = 1000;
  tva_rate = 1000;
}

abbrev first_terms : TermsVersion
first_terms = record {
  id = 70;
  slug = "v1";
  title = "CGS v1";
  template_name = "legal/cgs_v1.html";
  effective_at = 10;
  created_at = 0;
}

abbrev pub shop : Database
shop = record {
  companies = [];
  caterers = kitchen ∷ rival ∷ [];
  terms_versions = first_terms ∷ [];
  users = buyer ∷ cook ∷ [];
  services = [];
  employees = [];
  reset_tokens = [];
  requests = open_request ∷ pending_request ∷ closed_request ∷ [];
  qrcs = transmitted_qrc ∷ waiting_qrc ∷ [];
  quotes =
      sent_quote
      ∷ draft_quote
      ∷ ordered_quote 23
      ∷ ordered_quote 24
      ∷ ordered_quote 25
      ∷ ordered_quote 26
      ∷ [];
  quote_lines = menu_line ∷ [];
  orders =
      order_at 31 23 OrderStatus.confirmed
      ∷ order_at 32 24 OrderStatus.delivered
      ∷ order_at 33 25 OrderStatus.invoiced
      ∷ order_at 34 26 OrderStatus.paid
      ∷ [];
  invoices = [];
  commissions = [];
  payments = open_payment ∷ [];
  stripe_events = [];
  notifications = [];
  messages = [];
  reviews = [];
  audit_logs = [];
  uuid4 = λ n. 1000 + n;
  drawn = 0;
  commission_seq = 1;
}
