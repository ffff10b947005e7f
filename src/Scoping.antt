-- ===== src/Scoping.antt =====
-- blueprints/scoping.py: the rows that a user may see. Each query is an Option, whose `none` is
-- `abort(404)`; a join on a primary key is the lookup of that key.
pub mod Rows
pub mod Client
pub mod Kitchen
use les_traiteurs_engages_v.Base.{
  Bool, Option, false, find, if◌then◌else◌, is_id, none, some, true, ℕ, ◌&&◌, ◌==◌,
}
use les_traiteurs_engages_v.Models.{
  CompanyEmployee, CompanyService, Database, Order, Quote, QuoteRequest, QuoteRequestCaterer, User,
  is_client_user, is_pending_member, quote_by, request_by,
}

-- `own_requests_filter`.
abbrev own_requests_filter : User → Option (QuoteRequest → Bool)
own_requests_filter user =
    if is_client_user user.role then some (λ r. is_id r.user_id user.id) else none

-- The condition that a query adds for the filter.
abbrev pub passes : Option (QuoteRequest → Bool) → QuoteRequest → Bool
passes none r = true
passes (some t) r = t r

abbrev pub is_in_scope : User → QuoteRequest → Bool
is_in_scope user r = is_id user.company_id r.company_id && passes (own_requests_filter user) r

unfoldable pub get_company_request : ℕ → User → Database → Option QuoteRequest
get_company_request request_id user db =
    find (λ r. r.id == request_id && is_in_scope user r) db.requests

-- Whether the order's quote and the request behind it are there, and the request in scope.
abbrev is_order_in_scope : User → Database → Order → Bool
is_order_in_scope user db o = elim (quote_by o.quote_id db) [
  | none ↦ false
  | some q ↦ elim (request_by q.quote_request_id db) [ none ↦ false | some r ↦ is_in_scope user r ]
]

unfoldable pub get_company_order : ℕ → User → Database → Option Order
get_company_order order_id user db =
    find (λ o. o.id == order_id && is_order_in_scope user db o) db.orders

unfoldable pub get_company_service : ℕ → Option ℕ → Database → Option CompanyService
get_company_service service_id company db =
    find (λ s. s.id == service_id && is_id company s.company_id) db.services

unfoldable pub get_company_employee : ℕ → Option ℕ → Database → Option CompanyEmployee
get_company_employee employee_id company db =
    find (λ e. e.id == employee_id && is_id company e.company_id) db.employees

-- A nullable column against a nullable value, which is never satisfied by NULL here: the company
-- of the administrator is set.
abbrev pub is_same_id : Option ℕ → Option ℕ → Bool
is_same_id a none = false
is_same_id a (some b) = is_id a b

unfoldable pub get_pending_user : ℕ → Option ℕ → Database → Option User
get_pending_user user_id company db =
    find
      (λ u.
        u.id == user_id
        && (is_same_id u.company_id company && is_pending_member u.membership_status))
      db.users

unfoldable pub get_caterer_qrc : ℕ → ℕ → Database → Option QuoteRequestCaterer
get_caterer_qrc qr_id caterer_id db =
    find (λ c. c.quote_request_id == qr_id && c.caterer_id == caterer_id) db.qrcs

unfoldable pub get_caterer_quote : ℕ → ℕ → ℕ → Database → Option Quote
get_caterer_quote qr_id quote_id caterer_id db =
    find (λ q. q.id == quote_id && (q.caterer_id == caterer_id && q.quote_request_id == qr_id))
      db.quotes

abbrev is_order_of_caterer : ℕ → Database → Order → Bool
is_order_of_caterer caterer_id db o = elim (quote_by o.quote_id db) [
  | none ↦ false
  | some q ↦ q.caterer_id == caterer_id
]

unfoldable get_caterer_order : ℕ → ℕ → Database → Option Order
get_caterer_order order_id caterer_id db =
    find (λ o. o.id == order_id && is_order_of_caterer caterer_id db o) db.orders
