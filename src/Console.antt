-- ===== src/Console.antt =====
-- blueprints/admin.py: the posts of the administrator's pages. Each writes an audit row before it
-- commits, and aborts or redirects before it writes.
pub mod Journal
pub mod Transitions
use text.Mathlib.Text.{◌==◌ as str_eq}
use les_traiteurs_engages_v.Base.{
  ◌>>◌, ◌>>=◌, Bool, Call, Option, String, false, fetch, find, if◌then◌else◌, modify, none, not, ok,
  or_rollback, raise, raise_if, some, true, update_first, ℕ, ◌+++◌, ◌==◌,
}
use les_traiteurs_engages_v.Audit.{log_admin_action}
use les_traiteurs_engages_v.Models.{
  Caterer, Database, Order, OrderStatus, User, is_paid, order_by, quote_by, request_by,
}
use les_traiteurs_engages_v.Notifications.{
  Notice, caterer_user_ids, company_admin_user_ids, notify_users,
}
use les_traiteurs_engages_v.Reviews.{notify_review_invite}
use les_traiteurs_engages_v.Workflow.Approval.{approve_quote_request}
use les_traiteurs_engages_v.Workflow.Errors.{Session}
use les_traiteurs_engages_v.Workflow.Refusal.{reject_quote_request}

-- How a post ends without its write: `abort(400)`, `abort(404)`, the redirect with a message, and the
-- exception at a row that a foreign key promises and that is missing.
pub data ConsoleError : Type 0 where
  bad_request not_found transition_impossible missing_relation : ConsoleError

abbrev Administering : Type 0 → Type 0
Administering = Call Database ConsoleError

-- `except workflow.RequestNotFound: abort(404)`. The two calls raise nothing else.
unfoldable pub or_not_found : {A : Type 0} → Session A → Administering A
or_not_found m db =
    let (r, db') = m db in elim r [ ok a ↦ (ok a, db') | raise e ↦ (raise not_found, db') ]

unfoldable pub qualification_approve : User → ℕ → Administering (Unit {0})
qualification_approve actor request_id = do
  qrcs ← or_not_found (approve_quote_request request_id)
  modify (log_admin_action actor "quote_request.approve" "quote_request" request_id)

-- The reason is that of a form that has validated.
unfoldable pub qualification_reject : User → ℕ → Option String → Administering (Unit {0})
qualification_reject actor request_id reason = do
  or_not_found (reject_quote_request request_id reason)
  modify (log_admin_action actor "quote_request.reject" "quote_request" request_id)

abbrev caterer_by : ℕ → Database → Option Caterer
caterer_by id db = find (λ c. c.id == id) db.caterers

abbrev set_validated : Bool → Caterer → Caterer
set_validated b c = record c { is_validated = b }

-- What the two handlers share: they differ in the flag and in the name of the action.
unfoldable pub decide_caterer : Bool → String → User → ℕ → Administering (Unit {0})
decide_caterer b action actor caterer_id = do
  caterer ← fetch (caterer_by caterer_id) not_found
  modify λ db. record db {
    caterers = update_first (λ c. c.id == caterer_id) (set_validated b) db.caterers;
  }
  modify (log_admin_action actor action "caterer" caterer_id)

abbrev caterer_validate : User → ℕ → Administering (Unit {0})
caterer_validate = decide_caterer true "caterer.validate"

abbrev caterer_invalidate : User → ℕ → Administering (Unit {0})
caterer_invalidate = decide_caterer false "caterer.invalidate"

-- An entry of `_ADMIN_ORDER_TRANSITIONS`, with its key.
pub record Transition : Type 0 where
  pub action : String
  pub expected : OrderStatus
  pub target : OrderStatus

unfoldable pub admin_order_transition : String → Option Transition
admin_order_transition action =
    if str_eq action "invoice"
    then some (record {
      action = action;
      expected = OrderStatus.delivered;
      target = OrderStatus.invoiced;
    })
    else if str_eq action "pay"
    then some
        (record { action = action; expected = OrderStatus.invoiced; target = OrderStatus.paid })
    else none

-- `action not in _ADMIN_ORDER_TRANSITIONS`: a missing field is not in it.
abbrev transition_of : Option String → Option Transition
transition_of none = none
transition_of (some action) = admin_order_transition action

-- `order.status == expected`.
abbrev same_status : OrderStatus → OrderStatus → Bool
same_status OrderStatus.confirmed OrderStatus.confirmed = true
same_status OrderStatus.delivered OrderStatus.delivered = true
same_status OrderStatus.invoicing OrderStatus.invoicing = true
same_status OrderStatus.invoiced OrderStatus.invoiced = true
same_status OrderStatus.paid OrderStatus.paid = true
same_status OrderStatus.disputed OrderStatus.disputed = true
same_status _ _ = false

abbrev pub with_order_status : OrderStatus → Order → Order
with_order_status s o = record o { status = s }

-- `action` is one of the two keys here, so that the code's third branch is dead.
abbrev client_transition_notice : String → ℕ → Notice
client_transition_notice action order_id = record {
  type = "order_" +++ action;
  title = if str_eq action "invoice" then "Facture disponible" else "Paiement reçu";
  body =
      if str_eq action "invoice"
      then "Votre facture est prête. Vous pouvez la consulter depuis le détail de la commande."
      else "Le paiement de votre commande a été enregistré. Merci !";
  related_entity_type = some "order";
  related_entity_id = some order_id;
}

abbrev caterer_transition_notice : String → ℕ → Notice
caterer_transition_notice action order_id = record {
  type = "order_" +++ action;
  title = if str_eq action "invoice" then "Commande facturée" else "Paiement reçu";
  body =
      if str_eq action "invoice"
      then "La commande a été facturée par notre équipe."
      else "Le paiement de la commande a été enregistré et sera viré sous peu.";
  related_entity_type = some "order";
  related_entity_id = some order_id;
}

-- The two notifications and, where the order is paid now, the invitation to review it.
unfoldable pub announce_transition : Transition → Order → Administering (Unit {0})
announce_transition t order = do
  quote ← fetch (quote_by order.quote_id) missing_relation
  qr ← fetch (request_by quote.quote_request_id) missing_relation
  modify λ db.
      notify_users (company_admin_user_ids (some qr.company_id) db)
        (client_transition_notice t.action order.id) db
  modify λ db.
      notify_users (caterer_user_ids (some quote.caterer_id) db)
        (caterer_transition_notice t.action order.id) db
  modify λ db.
      if is_paid t.target then notify_review_invite (with_order_status t.target order) db else db

unfoldable pub order_transition : User → Option String → ℕ → Administering (Unit {0})
order_transition actor action order_id = do
  t ← fetch (λ db. transition_of action) bad_request
  order ← fetch (order_by order_id) not_found
  raise_if (not (same_status order.status t.expected)) transition_impossible
  modify λ db. record db {
    orders = update_first (λ o. o.id == order_id) (with_order_status t.target) db.orders;
  }
  modify (log_admin_action actor ("order." +++ t.action) "order" order_id)
  announce_transition t order

-- The posts of the pages, each in a transaction that is committed at the end and rolled back else.
pub data ConsoleAction : Type 0 where
  approve validate invalidate : ℕ → ConsoleAction
  reject : ℕ → Option String → ConsoleAction
  transition : Option String → ℕ → ConsoleAction

unfoldable pub console : User → ConsoleAction → Administering (Unit {0})
console actor (approve request_id) = qualification_approve actor request_id
console actor (validate caterer_id) = caterer_validate actor caterer_id
console actor (invalidate caterer_id) = caterer_invalidate actor caterer_id
console actor (reject request_id reason) = qualification_reject actor request_id reason
console actor (transition action order_id) = order_transition actor action order_id

unfoldable pub perform_console : User → ConsoleAction → Database → Database
perform_console actor a db = or_rollback db (console actor a db)
