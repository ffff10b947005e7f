-- ===== src/Messaging.antt =====
-- blueprints/api.py: who may write to whom, and the sending and reading of messages.
pub mod Gate
pub mod Recipients
pub mod Sending
pub mod Contexts
pub mod Rivals
pub mod Reading
use text.Mathlib.Text.{◌==◌ as str_eq}
use les_traiteurs_engages_v.Audit.{log_admin_action}
use les_traiteurs_engages_v.Base.{
  ◌>>◌, ◌>>=◌, Bool, Call, List, Option, String, [], chars, exists, false, fetch, find, gets,
  if◌then◌else◌, is_empty, is_id, is_some, ltb, map, modify, none, not, raise_if, return, select,
  some, strip, text_or, true, update_where, ℕ, ◌&&◌, ◌+++◌, ◌++◌, ◌+◌, ◌==◌, ◌||◌, ◌∷◌,
}
use les_traiteurs_engages_v.Models.{
  Database, Message, User, is_super_admin, order_by, quote_by, request_by,
}
use les_traiteurs_engages_v.Notifications.{Notice, is_one_of, notify}
use les_traiteurs_engages_v.Scoping.{is_same_id}

-- The company and the caterers that a context brings together.
pub record Parties : Type 0 where
  pub company_id : Option ℕ
  pub caterer_ids : List ℕ

abbrev solicited : ℕ → Database → List ℕ
solicited qr_id db = map (λ c. c.caterer_id) (select (λ c. c.quote_request_id == qr_id) db.qrcs)

-- The parties of a request, with the caterers found before; `none` is the early `return set()`.
abbrev parties_of_request : Option ℕ → List ℕ → Database → Option Parties
parties_of_request none caterers db = some (record { company_id = none; caterer_ids = caterers })
parties_of_request (some qr_id) caterers db = elim (request_by qr_id db) [
  | none ↦ none
  | some qr ↦
      some
        (record { company_id = some qr.company_id; caterer_ids = caterers ++ solicited qr_id db })
]

-- The parties of a context; an order takes the place of the request that is given with it.
unfoldable pub parties_of : Option ℕ → Option ℕ → Database → Option Parties
parties_of none quote_request_id db = parties_of_request quote_request_id [] db
parties_of (some order_id) quote_request_id db = elim (order_by order_id db) [
  | none ↦ none
  | some order ↦ elim (quote_by order.quote_id db) [
    | none ↦ none
    | some quote ↦ parties_of_request (some quote.quote_request_id) (quote.caterer_id ∷ []) db
  ]
]

abbrev pub has : List ℕ → ℕ → Bool
has ids x = exists (λ i. i == x) ids

abbrev user_in_company : User → Parties → Bool
user_in_company user p = is_same_id user.company_id p.company_id

abbrev user_in_caterers : User → Parties → Bool
user_in_caterers user p = is_one_of user.caterer_id p.caterer_ids

abbrev ids_where : (User → Bool) → Database → List ℕ
ids_where t db = map (λ u. u.id) (select t db.users)

-- The users of the company, if the context has one.
abbrev company_side : Parties → Database → List ℕ
company_side p db = elim p.company_id [
  | none ↦ []
  | some c ↦ ids_where (λ u. is_id u.company_id c) db
]

abbrev all_recipients : User → Parties → Database → List ℕ
all_recipients user p db =
    if user_in_company user p
    then (if exists (λ c. true) p.caterer_ids
        then ids_where (λ u. is_one_of u.caterer_id p.caterer_ids) db
        else [])
      ++ company_side p db
    else if user_in_caterers user p
    then company_side p db ++ ids_where (λ u. is_same_id u.caterer_id user.caterer_id) db
    else []

-- `_allowed_recipients_for`: the set, as the list of its elements, some of them twice.
unfoldable pub allowed_recipients_for : User → Option ℕ → Option ℕ → Database → List ℕ
allowed_recipients_for user order_id quote_request_id db =
    elim (parties_of order_id quote_request_id db) [
      | none ↦ []
      | some p ↦ select (λ i. not (i == user.id)) (all_recipients user p db)
    ]

-- The answers of `send_message` other than 201.
pub data MessageError : Type 0 where
  bad_recipient empty_message message_too_long recipient_not_found : MessageError
  recipient_not_allowed no_context : MessageError

abbrev Posting : Type 0 → Type 0
Posting = Call Database MessageError

-- MESSAGE_BODY_MAX.
abbrev message_body_max : ℕ
message_body_max = 5000

abbrev is_between : ℕ → ℕ → Message → Bool
is_between a b m =
    (m.sender_id == a && m.recipient_id == b) || (m.sender_id == b && m.recipient_id == a)

abbrev thread_between : ℕ → ℕ → Database → Option ℕ
thread_between a b db = elim (find (is_between a b) db.messages) [
  | none ↦ none
  | some m ↦ some m.thread_id
]

abbrev is_support : (String → String) → List String → User → Bool
is_support lower support_emails recipient =
    is_super_admin recipient.role
    && (not (exists (λ e. true) support_emails)
        || exists (λ e. str_eq e (lower recipient.email)) support_emails)

abbrev context_of : Message → Option ℕ × Option ℕ
context_of m = (m.order_id, m.quote_request_id)

-- The contexts that a message is gated on: its own, or those of the thread's messages. Python's are
-- distinct, which neither of the tests on them depends on.
unfoldable pub gate_contexts :
    Option ℕ → Option ℕ → Option ℕ → Database → List (Option ℕ × Option ℕ)
gate_contexts order_id quote_request_id existing db =
    if is_some order_id || is_some quote_request_id
    then (order_id, quote_request_id) ∷ []
    else elim existing [
      | none ↦ []
      | some t ↦ map context_of (
          select (λ m. m.thread_id == t && (is_some m.order_id || is_some m.quote_request_id))
            db.messages)
    ]

abbrev reaches : User → ℕ → Database → Option ℕ × Option ℕ → Bool
reaches user recipient_id db c = has (allowed_recipients_for user c.0 c.1 db) recipient_id

abbrev message_notice : User → ℕ → Notice
message_notice user message_id = record {
  type = "new_message";
  title = "Nouveau message";
  body = user.first_name +++ (" " +++ (user.last_name +++ " vous a envoye un message."));
  related_entity_type = some "message";
  related_entity_id = some message_id;
}

-- `existing if existing else uuid.uuid4()`, and the identifier that is then drawn: it is counted
-- once the message is added.
abbrev thread_or_new : Option ℕ → Database → ℕ
thread_or_new none db = db.uuid4 db.drawn
thread_or_new (some t) db = t

abbrev draw_thread : Option ℕ → Database → Database
draw_thread none db = record db { drawn = db.drawn + 1 }
draw_thread (some t) db = db

abbrev add_message : Message → Database → Database
add_message m db = record db { messages = db.messages ++ m ∷ []; drawn = db.drawn + 1 }

abbrev message_of : User → ℕ → Option ℕ → Option ℕ → String → ℕ → ℕ → Message
message_of user recipient_id order_id quote_request_id body thread_id id = record {
  id = id;
  thread_id = thread_id;
  sender_id = user.id;
  recipient_id = recipient_id;
  order_id = order_id;
  quote_request_id = quote_request_id;
  body = body;
  is_read = false;
}

abbrev audit_if : Bool → User → ℕ → Database → Database
audit_if b user recipient_id db =
    if b then log_admin_action user "message.admin_send" "user" recipient_id db else db

-- The gate on a business relationship.
unfoldable pub check_gate : User → User → Option ℕ → Option ℕ → Option ℕ → Posting (Unit {0})
check_gate user recipient order_id quote_request_id existing = do
  raise_if (is_super_admin recipient.role) recipient_not_allowed
  contexts ← gets (gate_contexts order_id quote_request_id existing)
  raise_if (not (exists (λ c. true) contexts)) no_context
  reached ← gets (λ db. exists (reaches user recipient.id db) contexts)
  raise_if (not reached) recipient_not_allowed
  return tt

-- `send_message`, from the parsed JSON on: `recipient_id` is none if it is no UUID, as are an
-- `order_id` and a `quote_request_id` that are missing.
unfoldable pub send_message :
    (String → String)
    → List String
    → User
    → Option ℕ
    → Option String
    → Option ℕ
    → Option ℕ
    → Posting Message
send_message lower support_emails user recipient body_raw order_id quote_request_id = do
  recipient_id ← fetch (λ db. recipient) bad_recipient
  raise_if (is_empty (strip (text_or body_raw ""))) empty_message
  raise_if (ltb message_body_max (chars (strip (text_or body_raw "")))) message_too_long
  existing ← gets (thread_between user.id recipient_id)
  thread_id ← gets (thread_or_new existing)
  target ← fetch (λ db. find (λ u. u.id == recipient_id) db.users) recipient_not_found
  raise_if (not target.is_active) recipient_not_found
  if is_super_admin user.role || is_support lower support_emails target
      then return tt
      else check_gate user target order_id quote_request_id existing
  modify (draw_thread existing)
  message ← gets λ db.
      message_of user recipient_id order_id quote_request_id (strip (text_or body_raw "")) thread_id
        (db.uuid4 db.drawn)
  modify (add_message message)
  modify (audit_if (is_super_admin user.role && not (is_super_admin target.role)) user recipient_id)
  modify (notify recipient_id (message_notice user message.id))
  return message

abbrev is_part_of : ℕ → ℕ → Message → Bool
is_part_of thread_id user_id m =
    m.thread_id == thread_id && (m.sender_id == user_id || m.recipient_id == user_id)

abbrev is_unread_in : ℕ → ℕ → Message → Bool
is_unread_in thread_id user_id m =
    m.thread_id == thread_id && m.recipient_id == user_id && not m.is_read

abbrev as_read : Message → Message
as_read m = record m { is_read = true }

-- `get_messages`: the messages that are shown, as the commit leaves them, in the order in which they
-- were sent, and the database.
unfoldable pub get_messages : ℕ → User → Database → List Message × Database
get_messages thread_id user db =
    let messages = update_where (is_unread_in thread_id user.id) as_read db.messages in
    (select (is_part_of thread_id user.id) messages, record db { messages = messages })
