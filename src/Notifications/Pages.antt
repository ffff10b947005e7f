-- ===== src/Notifications/Pages.antt =====
-- Where a notification leads, and what reads it: `notification_target_url` of
-- services/notifications.py, the posts of blueprints/_notifications.py and of blueprints/api.py, and
-- the hook of app.py that runs after each page.
pub mod Leads
pub mod Swept
use les_traiteurs_engages_v.Base.{
  Bool, List, Option, String, find, if◌then◌else◌, map, none, select, some, true, ℕ, ◌&&◌, ◌==◌,
  ◌||◌,
}
use les_traiteurs_engages_v.Models.{
  Database, Message, Notification, Quote, User, UserRole, is_client_admin, is_client_user,
  is_super_admin, quote_by,
}
use les_traiteurs_engages_v.Notifications.{
  is_text, mark_as_read, mark_read_by_type, mark_read_for_entities, mark_read_for_entity,
  mark_read_where,
}

-- The blueprints that a role's pages are in.
pub data Area : Type 0 where
  client caterer_area admin : Area

-- The endpoints that a notification may lead to, with the identifier in the URL: the detail of a
-- request (`admin.qualification_detail` for an administrator), of an order and of a caterer, the
-- team, the dashboard, a thread, and the administrator's inbox.
pub data Page : Type 0 where
  request_page order_page thread_page : Area → ℕ → Page
  caterer_page : ℕ → Page
  team_page dashboard_page inbox_page : Page

abbrev area : UserRole → Area
area UserRole.client_admin = client
area UserRole.client_user = client
area UserRole.caterer = caterer_area
area UserRole.super_admin = admin

abbrev is_client : UserRole → Bool
is_client role = is_client_admin role || is_client_user role

-- A quote is shown on its request, to clients and caterers.
abbrev quote_target : UserRole → Option Quote → Option Page
quote_target role none = none
quote_target UserRole.super_admin (some q) = none
quote_target role (some q) = some (request_page (area role) q.quote_request_id)

abbrev message_target : UserRole → Option Message → Option Page
message_target role none = none
message_target UserRole.super_admin (some m) = some inbox_page
message_target role (some m) = some (thread_page (area role) m.thread_id)

abbrev message_by : ℕ → Database → Option Message
message_by id db = find (λ m. m.id == id) db.messages

-- By the kind of the entity.
unfoldable pub entity_target : Option String → ℕ → UserRole → Database → Option Page
entity_target kind id role db =
    if is_text kind "quote_request"
    then some (request_page (area role) id)
    else if is_text kind "order"
    then some (order_page (area role) id)
    else if is_text kind "quote"
    then quote_target role (quote_by id db)
    else if is_text kind "user" && is_client_admin role
    then some team_page
    else if is_text kind "caterer" && is_super_admin role
    then some (caterer_page id)
    else if is_text kind "company" && is_client role
    then some dashboard_page
    else if is_text kind "message"
    then message_target role (message_by id db)
    else none

abbrev notification_target_url : Notification → UserRole → Database → Option Page
notification_target_url note role db = elim note.related_entity_id [
  | none ↦ none
  | some id ↦ entity_target note.related_entity_type id role db
]

abbrev quote_ids : ℕ → Database → List ℕ
quote_ids request_id db = map (λ q. q.id) (select (λ q. q.quote_request_id == request_id) db.quotes)

abbrev message_ids : ℕ → Database → List ℕ
message_ids thread_id db = map (λ m. m.id) (select (λ m. m.thread_id == thread_id) db.messages)

abbrev sweep_entity : ℕ → String → Option ℕ → Database → Database
sweep_entity user_id kind entity db = (mark_read_for_entity (some user_id) (some kind) entity db).1

abbrev sweep_entities : ℕ → String → List ℕ → Database → Database
sweep_entities user_id kind entities db =
    (mark_read_for_entities (some user_id) (some kind) entities db).1

-- The hook, after a page has been rendered for the user. A failure of the database, after which it
-- rolls back, is left out; pages that it does not name change nothing.
unfoldable pub mark_notifications_read_on_entity_view : Page → User → Database → Database
mark_notifications_read_on_entity_view (request_page a id) user db =
    sweep_entities user.id "quote" (quote_ids id db)
      (sweep_entity user.id "quote_request" (some id) db)
mark_notifications_read_on_entity_view (order_page a id) user db =
    sweep_entity user.id "order" (some id) db
mark_notifications_read_on_entity_view (caterer_page id) user db =
    sweep_entity user.id "caterer" (some id) db
mark_notifications_read_on_entity_view (thread_page a id) user db =
    sweep_entities user.id "message" (message_ids id db) db
mark_notifications_read_on_entity_view dashboard_page user db =
    sweep_entity user.id "company" user.company_id db
mark_notifications_read_on_entity_view team_page user db =
    if is_client_admin user.role then (mark_read_by_type (some user.id) (some "user") db).1 else db
mark_notifications_read_on_entity_view inbox_page user db = db

-- The redirect after a post, to the list of the notifications or to a page, and the JSON of the API.
data Landing : Type 0 where
  list_page missing acknowledged : Landing
  at : Page → Landing

abbrev landing : Option Page → Landing
landing none = list_page
landing (some page) = at page

abbrev own_note : ℕ → User → Database → Option Notification
own_note id user db = elim (find (λ n. n.id == id) db.notifications) [
  | none ↦ none
  | some n ↦ if n.user_id == user.id then some n else none
]

unfoldable notifications_read_one : ℕ → User → Database → Landing × Database
notifications_read_one id user db = elim (own_note id user db) [
  | none ↦ (list_page, db)
  | some n ↦ (list_page, mark_as_read id db)
]

unfoldable notifications_visit : ℕ → User → Database → Landing × Database
notifications_visit id user db = elim (own_note id user db) [
  | none ↦ (list_page, db)
  | some n ↦ (landing (notification_target_url n user.role db), mark_as_read id db)
]

unfoldable notifications_mark_all_read : User → Database → Landing × Database
notifications_mark_all_read user db = (list_page, (mark_read_where user.id (λ n. true) db).1)

-- That of the API.
unfoldable notification_read : ℕ → User → Database → Landing × Database
notification_read id user db = elim (own_note id user db) [
  | none ↦ (missing, db)
  | some n ↦ (acknowledged, mark_as_read id db)
]
