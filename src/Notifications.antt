-- ===== src/Notifications.antt =====
-- services/notifications.py: raising notifications, finding their recipients, and marking them as
-- read. A function that writes returns the database that it leaves.
pub mod Delivery
pub mod Frame
pub mod Pages
pub mod Reading
use les_traiteurs_engages_v.Base.{
  ℕ, suc, ◌+◌, Bool, true, false, not, ◌&&◌, Option, none, some, List, [], ◌∷◌, ◌++◌, map, String,
  length, select, count, exists, update_first, update_where, ◌==◌, is_id,
}
use les_traiteurs_engages_v.Models.{
  Database, Notification, User, is_client_admin, is_super_admin, is_active_member,
}
use text.Mathlib.Text.{◌==◌ as str_eq}

-- The keyword arguments of `notify`.
pub record Notice : Type 0 where
  pub type : String
  pub title : String
  pub body : String
  pub related_entity_type : Option String
  pub related_entity_id : Option ℕ

-- The row that `Notification(...)` builds; `is_read` has its default.
abbrev pub note_for : Notice → ℕ → ℕ → Notification
note_for n id user_id = record {
  id = id;
  user_id = user_id;
  type = n.type;
  title = n.title;
  body = n.body;
  is_read = false;
  related_entity_type = n.related_entity_type;
  related_entity_id = n.related_entity_id;
}

-- `create_notification`, which `notify` is another name of.
unfoldable pub notify : ℕ → Notice → Database → Database
notify user_id n db = record db {
  notifications = db.notifications ++ note_for n (db.uuid4 db.drawn) user_id ∷ [];
  drawn = db.drawn + 1;
}

-- The loop of `notify_users`: a missing user and one seen before are skipped. The k-th row takes
-- the k-th identifier that is drawn.
unfoldable pub notes_from : (ℕ → ℕ) → ℕ → List ℕ → List (Option ℕ) → Notice → List Notification
notes_from uuid4 k seen [] n = []
notes_from uuid4 k seen (none ∷ us) n = notes_from uuid4 k seen us n
notes_from uuid4 k seen (some u ∷ us) n = elim (exists (λ s. s == u) seen) [
  | true ↦ notes_from uuid4 k seen us n
  | false ↦ note_for n (uuid4 k) u ∷ notes_from uuid4 (suc k) (u ∷ seen) us n
]

abbrev notes_of : List (Option ℕ) → Notice → Database → List Notification
notes_of us n db = notes_from db.uuid4 db.drawn [] us n

unfoldable pub notify_users : List (Option ℕ) → Notice → Database → Database
notify_users us n db = record db {
  notifications = db.notifications ++ notes_of us n db;
  drawn = db.drawn + length (notes_of us n db);
}

-- Recipients: the identifiers of the users whom an event concerns.
abbrev pub user_ids : List User → List (Option ℕ)
user_ids = map (λ u. some u.id)

unfoldable pub company_admin_user_ids : Option ℕ → Database → List (Option ℕ)
company_admin_user_ids none db = []
company_admin_user_ids (some c) db = user_ids (
    select
      (λ u.
        is_id u.company_id c
        && is_client_admin u.role
        && is_active_member u.membership_status
        && u.is_active)
      db.users)

unfoldable pub caterer_user_ids : Option ℕ → Database → List (Option ℕ)
caterer_user_ids none db = []
caterer_user_ids (some c) db = user_ids (select (λ u. is_id u.caterer_id c && u.is_active) db.users)

unfoldable pub super_admin_user_ids : Database → List (Option ℕ)
super_admin_user_ids db = user_ids (select (λ u. is_super_admin u.role && u.is_active) db.users)

-- A nullable text column against a text: SQL's `=`.
abbrev pub is_text : Option String → String → Bool
is_text none t = false
is_text (some s) t = str_eq s t

abbrev is_unread_of : ℕ → Notification → Bool
is_unread_of user n = n.user_id == user && not n.is_read

unfoldable get_unread_count : ℕ → Database → ℕ
get_unread_count user db = count (is_unread_of user) db.notifications

abbrev read : Notification → Notification
read n = record n { is_read = true }

unfoldable mark_as_read : ℕ → Database → Database
mark_as_read id db = record db {
  notifications = update_first (λ n. n.id == id) read db.notifications;
}

-- The `UPDATE` that the three bulk functions share, on the rows of `user` that meet `t`: the number
-- of rows updated, and the new state.
unfoldable mark_read_where : ℕ → (Notification → Bool) → Database → ℕ × Database
mark_read_where user t db = (
  count (λ n. is_unread_of user n && t n) db.notifications,
  record db {
    notifications = update_where (λ n. is_unread_of user n && t n) read db.notifications;
  },
)

-- A falsy argument makes each of them return 0 and write nothing.
unfoldable mark_read_for_entity : Option ℕ → Option String → Option ℕ → Database → ℕ × Database
mark_read_for_entity (some user) (some kind) (some entity) db = elim (str_eq kind "") [
  | true ↦ (0, db)
  | false ↦
      mark_read_where user
        (λ n. is_text n.related_entity_type kind && is_id n.related_entity_id entity) db
]
mark_read_for_entity _ _ _ db = (0, db)

unfoldable mark_read_by_type : Option ℕ → Option String → Database → ℕ × Database
mark_read_by_type (some user) (some kind) db = elim (str_eq kind "") [
  | true ↦ (0, db)
  | false ↦ mark_read_where user (λ n. is_text n.related_entity_type kind) db
]
mark_read_by_type _ _ db = (0, db)

-- `related_entity_id.in_(entity_ids)`.
abbrev pub is_one_of : Option ℕ → List ℕ → Bool
is_one_of id ids = exists (λ e. is_id id e) ids

unfoldable mark_read_for_entities : Option ℕ → Option String → List ℕ → Database → ℕ × Database
mark_read_for_entities (some user) (some kind) (e ∷ es) db = elim (str_eq kind "") [
  | true ↦ (0, db)
  | false ↦
      mark_read_where user
        (λ n. is_text n.related_entity_type kind && is_one_of n.related_entity_id (e ∷ es)) db
]
mark_read_for_entities _ _ _ db = (0, db)
