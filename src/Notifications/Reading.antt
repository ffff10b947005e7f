-- ===== src/Notifications/Reading.antt =====
-- What marking notifications as read changes.
use text.Mathlib.Text.{◌==◌ as str_eq}
use les_traiteurs_engages_v.Base.{
  Bool, List, String, [], arith, count, false, is_id, refl, some, update_where, ℕ, ◌&&◌, ◌+◌, ◌∷◌,
  ◌≡◌, ◌≢◌,
}
use les_traiteurs_engages_v.Models.{Database, Notification}
use les_traiteurs_engages_v.Notifications.{
  get_unread_count, is_one_of, is_text, is_unread_of, mark_read_by_type, mark_read_for_entities,
  mark_read_for_entity, mark_read_where, read,
}

module _ (user : ℕ) (t : Notification → Bool) where
  unread_split :
      (ns : List Notification)
      → count (is_unread_of user) (update_where (λ n. is_unread_of user n && t n) read ns)
          + count (λ n. is_unread_of user n && t n) ns
        ≡ count (is_unread_of user) ns
  unfolding count update_where
  unread_split [] = omega arith
  unread_split (n ∷ ns) = ground (arith, unread_split ns)

  unread_others :
      (v : ℕ) (ns : List Notification)
      → v ≢ user
      → count (is_unread_of v) (update_where (λ n. is_unread_of user n && t n) read ns)
        ≡ count (is_unread_of v) ns
  unfolding count update_where
  unread_others v [] h = refl
  unread_others v (n ∷ ns) h = ground (arith, unread_others v ns)

  unread_cleared :
      (ns : List Notification)
      → count
          (λ n. is_unread_of user n && t n)
          (update_where (λ n. is_unread_of user n && t n) read ns)
        ≡ 0
  unfolding count update_where
  unread_cleared [] = refl
  unread_cleared (n ∷ ns) = ground (arith, unread_cleared ns)

-- What a bulk update reports and leaves: the number reported is that by which the user's unread
-- count falls, none of the rows in question stays unread, nobody else's count changes, and no other
-- table does.
abbrev Clears : ℕ → (Notification → Bool) → Database → ℕ × Database → Type 0
Clears user t db (k, db') =
    (get_unread_count user db' + k ≡ get_unread_count user db)
    × (count (λ n. is_unread_of user n && t n) db'.notifications ≡ 0)
    × ((v : ℕ) → v ≢ user → get_unread_count v db' ≡ get_unread_count v db)
    × (db' ≡ record db { notifications = db'.notifications })

mark_read_where-Clears :
    (user : ℕ) (t : Notification → Bool) (db : Database)
    → ((n : Notification) → t (read n) ≡ t n)
    → Clears user t db (mark_read_where user t db)
unfolding mark_read_where get_unread_count
mark_read_where-Clears user t db same = (
  unread_split user t db.notifications,
  unread_cleared user t db.notifications,
  λ v h. unread_others user t v db.notifications h,
  refl,
)

-- For a user and a kind of entity that are given, each of the three bulk functions (for one entity,
-- for a kind, for a non-empty list of entities) marks exactly the user's unread rows in question:
-- the user's unread count falls by the number returned, none of them stays unread, and nobody
-- else's count and no other table changes.
mark_read-Clears :
    (user : ℕ) (kind : String) (e : ℕ) (es : List ℕ) (db : Database)
    → str_eq kind "" ≡ false
    → Clears user
        (λ n. is_text n.related_entity_type kind && is_id n.related_entity_id e)
        db
        (mark_read_for_entity (some user) (some kind) (some e) db)
      × Clears user
          (λ n. is_text n.related_entity_type kind)
          db
          (mark_read_by_type (some user) (some kind) db)
      × Clears user
          (λ n. is_text n.related_entity_type kind && is_one_of n.related_entity_id (e ∷ es))
          db
          (mark_read_for_entities (some user) (some kind) (e ∷ es) db)
unfolding mark_read_for_entity mark_read_by_type mark_read_for_entities
mark_read-Clears user kind e es db h =
    rw (h, mark_read_for_entity, mark_read_by_type, mark_read_for_entities)
      (
        mark_read_where-Clears user _ db (λ n. refl),
        mark_read_where-Clears user _ db (λ n. refl),
        mark_read_where-Clears user _ db (λ n. refl),
      )
