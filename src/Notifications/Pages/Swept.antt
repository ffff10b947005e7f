-- ===== src/Notifications/Pages/Swept.antt =====
-- Whoever follows a notification has read it.
use text.Mathlib.Text.{◌==◌ as str_eq}
use les_traiteurs_engages_v.Base.{
  ==_iff, ==_refl, Bool, Bool-cases, List, Option, String, [], arith, count,
  count-update_where_mono, exists, false, find, if◌then◌else◌, inl, inr, is_id, map, none, refl,
  select, some, some_inj, subst, sym, true, update_where, ℕ, ◌&&◌, ◌==◌, ◌∷◌, ◌≡◌, ◌≢◌,
}
use les_traiteurs_engages_v.Models.{Database, Notification, User}
use les_traiteurs_engages_v.Notifications.{
  is_one_of, is_text, is_unread_of, mark_read_by_type, mark_read_for_entities, mark_read_for_entity,
  mark_read_where, read,
}
use les_traiteurs_engages_v.Notifications.Pages.{
  Page, inbox_page, mark_notifications_read_on_entity_view, message_ids, notification_target_url,
  quote_ids, sweep_entities, sweep_entity,
}
use les_traiteurs_engages_v.Notifications.Pages.Leads.{
  Leads, target-Leads, to_caterer, to_dashboard, to_inbox, to_order, to_quote, to_request, to_team,
  to_thread,
}

-- A row of the user's about the entity that is still unread.
abbrev pub is_waiting : ℕ → String → ℕ → Notification → Bool
is_waiting user kind id n =
    is_unread_of user n && (is_text n.related_entity_type kind && is_id n.related_entity_id id)

count-update_where_none :
    (t u : Notification → Bool) (f : Notification → Notification) (ns : List Notification)
    → ((n : Notification) → u (if t n then f n else n) ≡ false)
    → count u (update_where t f ns) ≡ 0
unfolding count update_where
count-update_where_none t u f [] h = refl
count-update_where_none t u f (n ∷ ns) h = ground (arith, h n, count-update_where_none t u f ns h)

exists-select :
    {A : Type 0} (key : A → ℕ) (t : A → Bool) (i : ℕ) (xs : List A) (a : A)
    → find (λ x. key x == i) xs ≡ some a
    → t a ≡ true
    → exists (λ e. i == e) (map key (select t xs)) ≡ true
unfolding find exists select
exists-select key t i [] a h k = cc
exists-select key t i (x ∷ xs) a h k = elim (Bool-cases (key x == i)) [
  | inl y ↦
      let kept : t x ≡ true = subst (λ z. t z ≡ true) (sym (some_inj (rw y at h))) k in
      rw kept (ground arith)
  | inr n ↦ elim (Bool-cases (t x)) [
    | inl y ↦ rw y (ground (arith, exists-select key t i xs a (rw n at h) k))
    | inr m ↦ rw m (exists-select key t i xs a (rw n at h) k)
  ]
]

module _ (user : ℕ) (kind : String) (named : str_eq kind "" ≡ false) (db : Database) where
  abbrev Settled : ℕ → Database → Type 0
  Settled id d = count (is_waiting user kind id) d.notifications ≡ 0

  sweep_entity-Settled : (id : ℕ) → Settled id (sweep_entity user kind (some id) db)
  unfolding mark_read_for_entity mark_read_where
  sweep_entity-Settled id =
      rw (named, sweep_entity, mark_read_for_entity)
        (count-update_where_none _ (is_waiting user kind id) read db.notifications
          (λ n. ground arith))

  by_type-Settled : (id : ℕ) → Settled id (mark_read_by_type (some user) (some kind) db).1
  unfolding mark_read_by_type mark_read_where
  by_type-Settled id =
      rw (named, mark_read_by_type)
        (count-update_where_none _ (is_waiting user kind id) read db.notifications
          (λ n. ground arith))

  listed :
      (e : Option ℕ) (id : ℕ) (ids : List ℕ)
      → exists (λ e. id == e) ids ≡ true
      → is_id e id ≡ true
      → is_one_of e ids ≡ true
  listed none id ids h k = cc
  listed (some e) id ids h k =
      subst (λ i. exists (λ e. i == e) ids ≡ true) (sym ((==_iff e id).0 k)) h

  sweep_entities-Settled :
      (id : ℕ) (ids : List ℕ)
      → exists (λ e. id == e) ids ≡ true
      → Settled id (sweep_entities user kind ids db)
  unfolding mark_read_for_entities mark_read_where exists
  sweep_entities-Settled id [] h = cc
  sweep_entities-Settled id (e ∷ es) h =
      rw (named, sweep_entities, mark_read_for_entities)
        (count-update_where_none _ (is_waiting user kind id) read db.notifications
          (λ n. ground (arith, listed n.related_entity_id id (e ∷ es) h)))

-- A later sweep brings nothing back.
sweep_entities_keeps :
    (user : ℕ) (kind other : String) (id : ℕ) (ids : List ℕ) (db : Database)
    → count (is_waiting user kind id) db.notifications ≡ 0
    → count (is_waiting user kind id) (sweep_entities user other ids db).notifications ≡ 0
unfolding mark_read_for_entities mark_read_where
sweep_entities_keeps user kind other id [] db h = h
sweep_entities_keeps user kind other id (e ∷ es) db h = elim (Bool-cases (str_eq other "")) [
  | inl y ↦ rw (y, sweep_entities, mark_read_for_entities) h
  | inr n ↦
      rw (n, sweep_entities, mark_read_for_entities)
        (omega (
          arith,
          h,
          count-update_where_mono
              (λ n.
                is_unread_of user n
                && (is_text n.related_entity_type other && is_one_of n.related_entity_id (e ∷ es)))
              read (is_waiting user kind id) db.notifications (λ n a b. ground arith),
        ))
]

module _ (id : ℕ) (user : User) (db : Database) where
  abbrev Read : String → Page → Type 0
  Read kind page =
      count (is_waiting user.id kind id)
        (mark_notifications_read_on_entity_view page user db).notifications
      ≡ 0

  Leads-Read :
      (kind : String) (page : Page)
      → Leads id user.role db kind page
      → page ≢ inbox_page
      → (kind ≡ "company" → user.company_id ≡ some id)
      → Read kind page
  unfolding mark_notifications_read_on_entity_view
  Leads-Read kind page to_request a b =
      sweep_entities_keeps user.id "quote_request" "quote" id (quote_ids id db)
        (sweep_entity user.id "quote_request" (some id) db)
        (sweep_entity-Settled user.id "quote_request" refl db id)
  Leads-Read kind page to_order a b = sweep_entity-Settled user.id "order" refl db id
  Leads-Read kind page (to_quote q e) a b =
      sweep_entities-Settled user.id "quote" refl
        (sweep_entity user.id "quote_request" (some q.quote_request_id) db) id
        (quote_ids q.quote_request_id db)
        (exists-select (λ q. q.id) (λ r. r.quote_request_id == q.quote_request_id) id db.quotes q e
          (==_refl q.quote_request_id))
  Leads-Read kind page (to_team t) a b = rw t (by_type-Settled user.id "user" refl db id)
  Leads-Read kind page to_caterer a b = sweep_entity-Settled user.id "caterer" refl db id
  Leads-Read kind page to_dashboard a b =
      rw (b refl) (sweep_entity-Settled user.id "company" refl db id)
  Leads-Read kind page (to_thread m e) a b =
      sweep_entities-Settled user.id "message" refl db id (message_ids m.thread_id db) (
        exists-select (λ m. m.id) (λ r. r.thread_id == m.thread_id) id db.messages m e
          (==_refl m.thread_id))
  Leads-Read kind page to_inbox a b = absurd (a refl)

  -- The page that a notification leads to reads it: once it has been rendered for the user, none of the
  -- user's notifications about the same entity is unread. The administrator's inbox is the exception,
  -- and a notification about a company has to be about the user's own.
  pub viewed_target_reads :
      (note : Notification) (kind : String) (page : Page)
      → note.related_entity_type ≡ some kind
      → note.related_entity_id ≡ some id
      → notification_target_url note user.role db ≡ some page
      → page ≢ inbox_page
      → (kind ≡ "company" → user.company_id ≡ some id)
      → count
          (is_waiting user.id kind id)
          (mark_notifications_read_on_entity_view page user db).notifications
        ≡ 0
  viewed_target_reads note kind page k i t outside own =
      Leads-Read kind page (target-Leads id db user.role kind page (rw (i, k) at t)) outside own
