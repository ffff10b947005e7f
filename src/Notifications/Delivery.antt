-- ===== src/Notifications/Delivery.antt =====
-- What `notify_users` delivers.
use les_traiteurs_engages_v.Base.{
  ℕ, suc, ◌+◌, ◌≡◌, refl, Bool, true, false, Option, none, some, List, [], ◌∷◌, ◌++◌, arith, count,
  exists, All, count-append, ◌==◌, is_id, if◌then◌else◌,
}
use les_traiteurs_engages_v.Models.{Database, Notification}
use les_traiteurs_engages_v.Notifications.{Notice, note_for, notes_from, notes_of, notify_users}

-- Whether `u` is among the addressees.
abbrev pub is_addressee : ℕ → List (Option ℕ) → Bool
is_addressee u = exists (λ a. is_id a u)

module _ (uuid4 : ℕ → ℕ) (n : Notice) where
  count-notes_from :
      (k u : ℕ) (seen : List ℕ) (us : List (Option ℕ))
      → count (λ m. m.user_id == u) (notes_from uuid4 k seen us n)
        ≡ (if exists (λ s. s == u) seen then 0 else if is_addressee u us then 1 else 0)
  unfolding count notes_from exists
  count-notes_from k u seen [] = ground arith
  count-notes_from k u seen (none ∷ us) = ground (arith, count-notes_from k u seen us)
  count-notes_from k u seen (some v ∷ us) =
      ground (arith, count-notes_from k u seen us, count-notes_from (suc k) u (v ∷ seen) us)

-- A row that brings the notice, not read yet.
abbrev pub Brings : Notice → Notification → Type 0
Brings n m =
    (m.type ≡ n.type)
    × (m.title ≡ n.title)
    × (m.body ≡ n.body)
    × (m.is_read ≡ false)
    × (m.related_entity_type ≡ n.related_entity_type)
    × (m.related_entity_id ≡ n.related_entity_id)

notes_from-Brings :
    (uuid4 : ℕ → ℕ) (k : ℕ) (seen : List ℕ) (us : List (Option ℕ)) (n : Notice)
    → All (Brings n) (notes_from uuid4 k seen us n)
unfolding notes_from
notes_from-Brings uuid4 k seen [] n = tt
notes_from-Brings uuid4 k seen (none ∷ us) n = notes_from-Brings uuid4 k seen us n
notes_from-Brings uuid4 k seen (some v ∷ us) n =
    elim (exists (λ s. s == v) seen)
      as (λ b. All (Brings n) (elim b [
        | true ↦ notes_from uuid4 k seen us n
        | false ↦ note_for n (uuid4 k) v ∷ notes_from uuid4 (suc k) (v ∷ seen) us n
      ])) [
        | true ↦ notes_from-Brings uuid4 k seen us n
        | false ↦
            ((refl, refl, refl, refl, refl, refl), notes_from-Brings uuid4 (suc k) (v ∷ seen) us n)
      ]

-- `notify_users` appends rows that all bring the notice unread, and every user gets exactly one
-- more notification if addressed, however often, and none otherwise.
pub notify_users_once :
    (us : List (Option ℕ)) (n : Notice) (db : Database)
    → (new : List Notification) × ((notify_users us n db).notifications ≡ db.notifications ++ new)
      × All (Brings n) new
      × ((u : ℕ)
          → count (λ m. m.user_id == u) (notify_users us n db).notifications
            ≡ count (λ m. m.user_id == u) db.notifications + (if is_addressee u us then 1 else 0))
unfolding notify_users notes_from exists
notify_users_once us n db = (
  notes_of us n db,
  refl,
  notes_from-Brings db.uuid4 db.drawn [] us n,
  λ u. omega (
    arith,
    count-append (λ m. m.user_id == u) db.notifications (notes_of us n db),
    count-notes_from db.uuid4 n db.drawn u [] us,
  ),
)
