-- ===== src/Reviews/Invitation.antt =====
-- The invitation to review an order is sent once.
use les_traiteurs_engages_v.Base.{
  ==_refl, Bool, Bool-cases, List, Option, String, [], ap, arith, exists, false, if◌then◌else◌, inl,
  inr, none, refl, some, sym, true, ℕ, ◌++◌, ◌||◌, ◌∙◌, ◌∷◌, ◌≡◌,
}
use les_traiteurs_engages_v.Models.{Database, Order, is_paid}
use les_traiteurs_engages_v.Notifications.{note_for, notify}
use les_traiteurs_engages_v.Reviews.{
  caterer_name, invitation, invite, is_invitation, is_reviewed, notify_review_invite, requester,
}

pub exists-append :
    {A : Type 0} (t : A → Bool) (xs : List A) (a : A) → t a ≡ true → exists t (xs ++ a ∷ []) ≡ true
unfolding exists
exists-append t [] a h = ground arith
exists-append t (x ∷ xs) a h = ground (arith, exists-append t xs a h)

is_invitation_sent :
    (user order : ℕ) (name : String) (id : ℕ)
    → is_invitation user order (note_for (invitation order name) id user) ≡ true
is_invitation_sent user order name id = ground (arith, ==_refl user, ==_refl order)

abbrev invite_if : ℕ → ℕ → Order → Database → Bool → Database
invite_if user caterer order db b =
    if b then db else notify user (invitation order.id (caterer_name caterer db)) db

abbrev is_done : ℕ → Order → Database → Bool
is_done user order db =
    is_reviewed order.id db || exists (is_invitation user order.id) db.notifications

notify_done :
    (user caterer : ℕ) (order : Order) (db : Database)
    → is_done user order (notify user (invitation order.id (caterer_name caterer db)) db) ≡ true
unfolding notify
notify_done user caterer order db =
    ap (λ b. is_reviewed order.id db || b)
      (exists-append (is_invitation user order.id) db.notifications _
        (is_invitation_sent user order.id (caterer_name caterer db) (db.uuid4 db.drawn)))
    ∙ or_true (is_reviewed order.id db)
  where
    or_true : (b : Bool) → (b || true) ≡ true
    or_true b = ground arith

invite_twice :
    (order : Order) (found : Option (ℕ × ℕ)) (db : Database)
    → invite order found (invite order found db) ≡ invite order found db
invite_twice order none db = refl
invite_twice order (some (user, caterer)) db = elim (Bool-cases (is_done user order db)) [
  | inl h ↦
      let same = ap (invite_if user caterer order db) h in
      ap (invite order (some (user, caterer))) same ∙ same ∙ sym same
  | inr h ↦
      let sent = ap (invite_if user caterer order db) h in
      ap (invite order (some (user, caterer))) sent
      ∙ ap (invite_if user caterer order (invite_if user caterer order db false))
          (notify_done user caterer order db)
      ∙ sym sent
]

-- Inviting the requester to review an order a second time, as a redelivered event does, changes
-- nothing.
notify_review_invite_once :
    (order : Order) (db : Database)
    → notify_review_invite order (notify_review_invite order db) ≡ notify_review_invite order db
unfolding notify_review_invite notify
notify_review_invite_once order db =
    elim (is_paid order.status)
      as (λ b.
        (if b
          then invite order
              (requester order (if b then invite order (requester order db) db else db))
              (if b then invite order (requester order db) db else db)
          else (if b then invite order (requester order db) db else db))
        ≡ (if b then invite order (requester order db) db else db)) [
          | true ↦
              ap (λ f. invite order f (invite order (requester order db) db))
                (same_requester (requester order db))
              ∙ invite_twice order (requester order db) db
          | false ↦ refl
        ]
  where
    same_requester : (f : Option (ℕ × ℕ)) → requester order (invite order f db) ≡ requester order db
    same_requester none = refl
    same_requester (some (user, caterer)) =
        elim (is_done user order db)
          as (λ b. requester order (invite_if user caterer order db b) ≡ requester order db) [
            | true ↦ refl
            | false ↦ refl
          ]
