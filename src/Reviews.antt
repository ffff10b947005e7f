-- ===== src/Reviews.antt =====
-- services/reviews.py: who may review an order, the review itself, and the invitation to write one.
pub mod Averages
pub mod Once
pub mod Invitation
use text.Mathlib.Text.{◌==◌ as str_eq}
use les_traiteurs_engages_v.Base.{
  ◌>>◌, ◌>>=◌, Bool, Call, Option, Result, String, [], exists, false, fetch, find, gets,
  if◌then◌else◌, is_id, ltb, modify, none, not, ok, raise, raise_if, return, some, strip, text_or,
  text_or_none, true, ℕ, ◌&&◌, ◌+++◌, ◌++◌, ◌+◌, ◌==◌, ◌||◌, ◌∷◌,
}
use les_traiteurs_engages_v.Models.{
  CatererReview, Database, Notification, Order, Quote, User, is_paid, order_by, quote_by,
  request_by,
}
use les_traiteurs_engages_v.Notifications.{Notice, is_text, notify}

-- `ReviewError` and its subclasses.
pub data ReviewError : Type 0 where
  order_not_reviewable invalid_rating : ReviewError

abbrev Reviewing : Type 0 → Type 0
Reviewing = Call Database ReviewError

-- What `int(str(raw))` makes of a rating: no rating, a ValueError, or a number.
pub data RatingRaw : Type 0 where
  no_rating no_number : RatingRaw
  negative natural : ℕ → RatingRaw

-- `_coerce_rating`; `negative n` is below 1 for every n, and -0 reads as `natural 0`.
unfoldable pub coerce_rating : RatingRaw → Option ℕ
coerce_rating (natural n) = if ltb n 1 || ltb 5 n then none else some n
coerce_rating _ = none

abbrev pub is_reviewed : ℕ → Database → Bool
is_reviewed order_id db = exists (λ r. r.order_id == order_id) db.reviews

-- `_load_reviewable_order`.
unfoldable pub load_reviewable_order : ℕ → User → Reviewing Order
load_reviewable_order order_id viewer = do
  order ← fetch (order_by order_id) order_not_reviewable
  raise_if (not (is_paid order.status)) order_not_reviewable
  quote ← fetch (quote_by order.quote_id) order_not_reviewable
  qr ← fetch (request_by quote.quote_request_id) order_not_reviewable
  raise_if (not (is_id qr.user_id viewer.id)) order_not_reviewable
  reviewed ← gets (is_reviewed order_id)
  raise_if reviewed order_not_reviewable
  return order

-- `(comment_raw or "").strip() or None`.
abbrev clean_comment : Option String → Option String
clean_comment comment = text_or_none (some (strip (text_or comment "")))

abbrev review_of : Order → Quote → User → ℕ → Option String → ℕ → CatererReview
review_of order quote viewer rating comment id = record {
  id = id;
  caterer_id = quote.caterer_id;
  order_id = order.id;
  reviewer_user_id = viewer.id;
  rating = rating;
  comment = clean_comment comment;
}

abbrev add_review : CatererReview → Database → Database
add_review r db = record db { reviews = db.reviews ++ r ∷ []; drawn = db.drawn + 1 }

unfoldable pub submit_review : ℕ → User → RatingRaw → Option String → Reviewing CatererReview
submit_review order_id viewer raw comment = do
  rating ← fetch (λ db. coerce_rating raw) invalid_rating
  order ← load_reviewable_order order_id viewer
  quote ← fetch (quote_by order.quote_id) order_not_reviewable
  id ← gets (λ db. db.uuid4 db.drawn)
  modify (add_review (review_of order quote viewer rating comment id))
  return (review_of order quote viewer rating comment id)

abbrev pub is_ok : {E A : Type 0} → Result E A → Bool
is_ok (ok a) = true
is_ok (raise e) = false

-- `can_review`, on the order's identifier.
unfoldable pub can_review : ℕ → User → Database → Bool
can_review order_id viewer db = is_ok (load_reviewable_order order_id viewer db).0

-- The rows that the invitation depends on: who asked for the quote, and which caterer made it.
abbrev pub requester : Order → Database → Option (ℕ × ℕ)
requester order db = elim (quote_by order.quote_id db) [
  | none ↦ none
  | some q ↦ elim (request_by q.quote_request_id db) [
    | none ↦ none
    | some r ↦ elim r.user_id [ none ↦ none | some u ↦ some (u, q.caterer_id) ]
  ]
]

abbrev pub is_invitation : ℕ → ℕ → Notification → Bool
is_invitation user order n =
    n.user_id == user
    && str_eq n.type "review_invite"
    && is_text n.related_entity_type "order"
    && is_id n.related_entity_id order

abbrev pub caterer_name : ℕ → Database → String
caterer_name id db = elim (find (λ c. c.id == id) db.caterers) [
  | none ↦ "le traiteur"
  | some c ↦ c.name
]

abbrev pub invitation : ℕ → String → Notice
invitation order_id name = record {
  type = "review_invite";
  title = "Laissez votre avis";
  body =
      "Votre commande avec "
      +++ (name
          +++ " est désormais payée. Vous pouvez maintenant laisser un avis sur le traiteur.");
  related_entity_type = some "order";
  related_entity_id = some order_id;
}

-- `notify_review_invite`, past the lookup of the requester.
abbrev pub invite : Order → Option (ℕ × ℕ) → Database → Database
invite order none db = db
invite order (some (user, caterer)) db =
    if is_reviewed order.id db || exists (is_invitation user order.id) db.notifications
    then db
    else notify user (invitation order.id (caterer_name caterer db)) db

unfoldable pub notify_review_invite : Order → Database → Database
notify_review_invite order db =
    if is_paid order.status then invite order (requester order db) db else db
