-- ===== src/Reviews/Once.antt =====
-- An order is reviewed once, by the person who asked for the quote.
use les_traiteurs_engages_v.Base.{
  ==_iff, Ensures, Ensures-map, Option, Result, String, [], ap, arith, bind-Ensures, false,
  fetch-Ensures, find-holds, gets-Ensures, is_id, modify-Ensures, ok, raise, raise_if-Ensures, refl,
  return-Ensures, some, sym, true, ℕ, ◌++◌, ◌==◌, ◌∙◌, ◌∷◌, ◌≡◌, ◌≢◌, ◌≤◌,
}
use les_traiteurs_engages_v.Models.{
  CatererReview, Database, Order, Quote, QuoteRequest, User, is_paid, quote_by, request_by,
}
use les_traiteurs_engages_v.Reviews.{
  RatingRaw, ReviewError, can_review, coerce_rating, is_ok, is_reviewed, load_reviewable_order,
  natural, negative, no_number, no_rating, requester, review_of, submit_review,
}
use les_traiteurs_engages_v.Reviews.Invitation.{exists-append}

-- What the gate has checked when it lets an order through.
abbrev pub Reviewable : ℕ → User → Database → Order → Type 0
Reviewable order_id viewer db order =
    (order.id ≡ order_id)
    × (is_paid order.status ≡ true)
    × (is_reviewed order_id db ≡ false)
    × ((caterer : ℕ) × (requester order db ≡ some (viewer.id, caterer)))

requester_found :
    (order : Order) (quote : Quote) (qr : QuoteRequest) (viewer : User) (db : Database)
    → quote_by order.quote_id db ≡ some quote
    → request_by quote.quote_request_id db ≡ some qr
    → is_id qr.user_id viewer.id ≡ true
    → requester order db ≡ some (viewer.id, quote.caterer_id)
requester_found order quote qr viewer db q r h = ground (arith, q, r, h)

load_reviewable_order-Ensures :
    (order_id : ℕ) (viewer : User) (db : Database)
    → Ensures
        (λ e s. s ≡ db)
        (λ order s. (s ≡ db) × Reviewable order_id viewer db order)
        (load_reviewable_order order_id viewer db)
unfolding load_reviewable_order
load_reviewable_order-Ensures order_id viewer db =
    fetch-Ensures Bad Good _ _ _ _ (λ _. refl)
      λ order o.
        raise_if-Ensures Bad Good _ _ _ _ (λ _. refl)
          λ paid.
            fetch-Ensures Bad Good _ _ _ _ (λ _. refl)
              λ quote q.
                fetch-Ensures Bad Good _ _ _ _ (λ _. refl)
                  λ qr r.
                    raise_if-Ensures Bad Good _ _ _ _ (λ _. refl)
                      λ own. gets-Ensures Bad Good _ _ _ (
                        raise_if-Ensures Bad Good _ _ _ _ (λ _. refl)
                          λ fresh. return-Ensures Bad Good order db (
                            refl,
                            (
                              ((==_iff order.id order_id).0
                                  (find-holds (λ o. o.id == order_id) db.orders order o)),
                              ground (arith, paid),
                              fresh,
                              (
                                quote.caterer_id,
                                requester_found order quote qr viewer db q r (ground (arith, own)),
                              ),
                            ),
                          ))
  where
    Bad : ReviewError → Database → Type 0
    Bad e s = s ≡ db

    Good : Order → Database → Type 0
    Good order s = (s ≡ db) × Reviewable order_id viewer db order

-- The form is offered to no one once the order has its review.
Ensures-raises :
    {S E A : Type 0} (r : Result E A × S)
    → Ensures (λ e s. Unit {0}) (λ a s. ⊥) r
    → is_ok r.0 ≡ false
Ensures-raises (ok a, s) h = absurd h
Ensures-raises (raise e, s) h = refl

reviewed-can_review :
    (order_id : ℕ) (viewer : User) (db : Database)
    → is_reviewed order_id db ≡ true
    → can_review order_id viewer db ≡ false
unfolding can_review
reviewed-can_review order_id viewer db h =
    Ensures-raises (load_reviewable_order order_id viewer db) (
      Ensures-map (load_reviewable_order order_id viewer db) (λ e s _. tt)
        (λ order s g. true-ne-false (sym h ∙ g.1.2))
        (load_reviewable_order-Ensures order_id viewer db))
  where
    true-ne-false : true ≢ false
    true-ne-false e = ground (arith, e)

coerce_rating_bounds : (raw : RatingRaw) (n : ℕ) → coerce_rating raw ≡ some n → (1 ≤ n) × (n ≤ 5)
unfolding coerce_rating
coerce_rating_bounds no_rating n h = ground (arith, h)
coerce_rating_bounds no_number n h = ground (arith, h)
coerce_rating_bounds (negative k) n h = ground (arith, h)
coerce_rating_bounds (natural k) n h = ground (arith, h)

-- A review that is refused writes nothing. One that is taken is of an order that is paid, was not
-- reviewed before, and was asked for by the viewer; it is the one row added, with a rating from 1 to
-- 5; and from then on nobody can review the order.
pub submit_review_once :
    (order_id : ℕ) (viewer : User) (raw : RatingRaw) (comment : Option String) (db : Database)
    → Ensures
        (λ e s. s ≡ db)
        (λ review s.
          ((order : Order) × Reviewable order_id viewer db order)
          × (s.reviews ≡ db.reviews ++ review ∷ [])
          × (review.order_id ≡ order_id)
          × (review.reviewer_user_id ≡ viewer.id)
          × (1 ≤ review.rating)
          × (review.rating ≤ 5)
          × ((anyone : User) → can_review order_id anyone s ≡ false))
        (submit_review order_id viewer raw comment db)
unfolding submit_review
submit_review_once order_id viewer raw comment db =
    fetch-Ensures Bad Good _ _ _ _ (λ _. refl)
      λ rating ok_rating.
        bind-Ensures Bad (λ order s. (s ≡ db) × Reviewable order_id viewer db order) Good _ _ _
          (load_reviewable_order-Ensures order_id viewer db)
          λ order s g.
            fetch-Ensures Bad Good _ _ _ _ (λ _. g.0)
              λ quote q. gets-Ensures Bad Good _ _ _ (
                modify-Ensures Bad Good _ _ _ (
                  return-Ensures Bad Good _ _ (
                    (order, g.1),
                    ap
                        (λ d.
                          d.reviews
                          ++ review_of order quote viewer rating comment (s.uuid4 s.drawn) ∷ [])
                        g.0,
                    g.1.0,
                    refl,
                    (coerce_rating_bounds raw rating ok_rating).0,
                    (coerce_rating_bounds raw rating ok_rating).1,
                    λ anyone. reviewed-can_review order_id anyone _ (
                        exists-append (λ r. r.order_id == order_id) s.reviews _
                          ((==_iff _ _).1 g.1.0)),
                  )))
  where
    Bad : ReviewError → Database → Type 0
    Bad e s = s ≡ db

    Good : CatererReview → Database → Type 0
    Good review s =
        ((order : Order) × Reviewable order_id viewer db order)
        × (s.reviews ≡ db.reviews ++ review ∷ [])
        × (review.order_id ≡ order_id)
        × (review.reviewer_user_id ≡ viewer.id)
        × (1 ≤ review.rating)
        × (review.rating ≤ 5)
        × ((anyone : User) → can_review order_id anyone s ≡ false)
