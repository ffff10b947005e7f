-- ===== src/Examples/Aftermath.antt =====
-- Notifications, reviews and Stripe's events on the shop.
use les_traiteurs_engages_v.Base.{
  All, Ensures, List, Option, [], arith, count, exists, false, fetch, find, gets, if◌then◌else◌,
  modify, none, raise_if, refl, return, some, true, upsert, ℕ, ◌++◌, ◌+◌, ◌==◌, ◌>>=◌, ◌>>◌, ◌∷◌,
  ◌≡◌, ◌≤◌, ◌⊎◌,
}
use les_traiteurs_engages_v.Examples.Samples.{
  buyer, closed_request, open_payment, order_at, ordered_quote, shop,
}
use les_traiteurs_engages_v.Models.{
  CatererReview, Database, Notification, Order, OrderStatus, User, order_by,
}
use les_traiteurs_engages_v.Notifications.{Notice, note_for, notify_users}
use les_traiteurs_engages_v.Notifications.Delivery.{Brings, is_addressee, notify_users_once}
use les_traiteurs_engages_v.Notifications.Pages.{
  Area, entity_target, mark_notifications_read_on_entity_view, order_page,
}
use les_traiteurs_engages_v.Notifications.Pages.Swept.{is_waiting, viewed_target_reads}
use les_traiteurs_engages_v.Pricing.Rounding.{round_half_even}
use les_traiteurs_engages_v.Reviews.{
  can_review, coerce_rating, is_ok, load_reviewable_order, natural, submit_review,
}
use les_traiteurs_engages_v.Reviews.Averages.{
  aggregate_at, aggregate_for_caterer, aggregates_for_caterers, tally,
}
use les_traiteurs_engages_v.Reviews.Averages.Consistent.{
  IsMean, aggregates_for_caterers-IsMean, count_reviews, sum_ratings,
}
use les_traiteurs_engages_v.Reviews.Once.{Reviewable, submit_review_once}
use les_traiteurs_engages_v.Webhook.{
  Event, WebhookReply, absent, deliveries, duplicate, handled, internal_error, is_payment_of, pay,
  stripe_webhook, succeed,
}
use les_traiteurs_engages_v.Webhook.Frame.{is_settled}
use les_traiteurs_engages_v.Webhook.Once.{stripe_webhook_once}
use les_traiteurs_engages_v.Webhook.Paid.{Pays, stripe_webhook_paid}
use les_traiteurs_engages_v.Webhook.Settled.{deliveries_settled}

abbrev greeting : Notice
greeting = record {
  type = "order_paid";
  title = "Bonjour";
  body = "";
  related_entity_type = some "order";
  related_entity_id = some 34;
}

-- The buyer, addressed twice, and somebody missing.
abbrev addressees : List (Option ℕ)
addressees = some 100 ∷ none ∷ some 100 ∷ []

abbrev told_shop : Database
told_shop = notify_users addressees greeting shop

notify_users_once_example :
    (new : List Notification) × (told_shop.notifications ≡ shop.notifications ++ new)
    × All (Brings greeting) new
    × ((u : ℕ)
        → count (λ m. m.user_id == u) told_shop.notifications
          ≡ count (λ m. m.user_id == u) shop.notifications
            + (if is_addressee u addressees then 1 else 0))
notify_users_once_example = notify_users_once addressees greeting shop

review_is_taken : is_ok (submit_review 34 buyer (natural 5) (some " Parfait ") shop).0 ≡ true
unfolding submit_review load_reviewable_order coerce_rating fetch find raise_if gets modify return
    exists ◌>>=◌ ◌>>◌
review_is_taken = refl

submit_review_once_example :
    Ensures
      (λ e s. s ≡ shop)
      (λ review s.
        ((order : Order) × Reviewable 34 buyer shop order)
        × (s.reviews ≡ shop.reviews ++ review ∷ [])
        × (review.order_id ≡ 34)
        × (review.reviewer_user_id ≡ buyer.id)
        × (1 ≤ review.rating)
        × (review.rating ≤ 5)
        × ((anyone : User) → can_review 34 anyone s ≡ false))
      (submit_review 34 buyer (natural 5) (some " Parfait ") shop)
submit_review_once_example = submit_review_once 34 buyer (natural 5) (some " Parfait ") shop

abbrev paid_order : Order
paid_order = order_at 34 26 OrderStatus.paid

abbrev paid_event : Event
paid_event = record {
  id = "evt_1";
  event_type = "invoice.paid";
  object_id = some "in_1";
  charge = some "ch_1";
  charges_enabled = absent;
  payouts_enabled = absent;
}

abbrev paid_reply : WebhookReply × Database
paid_reply = stripe_webhook "whsec" (some paid_event) shop

stripe_webhook_once_example :
    (paid_reply ≡ (internal_error, shop))
    ⊎ (stripe_webhook "whsec" (some paid_event) paid_reply.1 ≡ (duplicate, paid_reply.1))
stripe_webhook_once_example = stripe_webhook_once "whsec" paid_event shop refl

invoiced_rows : Pays paid_event shop
unfolding find
invoiced_rows = record {
  payment = open_payment;
  order = order_at 33 25 OrderStatus.invoiced;
  quote = ordered_quote 25;
  request = closed_request;
  payment_found = refl;
  order_found = refl;
  quote_found = refl;
  request_found = refl;
}

stripe_webhook_paid_example :
    (paid_reply.0 ≡ handled)
    × (find (is_payment_of paid_event) paid_reply.1.payments
        ≡ some (succeed paid_event invoiced_rows.payment))
    × (order_by invoiced_rows.payment.order_id paid_reply.1 ≡ some (pay invoiced_rows.order))
    × (paid_reply.1.quotes ≡ shop.quotes)
    × (paid_reply.1.requests ≡ shop.requests)
    × (paid_reply.1.reviews ≡ shop.reviews)
unfolding exists
stripe_webhook_paid_example =
    stripe_webhook_paid "whsec" paid_event shop invoiced_rows refl refl refl

abbrev late_failure : Event
late_failure = record paid_event { id = "evt_2"; event_type = "invoice.payment_failed" }

abbrev mail : List (Option Event)
mail = some paid_event ∷ none ∷ some late_failure ∷ []

deliveries_settled_example :
    count (is_settled 41) shop.payments
    ≤ count (is_settled 41) (deliveries "whsec" mail shop).payments
deliveries_settled_example = deliveries_settled "whsec" mail 41 shop

abbrev paid_note : Notification
paid_note = note_for greeting 5 100

viewed_target_reads_example :
    count
      (is_waiting 100 "order" 34)
      (mark_notifications_read_on_entity_view
        (order_page Area.client 34)
        buyer
        told_shop).notifications
    ≡ 0
unfolding entity_target
viewed_target_reads_example =
    viewed_target_reads 34 buyer told_shop paid_note "order" (order_page Area.client 34) refl refl
      refl (λ e. cc e) (λ e. cc e)

abbrev rated_at : ℕ → ℕ → CatererReview
rated_at id rating = record {
  id = id;
  caterer_id = 60;
  order_id = id;
  reviewer_user_id = 100;
  rating = rating;
  comment = none;
}

abbrev rated_shop : Database
rated_shop = record shop { reviews = rated_at 1 5 ∷ rated_at 2 4 ∷ rated_at 3 4 ∷ [] }

-- 13 / 3 is shown as 4.3.
mean_of_three : (aggregate_for_caterer 60 rated_shop).avg ≡ some 43
unfolding aggregate_at aggregates_for_caterers tally exists upsert round_half_even
mean_of_three = refl

aggregates_for_caterers-IsMean_example :
    let shown = aggregate_at 60 (aggregates_for_caterers (61 ∷ 60 ∷ []) rated_shop) in
    (shown ≡ aggregate_for_caterer 60 rated_shop)
    × (shown.count ≡ count_reviews 60 rated_shop.reviews)
    × IsMean (sum_ratings 60 rated_shop.reviews) (count_reviews 60 rated_shop.reviews) shown.avg
unfolding exists
aggregates_for_caterers-IsMean_example =
    aggregates_for_caterers-IsMean (61 ∷ 60 ∷ []) 60 rated_shop refl
      ((omega arith, omega arith), ((omega arith, omega arith), ((omega arith, omega arith), tt)))
