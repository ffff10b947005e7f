-- ===== src/Webhook/Paid.antt =====
-- What a payment that Stripe reports leaves.
use text.Mathlib.Text.{◌==◌ as str_eq}
use les_traiteurs_engages_v.Base.{
  ==_iff, Bool, Ensures, List, Option, Result, String, ap, false, fetch-some, find, find-holds,
  find-update_first, gets-Ensures, if◌then◌else◌, is_empty, modify-Ensures, modify_last-Ensures, ok,
  raise, refl, some, subst, sym, true, update_first, ℕ, ◌==◌, ◌∙◌, ◌≡◌,
}
use les_traiteurs_engages_v.Models.{
  Database, Order, Payment, Quote, QuoteRequest, order_by, quote_by, request_by,
}
use les_traiteurs_engages_v.Notifications.{Notice, notify_users}
use les_traiteurs_engages_v.Notifications.Frame.{OnlyNotifies-SameRows}
use les_traiteurs_engages_v.Reviews.{notify_review_invite}
use les_traiteurs_engages_v.Webhook.{
  Event, HandlerError, WebhookReply, close_order, dispatch, duplicate, handle, handled,
  invoice_paid, is_payment_of, is_seen, not_configured, pay, process, record_event, reply_of,
  stripe_webhook, succeed,
}
use les_traiteurs_engages_v.Webhook.Frame.{notify_review_invite-OnlyNotifies}

-- The payment that the event names, the order it pays, and the quote and the request behind it.
pub record Pays (e : Event) (db : Database) : Type 0 where
  pub payment : Payment
  pub order : Order
  pub quote : Quote
  pub request : QuoteRequest
  pub payment_found : find (is_payment_of e) db.payments ≡ some payment
  pub order_found : order_by payment.order_id db ≡ some order
  pub quote_found : quote_by order.quote_id db ≡ some quote
  pub request_found : request_by quote.quote_request_id db ≡ some request

record Closed (e : Event) (db : Database) (pays : Pays e db) (after : Database) : Type 0 where
  pub succeeded : find (is_payment_of e) after.payments ≡ some (succeed e pays.payment)
  pub paid : order_by pays.payment.order_id after ≡ some (pay pays.order)
  pub quotes_kept : after.quotes ≡ db.quotes
  pub requests_kept : after.requests ≡ db.requests
  pub reviews_kept : after.reviews ≡ db.reviews

same_key :
    (db : Database) (id : ℕ) (order : Order)
    → order_by id db ≡ some order
    → find (λ o. o.id == id) (update_first (λ o. o.id == order.id) pay db.orders) ≡ some (pay order)
same_key db id order h =
    let same = (==_iff order.id id).0 (find-holds (λ o. o.id == id) db.orders order h) in
    subst
      (λ i.
        find (λ o. o.id == i) (update_first (λ o. o.id == order.id) pay db.orders)
        ≡ some (pay order))
      same
      (find-update_first (λ o. o.id == order.id) pay db.orders order (λ o k. k)
        (subst (λ i. find (λ o. o.id == i) db.orders ≡ some order) (sym same) h))

module _ (e : Event) (db : Database) (pays : Pays e db) where
  abbrev Bad : HandlerError → Database → Type 0
  Bad x s = ⊥

  abbrev Good : Unit {0} → Database → Type 0
  Good u s = Closed e db pays s

  told :
      (us : List (Option ℕ)) (n : Notice) (s : Database)
      → Closed e db pays s
      → Closed e db pays (notify_users us n s)
  unfolding notify_users
  told us n s c = record {
    succeeded = c.succeeded;
    paid = c.paid;
    quotes_kept = c.quotes_kept;
    requests_kept = c.requests_kept;
    reviews_kept = c.reviews_kept;
  }

  invited :
      (order : Order) (s : Database)
      → Closed e db pays s
      → Closed e db pays (notify_review_invite order s)
  invited order s c =
      let rows =
        OnlyNotifies-SameRows s (notify_review_invite order s)
          (notify_review_invite-OnlyNotifies order s) in
      record {
        succeeded = ap (find (is_payment_of e)) rows.payments ∙ c.succeeded;
        paid = ap (find (λ o. o.id == pays.payment.order_id)) rows.orders ∙ c.paid;
        quotes_kept = rows.quotes ∙ c.quotes_kept;
        requests_kept = rows.requests ∙ c.requests_kept;
        reviews_kept = rows.reviews ∙ c.reviews_kept;
      }

  quote_there :
      (s : Database) → s.quotes ≡ db.quotes → quote_by pays.order.quote_id s ≡ some pays.quote
  quote_there s h = ap (find (λ q. q.id == pays.order.quote_id)) h ∙ pays.quote_found

  request_there :
      (s : Database)
      → s.requests ≡ db.requests
      → request_by pays.quote.quote_request_id s ≡ some pays.request
  request_there s h = ap (find (λ r. r.id == pays.quote.quote_request_id)) h ∙ pays.request_found

  close_order-Closed :
      (s : Database)
      → Closed e db pays
          (record s { orders = update_first (λ o. o.id == pays.order.id) pay s.orders })
      → Ensures Bad Good (close_order (some pays.order) s)
  unfolding close_order
  close_order-Closed s c = modify-Ensures Bad Good _ _ _ (
      subst (Ensures Bad Good) (sym (fetch-some _ _ _ paid _ (quote_there paid c.quotes_kept))) (
        subst (Ensures Bad Good)
          (sym (fetch-some _ _ _ paid _ (request_there paid c.requests_kept)))
          (modify-Ensures Bad Good _ _ _ (
            modify-Ensures Bad Good _ _ _
              (modify_last-Ensures Bad Good _ _ (invited _ _ (told _ _ _ (told _ _ _ c))))))))
    where
      paid : Database
      paid = record s { orders = update_first (λ o. o.id == pays.order.id) pay s.orders }

  invoice_paid-Closed : Ensures Bad Good (invoice_paid e (some pays.payment) db)
  unfolding invoice_paid
  invoice_paid-Closed = modify-Ensures Bad Good _ _ _ (
      gets-Ensures Bad Good _ _ _ (
        subst (λ found. Ensures Bad Good (close_order found after)) (sym pays.order_found)
          (close_order-Closed after record {
            succeeded =
                find-update_first (is_payment_of e) (succeed e) db.payments pays.payment (λ p k. k)
                  pays.payment_found;
            paid = same_key db pays.payment.order_id pays.order pays.order_found;
            quotes_kept = refl;
            requests_kept = refl;
            reviews_kept = refl;
          })))
    where
      after : Database
      after = record db { payments = update_first (is_payment_of e) (succeed e) db.payments }

  dispatch_paid : (f a : Bool) → Ensures Bad Good (dispatch true f a e db)
  dispatch_paid f a =
      gets-Ensures Bad Good (λ db. find (is_payment_of e) db.payments) (invoice_paid e) db
        (subst (λ found. Ensures Bad Good (invoice_paid e found db)) (sym pays.payment_found)
          invoice_paid-Closed)

abbrev Replies : (Database → Type 0) → WebhookReply × Database → Type 0
Replies P r = (r.0 ≡ handled) × P r.1

handled_with :
    (P : Database → Type 0) (db : Database) (r : Result HandlerError (Unit {0}) × Database)
    → Ensures (λ x s. ⊥) (λ u s. P s) r
    → Replies P (reply_of db r)
handled_with P db (ok u, s) h = (refl, h)
handled_with P db (raise x, s) h = absurd h

-- When Stripe reports an invoice as paid for the first time, and the payment that the event names,
-- its order, quote and request exist, the webhook answers that the event is handled, and leaves the
-- payment succeeded with Stripe's charge and the order paid; quotes, requests and reviews are as
-- before.
pub stripe_webhook_paid :
    (secret : String) (e : Event) (db : Database) (pays : Pays e db)
    → is_empty secret ≡ false
    → str_eq e.event_type "invoice.paid" ≡ true
    → is_seen e db ≡ false
    → let r = stripe_webhook secret (some e) db in
      (r.0 ≡ handled)
      × (find (is_payment_of e) r.1.payments ≡ some (succeed e pays.payment))
      × (order_by pays.payment.order_id r.1 ≡ some (pay pays.order))
      × (r.1.quotes ≡ db.quotes)
      × (r.1.requests ≡ db.requests)
      × (r.1.reviews ≡ db.reviews)
unfolding stripe_webhook process handle
stripe_webhook_paid secret e db pays s t n =
    let r = answer in
    (r.0, r.1.succeeded, r.1.paid, r.1.quotes_kept, r.1.requests_kept, r.1.reviews_kept)
  where
    db' : Database
    db' = record_event e db

    pays' : Pays e db'
    pays' = record {
      payment = pays.payment;
      order = pays.order;
      quote = pays.quote;
      request = pays.request;
      payment_found = pays.payment_found;
      order_found = pays.order_found;
      quote_found = pays.quote_found;
      request_found = pays.request_found;
    }

    answer : Replies (Closed e db' pays') (stripe_webhook secret (some e) db)
    answer =
        subst (λ b. Replies (Closed e db' pays') (if b then (not_configured, db) else process e db))
          (sym s)
          (subst
            (λ b.
              Replies (Closed e db' pays')
                (if b then (duplicate, db) else reply_of db (handle e db')))
            (sym n)
            (subst
              (λ b. Replies (Closed e db' pays') (
                reply_of db (
                  dispatch b (str_eq e.event_type "invoice.payment_failed")
                    (str_eq e.event_type "account.updated") e db')))
              (sym t)
              (handled_with (Closed e db' pays') db
                (dispatch true (str_eq e.event_type "invoice.payment_failed")
                  (str_eq e.event_type "account.updated") e db')
                (dispatch_paid e db' pays' (str_eq e.event_type "invoice.payment_failed")
                  (str_eq e.event_type "account.updated")))))
