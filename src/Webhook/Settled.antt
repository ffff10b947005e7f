-- ===== src/Webhook/Settled.antt =====
-- A payment that is settled stays settled, in whatever order events arrive.
use les_traiteurs_engages_v.Base.{
  Ensures, List, Option, Result, String, [], arith, count, false, if◌then◌else◌, none, ok, raise,
  some, true, ℕ, ◌∷◌, ◌≤◌,
}
use les_traiteurs_engages_v.Models.{Database}
use les_traiteurs_engages_v.Webhook.{
  Event, HandlerError, deliveries, duplicate, handle, is_seen, process, record_event, reply_of,
  stripe_webhook,
}
use les_traiteurs_engages_v.Webhook.Frame.{Keeps, Keeps-refl, handle-Keeps, is_settled}

process_settled :
    (id : ℕ) (e : Event) (db : Database)
    → count (is_settled id) db.payments ≤ count (is_settled id) (process e db).1.payments
unfolding process
process_settled id e db =
    elim (is_seen e db)
      as (λ b.
        count (is_settled id) db.payments
        ≤ count (is_settled id)
            (if b
              then (duplicate, db)
              else reply_of db (handle e (record_event e db))).1.payments) [
                | true ↦ omega arith
                | false ↦
                    replied (handle e (record_event e db)) (handle-Keeps db' e db' (Keeps-refl db'))
              ]
  where
    db' : Database
    db' = record_event e db

    replied :
        (r : Result HandlerError (Unit {0}) × Database)
        → Ensures (λ e s. Unit {0}) (λ u s. Keeps (record_event e db) s) r
        → count (is_settled id) db.payments ≤ count (is_settled id) (reply_of db r).1.payments
    replied (ok u, after) k = k.settled id
    replied (raise x, after) k = omega arith

stripe_webhook_settled :
    (id : ℕ) (secret : String) (event : Option Event) (db : Database)
    → count (is_settled id) db.payments
      ≤ count (is_settled id) (stripe_webhook secret event db).1.payments
unfolding stripe_webhook
stripe_webhook_settled id secret none db = ground arith
stripe_webhook_settled id secret (some e) db = ground (arith, process_settled id e db)

-- Whatever requests the webhook gets, forged, stale or repeated, a payment that is succeeded or
-- refunded never leaves these two states: of the payments with an identifier at least as many are
-- in them after as before.
pub deliveries_settled :
    (secret : String) (events : List (Option Event)) (id : ℕ) (db : Database)
    → count (is_settled id) db.payments
      ≤ count (is_settled id) (deliveries secret events db).payments
unfolding deliveries
deliveries_settled secret [] id db = omega arith
deliveries_settled secret (e ∷ es) id db = omega (
  arith,
  stripe_webhook_settled id secret e db,
  deliveries_settled secret es id (stripe_webhook secret e db).1,
)
