-- ===== src/Webhook/Frame.antt =====
-- What the handler of an event keeps: the log of the events, and a settled payment.
use les_traiteurs_engages_v.Base.{
  Bool, Ensures, List, Option, [], arith, count, exists, false, fetch-Ensures, find, gets-Ensures,
  if◌then◌else◌, modify-Ensures, modify_last-Ensures, none, refl, return-Ensures, some, subst, sym,
  true, update_first, ℕ, ◌&&◌, ◌==◌, ◌||◌, ◌∙◌, ◌∷◌, ◌≡◌, ◌≤◌,
}
use les_traiteurs_engages_v.Models.{Database, Order, Payment, is_paid, order_by}
use les_traiteurs_engages_v.Notifications.{Notice, notify, notify_users}
use les_traiteurs_engages_v.Notifications.Frame.{
  OnlyNotifies, OnlyNotifies-SameRows, notify-OnlyNotifies, notify_users-OnlyNotifies,
}
use les_traiteurs_engages_v.Reviews.{
  caterer_name, invitation, invite, is_invitation, is_reviewed, notify_review_invite, requester,
}
use les_traiteurs_engages_v.Webhook.{
  Event, HandlerError, account_updated, close_order, dispatch, fail_payment, handle, invoice_paid,
  is_payment_of, is_terminal, payment_failed, succeed,
}

-- A payment by its identifier that is succeeded or refunded.
abbrev pub is_settled : ℕ → Payment → Bool
is_settled id p = p.id == id && is_terminal p.status

count-update_first_kept :
    {A : Type 0} (u t : A → Bool) (f : A → A) (xs : List A)
    → ((x : A) → u x ≡ true → u (f x) ≡ true)
    → count u xs ≤ count u (update_first t f xs)
unfolding count update_first
count-update_first_kept u t f [] h = omega arith
count-update_first_kept u t f (x ∷ xs) h = ground (arith, h x, count-update_first_kept u t f xs h)

-- The log is the same, and no payment that is settled stops being so.
pub record Keeps (before after : Database) : Type 0 where
  pub events : after.stripe_events ≡ before.stripe_events
  pub settled :
      (id : ℕ) → count (is_settled id) before.payments ≤ count (is_settled id) after.payments

pub Keeps-refl : (db : Database) → Keeps db db
Keeps-refl db = record { events = refl; settled = λ id. omega arith }

Keeps-trans : (a b c : Database) → Keeps a b → Keeps b c → Keeps a c
Keeps-trans a b c h k = record {
  events = k.events ∙ h.events;
  settled = λ id. omega (arith, h.settled id, k.settled id);
}

OnlyNotifies-Keeps : (a b c : Database) → Keeps a b → OnlyNotifies b c → Keeps a c
OnlyNotifies-Keeps a b c h n = record {
  events = (OnlyNotifies-SameRows b c n).stripe_events ∙ h.events;
  settled = λ id.
      subst (λ ps. count (is_settled id) a.payments ≤ count (is_settled id) ps)
        (sym (OnlyNotifies-SameRows b c n).payments) (h.settled id);
}

invite-OnlyNotifies :
    (order : Order) (found : Option (ℕ × ℕ)) (db : Database)
    → OnlyNotifies db (invite order found db)
invite-OnlyNotifies order none db = refl
invite-OnlyNotifies order (some (user, caterer)) db =
    elim (is_reviewed order.id db || exists (is_invitation user order.id) db.notifications)
      as (λ b.
        OnlyNotifies db
          (if b then db else notify user (invitation order.id (caterer_name caterer db)) db)) [
            | true ↦ refl
            | false ↦ notify-OnlyNotifies user (invitation order.id (caterer_name caterer db)) db
          ]

pub notify_review_invite-OnlyNotifies :
    (order : Order) (db : Database) → OnlyNotifies db (notify_review_invite order db)
unfolding notify_review_invite
notify_review_invite-OnlyNotifies order db =
    elim (is_paid order.status)
      as (λ b. OnlyNotifies db (if b then invite order (requester order db) db else db)) [
        | true ↦ invite-OnlyNotifies order (requester order db) db
        | false ↦ refl
      ]

tell-Keeps :
    (a b : Database) (us : List (Option ℕ)) (n : Notice) → Keeps a b → Keeps a (notify_users us n b)
tell-Keeps a b us n h =
    OnlyNotifies-Keeps a b (notify_users us n b) h (notify_users-OnlyNotifies us n b)

invite-Keeps : (a b : Database) (order : Order) → Keeps a b → Keeps a (notify_review_invite order b)
invite-Keeps a b order h =
    OnlyNotifies-Keeps a b (notify_review_invite order b) h
      (notify_review_invite-OnlyNotifies order b)

module _ (before : Database) where
  abbrev Bad : HandlerError → Database → Type 0
  Bad e s = Unit {0}

  abbrev Good : Unit {0} → Database → Type 0
  Good u s = Keeps before s

  close_order-Keeps :
      (order : Option Order) (db : Database)
      → Keeps before db
      → Ensures Bad Good (close_order order db)
  unfolding close_order
  close_order-Keeps none db h = return-Ensures Bad Good tt db h
  close_order-Keeps (some order) db h = modify-Ensures Bad Good _ _ _ (
      fetch-Ensures Bad Good _ _ _ _ (λ _. tt)
        λ quote q.
          fetch-Ensures Bad Good _ _ _ _ (λ _. tt)
            λ qr r. modify-Ensures Bad Good _ _ _ (
              modify-Ensures Bad Good _ _ _ (
                modify_last-Ensures Bad Good _ _ (
                  invite-Keeps before _ _ (
                    tell-Keeps before _ _ _ (
                      tell-Keeps before _ _ _
                        record { events = h.events; settled = h.settled }))))))

  invoice_paid-Keeps :
      (e : Event) (payment : Option Payment) (db : Database)
      → Keeps before db
      → Ensures Bad Good (invoice_paid e payment db)
  unfolding invoice_paid
  invoice_paid-Keeps e none db h = return-Ensures Bad Good tt db h
  invoice_paid-Keeps e (some payment) db h = modify-Ensures Bad Good _ _ _ (
      gets-Ensures Bad Good _ _ _ (
        close_order-Keeps (order_by payment.order_id db) _ record {
          events = h.events;
          settled = λ id. omega (
            arith,
            h.settled id,
            count-update_first_kept (is_settled id) (is_payment_of e) (succeed e) db.payments
                (λ p k. ground (arith, k)),
          );
        }))

  failed : (e : Event) (db : Database) → Keeps before db → Keeps before (payment_failed e db)
  unfolding payment_failed
  failed e db h = record {
    events = h.events;
    settled = λ id. omega (
      arith,
      h.settled id,
      count-update_first_kept (is_settled id) (is_payment_of e) fail_payment db.payments
          (λ p k. ground (arith, k)),
    );
  }

  dispatch-Keeps :
      (paid failing account : Bool) (e : Event) (db : Database)
      → Keeps before db
      → Ensures Bad Good (dispatch paid failing account e db)
  unfolding account_updated
  dispatch-Keeps true _ _ e db h =
      gets-Ensures Bad Good (λ db. find (is_payment_of e) db.payments) (invoice_paid e) db
        (invoice_paid-Keeps e (find (is_payment_of e) db.payments) db h)
  dispatch-Keeps false true _ e db h =
      modify_last-Ensures Bad Good (payment_failed e) db (failed e db h)
  dispatch-Keeps false false true e db h =
      modify_last-Ensures Bad Good (account_updated e) db
        record { events = h.events; settled = h.settled }
  dispatch-Keeps false false false e db h = return-Ensures Bad Good tt db h

  pub handle-Keeps : (e : Event) (db : Database) → Keeps before db → Ensures Bad Good (handle e db)
  unfolding handle
  handle-Keeps e db h = dispatch-Keeps _ _ _ e db h
