-- ===== src/Webhook/Once.antt =====
-- An event that Stripe delivers again.
use text.Mathlib.Text.{◌==◌ as str_eq}
use les_traiteurs_engages_v.Base.{
  Bool, Bool-cases, Ensures, Result, String, ap, exists, false, if◌then◌else◌, inl, inr, is_empty,
  ok, raise, refl, some, str_eq_refl, subst, sym, true, ◌∙◌, ◌≡◌, ◌⊎◌,
}
use les_traiteurs_engages_v.Models.{Database}
use les_traiteurs_engages_v.Reviews.Invitation.{exists-append}
use les_traiteurs_engages_v.Webhook.{
  Event, HandlerError, WebhookReply, duplicate, handle, internal_error, is_seen, not_configured,
  process, record_event, reply_of, stripe_webhook,
}
use les_traiteurs_engages_v.Webhook.Frame.{Keeps, Keeps-refl, handle-Keeps}

recorded : (e : Event) (db : Database) → is_seen e (record_event e db) ≡ true
recorded e db =
    exists-append (λ s. str_eq s.id e.id) db.stripe_events
      record { id = e.id; event_type = e.event_type } (str_eq_refl e.id)

process_again : (e : Event) (db : Database) → is_seen e db ≡ true → process e db ≡ (duplicate, db)
unfolding process
process_again e db h =
    ap (λ b. if b then (duplicate, db) else reply_of db (handle e (record_event e db))) h

-- What the state after a delivery is: the same after a failure, and else one that knows the event.
abbrev Settles : Event → Database → WebhookReply × Database → Type 0
Settles e db r = (r ≡ (internal_error, db)) ⊎ (is_seen e r.1 ≡ true)

process-Settles : (e : Event) (db : Database) → Settles e db (process e db)
unfolding process
process-Settles e db = elim (Bool-cases (is_seen e db)) [
  | inl h ↦ inr (
      ap
        (λ b.
          is_seen e (if b then (duplicate, db) else reply_of db (handle e (record_event e db))).1)
        h
      ∙ h)
  | inr h ↦
      subst
        (λ b.
          Settles e db (if b then (duplicate, db) else reply_of db (handle e (record_event e db))))
        (sym h)
        (replied (handle e (record_event e db))
          (handle-Keeps (record_event e db) e (record_event e db) (Keeps-refl (record_event e db))))
]
  where
    replied :
        (r : Result HandlerError (Unit {0}) × Database)
        → Ensures (λ e s. Unit {0}) (λ u s. Keeps (record_event e db) s) r
        → Settles e db (reply_of db r)
    replied (ok u, after) k =
        inr (ap (λ es. exists (λ s. str_eq s.id e.id) es) k.events ∙ recorded e db)
    replied (raise x, after) k = inl refl

-- After the delivery of an event, either the handler failed and everything is as before, so that
-- Stripe's retry starts afresh; or delivering the event again answers `duplicate` and changes
-- nothing.
pub stripe_webhook_once :
    (secret : String) (e : Event) (db : Database)
    → is_empty secret ≡ false
    → let r = stripe_webhook secret (some e) db in
      (r ≡ (internal_error, db)) ⊎ (stripe_webhook secret (some e) r.1 ≡ (duplicate, r.1))
unfolding stripe_webhook
stripe_webhook_once secret e db h =
    let open_for =
      λ (s : Database). ap {A = Bool} (λ b. if b then (not_configured, s) else process e s) h in
    elim (process-Settles e db) [
      | inl failed ↦ inl (open_for db ∙ failed)
      | inr seen ↦ inr (
          subst (λ r. stripe_webhook secret (some e) r.1 ≡ (duplicate, r.1)) (sym (open_for db))
            (open_for (process e db).1 ∙ process_again e (process e db).1 seen))
    ]
