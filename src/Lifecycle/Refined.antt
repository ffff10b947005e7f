-- ===== src/Lifecycle/Refined.antt =====
-- The webhook and the administrators follow the machine too, and so does every run.
use les_traiteurs_engages_v.Base.{
  Bool, Bool-cases, Ensures, List, Option, Option-cases, Result, String, [], bind-Ensures, false,
  fetch-Ensures, find, gets-Ensures, inl, inr, is_empty, modify-Ensures, modify_last-Ensures, none,
  ok, or_rollback, raise, refl, return-Ensures, some, then-Ensures, true, ℕ, ◌==◌, ◌∷◌,
}
use les_traiteurs_engages_v.Console.{
  ConsoleAction, ConsoleError, console, decide_caterer, invalidate, order_transition,
  perform_console, qualification_approve, qualification_reject, transition, validate,
  with_order_status,
}
use les_traiteurs_engages_v.Console.Journal.{or_not_found-Ensures}
use les_traiteurs_engages_v.Console.Transitions.{IsStep, moved, order_transition-Moved}
use les_traiteurs_engages_v.Lifecycle.{
  Happening, administration, billing, happen, live, webhook, workflow,
}
use les_traiteurs_engages_v.Lifecycle.Machine.{
  Evolves, Evolves-refl, Evolves-same, Evolves-trans, Evolves-update_first, Evolves-update_found,
  Next-Reaches, Reaches, bill, collect,
}
use les_traiteurs_engages_v.Lifecycle.Orders.{Lives, billing-Lives, rolled_back, workflow-Lives}
use les_traiteurs_engages_v.Models.{Database, Order, OrderStatus, User, order_by}
use les_traiteurs_engages_v.Notifications.{Notice, notify_users}
use les_traiteurs_engages_v.Notifications.Frame.{OnlyNotifies-SameRows, notify_users-OnlyNotifies}
use les_traiteurs_engages_v.Reviews.{notify_review_invite}
use les_traiteurs_engages_v.Webhook.{
  Event, HandlerError, account_updated, close_order, dispatch, handle, invoice_paid, is_payment_of,
  is_seen, pay, payment_failed, process, record_event, reply_of, stripe_webhook,
}
use les_traiteurs_engages_v.Webhook.Frame.{notify_review_invite-OnlyNotifies}
use les_traiteurs_engages_v.Workflow.Approval.{approve_quote_request}
use les_traiteurs_engages_v.Workflow.Approval.Effects.{FannedOut, approve_quote_request_fans_out}
use les_traiteurs_engages_v.Workflow.Refusal.{reject_quote_request}
use les_traiteurs_engages_v.Workflow.Refusal.Effects.{Cancelled, reject_quote_request_cancels}

module _ (before : List Order) where
  abbrev Anyhow : HandlerError → Database → Type 0
  Anyhow e d = Unit {0}

  abbrev Follow : Unit {0} → Database → Type 0
  Follow u d = Evolves before d.orders

  told :
      (d : Database) (us : List (Option ℕ)) (n : Notice)
      → Evolves before d.orders
      → Evolves before (notify_users us n d).orders
  told d us n h =
      rw (OnlyNotifies-SameRows d (notify_users us n d) (notify_users-OnlyNotifies us n d)).orders h

  invited :
      (d : Database) (order : Order)
      → Evolves before d.orders
      → Evolves before (notify_review_invite order d).orders
  invited d order h =
      rw
        (OnlyNotifies-SameRows d (notify_review_invite order d)
          (notify_review_invite-OnlyNotifies order d)).orders
        h

  close_order-Follow :
      (order : Option Order) (d : Database)
      → Evolves before d.orders
      → Ensures Anyhow Follow (close_order order d)
  unfolding close_order
  close_order-Follow none d h = return-Ensures Anyhow Follow tt d h
  close_order-Follow (some order) d h = modify-Ensures Anyhow Follow _ _ _ (
      fetch-Ensures Anyhow Follow _ _ _ _ (λ _. tt)
        λ quote q.
          fetch-Ensures Anyhow Follow _ _ _ _ (λ _. tt)
            λ qr r. modify-Ensures Anyhow Follow _ _ _ (
              modify-Ensures Anyhow Follow _ _ _ (
                modify_last-Ensures Anyhow Follow _ _ (
                  invited _ (pay order) (
                    told _ _ _ (
                      told _ _ _ (
                        Evolves-trans before d.orders _ h (
                          Evolves-update_first (λ o. o.id == order.id) pay d.orders
                            (λ o. (refl, refl, Next-Reaches (collect refl)))))))))))

  dispatch-Follow :
      (paid failing account : Bool) (e : Event) (d : Database)
      → Evolves before d.orders
      → Ensures Anyhow Follow (dispatch paid failing account e d)
  unfolding account_updated payment_failed invoice_paid
  dispatch-Follow true _ _ e d h =
      gets-Ensures Anyhow Follow _ _ d (elim (Option-cases (find (is_payment_of e) d.payments)) [
        | inl missing ↦ rw missing (return-Ensures Anyhow Follow tt d h)
        | inr (payment, found) ↦ rw found (
            modify-Ensures Anyhow Follow _ _ _ (
              gets-Ensures Anyhow Follow _ _ _
                (close_order-Follow (order_by payment.order_id d) _ h)))
      ])
  dispatch-Follow false true _ e d h = modify_last-Ensures Anyhow Follow (payment_failed e) d h
  dispatch-Follow false false true e d h = modify_last-Ensures Anyhow Follow (account_updated e) d h
  dispatch-Follow false false false e d h = return-Ensures Anyhow Follow tt d h

  handle-Follow :
      (e : Event) (d : Database) → Evolves before d.orders → Ensures Anyhow Follow (handle e d)
  unfolding handle
  handle-Follow e d h = dispatch-Follow _ _ _ e d h

  replied-Follow :
      (d : Database) (r : Result HandlerError (Unit {0}) × Database)
      → Evolves before d.orders
      → Ensures Anyhow Follow r
      → Evolves before (reply_of d r).1.orders
  replied-Follow d (ok u, after) h g = g
  replied-Follow d (raise e, after) h g = h

webhook-Lives :
    (secret : String) (event : Option Event) (db : Database)
    → Evolves db.orders (stripe_webhook secret event db).1.orders
unfolding stripe_webhook process
webhook-Lives secret none db = elim (Bool-cases (is_empty secret)) [
  | inl y ↦ rw y (Evolves-refl db.orders)
  | inr n ↦ rw n (Evolves-refl db.orders)
]
webhook-Lives secret (some e) db = elim (Bool-cases (is_empty secret)) [
  | inl y ↦ rw y (Evolves-refl db.orders)
  | inr n ↦ rw n (elim (Bool-cases (is_seen e db)) [
    | inl seen ↦ rw seen (Evolves-refl db.orders)
    | inr new ↦ rw new (
        replied-Follow db.orders db (handle e (record_event e db)) (Evolves-refl db.orders)
          (handle-Follow db.orders e (record_event e db) (Evolves-refl db.orders)))
  ])
]

stepped : {s t : OrderStatus} → IsStep s t → Reaches s t
stepped (inl (p, q)) = Next-Reaches (bill p q)
stepped (inr (p, q)) = Next-Reaches (collect q)

-- Of the administrator's posts, only a transition writes an order.
module _ (actor : User) (db : Database) where
  approve-Lives :
      (request_id : ℕ) → Lives db (or_rollback db (qualification_approve actor request_id db))
  unfolding qualification_approve
  approve-Lives request_id =
      let Bad = λ (e : ConsoleError) (d : Database). Unit {0} in
      let Good = λ (u : Unit {0}) (d : Database). Lives db d in
      rolled_back db Bad Good (qualification_approve actor request_id)
        (bind-Ensures Bad (FannedOut request_id db) Good _ _ db
          (or_not_found-Ensures _ _ (approve_quote_request request_id) db
            (approve_quote_request_fans_out request_id db))
          λ new d f. modify_last-Ensures Bad Good _ _ (Evolves-same db.orders d.orders f.orders))
        λ u d h. h

  reject-Lives :
      (request_id : ℕ) (reason : Option String)
      → Lives db (or_rollback db (qualification_reject actor request_id reason db))
  unfolding qualification_reject
  reject-Lives request_id reason =
      let Bad = λ (e : ConsoleError) (d : Database). Unit {0} in
      let Good = λ (u : Unit {0}) (d : Database). Lives db d in
      rolled_back db Bad Good (qualification_reject actor request_id reason)
        (then-Ensures Bad (λ u. Cancelled request_id reason db) Good _ _ db
          (or_not_found-Ensures _ _ (reject_quote_request request_id reason) db
            (reject_quote_request_cancels request_id reason db))
          λ d f. modify_last-Ensures Bad Good _ _ (Evolves-same db.orders d.orders f.orders))
        λ u d h. h

  decide-Lives :
      (b : Bool) (action : String) (caterer_id : ℕ)
      → Lives db (or_rollback db (decide_caterer b action actor caterer_id db))
  unfolding decide_caterer
  decide-Lives b action caterer_id =
      let Bad = λ (e : ConsoleError) (d : Database). Unit {0} in
      let Good = λ (u : Unit {0}) (d : Database). Lives db d in
      rolled_back db Bad Good (decide_caterer b action actor caterer_id)
        (fetch-Ensures Bad Good _ _ _ _ (λ _. tt)
          λ c _.
            modify-Ensures Bad Good _ _ _
              (modify_last-Ensures Bad Good _ _ (Evolves-refl db.orders)))
        λ u d h. h

  transition-Lives :
      (action : Option String) (order_id : ℕ)
      → Lives db (or_rollback db (order_transition actor action order_id db))
  transition-Lives action order_id =
      rolled_back db _ _ (order_transition actor action order_id)
        (order_transition-Moved actor action order_id db)
        λ u d m.
          rw (OnlyNotifies-SameRows (moved actor m.transition order_id db) d m.written).orders (
            Evolves-update_found (λ o. o.id == order_id) (with_order_status m.transition.target)
              db.orders m.order m.found (refl, refl, stepped m.step))

  administration-Lives : (a : ConsoleAction) → Lives db (perform_console actor a db)
  unfolding perform_console console
  administration-Lives (ConsoleAction.approve request_id) = approve-Lives request_id
  administration-Lives (ConsoleAction.reject request_id reason) = reject-Lives request_id reason
  administration-Lives (validate caterer_id) = decide-Lives true "caterer.validate" caterer_id
  administration-Lives (invalidate caterer_id) = decide-Lives false "caterer.invalidate" caterer_id
  administration-Lives (transition action order_id) = transition-Lives action order_id

happen-Evolves : (h : Happening) (db : Database) → Evolves db.orders (happen h db).orders
unfolding happen
happen-Evolves (workflow a) db = workflow-Lives db a
happen-Evolves (billing answer order_id) db = billing-Lives db answer order_id
happen-Evolves (webhook secret event) db = webhook-Lives secret event db
happen-Evolves (administration actor a) db = administration-Lives actor db a

-- Whatever transactions of the workflow, the billing task, the webhook and the administrators run,
-- in whatever order and however they end, the table of the orders follows the abstract machine: no
-- order is lost or gets another quote, its status is one that the machine reaches from the one it
-- had, and orders that are added were born confirmed.
pub live-Evolves : (hs : List Happening) (db : Database) → Evolves db.orders (live hs db).orders
unfolding live
live-Evolves [] db = Evolves-refl db.orders
live-Evolves (h ∷ hs) db =
    Evolves-trans db.orders (happen h db).orders (live hs (happen h db)).orders
      (happen-Evolves h db) (live-Evolves hs (happen h db))
