-- ===== src/Lifecycle/Orders.antt =====
-- Each component's transaction follows the machine.
use les_traiteurs_engages_v.Base.{
  bind-Ensures, find-update_first, update_first, ==_iff, Bool-cases, Call, Ensures, Ensures-map,
  Option-cases, ap, arith, fetch-Ensures, find, find-holds, gets-Ensures, inl, inr, modify-Ensures,
  modify_last-Ensures, or_commit-holds, or_rollback, or_rollback-holds, refl, some, subst, sym,
  true, ℕ, ◌==◌, ◌∙◌, ◌≡◌,
}
use les_traiteurs_engages_v.Invoicing.{
  StripeAnswers, attempted, count_attempt, BillingError, StripeReply, awaits_invoice, book_invoice,
  create_invoice_for_order, get_or_create_customer, invoiced_as, send_invoice_for_order,
}
use les_traiteurs_engages_v.Invoicing.Customer.{Noted, get_or_create_customer-Noted}
use les_traiteurs_engages_v.Lifecycle.Machine.{
  Evolves-trans, Evolves, Evolves-append, Evolves-refl, Evolves-same, Evolves-update_found,
  Next-Reaches, Reaches, bill, hand_over, resume,
}
use les_traiteurs_engages_v.Models.{Caterer, Database, Order, OrderStatus, Quote}
use les_traiteurs_engages_v.Notifications.Frame.{OnlyNotifies-SameRows}
use les_traiteurs_engages_v.Pricing.Totals.{QuoteTotals}
use les_traiteurs_engages_v.Workflow.Acceptance.{accept_quote, new_order, settle}
use les_traiteurs_engages_v.Workflow.Acceptance.Branches.{accept_quote-Ensures}
use les_traiteurs_engages_v.Workflow.Approval.{approve_quote_request}
use les_traiteurs_engages_v.Workflow.Approval.Effects.{approve_quote_request_fans_out}
use les_traiteurs_engages_v.Workflow.Delivering.{deliver, mark_delivered}
use les_traiteurs_engages_v.Workflow.Delivering.Effects.{mark_delivered_delivers}
use les_traiteurs_engages_v.Workflow.Refusal.{refuse_quote, reject_quote_request}
use les_traiteurs_engages_v.Workflow.Refusal.Effects.{
  refuse_quote_turns, reject_quote_request_cancels,
}
use les_traiteurs_engages_v.Workflow.Run.{Action, commits_on, perform}
use les_traiteurs_engages_v.Workflow.Submission.{heal, submit_quote, transmit_quote, transmitted_on}
use les_traiteurs_engages_v.Workflow.Submission.Branches.{submit_quote-Ensures}

invoiced : (s : OrderStatus) → awaits_invoice s ≡ true → Reaches s OrderStatus.invoiced
invoiced OrderStatus.invoicing h = Next-Reaches (resume refl refl)
invoiced OrderStatus.delivered h = Next-Reaches (bill refl refl)
invoiced OrderStatus.confirmed h = cc
invoiced OrderStatus.invoiced h = cc
invoiced OrderStatus.paid h = cc
invoiced OrderStatus.disputed h = cc

-- What a transaction of each component makes of the orders of the state it starts from.
module _ (db : Database) where
  abbrev pub Lives : Database → Type 0
  Lives d = Evolves db.orders d.orders

  stays : (d : Database) → d.orders ≡ db.orders → Lives d
  stays d e = Evolves-same db.orders d.orders e

  -- A call in a transaction, from what it guarantees on success.
  pub rolled_back :
      {E A : Type 0} (Bad : E → Database → Type 0) (Good : A → Database → Type 0)
      (call : Call Database E A)
      → Ensures Bad Good (call db)
      → ((a : A) (d : Database) → Good a d → Lives d)
      → Lives (or_rollback db (call db))
  rolled_back Bad Good call h keep =
      or_rollback-holds Lives db (call db) (Evolves-refl db.orders)
        (Ensures-map (call db) (λ e d _. tt) keep h)

  submit-Lives :
      (now request_id quote_id : ℕ) (caterer : Caterer)
      → Ensures (λ e d. Lives d) (λ q d. Lives d) (submit_quote now request_id quote_id caterer db)
  unfolding transmit_quote heal
  submit-Lives now request_id quote_id caterer =
      let t = transmitted_on request_id db in
      Ensures-map (submit_quote now request_id quote_id caterer db)
        (λ e d r. elim r [
          | inl same ↦ stays d (ap (λ x. x.orders) same)
          | inr (_, full, healed) ↦ stays d (ap (λ x. x.orders) healed ∙ ground arith)
        ])
        (λ q d s.
          stays d
            (OnlyNotifies-SameRows (transmit_quote now request_id quote_id caterer.id t db) d
              s.5).orders)
        (submit_quote-Ensures now request_id quote_id caterer db)

  pub workflow-Lives : (a : Action) → Lives (perform a db)
  unfolding perform settle
  workflow-Lives (Action.accept today request_id quote_id user) =
      rolled_back _ _ (accept_quote today request_id quote_id user)
        (accept_quote-Ensures today request_id quote_id user db)
        λ order d a.
          rw
            (OnlyNotifies-SameRows (settle request_id quote_id user a.request a.quote db) d
              a.written).orders
            (Evolves-append db.orders (new_order a.request a.quote user db) refl)
  workflow-Lives (Action.refuse request_id quote_id user reason) =
      rolled_back _ _ (refuse_quote request_id quote_id user reason)
        (refuse_quote_turns request_id quote_id user reason db) λ u d t. stays d t.orders
  workflow-Lives (Action.approve request_id) =
      rolled_back _ _ (approve_quote_request request_id)
        (approve_quote_request_fans_out request_id db) λ new d f. stays d f.orders
  workflow-Lives (Action.reject request_id reason) =
      rolled_back _ _ (reject_quote_request request_id reason)
        (reject_quote_request_cancels request_id reason db) λ u d c. stays d c.orders
  workflow-Lives (Action.submit now request_id quote_id caterer) =
      or_commit-holds Lives commits_on db (submit_quote now request_id quote_id caterer db)
        (Evolves-refl db.orders) (submit-Lives now request_id quote_id caterer)
  workflow-Lives (Action.deliver order_id caterer) =
      rolled_back _ _ (mark_delivered order_id caterer)
        (mark_delivered_delivers order_id caterer db)
        λ o d s. rw s.orders (
          Evolves-update_found _ deliver db.orders s.before s.found
            (refl, refl, Next-Reaches (hand_over s.was_confirmed refl)))

  -- The attempt is counted, then the order is invoiced, whatever was noted on its client.
  booked :
      (reply : StripeReply) (order : Order) (quote : Quote) (caterer : Caterer) (t : QuoteTotals)
      (d : Database)
      → d.orders ≡ db.orders
      → find (λ o. o.id == order.id) db.orders ≡ some order
      → awaits_invoice order.status ≡ true
      → Lives (book_invoice reply order quote caterer t (count_attempt order d))
  unfolding book_invoice
  booked reply order quote caterer t d same found awaits =
      let counted = update_first (λ o. o.id == order.id) attempted db.orders in
      rw same (
        Evolves-trans db.orders counted _
          (Evolves-update_found _ attempted db.orders order found (refl, refl, Reaches.here))
          (Evolves-update_found _ (invoiced_as reply) counted (attempted order)
            (find-update_first (λ o. o.id == order.id) attempted db.orders order (λ x h. h) found)
            (refl, refl, invoiced order.status awaits)))

  create_invoice-Lives :
      (answers : StripeAnswers) (order : Order)
      → find (λ o. o.id == order.id) db.orders ≡ some order
      → awaits_invoice order.status ≡ true
      → Ensures (λ e d. Unit {0}) (λ u d. Lives d) (create_invoice_for_order answers order db)
  unfolding create_invoice_for_order
  create_invoice-Lives answers order found awaits =
      let Bad = λ (e : BillingError) (d : Database). Unit {0} in
      let Good = λ (u : Unit {0}) (d : Database). Lives d in
      fetch-Ensures Bad Good _ _ _ _ (λ _. tt)
        λ quote _.
          fetch-Ensures Bad Good _ _ _ _ (λ _. tt)
            λ caterer _.
              fetch-Ensures Bad Good _ _ _ _ (λ _. tt)
                λ client u.
                  fetch-Ensures Bad Good _ _ _ _ (λ _. tt)
                    λ qr _. gets-Ensures Bad Good _ _ _ (
                      bind-Ensures Bad (λ id s. Noted order db s) Good _ _ db
                        (Ensures-map (get_or_create_customer client answers.customer_id db)
                          (λ e s _. tt) (λ id s n. n)
                          (get_or_create_customer-Noted order client answers.customer_id db u))
                        λ id s noted. modify-Ensures Bad Good _ _ _ (
                          fetch-Ensures Bad Good _ _ _ _ (λ _. tt)
                            λ reply _. modify_last-Ensures Bad Good _ _ (
                              booked reply order quote caterer _ s
                                (ap (λ d. d.orders) noted.only_users) found awaits)))

  pub billing-Lives :
      (answers : StripeAnswers) (order_id : ℕ) → Lives (send_invoice_for_order answers order_id db)
  unfolding send_invoice_for_order
  billing-Lives answers order_id = elim (Option-cases (find (λ o. o.id == order_id) db.orders)) [
    | inl missing ↦ rw (missing, send_invoice_for_order) (Evolves-refl db.orders)
    | inr (order, found) ↦
        rw (found, send_invoice_for_order)
          (elim (Bool-cases (awaits_invoice order.status)) [
            | inl awaits ↦ rw awaits (
                rolled_back _ _ (create_invoice_for_order answers order)
                  (create_invoice-Lives answers order (by_own_id order found) awaits) λ u d h. h)
            | inr skipped ↦ rw skipped (Evolves-refl db.orders)
          ])
  ]
    where
      by_own_id :
          (order : Order)
          → find (λ o. o.id == order_id) db.orders ≡ some order
          → find (λ o. o.id == order.id) db.orders ≡ some order
      by_own_id order found =
          let same : order.id ≡ order_id =
            (==_iff _ _).0 (find-holds (λ o. o.id == order_id) db.orders order found) in
          subst (λ i. find (λ o. o.id == i) db.orders ≡ some order) (sym same) found
