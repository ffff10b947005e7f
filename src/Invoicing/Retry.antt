-- ===== src/Invoicing/Retry.antt =====
-- services/billing_tasks.py: the task runs again after a failure of Stripe.
use les_traiteurs_engages_v.Base.{
  ==_iff, Ensures-map, List, Option, Option-cases, [], ap, false, find, find-holds, if◌then◌else◌,
  inl, inr, length, none, or_rollback, or_rollback-holds, refl, some, subst, suc, sym, true, ℕ,
  ◌==◌, ◌∙◌, ◌∷◌, ◌≡◌, ◌⊎◌,
}
use les_traiteurs_engages_v.Invoicing.{
  StripeAnswers, awaits_invoice, create_invoice_for_order, send_invoice_for_order,
}
use les_traiteurs_engages_v.Invoicing.Ledger.{Booked, create_invoice_for_order_books, length-snoc}
use les_traiteurs_engages_v.Models.{Database, Order}

-- The runs of the task on one order, one for each of Stripe's answers.
unfoldable pub send_invoices : List StripeAnswers → ℕ → Database → Database
send_invoices [] order_id db = db
send_invoices (a ∷ answers) order_id db =
    send_invoices answers order_id (send_invoice_for_order a order_id db)

-- The order does not wait for an invoice.
abbrev IsBilled : ℕ → Database → Type 0
IsBilled order_id db =
    (order : Order) × (find (λ o. o.id == order_id) db.orders ≡ some order)
    × (awaits_invoice order.status ≡ false)

abbrev send_for : StripeAnswers → Database → Option Order → Database
send_for answer db found = elim found [
  | none ↦ db
  | some order ↦
      if awaits_invoice order.status
      then or_rollback db (create_invoice_for_order answer order db)
      else db
]

send_invoice_billed :
    (answer : StripeAnswers) (order_id : ℕ) (db : Database)
    → IsBilled order_id db
    → send_invoice_for_order answer order_id db ≡ db
unfolding send_invoice_for_order
send_invoice_billed answer order_id db (order, h, b) =
    ap (send_for answer db) h
    ∙ ap (λ c. if c then or_rollback db (create_invoice_for_order answer order db) else db) b

send_invoices_billed :
    (answers : List StripeAnswers) (order_id : ℕ) (db : Database)
    → IsBilled order_id db
    → send_invoices answers order_id db ≡ db
unfolding send_invoices
send_invoices_billed [] order_id db h = refl
send_invoices_billed (a ∷ answers) order_id db h =
    ap (send_invoices answers order_id) (send_invoice_billed a order_id db h)
    ∙ send_invoices_billed answers order_id db h

-- What one run does: nothing, or one payment of an order that is billed from then on.
abbrev Step : ℕ → Database → Database → Type 0
Step order_id db after =
    (after ≡ db) ⊎ (IsBilled order_id after × (length after.payments ≡ suc (length db.payments)))

Booked-IsBilled :
    (order_id : ℕ) (order : Order) (db after : Database)
    → find (λ o. o.id == order_id) db.orders ≡ some order
    → Booked order db after
    → IsBilled order_id after × (length after.payments ≡ suc (length db.payments))
Booked-IsBilled order_id order db after h b =
    let same =
      (==_iff order.id order_id).0 (find-holds (λ o. o.id == order_id) db.orders order h) in
    (
      (
        b.after_order,
        subst (λ i. find (λ o. o.id == i) after.orders ≡ some b.after_order) same b.order_found,
        ap awaits_invoice b.is_invoiced,
      ),
      ap length b.payments_grow ∙ length-snoc db.payments b.payment,
    )

own_key :
    (order_id : ℕ) (order : Order) (db : Database)
    → find (λ o. o.id == order_id) db.orders ≡ some order
    → find (λ o. o.id == order.id) db.orders ≡ some order
own_key order_id order db h =
    subst (λ i. find (λ o. o.id == i) db.orders ≡ some order)
      (sym ((==_iff order.id order_id).0 (find-holds (λ o. o.id == order_id) db.orders order h))) h

send_invoice-Step :
    (answer : StripeAnswers) (order_id : ℕ) (db : Database)
    → Step order_id db (send_invoice_for_order answer order_id db)
unfolding send_invoice_for_order
send_invoice-Step answer order_id db =
    elim (Option-cases (find (λ o. o.id == order_id) db.orders)) [
      | inl h ↦ inl (ap (send_for answer db) h)
      | inr (order, h) ↦
          subst (λ found. Step order_id db (send_for answer db found)) (sym h)
            (elim (awaits_invoice order.status)
              as (λ b.
                Step order_id db
                  (if b then or_rollback db (create_invoice_for_order answer order db) else db)) [
                    | true ↦
                        or_rollback-holds (Step order_id db) db
                          (create_invoice_for_order answer order db) (inl refl)
                          (Ensures-map (create_invoice_for_order answer order db) (λ e s h. tt)
                            (λ u after b. inr (Booked-IsBilled order_id order db after h b))
                            (create_invoice_for_order_books answer order db
                              (own_key order_id order db h)))
                    | false ↦ inl refl
                  ])
    ]

-- However often the task runs on an order, and whatever Stripe answers each time: either nothing
-- has changed, or exactly one payment is booked, and no later run changes anything.
pub send_invoices_bill_once :
    (answers more : List StripeAnswers) (order_id : ℕ) (db : Database)
    → let after = send_invoices answers order_id db in
      (after ≡ db)
      ⊎ ((length after.payments ≡ suc (length db.payments))
          × (send_invoices more order_id after ≡ after))
unfolding send_invoices
send_invoices_bill_once [] more order_id db = inl refl
send_invoices_bill_once (a ∷ answers) more order_id db = elim (send_invoice-Step a order_id db) [
  | inl same ↦
      subst
        (λ s.
          let after = send_invoices answers order_id s in
          (after ≡ db)
          ⊎ ((length after.payments ≡ suc (length db.payments))
              × (send_invoices more order_id after ≡ after)))
        (sym same) (send_invoices_bill_once answers more order_id db)
  | inr (billed, grown) ↦ inr (
      subst
        (λ after.
          (length after.payments ≡ suc (length db.payments))
          × (send_invoices more order_id after ≡ after))
        (sym (send_invoices_billed answers order_id (send_invoice_for_order a order_id db) billed))
        (grown, send_invoices_billed more order_id (send_invoice_for_order a order_id db) billed))
]
