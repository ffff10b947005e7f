-- ===== src/Invoicing/Ledger.antt =====
-- What an invoice that Stripe has sent leaves in the ledger.
use les_traiteurs_engages_v.Base.{
  bind-Ensures, inr, Ensures, List, [], ap, arith, fetch-Ensures, find, find-update_first,
  gets-Ensures, length, modify-Ensures, modify_last-Ensures, refl, some, suc, update_first, ◌++◌,
  ◌+◌, ◌==◌, ◌∙◌, ◌∷◌, ◌≡◌,
}
use les_traiteurs_engages_v.Invoicing.{
  BillingError, StripeReply, book_invoice, commission_for, create_invoice_for_order, invoiced_as,
  payment_for, attempted, count_attempt, StripeAnswers,
}
use les_traiteurs_engages_v.Invoicing.Customer.{
  Noted, Noted-Unbilled, Noted-refl, Unbilled, get_or_create_customer-Noted,
}
use les_traiteurs_engages_v.Models.{
  Caterer, CommissionInvoice, Database, Order, OrderStatus, Payment, PaymentStatus, Quote,
}
use les_traiteurs_engages_v.Pricing.Split.{split_invoice_amounts, split_invoice_amounts_balance}
use les_traiteurs_engages_v.Pricing.Totals.{QuoteTotals}

-- The rows that one call writes, of the totals t.
pub record Booked (order : Order) (before after : Database) : Type 0 where
  pub payment : Payment
  pub fee : CommissionInvoice
  pub mirror : CommissionInvoice
  pub payments_grow : after.payments ≡ before.payments ++ payment ∷ []
  pub is_pending : payment.status ≡ PaymentStatus.pending
  pub is_of_order : payment.order_id ≡ order.id
  pub balance :
      payment.amount_to_caterer_cents + payment.application_fee_cents ≡ payment.amount_total_cents
  pub fee_collected : payment.application_fee_cents ≡ fee.amount_ttc
  pub commissions_grow : after.commissions ≡ before.commissions ++ fee ∷ mirror ∷ []
  pub mirrored : mirror.amount_ttc ≡ fee.amount_ttc
  pub numbered : fee.invoice_number ≡ before.commission_seq
  pub consecutive : mirror.invoice_number ≡ suc fee.invoice_number
  pub next_number : after.commission_seq ≡ suc mirror.invoice_number
  pub one_invoice : length after.invoices ≡ suc (length before.invoices)
  pub after_order : Order
  pub order_found : find (λ o. o.id == order.id) after.orders ≡ some after_order
  pub is_invoiced : after_order.status ≡ OrderStatus.invoiced
  pub next_attempt : after_order.invoice_attempt ≡ suc order.invoice_attempt

pub length-snoc : {A : Type 0} (xs : List A) (a : A) → length (xs ++ a ∷ []) ≡ suc (length xs)
length-snoc [] a = refl
length-snoc (x ∷ xs) a = ap suc (length-snoc xs a)

-- The tables of the ledger keep their rows.
record SameLedger (before after : Database) : Type 0 where
  pub payments_same : after.payments ≡ before.payments
  pub commissions_same : after.commissions ≡ before.commissions
  pub invoices_same : after.invoices ≡ before.invoices
  pub numbers_same : after.commission_seq ≡ before.commission_seq

book_invoice-Booked :
    (reply : StripeReply) (order : Order) (quote : Quote) (caterer : Caterer) (t : QuoteTotals)
    (before db : Database)
    → SameLedger before db
    → find (λ o. o.id == order.id) db.orders ≡ some (attempted order)
    → Booked order before (book_invoice reply order quote caterer t db)
unfolding book_invoice split_invoice_amounts
book_invoice-Booked reply order quote caterer t before db same found = record {
  payment =
      payment_for reply order caterer
        (split_invoice_amounts 100 t.total_ttc t.platform_fee_ht t.platform_fee_tva)
        (db.uuid4 db.drawn);
  fee = commission_for order t "client" db.commission_seq;
  mirror = commission_for order t "caterer" (db.commission_seq + 1);
  payments_grow =
      ap
        (λ ps.
          ps
          ++ payment_for reply order caterer
              (split_invoice_amounts 100 t.total_ttc t.platform_fee_ht t.platform_fee_tva)
              (db.uuid4 db.drawn)
            ∷ [])
        same.payments_same;
  is_pending = refl;
  is_of_order = refl;
  balance = (split_invoice_amounts_balance 100 t.total_ttc t.platform_fee_ht t.platform_fee_tva).0;
  fee_collected =
      (split_invoice_amounts_balance 100 t.total_ttc t.platform_fee_ht t.platform_fee_tva).2;
  commissions_grow =
      ap
        (λ cs.
          cs
          ++ commission_for order t "client" db.commission_seq
            ∷ commission_for order t "caterer" (db.commission_seq + 1)
            ∷ [])
        same.commissions_same;
  mirrored = refl;
  numbered = same.numbers_same;
  consecutive = omega arith;
  next_number = omega arith;
  one_invoice = length-snoc db.invoices _ ∙ ap (λ is. suc (length is)) same.invoices_same;
  after_order = invoiced_as reply (attempted order);
  order_found =
      find-update_first (λ o. o.id == order.id) (invoiced_as reply) db.orders (attempted order)
        (λ x h. h) found;
  is_invoiced = refl;
  next_attempt = omega arith;
}

-- For an order of the database. A call that raises, Stripe's refusal included, books nothing: the
-- session holds at most the customer's identifier on the order's client and one more attempt on the
-- order, for the caller to roll back. One that succeeds books one pending payment of the order, of
-- which the caterer's part and the fee make up the total, one invoice, and two commission invoices
-- of the same amount with the fee, numbered one after the other from the sequence, which moves on by
-- two; the fee collected is the amount of these, and the order is invoiced with one more attempt.
pub create_invoice_for_order_books :
    (answers : StripeAnswers) (order : Order) (db : Database)
    → find (λ o. o.id == order.id) db.orders ≡ some order
    → Ensures
        (λ e after. Unbilled order db after)
        (λ u after. Booked order db after)
        (create_invoice_for_order answers order db)
unfolding create_invoice_for_order
create_invoice_for_order_books answers order db found =
    fetch-Ensures Bad Good _ _ _ _ (λ _. untouched)
      λ quote q.
        fetch-Ensures Bad Good _ _ _ _ (λ _. untouched)
          λ caterer c.
            fetch-Ensures Bad Good _ _ _ _ (λ _. untouched)
              λ client u.
                fetch-Ensures Bad Good _ _ _ _ (λ _. untouched)
                  λ qr r. gets-Ensures Bad Good _ _ _ (
                    bind-Ensures Bad (λ id s. Noted order db s) Good _ _ db
                      (get_or_create_customer-Noted order client answers.customer_id db u)
                      λ id s noted. modify-Ensures Bad Good _ _ _ (
                        fetch-Ensures Bad Good _ _ _ _ (λ _. counted s noted)
                          λ reply a. modify_last-Ensures Bad Good _ _ (
                            book_invoice-Booked reply order quote caterer _ db _
                              (same_ledger s noted) (attempt_found s noted))))
  where
    Bad : BillingError → Database → Type 0
    Bad e after = Unbilled order db after

    Good : Unit {0} → Database → Type 0
    Good u after = Booked order db after

    untouched : Unbilled order db db
    untouched = Noted-Unbilled (Noted-refl order db)

    counted : (s : Database) → Noted order db s → Unbilled order db (count_attempt order s)
    counted s n = record {
      only_customer_and_order =
          ap
            (λ (d : Database). record d {
              orders = update_first (λ o. o.id == order.id) attempted s.orders;
            })
            n.only_users;
      customer = n.customer;
      attempt =
          inr
            (ap (update_first (λ o. o.id == order.id) attempted) (ap (λ d. d.orders) n.only_users));
    }

    same_ledger : (s : Database) → Noted order db s → SameLedger db (count_attempt order s)
    same_ledger s n = record {
      payments_same = ap (λ d. d.payments) n.only_users;
      commissions_same = ap (λ d. d.commissions) n.only_users;
      invoices_same = ap (λ d. d.invoices) n.only_users;
      numbers_same = ap (λ d. d.commission_seq) n.only_users;
    }

    attempt_found :
        (s : Database)
        → Noted order db s
        → find (λ o. o.id == order.id) (count_attempt order s).orders ≡ some (attempted order)
    attempt_found s n =
        find-update_first (λ o. o.id == order.id) attempted s.orders order (λ x h. h)
          (ap (λ d. find (λ o. o.id == order.id) d.orders) n.only_users ∙ found)
