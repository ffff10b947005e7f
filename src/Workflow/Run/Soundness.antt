-- ===== src/Workflow/Run/Soundness.antt =====
-- What no sequence of transactions can break.
use les_traiteurs_engages_v.Base.{
  All, All-map, All-update_first, Bool, IsKeyed, List, Option, String, arith, count, count-append,
  count-eq-zero, count-update_first_mono, refl, update_first-IsKeyed, ℕ, ◌&&◌, ◌==◌, ◌||◌, ◌≡◌, ◌≤◌,
}
use les_traiteurs_engages_v.Models.{
  Caterer, Database, Order, Quote, QuoteRequestCaterer, User, is_draft, is_sent,
}
use les_traiteurs_engages_v.Workflow.Approval.Effects.{FannedOut, Solicits}
use les_traiteurs_engages_v.Workflow.Delivering.Effects.{Delivered}
use les_traiteurs_engages_v.Workflow.Errors.{is_quote_of}
use les_traiteurs_engages_v.Workflow.Refusal.{refuse}
use les_traiteurs_engages_v.Workflow.Refusal.Effects.{Turned}
use les_traiteurs_engages_v.Workflow.Submission.{is_transmitted_on, transmitted_on}

-- A quote of the given identifier that could still be answered: a draft, or sent.
abbrev pub is_unanswered : ℕ → Quote → Bool
is_unanswered i q = q.id == i && (is_draft q.status || is_sent q.status)

-- Quotes have distinct identifiers; an ordered quote is answered; no quote is ordered twice (the
-- UNIQUE constraint on `orders.quote_id`); and on no request are more than three rows of
-- solicited caterers transmitted, however many quotes each of these has sent.
pub record IsSound (db : Database) : Type 0 where
  pub keyed : IsKeyed (λ q. q.id) db.quotes
  pub answered : All (λ o. count (is_unanswered o.quote_id) db.quotes ≡ 0) db.orders
  pub ordered_once : IsKeyed (λ o. o.quote_id) db.orders
  pub three : (r : ℕ) → transmitted_on r db ≤ 3

-- Writing quotes without opening an answered one keeps the ordered ones answered.
pub answered_mono :
    (qs qs' : List Quote) (os : List Order)
    → ((i : ℕ) → count (is_unanswered i) qs' ≤ count (is_unanswered i) qs)
    → All (λ o. count (is_unanswered o.quote_id) qs ≡ 0) os
    → All (λ o. count (is_unanswered o.quote_id) qs' ≡ 0) os
answered_mono qs qs' os h = All-map _ _ os (λ o e. omega (arith, h o.quote_id))

module _ {db db' : Database} (s : IsSound db) where
  -- A call that leaves the quotes, the orders and the rows of the caterers as they were.
  pub same-IsSound :
      db'.quotes ≡ db.quotes → db'.orders ≡ db.orders → db'.qrcs ≡ db.qrcs → IsSound db'
  same-IsSound q o c = record {
    keyed = rw q s.keyed;
    answered = rw (q, o) s.answered;
    ordered_once = rw o s.ordered_once;
    three = λ r. rw c (s.three r);
  }

  pub refuse-IsSound :
      (request_id quote_id : ℕ) (user : User) (reason : Option String)
      → Turned request_id quote_id user reason db db'
      → IsSound db'
  refuse-IsSound request_id quote_id user reason t = record {
    keyed = rw t.quotes (update_first-IsKeyed (λ q. q.id) _ _ db.quotes (λ q. refl) s.keyed);
    answered =
        rw (t.quotes, t.orders)
          (answered_mono db.quotes _ db.orders
            (λ i.
              count-update_first_mono (is_quote_of request_id quote_id) (refuse reason)
                (is_unanswered i) db.quotes (λ q e h. ground arith))
            s.answered);
    ordered_once = rw t.orders s.ordered_once;
    three = λ r. rw t.qrcs (s.three r);
  }

  pub approve-IsSound :
      (request_id : ℕ) (new : List QuoteRequestCaterer)
      → FannedOut request_id db new db'
      → IsSound db'
  approve-IsSound request_id new f = record {
    keyed = rw f.quotes s.keyed;
    answered = rw (f.quotes, f.orders) s.answered;
    ordered_once = rw f.orders s.ordered_once;
    three = λ r. rw f.qrcs (
        omega (
          arith,
          s.three r,
          count-append (is_transmitted_on r) db.qrcs new,
          count-eq-zero (is_transmitted_on r) new
              (All-map (Solicits request_id) _ new (λ c w. ground arith) f.waiting),
        ));
  }

  pub deliver-IsSound :
      (order_id : ℕ) (caterer : Caterer) (o : Order)
      → Delivered order_id caterer db o db'
      → IsSound db'
  deliver-IsSound order_id caterer o d = record {
    keyed = rw d.quotes s.keyed;
    answered = rw (d.quotes, d.orders) (All-update_first _ _ _ db.orders (λ o h e. h) s.answered);
    ordered_once =
        rw d.orders
          (update_first-IsKeyed (λ o. o.quote_id) _ _ db.orders (λ o. refl) s.ordered_once);
    three = λ r. rw d.qrcs (s.three r);
  }
