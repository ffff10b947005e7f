-- ===== src/Workflow/Submission/Bounds.antt =====
-- The rule of the three: how many of the solicited caterers' rows of a request are
-- transmitted to the client.
use les_traiteurs_engages_v.Base.{
  Bool-cases, List, arith, count, count-update_first-le, count-update_first_mono,
  count-update_where_mono, if◌then◌else◌, inl, inr, update_first, ℕ, ◌+◌, ◌==◌, ◌≡◌, ◌≤◌,
}
use les_traiteurs_engages_v.Models.{Database, QuoteRequestCaterer}
use les_traiteurs_engages_v.Workflow.Acceptance.{close_qrc}
use les_traiteurs_engages_v.Workflow.Submission.{
  close_remaining, heal, is_qrc_of, is_shut_out, is_transmitted_on, transmit, transmit_quote,
  transmitted_on,
}

close_remaining-le :
    (r request_id caterer_id rank : ℕ) (cs : List QuoteRequestCaterer)
    → count (is_transmitted_on r) (close_remaining request_id caterer_id rank cs)
      ≤ count (is_transmitted_on r) cs
unfolding close_remaining
close_remaining-le r request_id caterer_id rank cs = ground (
  arith,
  count-update_where_mono (is_shut_out request_id caterer_id) close_qrc (is_transmitted_on r) cs
      (λ c h e. ground arith),
)

-- A transmission adds at most one on its own request, and none elsewhere.
pub transmit_quote-le :
    (now request_id quote_id caterer_id t r : ℕ) (db : Database)
    → transmitted_on r (transmit_quote now request_id quote_id caterer_id t db)
      ≤ transmitted_on r db + (if r == request_id then 1 else 0)
unfolding transmit_quote
transmit_quote-le now request_id quote_id caterer_id t r db = elim (Bool-cases (r == request_id)) [
  | inl own ↦ rw own (
      omega (
        arith,
        close_remaining-le r request_id caterer_id (t + 1)
            (update_first (is_qrc_of request_id caterer_id) (transmit now (t + 1)) db.qrcs),
        count-update_first-le (is_qrc_of request_id caterer_id) (transmit now (t + 1))
            (is_transmitted_on r) db.qrcs,
      ))
  | inr other ↦ rw other (
      omega (
        arith,
        close_remaining-le r request_id caterer_id (t + 1)
            (update_first (is_qrc_of request_id caterer_id) (transmit now (t + 1)) db.qrcs),
        count-update_first_mono (is_qrc_of request_id caterer_id) (transmit now (t + 1))
            (is_transmitted_on r) db.qrcs (λ c h e. ground arith),
      ))
]

pub heal-le :
    (request_id caterer_id t r : ℕ) (db : Database)
    → transmitted_on r (heal request_id caterer_id t db) ≤ transmitted_on r db
unfolding heal
heal-le request_id caterer_id t r db = ground (
  arith,
  count-update_first_mono (is_qrc_of request_id caterer_id) close_qrc (is_transmitted_on r) db.qrcs
      (λ c h e. ground arith),
)

pub heal_rest :
    (request_id caterer_id t : ℕ) (db : Database)
    → ((heal request_id caterer_id t db).quotes ≡ db.quotes)
      × ((heal request_id caterer_id t db).orders ≡ db.orders)
      × ((heal request_id caterer_id t db).notifications ≡ db.notifications)
unfolding heal
heal_rest request_id caterer_id t db = ground arith
