-- ===== src/Workflow/Run/Settling.antt =====
-- An acceptance keeps the state sound.
use les_traiteurs_engages_v.Base.{
  All, All-append, All-map, IsKeyed, List, [], append-IsKeyed, arith, count, count-ne-zero,
  count-update_first_mono, count-update_where_mono, find, find-All, find-holds, refl, some,
  update_first, update_first-IsKeyed, update_where, update_where-IsKeyed, ℕ, ◌∷◌, ◌≡◌, ◌≢◌, ◌≤◌,
}
use les_traiteurs_engages_v.Models.{Database, Order, Quote, User}
use les_traiteurs_engages_v.Notifications.Frame.{OnlyNotifies-SameRows}
use les_traiteurs_engages_v.Workflow.Acceptance.{
  accept, close_qrc, is_acceptable, is_losing_qrc, is_other, lose, new_order, settle,
}
use les_traiteurs_engages_v.Workflow.Acceptance.Branches.{Accepted}
use les_traiteurs_engages_v.Workflow.Run.Soundness.{IsSound, answered_mono, is_unanswered}
use les_traiteurs_engages_v.Workflow.Submission.{is_transmitted_on}

-- The quote that an acceptance settles cannot be answered again.
winner_answered :
    (request_id quote_id : ℕ) (qs : List Quote) (a : Quote)
    → IsKeyed (λ q. q.id) qs
    → find (is_acceptable request_id quote_id) qs ≡ some a
    → count (is_unanswered a.id) (
        update_where
          (is_other request_id a.id)
          lose
          (update_first (is_acceptable request_id quote_id) accept qs))
      ≡ 0
unfolding update_where update_first find count
winner_answered request_id quote_id [] a k e = cc
winner_answered request_id quote_id (q ∷ qs) a k e = ground (
  arith,
  winner_answered request_id quote_id qs a k.1,
  find-holds (is_acceptable request_id quote_id) qs a,
  λ (h : find (is_acceptable request_id quote_id) qs ≡ some a).
      find-All (λ y. y.id ≢ q.id) (is_acceptable request_id quote_id) qs k.0 h,
  rest_answered q.id qs k.0,
)
  where
    rest_answered :
        (i : ℕ) (ys : List Quote)
        → All (λ y. y.id ≢ i) ys
        → count (is_unanswered i) (update_where (is_other request_id i) lose ys) ≡ 0
    rest_answered i [] h = refl
    rest_answered i (y ∷ ys) h = ground (arith, rest_answered i ys h.1)

module _ {db : Database} (s : IsSound db) where
  module _ (today request_id quote_id : ℕ) (user : User) where
    settled_quotes : Quote → List Quote
    settled_quotes a =
        update_where (is_other request_id a.id) lose
          (update_first (is_acceptable request_id quote_id) accept db.quotes)

    settled_mono :
        (a : Quote) (i : ℕ)
        → count (is_unanswered i) (settled_quotes a) ≤ count (is_unanswered i) db.quotes
    unfolding settled_quotes
    settled_mono a i = omega (
      arith,
      count-update_where_mono (is_other request_id a.id) lose (is_unanswered i)
          (update_first (is_acceptable request_id quote_id) accept db.quotes)
          (λ q e h. ground arith),
      count-update_first_mono (is_acceptable request_id quote_id) accept (is_unanswered i) db.quotes
          (λ q e h. ground arith),
    )

    pub accept-IsSound :
        (o : Order) (db' : Database)
        → Accepted today request_id quote_id user db o db'
        → IsSound db'
    unfolding settle settled_quotes
    accept-IsSound o db' a =
        let q = a.quote in
        let same =
          OnlyNotifies-SameRows (settle request_id quote_id user a.request q db) db' a.written in
        let test = find-holds (is_acceptable request_id quote_id) db.quotes q a.has_quote in
        record {
          keyed = rw same.quotes (
              update_where-IsKeyed (λ q. q.id) _ _ _ (λ q. refl)
                (update_first-IsKeyed (λ q. q.id) _ _ db.quotes (λ q. refl) s.keyed));
          answered =
              rw (same.quotes, same.orders)
                (All-append _ db.orders _
                  (answered_mono db.quotes (settled_quotes q) db.orders (settled_mono q) s.answered)
                  (winner_answered request_id quote_id db.quotes q s.keyed a.has_quote, tt));
          ordered_once = rw same.orders (
              append-IsKeyed (λ o. o.quote_id) db.orders (new_order a.request q user db)
                s.ordered_once
                (All-map _ _ db.orders
                  (λ o e same_quote.
                    count-ne-zero (is_acceptable request_id quote_id) (is_unanswered o.quote_id)
                      db.quotes q a.has_quote (ground arith) e)
                  s.answered));
          three = λ r. rw same.qrcs (
              omega (
                arith,
                s.three r,
                count-update_where_mono (is_losing_qrc request_id q.caterer_id) close_qrc
                    (is_transmitted_on r) db.qrcs (λ c e h. ground arith),
              ));
        }
