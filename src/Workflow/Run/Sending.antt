-- ===== src/Workflow/Run/Sending.antt =====
-- A submission keeps the state sound, also where its healing write is committed.
use les_traiteurs_engages_v.Base.{
  Ensures, Ensures-map, arith, count-update_first_mono, inl, inr, refl, update_first-IsKeyed, ℕ,
}
use les_traiteurs_engages_v.Models.{Caterer, Database, Quote}
use les_traiteurs_engages_v.Notifications.Frame.{OnlyNotifies-SameRows}
use les_traiteurs_engages_v.Workflow.Errors.{WorkflowError}
use les_traiteurs_engages_v.Workflow.Run.Soundness.{IsSound, answered_mono, is_unanswered}
use les_traiteurs_engages_v.Workflow.Submission.{
  is_submittable, send, submit_quote, transmit_quote, transmitted_on,
}
use les_traiteurs_engages_v.Workflow.Submission.Bounds.{heal-le, heal_rest, transmit_quote-le}
use les_traiteurs_engages_v.Workflow.Submission.Branches.{
  Refused, Transmitted, submit_quote-Ensures,
}

module _ (now request_id quote_id : ℕ) (caterer : Caterer) {db : Database} (s : IsSound db) where
  -- How many of the solicited caterers' rows are transmitted on the request.
  abbrev sent_before : ℕ
  sent_before = transmitted_on request_id db

  Refused-IsSound :
      (e : WorkflowError) (d : Database)
      → Refused now request_id quote_id caterer db e d
      → IsSound d
  Refused-IsSound e d (inl same) = rw same s
  Refused-IsSound e d (inr (_, _, healed)) = rw healed (
      let (q, o, _) = heal_rest request_id caterer.id sent_before db in
      record {
        keyed = rw q s.keyed;
        answered = rw (q, o) s.answered;
        ordered_once = rw o s.ordered_once;
        three = λ r. omega (arith, s.three r, heal-le request_id caterer.id sent_before r db);
      })

  Transmitted-IsSound :
      (q : Quote) (d : Database) → Transmitted now request_id quote_id caterer db q d → IsSound d
  unfolding transmit_quote
  Transmitted-IsSound q d (room, _, _, _, _, frame) =
      let same =
        OnlyNotifies-SameRows (transmit_quote now request_id quote_id caterer.id sent_before db) d
          frame in
      record {
        keyed = rw same.quotes (update_first-IsKeyed (λ q. q.id) _ _ db.quotes (λ q. refl) s.keyed);
        answered =
            rw (same.quotes, same.orders)
              (answered_mono db.quotes _ db.orders
                (λ i.
                  count-update_first_mono (is_submittable request_id quote_id caterer.id) send
                    (is_unanswered i) db.quotes (λ q e h. ground arith))
                s.answered);
        ordered_once = rw same.orders s.ordered_once;
        three = λ r. rw same.qrcs (
            ground (
              arith,
              s.three r,
              transmit_quote-le now request_id quote_id caterer.id sent_before r db,
            ));
      }

  pub submit-IsSound :
      Ensures
        (λ e d. IsSound d)
        (λ q d. IsSound d)
        (submit_quote now request_id quote_id caterer db)
  submit-IsSound =
      Ensures-map (submit_quote now request_id quote_id caterer db) Refused-IsSound
        Transmitted-IsSound (submit_quote-Ensures now request_id quote_id caterer db)
