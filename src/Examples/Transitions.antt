-- ===== src/Examples/Transitions.antt =====
-- The workflow on the shop.
use les_traiteurs_engages_v.Base.{
  Ensures, IsKeyed, List, [], arith, count, fetch, find, gets, modify, none, raise, raise_if, refl,
  return, true, update_first, ◌==◌, ◌>>=◌, ◌>>◌, ◌∷◌, ◌≡◌,
}
use les_traiteurs_engages_v.Examples.Samples.{buyer, kitchen, open_request, rival, sent_quote, shop}
use les_traiteurs_engages_v.Models.{Order}
use les_traiteurs_engages_v.Notifications.{notify_users}
use les_traiteurs_engages_v.Reviews.{is_ok}
use les_traiteurs_engages_v.Workflow.Acceptance.{accept_quote, new_order, settle}
use les_traiteurs_engages_v.Workflow.Acceptance.Closed.{Rejects}
use les_traiteurs_engages_v.Workflow.Acceptance.Effects.{Settled, accept_quote_settles}
use les_traiteurs_engages_v.Workflow.Approval.{approve_quote_request}
use les_traiteurs_engages_v.Workflow.Approval.Effects.{FannedOut, approve_quote_request_fans_out}
use les_traiteurs_engages_v.Workflow.Errors.{
  quote_expired, quote_not_available, quote_request_not_open,
}
use les_traiteurs_engages_v.Workflow.Refusal.{reject_quote_request}
use les_traiteurs_engages_v.Workflow.Refusal.Effects.{Cancelled, reject_quote_request_cancels}
use les_traiteurs_engages_v.Workflow.Run.{Action, run}
use les_traiteurs_engages_v.Workflow.Run.Invariance.{run-IsSound}
use les_traiteurs_engages_v.Workflow.Run.Reopening.{accept_quote_shuts}
use les_traiteurs_engages_v.Workflow.Run.Soundness.{IsSound}
use les_traiteurs_engages_v.Workflow.Submission.{heal, submit_quote}
use les_traiteurs_engages_v.Workflow.Submission.FirstThree.{Ranked, Unsent, submit_quote_ranks}
use les_traiteurs_engages_v.Workflow.Submission.Outcomes.{IsSent, NotSent, submit_quote_outcomes}

shop-IsKeyed : IsKeyed (λ q. q.id) shop.quotes
shop-IsKeyed = omega arith

shop-IsSound : IsSound shop
unfolding count
shop-IsSound = record {
  keyed = omega arith;
  answered = (refl, (refl, (refl, (refl, tt))));
  ordered_once = omega arith;
  three = λ r. ground arith;
}

abbrev week : List Action
week =
    Action.submit 6 1 22 rival
    ∷ Action.accept 10 1 21 buyer
    ∷ Action.accept 10 1 22 buyer
    ∷ Action.deliver 31 kitchen
    ∷ []

run-IsSound_example : IsSound (run week shop)
run-IsSound_example = run-IsSound week shop shop-IsSound

accept_quote_settles_example :
    Ensures (λ e db'. db' ≡ shop) (Settled 10 1 21 buyer shop) (accept_quote 10 1 21 buyer shop)
accept_quote_settles_example = accept_quote_settles 10 1 21 buyer shop shop-IsKeyed

abbrev sold_order : Order
sold_order = new_order open_request sent_quote buyer shop

-- What happens after the acceptance: the loser is refused, and another request is approved.
abbrev afterwards : List Action
afterwards =
    Action.refuse 1 22 buyer none
    ∷ Action.submit 11 1 22 rival
    ∷ Action.approve 2
    ∷ Action.deliver 31 kitchen
    ∷ []

accept_quote_shuts_example :
    let sold = (accept_quote 10 1 21 buyer shop).1 in
    Rejects (accept_quote 11 1 22 buyer) quote_not_available (run afterwards sold)
    × Rejects (submit_quote 11 1 22 rival) quote_request_not_open (run afterwards sold)
unfolding accept_quote settle notify_users fetch find raise_if gets modify return ◌>>=◌ ◌>>◌
    update_first
accept_quote_shuts_example =
    accept_quote_shuts 10 11 1 21 22 buyer buyer rival shop (accept_quote 10 1 21 buyer shop).1
      sold_order afterwards shop-IsKeyed (omega arith) refl refl (refl, (refl, (refl, (refl, tt))))

submit_quote_outcomes_example :
    Ensures (NotSent 6 1 22 rival shop) (IsSent 6 1 22 rival shop) (submit_quote 6 1 22 rival shop)
submit_quote_outcomes_example = submit_quote_outcomes 6 1 22 rival shop

submit_quote_ranks_example :
    Ensures
      (λ e. Unsent 6 1 22 rival shop)
      (λ q. Ranked 6 1 22 rival shop)
      (submit_quote 6 1 22 rival shop)
submit_quote_ranks_example = submit_quote_ranks 6 1 22 rival shop

reject_quote_request_cancels_example :
    Ensures (λ e db'. db' ≡ shop) (λ u. Cancelled 2 none shop) (reject_quote_request 2 none shop)
reject_quote_request_cancels_example = reject_quote_request_cancels 2 none shop

approve_quote_request_fans_out_example :
    Ensures
      (λ e db'. (db' ≡ shop) × (find (λ r. r.id == 2) shop.requests ≡ none))
      (FannedOut 2 shop)
      (approve_quote_request 2 shop)
approve_quote_request_fans_out_example = approve_quote_request_fans_out 2 shop

-- The open request has its one sent quote, and room for two more.
accept_quote_sells : is_ok (accept_quote 10 1 21 buyer shop).0 ≡ true
unfolding accept_quote fetch find raise_if gets modify return ◌>>=◌ ◌>>◌
accept_quote_sells = refl

-- Day 16 is after the quote's last day.
accept_quote_expires : accept_quote 16 1 21 buyer shop ≡ (raise quote_expired, shop)
unfolding accept_quote fetch find raise_if ◌>>=◌ ◌>>◌
accept_quote_expires = refl

submit_quote_sells : is_ok (submit_quote 6 1 22 rival shop).0 ≡ true
unfolding submit_quote heal fetch find raise_if gets modify return count ◌>>=◌ ◌>>◌
submit_quote_sells = refl
