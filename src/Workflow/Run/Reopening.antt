-- ===== src/Workflow/Run/Reopening.antt =====
-- After an acceptance, until the request is approved again.
use les_traiteurs_engages_v.Base.{
  sym, some_inj, ==_iff, All, Bool, Bool-cases, Ensures, Ensures-map, IsKeyed, List, [], ap, arith,
  false, find, inl, inr, ok, or_commit-holds, or_rollback, or_rollback-holds, refl, some, subst,
  true, update_first, ℕ, ◌==◌, ◌∷◌, ◌≡◌,
}
use les_traiteurs_engages_v.Models.{
  Caterer, Database, Order, QuoteRequest, QuoteRequestStatus, User, is_sent_to_caterers,
}
use les_traiteurs_engages_v.Notifications.Frame.{OnlyNotifies-SameRows}
use les_traiteurs_engages_v.Workflow.Acceptance.{accept_quote, settle}
use les_traiteurs_engages_v.Workflow.Acceptance.Branches.{accept_quote-Ensures}
use les_traiteurs_engages_v.Workflow.Acceptance.Closed.{
  Rejects, accept_quote_closes, accept_quote_not_open, submit_quote_not_open,
}
use les_traiteurs_engages_v.Workflow.Approval.{approve_quote_request}
use les_traiteurs_engages_v.Workflow.Approval.Effects.{approve_quote_request_fans_out}
use les_traiteurs_engages_v.Workflow.Delivering.{mark_delivered}
use les_traiteurs_engages_v.Workflow.Delivering.Effects.{mark_delivered_delivers}
use les_traiteurs_engages_v.Workflow.Errors.{
  Session, is_own_request, quote_not_available, quote_request_not_open, with_status,
}
use les_traiteurs_engages_v.Workflow.Refusal.{cancel, refuse_quote, reject_quote_request}
use les_traiteurs_engages_v.Workflow.Refusal.Effects.{
  refuse_quote_turns, reject_quote_request_cancels,
}
use les_traiteurs_engages_v.Workflow.Run.{Action, commits_on, perform, run}
use les_traiteurs_engages_v.Workflow.Submission.{submit_quote}
use les_traiteurs_engages_v.Workflow.Submission.Outcomes.{submit_quote_outcomes}

-- The action approves the request.
abbrev pub is_approval_of : ℕ → Action → Bool
is_approval_of request_id (Action.approve other) = other == request_id
is_approval_of request_id (Action.accept _ _ _ _) = false
is_approval_of request_id (Action.refuse _ _ _ _) = false
is_approval_of request_id (Action.reject _ _) = false
is_approval_of request_id (Action.submit _ _ _ _) = false
is_approval_of request_id (Action.deliver _ _) = false

-- The first row that meets `u` is there, and is not open to quotes.
abbrev IsShut : (QuoteRequest → Bool) → List QuoteRequest → Type 0
IsShut u rs = (r : QuoteRequest) × (find u rs ≡ some r) × (is_sent_to_caterers r.status ≡ false)

update_first-IsShut :
    (u t : QuoteRequest → Bool) (f : QuoteRequest → QuoteRequest) (rs : List QuoteRequest)
    → ((x : QuoteRequest) → u (f x) ≡ u x)
    → ((x : QuoteRequest) → u x ≡ true → t x ≡ true → is_sent_to_caterers (f x).status ≡ false)
    → IsShut u rs
    → IsShut u (update_first t f rs)
unfolding update_first find
update_first-IsShut u t f [] same shut (r, found, h) = cc
update_first-IsShut u t f (x ∷ xs) same shut (r, found, h) = elim (Bool-cases (u x)) [
  | inl mine ↦ elim (Bool-cases (t x)) [
    | inl y ↦ (f x, rw (y, same x, mine) refl, shut x mine y)
    | inr n ↦ (x, rw (n, mine) refl, rw (some_inj (rw mine at found)) h)
  ]
  | inr other ↦
      let rest = update_first-IsShut u t f xs same shut (r, rw other at found, h) in
      elim (Bool-cases (t x)) [
        | inl y ↦ (r, rw (y, same x, other) (rw other at found), h)
        | inr n ↦ (rest.0, rw (n, other) rest.1, rest.2)
      ]
]

-- For a condition on rows that reads the identifier and the company, and asks for this identifier.
module _ (request_id : ℕ) (u : QuoteRequest → Bool)
    (reads : (f : QuoteRequest → QuoteRequest)
      → ((x : QuoteRequest) → (f x).id ≡ x.id)
      → ((x : QuoteRequest) → (f x).company_id ≡ x.company_id)
      → (x : QuoteRequest) → u (f x) ≡ u x)
    (named : (x : QuoteRequest) → u x ≡ true → x.id ≡ request_id) where
  abbrev StaysShut : Database → Type 0
  StaysShut d = IsShut u d.requests

  rolled_back :
      {A : Type 0} (call : Session A) (Good : A → Database → Type 0) (db : Database)
      → StaysShut db
      → ((a : A) (d : Database) → Good a d → StaysShut d)
      → Ensures (λ e d. Unit {0}) Good (call db)
      → StaysShut (or_rollback db (call db))
  rolled_back call Good db s keep h =
      or_rollback-holds StaysShut db (call db) s (Ensures-map (call db) (λ e d _. tt) keep h)

  submit-StaysShut :
      (now qr_id quote_id : ℕ) (caterer : Caterer) (db : Database)
      → StaysShut db
      → Ensures
          (λ e d. StaysShut d)
          (λ q d. StaysShut d)
          (submit_quote now qr_id quote_id caterer db)
  submit-StaysShut now qr_id quote_id caterer db s =
      Ensures-map (submit_quote now qr_id quote_id caterer db)
        (λ e d r. elim r [
          | inl same ↦ subst StaysShut (sym same) s
          | inr (_, full, closed) ↦ subst (IsShut u) (sym (ap (λ d. d.requests) closed)) s
        ])
        (λ q d i. subst (IsShut u) (sym (ap (λ d. d.requests) i.rest)) s)
        (submit_quote_outcomes now qr_id quote_id caterer db)

  perform-StaysShut :
      (a : Action) (db : Database)
      → is_approval_of request_id a ≡ false
      → StaysShut db
      → StaysShut (perform a db)
  unfolding perform settle
  perform-StaysShut (Action.accept today qr_id quote_id user) db h s =
      rolled_back (accept_quote today qr_id quote_id user) _ db s
        (λ o d a.
          rw
            (OnlyNotifies-SameRows (settle qr_id quote_id user a.request a.quote db) d
              a.written).requests
            (update_first-IsShut u _ (with_status QuoteRequestStatus.completed) db.requests
              (reads _ (λ x. refl) (λ x. refl)) (λ x mine y. refl) s))
        (Ensures-map (accept_quote today qr_id quote_id user db) (λ e d _. tt) (λ o d a. a)
          (accept_quote-Ensures today qr_id quote_id user db))
  perform-StaysShut (Action.refuse qr_id quote_id user reason) db h s =
      rolled_back (refuse_quote qr_id quote_id user reason) _ db s
        (λ _ d t. elim t.rows [
          | inl same ↦ rw same s
          | inr turned ↦ rw turned (
              update_first-IsShut u _ (with_status QuoteRequestStatus.quotes_refused) db.requests
                (reads _ (λ x. refl) (λ x. refl)) (λ x mine y. refl) s)
        ])
        (Ensures-map (refuse_quote qr_id quote_id user reason db) (λ e d _. tt) (λ o d a. a)
          (refuse_quote_turns qr_id quote_id user reason db))
  perform-StaysShut (Action.approve qr_id) db h s =
      rolled_back (approve_quote_request qr_id) _ db s
        (λ _ d a. elim a.rows [
          | inl same ↦ rw same s
          | inr opened ↦ rw opened (
              update_first-IsShut u _ (with_status QuoteRequestStatus.sent_to_caterers) db.requests
                (reads _ (λ x. refl) (λ x. refl))
                (λ x mine y. absurd (another qr_id x h (named x mine) y)) s)
        ])
        (Ensures-map (approve_quote_request qr_id db) (λ e d _. tt) (λ o d a. a)
          (approve_quote_request_fans_out qr_id db))
    where
      another :
          (qr_id : ℕ) (x : QuoteRequest)
          → (qr_id == request_id) ≡ false
          → x.id ≡ request_id
          → (x.id == qr_id) ≡ true
          → ⊥
      another qr_id x h e y = ground (arith, h, e, y)
  perform-StaysShut (Action.reject qr_id reason) db h s =
      rolled_back (reject_quote_request qr_id reason) _ db s
        (λ _ d c. rw c.requests (
          update_first-IsShut u _ (cancel reason) db.requests (reads _ (λ x. refl) (λ x. refl))
            (λ x mine y. refl) s))
        (Ensures-map (reject_quote_request qr_id reason db) (λ e d _. tt) (λ o d a. a)
          (reject_quote_request_cancels qr_id reason db))
  perform-StaysShut (Action.submit now qr_id quote_id caterer) db h s =
      or_commit-holds StaysShut commits_on db (submit_quote now qr_id quote_id caterer db) s
        (submit-StaysShut now qr_id quote_id caterer db s)
  perform-StaysShut (Action.deliver order_id caterer) db h s =
      rolled_back (mark_delivered order_id caterer) _ db s (λ o d m. rw m.requests s)
        (Ensures-map (mark_delivered order_id caterer db) (λ e d _. tt) (λ o d a. a)
          (mark_delivered_delivers order_id caterer db))

  run-StaysShut :
      (actions : List Action) (db : Database)
      → All (λ a. is_approval_of request_id a ≡ false) actions
      → StaysShut db
      → StaysShut (run actions db)
  unfolding run
  run-StaysShut [] db h s = s
  run-StaysShut (a ∷ rest) db h s =
      run-StaysShut rest (perform a db) h.1 (perform-StaysShut a db h.0 s)

-- Once a quote of a request is accepted, and whatever transactions of the workflow follow, as long as
-- none of them approves that request again: a further call of `accept_quote` on the request, whoever
-- of the company makes it and whichever quote it names, and a call of `submit_quote` on it by any
-- caterer raise and change nothing. So the second of two racing acceptances is refused. (The primary
-- keys hold when the quote is accepted.)
pub accept_quote_shuts :
    (today later request_id quote_id other : ℕ) (user colleague : User) (caterer : Caterer)
    (db db' : Database) (order : Order) (actions : List Action)
    → IsKeyed (λ q. q.id) db.quotes
    → IsKeyed (λ r. r.id) db'.requests
    → colleague.company_id ≡ user.company_id
    → accept_quote today request_id quote_id user db ≡ (ok order, db')
    → All (λ a. is_approval_of request_id a ≡ false) actions
    → Rejects (accept_quote later request_id other colleague) quote_not_available (run actions db')
      × Rejects
          (submit_quote later request_id other caterer)
          quote_request_not_open
          (run actions db')
accept_quote_shuts today later request_id quote_id other user colleague caterer db db' order actions
      keyed keyed' same e h =
    let (r, mine, by_id, shut) =
      accept_quote_closes today request_id quote_id user colleague db db' order keyed keyed' same
        e in
    let (r1, found1, shut1) =
      run-StaysShut request_id (is_own_request request_id colleague) (λ f i c x. rw (i x, c x) refl)
        (λ x y. ground arith) actions db' h (r, mine, shut) in
    let (r2, found2, shut2) =
      run-StaysShut request_id (λ r. r.id == request_id) (λ f i c x. rw (i x) refl)
        (λ x y. (==_iff _ _).0 y) actions db' h (r, by_id, shut) in
    (
      accept_quote_not_open later request_id other colleague (run actions db') r1 found1 shut1,
      submit_quote_not_open later request_id other caterer (run actions db') r2 found2 shut2,
    )
