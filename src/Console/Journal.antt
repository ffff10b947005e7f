-- ===== src/Console/Journal.antt =====
-- Nothing that an administrator does goes unrecorded.
use les_traiteurs_engages_v.Audit.{audit_row}
use les_traiteurs_engages_v.Base.{
  Bool, Ensures, Ensures-map, Option, Result, String, [], arith, bind-Ensures, false, fetch-Ensures,
  inl, inr, modify-Ensures, modify_last-Ensures, none, ok, or_rollback, raise, refl, some,
  then-Ensures, true, ℕ, ◌+++◌, ◌++◌, ◌∷◌, ◌≡◌, ◌⊎◌,
}
use les_traiteurs_engages_v.Console.{
  ConsoleAction, ConsoleError, Transition, admin_order_transition, approve, console, decide_caterer,
  invalidate, not_found, or_not_found, order_transition, perform_console, qualification_approve,
  qualification_reject, reject, transition, transition_of, validate,
}
use les_traiteurs_engages_v.Console.Transitions.{moved, order_transition-Moved}
use les_traiteurs_engages_v.Models.{AuditLog, Database, User}
use les_traiteurs_engages_v.Notifications.Frame.{OnlyNotifies-SameRows}
use les_traiteurs_engages_v.Workflow.Approval.{approve_quote_request}
use les_traiteurs_engages_v.Workflow.Approval.Effects.{FannedOut, approve_quote_request_fans_out}
use les_traiteurs_engages_v.Workflow.Errors.{Session, WorkflowError}
use les_traiteurs_engages_v.Workflow.Refusal.{reject_quote_request}
use les_traiteurs_engages_v.Workflow.Refusal.Effects.{Cancelled, reject_quote_request_cancels}

-- What a call of the workflow guarantees, where its exceptions are turned into a 404.
pub or_not_found-Ensures :
    {A : Type 0} (Bad : WorkflowError → Database → Type 0) (Good : A → Database → Type 0)
    (m : Session A) (db : Database)
    → Ensures Bad Good (m db)
    → Ensures (λ e d. Unit {0}) Good (or_not_found m db)
unfolding or_not_found
or_not_found-Ensures Bad Good m db h = go (m db) h
  where
    go :
        (r : Result WorkflowError _ × Database)
        → Ensures Bad Good r
        → Ensures {E = ConsoleError}
            (λ e d. Unit {0})
            Good
            (elim r.0 [ ok a ↦ (ok a, r.1) | raise e ↦ (raise not_found, r.1) ])
    go (ok a, d) g = g
    go (raise e, d) g = tt

-- The row that the journal gets for an action, described by the action alone.
unfoldable pub entry : User → ConsoleAction → Option AuditLog
entry actor (approve request_id) =
    some (audit_row actor "quote_request.approve" "quote_request" request_id)
entry actor (reject request_id reason) =
    some (audit_row actor "quote_request.reject" "quote_request" request_id)
entry actor (validate caterer_id) = some (audit_row actor "caterer.validate" "caterer" caterer_id)
entry actor (invalidate caterer_id) =
    some (audit_row actor "caterer.invalidate" "caterer" caterer_id)
entry actor (transition none order_id) = none
entry actor (transition (some action) order_id) =
    some (audit_row actor ("order." +++ action) "order" order_id)

module _ (actor : User) (db : Database) where
  abbrev pub Journalled : ConsoleAction → Database → Type 0
  Journalled a d =
      (row : AuditLog) × (entry actor a ≡ some row) × (d.audit_logs ≡ db.audit_logs ++ row ∷ [])

  abbrev Ended : ConsoleError → Database → Type 0
  Ended e d = Unit {0}

  decide-Journalled :
      (a : ConsoleAction) (b : Bool) (action : String) (caterer_id : ℕ)
      → entry actor a ≡ some (audit_row actor action "caterer" caterer_id)
      → Ensures Ended (λ u. Journalled a) (decide_caterer b action actor caterer_id db)
  unfolding decide_caterer
  decide-Journalled a b action caterer_id e =
      fetch-Ensures Ended (λ u. Journalled a) _ _ _ _ (λ _. tt)
        λ c _.
          modify-Ensures Ended (λ u. Journalled a) _ _ _
            (modify_last-Ensures Ended (λ u. Journalled a) _ _ (_, e, refl))

  asked_action :
      (action : Option String) (order_id : ℕ) (t : Transition)
      → transition_of action ≡ some t
      → entry actor (transition action order_id)
        ≡ some (audit_row actor ("order." +++ t.action) "order" order_id)
  unfolding entry admin_order_transition
  asked_action none order_id t h = cc
  asked_action (some action) order_id t h = ground arith

  console-Journalled : (a : ConsoleAction) → Ensures Ended (λ u. Journalled a) (console actor a db)
  unfolding console qualification_approve qualification_reject entry
  console-Journalled (approve request_id) =
      bind-Ensures Ended (FannedOut request_id db) (λ u. Journalled (approve request_id)) _ _ db
        (or_not_found-Ensures _ _ (approve_quote_request request_id) db
          (approve_quote_request_fans_out request_id db))
        λ qrcs d f.
          modify_last-Ensures Ended (λ u. Journalled (approve request_id)) _ _
            (_, refl, rw f.audit_logs refl)
  console-Journalled (reject request_id reason) =
      then-Ensures Ended (λ u. Cancelled request_id reason db)
        (λ u. Journalled (reject request_id reason)) _ _ db
        (or_not_found-Ensures _ _ (reject_quote_request request_id reason) db
          (reject_quote_request_cancels request_id reason db))
        λ d f.
          modify_last-Ensures Ended (λ u. Journalled (reject request_id reason)) _ _
            (_, refl, rw f.audit_logs refl)
  console-Journalled (validate caterer_id) =
      decide-Journalled (validate caterer_id) true "caterer.validate" caterer_id refl
  console-Journalled (invalidate caterer_id) =
      decide-Journalled (invalidate caterer_id) false "caterer.invalidate" caterer_id refl
  console-Journalled (transition action order_id) =
      Ensures-map (order_transition actor action order_id db) (λ e d _. tt)
        (λ u d m. (
          _,
          asked_action action order_id m.transition m.asked,
          (OnlyNotifies-SameRows (moved actor m.transition order_id db) d m.written).audit_logs,
        ))
        (order_transition-Moved actor action order_id db)

  settled_post :
      (a : ConsoleAction) (r : Result ConsoleError (Unit {0}) × Database)
      → Ensures Ended (λ u. Journalled a) r
      → (or_rollback db r ≡ db) ⊎ Journalled a (or_rollback db r)
  settled_post a (ok u, d) h = inr h
  settled_post a (raise e, d) h = inl refl

-- After any post of an administrator's either nothing has changed at all, or the journal has exactly
-- one row more, which names the administrator, the action and the row acted on.
pub perform_console-Journalled :
    (actor : User) (a : ConsoleAction) (db : Database)
    → (perform_console actor a db ≡ db) ⊎ Journalled actor db a (perform_console actor a db)
unfolding perform_console
perform_console-Journalled actor a db =
    settled_post actor db a (console actor a db) (console-Journalled actor db a)
