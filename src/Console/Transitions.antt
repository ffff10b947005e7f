-- ===== src/Console/Transitions.antt =====
-- What a transition of an order by an administrator does.
use les_traiteurs_engages_v.Audit.{log_admin_action}
use les_traiteurs_engages_v.Base.{
  Ensures, Ensures-map, Option, String, arith, false, fetch-Ensures, find-update_first,
  if◌then◌else◌, inl, inr, modify-Ensures, modify_last-Ensures, none, raise_if-Ensures, refl, some,
  subst, sym, true, update_first, ℕ, ◌+++◌, ◌==◌, ◌≡◌, ◌⊎◌,
}
use les_traiteurs_engages_v.Console.{
  ConsoleError, Transition, admin_order_transition, announce_transition, missing_relation,
  order_transition, same_status, transition_of, with_order_status,
}
use les_traiteurs_engages_v.Models.{Database, Order, OrderStatus, User, is_paid, order_by}
use les_traiteurs_engages_v.Notifications.Frame.{
  OnlyNotifies, OnlyNotifies-SameRows, OnlyNotifies-trans, notify_users-OnlyNotifies,
}
use les_traiteurs_engages_v.Reviews.{notify_review_invite}
use les_traiteurs_engages_v.Webhook.Frame.{notify_review_invite-OnlyNotifies}

same_status-eq : (s t : OrderStatus) → same_status s t ≡ true → s ≡ t
same_status-eq OrderStatus.confirmed t h = ground arith
same_status-eq OrderStatus.delivered t h = ground arith
same_status-eq OrderStatus.invoicing t h = ground arith
same_status-eq OrderStatus.invoiced t h = ground arith
same_status-eq OrderStatus.paid t h = ground arith
same_status-eq OrderStatus.disputed t h = ground arith

-- The two transitions: a delivered order is invoiced, an invoiced one is paid.
abbrev pub IsStep : OrderStatus → OrderStatus → Type 0
IsStep s t =
    ((s ≡ OrderStatus.delivered) × (t ≡ OrderStatus.invoiced))
    ⊎ ((s ≡ OrderStatus.invoiced) × (t ≡ OrderStatus.paid))

transition_of-IsStep :
    (action : Option String) (t : Transition)
    → transition_of action ≡ some t
    → IsStep t.expected t.target
unfolding admin_order_transition
transition_of-IsStep none t h = cc
transition_of-IsStep (some action) t h = ground arith

-- The writes before anyone is told.
abbrev pub moved : User → Transition → ℕ → Database → Database
moved actor t order_id db =
    log_admin_action actor ("order." +++ t.action) "order" order_id (record db {
      orders = update_first (λ o. o.id == order_id) (with_order_status t.target) db.orders;
    })

module _ (actor : User) (action : Option String) (order_id : ℕ) (db : Database) where
  -- One order goes one step further; beyond `moved` only notifications are written.
  pub record Moved (db' : Database) : Type 0 where
    pub transition : Transition
    pub asked : transition_of action ≡ some transition
    pub order : Order
    pub found : order_by order_id db ≡ some order
    pub step : IsStep order.status transition.target
    pub reached : order_by order_id db' ≡ some (with_order_status transition.target order)
    pub written : OnlyNotifies (moved actor transition order_id db) db'

  abbrev pub Unmoved : ConsoleError → Database → Type 0
  Unmoved e db' = (db' ≡ db) ⊎ (e ≡ missing_relation)

  announced :
      (t : Transition) (order : Order) (d d' : Database)
      → OnlyNotifies d d'
      → OnlyNotifies d (
          if is_paid t.target
          then notify_review_invite (with_order_status t.target order) d'
          else d')
  announced t order d d' h =
      elim (is_paid t.target)
        as (λ b.
          OnlyNotifies d
            (if b then notify_review_invite (with_order_status t.target order) d' else d')) [
              | true ↦
                  OnlyNotifies-trans d d' _ h
                    (notify_review_invite-OnlyNotifies (with_order_status t.target order) d')
              | false ↦ h
            ]

  announce-Ensures :
      (t : Transition) (order : Order) (d : Database)
      → Ensures
          (λ e d'. e ≡ missing_relation)
          (λ u d'. OnlyNotifies d d')
          (announce_transition t order d)
  unfolding announce_transition
  announce-Ensures t order d =
      let Bad = λ (e : ConsoleError) (d' : Database). e ≡ missing_relation in
      let Good = λ (u : Unit {0}) (d' : Database). OnlyNotifies d d' in
      fetch-Ensures Bad Good _ _ _ _ (λ _. refl)
        λ quote q.
          fetch-Ensures Bad Good _ _ _ _ (λ _. refl)
            λ qr r. modify-Ensures Bad Good _ _ _ (
              modify-Ensures Bad Good _ _ _ (
                modify_last-Ensures Bad Good _ _ (
                  announced t order d _ (
                    OnlyNotifies-trans d _ _ (notify_users-OnlyNotifies _ _ d)
                      (notify_users-OnlyNotifies _ _ _)))))

  reached_after :
      (t : Transition) (order : Order) (d' : Database)
      → order_by order_id db ≡ some order
      → OnlyNotifies (moved actor t order_id db) d'
      → order_by order_id d' ≡ some (with_order_status t.target order)
  reached_after t order d' found frame =
      rw (OnlyNotifies-SameRows (moved actor t order_id db) d' frame).orders (
        find-update_first (λ o. o.id == order_id) (with_order_status t.target) db.orders order
          (λ o e. e) found)

  -- A post that ends in `abort` or with a message changes nothing. One that succeeds takes the order
  -- from delivered to invoiced or from invoiced to paid, as the action says, appends one audit row of
  -- the administrator's, and writes nothing else but notifications. The only other end is the
  -- exception at a missing quote or request.
  pub order_transition-Moved :
      Ensures Unmoved (λ u. Moved) (order_transition actor action order_id db)
  unfolding order_transition
  order_transition-Moved =
      let Good = λ (u : Unit {0}) (d : Database). Moved d in
      fetch-Ensures Unmoved Good _ _ _ _ (λ _. inl refl)
        λ t asked.
          fetch-Ensures Unmoved Good _ _ _ _ (λ _. inl refl)
            λ order found.
              raise_if-Ensures Unmoved Good _ _ _ _ (λ _. inl refl)
                λ same. modify-Ensures Unmoved Good _ _ _ (
                  modify-Ensures Unmoved Good _ _ _ (
                    Ensures-map (announce_transition t order (moved actor t order_id db))
                      (λ e d h. inr h)
                      (λ u d frame. record {
                        transition = t;
                        asked = asked;
                        order = order;
                        found = found;
                        step =
                            subst (λ s. IsStep s t.target)
                              (sym (same_status-eq order.status t.expected (ground arith)))
                              (transition_of-IsStep action t asked);
                        reached = reached_after t order d found frame;
                        written = frame;
                      })
                      (announce-Ensures t order (moved actor t order_id db))))
