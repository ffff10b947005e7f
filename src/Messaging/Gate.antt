-- ===== src/Messaging/Gate.antt =====
-- Whom the gate of `send_message` lets through.
use les_traiteurs_engages_v.Base.{
  Ensures-map, inr, inl, Bool-cases, Bool, Ensures, List, Mem, Mem-of_exists, Option, String, arith,
  false, gets-Ensures, if◌then◌else◌, not, raise_if-Ensures, refl, return, return-Ensures, true, ℕ,
  ◌||◌, ◌≡◌, ◌⊎◌,
}
use les_traiteurs_engages_v.Messaging.{reaches, is_support, MessageError, check_gate, gate_contexts}
use les_traiteurs_engages_v.Models.{Database, User, is_super_admin}

-- The business relationship behind a message: a context of it, or of its thread, in which the
-- recipient may be reached.
abbrev Related : User → User → List (Option ℕ × Option ℕ) → Database → Type 0
Related user target contexts db =
    (is_super_admin target.role ≡ false)
    × ((c : Option ℕ × Option ℕ) × Mem c contexts × (reaches user target.id db c ≡ true))

check_gate-Ensures :
    (user target : User) (order_id quote_request_id existing : Option ℕ) (db : Database)
    → Ensures
        (λ e s. s ≡ db)
        (λ u s.
          (s ≡ db) × Related user target (gate_contexts order_id quote_request_id existing db) db)
        (check_gate user target order_id quote_request_id existing db)
unfolding check_gate
check_gate-Ensures user target order_id quote_request_id existing db =
    raise_if-Ensures Bad Good _ _ _ _ (λ _. refl)
      λ ordinary. gets-Ensures Bad Good _ _ _ (
        raise_if-Ensures Bad Good _ _ _ _ (λ _. refl)
          λ some_context. gets-Ensures Bad Good _ _ _ (
            raise_if-Ensures Bad Good _ _ _ _ (λ _. refl)
              λ reached. return-Ensures Bad Good tt db (
                refl,
                (
                  ordinary,
                  Mem-of_exists (reaches user target.id db)
                      (gate_contexts order_id quote_request_id existing db) (unnot _ reached),
                ),
              )))
  where
    Bad : MessageError → Database → Type 0
    Bad e s = s ≡ db

    Good : Unit {0} → Database → Type 0
    Good u s =
        (s ≡ db) × Related user target (gate_contexts order_id quote_request_id existing db) db

    unnot : (b : Bool) → not b ≡ false → b ≡ true
    unnot b h = ground (arith, h)

-- Who may send a message: an administrator of the platform, anyone to a support inbox, and otherwise
-- a user with a business relationship.
abbrev pub Licensed :
    (String → String) → List String → User → User → List (Option ℕ × Option ℕ) → Database → Type 0
Licensed lower support_emails user target contexts db =
    (is_super_admin user.role ≡ true)
    ⊎ ((is_support lower support_emails target ≡ true) ⊎ Related user target contexts db)

pub gate-Ensures :
    (lower : String → String) (support_emails : List String) (user target : User)
    (order_id quote_request_id existing : Option ℕ) (db : Database)
    → Ensures
        (λ e s. s ≡ db)
        (λ u s.
          (s ≡ db)
          × Licensed lower support_emails user target
              (gate_contexts order_id quote_request_id existing db)
              db)
        ((if is_super_admin user.role || is_support lower support_emails target
            then return tt
            else check_gate user target order_id quote_request_id existing)
          db)
unfolding return
gate-Ensures lower support_emails user target order_id quote_request_id existing db =
    elim (Bool-cases (is_super_admin user.role)) [
      | inl admin ↦ rw admin (refl, inl refl)
      | inr ordinary ↦ elim (Bool-cases (is_support lower support_emails target)) [
        | inl inbox ↦ rw ordinary (rw inbox (refl, inr (inl refl)))
        | inr other ↦ rw ordinary (
            rw other (
              Ensures-map (check_gate user target order_id quote_request_id existing db)
                (λ e s h. h) (λ u s h. (h.0, inr (inr h.1)))
                (check_gate-Ensures user target order_id quote_request_id existing db)))
      ]
    ]
