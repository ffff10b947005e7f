-- ===== src/Base/Outcome.antt =====
-- A service call on a session: the exception or the value, and the session's state after it. What
-- was written before an exception stays written until the caller rolls back.
use mathlib.Core.Bool.{Bool, true, false}
use mathlib.Core.Option.{Option, none, some}
use mathlib.Core.Path.{◌≡◌, refl, ◌∙◌}
use mathlib.Core.Logic.{inl, inr}
use les_traiteurs_engages_v.Base.Tests.{if◌then◌else◌, Bool-cases, Option-cases}

pub data Result (E A : Type 0) : Type 0 where
  ok : A → Result E A
  raise : E → Result E A

abbrev pub Call : Type 0 → Type 0 → Type 0 → Type 0
Call S E A = S → Result E A × S

module _ {S E : Type 0} where
  infixl 5 ◌>>=◌ ◌>>◌
  unfoldable pub ◌>>=◌ : {A B : Type 0} → Call S E A → (A → Call S E B) → Call S E B
  ◌>>=◌ m f s = let (r, s') = m s in elim r [ ok a ↦ f a s' | raise e ↦ (raise e, s') ]

  unfoldable pub ◌>>◌ : {B : Type 0} → Call S E (Unit {0}) → Call S E B → Call S E B
  m >> k = m >>= λ _. k

  unfoldable pub return : {A : Type 0} → A → Call S E A
  return a s = (ok a, s)

  unfoldable pub fail : {A : Type 0} → E → Call S E A
  fail e s = (raise e, s)

  -- `if c: raise e`
  unfoldable pub raise_if : Bool → E → Call S E (Unit {0})
  raise_if c e s = (if c then raise e else ok tt, s)

  -- A query whose missing row is an error: `if not row: raise e`.
  unfoldable pub fetch : {A : Type 0} → (S → Option A) → E → Call S E A
  fetch q e s = (elim (q s) [ none ↦ raise e | some a ↦ ok a ], s)

  unfoldable pub gets : {A : Type 0} → (S → A) → Call S E A
  gets f s = (ok (f s), s)

  unfoldable pub modify : (S → S) → Call S E (Unit {0})
  modify f s = (ok tt, f s)

-- What an exception or a value guarantees about the state that the call leaves.
abbrev pub Ensures :
    {S E A : Type 0} → (E → S → Type 0) → (A → S → Type 0) → Result E A × S → Type 0
Ensures Bad Good (ok a, s) = Good a s
Ensures Bad Good (raise e, s) = Bad e s

-- The rules by which a proof about `Ensures` follows a call from step to step.
module _ {S E : Type 0} {B : Type 0} (Bad : E → S → Type 0) (Good : B → S → Type 0) where
  pub fetch-Ensures :
      {A : Type 0} (q : S → Option A) (e : E) (k : A → Call S E B) (s : S)
      → (q s ≡ none → Bad e s)
      → ((a : A) → q s ≡ some a → Ensures Bad Good (k a s))
      → Ensures Bad Good ((fetch q e >>= k) s)
  unfolding ◌>>=◌ fetch
  fetch-Ensures q e k s bad good = elim (Option-cases (q s)) [
    | inl h ↦ rw h (bad h)
    | inr (a, h) ↦ rw h (good a h)
  ]

  pub raise_if-Ensures :
      (c : Bool) (e : E) (k : Call S E B) (s : S)
      → (c ≡ true → Bad e s)
      → (c ≡ false → Ensures Bad Good (k s))
      → Ensures Bad Good ((raise_if c e >> k) s)
  unfolding ◌>>◌ ◌>>=◌ raise_if
  raise_if-Ensures c e k s bad good = elim (Bool-cases c) [
    | inl h ↦ rw h (bad h)
    | inr h ↦ rw h (good h)
  ]

  pub gets-Ensures :
      {A : Type 0} (f : S → A) (k : A → Call S E B) (s : S)
      → Ensures Bad Good (k (f s) s)
      → Ensures Bad Good ((gets f >>= k) s)
  unfolding ◌>>=◌ gets
  gets-Ensures f k s h = h

  pub modify-Ensures :
      (f : S → S) (k : Call S E B) (s : S)
      → Ensures Bad Good (k (f s))
      → Ensures Bad Good ((modify f >> k) s)
  unfolding ◌>>◌ ◌>>=◌ modify
  modify-Ensures f k s h = h

  pub return-Ensures : (b : B) (s : S) → Good b s → Ensures Bad Good (return b s)
  unfolding return
  return-Ensures b s h = h

-- A call that ends with a write.
pub modify_last-Ensures :
    {S E : Type 0} (Bad : E → S → Type 0) (Good : Unit {0} → S → Type 0) (f : S → S) (s : S)
    → Good tt (f s)
    → Ensures Bad Good (modify f s)
unfolding modify
modify_last-Ensures Bad Good f s h = h

-- A weaker guarantee.
pub Ensures-map :
    {S E A : Type 0} {Bad Bad' : E → S → Type 0} {Good Good' : A → S → Type 0} (r : Result E A × S)
    → ((e : E) (s : S) → Bad e s → Bad' e s)
    → ((a : A) (s : S) → Good a s → Good' a s)
    → Ensures Bad Good r
    → Ensures Bad' Good' r
Ensures-map (ok a, s) b g h = g a s h
Ensures-map (raise e, s) b g h = b e s h

-- What both ends guarantee holds of the state after the call.
pub Ensures-state :
    {S E A : Type 0} (P : S → Type 0) (r : Result E A × S)
    → Ensures (λ e s. P s) (λ a s. P s) r
    → P r.1
Ensures-state P (ok a, s) h = h
Ensures-state P (raise e, s) h = h

-- The same steps as equations, where the outcome of the query or of the test is known.
module _ {S E B : Type 0} where
  pub fetch-some :
      {A : Type 0} (q : S → Option A) (e : E) (k : A → Call S E B) (s : S) (a : A)
      → q s ≡ some a
      → (fetch q e >>= k) s ≡ k a s
  unfolding ◌>>=◌ fetch
  fetch-some q e k s a h = rw h

  pub fetch-none :
      {A : Type 0} (q : S → Option A) (e : E) (k : A → Call S E B) (s : S)
      → q s ≡ none
      → (fetch q e >>= k) s ≡ (raise e, s)
  unfolding ◌>>=◌ fetch
  fetch-none q e k s h = rw h

  pub raise_if-true :
      (c : Bool) (e : E) (k : Call S E B) (s : S) → c ≡ true → (raise_if c e >> k) s ≡ (raise e, s)
  unfolding ◌>>◌ ◌>>=◌ raise_if
  raise_if-true c e k s h = rw h

  pub raise_if-false :
      (c : Bool) (e : E) (k : Call S E B) (s : S) → c ≡ false → (raise_if c e >> k) s ≡ k s
  unfolding ◌>>◌ ◌>>=◌ raise_if
  raise_if-false c e k s h = rw h

-- The same, in the order of the code: a step that goes through leaves the rest to be run.
module _ {S E B : Type 0} {r : Result E B × S} where
  pub fetch-then :
      {A : Type 0} (q : S → Option A) (e : E) (k : A → Call S E B) (s : S) (a : A)
      → q s ≡ some a
      → k a s ≡ r
      → (fetch q e >>= k) s ≡ r
  fetch-then q e k s a h rest = fetch-some q e k s a h ∙ rest

  pub raise_if-then :
      (c : Bool) (e : E) (k : Call S E B) (s : S) → c ≡ false → k s ≡ r → (raise_if c e >> k) s ≡ r
  raise_if-then c e k s h rest = raise_if-false c e k s h ∙ rest

  pub modify-then : (f : S → S) (k : Call S E B) (s : S) → k (f s) ≡ r → (modify f >> k) s ≡ r
  unfolding ◌>>◌ ◌>>=◌ modify
  modify-then f k s rest = rest

  pub gets-then :
      {A : Type 0} (f : S → A) (k : A → Call S E B) (s : S) → k (f s) s ≡ r → (gets f >>= k) s ≡ r
  unfolding ◌>>=◌ gets
  gets-then f k s rest = rest

pub return-ok : {S E A : Type 0} (a : A) (s : S) → return {S = S} {E = E} a s ≡ (ok a, s)
unfolding return
return-ok a s = refl

-- A caller that rolls back after an exception, and one that commits after some.
abbrev pub or_rollback : {S E A : Type 0} → S → Result E A × S → S
or_rollback before (ok a, after) = after
or_rollback before (raise e, after) = before

abbrev pub or_commit : {S E A : Type 0} → (E → Bool) → S → Result E A × S → S
or_commit keeps before (ok a, after) = after
or_commit keeps before (raise e, after) = if keeps e then after else before

pub or_rollback-holds :
    {S E A : Type 0} (P : S → Type 0) (before : S) (r : Result E A × S)
    → P before
    → Ensures (λ e s. Unit {0}) (λ a s. P s) r
    → P (or_rollback before r)
or_rollback-holds P before (ok a, after) h g = g
or_rollback-holds P before (raise e, after) h g = h

pub or_commit-holds :
    {S E A : Type 0} (P : S → Type 0) (keeps : E → Bool) (before : S) (r : Result E A × S)
    → P before
    → Ensures (λ e s. P s) (λ a s. P s) r
    → P (or_commit keeps before r)
or_commit-holds P keeps before (ok a, after) h g = g
or_commit-holds P keeps before (raise e, after) h g =
    elim (keeps e) as (λ b. P (if b then after else before)) [ true ↦ g | false ↦ h ]

-- A call followed by another, through what the first one guarantees.
pub bind-Ensures :
    {S E A B : Type 0} (Bad : E → S → Type 0) (Mid : A → S → Type 0) (Good : B → S → Type 0)
    (m : Call S E A) (k : A → Call S E B) (s : S)
    → Ensures Bad Mid (m s)
    → ((a : A) (s' : S) → Mid a s' → Ensures Bad Good (k a s'))
    → Ensures Bad Good ((m >>= k) s)
unfolding ◌>>=◌
bind-Ensures Bad Mid Good m k s h step = go (m s) h
  where
    go :
        (r : Result _ _ × _)
        → Ensures Bad Mid r
        → Ensures Bad Good (elim r.0 [ ok a ↦ k a r.1 | raise e ↦ (raise e, r.1) ])
    go (ok a, s') g = step a s' g
    go (raise e, s') g = g

pub then-Ensures :
    {S E B : Type 0} (Bad : E → S → Type 0) (Mid : Unit {0} → S → Type 0) (Good : B → S → Type 0)
    (m : Call S E (Unit {0})) (k : Call S E B) (s : S)
    → Ensures Bad Mid (m s)
    → ((s' : S) → Mid tt s' → Ensures Bad Good (k s'))
    → Ensures Bad Good ((m >> k) s)
unfolding ◌>>◌
then-Ensures Bad Mid Good m k s h step =
    bind-Ensures Bad Mid Good m (λ _. k) s h (λ u s' mid. step s' mid)
