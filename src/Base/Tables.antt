-- ===== src/Base/Tables.antt =====
-- A database table as the list of its rows in the order of insertion, with the queries and the
-- updates that the services make. A row that the session has fetched is the first that meets the
-- query's condition, and writing to it is `update_first` with that condition.
use Prim.Native.Nat.{ℕ, suc}
use mathlib.Core.Bool.{Bool, false, ◌||◌}
use mathlib.Core.Option.{Option, none, some}
use mathlib.Core.List.{List, [], ◌∷◌}
use les_traiteurs_engages_v.Base.Tests.{if◌then◌else◌}

module _ {ℓ} {A : Type ℓ} where
  abbrev pub length : List A → ℕ
  length [] = 0
  length (x ∷ xs) = suc (length xs)

  -- `select(T).where(t)`, then `.scalar()` or `scalar_one_or_none()`.
  unfoldable pub find : (A → Bool) → List A → Option A
  find t [] = none
  find t (x ∷ xs) = if t x then some x else find t xs

  -- `select(T).where(t)`, then `.scalars().all()`.
  unfoldable pub select : (A → Bool) → List A → List A
  select t [] = []
  select t (x ∷ xs) = let rest = select t xs in if t x then x ∷ rest else rest

  -- `select(func.count(T.id)).where(t)`.
  unfoldable pub count : (A → Bool) → List A → ℕ
  count t [] = 0
  count t (x ∷ xs) = let rest = count t xs in if t x then suc rest else rest

  -- Whether some row meets the condition.
  unfoldable pub exists : (A → Bool) → List A → Bool
  exists t [] = false
  exists t (x ∷ xs) = t x || exists t xs

  -- Attributes of the one row that `find t` returns are written.
  unfoldable pub update_first : (A → Bool) → (A → A) → List A → List A
  update_first t f [] = []
  update_first t f (x ∷ xs) = if t x then f x ∷ xs else x ∷ update_first t f xs

  -- Attributes of every row that `select t` returns are written.
  unfoldable pub update_where : (A → Bool) → (A → A) → List A → List A
  update_where t f [] = []
  update_where t f (x ∷ xs) = (if t x then f x else x) ∷ update_where t f xs

  -- The one row that `find t` returns is deleted.
  unfoldable pub delete_first : (A → Bool) → List A → List A
  delete_first t [] = []
  delete_first t (x ∷ xs) = if t x then xs else x ∷ delete_first t xs
