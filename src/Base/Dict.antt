-- ===== src/Base/Dict.antt =====
-- A Python dict in its order of insertion, and the update of one entry from a default.
use Prim.Native.Nat.{ℕ, ◌+◌}
use mathlib.Core.Path.{◌≡◌}
use mathlib.Core.Bool.{Bool}
use mathlib.Core.List.{List, [], ◌∷◌}
use native.Mathlib.Omega.{arith}
use les_traiteurs_engages_v.Base.Tests.{if◌then◌else◌}

module _ {K V : Type 0} (eq : K → K → Bool) where
  -- `d[k] = f(d.get(k, default))`.
  unfoldable pub upsert : K → (V → V) → V → List (K × V) → List (K × V)
  upsert k f v [] = (k, f v) ∷ []
  upsert k f v ((j, w) ∷ d) = if eq j k then (j, f w) ∷ d else (j, w) ∷ upsert k f v d

-- The sum of a measure of the values.
unfoldable pub sum_values : {K V : Type 0} → (V → ℕ) → List (K × V) → ℕ
sum_values m [] = 0
sum_values m ((k, v) ∷ d) = m v + sum_values m d

-- An update that adds c to the value's measure adds c to the sum.
pub sum_values-upsert :
    {K V : Type 0} (eq : K → K → Bool) (m : V → ℕ) (k : K) (f : V → V) (v : V) (c : ℕ)
    (d : List (K × V))
    → ((w : V) → m (f w) ≡ m w + c)
    → m v ≡ 0
    → sum_values m (upsert eq k f v d) ≡ sum_values m d + c
unfolding upsert sum_values
sum_values-upsert eq m k f v c [] h z = omega (arith, h v)
sum_values-upsert eq m k f v c ((j, w) ∷ d) h z =
    ground (arith, h w, sum_values-upsert eq m k f v c d h z)
