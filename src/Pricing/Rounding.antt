-- ===== src/Pricing/Rounding.antt =====
-- `Decimal.quantize`, with its default rounding: half to even.
use native.Mathlib.Nat.{div-add-mod, mod-lt}
use les_traiteurs_engages_v.Base.{arith, if◌then◌else◌, ltb, ℕ, ◌%◌, ◌*◌, ◌+◌, ◌/◌, ◌<◌, ◌≤◌}

-- The whole number nearest to n / d, the even one of two that are equally near.
unfoldable pub round_half_even : ℕ → ℕ → ℕ
round_half_even n d =
    if ltb (2 * (n % d)) d
    then n / d
    else if ltb d (2 * (n % d))
    then n / d + 1
    else n / d + n / d % 2

-- `CENT`: an amount of n parts, d to the euro, in cents.
unfoldable pub quantize_cent : ℕ → ℕ → ℕ
quantize_cent n d = round_half_even (n * 100) d

-- Half a unit at most separates the value from what it is rounded to.
pub round_half_even_near :
    (n d : ℕ)
    → 0 < d
    → (2 * (d * round_half_even n d) ≤ 2 * n + d) × (2 * n ≤ 2 * (d * round_half_even n d) + d)
unfolding round_half_even
round_half_even_near n d h = grind (arith, div-add-mod n d, mod-lt n h)
