-- ===== src/Pricing/Totals/Cents.antt =====
-- The cents of a quote's totals agree to within one.
use native.Mathlib.Nat.{mul-le-mul_left, le_of_mul-le-mul_left}
use les_traiteurs_engages_v.Base.{List, Option, arith, refl, ℕ, ◌*◌, ◌+◌, ◌<◌, ◌≡◌, ◌≤◌}
use les_traiteurs_engages_v.Pricing.Lines.{Line}
use les_traiteurs_engages_v.Pricing.Rounding.{quantize_cent, round_half_even_near}
use les_traiteurs_engages_v.Pricing.Totals.{
  add_lines, calculate_quote_totals, exact_ttc, finish, ht_scale, none_yet, ttc_scale,
}

-- Rounding at a scale k times finer: the bound on the error, multiplied out.
scaled_near :
    (k n d : ℕ)
    → 0 < d
    → (2 * (k * d * quantize_cent n d) ≤ 200 * (k * n) + k * d)
      × (200 * (k * n) ≤ 2 * (k * d * quantize_cent n d) + k * d)
unfolding quantize_cent
scaled_near k n d h =
    let (lo, hi) = round_half_even_near (n * 100) d h in
    (omega (arith, mul-le-mul_left k lo), omega (arith, mul-le-mul_left k hi))

-- Three amounts, the third the sum of the others, each rounded at one scale d.
near_sum :
    (d x t a b c : ℕ)
    → 0 < d
    → 2 * (d * a) ≤ 200 * x + d
    → 200 * x ≤ 2 * (d * a) + d
    → 2 * (d * b) ≤ 200 * t + d
    → 200 * t ≤ 2 * (d * b) + d
    → 2 * (d * c) ≤ 200 * (x + t) + d
    → 200 * (x + t) ≤ 2 * (d * c) + d
    → (c ≤ a + b + 1) × (a + b ≤ c + 1)
near_sum d x t a b c h a₁ a₂ b₁ b₂ c₁ c₂ =
    let up : d * (2 * c) ≤ d * (2 * a + 2 * b + 3) = omega arith in
    let down : d * (2 * a + 2 * b) ≤ d * (2 * c + 3) = omega arith in
    let up' : 2 * c ≤ 2 * a + 2 * b + 3 = le_of_mul-le-mul_left up h in
    let down' : 2 * a + 2 * b ≤ 2 * c + 3 = le_of_mul-le-mul_left down h in
    (omega arith, omega arith)

cube_pos : (one : ℕ) → 0 < one → 0 < ttc_scale one
cube_pos one h = grind arith

module _ (one : ℕ) (details : List Line) (guest_count commission_rate : Option ℕ) where
  -- The printed total with tax differs from the sum of the printed total without tax and the printed
  -- tax by one cent at most; the platform's fee bears no tax.
  calculate_quote_totals_cents :
      0 < one
      → let t = calculate_quote_totals one details guest_count commission_rate in
        (t.total_ttc ≤ t.total_ht + t.total_tva + 1)
        × (t.total_ht + t.total_tva ≤ t.total_ttc + 1)
        × (t.platform_fee_ttc ≡ t.platform_fee_ht + t.platform_fee_tva)
        × (t.platform_fee_tva ≡ 0)
  unfolding calculate_quote_totals finish
  calculate_quote_totals_cents h =
      let r = add_lines details none_yet in
      let (a₁, a₂) = scaled_near (100 * one) r.total_ht (ht_scale one) (grind arith) in
      let (b₁, b₂) = scaled_near 1 r.total_tva (ttc_scale one) (cube_pos one h) in
      let (c₁, c₂) = scaled_near 1 (exact_ttc one r) (ttc_scale one) (cube_pos one h) in
      let (up, down) =
        near_sum (ttc_scale one) (r.total_ht * (100 * one)) r.total_tva
          (quantize_cent r.total_ht (ht_scale one)) (quantize_cent r.total_tva (ttc_scale one))
          (quantize_cent (exact_ttc one r) (ttc_scale one)) (cube_pos one h) (omega arith)
          (omega arith) (omega arith) (omega arith) (omega arith) (omega arith) in
      (up, down, omega arith, refl)
