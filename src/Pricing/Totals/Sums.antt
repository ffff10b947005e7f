-- ===== src/Pricing/Totals/Sums.antt =====
-- The breakdowns add up to the totals, and rounding moves them by little.
use text.Mathlib.Text.{◌==◌ as str_eq}
use les_traiteurs_engages_v.Base.{
  List, Option, [], arith, refl, sum_values, sum_values-upsert, ℕ, ◌*◌, ◌+◌, ◌==◌, ◌∷◌, ◌≡◌,
}
use les_traiteurs_engages_v.Pricing.Lines.{Line}
use les_traiteurs_engages_v.Pricing.Rounding.{quantize_cent}
use les_traiteurs_engages_v.Pricing.Totals.{
  QuoteTotals, Running, add_line, add_lines, add_to_rate, calculate_quote_totals, finish, ht_scale,
  line_ht, line_tva, none_yet, ttc_scale,
}

-- The sum of a measure of the lines.
unfoldable pub sum_lines : (Line → ℕ) → List Line → ℕ
sum_lines m [] = 0
sum_lines m (l ∷ ls) = m l + sum_lines m ls

-- What the accumulators hold after some lines, over what they held before.
record AddsUp (ls : List Line) (r r' : Running) : Type 0 where
  pub ht : r'.total_ht ≡ r.total_ht + sum_lines line_ht ls
  pub tva : r'.total_tva ≡ r.total_tva + sum_lines line_tva ls
  pub sections :
      sum_values (λ t. t) r'.section_totals
      ≡ sum_values (λ t. t) r.section_totals + sum_lines line_ht ls
  pub bases :
      sum_values (λ e. e.0) r'.tva_totals
      ≡ sum_values (λ e. e.0) r.tva_totals + sum_lines line_ht ls
  pub taxes :
      sum_values (λ e. e.1) r'.tva_totals
      ≡ sum_values (λ e. e.1) r.tva_totals + sum_lines line_tva ls

add_line-AddsUp : (l : Line) (r : Running) → AddsUp (l ∷ []) r (add_line l r)
unfolding add_line sum_lines
add_line-AddsUp l r = record {
  ht = omega arith;
  tva = omega arith;
  sections = omega (
    arith,
    sum_values-upsert str_eq (λ t. t) l.section (λ t. t + line_ht l) 0 (line_ht l) r.section_totals
        (λ w. refl) refl,
  );
  bases = omega (
    arith,
    sum_values-upsert ◌==◌ (λ e. e.0) l.tva_rate (add_to_rate (line_ht l) (line_tva l)) (0, 0)
        (line_ht l) r.tva_totals (λ w. refl) refl,
  );
  taxes = omega (
    arith,
    sum_values-upsert ◌==◌ (λ e. e.1) l.tva_rate (add_to_rate (line_ht l) (line_tva l)) (0, 0)
        (line_tva l) r.tva_totals (λ w. refl) refl,
  );
}

add_lines-AddsUp : (ls : List Line) (r : Running) → AddsUp ls r (add_lines ls r)
unfolding add_lines sum_lines
add_lines-AddsUp [] r = omega arith
add_lines-AddsUp (l ∷ ls) r = omega (arith, add_line-AddsUp l r, add_lines-AddsUp ls (add_line l r))

module _ (one : ℕ) (details : List Line) (guest_count commission_rate : Option ℕ) where
  abbrev totals : QuoteTotals
  totals = calculate_quote_totals one details guest_count commission_rate

  -- The figures of `calculate_quote_totals` are roundings of exact ones: `total_ht` of the sum of
  -- quantity times price over the lines, `total_tva` of the sum of the lines' taxes, `total_ttc` of
  -- both together; those of the sections and of the rates are roundings of parts that add up
  -- exactly to the same sums.
  pub calculate_quote_totals_exact :
      (r : Running) × (totals ≡ finish one guest_count commission_rate r)
      × (totals.total_ht ≡ quantize_cent (sum_lines line_ht details) (ht_scale one))
      × (totals.total_tva ≡ quantize_cent (sum_lines line_tva details) (ttc_scale one))
      × (totals.total_ttc
          ≡ quantize_cent
              (sum_lines line_ht details * (100 * one) + sum_lines line_tva details)
              (ttc_scale one))
      × (sum_values (λ t. t) r.section_totals ≡ sum_lines line_ht details)
      × (sum_values (λ e. e.0) r.tva_totals ≡ sum_lines line_ht details)
      × (sum_values (λ e. e.1) r.tva_totals ≡ sum_lines line_tva details)
  unfolding calculate_quote_totals finish sum_values
  calculate_quote_totals_exact =
      let r = add_lines details none_yet in
      let sums = add_lines-AddsUp details none_yet in
      let ht : r.total_ht ≡ sum_lines line_ht details = omega (arith, sums.ht) in
      let tva : r.total_tva ≡ sum_lines line_tva details = omega (arith, sums.tva) in
      (
        r,
        refl,
        rw ht refl,
        rw tva refl,
        rw (ht, tva) refl,
        omega (arith, sums.sections),
        omega (arith, sums.bases),
        omega (arith, sums.taxes),
      )
