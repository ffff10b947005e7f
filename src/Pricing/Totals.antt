-- ===== src/Pricing/Totals.antt =====
-- services/quotes.py: `calculate_quote_totals`. Line totals are in parts of parts, 1/one² of a euro;
-- taxes and totals with taxes are in units of 1/(100 one³). A rate is the key of its entry as a
-- number; the code spells it, so that two spellings of one rate, which stored lines never have, would
-- be two entries there.
pub mod Sums
pub mod Cents
use text.Mathlib.Text.{◌==◌ as str_eq}
use les_traiteurs_engages_v.Base.{
  List, Option, String, [], if◌then◌else◌, map, none, some, upsert, ℕ, ◌*◌, ◌+◌, ◌==◌, ◌∷◌,
}
use les_traiteurs_engages_v.Pricing.Lines.{Line}
use les_traiteurs_engages_v.Pricing.Rounding.{quantize_cent}

-- The state of the loop over the lines; a rate's entry holds its base and its tax.
pub record Running : Type 0 where
  pub section_totals : List (String × ℕ)
  pub tva_totals : List (ℕ × (ℕ × ℕ))
  pub total_ht : ℕ
  pub total_tva : ℕ

abbrev pub none_yet : Running
none_yet = record { section_totals = []; tva_totals = []; total_ht = 0; total_tva = 0 }

abbrev pub line_ht : Line → ℕ
line_ht l = l.quantity * l.unit_price_ht

abbrev pub line_tva : Line → ℕ
line_tva l = line_ht l * l.tva_rate

abbrev add_to_rate : ℕ → ℕ → ℕ × ℕ → ℕ × ℕ
add_to_rate ht tva (base, tax) = (base + ht, tax + tva)

-- The body of the loop.
unfoldable pub add_line : Line → Running → Running
add_line l r = record {
  section_totals = upsert str_eq l.section (λ t. t + line_ht l) 0 r.section_totals;
  tva_totals = upsert ◌==◌ l.tva_rate (add_to_rate (line_ht l) (line_tva l)) (0, 0) r.tva_totals;
  total_ht = r.total_ht + line_ht l;
  total_tva = r.total_tva + line_tva l;
}

unfoldable pub add_lines : List Line → Running → Running
add_lines [] r = r
add_lines (l ∷ ls) r = add_lines ls (add_line l r)

-- What is returned, in cents.
pub record QuoteTotals : Type 0 where
  pub section_totals : List (String × ℕ)
  pub tva_totals : List (ℕ × (ℕ × ℕ))
  pub total_ht : ℕ
  pub total_tva : ℕ
  pub total_ttc : ℕ
  pub amount_per_person : ℕ
  pub platform_fee_ht : ℕ
  pub platform_fee_tva : ℕ
  pub platform_fee_ttc : ℕ

-- The rate of the platform's fee is in units of 0.0001; 5% where the caller gives none.
abbrev commission_or_default : Option ℕ → ℕ
commission_or_default none = 500
commission_or_default (some c) = c

module _ (one : ℕ) where
  abbrev pub ht_scale : ℕ
  ht_scale = one * one

  abbrev pub ttc_scale : ℕ
  ttc_scale = 100 * (one * (one * one))

  -- The sum of the totals with and without tax, at the tax's scale.
  abbrev exact_ttc : Running → ℕ
  exact_ttc r = r.total_ht * (100 * one) + r.total_tva

  -- `guest_count` is falsy at none and at 0.
  abbrev per_person : Option ℕ → Running → ℕ
  per_person none r = 0
  per_person (some g) r = if g == 0 then 0 else quantize_cent (exact_ttc r) (ttc_scale * g)

  unfoldable pub finish : Option ℕ → Option ℕ → Running → QuoteTotals
  finish guest_count commission_rate r =
      let fee =
        quantize_cent (r.total_ht * commission_or_default commission_rate) (ht_scale * 10000) in
      record {
        section_totals = map (λ e. (e.0, quantize_cent e.1 ht_scale)) r.section_totals;
        tva_totals =
            map (λ e. (e.0, (quantize_cent e.1.0 ht_scale, quantize_cent e.1.1 ttc_scale)))
              r.tva_totals;
        total_ht = quantize_cent r.total_ht ht_scale;
        total_tva = quantize_cent r.total_tva ttc_scale;
        total_ttc = quantize_cent (exact_ttc r) ttc_scale;
        amount_per_person = per_person guest_count r;
        platform_fee_ht = fee;
        platform_fee_tva = 0;
        platform_fee_ttc = fee;
      }

  unfoldable pub calculate_quote_totals : List Line → Option ℕ → Option ℕ → QuoteTotals
  calculate_quote_totals details guest_count commission_rate =
      finish guest_count commission_rate (add_lines details none_yet)
