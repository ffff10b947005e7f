-- ===== src/Pricing/Split.antt =====
-- services/stripe_service.py: the amounts of an invoice in cents.
use les_traiteurs_engages_v.Base.{arith, ℕ, ◌*◌, ◌+◌, ◌-◌, ◌≡◌}
use les_traiteurs_engages_v.Pricing.Rounding.{round_half_even}

-- `_to_cents`, of n parts, d to the euro.
unfoldable pub to_cents : ℕ → ℕ → ℕ
to_cents n d = round_half_even (n * 100) d

pub record InvoiceAmounts : Type 0 where
  pub invoice_total_cents : ℕ
  pub application_fee_cents : ℕ
  pub amount_to_caterer_cents : ℕ

-- The three amounts have d parts to the euro.
unfoldable pub split_invoice_amounts : ℕ → ℕ → ℕ → ℕ → InvoiceAmounts
split_invoice_amounts d total_ttc fee_ht fee_tva =
    let fee_ttc_cents = to_cents fee_ht d + to_cents fee_tva d in
    let total_ttc_cents = to_cents total_ttc d in
    let invoice_total_cents = total_ttc_cents + fee_ttc_cents in
    record {
      invoice_total_cents = invoice_total_cents;
      application_fee_cents = fee_ttc_cents;
      amount_to_caterer_cents = invoice_total_cents - fee_ttc_cents;
    }

-- An amount that is in whole cents already is kept.
to_cents_whole : (n : ℕ) → to_cents n 100 ≡ n
unfolding to_cents round_half_even
to_cents_whole n = ground arith

-- The transfer to the caterer and the platform's fee make up the invoice; the caterer gets the whole
-- total with tax, from which the fee is not deducted; and on amounts in whole cents the fee in the
-- ledger is the sum of its two parts.
pub split_invoice_amounts_balance :
    (d total_ttc fee_ht fee_tva : ℕ)
    → let a = split_invoice_amounts d total_ttc fee_ht fee_tva in
      (a.amount_to_caterer_cents + a.application_fee_cents ≡ a.invoice_total_cents)
      × (a.amount_to_caterer_cents ≡ to_cents total_ttc d)
      × ((split_invoice_amounts 100 total_ttc fee_ht fee_tva).application_fee_cents
          ≡ fee_ht + fee_tva)
unfolding split_invoice_amounts
split_invoice_amounts_balance d total_ttc fee_ht fee_tva =
    (omega arith, omega arith, omega (arith, to_cents_whole fee_ht, to_cents_whole fee_tva))
