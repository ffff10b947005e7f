-- ===== src/Examples/Amounts.antt =====
-- Prices, invoices and the ledger of the shop.
use text.Mathlib.Text.{◌==◌ as str_eq}
use les_traiteurs_engages_v.Base.{
  String, Bool, ◌||◌, All, Ensures, List, [], fail, fetch, find, gets, length, modify, none, raise,
  raise_if, refl, return, some, suc, sum_values, true, upsert, ◌*◌, ◌+◌, ◌>>=◌, ◌>>◌, ◌∷◌, ◌≡◌, ◌≤◌,
  ◌⊎◌,
}
use les_traiteurs_engages_v.Examples.Samples.{order_at, shop}
use les_traiteurs_engages_v.Impact.{
  add_buckets, compute_social_impact, grouped, is_siae, is_stpa, purchase,
}
use les_traiteurs_engages_v.Impact.Contributions.{amount_of}
use les_traiteurs_engages_v.Impact.Shares.{compute_social_impact-spent, spent}
use les_traiteurs_engages_v.Invoicing.{
  StripeAnswers, create_customer, get_or_create_customer, create_invoice_for_order,
}
use les_traiteurs_engages_v.Invoicing.Customer.{Unbilled}
use les_traiteurs_engages_v.Invoicing.Ledger.{Booked, create_invoice_for_order_books}
use les_traiteurs_engages_v.Invoicing.Retry.{send_invoices, send_invoices_bill_once}
use les_traiteurs_engages_v.Models.{Database, Order, OrderStatus}
use les_traiteurs_engages_v.Pricing.Lines.{
  Line, LineDict, finite, line_from_dict, lines_from, lines_from_dicts, parse_finite_decimal, plus,
  take_chars, unit_price_out_of_range,
}
use les_traiteurs_engages_v.Pricing.Lines.Plausible.{
  IsNumbered, IsPlausible, lines_from_dicts_plausible,
}
use les_traiteurs_engages_v.Pricing.Rounding.{quantize_cent, round_half_even}
use les_traiteurs_engages_v.Pricing.Split.{InvoiceAmounts, split_invoice_amounts}
use les_traiteurs_engages_v.Pricing.Totals.{
  QuoteTotals, Running, add_line, add_lines, calculate_quote_totals, finish, ht_scale, line_ht,
  line_tva, ttc_scale,
}
use les_traiteurs_engages_v.Pricing.Totals.Sums.{calculate_quote_totals_exact, sum_lines}
use les_traiteurs_engages_v.Reviews.{is_ok}

-- Two menus at 12.50 and 10%, in thousandths.
abbrev menu : LineDict
menu = record {
  section = none;
  description = some "Menu";
  quantity = some (finite (plus 2000));
  unit_price_ht = some (finite (plus 12500));
  tva_rate = none;
}

abbrev overpriced : LineDict
overpriced = record menu { unit_price_ht = some (finite (plus 100001000)) }

menu_passes : is_ok (lines_from_dicts 1000 (menu ∷ []) shop).0 ≡ true
unfolding lines_from line_from_dict parse_finite_decimal raise_if return fail take_chars ◌>>=◌ ◌>>◌
menu_passes = refl

overpriced_fails :
    lines_from_dicts 1000 (menu ∷ overpriced ∷ []) shop ≡ (raise (unit_price_out_of_range 1), shop)
unfolding lines_from line_from_dict parse_finite_decimal raise_if return fail take_chars ◌>>=◌ ◌>>◌
overpriced_fails = refl

lines_from_dicts_plausible_example :
    Ensures
      (λ e d. d ≡ shop)
      (λ ls d. (d ≡ shop) × (length ls ≡ 2) × IsNumbered 1000 0 ls × All (IsPlausible 1000) ls)
      (lines_from_dicts 1000 (menu ∷ overpriced ∷ []) shop)
lines_from_dicts_plausible_example = lines_from_dicts_plausible 1000 shop (menu ∷ overpriced ∷ [])

abbrev menu_lines : List Line
menu_lines =
    record {
      position = 0;
      section = "principal";
      description = none;
      quantity = 2000;
      unit_price_ht = 12345;
      tva_rate = 5500;
    }
    ∷ []

abbrev menu_totals : QuoteTotals
menu_totals = calculate_quote_totals 1000 menu_lines (some 3) none

menu_total_ttc : menu_totals.total_ttc ≡ 2605
unfolding calculate_quote_totals finish add_lines add_line upsert quantize_cent round_half_even
menu_total_ttc = refl

calculate_quote_totals_exact_example :
    (r : Running) × (menu_totals ≡ finish 1000 (some 3) none r)
    × (menu_totals.total_ht ≡ quantize_cent (sum_lines line_ht menu_lines) (ht_scale 1000))
    × (menu_totals.total_tva ≡ quantize_cent (sum_lines line_tva menu_lines) (ttc_scale 1000))
    × (menu_totals.total_ttc
        ≡ quantize_cent
            (sum_lines line_ht menu_lines * (100 * 1000) + sum_lines line_tva menu_lines)
            (ttc_scale 1000))
    × (sum_values (λ t. t) r.section_totals ≡ sum_lines line_ht menu_lines)
    × (sum_values (λ e. e.0) r.tva_totals ≡ sum_lines line_ht menu_lines)
    × (sum_values (λ e. e.1) r.tva_totals ≡ sum_lines line_tva menu_lines)
calculate_quote_totals_exact_example = calculate_quote_totals_exact 1000 menu_lines (some 3) none

abbrev split_sample : InvoiceAmounts
split_sample = split_invoice_amounts 1000 26049 1234 0

abbrev stripe_says : StripeAnswers
stripe_says = record {
  customer_id = some "cus_1";
  invoice = some (record { invoice_id = "in_2"; hosted_invoice_url = "" });
}

-- The customer is made, and the invoice is refused.
abbrev stripe_refuses : StripeAnswers
stripe_refuses = record stripe_says { invoice = none }

abbrev delivered_order : Order
delivered_order = order_at 32 24 OrderStatus.delivered

invoice_goes_out : is_ok (create_invoice_for_order stripe_says delivered_order shop).0 ≡ true
unfolding create_invoice_for_order get_or_create_customer create_customer return fetch find gets
    modify ◌>>=◌ ◌>>◌
invoice_goes_out = refl

create_invoice_for_order_books_example :
    Ensures
      (λ e after. Unbilled delivered_order shop after)
      (λ u after. Booked delivered_order shop after)
      (create_invoice_for_order stripe_says delivered_order shop)
unfolding find
create_invoice_for_order_books_example =
    create_invoice_for_order_books stripe_says delivered_order shop refl

-- Stripe fails once, then answers; a third run follows.
abbrev answers : List StripeAnswers
answers = stripe_refuses ∷ stripe_says ∷ []

abbrev billed : Database
billed = send_invoices answers 32 shop

send_invoices_bill_once_example :
    (billed ≡ shop)
    ⊎ ((length billed.payments ≡ suc (length shop.payments))
        × (send_invoices (stripe_says ∷ []) 32 billed ≡ billed))
send_invoices_bill_once_example = send_invoices_bill_once answers (stripe_says ∷ []) 32 shop

compute_social_impact-spent_example :
    let shown = compute_social_impact 50 none shop in
    let amount = λ (k : String → Bool). spent (amount_of k 50 none shop) shop.orders in
    (shown.total_ht ≡ amount (λ t. true))
    × (shown.siae_ht ≡ amount (λ t. str_eq t "EI" || str_eq t "ACI"))
    × (shown.stpa_ht ≡ amount (λ t. str_eq t "ESAT" || str_eq t "EA"))
    × (shown.siae_ht + shown.stpa_ht ≤ shown.total_ht)
    × (2 * (2600 * shown.hours_financed) ≤ 2 * shown.total_ht + 2600)
    × (2 * shown.total_ht ≤ 2 * (2600 * shown.hours_financed) + 2600)
compute_social_impact-spent_example = compute_social_impact-spent 50 none shop

-- The one paid order, of 100 euros at an ESAT.
impact_of_shop : (compute_social_impact 50 none shop).stpa_ht ≡ 10000
unfolding compute_social_impact add_buckets grouped purchase upsert find is_siae is_stpa
impact_of_shop = refl
