-- ===== src/Pricing/Lines.antt =====
-- services/quotes.py: `lines_from_dicts` and the caps on what a quote may contain.
pub mod Plausible
use mathlib.Core.Option.{get_or}
use les_traiteurs_engages_v.Base.{
  ◌>>◌, ◌>>=◌, Bool, Call, List, Option, String, [], chars, fail, false, ltb, none, not, raise_if,
  return, some, suc, text_or, text_or_none, zero, ℕ, ◌*◌, ◌==◌, ◌||◌, ◌∷◌,
}
use les_traiteurs_engages_v.Models.{Database}

-- What `Decimal(str(raw))` makes of an entry: no number, an infinity or NaN, or a number of parts
-- with its sign.
pub data Number : Type 0 where
  plus minus : ℕ → Number

pub data Raw : Type 0 where
  unreadable infinite : Raw
  finite : Number → Raw

-- A line as the editor posts it; `none` is a missing key, which `get` replaces by its default. The
-- section is `str` of its entry. A description that is no text, of which `len` raises a `TypeError`,
-- is left out.
pub record LineDict : Type 0 where
  pub section : Option String
  pub description : Option String
  pub quantity : Option Raw
  pub unit_price_ht : Option Raw
  pub tva_rate : Option Raw

-- A `QuoteLine` before it is stored, its numbers in parts.
pub record Line : Type 0 where
  pub position : ℕ
  pub section : String
  pub description : Option String
  pub quantity : ℕ
  pub unit_price_ht : ℕ
  pub tva_rate : ℕ

-- The `ValueError`s, with the number of the line.
pub data LineError : Type 0 where
  not_a_number not_finite quantity_out_of_range unit_price_out_of_range : ℕ → LineError
  line_total_exceeds tva_rate_not_legal description_too_long : ℕ → LineError

abbrev magnitude : Number → ℕ
magnitude (plus n) = n
magnitude (minus n) = n

abbrev is_negative : Number → Bool
is_negative (plus n) = false
is_negative (minus n) = not (n == 0)

abbrev max_description_len : ℕ
max_description_len = 1000

-- `s[:n]`.
unfoldable pub take_chars : ℕ → String → String
take_chars zero s = ""
take_chars (suc n) String.[] = ""
take_chars (suc n) (String.◌∷◌ c s) = String.◌∷◌ c (take_chars n s)

abbrev is_longer : ℕ → Option String → Bool
is_longer n none = false
is_longer n (some s) = ltb n (chars s)

unfoldable pub parse_finite_decimal : Raw → ℕ → Call Database LineError Number
parse_finite_decimal unreadable i = fail (not_a_number i)
parse_finite_decimal infinite i = fail (not_finite i)
parse_finite_decimal (finite n) i = return n

module _ (one : ℕ) where
  abbrev max_quantity : ℕ
  max_quantity = 10000 * one

  abbrev max_unit_price_ht : ℕ
  max_unit_price_ht = 100000 * one

  -- In parts of parts, as the product of a quantity and a price is.
  abbrev max_line_total_ht : ℕ
  max_line_total_ht = 10000000 * (one * one)

  -- 0, 2.1, 5.5, 10 and 20 percent.
  abbrev is_legal_tva_rate : Number → Bool
  is_legal_tva_rate (plus r) =
      r == 0 || r * 10 == 21 * one || r * 10 == 55 * one || r == 10 * one || r == 20 * one
  is_legal_tva_rate (minus r) = r == 0

  -- The body of the loop, on line number i.
  unfoldable pub line_from_dict : ℕ → LineDict → Call Database LineError Line
  line_from_dict i d = do
    quantity ← parse_finite_decimal (get_or d.quantity (finite (plus 0))) i
    unit_price ← parse_finite_decimal (get_or d.unit_price_ht (finite (plus 0))) i
    tva_rate ← parse_finite_decimal (get_or d.tva_rate (finite (plus (10 * one)))) i
    raise_if (is_negative quantity || ltb max_quantity (magnitude quantity))
        (quantity_out_of_range i)
    raise_if (is_negative unit_price || ltb max_unit_price_ht (magnitude unit_price))
        (unit_price_out_of_range i)
    raise_if (ltb max_line_total_ht (magnitude quantity * magnitude unit_price))
        (line_total_exceeds i)
    raise_if (not (is_legal_tva_rate tva_rate)) (tva_rate_not_legal i)
    raise_if (is_longer max_description_len (text_or_none d.description)) (description_too_long i)
    return (record {
      position = i;
      section = take_chars 50 (text_or d.section "principal");
      description = text_or_none d.description;
      quantity = magnitude quantity;
      unit_price_ht = magnitude unit_price;
      tva_rate = magnitude tva_rate;
    })

  -- The loop from line number i on; `lines_from_dicts` starts at 0.
  unfoldable pub lines_from : ℕ → List LineDict → Call Database LineError (List Line)
  lines_from i [] = return []
  lines_from i (d ∷ ds) = do
    line ← line_from_dict i d
    rest ← lines_from (suc i) ds
    return (line ∷ rest)

  abbrev pub lines_from_dicts : List LineDict → Call Database LineError (List Line)
  lines_from_dicts = lines_from 0
