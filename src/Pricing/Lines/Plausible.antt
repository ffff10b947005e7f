-- ===== src/Pricing/Lines/Plausible.antt =====
-- The caps hold of every line that `lines_from_dicts` lets through.
use mathlib.Core.Option.{get_or}
use text.Mathlib.TextLemmas.{length-cons}
use les_traiteurs_engages_v.Base.{
  All, Ensures, List, String, [], ap, arith, bind-Ensures, chars, fail, false, length,
  raise_if-Ensures, refl, return, return-Ensures, subst, suc, sym, text_or, true, zero, ℕ, ◌*◌, ◌∷◌,
  ◌≡◌, ◌≤◌,
}
use les_traiteurs_engages_v.Models.{Database}
use les_traiteurs_engages_v.Pricing.Lines.{
  Line, LineDict, Number, Raw, finite, infinite, is_legal_tva_rate, is_longer, line_from_dict,
  lines_from, lines_from_dicts, magnitude, max_description_len, max_line_total_ht, max_quantity,
  max_unit_price_ht, minus, parse_finite_decimal, plus, take_chars, unreadable,
}

take_chars-le : (n : ℕ) (s : String) → chars (take_chars n s) ≤ n
unfolding take_chars
take_chars-le zero s = omega arith
take_chars-le (suc n) String.[] = omega arith
take_chars-le (suc n) (String.◌∷◌ c s) =
    omega (arith, length-cons c (take_chars n s), take_chars-le n s)

module _ (one : ℕ) where
  -- Within the caps, at a legal rate, and with texts of bounded size.
  pub record IsPlausible (l : Line) : Type 0 where
    pub quantity : l.quantity ≤ max_quantity one
    pub unit_price : l.unit_price_ht ≤ max_unit_price_ht one
    pub total : l.quantity * l.unit_price_ht ≤ max_line_total_ht one
    pub rate : is_legal_tva_rate one (plus l.tva_rate) ≡ true
    pub section : chars l.section ≤ 50
    pub description : is_longer max_description_len l.description ≡ false

  -- The lines are numbered from i on.
  abbrev pub IsNumbered : ℕ → List Line → Type 0
  IsNumbered i [] = Unit
  IsNumbered i (l ∷ ls) = (l.position ≡ i) × IsNumbered (suc i) ls

  legal_magnitude :
      (n : Number)
      → is_legal_tva_rate one n ≡ true
      → is_legal_tva_rate one (plus (magnitude n)) ≡ true
  legal_magnitude (plus r) h = h
  legal_magnitude (minus r) h = rw h refl

  module _ (db : Database) where
    abbrev Same : {A : Type 0} → A → Database → Type 0
    Same a d = d ≡ db

    parse_finite_decimal-Same :
        (r : Raw) (i : ℕ) (d : Database) → d ≡ db → Ensures Same Same (parse_finite_decimal r i d)
    unfolding parse_finite_decimal return fail
    parse_finite_decimal-Same unreadable i d h = h
    parse_finite_decimal-Same infinite i d h = h
    parse_finite_decimal-Same (finite n) i d h = h

    abbrev Checked : ℕ → Line → Database → Type 0
    Checked i l d = (d ≡ db) × (l.position ≡ i) × IsPlausible l

    line_from_dict-IsPlausible :
        (i : ℕ) (d : LineDict) → Ensures Same (Checked i) (line_from_dict one i d db)
    unfolding line_from_dict
    line_from_dict-IsPlausible i d =
        let zero_parts = finite (plus 0) in
        bind-Ensures Same Same (Checked i) _ _ _
          (parse_finite_decimal-Same (get_or d.quantity zero_parts) i db refl)
          λ q s₁ e₁.
            bind-Ensures Same Same (Checked i) _ _ _
              (parse_finite_decimal-Same (get_or d.unit_price_ht zero_parts) i s₁ e₁)
              λ p s₂ e₂.
                bind-Ensures Same Same (Checked i) _ _ _
                  (parse_finite_decimal-Same (get_or d.tva_rate (finite (plus (10 * one)))) i s₂ e₂)
                  λ r s₃ e₃.
                    raise_if-Ensures Same (Checked i) _ _ _ _ (λ _. e₃)
                      λ quantity.
                        raise_if-Ensures Same (Checked i) _ _ _ _ (λ _. e₃)
                          λ price.
                            raise_if-Ensures Same (Checked i) _ _ _ _ (λ _. e₃)
                              λ total.
                                raise_if-Ensures Same (Checked i) _ _ _ _ (λ _. e₃)
                                  λ rate.
                                    raise_if-Ensures Same (Checked i) _ _ _ _ (λ _. e₃)
                                      λ description. return-Ensures Same (Checked i) _ _ (
                                        e₃,
                                        refl,
                                        record {
                                          quantity = ground arith;
                                          unit_price = ground arith;
                                          total = ground arith;
                                          rate = legal_magnitude r (ground arith);
                                          section =
                                              take_chars-le 50 (text_or d.section "principal");
                                          description = description;
                                        },
                                      )

    abbrev AllChecked : ℕ → List LineDict → List Line → Database → Type 0
    AllChecked i ds ls d = (d ≡ db) × (length ls ≡ length ds) × IsNumbered i ls × All IsPlausible ls

    lines_from-AllChecked :
        (i : ℕ) (ds : List LineDict) → Ensures Same (AllChecked i ds) (lines_from one i ds db)
    unfolding lines_from
    lines_from-AllChecked i [] = return-Ensures Same (AllChecked i []) _ _ (refl, refl, tt, tt)
    lines_from-AllChecked i (d ∷ ds) =
        bind-Ensures Same (Checked i) (AllChecked i (d ∷ ds)) _ _ _ (line_from_dict-IsPlausible i d)
          λ l s₁ h.
            bind-Ensures Same (AllChecked (suc i) ds) (AllChecked i (d ∷ ds)) _ _ _
              (subst (λ s. Ensures Same (AllChecked (suc i) ds) (lines_from one (suc i) ds s))
                (sym h.0) (lines_from-AllChecked (suc i) ds))
              λ ls s₂ k.
                return-Ensures Same (AllChecked i (d ∷ ds)) _ _
                  (k.0, ap suc k.1, (h.1, k.2), (h.2, k.3))

    -- `lines_from_dicts` never touches the database. Where it returns, there is one line for each
    -- entry, numbered from 0, and each is within the caps (quantity, unit price, line total, a legal
    -- rate, 50 characters of section and 1000 of description).
    pub lines_from_dicts_plausible :
        (ds : List LineDict) → Ensures Same (AllChecked 0 ds) (lines_from_dicts one ds db)
    lines_from_dicts_plausible ds = lines_from-AllChecked 0 ds
