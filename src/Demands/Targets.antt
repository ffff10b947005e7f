-- ===== src/Demands/Targets.antt =====
-- The caterer that a posted demand names.
use text.Mathlib.Text.{◌==◌ as str_eq}
use les_traiteurs_engages_v.Base.{
  ◌||◌, exists, find, is_empty, find-holds, subst, Option-cases, text_or, ap, strip, if◌then◌else◌,
  ◌&&◌, ◌==◌, ◌∙◌, Bool-cases, Option, String, arith, false, inl, inr, none, refl, some, true, ℕ,
  ◌≡◌,
}
use les_traiteurs_engages_v.Demands.{RequestForm, resolve_target_caterer, validate_meal_type}
use les_traiteurs_engages_v.Models.{Caterer, Database}

-- A meal that passes is one of the target's.
pub meal_of_target :
    (t : Option Caterer) (m : Option String) (c : Caterer) (meal : String)
    → validate_meal_type t m ≡ true
    → t ≡ some c
    → m ≡ some meal
    → is_empty meal ≡ false
    → exists (λ o. str_eq o meal) c.service_offerings ≡ true
meal_of_target t m c meal h e k n =
    let h' : is_empty meal || exists (λ o. str_eq o meal) c.service_offerings ≡ true =
      rw (e, k) at h in
    ground (arith, h', n)

module _ (lower : String → String) (parse_uuid : String → Option ℕ) (form : RequestForm)
    (db : Database) where
  abbrev target : Option Caterer
  target = resolve_target_caterer lower parse_uuid form.target_caterer_id db

  -- The target is the caterer that the form names, and it is validated.
  pub target_named :
      (c : Caterer)
      → target ≡ some c
      → (parse_uuid (strip (text_or form.target_caterer_id "")) ≡ some c.id)
        × (find (λ d. d.id == c.id && d.is_validated) db.caterers ≡ some c)
        × (c.is_validated ≡ true)
  unfolding resolve_target_caterer
  target_named c e = by_text (strip (text_or form.target_caterer_id "")) e
    where
      by_id :
          (cid : ℕ)
          → find (λ d. d.id == cid && d.is_validated) db.caterers ≡ some c
          → (cid ≡ c.id)
            × (find (λ d. d.id == c.id && d.is_validated) db.caterers ≡ some c)
            × (c.is_validated ≡ true)
      by_id cid h =
          let both = find-holds (λ d. d.id == cid && d.is_validated) db.caterers c h in
          let same : cid ≡ c.id = ground (arith, both) in
          (
            same,
            subst (λ i. find (λ d. d.id == i && d.is_validated) db.caterers ≡ some c) same h,
            ground (arith, both),
          )

      by_text :
          (raw : String)
          → (if is_empty raw then none else elim (parse_uuid raw) [
            | none ↦ none
            | some cid ↦ find (λ c. c.id == cid && c.is_validated) db.caterers
          ])
            ≡ some c
          → (parse_uuid raw ≡ some c.id)
            × (find (λ d. d.id == c.id && d.is_validated) db.caterers ≡ some c)
            × (c.is_validated ≡ true)
      by_text raw h = elim (Bool-cases (is_empty raw)) [
        | inl y ↦ cc (rw y at h)
        | inr n ↦ elim (Option-cases (parse_uuid raw)) [
          | inl missing ↦ cc (rw (n, missing) at h)
          | inr (cid, parsed) ↦
              let (same, again, valid) = by_id cid (rw (n, parsed) at h) in
              (parsed ∙ ap (λ i. some i) same, again, valid)
        ]
      ]

  pub resolved_target :
      (i : ℕ)
      → is_empty (strip (text_or form.target_caterer_id "")) ≡ false
      → parse_uuid (strip (text_or form.target_caterer_id "")) ≡ some i
      → target ≡ find (λ c. c.id == i && c.is_validated) db.caterers
  unfolding resolve_target_caterer
  resolved_target i n h = rw (n, h) refl
