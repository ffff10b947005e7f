-- ===== src/Signup/Prefix.antt =====
-- The loop of `generate_invoice_prefix` ends.
use text.Mathlib.Text.{◌==◌ as str_eq}
use text.Mathlib.TextEquality.{eq_iff}
use les_traiteurs_engages_v.Base.{
  All, Bool, Bool-cases, List, Option, Option-cases, String, [], arith, exists, false, inl, inr,
  length, none, not, select, some, some_inj, subst, sym, true, ◌<◌, ◌∙◌, ◌∷◌, ◌≡◌, ◌≤◌,
}
use les_traiteurs_engages_v.Models.{Caterer, Database}
use les_traiteurs_engages_v.Notifications.{is_text}
use les_traiteurs_engages_v.Signup.{Draws, first_free, generate_invoice_prefix, slugs_of}

abbrev has_prefix : String → Caterer → Bool
has_prefix slug c = is_text c.invoice_prefix slug

abbrev pub is_taken : String → List Caterer → Bool
is_taken slug cs = exists (has_prefix slug) cs

-- No text is drawn twice.
abbrev pub IsDistinct : List String → Type 0
IsDistinct [] = Unit
IsDistinct (s ∷ ss) = All (λ t. str_eq t s ≡ false) ss × IsDistinct ss

abbrev without : String → List Caterer → List Caterer
without slug cs = select (λ c. not (has_prefix slug c)) cs

length-without : (slug : String) (cs : List Caterer) → length (without slug cs) ≤ length cs
unfolding select
length-without slug [] = omega arith
length-without slug (c ∷ cs) = ground (arith, length-without slug cs)

-- Whoever has the prefix is gone.
length-without_taken :
    (slug : String) (cs : List Caterer)
    → is_taken slug cs ≡ true
    → length (without slug cs) < length cs
unfolding select exists
length-without_taken slug [] h = cc
length-without_taken slug (c ∷ cs) h =
    ground (arith, length-without slug cs, length-without_taken slug cs)

same_text : (p : Option String) (s t : String) → is_text p s ≡ true → is_text p t ≡ true → s ≡ t
same_text none s t h k = cc
same_text (some p) s t h k = sym ((eq_iff p s).0 h) ∙ (eq_iff p t).0 k

-- The other prefixes are as taken as before.
is_taken-without :
    (slug other : String) (cs : List Caterer)
    → str_eq other slug ≡ false
    → is_taken other cs ≡ true
    → is_taken other (without slug cs) ≡ true
unfolding select exists
is_taken-without slug other [] apart h = h
is_taken-without slug other (c ∷ cs) apart h = elim (Bool-cases (has_prefix slug c)) [
  | inl own ↦ elim (Bool-cases (has_prefix other c)) [
    | inl both ↦
        let same : other ≡ slug = same_text c.invoice_prefix other slug both own in
        cc ((eq_iff other slug).1 same, apart)
    | inr not_both ↦ rw own (is_taken-without slug other cs apart (rw not_both at h))
  ]
  | inr kept ↦ rw kept (ground (arith, h, is_taken-without slug other cs apart))
]

All-without :
    (slug : String) (ss : List String) (cs : List Caterer)
    → All (λ t. str_eq t slug ≡ false) ss
    → All (λ t. is_taken t cs ≡ true) ss
    → All (λ t. is_taken t (without slug cs) ≡ true) ss
All-without slug [] cs apart h = tt
All-without slug (t ∷ ss) cs apart h =
    (is_taken-without slug t cs apart.0 h.0, All-without slug ss cs apart.1 h.1)

-- Distinct texts that are all taken are no more than the caterers.
length-taken :
    (ss : List String) (cs : List Caterer)
    → IsDistinct ss
    → All (λ t. is_taken t cs ≡ true) ss
    → length ss ≤ length cs
length-taken [] cs d h = omega arith
length-taken (s ∷ ss) cs d h = omega (
  arith,
  length-without_taken s cs h.0,
  length-taken ss (without s cs) d.1 (All-without s ss cs d.0 h.1),
)

all_taken :
    (draws : List String) (db : Database)
    → first_free draws db ≡ none
    → All (λ t. is_taken t db.caterers ≡ true) draws
unfolding first_free
all_taken [] db h = tt
all_taken (s ∷ draws) db h = elim (Bool-cases (is_taken s db.caterers)) [
  | inl y ↦ (y, all_taken draws db (rw y at h))
  | inr n ↦ cc (rw n at h)
]

free_prefix :
    (draws : List String) (db : Database) (slug : String)
    → first_free draws db ≡ some slug
    → (is_taken slug db.caterers ≡ false) × (exists (λ s. str_eq s slug) draws ≡ true)
unfolding first_free exists
free_prefix [] db slug h = cc
free_prefix (s ∷ draws) db slug h = elim (Bool-cases (is_taken s db.caterers)) [
  | inl y ↦
      let (free, drawn) = free_prefix draws db slug (rw y at h) in (free, ground (arith, drawn))
  | inr n ↦
      let same : s ≡ slug = some_inj (rw n at h) in
      (subst (λ t. is_taken t db.caterers ≡ false) same n, ground (arith, (eq_iff s slug).1 same))
]

-- Where the texts that are drawn are distinct and more than there are caterers, the loop ends: it
-- returns one of the texts, and no caterer has it.
pub generate_invoice_prefix_ends :
    (draws : Draws) (db : Database)
    → IsDistinct (slugs_of draws)
    → length db.caterers < length (slugs_of draws)
    → (slug : String) × (generate_invoice_prefix draws db ≡ some slug)
      × (exists (λ s. str_eq s slug) (slugs_of draws) ≡ true)
      × (is_taken slug db.caterers ≡ false)
generate_invoice_prefix_ends draws db distinct enough =
    elim (Option-cases (generate_invoice_prefix draws db)) [
      | inl stuck ↦ absurd (
          omega (
            arith,
            enough,
            length-taken (slugs_of draws) db.caterers distinct
                (all_taken (slugs_of draws) db stuck),
          ))
      | inr (slug, found) ↦
          let (free, drawn) = free_prefix (slugs_of draws) db slug found in
          (slug, found, drawn, free)
    ]
