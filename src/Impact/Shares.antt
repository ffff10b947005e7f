-- ===== src/Impact/Shares.antt =====
-- The figures of the impact are sums over the paid orders.
use text.Mathlib.Text.{◌==◌ as str_eq}
use text.Mathlib.TextEquality.{eq_iff}
use les_traiteurs_engages_v.Base.{
  ap, fun_ext, ◌||◌, ◌∙◌, Bool, Bool-cases, List, Option, String, [], arith, false, if◌then◌else◌,
  inl, inr, none, refl, some, true, upsert, ℕ, ◌*◌, ◌+◌, ◌∷◌, ◌≡◌, ◌≤◌,
}
use les_traiteurs_engages_v.Impact.{
  SocialImpact, add_bucket, add_buckets, compute_social_impact, grouped, is_siae, is_stpa, purchase,
}
use les_traiteurs_engages_v.Impact.Contributions.{amount_of, part, part-purchase}
use les_traiteurs_engages_v.Models.{Database, Order}
use les_traiteurs_engages_v.Pricing.Rounding.{round_half_even_near}

-- The amounts of a kind of structure, in a dictionary.
unfoldable sum_kind : (String → Bool) → List (String × ℕ) → ℕ
sum_kind k [] = 0
sum_kind k ((t, a) ∷ d) = let rest = sum_kind k d in if k t then a + rest else rest

-- The same, summed over the orders one by one.
unfoldable spent_rows : (String → Bool) → (Order → Option (String × ℕ)) → List Order → ℕ
spent_rows k row [] = 0
spent_rows k row (o ∷ os) = part k (row o) + spent_rows k row os

sum_kind-upsert :
    (k : String → Bool) (t : String) (a : ℕ) (d : List (String × ℕ))
    → sum_kind k (upsert str_eq t (λ n. n + a) 0 d) ≡ sum_kind k d + (if k t then a else 0)
unfolding sum_kind upsert
sum_kind-upsert k t a [] = ground arith
sum_kind-upsert k t a ((j, w) ∷ d) = elim (Bool-cases (str_eq j t)) [
  | inl y ↦ rw (y, (eq_iff j t).0 y) (ground arith)
  | inr n ↦ rw n (ground (arith, sum_kind-upsert k t a d))
]

sum_kind-grouped :
    (k : String → Bool) (row : Order → Option (String × ℕ)) (os : List Order)
    (d : List (String × ℕ))
    → sum_kind k (grouped row os d) ≡ sum_kind k d + spent_rows k row os
unfolding grouped spent_rows
sum_kind-grouped k row [] d = omega arith
sum_kind-grouped k row (o ∷ os) d = step (λ d. sum_kind-grouped k row os d) (row o)
  where
    step :
        ((d : List (String × ℕ))
          → sum_kind k (grouped row os d) ≡ sum_kind k d + spent_rows k row os)
        → (m : Option (String × ℕ))
        → sum_kind k (elim m [
          | none ↦ grouped row os d
          | some e ↦ grouped row os (upsert str_eq e.0 (λ t. t + e.1) 0 d)
        ])
          ≡ sum_kind k d + (part k m + spent_rows k row os)
    step rest none = omega (arith, rest d)
    step rest (some e) =
        grind (arith, rest (upsert str_eq e.0 (λ t. t + e.1) 0 d), sum_kind-upsert k e.0 e.1 d)

apart : (t : String) → is_stpa t ≡ true → is_siae t ≡ false
unfolding is_stpa is_siae
apart t h = elim (Bool-cases (str_eq t "ESAT")) [
  | inl y ↦ rw ((eq_iff t "ESAT").0 y) refl
  | inr n ↦ rw ((eq_iff t "EA").0 (ground arith)) refl
]

abbrev every : String → Bool
every t = true

shares_within :
    (row : Order → Option (String × ℕ)) (os : List Order)
    → spent_rows is_siae row os + spent_rows is_stpa row os ≤ spent_rows every row os
unfolding spent_rows
shares_within row [] = omega arith
shares_within row (o ∷ os) = omega (arith, within (row o), shares_within row os)
  where
    within : (e : Option (String × ℕ)) → part is_siae e + part is_stpa e ≤ part every e
    within none = omega arith
    within (some (t, a)) = ground (arith, apart t)

abbrev nothing : SocialImpact
nothing = record { total_ht = 0; siae_ht = 0; stpa_ht = 0; hours_financed = 0 }

abbrev Added : List (String × ℕ) → SocialImpact → SocialImpact → Type 0
Added d s s' =
    (s'.total_ht ≡ s.total_ht + sum_kind every d)
    × (s'.siae_ht ≡ s.siae_ht + sum_kind is_siae d)
    × (s'.stpa_ht ≡ s.stpa_ht + sum_kind is_stpa d)

add_buckets-Added : (d : List (String × ℕ)) (s : SocialImpact) → Added d s (add_buckets d s)
unfolding add_buckets sum_kind
add_buckets-Added [] s = (omega arith, omega arith, omega arith)
add_buckets-Added ((t, amount) ∷ d) s =
    let (a, b, c) = add_buckets-Added d (add_bucket t amount s) in
    let excluded = apart t in (omega (arith, a), ground (arith, b), ground (arith, c, excluded))

-- The kinds of structures, as the statement names them.
siae_kind : (t : String) → is_siae t ≡ str_eq t "EI" || str_eq t "ACI"
unfolding is_siae
siae_kind t = refl

stpa_kind : (t : String) → is_stpa t ≡ str_eq t "ESAT" || str_eq t "EA"
unfolding is_stpa
stpa_kind t = refl

-- The sum over the orders.
unfoldable pub spent : (Order → ℕ) → List Order → ℕ
spent amount [] = 0
spent amount (o ∷ os) = amount o + spent amount os

module _ (company_id : ℕ) (requester : Option ℕ) (db : Database) where
  abbrev pub shown : SocialImpact
  shown = compute_social_impact company_id requester db

  abbrev row : Order → Option (String × ℕ)
  row = purchase company_id requester db

  spent_rows-spent :
      (k kind : String → Bool) (os : List Order)
      → ((t : String) → k t ≡ kind t)
      → spent_rows k row os ≡ spent (amount_of kind company_id requester db) os
  unfolding spent_rows spent
  spent_rows-spent k kind [] same = refl
  spent_rows-spent k kind (o ∷ os) same = omega (
    arith,
    part-purchase company_id requester db k o,
    ap (λ k. amount_of k company_id requester db o) (fun_ext same),
    spent_rows-spent k kind os same,
  )

  figures :
      (shown.total_ht ≡ spent_rows every row db.orders)
      × (shown.siae_ht ≡ spent_rows is_siae row db.orders)
      × (shown.stpa_ht ≡ spent_rows is_stpa row db.orders)
  unfolding compute_social_impact sum_kind
  figures =
      let (a, b, c) = add_buckets-Added (grouped row db.orders []) nothing in
      (
        omega (arith, a, sum_kind-grouped every row db.orders []),
        omega (arith, b, sum_kind-grouped is_siae row db.orders []),
        omega (arith, c, sum_kind-grouped is_stpa row db.orders []),
      )

  rounded_hours :
      (2 * (2600 * shown.hours_financed) ≤ 2 * shown.total_ht + 2600)
      × (2 * shown.total_ht ≤ 2 * (2600 * shown.hours_financed) + 2600)
  unfolding compute_social_impact
  rounded_hours = ground (arith, round_half_even_near shown.total_ht 2600)

  -- The figures that are shown are the sums over the orders, one by one, of the quote's amount, where
  -- it has one: of the orders that are paid, on a request of the company, and of the requester if one
  -- is asked for. The total takes all of these, the first share those with an EI or an ACI, the second
  -- those with an ESAT or an EA. The two shares do not exceed the total, and the hours are the total
  -- at 26 euros, to half an hour.
  pub compute_social_impact-spent :
      let amount = λ (k : String → Bool). spent (amount_of k company_id requester db) db.orders in
      (shown.total_ht ≡ amount (λ t. true))
      × (shown.siae_ht ≡ amount (λ t. str_eq t "EI" || str_eq t "ACI"))
      × (shown.stpa_ht ≡ amount (λ t. str_eq t "ESAT" || str_eq t "EA"))
      × (shown.siae_ht + shown.stpa_ht ≤ shown.total_ht)
      × (2 * (2600 * shown.hours_financed) ≤ 2 * shown.total_ht + 2600)
      × (2 * shown.total_ht ≤ 2 * (2600 * shown.hours_financed) + 2600)
  compute_social_impact-spent =
      let (a, b, c) = figures in
      let (lower, upper) = rounded_hours in
      (
        a ∙ spent_rows-spent every every db.orders (λ t. refl),
        b ∙ spent_rows-spent is_siae _ db.orders siae_kind,
        c ∙ spent_rows-spent is_stpa _ db.orders stpa_kind,
        omega (arith, a, b, c, shares_within row db.orders),
        lower,
        upper,
      )
