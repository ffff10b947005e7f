-- ===== src/Reviews/Averages/Consistent.antt =====
-- What the aggregates say of the ratings.
use native.Mathlib.Nat.{mul-le-mul_left}
use les_traiteurs_engages_v.Base.{
  ==_iff, ==_refl, All, Bool, Bool-cases, List, Option, [], ap, arith, count, exists, false,
  if◌then◌else◌, inl, inr, leb, map, none, refl, some, subst, sym, true, upsert, ℕ, ◌*◌, ◌+◌, ◌<◌,
  ◌==◌, ◌∙◌, ◌∷◌, ◌≡◌, ◌≤◌,
}
use les_traiteurs_engages_v.Models.{CatererReview, Database}
use les_traiteurs_engages_v.Pricing.Rounding.{round_half_even, round_half_even_near}
use les_traiteurs_engages_v.Reviews.Averages.{
  Tally, add_rating, aggregate_at, aggregate_for_caterer, aggregate_of, aggregates_for_caterers,
  is_listed, tally,
}

abbrev is_about : ℕ → CatererReview → Bool
is_about id r = r.caterer_id == id

-- The ratings of a caterer, added up one by one.
unfoldable pub sum_ratings : ℕ → List CatererReview → ℕ
sum_ratings id [] = 0
sum_ratings id (r ∷ rs) =
    let rest = sum_ratings id rs in if r.caterer_id == id then r.rating + rest else rest

abbrev pub count_reviews : ℕ → List CatererReview → ℕ
count_reviews id rs = count (is_about id) rs

-- What a dictionary holds for a caterer, nothing counting as no rating.
unfoldable held : ℕ → List (ℕ × Tally) → Tally
held id [] = (0, 0)
held id ((j, t) ∷ d) = if j == id then t else held id d

held-upsert :
    (id key rating : ℕ) (d : List (ℕ × Tally))
    → held id (upsert ◌==◌ key (add_rating rating) (0, 0) d)
      ≡ (if key == id then add_rating rating (held id d) else held id d)
unfolding held upsert
held-upsert id key rating [] = ground arith
held-upsert id key rating ((j, t) ∷ d) = ground (arith, held-upsert id key rating d)

abbrev noted : List ℕ → CatererReview → List (ℕ × Tally) → List (ℕ × Tally)
noted ids r d =
    if is_listed ids r.caterer_id
    then upsert ◌==◌ r.caterer_id (add_rating r.rating) (0, 0) d
    else d

held-noted :
    (ids : List ℕ) (id : ℕ) (r : CatererReview) (d : List (ℕ × Tally))
    → is_listed ids id ≡ true
    → held id (noted ids r d)
      ≡ (if r.caterer_id == id then add_rating r.rating (held id d) else held id d)
held-noted ids id r d listed = elim (Bool-cases (is_listed ids r.caterer_id)) [
  | inl y ↦ rw y (held-upsert id r.caterer_id r.rating d)
  | inr n ↦ elim (Bool-cases (r.caterer_id == id)) [
    | inl own ↦
        let same : r.caterer_id ≡ id = (==_iff _ _).0 own in
        cc (subst (λ i. is_listed ids i ≡ false) same n, listed)
    | inr other ↦ rw (n, other) refl
  ]
]

held-tally :
    (ids : List ℕ) (id : ℕ) (rs : List CatererReview) (d : List (ℕ × Tally))
    → is_listed ids id ≡ true
    → ((held id (tally ids rs d)).0 ≡ (held id d).0 + sum_ratings id rs)
      × ((held id (tally ids rs d)).1 ≡ (held id d).1 + count_reviews id rs)
unfolding tally sum_ratings count
held-tally ids id [] d listed = (omega arith, omega arith)
held-tally ids id (r ∷ rs) d listed =
    let (a, b) = held-tally ids id rs (noted ids r d) listed in
    let n = held-noted ids id r d listed in
    elim (Bool-cases (r.caterer_id == id)) [
      | inl own ↦
          let m : held id (noted ids r d) ≡ add_rating r.rating (held id d) = rw own at n in
          rw own (omega (arith, a, ap (λ t. t.0) m), omega (arith, b, ap (λ t. t.1) m))
      | inr other ↦
          let m : held id (noted ids r d) ≡ held id d = rw other at n in
          rw other (omega (arith, a, ap (λ t. t.0) m), omega (arith, b, ap (λ t. t.1) m))
    ]

aggregate_at-map :
    (id : ℕ) (d : List (ℕ × Tally))
    → aggregate_at id (map (λ e. (e.0, aggregate_of e.1)) d) ≡ aggregate_of (held id d)
unfolding aggregate_at held
aggregate_at-map id [] = refl
aggregate_at-map id ((j, t) ∷ d) = elim (Bool-cases (j == id)) [
  | inl y ↦ rw y refl
  | inr n ↦ rw n (aggregate_at-map id d)
]

same_figures : {s s' n n' : ℕ} → s ≡ s' → n ≡ n' → aggregate_of (s, n) ≡ aggregate_of (s', n')
same_figures p q = rw (p, q) refl

-- What a list of caterers says of one of them.
shown_at :
    (ids : List ℕ) (id : ℕ) (db : Database)
    → is_listed ids id ≡ true
    → aggregate_at id (aggregates_for_caterers ids db)
      ≡ aggregate_of (sum_ratings id db.reviews, count_reviews id db.reviews)
unfolding aggregates_for_caterers held exists
shown_at [] id db listed = cc
shown_at (i ∷ ids) id db listed =
    let (a, b) = held-tally (i ∷ ids) id db.reviews [] listed in
    aggregate_at-map id (tally (i ∷ ids) db.reviews [])
    ∙ same_figures (omega (arith, a)) (omega (arith, b))

sum_ratings-bounds :
    (id : ℕ) (rs : List CatererReview)
    → All (λ r. (1 ≤ r.rating) × (r.rating ≤ 5)) rs
    → (count_reviews id rs ≤ sum_ratings id rs) × (sum_ratings id rs ≤ 5 * count_reviews id rs)
unfolding sum_ratings count
sum_ratings-bounds id [] h = (omega arith, omega arith)
sum_ratings-bounds id (r ∷ rs) h =
    let (a, b) = sum_ratings-bounds id rs h.1 in
    let (low, high) = h.0 in
    elim (Bool-cases (r.caterer_id == id)) [
      | inl own ↦ rw own (omega (arith, a, low), omega (arith, b, high))
      | inr other ↦ rw other (a, b)
    ]

-- A mean of ratings from 1 to 5, to one decimal.
rounded_mean :
    (s n : ℕ)
    → 0 < n
    → n ≤ s
    → s ≤ 5 * n
    → (10 ≤ round_half_even (10 * s) n) × (round_half_even (10 * s) n ≤ 50)
rounded_mean s n p low high =
    let (lower, upper) = round_half_even_near (10 * s) n p in
    let a = round_half_even (10 * s) n in
    (
      elim (Bool-cases (leb 10 a)) [
        | inl y ↦ ground (arith, y)
        | inr m ↦
            let less : a ≤ 9 = ground (arith, m) in
            absurd (omega (arith, upper, low, p, mul-le-mul_left n less))
      ],
      elim (Bool-cases (leb a 50)) [
        | inl y ↦ ground (arith, y)
        | inr m ↦
            let more : 51 ≤ a = ground (arith, m) in
            absurd (omega (arith, lower, high, p, mul-le-mul_left n more))
      ],
    )

-- What may be shown of n ratings that add up to s.
abbrev pub IsMean : ℕ → ℕ → Option ℕ → Type 0
IsMean s n none = n ≡ 0
IsMean s n (some a) =
    (0 < n)
    × (10 ≤ a)
    × (a ≤ 50)
    × (2 * (n * a) ≤ 2 * (10 * s) + n)
    × (2 * (10 * s) ≤ 2 * (n * a) + n)

aggregate_of-IsMean : (s n : ℕ) → n ≤ s → s ≤ 5 * n → IsMean s n (aggregate_of (s, n)).avg
aggregate_of-IsMean s n low high = elim (Bool-cases (n == 0)) [
  | inl y ↦ rw y ((==_iff n 0).0 y)
  | inr m ↦
      let p : 0 < n = ground (arith, m) in
      let (least, most) = rounded_mean s n p low high in
      let (lower, upper) = round_half_even_near (10 * s) n p in rw m (p, least, most, lower, upper)
]

-- A page of the catalogue says of each caterer on it what the caterer's own page says: the number of
-- the reviews and, if there are any, their mean to one decimal, which lies between 1 and 5 where
-- every rating does.
pub aggregates_for_caterers-IsMean :
    (ids : List ℕ) (id : ℕ) (db : Database)
    → is_listed ids id ≡ true
    → All (λ r. (1 ≤ r.rating) × (r.rating ≤ 5)) db.reviews
    → let shown = aggregate_at id (aggregates_for_caterers ids db) in
      (shown ≡ aggregate_for_caterer id db)
      × (shown.count ≡ count_reviews id db.reviews)
      × IsMean (sum_ratings id db.reviews) (count_reviews id db.reviews) shown.avg
unfolding exists
aggregates_for_caterers-IsMean ids id db listed rated =
    let n = count_reviews id db.reviews in
    let s = sum_ratings id db.reviews in
    let e = shown_at ids id db listed in
    let own = shown_at (id ∷ []) id db (ground (arith, ==_refl id)) in
    let (low, high) = sum_ratings-bounds id db.reviews rated in
    (
      e ∙ sym own,
      ap (λ a. a.count) e,
      subst (λ a. IsMean s n a.avg) (sym e) (aggregate_of-IsMean s n low high),
    )
