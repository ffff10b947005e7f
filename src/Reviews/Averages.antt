-- ===== src/Reviews/Averages.antt =====
-- The aggregates of services/reviews.py, which the catalogue and a caterer's page show. An average is
-- in tenths.
pub mod Consistent
use les_traiteurs_engages_v.Base.{
  Bool, List, Option, [], exists, if◌then◌else◌, map, none, some, upsert, ℕ, ◌*◌, ◌+◌, ◌==◌, ◌∷◌,
}
use les_traiteurs_engages_v.Models.{CatererReview, Database}
use les_traiteurs_engages_v.Pricing.Rounding.{round_half_even}

pub record ReviewAggregate : Type 0 where
  pub avg : Option ℕ
  pub count : ℕ

-- The sum and the number of the ratings of a group.
abbrev pub Tally : Type 0
Tally = ℕ × ℕ

abbrev pub add_rating : ℕ → Tally → Tally
add_rating rating (sum, n) = (sum + rating, n + 1)

abbrev pub is_listed : List ℕ → ℕ → Bool
is_listed ids id = exists (λ i. i == id) ids

-- The rows of the listed caterers, grouped by caterer.
unfoldable pub tally : List ℕ → List CatererReview → List (ℕ × Tally) → List (ℕ × Tally)
tally ids [] d = d
tally ids (r ∷ rs) d = tally ids rs (
    if is_listed ids r.caterer_id
    then upsert ◌==◌ r.caterer_id (add_rating r.rating) (0, 0) d
    else d)

-- AVG, which is NULL of no rows, rounded to one decimal; PostgreSQL's sixteen digits make no tie
-- that is none.
abbrev pub aggregate_of : Tally → ReviewAggregate
aggregate_of (sum, n) = record {
  avg = if n == 0 then none else some (round_half_even (10 * sum) n);
  count = n;
}

unfoldable pub aggregates_for_caterers : List ℕ → Database → List (ℕ × ReviewAggregate)
aggregates_for_caterers [] db = []
aggregates_for_caterers (i ∷ ids) db =
    map (λ e. (e.0, aggregate_of e.1)) (tally (i ∷ ids) db.reviews [])

-- `d.get(k, ReviewAggregate(avg=None, count=0))`.
unfoldable pub aggregate_at : ℕ → List (ℕ × ReviewAggregate) → ReviewAggregate
aggregate_at k [] = record { avg = none; count = 0 }
aggregate_at k ((j, a) ∷ d) = if j == k then a else aggregate_at k d

abbrev pub aggregate_for_caterer : ℕ → Database → ReviewAggregate
aggregate_for_caterer id db = aggregate_at id (aggregates_for_caterers (id ∷ []) db)
