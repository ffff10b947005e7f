-- ===== src/Impact.antt =====
-- services/impact.py: the amounts that a company has spent on inclusive purchases, by the kind of the
-- caterer's structure. Amounts are in cents.
pub mod Contributions
pub mod Shares
use text.Mathlib.Text.{◌==◌ as str_eq}
use mathlib.Core.Option.{get_or}
use les_traiteurs_engages_v.Base.{
  Bool, List, Option, String, [], find, if◌then◌else◌, is_id, ltb, none, not, some, upsert, ℕ, ◌&&◌,
  ◌*◌, ◌+◌, ◌==◌, ◌||◌, ◌∷◌,
}
use les_traiteurs_engages_v.Models.{Database, Order, QuoteRequest, is_paid, quote_by, request_by}
use les_traiteurs_engages_v.Pricing.Rounding.{round_half_even}

abbrev hours_financed_divisor_eur : ℕ
hours_financed_divisor_eur = 26

-- SIAE_STRUCTURE_TYPES and STPA_STRUCTURE_TYPES.
unfoldable pub is_siae : String → Bool
is_siae t = str_eq t "EI" || str_eq t "ACI"

unfoldable pub is_stpa : String → Bool
is_stpa t = str_eq t "ESAT" || str_eq t "EA"

pub record SocialImpact : Type 0 where
  pub total_ht : ℕ
  pub siae_ht : ℕ
  pub stpa_ht : ℕ
  pub hours_financed : ℕ

-- The two conditions on the request.
abbrev pub is_counted : ℕ → Option ℕ → QuoteRequest → Bool
is_counted company_id none r = r.company_id == company_id
is_counted company_id (some user) r = r.company_id == company_id && is_id r.user_id user

-- What an order contributes to the joined rows: the structure and the amount, NULL adding nothing.
unfoldable pub purchase : ℕ → Option ℕ → Database → Order → Option (String × ℕ)
purchase company_id requester db o =
    if not (is_paid o.status) then none else elim (quote_by o.quote_id db) [
      | none ↦ none
      | some q ↦ elim (request_by q.quote_request_id db) [
        | none ↦ none
        | some r ↦
            if not (is_counted company_id requester r)
            then none
            else (elim (find (λ c. c.id == q.caterer_id) db.caterers) [
              | none ↦ none
              | some c ↦ some (c.structure_type, get_or q.total_amount_ht 0)
            ])
      ]
    ]

-- GROUP BY on the structure, with the sums.
unfoldable pub grouped :
    (Order → Option (String × ℕ)) → List Order → List (String × ℕ) → List (String × ℕ)
grouped row [] d = d
grouped row (o ∷ os) d = elim (row o) [
  | none ↦ grouped row os d
  | some e ↦ grouped row os (upsert str_eq e.0 (λ t. t + e.1) 0 d)
]

abbrev add_bucket : String → ℕ → SocialImpact → SocialImpact
add_bucket t amount s = record s {
  total_ht = s.total_ht + amount;
  siae_ht = if is_siae t then s.siae_ht + amount else s.siae_ht;
  stpa_ht = if is_siae t then s.stpa_ht else if is_stpa t then s.stpa_ht + amount else s.stpa_ht;
}

-- The loop over the groups.
unfoldable pub add_buckets : List (String × ℕ) → SocialImpact → SocialImpact
add_buckets [] s = s
add_buckets ((t, amount) ∷ d) s = add_buckets d (add_bucket t amount s)

abbrev with_hours : SocialImpact → SocialImpact
with_hours s = record s {
  hours_financed =
      if ltb 0 s.total_ht then round_half_even s.total_ht (hours_financed_divisor_eur * 100) else 0;
}

unfoldable pub compute_social_impact : ℕ → Option ℕ → Database → SocialImpact
compute_social_impact company_id requester db = with_hours (
    add_buckets (grouped (purchase company_id requester db) db.orders [])
      (record { total_ht = 0; siae_ht = 0; stpa_ht = 0; hours_financed = 0 }))
