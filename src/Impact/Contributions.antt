-- ===== src/Impact/Contributions.antt =====
-- What one order adds to the figures, from the rows that it refers to.
use mathlib.Core.Option.{get_or}
use les_traiteurs_engages_v.Base.{
  Option-cases, find, is_id, not, ◌&&◌, ◌==◌, Bool, Bool-cases, Option, String, if◌then◌else◌, inl,
  inr, none, refl, some, true, ℕ, ◌≡◌,
}
use les_traiteurs_engages_v.Impact.{is_counted, purchase}
use les_traiteurs_engages_v.Models.{Database, Order, QuoteRequest, is_paid}

-- What an order counts for among the structures of a kind.
abbrev pub part : (String → Bool) → Option (String × ℕ) → ℕ
part k none = 0
part k (some e) = if k e.0 then e.1 else 0

-- No requester is asked for, or the request is the requester's.
abbrev is_asked : Option ℕ → QuoteRequest → Bool
is_asked none r = true
is_asked (some user) r = is_id r.user_id user

-- What an order counts for among the structures of a kind, from the rows that it refers to.
abbrev pub amount_of : (String → Bool) → ℕ → Option ℕ → Database → Order → ℕ
amount_of k company_id requester db o =
    if not (is_paid o.status) then 0 else elim (find (λ q. q.id == o.quote_id) db.quotes) [
      | none ↦ 0
      | some q ↦ elim (find (λ r. r.id == q.quote_request_id) db.requests) [
        | none ↦ 0
        | some r ↦ elim (find (λ c. c.id == q.caterer_id) db.caterers) [
          | none ↦ 0
          | some c ↦
              if r.company_id == company_id && is_asked requester r && k c.structure_type
              then get_or q.total_amount_ht 0
              else 0
        ]
      ]
    ]

module _ (company_id : ℕ) (requester : Option ℕ) (db : Database) where
  counted_nothing :
      (k : String → Bool) (u : Option ℕ) (r : QuoteRequest)
      → part k (if not (is_counted company_id u r) then none else none) ≡ 0
  counted_nothing k u r = elim (Bool-cases (is_counted company_id u r)) [
    | inl y ↦ rw y refl
    | inr n ↦ rw n refl
  ]

  counted_amount :
      (k : String → Bool) (u : Option ℕ) (r : QuoteRequest) (t : String) (a : ℕ)
      → part k (if not (is_counted company_id u r) then none else some (t, a))
        ≡ (if r.company_id == company_id && is_asked u r && k t then a else 0)
  counted_amount k none r t a = elim (Bool-cases (r.company_id == company_id)) [
    | inl y ↦ rw y refl
    | inr n ↦ rw n refl
  ]
  counted_amount k (some u) r t a = elim (Bool-cases (r.company_id == company_id)) [
    | inl y ↦ rw y (elim (Bool-cases (is_id r.user_id u)) [
      | inl own ↦ rw own refl
      | inr other ↦ rw other refl
    ])
    | inr n ↦ rw n refl
  ]

  pub part-purchase :
      (k : String → Bool) (o : Order)
      → part k (purchase company_id requester db o) ≡ amount_of k company_id requester db o
  unfolding purchase
  part-purchase k o = elim (Bool-cases (is_paid o.status)) [
    | inl paid ↦ rw paid (elim (Option-cases (find (λ q. q.id == o.quote_id) db.quotes)) [
      | inl no_quote ↦ rw no_quote refl
      | inr (q, quote) ↦
          rw quote (elim (Option-cases (find (λ r. r.id == q.quote_request_id) db.requests)) [
            | inl no_request ↦ rw no_request refl
            | inr (r, request) ↦
                rw request (elim (Option-cases (find (λ c. c.id == q.caterer_id) db.caterers)) [
                  | inl no_caterer ↦ rw no_caterer (counted_nothing k requester r)
                  | inr (c, caterer) ↦
                      rw caterer
                        (counted_amount k requester r c.structure_type (get_or q.total_amount_ht 0))
                ])
          ])
    ])
    | inr unpaid ↦ rw unpaid refl
  ]
