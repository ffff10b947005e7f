-- ===== src/Demands/Owned.antt =====
-- The service that a posted form may name.
use les_traiteurs_engages_v.Base.{
  ◌∷◌, Bool-cases, Option, Option-cases, String, arith, exists, find, find-holds, inl, inr,
  is_empty, is_id, none, some, subst, true, ℕ, ◌&&◌, ◌==◌, ◌≡◌, List, Bool, [], ◌∷◌,
}
use les_traiteurs_engages_v.Demands.{own_service_id}
use les_traiteurs_engages_v.Models.{Database, User}

-- What `find` returns is in the list.
exists-of_find :
    {A : Type 0} (t : A → Bool) (xs : List A) (a : A) → find t xs ≡ some a → exists t xs ≡ true
unfolding find exists
exists-of_find t [] a e = cc
exists-of_find t (x ∷ xs) a e = ground (arith, exists-of_find t xs a)

module _ (user : User) (db : Database) where
  named :
      (candidate k : ℕ)
      → elim (find (λ s. s.id == candidate && is_id user.company_id s.company_id) db.services)
          as (λ _. Option ℕ) [ none ↦ none | some s ↦ some s.id ]
        ≡ some k
      → exists (λ s. s.id == k && is_id user.company_id s.company_id) db.services ≡ true
  named candidate k h =
      elim (Option-cases
        (find (λ s. s.id == candidate && is_id user.company_id s.company_id) db.services)) [
          | inl missing ↦ cc (rw missing at h)
          | inr (s, found) ↦
              let both =
                find-holds (λ s. s.id == candidate && is_id user.company_id s.company_id)
                  db.services s found in
              let is_k : s.id ≡ k = cc (rw found at h) in
              let same : candidate ≡ k = ground (arith, both, is_k) in
              subst
                (λ i.
                  exists (λ s. s.id == i && is_id user.company_id s.company_id) db.services ≡ true)
                same (exists-of_find _ db.services s found)
        ]

  -- A service that is kept is one of the user's company.
  pub own_service_id-own :
      (lower : String → String) (parse_uuid : String → Option ℕ) (raw : Option String) (k : ℕ)
      → own_service_id lower parse_uuid user raw db ≡ some k
      → exists (λ s. s.id == k && is_id user.company_id s.company_id) db.services ≡ true
  unfolding own_service_id
  own_service_id-own lower parse_uuid none k h = cc
  own_service_id-own lower parse_uuid (some raw) k h = elim (Bool-cases (is_empty raw)) [
    | inl y ↦ cc (rw y at h)
    | inr n ↦ elim (Option-cases (parse_uuid raw)) [
      | inl missing ↦ cc (rw (n, missing) at h)
      | inr (candidate, parsed) ↦ named candidate k (rw (n, parsed) at h)
    ]
  ]
