-- ===== src/Terms/Current.antt =====
-- The version of the terms in force is the last that has taken effect.
use les_traiteurs_engages_v.Base.{
  false, All, Bool-cases, inl, inr, subst, some_inj, List, [], arith, if◌then◌else◌, leb, select,
  some, true, ℕ, ◌∷◌, ◌≡◌, ◌≤◌,
}
use les_traiteurs_engages_v.Models.{Database, TermsVersion, User}
use les_traiteurs_engages_v.Terms.{current_terms_version, first_of, is_before, limit_1}

-- In force on the day, and of no earlier effect than any other version in force.
pub record IsCurrent (today : ℕ) (db : Database) (v : TermsVersion) : Type 0 where
  pub in_force : v.effective_at ≤ today
  pub last :
      All
        (λ (w : TermsVersion). w.effective_at ≤ today → w.effective_at ≤ v.effective_at)
        db.terms_versions

-- The user has accepted the version in force, at the time given.
pub record HasAccepted (today now : ℕ) (db : Database) (user : User) : Type 0 where
  pub terms : TermsVersion
  pub is_current : IsCurrent today db terms
  pub of_version : user.terms_accepted_version_id ≡ some terms.id
  pub at_time : user.terms_accepted_at ≡ some now

first_of-holds :
    (P : TermsVersion → Type 0) (v : TermsVersion) (ws : List TermsVersion)
    → P v
    → All P ws
    → P (first_of v ws)
unfolding first_of
first_of-holds P v [] h all = h
first_of-holds P v (w ∷ ws) h all =
    first_of-holds P (if is_before w v then w else v) ws
      (elim (is_before w v) as (λ b. P (if b then w else v)) [ true ↦ all.0 | false ↦ h ]) all.1

chosen :
    (v w : TermsVersion)
    → (v.effective_at ≤ (if is_before w v then w else v).effective_at)
      × (w.effective_at ≤ (if is_before w v then w else v).effective_at)
chosen v w = (ground arith, ground arith)

first_of-last :
    (v : TermsVersion) (ws : List TermsVersion)
    → (v.effective_at ≤ (first_of v ws).effective_at)
      × All (λ (w : TermsVersion). w.effective_at ≤ (first_of v ws).effective_at) ws
unfolding first_of
first_of-last v [] = (omega arith, tt)
first_of-last v (w ∷ ws) =
    let (kept, dropped) = chosen v w in
    let (least, rest) = first_of-last (if is_before w v then w else v) ws in
    (omega (arith, kept, least), (omega (arith, dropped, least), rest))

All-select :
    (P : TermsVersion → Type 0) (today : ℕ) (vs : List TermsVersion)
    → All P (select (λ v. leb v.effective_at today) vs)
    → All (λ (w : TermsVersion). w.effective_at ≤ today → P w) vs
unfolding select
All-select P today [] h = tt
All-select P today (v ∷ vs) h = elim (Bool-cases (leb v.effective_at today)) [
  | inl due ↦ let kept = rw due at h in (λ _. kept.0, All-select P today vs kept.1)
  | inr later ↦ (λ soon. ground (arith, soon, later), All-select P today vs (rw later at h))
]

select-All :
    (today : ℕ) (vs : List TermsVersion)
    → All (λ (w : TermsVersion). w.effective_at ≤ today) (select (λ v. leb v.effective_at today) vs)
unfolding select
select-All today [] = tt
select-All today (v ∷ vs) = elim (Bool-cases (leb v.effective_at today)) [
  | inl due ↦ rw due (ground (arith, due), select-All today vs)
  | inr later ↦ rw later (select-All today vs)
]

pub current_terms_version-IsCurrent :
    (today : ℕ) (db : Database) (v : TermsVersion)
    → current_terms_version today db ≡ some v
    → IsCurrent today db v
current_terms_version-IsCurrent today db v h =
    go (select (λ v. leb v.effective_at today) db.terms_versions) h
      (select-All today db.terms_versions) (λ P. All-select P today db.terms_versions)
  where
    go :
        (vs : List TermsVersion)
        → limit_1 vs ≡ some v
        → All (λ (w : TermsVersion). w.effective_at ≤ today) vs
        → ((P : TermsVersion → Type 0)
            → All P vs
            → All (λ (w : TermsVersion). w.effective_at ≤ today → P w) db.terms_versions)
        → IsCurrent today db v
    go [] found due spread = cc
    go (w ∷ ws) found due spread =
        let least = first_of-last w ws in
        subst (IsCurrent today db) (some_inj found) (record {
          in_force = first_of-holds (λ w. w.effective_at ≤ today) w ws due.0 due.1;
          last = spread (λ x. x.effective_at ≤ (first_of w ws).effective_at) least;
        })
