-- ===== src/Editor/Kept.antt =====
-- What a step of the editor may do to the table of the quotes.
use les_traiteurs_engages_v.Base.{
  Bool, Bool-cases, List, Option, [], arith, count, count-append, count-update_first_mono, false,
  find, find-append, inl, inr, none, refl, some, some_inj, subst, sym, true, update_first, ℕ, ◌++◌,
  ◌==◌, ◌∷◌, ◌≡◌, ◌≤◌,
}
use les_traiteurs_engages_v.Editor.{is_draft_of}
use les_traiteurs_engages_v.Models.{Quote, is_draft}

abbrev quote_of : ℕ → List Quote → Option Quote
quote_of i qs = find (λ q. q.id == i) qs

-- Quotes that are no drafts stay as they are, and no pair of a request and a caterer gets a second
-- draft.
pub record Kept (before after : List Quote) : Type 0 where
  pub frozen :
      (i : ℕ) (q : Quote)
      → quote_of i before ≡ some q
      → is_draft q.status ≡ false
      → quote_of i after ≡ some q
  pub one_draft : (r c : ℕ) → count (is_draft_of r c) before ≤ 1 → count (is_draft_of r c) after ≤ 1

pub Kept-refl : (qs : List Quote) → Kept qs qs
Kept-refl qs = record { frozen = λ i q e d. e; one_draft = λ r c h. h }

pub Kept-trans : (a b c : List Quote) → Kept a b → Kept b c → Kept a c
Kept-trans a b c h k = record {
  frozen = λ i q e d. k.frozen i q (h.frozen i q e d) d;
  one_draft = λ r u e. k.one_draft r u (h.one_draft r u e);
}

count-find-none : (t : Quote → Bool) (qs : List Quote) → find t qs ≡ none → count t qs ≡ 0
unfolding count find
count-find-none t [] e = refl
count-find-none t (x ∷ xs) e = ground (arith, count-find-none t xs)

-- A draft is added where there is none.
one_more :
    (r c : ℕ) (new : Quote) (qs : List Quote)
    → find (is_draft_of new.quote_request_id new.caterer_id) qs ≡ none
    → count (is_draft_of r c) qs ≤ 1
    → count (is_draft_of r c) (qs ++ new ∷ []) ≤ 1
unfolding count
one_more r c new qs h le = elim (Bool-cases (is_draft_of r c new)) [
  | inl y ↦
      let same_request : new.quote_request_id ≡ r = ground arith in
      let same_caterer : new.caterer_id ≡ c = ground arith in
      let zero : count (is_draft_of r c) qs ≡ 0 = count-find-none (is_draft_of r c) qs (
        subst (λ b. find (is_draft_of r b) qs ≡ none) same_caterer
          (subst (λ a. find (is_draft_of a new.caterer_id) qs ≡ none) same_request h)) in
      rw (count-append (is_draft_of r c) qs (new ∷ []), y, zero) (omega arith)
  | inr n ↦ rw (count-append (is_draft_of r c) qs (new ∷ []), n) (omega (arith, le))
]

pub append-Kept :
    (new : Quote) (qs : List Quote)
    → find (is_draft_of new.quote_request_id new.caterer_id) qs ≡ none
    → Kept qs (qs ++ new ∷ [])
append-Kept new qs h = record {
  frozen = λ i q e d. find-append (λ q. q.id == i) qs (new ∷ []) q e;
  one_draft = λ r c le. one_more r c new qs h le;
}

module _ (t : Quote → Bool) (f : Quote → Quote) (same_id : (q : Quote) → (f q).id ≡ q.id) where
  -- The draft that is written is not the quote in question.
  update_frozen :
      (i : ℕ) (q o : Quote) (qs : List Quote)
      → find t qs ≡ some o
      → is_draft o.status ≡ true
      → quote_of i qs ≡ some q
      → is_draft q.status ≡ false
      → quote_of i (update_first t f qs) ≡ some q
  unfolding find update_first
  update_frozen i q o [] h d e n = cc
  update_frozen i q o (x ∷ xs) h d e n = elim (Bool-cases (t x)) [
    | inl y ↦
        let drafted : is_draft x.status ≡ true =
          subst (λ z. is_draft z.status ≡ true) (sym (some_inj (rw y at h))) d in
        elim (Bool-cases (x.id == i)) [
          | inl own ↦ absurd (
              drafted_not drafted
                (subst (λ z. is_draft z.status ≡ false) (sym (some_inj (rw own at e))) n))
          | inr other ↦ rw (y, same_id x, other) (rw other at e)
        ]
    | inr m ↦ elim (Bool-cases (x.id == i)) [
      | inl own ↦ rw (m, own) (rw own at e)
      | inr other ↦ rw (m, other) (update_frozen i q o xs (rw m at h) d (rw other at e) n)
    ]
  ]
    where
      drafted_not : {b : Bool} → b ≡ true → b ≡ false → ⊥
      drafted_not p r = cc

  pub update-Kept :
      (o : Quote) (qs : List Quote)
      → find t qs ≡ some o
      → is_draft o.status ≡ true
      → ((r c : ℕ) (q : Quote) → is_draft_of r c (f q) ≡ true → is_draft_of r c q ≡ true)
      → Kept qs (update_first t f qs)
  update-Kept o qs h d keeps = record {
    frozen = λ i q e n. update_frozen i q o qs h d e n;
    one_draft = λ r c le.
        omega (arith, le, count-update_first_mono t f (is_draft_of r c) qs (λ q y. keeps r c q));
  }
