-- ===== src/Scoping/Rows.antt =====
-- What a query by a key and a condition returns, against the same key with another condition.
use les_traiteurs_engages_v.Base.{
  Bool, Bool-cases, IsKeyed, List, Option-cases, [], ap, arith, false, find, find-holds, find-key,
  inl, inr, none, some, some_inj, subst, sym, true, ℕ, ◌&&◌, ◌==◌, ◌∙◌, ◌∷◌, ◌≡◌,
}

-- Under a key, two conditions that find a row with one key find the same row.
find-same :
    {A : Type 0} (key : A → ℕ) (t u : A → Bool) (k : ℕ) (xs : List A) (a b : A)
    → IsKeyed key xs
    → find (λ x. key x == k && t x) xs ≡ some a
    → find (λ x. key x == k && u x) xs ≡ some b
    → a ≡ b
find-same key t u k xs a b keyed ha hb =
    some_inj (sym (find-key key t k xs a keyed ha) ∙ find-key key u k xs b keyed hb)

pub find-second :
    {A : Type 0} (key : A → ℕ) (t : A → Bool) (k : ℕ) (xs : List A) (a : A)
    → find (λ x. key x == k && t x) xs ≡ some a
    → t a ≡ true
find-second key t k xs a h = let b = find-holds (λ x. key x == k && t x) xs a h in ground (arith, b)

-- A row that one condition lets through is hidden by another that fails on it.
pub find-hidden :
    {A : Type 0} (key : A → ℕ) (t u : A → Bool) (k : ℕ) (xs : List A) (a : A)
    → IsKeyed key xs
    → find (λ x. key x == k && t x) xs ≡ some a
    → u a ≡ false
    → find (λ x. key x == k && u x) xs ≡ none
find-hidden key t u k xs a keyed h fails = elim (Option-cases (find (λ x. key x == k && u x) xs)) [
  | inl e ↦ e
  | inr (b, e) ↦
      let same = find-same key t u k xs a b keyed h e in
      let yes = find-second key u k xs b e in
      absurd (cc (subst (λ x. u x ≡ true) (sym same) yes, fails))
]

-- A row that is found by its key is found with a condition that it meets.
pub find-with :
    {A : Type 0} (key : A → ℕ) (t : A → Bool) (k : ℕ) (xs : List A) (a : A)
    → find (λ x. key x == k) xs ≡ some a
    → t a ≡ true
    → find (λ x. key x == k && t x) xs ≡ some a
unfolding find
find-with key t k [] a e h = cc
find-with key t k (x ∷ xs) a e h = elim (Bool-cases (key x == k)) [
  | inl y ↦ with_first y
  | inr n ↦ rw n (find-with key t k xs a (rw n at e) h)
]
  where
    with_first : (key x == k) ≡ true → find (λ y. key y == k && t y) (x ∷ xs) ≡ some a
    with_first y =
        let same = some_inj (rw y at e) in
        rw y (rw (subst (λ z. t z ≡ true) (sym same) h) (ap some same))
