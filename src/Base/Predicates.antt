-- ===== src/Base/Predicates.antt =====
-- What holds of every row of a table, distinct keys, and how the updates keep both.
use Prim.Native.Nat.{ℕ, suc, ◌+◌, ◌≤◌}
use mathlib.Core.Path.{◌≡◌, refl, sym, ap, subst, fun_ext, ◌∙◌}
use mathlib.Core.Logic.{◌≢◌, inl, inr}
use mathlib.Core.Bool.{Bool, true, false}
use mathlib.Core.Option.{none, some}
use mathlib.Core.List.{List, [], ◌∷◌, ◌++◌, Memᴰ}
use native.Mathlib.Omega.{arith}
use les_traiteurs_engages_v.Base.Tests.{◌==◌, ==_iff, Bool-cases, if◌then◌else◌}
use les_traiteurs_engages_v.Base.Tables.{
  exists, length, find, count, update_first, update_where, delete_first,
}

abbrev pub All {ℓ κ} : {A : Type ℓ} → (A → Type κ) → List A → Type κ
All P [] = Unit
All P (x ∷ xs) = P x × All P xs

-- No two rows have one key: a primary key, or a UNIQUE column.
abbrev pub IsKeyed {ℓ} : {A : Type ℓ} → (A → ℕ) → List A → Type 0
IsKeyed key [] = Unit
IsKeyed key (x ∷ xs) = All (λ y. key y ≢ key x) xs × IsKeyed key xs

module _ {ℓ} {A : Type ℓ} where
  pub All-append {κ} : (P : A → Type κ) (xs ys : List A) → All P xs → All P ys → All P (xs ++ ys)
  All-append P [] ys hx hy = hy
  All-append P (x ∷ xs) ys hx hy = (hx.0, All-append P xs ys hx.1 hy)

  pub All-map {κ μ} :
      (P : A → Type κ) (Q : A → Type μ) (xs : List A) → ((x : A) → P x → Q x) → All P xs → All Q xs
  All-map P Q [] h a = tt
  All-map P Q (x ∷ xs) h a = (h x a.0, All-map P Q xs h a.1)

  All-const {κ} : (P : A → Type κ) (xs : List A) → ((x : A) → P x) → All P xs
  All-const P [] h = tt
  All-const P (x ∷ xs) h = (h x, All-const P xs h)

  All-update_where {κ μ} :
      (P : A → Type κ) (Q : A → Type μ) (t : A → Bool) (f : A → A) (xs : List A)
      → ((x : A) → P x → Q (if t x then f x else x))
      → All P xs
      → All Q (update_where t f xs)
  unfolding update_where
  All-update_where P Q t f [] h a = tt
  All-update_where P Q t f (x ∷ xs) h a = (h x a.0, All-update_where P Q t f xs h a.1)

  pub All-update_first {κ} :
      (P : A → Type κ) (t : A → Bool) (f : A → A) (xs : List A)
      → ((x : A) → P x → t x ≡ true → P (f x))
      → All P xs
      → All P (update_first t f xs)
  unfolding update_first
  All-update_first P t f [] h a = tt
  All-update_first P t f (x ∷ xs) h a = elim (Bool-cases (t x)) [
    | inl e ↦ rw e (h x a.0 e, a.1)
    | inr e ↦ rw e (a.0, All-update_first P t f xs h a.1)
  ]

  pub some_inj : {x y : A} → some x ≡ some y → x ≡ y
  some_inj e = cc

  -- What `find` returns meets its condition, and whatever holds of every row.
  pub find-holds : (t : A → Bool) (xs : List A) (a : A) → find t xs ≡ some a → t a ≡ true
  unfolding find
  find-holds t [] a e = cc
  find-holds t (x ∷ xs) a e = ground (arith, find-holds t xs a)

  pub find-All {κ} :
      (P : A → Type κ) (t : A → Bool) (xs : List A) {a : A} → All P xs → find t xs ≡ some a → P a
  unfolding find
  find-All P t [] h e = cc
  find-All P t (x ∷ xs) {a} h e = elim (Bool-cases (t x)) [
    | inl y ↦ subst P (some_inj (rw y at e)) h.0
    | inr n ↦ find-All P t xs h.1 (rw n at e)
  ]

  All-of_find-none : (t : A → Bool) (xs : List A) → find t xs ≡ none → All (λ x. t x ≡ false) xs
  unfolding find
  All-of_find-none t [] e = tt
  All-of_find-none t (x ∷ xs) e = elim (Bool-cases (t x)) [
    | inl y ↦ cc (rw y at e)
    | inr n ↦ (n, All-of_find-none t xs (rw n at e))
  ]

  -- Counting.
  pub count-append : (t : A → Bool) (xs ys : List A) → count t (xs ++ ys) ≡ count t xs + count t ys
  unfolding count
  count-append t [] ys = omega arith
  count-append t (x ∷ xs) ys = ground (arith, count-append t xs ys)

  pub count-eq-zero : (t : A → Bool) (xs : List A) → All (λ x. t x ≡ false) xs → count t xs ≡ 0
  unfolding count
  count-eq-zero t [] a = refl
  count-eq-zero t (x ∷ xs) a = rw (a.0) (count-eq-zero t xs a.1)

  All-of_count-zero : (t : A → Bool) (xs : List A) → count t xs ≡ 0 → All (λ x. t x ≡ false) xs
  unfolding count
  All-of_count-zero t [] e = tt
  All-of_count-zero t (x ∷ xs) e = elim (Bool-cases (t x)) [
    | inl y ↦ absurd (ground arith)
    | inr n ↦ (n, All-of_count-zero t xs (rw n at e))
  ]

  count_congr : (t u : A → Bool) (xs : List A) → ((x : A) → t x ≡ u x) → count t xs ≡ count u xs
  count_congr t u xs h = rw (fun_ext h)

  -- One row is written: at most one more row meets a condition.
  pub count-update_first-le :
      (t : A → Bool) (f : A → A) (p : A → Bool) (xs : List A)
      → count p (update_first t f xs) ≤ count p xs + 1
  unfolding count update_first
  count-update_first-le t f p [] = omega arith
  count-update_first-le t f p (x ∷ xs) = ground (arith, count-update_first-le t f p xs)

  -- No row comes to meet the condition by the writing of a row.
  pub count-update_first_mono :
      (t : A → Bool) (f : A → A) (p : A → Bool) (xs : List A)
      → ((x : A) → t x ≡ true → p (f x) ≡ true → p x ≡ true)
      → count p (update_first t f xs) ≤ count p xs
  unfolding count update_first
  count-update_first_mono t f p [] h = omega arith
  count-update_first_mono t f p (x ∷ xs) h = ground (arith, h x, count-update_first_mono t f p xs h)

  pub count-update_where_mono :
      (t : A → Bool) (f : A → A) (p : A → Bool) (xs : List A)
      → ((x : A) → t x ≡ true → p (f x) ≡ true → p x ≡ true)
      → count p (update_where t f xs) ≤ count p xs
  unfolding count update_where
  count-update_where_mono t f p [] h = omega arith
  count-update_where_mono t f p (x ∷ xs) h = ground (arith, h x, count-update_where_mono t f p xs h)

  -- A condition that the writes leave alone counts as before.
  pub count-update_where_same :
      (t : A → Bool) (f : A → A) (p : A → Bool) (xs : List A)
      → ((x : A) → t x ≡ true → p (f x) ≡ p x)
      → count p (update_where t f xs) ≡ count p xs
  unfolding count update_where
  count-update_where_same t f p [] h = refl
  count-update_where_same t f p (x ∷ xs) h = ground (arith, h x, count-update_where_same t f p xs h)

  pub length-update_first :
      (t : A → Bool) (f : A → A) (xs : List A) → length (update_first t f xs) ≡ length xs
  unfolding update_first
  length-update_first t f [] = refl
  length-update_first t f (x ∷ xs) = ground (arith, length-update_first t f xs)

  pub length-update_where :
      (t : A → Bool) (f : A → A) (xs : List A) → length (update_where t f xs) ≡ length xs
  unfolding update_where
  length-update_where t f [] = refl
  length-update_where t f (x ∷ xs) = ap suc (length-update_where t f xs)

  -- Keys stay distinct where the writes leave them alone.
  pub update_first-IsKeyed :
      (key : A → ℕ) (t : A → Bool) (f : A → A) (xs : List A)
      → ((x : A) → key (f x) ≡ key x)
      → IsKeyed key xs
      → IsKeyed key (update_first t f xs)
  unfolding update_first
  update_first-IsKeyed key t f [] same k = tt
  update_first-IsKeyed key t f (x ∷ xs) same k = elim (Bool-cases (t x)) [
    | inl e ↦ rw e (rw (same x) k.0, k.1)
    | inr e ↦ rw e (
      All-update_first (λ y. key y ≢ key x) t f xs (λ y h _. rw (same y) h) k.0,
      update_first-IsKeyed key t f xs same k.1,
    )
  ]

  pub update_where-IsKeyed :
      (key : A → ℕ) (t : A → Bool) (f : A → A) (xs : List A)
      → ((x : A) → key (f x) ≡ key x)
      → IsKeyed key xs
      → IsKeyed key (update_where t f xs)
  unfolding update_where
  update_where-IsKeyed key t f [] same k = tt
  update_where-IsKeyed key t f (x ∷ xs) same k = (
    All-update_where (λ y. key y ≢ key x) (λ y. key y ≢ key (if t x then f x else x)) t f xs
        (λ y h. ground (arith, same x, same y)) k.0,
    update_where-IsKeyed key t f xs same k.1,
  )

  pub append-IsKeyed :
      (key : A → ℕ) (xs : List A) (y : A)
      → IsKeyed key xs
      → All (λ x. key x ≢ key y) xs
      → IsKeyed key (xs ++ (y ∷ []))
  append-IsKeyed key [] y k n = (tt, tt)
  append-IsKeyed key (x ∷ xs) y k n = (
    All-append (λ z. key z ≢ key x) xs (y ∷ []) k.0 (λ e. n.0 (sym e), tt),
    append-IsKeyed key xs y k.1 n.1,
  )

  -- A row of a table, and what holds of every row.
  All-Mem {κ} : (P : A → Type κ) (xs : List A) {a : A} → All P xs → Memᴰ a xs → P a
  All-Mem P [] h m = elim m [ ]
  All-Mem P (x ∷ xs) h (Memᴰ.head e) = subst P (sym e) h.0
  All-Mem P (x ∷ xs) h (Memᴰ.tail m) = All-Mem P xs h.1 m

  -- Under a key, the row with a key is the one that the key finds.
  pub find-Mem :
      (key : A → ℕ) (k : ℕ) (xs : List A) (a b : A)
      → IsKeyed key xs
      → Memᴰ a xs
      → key a ≡ k
      → find (λ x. key x == k) xs ≡ some b
      → a ≡ b
  unfolding find
  find-Mem key k [] a b keyed m same h = elim m [ ]
  find-Mem key k (x ∷ xs) a b keyed (Memᴰ.head e) same h =
      let own = (==_iff (key x) k).1 (ap key (sym e) ∙ same) in e ∙ some_inj (rw own at h)
  find-Mem key k (x ∷ xs) a b keyed (Memᴰ.tail m) same h = elim (Bool-cases (key x == k)) [
    | inl y ↦
        absurd (All-Mem (λ z. key z ≢ key x) xs keyed.0 m (same ∙ sym ((==_iff (key x) k).0 y)))
    | inr n ↦ find-Mem key k xs a b keyed.1 m same (rw n at h)
  ]

  -- The row that meets a condition.
  pub Mem-of_exists :
      (t : A → Bool) (xs : List A) → exists t xs ≡ true → (a : A) × Memᴰ a xs × (t a ≡ true)
  unfolding exists
  Mem-of_exists t [] h = cc
  Mem-of_exists t (x ∷ xs) h = elim (Bool-cases (t x)) [
    | inl y ↦ (x, Memᴰ.head refl, y)
    | inr n ↦ let (a, m, y) = Mem-of_exists t xs (rw n at h) in (a, Memᴰ.tail m, y)
  ]

  pub All-delete_first {κ} :
      (P : A → Type κ) (t : A → Bool) (xs : List A) → All P xs → All P (delete_first t xs)
  unfolding delete_first
  All-delete_first P t [] h = tt
  All-delete_first P t (x ∷ xs) h = elim (Bool-cases (t x)) [
    | inl y ↦ rw y (h.1)
    | inr n ↦ rw n (h.0, All-delete_first P t xs h.1)
  ]

  -- The row that is written is the one that is found.
  pub All-update_found {κ} :
      (P : A → Type κ) (t : A → Bool) (f : A → A) (xs : List A) (a : A)
      → find t xs ≡ some a
      → P (f a)
      → All P xs
      → All P (update_first t f xs)
  unfolding find update_first
  All-update_found P t f [] a e h all = tt
  All-update_found P t f (x ∷ xs) a e h all = elim (Bool-cases (t x)) [
    | inl y ↦ rw y (subst (λ z. P (f z)) (sym (some_inj (rw y at e))) h, all.1)
    | inr n ↦ rw n (all.0, All-update_found P t f xs a (rw n at e) h all.1)
  ]
