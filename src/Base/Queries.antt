-- ===== src/Base/Queries.antt =====
-- What the queries return after an update.
use Prim.Native.Nat.{ℕ, ◌+◌}
use mathlib.Core.Path.{◌≡◌, refl}
use mathlib.Core.Logic.{◌≢◌, ◌⊎◌}
use mathlib.Core.Bool.{Bool, true, false, ◌&&◌}
use mathlib.Core.Option.{none, some}
use mathlib.Core.List.{List, [], ◌∷◌, ◌++◌}
use native.Mathlib.Omega.{arith}
use les_traiteurs_engages_v.Base.Tests.{◌==◌}
use les_traiteurs_engages_v.Base.Tables.{
  find, count, select, update_first, update_where, delete_first,
}
use les_traiteurs_engages_v.Base.Predicates.{IsKeyed, find-holds, find-All}

module _ {ℓ} {A : Type ℓ} where
  -- The row that is written is found again, if the write leaves its condition alone.
  pub find-update_first :
      (t : A → Bool) (f : A → A) (xs : List A) (a : A)
      → ((x : A) → t x ≡ true → t (f x) ≡ true)
      → find t xs ≡ some a
      → find t (update_first t f xs) ≡ some (f a)
  unfolding find update_first
  find-update_first t f [] a h e = cc
  find-update_first t f (x ∷ xs) a h e = ground (arith, h x, find-update_first t f xs a h)

  -- The row that is found stays, or is the one that is written.
  pub find-update_first_kept :
      (t u : A → Bool) (f : A → A) (xs : List A) (a : A)
      → ((x : A) → t (f x) ≡ t x)
      → find t xs ≡ some a
      → (find t (update_first u f xs) ≡ some a) ⊎ (find t (update_first u f xs) ≡ some (f a))
  unfolding find update_first
  find-update_first_kept t u f [] a same e = cc
  find-update_first_kept t u f (x ∷ xs) a same e =
      ground (arith, same x, find-update_first_kept t u f xs a same)

  -- Rows that the condition passes over may be written.
  pub find-update_first_other :
      (t u : A → Bool) (f : A → A) (xs : List A)
      → ((x : A) → u x ≡ true → t x ≡ false)
      → ((x : A) → u x ≡ true → t (f x) ≡ false)
      → find t (update_first u f xs) ≡ find t xs
  unfolding find update_first
  find-update_first_other t u f [] h k = refl
  find-update_first_other t u f (x ∷ xs) h k =
      ground (arith, h x, k x, find-update_first_other t u f xs h k)

  -- Rows that the condition passes over may be written.
  pub find-update_where_other :
      (t u : A → Bool) (f : A → A) (xs : List A)
      → ((x : A) → u x ≡ true → t x ≡ false)
      → ((x : A) → u x ≡ true → t (f x) ≡ false)
      → find t (update_where u f xs) ≡ find t xs
  unfolding find update_where
  find-update_where_other t u f [] h k = refl
  find-update_where_other t u f (x ∷ xs) h k =
      ground (arith, h x, k x, find-update_where_other t u f xs h k)

  -- No row that the condition selects is left, if the write makes it fail.
  pub count-update_where_cleared :
      (t : A → Bool) (f : A → A) (xs : List A)
      → ((x : A) → t x ≡ true → t (f x) ≡ false)
      → count t (update_where t f xs) ≡ 0
  unfolding count update_where
  count-update_where_cleared t f [] h = refl
  count-update_where_cleared t f (x ∷ xs) h =
      ground (arith, h x, count-update_where_cleared t f xs h)

  pub find-append :
      (t : A → Bool) (xs ys : List A) (a : A) → find t xs ≡ some a → find t (xs ++ ys) ≡ some a
  unfolding find
  find-append t [] ys a e = cc
  find-append t (x ∷ xs) ys a e = ground (arith, find-append t xs ys a)

  pub find-append_none :
      (t : A → Bool) (xs ys : List A) → find t xs ≡ none → find t (xs ++ ys) ≡ find t ys
  unfolding find
  find-append_none t [] ys e = refl
  find-append_none t (x ∷ xs) ys e = ground (arith, find-append_none t xs ys)

  -- A key finds the row that it finds together with another condition.
  pub find-key :
      (key : A → ℕ) (u : A → Bool) (k : ℕ) (xs : List A) (a : A)
      → IsKeyed key xs
      → find (λ x. key x == k && u x) xs ≡ some a
      → find (λ x. key x == k) xs ≡ some a
  unfolding find
  find-key key u k [] a keyed e = cc
  find-key key u k (x ∷ xs) a keyed e = ground (
    arith,
    find-key key u k xs a keyed.1,
    find-holds (λ y. key y == k && u y) xs a,
    λ (h : find (λ y. key y == k && u y) xs ≡ some a).
        find-All (λ y. key y ≢ key x) (λ y. key y == k && u y) xs keyed.0 h,
  )

  -- A row that is found is counted.
  pub count-ne-zero :
      (t u : A → Bool) (xs : List A) (a : A) → find t xs ≡ some a → u a ≡ true → count u xs ≢ 0
  unfolding find count
  count-ne-zero t u [] a e h = cc
  count-ne-zero t u (x ∷ xs) a e h = ground (arith, count-ne-zero t u xs a)

  -- A selection that passes over the rows that are written, deleted or added stays as it is.
  pub select-update_first_other :
      (t u : A → Bool) (f : A → A) (xs : List A)
      → ((x : A) → u x ≡ true → t x ≡ false)
      → ((x : A) → u x ≡ true → t (f x) ≡ false)
      → select t (update_first u f xs) ≡ select t xs
  unfolding select update_first
  select-update_first_other t u f [] h k = refl
  select-update_first_other t u f (x ∷ xs) h k =
      ground (arith, h x, k x, select-update_first_other t u f xs h k)

  pub select-delete_first_other :
      (t u : A → Bool) (xs : List A)
      → ((x : A) → u x ≡ true → t x ≡ false)
      → select t (delete_first u xs) ≡ select t xs
  unfolding select delete_first
  select-delete_first_other t u [] h = refl
  select-delete_first_other t u (x ∷ xs) h = ground (arith, h x, select-delete_first_other t u xs h)

  pub select-append_other :
      (t : A → Bool) (xs : List A) (y : A) → t y ≡ false → select t (xs ++ y ∷ []) ≡ select t xs
  unfolding select
  select-append_other t [] y h = ground (arith, h)
  select-append_other t (x ∷ xs) y h = ground (arith, select-append_other t xs y h)

  -- A row that no longer meets the condition is one fewer that does.
  pub count-update_first_cleared :
      (t : A → Bool) (f : A → A) (xs : List A) (a : A)
      → ((x : A) → t x ≡ true → t (f x) ≡ false)
      → find t xs ≡ some a
      → count t (update_first t f xs) + 1 ≡ count t xs
  unfolding find count update_first
  count-update_first_cleared t f [] a h e = cc
  count-update_first_cleared t f (x ∷ xs) a h e =
      ground (arith, h x, count-update_first_cleared t f xs a h)
