-- ===== src/Accounts/Policy.antt =====
-- blueprints/auth.py: what a password that `validate_password` lets through is like.
use text.Mathlib.Text.{◌==◌ as str_eq}
use les_traiteurs_engages_v.Accounts.{
  Characters, any_char, classes, password_blocklist, validate_password,
}
use les_traiteurs_engages_v.Base.{
  Bool-cases, String, arith, chars, exists, false, if◌then◌else◌, inl, inr, ltb, none, not, ℕ, ◌+◌,
  ◌≡◌, ◌≤◌,
}

-- Twelve characters, none of the common passwords, and three of the four classes of characters.
pub record IsStrong (c : Characters) (password : String) : Type 0 where
  pub is_long : 12 ≤ chars password
  pub is_uncommon : exists (λ p. str_eq p (c.lower password)) password_blocklist ≡ false
  pub is_mixed :
      3
      ≤ (if any_char c.is_lower password then 1 else 0)
        + (if any_char c.is_upper password then 1 else 0)
        + (if any_char c.is_digit password then 1 else 0)
        + (if any_char (λ x. not (c.is_alnum x)) password then 1 else 0)

ltb-false : (m n : ℕ) → ltb m n ≡ false → n ≤ m
ltb-false m n h = ground arith

pub validate_password-IsStrong :
    (c : Characters) (password : String) → validate_password c password ≡ none → IsStrong c password
unfolding validate_password classes
validate_password-IsStrong c password h = elim (Bool-cases (ltb (chars password) 12)) [
  | inl short ↦ cc (rw short at h)
  | inr long ↦ elim (Bool-cases (exists (λ p. str_eq p (c.lower password)) password_blocklist)) [
    | inl common ↦ cc (rw (long, common) at h)
    | inr rare ↦ elim (Bool-cases (ltb (classes c password) 3)) [
      | inl uniform ↦ cc (rw (long, rare, uniform) at h)
      | inr mixed ↦ record {
        is_long = ground arith;
        is_uncommon = rare;
        is_mixed = ltb-false _ 3 mixed;
      }
    ]
  ]
]
