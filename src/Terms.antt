-- ===== src/Terms.antt =====
-- services/terms.py: whether the terms are accepted, and the version that is in force.
pub mod Current
use text.Mathlib.Text.{◌==◌ as str_eq}
use les_traiteurs_engages_v.Base.{
  Bool, List, Option, String, [], if◌then◌else◌, leb, ltb, none, select, some, strip, text_or, ℕ,
  ◌&&◌, ◌==◌, ◌||◌, ◌∷◌,
}
use les_traiteurs_engages_v.Models.{Database, TermsVersion}

-- The check box of a form, whose field is missing where it is not ticked.
unfoldable pub is_terms_accepted : (String → String) → Option String → Bool
is_terms_accepted lower raw =
    let v = lower (strip (text_or raw "")) in str_eq v "on" || str_eq v "1" || str_eq v "true"

-- Descending by the date of effect, then by the time of creation.
abbrev pub is_before : TermsVersion → TermsVersion → Bool
is_before v w =
    ltb w.effective_at v.effective_at
    || v.effective_at == w.effective_at && ltb w.created_at v.created_at

-- The first row in that order.
unfoldable pub first_of : TermsVersion → List TermsVersion → TermsVersion
first_of v [] = v
first_of v (w ∷ ws) = first_of (if is_before w v then w else v) ws

abbrev pub limit_1 : List TermsVersion → Option TermsVersion
limit_1 [] = none
limit_1 (v ∷ vs) = some (first_of v vs)

-- `none` is the `RuntimeError`.
abbrev pub current_terms_version : ℕ → Database → Option TermsVersion
current_terms_version today db = limit_1 (select (λ v. leb v.effective_at today) db.terms_versions)
