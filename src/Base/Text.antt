-- ===== src/Base/Text.antt =====
-- Formatting: `str` of an int, and an optional string in an f-string or behind `or`.
use Prim.Native.Nat.{ℕ, zero, suc, ◌/◌, ◌%◌}
use Prim.Native.Char.{code}
use Prim.Native.String.{String, ◌++◌}
use mathlib.Core.Path.{◌≡◌, refl}
use mathlib.Core.Bool.{Bool, true, ◌&&◌, ◌||◌}
use mathlib.Core.Option.{Option, none, some}
use les_traiteurs_engages_v.Base.Tests.{leb, ◌==◌, if◌then◌else◌}
use text.Mathlib.Text.{◌==◌ as str_eq, starts_with}
use text.Mathlib.TextEquality.{eq_iff}

-- One decimal digit.
digit : ℕ → String
digit zero = "0"
digit (suc zero) = "1"
digit (suc (suc zero)) = "2"
digit (suc (suc (suc zero))) = "3"
digit (suc (suc (suc (suc zero)))) = "4"
digit (suc (suc (suc (suc (suc zero))))) = "5"
digit (suc (suc (suc (suc (suc (suc zero)))))) = "6"
digit (suc (suc (suc (suc (suc (suc (suc zero))))))) = "7"
digit (suc (suc (suc (suc (suc (suc (suc (suc zero)))))))) = "8"
digit _ = "9"

show_from : ℕ → ℕ → String
unfolding digit
show_from zero n = digit (n % 10)
show_from (suc fuel) n =
    let front = show_from fuel (n / 10) in if n / 10 == 0 then digit n else front ++ digit (n % 10)

-- `str(n)`: a number has no more digits than its value, so the fuel is enough.
unfoldable pub str : ℕ → String
unfolding show_from
str n = show_from n n

-- A nullable text in an f-string.
abbrev pub str_or_none : Option String → String
str_or_none none = "None"
str_or_none (some s) = s

-- Truth of a text, and `text or None`.
abbrev pub is_empty : String → Bool
is_empty s = str_eq s ""

abbrev pub text_or_none : Option String → Option String
text_or_none none = none
text_or_none (some s) = if is_empty s then none else some s

abbrev pub text_or : Option String → String → String
text_or none d = d
text_or (some s) d = if is_empty s then d else s

-- `s[n:]`.
unfoldable pub drop_chars : ℕ → String → String
drop_chars zero s = s
drop_chars (suc n) String.[] = ""
drop_chars (suc n) (String.◌∷◌ c s) = drop_chars n s

-- `s.replace(old, new, 1)`, for an `old` of n characters.
unfoldable pub replace_first : ℕ → String → String → String → String
unfolding drop_chars
replace_first n old new String.[] = ""
replace_first n old new (String.◌∷◌ c s) =
    if starts_with (String.◌∷◌ c s) old
    then new ++ drop_chars n (String.◌∷◌ c s)
    else String.◌∷◌ c (replace_first n old new s)

-- `c.isspace()`, which `str.strip` goes by.
is_space : ℕ → Bool
is_space c =
    (leb 9 c && leb c 13)
    || (leb 28 c && leb c 32)
    || c == 133
    || c == 160
    || c == 5760
    || (leb 8192 c && leb c 8202)
    || c == 8232
    || c == 8233
    || c == 8239
    || c == 8287
    || c == 12288

strip_left : String → String
unfolding is_space
strip_left String.[] = ""
strip_left (String.◌∷◌ c s) = if is_space (code c) then strip_left s else String.◌∷◌ c s

strip_right : String → String
unfolding is_space
strip_right String.[] = ""
strip_right (String.◌∷◌ c s) =
    let rest = strip_right s in if is_empty rest && is_space (code c) then "" else String.◌∷◌ c rest

-- `s.strip()`.
unfoldable pub strip : String → String
unfolding strip_left strip_right
strip s = strip_right (strip_left s)

pub str_eq_refl : (s : String) → str_eq s s ≡ true
str_eq_refl s = (eq_iff s s).1 refl
