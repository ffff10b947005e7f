-- ===== src/Examples/Toys.antt =====
-- Functions in place of SHA-256, bcrypt and Python's str methods, which compute on the samples.
use Prim.Native.Char.{code}
use text.Mathlib.Text.{◌==◌ as str_eq}
use les_traiteurs_engages_v.Accounts.{Characters, Checker}
use les_traiteurs_engages_v.Base.{String, leb, ◌&&◌, ◌+++◌}
use les_traiteurs_engages_v.PasswordReset.{Hashes}

abbrev pub keep_text : String → String
keep_text s = s

abbrev pub toy_hashes : Hashes
toy_hashes = record { sha256 = λ s. "#" +++ s; hashpw = λ p salt. salt +++ p }

abbrev pub toy_characters : Characters
toy_characters = record {
  lower = keep_text;
  is_lower = λ c. leb 97 (code c) && leb (code c) 122;
  is_upper = λ c. leb 65 (code c) && leb (code c) 90;
  is_digit = λ c. leb 48 (code c) && leb (code c) 57;
  is_alnum = λ c. leb 48 (code c);
}

abbrev pub toy_checker : Checker
toy_checker = record { checkpw = λ p hash. str_eq p hash; dummy_password_hash = "" }
