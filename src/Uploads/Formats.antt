-- ===== src/Uploads/Formats.antt =====
-- services/uploads.py: the extension, the magic bytes, the size and the name of an uploaded file. A
-- file is the list of its bytes. `lower` is `str.lower`, `secure_filename` is werkzeug's.
pub mod Sound
use Prim.Native.Char.{code}
use text.Mathlib.Text.{◌==◌ as str_eq}
use les_traiteurs_engages_v.Base.{
  Bool, List, Option, String, [], exists, false, find, if◌then◌else◌, is_empty, length, ltb, none,
  not, some, suc, text_or, true, upsert, zero, ℕ, ◌&&◌, ◌+++◌, ◌++◌, ◌==◌, ◌||◌, ◌∷◌,
}
use les_traiteurs_engages_v.Pricing.Lines.{take_chars}

abbrev pub Bytes : Type 0
Bytes = List ℕ

abbrev pub png_signature : Bytes
png_signature = 0x89 ∷ b'P' ∷ b'N' ∷ b'G' ∷ 13 ∷ 10 ∷ 26 ∷ 10 ∷ []

abbrev jpeg_signature : Bytes
jpeg_signature = 0xff ∷ 0xd8 ∷ 0xff ∷ []

abbrev gif87_signature : Bytes
gif87_signature = b'G' ∷ b'I' ∷ b'F' ∷ b'8' ∷ b'7' ∷ b'a' ∷ []

abbrev pub gif89_signature : Bytes
gif89_signature = b'G' ∷ b'I' ∷ b'F' ∷ b'8' ∷ b'9' ∷ b'a' ∷ []

abbrev riff_signature : Bytes
riff_signature = b'R' ∷ b'I' ∷ b'F' ∷ b'F' ∷ []

abbrev webp_signature : Bytes
webp_signature = b'W' ∷ b'E' ∷ b'B' ∷ b'P' ∷ []

abbrev pdf_signature : Bytes
pdf_signature = b'%' ∷ b'P' ∷ b'D' ∷ b'F' ∷ b'-' ∷ []

-- `_MAGIC_SIGNATURES`, in its order.
abbrev magic_signatures : List (String × List (Bytes × ℕ))
magic_signatures =
    ("png", (png_signature, 0) ∷ [])
    ∷ ("jpg", (jpeg_signature, 0) ∷ [])
    ∷ ("jpeg", (jpeg_signature, 0) ∷ [])
    ∷ ("gif", (gif87_signature, 0) ∷ (gif89_signature, 0) ∷ [])
    ∷ ("webp", (riff_signature, 0) ∷ (webp_signature, 8) ∷ [])
    ∷ ("pdf", (pdf_signature, 0) ∷ [])
    ∷ []

abbrev take : ℕ → Bytes → Bytes
take zero bs = []
take (suc n) [] = []
take (suc n) (b ∷ bs) = b ∷ take n bs

abbrev drop : ℕ → Bytes → Bytes
drop zero bs = bs
drop (suc n) [] = []
drop (suc n) (b ∷ bs) = drop n bs

abbrev bytes_eq : Bytes → Bytes → Bool
bytes_eq [] [] = true
bytes_eq (a ∷ cs) (b ∷ bs) = a == b && bytes_eq cs bs
bytes_eq _ _ = false

-- `head[off : off + len(sig)] == sig`.
abbrev has_at : Bytes → ℕ → Bytes → Bool
has_at head off sig = bytes_eq (take (length sig) (drop off head)) sig

-- `by_offset`, with what it holds so far.
unfoldable pub group_by_offset : List (Bytes × ℕ) → List (ℕ × List Bytes) → List (ℕ × List Bytes)
group_by_offset [] d = d
group_by_offset ((sig, off) ∷ sigs) d =
    group_by_offset sigs (upsert ◌==◌ off (λ alts. alts ++ sig ∷ []) [] d)

unfoldable pub all_offsets : Bytes → List (ℕ × List Bytes) → Bool
all_offsets head [] = true
all_offsets head ((off, alts) ∷ d) = exists (has_at head off) alts && all_offsets head d

abbrev matches_format : Bytes → List (Bytes × ℕ) → Bool
matches_format head sigs = all_offsets head (group_by_offset sigs [])

unfoldable pub detect_real_type : Bytes → Option String
detect_real_type head = elim (find (λ e. matches_format head e.1) magic_signatures) [
  | none ↦ none
  | some e ↦ some e.0
]

-- `filename.rsplit(".", 1)[-1]`, if there is a dot.
unfoldable pub after_last_dot : String → Option String
after_last_dot String.[] = none
after_last_dot (String.◌∷◌ c s) = elim (after_last_dot s) [
  | some e ↦ some e
  | none ↦ if code c == b'.' then some s else none
]

abbrev pub extension : (String → String) → String → String
extension lower filename = elim (after_last_dot filename) [ none ↦ "" | some e ↦ lower e ]

-- `in ALLOWED_EXTENSIONS`.
abbrev pub is_allowed : String → Bool
is_allowed e =
    str_eq e "jpg"
    || str_eq e "jpeg"
    || str_eq e "png"
    || str_eq e "gif"
    || str_eq e "webp"
    || str_eq e "pdf"

-- `_EXTENSION_ALIASES.get(declared_ext, {declared_ext})`, and membership in it.
abbrev is_alias : String → String → Bool
is_alias declared real =
    if str_eq declared "jpg" || str_eq declared "jpeg"
    then str_eq real "jpg" || str_eq real "jpeg"
    else str_eq real declared

-- MAX_FILE_SIZE and MAX_FILENAME_LENGTH.
abbrev pub max_file_size : ℕ
max_file_size = 10485760

abbrev max_filename_length : ℕ
max_filename_length = 80

pub record Upload : Type 0 where
  pub filename : String
  pub content : Bytes

-- `secure_filename(...)[:80] or "file"`.
abbrev clean_name : (String → String) → String → String
clean_name secure_filename filename =
    text_or (some (take_chars max_filename_length (secure_filename filename))) "file"

-- The checks before the name is made, up to the extension that is returned with it.
unfoldable pub checked_extension : (String → String) → Upload → Option String
checked_extension lower file =
    let declared = extension lower file.filename in
    if not (is_allowed declared) then none else elim (detect_real_type (take 16 file.content)) [
      | none ↦ none
      | some real ↦
          if not (is_alias declared real)
          then none
          else if ltb max_file_size (length file.content)
          then none
          else if length file.content == 0
          then none
          else some declared
    ]

-- `_validate`; `hex` is `uuid.uuid4().hex`, and a missing file is `none`.
unfoldable pub validate :
    (String → String) → (String → String) → String → Option Upload → Option (String × String)
validate lower secure_filename hex none = none
validate lower secure_filename hex (some file) =
    if is_empty file.filename then none else elim (checked_extension lower file) [
      | none ↦ none
      | some declared ↦ some (declared, hex +++ ("_" +++ clean_name secure_filename file.filename))
    ]
