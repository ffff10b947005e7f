-- ===== src/Uploads/Formats/Sound.antt =====
-- An upload that passes the checks is what its name says.
use text.Mathlib.Text.{◌==◌ as str_eq}
use text.Mathlib.TextEquality.{eq_iff}
use les_traiteurs_engages_v.Base.{
  All, Bool, Bool-cases, List, Option, Option-cases, String, [], ap, arith, exists, false, find,
  find-All, find-holds, if◌then◌else◌, inl, inr, length, ltb, none, not, refl, some, some_inj,
  subst, suc, sym, true, upsert, zero, ℕ, ◌&&◌, ◌++◌, ◌<◌, ◌==◌, ◌||◌, ◌∙◌, ◌∷◌, ◌≡◌, ◌≢◌, ◌≤◌, ◌⊎◌,
}
use les_traiteurs_engages_v.Uploads.Formats.{
  Bytes, Upload, all_offsets, bytes_eq, checked_extension, detect_real_type, extension,
  gif87_signature, gif89_signature, group_by_offset, has_at, is_alias, is_allowed, jpeg_signature,
  magic_signatures, matches_format, max_file_size, pdf_signature, png_signature, riff_signature,
  take, webp_signature,
}

-- The bytes have the signature at the offset.
abbrev At : ℕ → Bytes → Bytes → Type 0
At off sig bs = (pre : Bytes) × (rest : Bytes) × (bs ≡ pre ++ (sig ++ rest)) × (length pre ≡ off)

pub data Format : Type 0 where
  png jpeg gif webp pdf : Format

-- The format that an extension stands for.
unfoldable pub format_of : String → Option Format
format_of e =
    if str_eq e "png"
    then some png
    else if str_eq e "jpg" || str_eq e "jpeg"
    then some jpeg
    else if str_eq e "gif"
    then some gif
    else if str_eq e "webp"
    then some webp
    else if str_eq e "pdf"
    then some pdf
    else none

-- What a file of each format begins with, stated without the table of the code.
abbrev IsFormat : Format → Bytes → Type 0
IsFormat png bs = At 0 png_signature bs
IsFormat jpeg bs = At 0 jpeg_signature bs
IsFormat gif bs = At 0 gif87_signature bs ⊎ At 0 gif89_signature bs
IsFormat webp bs = At 0 riff_signature bs × At 8 webp_signature bs
IsFormat pdf bs = At 0 pdf_signature bs

-- The content begins as the extension says.
abbrev pub Agrees : String → Bytes → Type 0
Agrees e bs = (f : Format) × (format_of e ≡ some f) × IsFormat f bs

begins :
    (n : ℕ) (sig bs : Bytes)
    → bytes_eq (take (length sig) (take n bs)) sig ≡ true
    → (rest : Bytes) × (bs ≡ sig ++ rest)
begins n [] bs h = (bs, refl)
begins zero (a ∷ sig) bs h = cc
begins (suc n) (a ∷ sig) [] h = cc
begins (suc n) (a ∷ sig) (b ∷ bs) h =
    let (rest, e) = begins n sig bs (ground arith) in
    let same : b ≡ a = ground arith in (rest, rw (same, e) refl)

-- A match in the head of a file is one in the file.
has_at-At :
    (n off : ℕ) (sig bs : Bytes) → sig ≢ [] → has_at (take n bs) off sig ≡ true → At off sig bs
has_at-At n zero sig bs some_bytes h = let (rest, e) = begins n sig bs h in ([], rest, e, refl)
has_at-At zero (suc off) [] bs some_bytes h = absurd (some_bytes refl)
has_at-At zero (suc off) (a ∷ sig) bs some_bytes h = cc
has_at-At (suc n) (suc off) [] bs some_bytes h = absurd (some_bytes refl)
has_at-At (suc n) (suc off) (a ∷ sig) [] some_bytes h = cc
has_at-At (suc n) (suc off) (a ∷ sig) (b ∷ bs) some_bytes h =
    let (pre, rest, e, l) = has_at-At n off (a ∷ sig) bs some_bytes h in
    (b ∷ pre, rest, rw e refl, omega (arith, l))

only_one : (a : Bool) → (a || false) && true ≡ true → a ≡ true
only_one a h = ground arith

one_of : (a b : Bool) → (a || (b || false)) && true ≡ true → (a ≡ true) ⊎ (b ≡ true)
one_of a b h = ground arith

both_of : (a b : Bool) → (a || false) && ((b || false) && true) ≡ true → (a ≡ true) × (b ≡ true)
both_of a b h = (ground arith, ground arith)

module _ (n : ℕ) (bs : Bytes) where
  begins_with : (sig : Bytes) → sig ≢ [] → has_at (take n bs) 0 sig ≡ true → At 0 sig bs
  begins_with sig some_bytes h = has_at-At n 0 sig bs some_bytes h

  either_gif :
      (has_at (take n bs) 0 gif87_signature ≡ true) ⊎ (has_at (take n bs) 0 gif89_signature ≡ true)
      → At 0 gif87_signature bs ⊎ At 0 gif89_signature bs
  either_gif (inl a) = inl (begins_with gif87_signature (λ e. cc e) a)
  either_gif (inr b) = inr (begins_with gif89_signature (λ e. cc e) b)

  abbrev Tells : String × List (Bytes × ℕ) → Type 0
  Tells e = matches_format (take n bs) e.1 ≡ true → Agrees e.0 bs

  webp_tells :
      matches_format (take n bs) ((riff_signature, 0) ∷ (webp_signature, 8) ∷ []) ≡ true
      → IsFormat webp bs
  unfolding all_offsets group_by_offset upsert exists
  webp_tells h =
      let (a, b) =
        both_of (has_at (take n bs) 0 riff_signature) (has_at (take n bs) 8 webp_signature) h in
      (begins_with riff_signature (λ e. cc e) a, has_at-At n 8 webp_signature bs (λ e. cc e) b)

  single_tells :
      (sig : Bytes) → sig ≢ [] → matches_format (take n bs) ((sig, 0) ∷ []) ≡ true → At 0 sig bs
  unfolding all_offsets group_by_offset upsert exists
  single_tells sig some_bytes h = begins_with sig some_bytes (only_one (has_at (take n bs) 0 sig) h)

  gif_tells :
      matches_format (take n bs) ((gif87_signature, 0) ∷ (gif89_signature, 0) ∷ []) ≡ true
      → IsFormat gif bs
  unfolding all_offsets group_by_offset upsert exists
  gif_tells h =
      either_gif
        (one_of (has_at (take n bs) 0 gif87_signature) (has_at (take n bs) 0 gif89_signature) h)

  magic_signatures-Tells : All Tells magic_signatures
  unfolding format_of
  magic_signatures-Tells = (
    λ h. (png, refl, single_tells png_signature (λ e. cc e) h),
    (
      λ h. (jpeg, refl, single_tells jpeg_signature (λ e. cc e) h),
      (
        λ h. (jpeg, refl, single_tells jpeg_signature (λ e. cc e) h),
        (
          λ h. (gif, refl, gif_tells h),
          (
            λ h. (webp, refl, webp_tells h),
            (λ h. (pdf, refl, single_tells pdf_signature (λ e. cc e) h), tt),
          ),
        ),
      ),
    ),
  )

  detect_real_type-Agrees : (e : String) → detect_real_type (take n bs) ≡ some e → Agrees e bs
  unfolding detect_real_type
  detect_real_type-Agrees e h =
      elim (Option-cases (find (λ e. matches_format (take n bs) e.1) magic_signatures)) [
        | inl missing ↦ cc (rw (missing, detect_real_type) at h)
        | inr (a, found) ↦
            let test = find-holds (λ e. matches_format (take n bs) e.1) magic_signatures a found in
            let same : a.0 ≡ e = some_inj (rw (found, detect_real_type) at h) in
            subst (λ z. Agrees z bs) same
              (find-All Tells (λ e. matches_format (take n bs) e.1) magic_signatures
                magic_signatures-Tells found test)
      ]

is_jpeg : (e : String) → str_eq e "jpg" || str_eq e "jpeg" ≡ true → format_of e ≡ some jpeg
unfolding format_of
is_jpeg e h = elim (Bool-cases (str_eq e "jpg")) [
  | inl y ↦ rw (← sym ((eq_iff e "jpg").0 y)) refl
  | inr n ↦ rw (← sym ((eq_iff e "jpeg").0 (ground arith))) refl
]

alias_format :
    (declared real : String) → is_alias declared real ≡ true → format_of declared ≡ format_of real
alias_format declared real h = elim (Bool-cases (str_eq declared "jpg" || str_eq declared "jpeg")) [
  | inl y ↦ is_jpeg declared y ∙ sym (is_jpeg real (rw y at h))
  | inr n ↦ ap format_of (sym ((eq_iff real declared).0 (rw n at h)))
]

not-false : (b : Bool) → not b ≡ false → b ≡ true
not-false b h = ground arith

guarded :
    {A : Type 0} (b : Bool) (rest : Option A) {a : A}
    → (if b then none else rest) ≡ some a
    → (b ≡ false) × (rest ≡ some a)
guarded true rest h = cc
guarded false rest h = (refl, h)

found_some :
    {A B : Type 0} (o : Option A) (f : A → Option B) {b : B}
    → (elim o [ none ↦ none | some a ↦ f a ]) ≡ some b
    → (a : A) × (o ≡ some a) × (f a ≡ some b)
found_some none f h = cc
found_some (some a) f h = (a, refl, h)

-- A file that passes the checks has an extension of the list, the one that its name ends with; its
-- content begins with the signature of the format of that extension, is not empty and has at most
-- 10 MiB.
pub checked_extension-Agrees :
    (lower : String → String) (file : Upload) (e : String)
    → checked_extension lower file ≡ some e
    → (e ≡ extension lower file.filename)
      × (is_allowed e ≡ true)
      × Agrees e file.content
      × (0 < length file.content)
      × (length file.content ≤ max_file_size)
unfolding checked_extension
checked_extension-Agrees lower file e h =
    let declared = extension lower file.filename in
    let (allowed, h1) = guarded (not (is_allowed declared)) _ h in
    let (real, detected, h2) = found_some (detect_real_type (take 16 file.content)) _ h1 in
    let (same, h3) = guarded (not (is_alias declared real)) _ h2 in
    let (small, h4) = guarded (ltb max_file_size (length file.content)) _ h3 in
    let (full, h5) = guarded (length file.content == 0) _ h4 in
    let (f, known, begun) = detect_real_type-Agrees 16 file.content real detected in
    let own : declared ≡ e = some_inj h5 in
    (
      sym own,
      subst (λ x. is_allowed x ≡ true) own (not-false (is_allowed declared) allowed),
      (
        f,
        ap format_of (sym own)
            ∙ (alias_format declared real (not-false (is_alias declared real) same) ∙ known),
        begun,
      ),
      ground arith,
      ground arith,
    )
