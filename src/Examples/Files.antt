-- ===== src/Examples/Files.antt =====
-- Uploads to a bucket that keeps its objects in a function of the key.
use text.Mathlib.Text.{◌==◌ as str_eq}
use les_traiteurs_engages_v.Base.{
  Option, String, [], exists, find, if◌then◌else◌, length, none, refl, some, some_inj, str_eq_refl,
  subst, true, upsert, ◌++◌, ◌<◌, ◌∷◌, ◌≡◌, ◌≤◌,
}
use les_traiteurs_engages_v.Examples.Toys.{keep_text}
use les_traiteurs_engages_v.Pricing.Lines.{take_chars}
use les_traiteurs_engages_v.Uploads.Formats.{
  Bytes, Upload, after_last_dot, all_offsets, checked_extension, detect_real_type, extension,
  gif89_signature, group_by_offset, is_allowed, max_file_size, png_signature, validate,
}
use les_traiteurs_engages_v.Uploads.Formats.Sound.{Agrees, checked_extension-Agrees}
use les_traiteurs_engages_v.Uploads.Storage.{
  Bucket, GetReply, Storage, found, no_such_key, save_s3, save_upload,
}
use les_traiteurs_engages_v.Uploads.Storage.Returned.{Saved, save_upload-serve}

abbrev Shelf : Type 0
Shelf = String → GetReply

abbrev put : String → GetReply → Shelf → Shelf
put k r s k' = if str_eq k' k then r else s k'

put_same : (k : String) (r : GetReply) (s : Shelf) → put k r s k ≡ r
put_same k r s = rw (str_eq_refl k) refl

abbrev toy_bucket : Bucket Shelf
toy_bucket = record {
  upload_fileobj = λ k o s. some (put k (found o) s);
  get_object = λ k s. s k;
  delete_object = λ k s. some (put k no_such_key s);
  get-upload =
      λ k o s s' e. subst (λ (z : Shelf). z k ≡ found o) (some_inj e) (put_same k (found o) s);
  get-delete =
      λ k s s' e. subst (λ (z : Shelf). z k ≡ no_such_key) (some_inj e) (put_same k no_such_key s);
}

abbrev logo : Upload
logo = record { filename = "logo.png"; content = png_signature ++ 1 ∷ [] }

abbrev gif_89 : Bytes
gif_89 = gif89_signature ++ 1 ∷ 2 ∷ []

gif_is_told : detect_real_type gif_89 ≡ some "gif"
unfolding detect_real_type find all_offsets group_by_offset upsert exists
gif_is_told = refl

logo_passes : checked_extension keep_text logo ≡ some "png"
unfolding checked_extension detect_real_type find all_offsets group_by_offset upsert exists
    after_last_dot
logo_passes = refl

disguised_fails : checked_extension keep_text (record logo { filename = "logo.pdf" }) ≡ none
unfolding checked_extension detect_real_type find all_offsets group_by_offset upsert exists
    after_last_dot
disguised_fails = refl

checked_extension-Agrees_example :
    ("png" ≡ extension keep_text logo.filename)
    × (is_allowed "png" ≡ true)
    × Agrees "png" logo.content
    × (0 < length logo.content)
    × (length logo.content ≤ max_file_size)
checked_extension-Agrees_example = checked_extension-Agrees keep_text logo "png" logo_passes

abbrev empty_storage : Storage Shelf
empty_storage = record { bucket = λ k. no_such_key; disk = [] }

abbrev saved_logo : Option String × Storage Shelf
saved_logo =
    save_upload toy_bucket true keep_text keep_text "1f" (λ e b. some b) logo "caterers"
      empty_storage

logo_is_saved : saved_logo ≡ (some "/uploads/caterers/1f_logo.png", saved_logo.1)
unfolding save_upload save_s3 validate checked_extension detect_real_type find all_offsets
    group_by_offset upsert exists after_last_dot take_chars
logo_is_saved = refl

save_upload-serve_example :
    Saved toy_bucket keep_text keep_text "1f"
      (λ e b. some b)
      logo
      "/uploads/caterers/1f_logo.png"
      empty_storage
      saved_logo.1
save_upload-serve_example =
    save_upload-serve toy_bucket keep_text keep_text "1f" (λ e b. some b) logo
      "/uploads/caterers/1f_logo.png" empty_storage saved_logo.1 logo_is_saved
