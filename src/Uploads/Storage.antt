-- ===== src/Uploads/Storage.antt =====
-- services/uploads.py and blueprints/uploads.py: saving, serving and deleting an upload. The S3 client
-- of botocore is a record of its calls with what they promise; Pillow and pikepdf are `reencode`.
pub mod Returned
use Prim.Native.Char.{code}
use text.Mathlib.Text.{◌==◌ as str_eq, starts_with}
use les_traiteurs_engages_v.Base.{
  Bool, List, Option, String, [], drop_chars, false, if◌then◌else◌, is_empty, none, not, some, true,
  ◌+++◌, ◌++◌, ◌/◌, ◌==◌, ◌||◌, ◌∷◌, ◌≡◌,
}
use les_traiteurs_engages_v.Uploads.Formats.{Bytes, Upload, validate}

pub record StoredObject : Type 0 where
  pub body : Bytes
  pub content_type : String

-- `get_object`: the object, `NoSuchKey`, or any other error.
pub data GetReply : Type 0 where
  found : StoredObject → GetReply
  no_such_key broken : GetReply

-- The calls on a bucket whose state is of type S; `none` is an exception. What has been uploaded is
-- there under its key, and what has been deleted is not.
pub record Bucket (S : Type 0) : Type 0 where
  pub upload_fileobj : String → StoredObject → S → Option S
  pub get_object : String → S → GetReply
  pub delete_object : String → S → Option S
  pub get-upload :
      (k : String) (o : StoredObject) (s s' : S)
      → upload_fileobj k o s ≡ some s'
      → get_object k s' ≡ found o
  pub get-delete :
      (k : String) (s s' : S) → delete_object k s ≡ some s' → get_object k s' ≡ no_such_key

-- `_CONTENT_TYPES.get(declared_ext, "application/octet-stream")`.
unfoldable pub content_type_of : String → String
content_type_of e =
    if str_eq e "jpg" || str_eq e "jpeg"
    then "image/jpeg"
    else if str_eq e "png"
    then "image/png"
    else if str_eq e "gif"
    then "image/gif"
    else if str_eq e "webp"
    then "image/webp"
    else if str_eq e "pdf"
    then "application/pdf"
    else "application/octet-stream"

-- `_s3_key_from_url`.
unfoldable s3_key_from_url : String → Option String
s3_key_from_url url =
    if is_empty url || not (starts_with url "/uploads/")
    then none
    else some ("uploads/" +++ drop_chars 9 url)

-- `key.split("/", 1)[0]`.
unfoldable before_slash : String → String
before_slash String.[] = ""
before_slash (String.◌∷◌ c s) = if code c == b'/' then "" else String.◌∷◌ c (before_slash s)

-- `in PUBLIC_UPLOAD_SUBFOLDERS`.
abbrev is_public : String → Bool
is_public top = str_eq top "caterers"

-- The answers of the proxy: the object, `abort(404)` and `abort(502)`.
data Served : Type 0 where
  streamed : Bytes → String → Served
  not_found bad_gateway : Served

abbrev streamed_as : StoredObject → Served
streamed_as o =
    streamed o.body (if is_empty o.content_type then "application/octet-stream" else o.content_type)

-- The key of the bucket, and the URL that the proxy serves it at.
abbrev object_key : String → String → String
object_key subfolder safe_name = "uploads/" +++ (subfolder +++ ("/" +++ safe_name))

-- The files under UPLOAD_DIR by their path, beside the bucket.
pub record Storage (S : Type 0) : Type 0 where
  pub bucket : S
  pub disk : List (String × Bytes)

module _ {S : Type 0} (s3 : Bucket S) (s3_enabled : Bool) where
  unfoldable pub save_s3 : Bytes → String → String → String → Storage S → Option String × Storage S
  save_s3 body subfolder safe_name declared st =
      let key = object_key subfolder safe_name in
      let object : StoredObject = record { body = body; content_type = content_type_of declared } in
      elim (s3.upload_fileobj key object st.bucket) [
        | none ↦ (none, st)
        | some b ↦ (some ("/" +++ key), record st { bucket = b })
      ]

  unfoldable pub save_local : Bytes → String → String → Storage S → Option String × Storage S
  save_local body subfolder safe_name st =
      let path : String = subfolder +++ ("/" +++ safe_name) in
      (some ("/static/uploads/" +++ path), record st { disk = st.disk ++ (path, body) ∷ [] })

  unfoldable delete_upload : String → Storage S → Bool × Storage S
  delete_upload url st = elim (s3_key_from_url url) [
    | none ↦ (true, st)
    | some key ↦ if not s3_enabled then (true, st) else elim (s3.delete_object key st.bucket) [
      | none ↦ (false, st)
      | some b ↦ (true, record st { bucket = b })
    ]
  ]

  -- The proxy, at `/uploads/<key>`.
  unfoldable serve : String → Storage S → Served
  serve key st =
      if not s3_enabled
      then not_found
      else if not (is_public (before_slash key))
      then not_found
      else elim (s3.get_object ("uploads/" +++ key) st.bucket) [
        | found o ↦ streamed_as o
        | no_such_key ↦ not_found
        | broken ↦ bad_gateway
      ]

  module _ (lower secure_filename : String → String) (hex : String)
      (reencode : String → Bytes → Option Bytes) where
    abbrev store_clean : String → Bytes → String → String → Storage S → Option String × Storage S
    store_clean declared body subfolder safe_name st =
        if s3_enabled
        then save_s3 body subfolder safe_name declared st
        else save_local body subfolder safe_name st

    -- `reencode` is `_reencode_pdf` for a pdf and `_reencode_image` for the other extensions.
    unfoldable pub save_upload : Upload → String → Storage S → Option String × Storage S
    save_upload file subfolder st = elim (validate lower secure_filename hex (some file)) [
      | none ↦ (none, st)
      | some v ↦ elim (reencode v.0 file.content) [
        | none ↦ (none, st)
        | some body ↦ store_clean v.0 body subfolder v.1 st
      ]
    ]
