-- ===== src/Uploads/Storage/Returned.antt =====
-- What is saved is what is served, until it is deleted.
use Prim.Native.Char.{Char, code}
use Prim.Native.String.count.{cons as count-cons}
use text.Mathlib.Text.{◌==◌ as str_eq, starts_with}
use text.Mathlib.TextPositions.{starts_with-append}
use text.Mathlib.TextLemmas.{nil-append, cons-append, append_assoc}
use text.Mathlib.TextEquality.{eq_iff}
use les_traiteurs_engages_v.Base.{
  Bool, Bool-cases, Option, Option-cases, String, ap, arith, chars, drop_chars, false,
  if◌then◌else◌, inl, inr, is_empty, refl, some, some_inj, subst, sym, true, ◌+++◌, ◌==◌, ◌||◌, ◌∙◌,
  ◌≡◌,
}
use les_traiteurs_engages_v.Uploads.Formats.{Bytes, Upload, validate}
use les_traiteurs_engages_v.Uploads.Storage.{
  Bucket, Storage, StoredObject, before_slash, content_type_of, delete_upload, found, is_public,
  no_such_key, not_found, object_key, s3_key_from_url, save_s3, save_upload, serve, streamed,
  streamed_as,
}

drop_chars-append : (s t : String) → drop_chars (chars s) (s +++ t) ≡ t
unfolding drop_chars
drop_chars-append String.[] t = nil-append t
drop_chars-append (String.◌∷◌ c s) t =
    rw (cons-append c s t, count-cons c s) (drop_chars-append s t)

has_slash : String → Bool
has_slash String.[] = false
has_slash (String.◌∷◌ c s) = code c == b'/' || has_slash s

before_slash-append : (s t : String) → has_slash s ≡ false → before_slash (s +++ ("/" +++ t)) ≡ s
unfolding before_slash has_slash
before_slash-append String.[] t h = rw (nil-append ("/" +++ t)) (rw (cons-append "/" "" t) refl)
before_slash-append (String.◌∷◌ c s) t h =
    rw (cons-append c s ("/" +++ t)) (ground (arith, before_slash-append s t))

not_empty : (c : Char) (s t : String) → is_empty (String.◌∷◌ c s +++ t) ≡ false
not_empty c s t = elim (Bool-cases (is_empty (String.◌∷◌ c s +++ t))) [
  | inl y ↦
      let e : String.◌∷◌ c (s +++ t) ≡ "" =
        sym (cons-append c s t) ∙ (eq_iff (String.◌∷◌ c s +++ t) "").0 y in
      cc e
  | inr n ↦ n
]

key_of_prefix :
    (url path : String)
    → is_empty url ≡ false
    → starts_with url "/uploads/" ≡ true
    → drop_chars 9 url ≡ path
    → s3_key_from_url url ≡ some ("uploads/" +++ path)
unfolding s3_key_from_url
key_of_prefix url path a b c = rw (a, b, c) refl

-- The URL of an object leads back to its key.
s3_key_from_url-url :
    (path : String) → s3_key_from_url ("/" +++ ("uploads/" +++ path)) ≡ some ("uploads/" +++ path)
s3_key_from_url-url path =
    subst (λ url. s3_key_from_url url ≡ some ("uploads/" +++ path))
      (append_assoc "/" "uploads/" path)
      (key_of_prefix ("/uploads/" +++ path) path (not_empty "/" "uploads/" path)
        (starts_with-append "/uploads/" path) (drop_chars-append "/uploads/" path))

choice_not_empty :
    (a b c d e : Bool)
    → is_empty (
        if a
        then "image/jpeg"
        else if b
        then "image/png"
        else if c
        then "image/gif"
        else if d
        then "image/webp"
        else if e
        then "application/pdf"
        else "application/octet-stream")
      ≡ false
choice_not_empty true b c d e = refl
choice_not_empty false true c d e = refl
choice_not_empty false false true d e = refl
choice_not_empty false false false true e = refl
choice_not_empty false false false false true = refl
choice_not_empty false false false false false = refl

content_type_of-not_empty : (e : String) → is_empty (content_type_of e) ≡ false
unfolding content_type_of
content_type_of-not_empty e =
    choice_not_empty (str_eq e "jpg" || str_eq e "jpeg") (str_eq e "png") (str_eq e "gif")
      (str_eq e "webp") (str_eq e "pdf")

no_slash : has_slash "caterers" ≡ false
unfolding has_slash
no_slash = refl

module _ {S : Type 0} (s3 : Bucket S) (lower secure_filename : String → String) (hex : String)
    (reencode : String → Bytes → Option Bytes) where
  -- A saved upload: the checks and the new encoding succeeded, and the proxy answers with that encoding
  -- and the type of the extension; deleting it succeeds or changes nothing, and once it has succeeded
  -- the proxy has nothing there.
  pub record Saved (file : Upload) (url : String) (st st' : Storage S) : Type 0 where
    pub declared : String
    pub safe_name : String
    pub body : Bytes
    pub valid : validate lower secure_filename hex (some file) ≡ some (declared, safe_name)
    pub clean : reencode declared file.content ≡ some body
    pub key : String
    pub link : url ≡ "/uploads/" +++ key
    pub served : serve s3 true key st' ≡ streamed body (content_type_of declared)
    pub same_disk : st'.disk ≡ st.disk
    pub deleted :
        (after : Storage S)
        → delete_upload s3 true url st' ≡ (true, after)
        → serve s3 true key after ≡ not_found

  streamed-content_type :
      (declared : String) (body : Bytes)
      → streamed_as (record { body = body; content_type = content_type_of declared })
        ≡ streamed body (content_type_of declared)
  streamed-content_type declared body = rw (content_type_of-not_empty declared) refl

  served_object :
      (key : String) (o : StoredObject) (st : Storage S)
      → is_public (before_slash key) ≡ true
      → s3.get_object ("uploads/" +++ key) st.bucket ≡ found o
      → serve s3 true key st ≡ streamed_as o
  unfolding serve
  served_object key o st public h = rw (public, h) refl

  served_nothing :
      (key : String) (st : Storage S)
      → is_public (before_slash key) ≡ true
      → s3.get_object ("uploads/" +++ key) st.bucket ≡ no_such_key
      → serve s3 true key st ≡ not_found
  unfolding serve
  served_nothing key st public h = rw (public, h) refl

  deleted_object :
      (url key : String) (st after : Storage S)
      → s3_key_from_url url ≡ some key
      → delete_upload s3 true url st ≡ (true, after)
      → s3.get_object key after.bucket ≡ no_such_key
  unfolding delete_upload
  deleted_object url key st after e h = elim (Option-cases (s3.delete_object key st.bucket)) [
    | inl raised ↦ cc (rw (e, raised, delete_upload) at h)
    | inr (b, done) ↦
        let same : record st { bucket = b } ≡ after =
          ap (λ p. p.1) (rw (e, done, delete_upload) at h) in
        subst (λ (a : Storage S). s3.get_object key a.bucket ≡ no_such_key) same
          (s3.get-delete key st.bucket b done)
  ]

  -- The bucket's part of a save.
  save_s3-some :
      (body : Bytes) (subfolder safe_name declared url : String) (st st' : Storage S)
      → save_s3 s3 true body subfolder safe_name declared st ≡ (some url, st')
      → (url ≡ "/" +++ object_key subfolder safe_name)
        × (s3.get_object (object_key subfolder safe_name) st'.bucket
            ≡ found (record { body = body; content_type = content_type_of declared }))
        × (st'.disk ≡ st.disk)
  unfolding save_s3
  save_s3-some body subfolder safe_name declared url st st' h =
      let key = object_key subfolder safe_name in
      let object : StoredObject = record { body = body; content_type = content_type_of declared } in
      elim (Option-cases (s3.upload_fileobj key object st.bucket)) [
        | inl raised ↦ cc (rw (raised, save_s3) at h)
        | inr (b, done) ↦
            let e : (some ("/" +++ key), record st { bucket = b }) ≡ (some url, st') =
              rw (done, save_s3) at h in
            (
              some_inj (ap (λ p. p.0) (sym e)),
              subst (λ (a : Storage S). s3.get_object key a.bucket ≡ found object) (ap (λ p. p.1) e)
                  (s3.get-upload key object st.bucket b done),
              ap (λ p. p.1.disk) (sym e),
            )
      ]

  -- What has been stored under a public subfolder is served from its URL, and no longer once it is
  -- deleted.
  stored-Saved :
      (file : Upload) (url declared safe_name : String) (body : Bytes) (st st' : Storage S)
      → validate lower secure_filename hex (some file) ≡ some (declared, safe_name)
      → reencode declared file.content ≡ some body
      → save_s3 s3 true body "caterers" safe_name declared st ≡ (some url, st')
      → Saved file url st st'
  stored-Saved file url declared safe_name body st st' valid clean h =
      let (is_url, there, same_disk) =
        save_s3-some body "caterers" safe_name declared url st st' h in
      let key : String = "caterers" +++ ("/" +++ safe_name) in
      let public : is_public (before_slash key) ≡ true =
        ap is_public (before_slash-append "caterers" safe_name no_slash) in
      record {
        declared = declared;
        safe_name = safe_name;
        body = body;
        valid = valid;
        clean = clean;
        key = key;
        link = is_url ∙ sym (append_assoc "/" "uploads/" key);
        served = served_object key _ st' public there ∙ streamed-content_type declared body;
        same_disk = same_disk;
        deleted = λ after d. served_nothing key after public (
            deleted_object url ("uploads/" +++ key) st' after
              (ap s3_key_from_url is_url ∙ s3_key_from_url-url key) d);
      }

  -- Where the bucket is in use, an upload under `caterers` whose URL is returned passed the checks and
  -- was encoded anew; what the proxy answers at that URL is that encoding with the content type of
  -- the extension, the disk is untouched, and once `delete_upload` has returned True for the URL the
  -- proxy answers 404 there.
  pub save_upload-serve :
      (file : Upload) (url : String) (st st' : Storage S)
      → save_upload s3 true lower secure_filename hex reencode file "caterers" st ≡ (some url, st')
      → Saved file url st st'
  unfolding save_upload
  save_upload-serve file url st st' h =
      elim (Option-cases (validate lower secure_filename hex (some file))) [
        | inl refused ↦ cc (rw (refused, save_upload) at h)
        | inr (v, valid) ↦ elim (Option-cases (reencode v.0 file.content)) [
          | inl broken ↦ cc (rw (valid, broken, save_upload) at h)
          | inr (body, clean) ↦
              stored-Saved file url v.0 v.1 body st st' valid clean
                (rw (valid, clean, save_upload) at h)
        ]
      ]
