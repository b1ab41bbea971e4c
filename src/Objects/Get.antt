-- ===== src/Objects/Get.antt =====
-- app/s3/handlers/object.py: `get_object` behind its routing, with `_load_object_bytes`, and
-- `head_object`.
use telezon_s.Prelude.{
  ℕ, ◌+◌, ◌-◌, Bool, true, false, ◌&&◌, not, Option, none, some, List, [], ◌∷◌, ◌++◌, String, ◌<>◌,
  string_eq, if◌then◌else◌, is_empty, slice, length, max, nat_beq, head?,
}
use telezon_s.Outcome.{Result, ok, err, Error, throttle, unavailable, value_error}
use telezon_s.Model.{Config, Db, Bucket, Blob}
use telezon_s.Tables.Blobs.{crud_get_all_blobs, at_key}
use telezon_s.Cache.{cache_get, cache_put}
use telezon_s.Telegram.World.{World}
use telezon_s.Range.{
  RangeResult, no_range, range, invalid_range, parse_bytes_range, evaluate_conditionals,
  ConditionHeaders, proceed, not_modified, precondition_failed,
}
use telezon_s.BlobIo.{
  load_blob_byte_range, load_blob_bytes, blob_telegram_chat_id, sse_aad, text_or_none,
}
use telezon_s.Sse.{decrypt_sse_c, sse_key_md5_b64}
use telezon_s.Auth.{auth_error_response}
use telezon_s.Http.{
  Request, Response, bytes, Flow, next, reply, raise, header, or_blank, plain, return_if, some_or,
  s3_error_response, ◌>>=◌, ◌>>◌,
}
use telezon_s.Http.Text.{is_blank, show_nat}
use telezon_s.Service.{Service, Answer, after, storage_error}
use telezon_s.Objects.{load_bucket_or_404, object_etag, authorize, is_auth_ok}

abbrev pub sse_key_header : Request → Option String
sse_key_header request = header request "x-amz-server-side-encryption-customer-key"

abbrev pub condition_headers : Request → ConditionHeaders
condition_headers request = record {
  if_match = header request "if-match";
  if_none_match = header request "if-none-match";
  if_modified_since = header request "if-modified-since";
  if_unmodified_since = header request "if-unmodified-since";
}

-- `range_header` and its parse, or the 416 response
unfoldable pub requested_range : Request → ℕ → Flow (Option (ℕ × ℕ))
requested_range request total_size = elim (text_or_none (header request "range")) [
  | none ↦ next none
  | some text ↦ elim (parse_bytes_range (some text) (max total_size 1)) [
    | no_range ↦ next none
    | range start end ↦ next (some (start, end))
    | invalid_range ↦ reply (
        plain 416
          (("Content-Range", "bytes */" <> show_nat total_size) ∷ ("Accept-Ranges", "bytes") ∷ []))
    | RangeResult.value_error ↦ raise value_error
  ]
]

-- what the handler knows of an object before it loads it
pub record Found : Type 0 where
  pub blob : Blob
  pub headers : List (String × String)
  pub byte_range : Option (ℕ × ℕ)

abbrev pub cut : Option (ℕ × ℕ) → List ℕ → List ℕ
cut none content = content
cut (some (start, end)) content = slice start (end + 1) content

abbrev pub media_type : Blob → String
media_type blob =
    if is_blank blob.base.content_type then "application/octet-stream" else blob.base.content_type

-- The answer for the bytes that were loaded. `parse_bytes_range` has no result only for a header
-- that is empty, so the range is cut here whenever one is asked for.
unfoldable pub range_response : Found → List (String × String) → List ℕ → Response
unfolding show_nat
range_response found headers content = elim found.byte_range [
  | none ↦ record {
    status = 200;
    headers = ("Content-Type", media_type found.blob) ∷ headers;
    content = bytes content;
  }
  | some (start, end) ↦
      let chunk =
        if nat_beq (length content) (end - start + 1)
        then content
        else slice start (end + 1) content in
      record {
        status = 206;
        headers =
            ("Content-Type", media_type found.blob)
            ∷ ("Content-Length", show_nat (length chunk))
            ∷ (
              "Content-Range",
              "bytes "
                  <> show_nat start
                  <> "-"
                  <> show_nat end
                  <> "/"
                  <> show_nat found.blob.base.size,
            )
            ∷ headers;
        content = bytes chunk;
      }
]

-- A later entry with the same name replaces an earlier one: the response carries the first.
module _ (E : Service) (cfg : Config) where
  abbrev pub last_modified_header : Blob → List (String × String)
  last_modified_header blob = ("Last-Modified", E.format_date blob.updated_at) ∷ []

  unfoldable pub find_blob : Db → String → String → Flow Blob
  find_blob db bucket_name key =
      some_or (head? (crud_get_all_blobs db (at_key bucket_name key)))
        (s3_error_response 404 "NoSuchKey")

  -- the conditional headers
  unfoldable pub check_conditions : Request → String → ℕ → Flow (Unit {0})
  unfolding evaluate_conditionals
  check_conditions request etag last_modified =
      elim (evaluate_conditionals E.parsedate etag (some last_modified)
        (condition_headers request)) [
          | proceed ↦ next tt
          | not_modified ↦ reply (plain 304 (("ETag", etag) ∷ []))
          | precondition_failed ↦ reply (s3_error_response 412 "PreconditionFailed")
        ]

  -- authorised, or of a public bucket
  unfoldable pub readable_bucket : ℕ → Request → Db → String → Flow Bucket
  unfolding load_bucket_or_404 is_auth_ok auth_error_response
  readable_bucket now request db bucket_name = do
    bucket ← load_bucket_or_404 db bucket_name
    let auth = authorize E now bucket request db none none
    return_if (not (is_auth_ok auth) && not bucket.row.is_public) (auth_error_response auth)
    next bucket

  unfoldable pub find_object : ℕ → Request → Db → String → String → Flow Found
  unfolding readable_bucket find_blob check_conditions requested_range object_etag
  find_object now request db bucket_name key = do
    bucket ← readable_bucket now request db bucket_name
    blob ← find_blob db bucket_name key
    let etag = object_etag blob.base
    check_conditions request etag blob.updated_at
    return_if (blob.base.encrypted && is_blank (or_blank (sse_key_header request)))
        (s3_error_response 400 "InvalidRequest")
    byte_range ← requested_range request blob.base.size
    next (record {
      blob = blob;
      headers =
          ("Content-Length", show_nat blob.base.size)
          ∷ ("ETag", etag)
          ∷ ("Accept-Ranges", "bytes")
          ∷ last_modified_header blob;
      byte_range = byte_range;
    })

  abbrev pub with_tg {ℓ} :
      {A : Type ℓ} → World E.storage → Result A × E.storage.State → Result A × World E.storage
  with_tg w (result, s) = (result, record w { tg = s })

  abbrev pub flagged : Bool → Result (List ℕ) → Result (List ℕ × Bool)
  flagged flag (ok content) = ok (content, flag)
  flagged flag (err e) = err e

  -- the end of `_load_object_bytes`: the file of an object without parts, decrypted, or put into the cache
  unfoldable pub use_file :
      World E.storage
      → Blob
      → String
      → String
      → Option String
      → Option (ℕ × ℕ)
      → Result (List ℕ) × E.storage.State
      → Result (List ℕ × Bool) × World E.storage
  unfolding sse_aad
  use_file w blob bucket_name key sse_key byte_range (err e, s) = (err e, record w { tg = s })
  use_file w blob bucket_name key sse_key byte_range (ok content, s) =
      let decrypted =
        decrypt_sse_c E.crypto content (or_blank sse_key) (or_blank blob.base.sse_nonce)
          (or_blank blob.base.sse_tag) (sse_aad bucket_name key) in
      if blob.base.encrypted then (flagged true decrypted, record w { tg = s }) else (
        ok (cut byte_range content, false),
        record w { tg = s; cache = cache_put cfg w.cache bucket_name key content },
      )

  unfoldable pub load_object_bytes :
      World E.storage
      → Blob
      → String
      → String
      → Option String
      → Option (ℕ × ℕ)
      → Result (List ℕ × Bool) × World E.storage
  unfolding use_file
  load_object_bytes w blob bucket_name key sse_key byte_range =
      let whole = load_blob_bytes E.storage E.crypto cfg blob sse_key w.tg in
      let fetched =
        E.storage.get_file blob.base.file (blob_telegram_chat_id cfg blob) blob.base.message_id
          w.tg in
      if not (is_empty blob.base.parts)
      then elim byte_range [
        | some (start, end) ↦
            let (read, s) =
              load_blob_byte_range E.storage E.crypto cfg blob start end sse_key w.tg in
            (flagged blob.base.encrypted read, record w { tg = s })
        | none ↦ (flagged false whole.0, record w { tg = whole.1 })
      ]
      else if blob.base.encrypted
      then use_file w blob bucket_name key sse_key byte_range fetched
      else elim (cache_get cfg w.cache bucket_name key) [
        | some cached ↦ (ok (cut byte_range cached, false), w)
        | none ↦ use_file w blob bucket_name key sse_key byte_range fetched
      ]

  -- the headers of a decrypted object
  abbrev pub md5_header : Result String → List (String × String)
  md5_header (err e) = []
  md5_header (ok md5) = ("x-amz-server-side-encryption-customer-key-md5", md5) ∷ []

  unfoldable pub sse_headers : Found → Option String → Bool → List ℕ → List (String × String)
  unfolding sse_key_md5_b64
  sse_headers found sse_key false content = found.headers
  sse_headers found sse_key true content =
      ("Content-Length", show_nat (length content))
        ∷ ("x-amz-server-side-encryption-customer-algorithm", "AES256")
        ∷ md5_header (sse_key_md5_b64 E.crypto (or_blank sse_key))
      ++ found.headers

  abbrev pub load_error : Blob → Error → Result Response
  load_error blob throttle = storage_error throttle
  load_error blob unavailable = storage_error unavailable
  load_error blob e =
      if blob.base.encrypted then ok (s3_error_response 403 "AccessDenied") else err e

  unfoldable pub answer_loaded :
      Found → Option String → Result (List ℕ × Bool) × World E.storage → Answer E.storage
  unfolding sse_headers range_response
  answer_loaded found sse_key (err e, w) = (load_error found.blob e, w)
  answer_loaded found sse_key (ok (content, was_encrypted), w) =
      (ok (range_response found (sse_headers found sse_key was_encrypted content) content), w)

  -- `get_object` with a key and without `uploadId`
  unfoldable pub get_object : Request → String → String → World E.storage → Answer E.storage
  unfolding find_object load_object_bytes answer_loaded
  get_object request bucket_name key w =
      after (find_object w.now request w.db bucket_name key) w λ found.
        answer_loaded found (sse_key_header request)
          (load_object_bytes w found.blob bucket_name key (sse_key_header request) found.byte_range)

  unfoldable pub head_found : ℕ → Request → Db → String → String → Flow Response
  unfolding readable_bucket find_blob check_conditions object_etag
  head_found now request db bucket_name key = do
    bucket ← readable_bucket now request db bucket_name
    blob ← find_blob db bucket_name key
    let etag = object_etag blob.base
    check_conditions request etag blob.updated_at
    next (
        plain 200 (
          ("Content-Length", show_nat blob.base.size)
          ∷ ("Content-Type", media_type blob)
          ∷ ("ETag", etag)
          ∷ ("Accept-Ranges", "bytes")
          ∷ last_modified_header blob))

  unfoldable pub head_object : Request → String → String → World E.storage → Answer E.storage
  unfolding head_found
  head_object request bucket_name key w =
      after (head_found w.now request w.db bucket_name key) w λ response. (ok response, w)
