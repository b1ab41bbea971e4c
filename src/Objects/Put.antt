-- ===== src/Objects/Put.antt =====
-- app/s3/handlers/object.py: `put_object` of a plain object, behind its routing, and
-- `delete_object`.
use telezon_s.Prelude.{
  ℕ, suc, Bool, true, false, ◌||◌, not, Option, none, some, List, [], ◌∷◌, ◌++◌, String, ◌<>◌, ◌==◌,
  string_eq, if◌then◌else◌, is_empty, is_some, length, head?,
}
use telezon_s.Outcome.{Result, ok, err}
use telezon_s.Model.{Config, Db, Bucket, Blob, BlobBase}
use telezon_s.Tables.Blobs.{crud_get_all_blobs, crud_create_blob, at_key}
use telezon_s.Cache.{cache_delete}
use telezon_s.Telegram.{PutFileResult}
use telezon_s.Telegram.World.{World, next_id, draw}
use telezon_s.Lifecycle.{bypass_trash_requested, retire_previous_version, delete_live_object}
use telezon_s.BlobIo.{sse_aad, text_or_none}
use telezon_s.Sse.{encrypt_sse_c, sse_key_md5_b64}
use telezon_s.Auth.{auth_error_response, precheck_request_for_bucket}
use telezon_s.Http.{
  Request, Response, Flow, next, reply, header, plain, return_if, s3_error_response, ◌>>=◌, ◌>>◌,
}
use telezon_s.Http.Body.{reject_oversized_content_length, read_body_capped, Capped, fits, too_large}
use telezon_s.Service.{Service, Answer, after, storage_error}
use telezon_s.Objects.{
  load_bucket_or_404, object_etag, authorize, is_auth_ok, StreamAuth, checked, deferred,
  sha_mismatch, authorize_before_stream, finalize_streamed_payload,
}
use telezon_s.Objects.Get.{sse_key_header}

-- the answer to a check of the streamed body, if it refuses
unfoldable pub refuse_stream : StreamAuth → Flow (Unit {0})
unfolding is_auth_ok auth_error_response
refuse_stream deferred = next tt
refuse_stream sha_mismatch = reply (s3_error_response 400 "InvalidRequest")
refuse_stream (checked auth) = return_if (not (is_auth_ok auth)) (auth_error_response auth)

abbrev pub is_checked : StreamAuth → Bool
is_checked deferred = false
is_checked sha_mismatch = false
is_checked (checked auth) = true

unfoldable pub staged_body : Capped → Flow (List ℕ)
staged_body (fits content) = next content
staged_body (too_large size) = reply (s3_error_response 400 "EntityTooLarge")

-- What is sent to the storage, and how it is encrypted.
pub record Sealed : Type 0 where
  pub body : List ℕ
  pub nonce : Option String
  pub tag : Option String
  pub encrypted : Bool
  pub headers : List (String × String)

abbrev pub unsealed : List ℕ → Sealed
unsealed content = record {
  body = content;
  nonce = none;
  tag = none;
  encrypted = false;
  headers = [];
}

-- `except SseError`
abbrev pub or_bad_request {ℓ} : {A : Type ℓ} → Result A → Flow A
or_bad_request (ok a) = next a
or_bad_request (err e) = reply (s3_error_response 400 "InvalidRequest")

abbrev pub md5_differs : Option String → String → Bool
md5_differs none md5 = false
md5_differs (some sent) md5 = not (sent == md5)

-- What the handler has once the body is staged, checked and sealed.
pub record Staged : Type 0 where
  pub bucket : Bucket
  pub size : ℕ
  pub sealed : Sealed

abbrev pub content_type_header : Request → String
content_type_header request = elim (header request "content-type") [
  | none ↦ "application/octet-stream"
  | some value ↦ value
]

-- `BlobInCreate(path=key)`
abbrev pub new_blob : String → BlobBase
new_blob key = record {
  path = key;
  storage_id = none;
  telegram_grouped_id = none;
  telegram_albums = [];
  file = "";
  content_type = "";
  size = 0;
  message_id = none;
  parts = [];
  sse_nonce = none;
  sse_tag = none;
  encrypted = false;
}

abbrev pub base_of : Option Blob → String → BlobBase
base_of none key = new_blob key
base_of (some previous) key = previous.base

-- the object before its file is known
unfoldable pub drafted : Request → Staged → BlobBase → Option String → BlobBase
drafted request staged base storage_id = record base {
  storage_id = storage_id;
  content_type = content_type_header request;
  size = staged.size;
  parts = [];
  sse_nonce = staged.sealed.nonce;
  sse_tag = staged.sealed.tag;
  encrypted = staged.sealed.encrypted;
}

module _ (E : Service) (cfg : Config) where
  unfoldable pub sealed_body : String → Request → String → String → List ℕ → Flow Sealed
  unfolding sse_key_md5_b64 encrypt_sse_c sse_aad
  sealed_body id request bucket_name key content = elim (text_or_none (sse_key_header request)) [
    | none ↦ next (unsealed content)
    | some sse_key ↦ do
      md5 ← or_bad_request (sse_key_md5_b64 E.crypto sse_key)
      return_if
          (md5_differs
            (text_or_none (header request "x-amz-server-side-encryption-customer-key-md5")) md5)
          (s3_error_response 400 "InvalidRequest")
      (body, nonce, tag) ←
          or_bad_request
            (encrypt_sse_c E.crypto (E.nonce id) content sse_key (sse_aad bucket_name key))
      next (record {
        body = body;
        nonce = some nonce;
        tag = some tag;
        encrypted = true;
        headers =
            ("x-amz-server-side-encryption-customer-algorithm", "AES256")
            ∷ ("x-amz-server-side-encryption-customer-key-md5", md5)
            ∷ [];
      })
  ]

  -- what is checked before the body is read, in the bucket that was found
  unfoldable pub admit_upload : World E.storage → Request → Bucket → Flow (Unit {0})
  admit_upload w request bucket = do
    reject_oversized_content_length cfg request
    let pre = precheck_request_for_bucket bucket request w.db
    return_if (not (is_auth_ok pre)) (auth_error_response pre)
    refuse_stream (authorize_before_stream E w.now bucket request w.db)

  -- the body is read, checked and sealed; the file that stages it is gone at the end
  unfoldable pub stage_body : World E.storage → Request → Bucket → String → String → Flow Staged
  stage_body w request bucket bucket_name key = do
    content ← staged_body (read_body_capped request cfg.max_upload_bytes)
    refuse_stream (
        finalize_streamed_payload E w.now bucket request w.db (E.sha256 content)
          (is_checked (authorize_before_stream E w.now bucket request w.db)))
    sealed ← sealed_body (next_id w) request bucket_name key content
    next (record { bucket = bucket; size = length content; sealed = sealed })

  unfoldable pub stage_object : World E.storage → Request → String → String → Flow Staged
  stage_object w request bucket_name key = do
    bucket ← load_bucket_or_404 w.db bucket_name
    admit_upload w request bucket
    stage_body w request bucket bucket_name key

  abbrev pub had_content : Option Blob → Bool
  had_content none = false
  had_content (some previous) =
      is_some previous.base.message_id || not (is_empty previous.base.parts)

  -- the previous version goes to the trash or is purged
  unfoldable pub retire_previous :
      World E.storage → Request → Option Blob → String → Option String → World E.storage
  unfolding bypass_trash_requested
  retire_previous w request none bucket_name chat = w
  retire_previous w request (some previous) bucket_name chat =
      if had_content (some previous)
      then retire_previous_version E.storage cfg w previous bucket_name chat ""
          (bypass_trash_requested (header request "x-telezon-bypass-trash")) "overwrite"
      else w

  abbrev pub put_response : Staged → BlobBase → Response
  put_response staged blob = plain 200 (staged.sealed.headers ++ ("ETag", object_etag blob) ∷ [])

  -- behind `crud_create_blob`: the cache entry goes, and the previous version is retired
  unfoldable pub finish_put :
      World E.storage
      → Request
      → String
      → String
      → Staged
      → Option Blob
      → BlobBase
      → Result Db
      → Answer E.storage
  unfolding retire_previous
  finish_put w request bucket_name key staged previous blob (err e) = (err e, w)
  finish_put w request bucket_name key staged previous blob (ok db) = (
    ok (put_response staged blob),
    retire_previous (record w { db = db; cache = cache_delete cfg w.cache bucket_name key }) request
        previous bucket_name staged.bucket.row.telegram_chat_id,
  )

  -- behind `storage.put_file`
  unfoldable pub record_object :
      World E.storage
      → Request
      → String
      → String
      → Staged
      → Option Blob
      → BlobBase
      → Result PutFileResult × E.storage.State
      → Answer E.storage
  unfolding finish_put
  record_object w request bucket_name key staged previous draft (err e, s) =
      (storage_error e, record w { tg = s })
  record_object w request bucket_name key staged previous draft (ok put, s) =
      let blob = record draft { file = put.file_id; message_id = put.message_id } in
      finish_put (record w { tg = s }) request bucket_name key staged previous blob
        (crud_create_blob w.now w.db blob bucket_name (is_some previous))

  -- the file is sent under its label, for the object that the query found, or a new one
  unfoldable pub store_version :
      World E.storage → Request → String → String → Staged → Option Blob → Answer E.storage
  unfolding drafted
  store_version w request bucket_name key staged previous =
      let base = base_of previous key in
      let storage_id = if cfg.tg_opaque_filenames then some (next_id w) else base.storage_id in
      let label = if cfg.tg_opaque_filenames then next_id w <> ".bin" else key in
      let drawn = if cfg.tg_opaque_filenames then suc w.drawn else w.drawn in
      record_object (record w { drawn = drawn }) request bucket_name key staged previous
        (drafted request staged base storage_id)
        (E.storage.put_file staged.sealed.body label staged.bucket.row.telegram_chat_id
          staged.bucket.row.telegram_topic_id w.tg)

  unfoldable pub store_object :
      World E.storage → Request → String → String → Staged → Answer E.storage
  store_object w request bucket_name key staged =
      store_version w request bucket_name key staged
        (head? (crud_get_all_blobs w.db (at_key bucket_name key)))

  -- `put_object` with a key, without `uploadId` and `x-amz-copy-source`
  unfoldable pub put_object : Request → String → String → World E.storage → Answer E.storage
  put_object request bucket_name key w =
      after (stage_object w request bucket_name key) w
        λ staged. store_object (draw w) request bucket_name key staged

  -- `delete_object` with a key and without `uploadId`
  unfoldable pub authorized_bucket : World E.storage → Request → String → Flow Bucket
  unfolding load_bucket_or_404 is_auth_ok auth_error_response
  authorized_bucket w request bucket_name = do
    bucket ← load_bucket_or_404 w.db bucket_name
    let auth = authorize E w.now bucket request w.db none none
    return_if (not (is_auth_ok auth)) (auth_error_response auth)
    next bucket

  unfoldable pub delete_object : Request → String → String → World E.storage → Answer E.storage
  unfolding authorized_bucket bypass_trash_requested
  delete_object request bucket_name key w =
      after (authorized_bucket w request bucket_name) w λ bucket. (
        ok (plain 204 []),
        (delete_live_object E.storage cfg w bucket_name key bucket.row.telegram_chat_id ""
            "delete_object" (bypass_trash_requested (header request "x-telezon-bypass-trash"))).1,
      )
