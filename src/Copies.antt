-- ===== src/Copies.antt =====
-- app/s3/handlers/copy_object.py: a copy within a bucket shares the file of its source; a copy into
-- another bucket forwards the messages, or sends the bytes again.
pub mod Forward
pub mod Unwritten
pub mod Failures
pub mod Shared
use telezon_s.Prelude.{
  ℕ, suc, Bool, true, false, ◌&&◌, ◌||◌, not, Option, none, some, List, [], ◌∷◌, String, ◌<>◌, ◌==◌,
  string_eq, if◌then◌else◌, ltb, length, is_some, or_none, head?, codes, codes_eq,
}
use telezon_s.Outcome.{Result, ok, err, Error, throttle}
use telezon_s.Model.{Config, Db, Bucket, Blob, BlobBase}
use telezon_s.Model.Lookup.{crud_get_bucket_by_name}
use telezon_s.Tables.Blobs.{crud_get_all_blobs, crud_create_blob, at_key}
use telezon_s.Cache.{cache_delete}
use telezon_s.Telegram.{PutFileResult}
use telezon_s.Telegram.World.{World, next_id, draw}
use telezon_s.Lifecycle.{bypass_trash_requested, retire_previous_version}
use telezon_s.BlobIo.{load_blob_bytes, text_or_none}
use telezon_s.Auth.{AccessIdentity, auth_missing, auth_error_response, can_read}
use telezon_s.Range.{etag_matches}
use telezon_s.Http.{
  Request, Response, Flow, next, reply, header, return_if, some_or, or_blank, s3_error_response,
  xml_response, ◌>>=◌, ◌>>◌,
}
use telezon_s.Http.Text.{is_blank, strip_text, before_char, behind_char, has_char, escape}
use telezon_s.Service.{Service, Answer, after, storage_error}
use telezon_s.Objects.{load_bucket_or_404, object_etag, authorize, is_auth_ok, lowered}
use telezon_s.Objects.Put.{new_blob}
use telezon_s.Buckets.{resolve_identity_from_request}
use telezon_s.Copies.Forward.{try_build_cross_bucket_blob_via_forward}

-- `trimmed.find("/") <= 0` is a text without a slash, or with nothing before it
unfoldable pub source_of : String → Option (String × String)
unfolding has_char before_char behind_char
source_of trimmed =
    if not (has_char b'/' trimmed) || is_blank (before_char b'/' trimmed)
    then none
    else some (before_char b'/' trimmed, behind_char b'/' trimmed)

unfoldable pub parse_copy_source : (String → String) → String → Option (String × String)
unfolding strip_text before_char behind_char has_char source_of
parse_copy_source unquote header_text =
    let raw = strip_text header_text in
    let decoded = unquote (before_char b'?' raw) in
    if is_blank raw
    then none
    else source_of (
        if has_char b'/' decoded && is_blank (before_char b'/' decoded)
        then behind_char b'/' decoded
        else decoded)

pub data Directive : Type 0 where
  copy replace : Directive

abbrev pub is_replace : Directive → Bool
is_replace copy = false
is_replace replace = true

-- What is in upper case one of the two words is so in lower case as well.
unfoldable pub directive_of : Option String → Option Directive
unfolding codes_eq
directive_of value =
    let text = lowered (or_blank value) in
    if is_blank (or_blank value) || codes_eq text (codes "copy")
    then some copy
    else if codes_eq text (codes "replace")
    then some replace
    else none

-- What the handler has behind its guards.
pub record Copying : Type 0 where
  pub directive : Directive
  pub src_bucket : String
  pub src_key : String
  pub dest : Bucket
  pub source : Bucket
  pub blob : Blob

-- `a or b` for texts
abbrev pub or_text : String → String → String
or_text a b = if is_blank a then b else a

abbrev pub header_or : Request → String → String → String
header_or request name default = elim (header request name) [ none ↦ default | some value ↦ value ]

-- the media types of the copy in the same bucket, and in another
unfoldable pub shared_content_type : Request → Directive → BlobBase → String
shared_content_type request copy src = or_text src.content_type "application/octet-stream"
shared_content_type request replace src = header_or request "content-type" src.content_type

unfoldable pub sent_content_type : Request → Directive → BlobBase → String
sent_content_type request copy src = or_text src.content_type "application/octet-stream"
sent_content_type request replace src =
    header_or request "content-type" (or_text src.content_type "application/octet-stream")

-- the copy in the same bucket
abbrev pub shared_blob : BlobBase → String → String → BlobBase
shared_blob src key content_type = record src { path = key; content_type = content_type }

-- the conditions on the tag of the source, which only a copy into another bucket checks
unfoldable pub copy_conditions : Request → BlobBase → Flow (Unit {0})
unfolding etag_matches object_etag
copy_conditions request src = do
  let if_match = text_or_none (header request "x-amz-copy-source-if-match")
  let if_none_match = text_or_none (header request "x-amz-copy-source-if-none-match")
  return_if (is_some if_match && not (etag_matches if_match (object_etag src)))
      (s3_error_response 412 "PreconditionFailed")
  return_if (is_some if_none_match && etag_matches if_none_match (object_etag src))
      (s3_error_response 412 "PreconditionFailed")

module _ (E : Service) where
  -- the source has to be public, or of the same owner and readable
  unfoldable pub admit_source : World E.storage → Request → Bucket → Bucket → Flow (Unit {0})
  unfolding can_read resolve_identity_from_request auth_error_response
  admit_source w request dest source =
      if source.owner.username == dest.owner.username
      then (do
        identity ←
            some_or (resolve_identity_from_request E w.now w.db request (some []))
              (auth_error_response auth_missing)
        return_if (not (can_read identity source)) (s3_error_response 403 "AccessDenied"))
      else return_if (not source.row.is_public) (s3_error_response 403 "AccessDenied")

  unfoldable pub admit_copy : World E.storage → Request → String → String → Flow Copying
  unfolding parse_copy_source directive_of load_bucket_or_404 is_auth_ok auth_error_response
      admit_source
  admit_copy w request bucket_name key = do
    (src_bucket, src_key) ←
        some_or (parse_copy_source E.unquote (or_blank (header request "x-amz-copy-source")))
          (s3_error_response 400 "InvalidArgument")
    return_if (is_blank src_key) (s3_error_response 400 "InvalidArgument")
    directive ←
        some_or (directive_of (header request "x-amz-metadata-directive"))
          (s3_error_response 400 "InvalidArgument")
    return_if (src_bucket == bucket_name && src_key == key && not (is_replace directive))
        (s3_error_response 400 "InvalidRequest")
    dest ← load_bucket_or_404 w.db bucket_name
    let auth = authorize E w.now dest request w.db (some []) none
    return_if (not (is_auth_ok auth)) (auth_error_response auth)
    source ← load_bucket_or_404 w.db src_bucket
    admit_source w request dest source
    blob ←
        some_or (head? (crud_get_all_blobs w.db (at_key src_bucket src_key)))
          (s3_error_response 404 "NoSuchKey")
    return_if blob.base.encrypted (s3_error_response 400 "InvalidRequest")
    next (record {
      directive = directive;
      src_bucket = src_bucket;
      src_key = src_key;
      dest = dest;
      source = source;
      blob = blob;
    })

  abbrev pub copy_response : ℕ → BlobBase → Response
  copy_response now blob =
      let etag = object_etag blob in
      record (xml_response (
        "<?xml version=\"1.0\" encoding=\"UTF-8\"?><CopyObjectResult><LastModified>"
        <> E.iso now
        <> "</LastModified><ETag>"
        <> escape etag
        <> "</ETag></CopyObjectResult>")) { headers = ("ETag", etag) ∷ [] }

  module _ (cfg : Config) (request : Request) (bucket_name key : String) where
    -- `if previous`
    unfoldable pub retire_copied_over : World E.storage → Bucket → Option Blob → World E.storage
    unfolding bypass_trash_requested
    retire_copied_over w dest none = w
    retire_copied_over w dest (some previous) =
        retire_previous_version E.storage cfg w previous bucket_name dest.row.telegram_chat_id ""
          (bypass_trash_requested (header request "x-telezon-bypass-trash")) "overwrite"

    -- behind `crud_create_blob`
    unfoldable pub finish_copy :
        World E.storage → Bucket → Option Blob → BlobBase → Result Db → Answer E.storage
    unfolding retire_copied_over object_etag escape
    finish_copy w dest previous blob (err e) = (err e, w)
    finish_copy w dest previous blob (ok db) = (
      ok (copy_response w.now blob),
      retire_copied_over (record w { db = db; cache = cache_delete cfg w.cache bucket_name key })
          dest previous,
    )

    unfoldable pub record_copy :
        World E.storage → Bucket → Option Blob → BlobBase → Answer E.storage
    unfolding finish_copy
    record_copy w dest previous blob =
        finish_copy w dest previous blob
          (crud_create_blob w.now w.db blob bucket_name (is_some previous))

    unfoldable pub copy_within : World E.storage → Copying → Option Blob → Answer E.storage
    unfolding shared_content_type
    copy_within w job previous =
        record_copy w job.dest previous
          (shared_blob job.blob.base key (shared_content_type request job.directive job.blob.base))

    -- behind `storage.put_file`
    unfoldable pub record_sent :
        World E.storage
        → Copying
        → Option Blob
        → Option String
        → ℕ
        → Result PutFileResult × E.storage.State
        → Answer E.storage
    unfolding sent_content_type
    record_sent w job previous storage_id size (err e, s) = (storage_error e, record w { tg = s })
    record_sent w job previous storage_id size (ok put, s) =
        record_copy (record w { tg = s }) job.dest previous
          (record (new_blob key) {
            storage_id = storage_id;
            file = put.file_id;
            content_type = sent_content_type request job.directive job.blob.base;
            size = size;
            message_id = put.message_id;
          })

    -- the bytes of the source are sent under a new label, or under the key
    unfoldable pub send_copy :
        World E.storage
        → Copying
        → Option Blob
        → Result (List ℕ) × E.storage.State
        → Answer E.storage
    unfolding record_sent
    send_copy w job previous (err e, s) =
        (ok (s3_error_response 404 "NoSuchKey"), record w { tg = s })
    send_copy w job previous (ok content, s) =
        let sid = if cfg.tg_opaque_filenames then some (next_id w) else none in
        let label = if cfg.tg_opaque_filenames then next_id w <> ".bin" else key in
        let drawn = if cfg.tg_opaque_filenames then suc w.drawn else w.drawn in
        record_sent (record w { drawn = drawn }) job previous sid (length content)
          (E.storage.put_file content label job.dest.row.telegram_chat_id
            job.dest.row.telegram_topic_id s)

    -- `max_upload_bytes` bounds what is loaded into memory
    unfoldable pub copy_bytes : World E.storage → Copying → Option Blob → Answer E.storage
    unfolding send_copy
    copy_bytes w job previous =
        if ltb cfg.max_upload_bytes job.blob.base.size
        then (ok (s3_error_response 400 "EntityTooLarge"), w)
        else send_copy w job previous (load_blob_bytes E.storage E.crypto cfg job.blob none w.tg)

    -- behind the attempt to forward
    unfoldable pub copy_forwarded :
        Copying → Option Blob → Result (Option BlobBase) × World E.storage → Answer E.storage
    unfolding copy_bytes
    copy_forwarded job previous (err throttle, w) = (ok (s3_error_response 503 "SlowDown"), w)
    copy_forwarded job previous (err e, w) = (err e, w)
    copy_forwarded job previous (ok (some blob), w) = record_copy w job.dest previous blob
    copy_forwarded job previous (ok none, w) = copy_bytes w job previous

    unfoldable pub copy_across : World E.storage → Copying → Option Blob → Answer E.storage
    unfolding copy_conditions sent_content_type copy_forwarded
    copy_across w job previous = after (copy_conditions request job.blob.base) w λ passed.
        copy_forwarded job previous (
          try_build_cross_bucket_blob_via_forward E.storage cfg job.blob.base key
            (sent_content_type request job.directive job.blob.base) job.source.row.telegram_chat_id
            job.dest.row.telegram_chat_id job.dest.row.telegram_topic_id w)

    unfoldable pub copy_object : World E.storage → Answer E.storage
    unfolding admit_copy copy_within copy_across
    copy_object w = after (admit_copy w request bucket_name key) w λ job.
        let previous = head? (crud_get_all_blobs w.db (at_key bucket_name key)) in
        if job.src_bucket == bucket_name
        then copy_within w job previous
        else copy_across w job previous
