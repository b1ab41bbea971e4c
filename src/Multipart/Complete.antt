-- ===== src/Multipart/Complete.antt =====
-- app/s3/handlers/multipart.py: `complete_multipart_upload`, behind its checks.
use telezon_s.Prelude.{
  ℕ, Bool, false, ◌&&◌, not, Option, none, some, List, [], ◌∷◌, String, ◌<>◌, ◌==◌, string_eq,
  nat_eq, if◌then◌else◌, length, any, select, is_empty, head?, sum_of, codes,
}
use telezon_s.Outcome.{
  Result, ok, err, Error, throttle, unavailable, object_gone, os_error, value_error,
  integrity_error, no_result, not_supported, sse_error, other, http,
}
use telezon_s.Model.{Config, Db, BlobPart, BlobBase, Blob, MultipartPartRow}
use telezon_s.Tables.Blobs.{crud_get_all_blobs, crud_create_blob, at_key}
use telezon_s.Tables.Uploads.{crud_list_parts, crud_delete_multipart_upload, sort_by_number}
use telezon_s.Cache.{cache_delete}
use telezon_s.Telegram.World.{World}
use telezon_s.Lifecycle.{bypass_trash_requested, retire_previous_version}
use telezon_s.Http.{Request, Response, header, or_blank, s3_error_response, xml_response}
use telezon_s.Http.Text.{is_blank, show_nat, escape}
use telezon_s.Service.{Service, Answer, after}
use telezon_s.Multipart.{remove_upload_staging, delete_part_messages}
use telezon_s.Multipart.Checks.{Completion, completion}
use telezon_s.Multipart.Albums.{
  Sent, nothing_sent, Sending, send_albums, chunks_of, rollback_sent_parts,
}

abbrev pub is_legacy : List MultipartPartRow → Bool
is_legacy parts =
    any (λ p. not (is_blank p.file_id)) parts
    && not (any (λ p. not (is_blank (or_blank p.staging_path))) parts)

unfoldable pub legacy_parts : List MultipartPartRow → List BlobPart
legacy_parts [] = []
legacy_parts (p ∷ ps) =
    record {
      part_number = p.part_number;
      file_id = p.file_id;
      size = p.size;
      message_id = p.message_id;
      etag = p.etag;
      album_index = none;
    }
    ∷ legacy_parts ps

-- the exceptions around the loop over the albums
abbrev pub album_error : Error → Option Response
album_error throttle = some (s3_error_response 503 "SlowDown")
album_error unavailable = some (s3_error_response 503 "ServiceUnavailable")
album_error os_error = some (s3_error_response 503 "ServiceUnavailable")
album_error value_error = some (s3_error_response 503 "ServiceUnavailable")
album_error object_gone = none
album_error integrity_error = none
album_error no_result = none
album_error not_supported = none
album_error sse_error = none
album_error other = none
album_error (http status) = none

-- uploaded parts that the request leaves out
abbrev pub unused_parts : List MultipartPartRow → List MultipartPartRow → List MultipartPartRow
unused_parts kept parts = select (λ p. not (any (λ k. k.part_number == p.part_number) kept)) parts

abbrev pub size_of : BlobPart → ℕ
size_of p = p.size

abbrev pub completed_blob : Completion → String → Sent → BlobBase
completed_blob c key sent = record {
  path = key;
  storage_id = some c.upload.storage_id;
  telegram_grouped_id = sent.grouped_id;
  telegram_albums = sent.albums;
  file = "multipart:" <> c.upload.upload_id;
  content_type = c.upload.content_type;
  size = sum_of size_of sent.parts;
  message_id = none;
  parts = sent.parts;
  sse_nonce = none;
  sse_tag = none;
  encrypted = false;
}

abbrev pub completed_xml : String → String → String → String
completed_xml bucket_name key etag =
    "<?xml version=\"1.0\" encoding=\"UTF-8\"?><CompleteMultipartUploadResult><Bucket>"
    <> escape bucket_name
    <> "</Bucket><Key>"
    <> escape key
    <> "</Key><ETag>"
    <> escape etag
    <> "</ETag></CompleteMultipartUploadResult>"

module _ (E : Service) (cfg : Config) where
  unfoldable pub retire_found :
      World E.storage → Option Blob → String → Option String → Bool → World E.storage
  unfolding retire_previous_version
  retire_found w none bucket_name chat bypass = w
  retire_found w (some existing) bucket_name chat bypass =
      retire_previous_version E.storage cfg w existing bucket_name chat "" bypass "overwrite"

  unfoldable pub cleanup_existing_blob :
      World E.storage → String → String → Option String → Bool → World E.storage
  unfolding retire_found
  cleanup_existing_blob w bucket_name key chat bypass =
      retire_found w (head? (crud_get_all_blobs w.db (at_key bucket_name key))) bucket_name chat
        bypass

  unfoldable pub completed_etag : String → Sent → String
  unfolding show_nat
  completed_etag upload_id sent =
      "\"" <> E.md5_hex (codes upload_id) <> "-" <> show_nat (length sent.parts) <> "\""

  -- behind `crud_create_blob`
  unfoldable pub finish_completion :
      World E.storage → String → String → String → Sent → Result Db → Answer E.storage
  unfolding completed_etag escape
  finish_completion w bucket_name key upload_id sent (err e) = (err e, w)
  finish_completion w bucket_name key upload_id sent (ok db) = (
    ok (xml_response (completed_xml bucket_name key (completed_etag upload_id sent))),
    record w {
      db = crud_delete_multipart_upload db upload_id;
      cache = cache_delete cfg w.cache bucket_name key;
    },
  )

  unfoldable pub store_completed :
      World E.storage → String → String → Completion → Sent → Answer E.storage
  unfolding finish_completion
  store_completed w bucket_name key c sent =
      finish_completion w bucket_name key c.upload.upload_id sent (
        crud_create_blob w.now w.db (completed_blob c key sent) bucket_name
          (not (is_empty (crud_get_all_blobs w.db (at_key bucket_name key)))))

  -- the unused parts and the previous version go, and the object is recorded
  unfoldable pub assemble :
      World E.storage → Request → String → String → Completion → Sent → Answer E.storage
  unfolding store_completed cleanup_existing_blob delete_part_messages bypass_trash_requested
  assemble w request bucket_name key c sent =
      let chat = c.bucket.row.telegram_chat_id in
      let w' =
        delete_part_messages E cfg chat "multipart_unused_part"
          (unused_parts c.parts (crud_list_parts w.db c.upload.upload_id)) w in
      store_completed
        (cleanup_existing_blob w' bucket_name key chat
          (bypass_trash_requested (header request "x-telezon-bypass-trash")))
        bucket_name key c sent

  unfoldable pub refused_album :
      World E.storage → Option String → Sent → Error → Option Response → Answer E.storage
  unfolding rollback_sent_parts
  refused_album w chat sent e none = (err e, w)
  refused_album w chat sent e (some response) =
      (ok response, rollback_sent_parts E.storage chat sent.parts [] w)

  unfoldable pub after_albums :
      Request → String → String → Completion → Sending E.storage → Answer E.storage
  unfolding refused_album assemble remove_upload_staging
  after_albums request bucket_name key c (some e, sent, w) =
      refused_album w c.bucket.row.telegram_chat_id sent e (album_error e)
  after_albums request bucket_name key c (none, sent, w) =
      assemble (record w { staged = remove_upload_staging cfg c.upload.upload_id w.staged }) request
        bucket_name key c sent

  -- `TG_ALBUM_MAX_ITEMS` is at least 1.
  unfoldable pub send_staged : World E.storage → Completion → Sending E.storage
  unfolding send_albums chunks_of
  send_staged w c =
      let parts = sort_by_number c.parts in
      send_albums E.storage c.bucket.row.telegram_chat_id c.bucket.row.telegram_topic_id
        c.upload.upload_id c.upload.storage_id nothing_sent
        (chunks_of (length parts) cfg.tg_album_max_items parts) w

  unfoldable pub complete_parts :
      World E.storage → Request → String → String → Completion → Answer E.storage
  unfolding send_staged after_albums assemble legacy_parts
  complete_parts w request bucket_name key c =
      if is_legacy c.parts
      then assemble w request bucket_name key c
          (record { parts = legacy_parts (sort_by_number c.parts); albums = []; grouped_id = none })
      else after_albums request bucket_name key c (send_staged w c)

  unfoldable pub complete_multipart_upload :
      Request → String → String → String → World E.storage → Answer E.storage
  unfolding completion complete_parts
  complete_multipart_upload request bucket_name key upload_id w =
      after (completion E cfg w request bucket_name key upload_id) w
        λ c. complete_parts w request bucket_name key c
