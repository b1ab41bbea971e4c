-- ===== src/Multipart.antt =====
-- app/s3/handlers/multipart.py: uploads in parts. What the handlers share, the start and the end of
-- an upload without an object, and the list of its parts.
pub mod Staging
pub mod Upload
pub mod Checks
pub mod Albums
pub mod Complete
pub mod Chunks
pub mod Kept
pub mod Order
pub mod Assembled
pub mod RoundTrip
pub mod Completed
pub mod Failures
pub mod Recorded
pub mod Aborted
pub mod Leaks
use telezon_s.Prelude.{
  ℕ, Bool, true, false, ◌&&◌, not, Option, none, some, List, [], ◌∷◌, String, ◌<>◌, ◌==◌, string_eq,
  nat_eq, if◌then◌else◌, select,
}
use telezon_s.Outcome.{Result, ok}
use telezon_s.Model.{Config, Db, Bucket, MultipartUploadRow, MultipartPartRow}
use telezon_s.Telegram.World.{World, next_id, draw}
use telezon_s.Telegram.Deletes.{safe_delete_tg_message}
use telezon_s.Tables.Uploads.{
  crud_create_multipart_upload, crud_get_multipart_upload, crud_list_parts,
  crud_delete_multipart_upload,
}
use telezon_s.Auth.{extract_access_key, resolve_identity, can_write}
use telezon_s.Http.{
  Request, Flow, next, reply, plain, return_if, some_or, s3_error_response, xml_response, ◌>>=◌,
  ◌>>◌,
}
use telezon_s.Http.Text.{is_blank, show_nat, escape, strip_text, strip_char}
use telezon_s.Service.{Service, Answer, after}
use telezon_s.Objects.Put.{authorized_bucket, content_type_header}

unfoldable pub norm_etag : Option String → String
unfolding strip_text strip_char
norm_etag none = ""
norm_etag (some value) = strip_char b'"' (strip_text value)

unfoldable pub upload_owner_ok : Bucket → Request → Db → Bool
unfolding extract_access_key resolve_identity can_write
upload_owner_ok bucket request db = elim (extract_access_key request) [
  | none ↦ false
  | some access_key ↦ if is_blank access_key then false else elim (resolve_identity db access_key) [
    | none ↦ false
    | some identity ↦ can_write identity bucket
  ]
]

-- the upload that a request names, for the bucket and the key that it names
unfoldable pub named_upload : Db → String → String → String → Flow MultipartUploadRow
named_upload db upload_id bucket_name key = do
  upload ← some_or (crud_get_multipart_upload db upload_id) (s3_error_response 404 "NoSuchUpload")
  return_if (not (upload.bucket == bucket_name && upload.key == key))
      (s3_error_response 404 "NoSuchUpload")
  next upload

-- the staged files are named by their upload and their part's number
abbrev pub StagedFiles : Type 0
StagedFiles = List (String × ℕ × List ℕ)

abbrev pub not_of_upload : String → String × ℕ × List ℕ → Bool
not_of_upload upload_id (u, n, content) = not (u == upload_id)

-- `remove_upload_staging` of app/storage/mpu_staging.py
unfoldable pub remove_upload_staging : Config → String → StagedFiles → StagedFiles
remove_upload_staging cfg upload_id files =
    if not cfg.mpu_staging then files else select (not_of_upload upload_id) files

abbrev pub initiated_xml : String → String → String → String
initiated_xml bucket_name key upload_id =
    "<?xml version=\"1.0\" encoding=\"UTF-8\"?><InitiateMultipartUploadResult><Bucket>"
    <> escape bucket_name
    <> "</Bucket><Key>"
    <> escape key
    <> "</Key><UploadId>"
    <> escape upload_id
    <> "</UploadId></InitiateMultipartUploadResult>"

unfoldable pub part_xml : List MultipartPartRow → String
unfolding show_nat escape
part_xml [] = ""
part_xml (p ∷ ps) =
    "<Part><PartNumber>"
    <> show_nat p.part_number
    <> "</PartNumber><ETag>"
    <> escape p.etag
    <> "</ETag><Size>"
    <> show_nat p.size
    <> "</Size></Part>"
    <> part_xml ps

abbrev pub parts_xml : String → String → String → List MultipartPartRow → String
parts_xml bucket_name key upload_id parts =
    "<?xml version=\"1.0\" encoding=\"UTF-8\"?><ListPartsResult><Bucket>"
    <> escape bucket_name
    <> "</Bucket><Key>"
    <> escape key
    <> "</Key><UploadId>"
    <> escape upload_id
    <> "</UploadId>"
    <> part_xml parts
    <> "</ListPartsResult>"

module _ (E : Service) (cfg : Config) where
  unfoldable pub create_multipart_upload :
      Request → String → String → World E.storage → Answer E.storage
  unfolding authorized_bucket escape
  create_multipart_upload request bucket_name key w =
      after (authorized_bucket E cfg w request bucket_name) w λ bucket.
        let upload_id = next_id w in
        let storage_id = next_id (draw w) in
        (
          ok (xml_response (initiated_xml bucket_name key upload_id)),
          record (draw (draw w)) {
            db =
                crud_create_multipart_upload w.now upload_id storage_id w.db bucket_name key
                  (content_type_header request) bucket.owner.access_key_id;
          },
        )

  -- the guards that aborting an upload and listing its parts share
  unfoldable pub owned_upload : World E.storage → Request → String → String → String → Flow Bucket
  unfolding named_upload upload_owner_ok
  owned_upload w request bucket_name key upload_id = do
    upload ← named_upload w.db upload_id bucket_name key
    bucket ← authorized_bucket E cfg w request bucket_name
    return_if (not (upload_owner_ok bucket request w.db)) (s3_error_response 403 "AccessDenied")
    next bucket

  -- A row without a message is passed over: there `safe_delete_tg_message` does nothing.
  unfoldable pub delete_part_messages :
      Option String → String → List MultipartPartRow → World E.storage → World E.storage
  delete_part_messages chat reason [] w = w
  delete_part_messages chat reason (p ∷ ps) w =
      delete_part_messages chat reason ps
        (safe_delete_tg_message E.storage w true p.message_id chat reason).1

  -- what aborting leaves, behind the guards
  unfoldable pub aborted : World E.storage → Option String → String → World E.storage
  unfolding remove_upload_staging delete_part_messages
  aborted w chat upload_id =
      let w' = delete_part_messages chat "multipart_abort" (crud_list_parts w.db upload_id) w in
      record w' {
        staged = remove_upload_staging cfg upload_id w'.staged;
        db = crud_delete_multipart_upload w'.db upload_id;
      }

  unfoldable pub abort_multipart_upload :
      Request → String → String → String → World E.storage → Answer E.storage
  unfolding owned_upload aborted
  abort_multipart_upload request bucket_name key upload_id w =
      after (owned_upload w request bucket_name key upload_id) w
        λ bucket. (ok (plain 204 []), aborted w bucket.row.telegram_chat_id upload_id)

  unfoldable pub list_parts :
      Request → String → String → String → World E.storage → Answer E.storage
  unfolding owned_upload part_xml escape
  list_parts request bucket_name key upload_id w =
      after (owned_upload w request bucket_name key upload_id) w λ bucket. (
        ok (xml_response (parts_xml bucket_name key upload_id (crud_list_parts w.db upload_id))),
        w,
      )
