-- ===== src/Examples/Aborts.antt =====
-- Aborting an upload whose part lies in message 5.
use telezon_s.Prelude.{◌≡◌, refl, none, some, [], ◌∷◌}
use telezon_s.Model.{MultipartUploadRow, MultipartPartRow}
use telezon_s.Model.Lookup.{crud_get_bucket_by_name}
use telezon_s.Telegram.World.{World}
use telezon_s.Tables.Uploads.{crud_get_multipart_upload}
use telezon_s.Http.{Request, next}
use telezon_s.Auth.{
  authorize_request_for_bucket, authorize_identity, verify_sigv4, extract_access_key,
  resolve_identity, method_allowed, is_write, can_write, identity_or_owner,
}
use telezon_s.Objects.{load_bucket_or_404, is_auth_ok}
use telezon_s.Objects.Put.{authorized_bucket}
use telezon_s.Multipart.{owned_upload, named_upload, upload_owner_ok, abort_multipart_upload}
use telezon_s.Multipart.Leaks.{abort_deletes_nothing}
use telezon_s.Examples.Memory.{memory, service}
use telezon_s.Examples.Data.{config, db_with, world_with, request, signed_by_ann, pics}

abbrev begun_upload : MultipartUploadRow
begun_upload = record {
  upload_id = "u";
  bucket = "pics";
  key = "a";
  content_type = "";
  owner_access_key = "AK";
  storage_id = "s";
  initiated_at = 5;
}

abbrev sent_part : MultipartPartRow
sent_part = record {
  upload_id = "u";
  part_number = 1;
  etag = "";
  size = 1;
  file_id = "file";
  message_id = some 5;
  staging_path = none;
}

abbrev uploading : World memory
uploading = record (world_with []) {
  db = record (db_with []) { uploads = begun_upload ∷ []; parts = sent_part ∷ [] };
}

abbrev abandoning : Request
abandoning = request "DELETE" signed_by_ann []

abandoned_run : owned_upload service config uploading abandoning "pics" "a" "u" ≡ next pics
unfolding owned_upload named_upload crud_get_multipart_upload authorized_bucket load_bucket_or_404
    crud_get_bucket_by_name authorize_request_for_bucket authorize_identity verify_sigv4
    upload_owner_ok extract_access_key resolve_identity method_allowed is_write can_write is_auth_ok
    identity_or_owner
abandoned_run = refl

abort_deletes_nothing_example :
    ((abort_multipart_upload service config abandoning "pics" "a" "u" uploading).1.tg
      ≡ uploading.tg)
    × ((abort_multipart_upload service config abandoning "pics" "a" "u" uploading).1.db.pending
        ≡ [])
abort_deletes_nothing_example =
    abort_deletes_nothing service config abandoning "pics" "a" "u" uploading pics abandoned_run
