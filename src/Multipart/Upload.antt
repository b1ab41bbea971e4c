-- ===== src/Multipart/Upload.antt =====
-- app/s3/handlers/multipart.py: `upload_part`.
use telezon_s.Prelude.{
  ℕ, ◌||◌, true, not, Option, none, some, List, [], ◌∷◌, String, ◌<>◌, string_eq, ltb, length,
}
use telezon_s.Outcome.{ok}
use telezon_s.Model.{Config, Bucket, MultipartPartRow}
use telezon_s.Telegram.World.{World}
use telezon_s.Telegram.Deletes.{safe_delete_tg_message}
use telezon_s.Tables.Uploads.{crud_upsert_part}
use telezon_s.Auth.{precheck_request_for_bucket, auth_error_response}
use telezon_s.Http.{Request, Flow, next, plain, return_if, s3_error_response, ◌>>=◌, ◌>>◌}
use telezon_s.Http.Text.{show_nat}
use telezon_s.Http.Body.{reject_oversized_content_length, read_body_capped, Capped, fits, too_large}
use telezon_s.Service.{Service, Answer, after}
use telezon_s.Objects.{
  load_bucket_or_404, is_auth_ok, authorize_before_stream, finalize_streamed_payload,
}
use telezon_s.Objects.Put.{refuse_stream, is_checked}
use telezon_s.Multipart.{named_upload, upload_owner_ok}
use telezon_s.Multipart.Staging.{unlink_part, write_part}

module _ (E : Service) (cfg : Config) where
  -- What is checked before the body is read. A negative part number is refused as 0 is.
  unfoldable pub admit_part : World E.storage → Request → String → String → String → ℕ → Flow Bucket
  unfolding named_upload load_bucket_or_404 reject_oversized_content_length
      precheck_request_for_bucket is_auth_ok auth_error_response refuse_stream
      authorize_before_stream
  admit_part w request bucket_name key upload_id part_number = do
    return_if (ltb part_number 1 || ltb cfg.multipart_max_parts part_number)
        (s3_error_response 400 "InvalidRequest")
    upload ← named_upload w.db upload_id bucket_name key
    bucket ← load_bucket_or_404 w.db bucket_name
    reject_oversized_content_length cfg request
    let pre = precheck_request_for_bucket bucket request w.db
    return_if (not (is_auth_ok pre)) (auth_error_response pre)
    return_if (not cfg.mpu_staging) (s3_error_response 503 "ServiceUnavailable")
    refuse_stream (authorize_before_stream E w.now bucket request w.db)
    next bucket

  -- what is checked once the body is staged
  unfoldable pub confirm_part : World E.storage → Request → Bucket → List ℕ → Flow (Unit {0})
  unfolding refuse_stream finalize_streamed_payload authorize_before_stream upload_owner_ok
  confirm_part w request bucket content = do
    refuse_stream (
        finalize_streamed_payload E w.now bucket request w.db (E.sha256 content)
          (is_checked (authorize_before_stream E w.now bucket request w.db)))
    return_if (not (upload_owner_ok bucket request w.db)) (s3_error_response 403 "AccessDenied")

  unfoldable pub new_part : String → ℕ → List ℕ → MultipartPartRow
  unfolding show_nat
  new_part upload_id part_number content = record {
    upload_id = upload_id;
    part_number = part_number;
    etag = "\"" <> E.md5_hex content <> "\"";
    size = length content;
    file_id = "";
    message_id = none;
    staging_path = some (upload_id <> "/part-" <> show_nat part_number);
  }

  unfoldable pub delete_replaced :
      World E.storage → Option String → Option MultipartPartRow → World E.storage
  unfolding safe_delete_tg_message
  delete_replaced w chat none = w
  delete_replaced w chat (some previous) =
      (safe_delete_tg_message E.storage w true previous.message_id chat "multipart_part_replaced").1

  unfoldable pub record_part : World E.storage → Bucket → String → ℕ → List ℕ → Answer E.storage
  unfolding new_part crud_upsert_part
  record_part w bucket upload_id part_number content =
      let part = new_part upload_id part_number content in
      let (previous, db) = crud_upsert_part w.db part in
      (
        ok (plain 200 (("ETag", part.etag) ∷ [])),
        delete_replaced (record w { db = db }) bucket.row.telegram_chat_id previous,
      )

  -- Every refusal behind the staging deletes the staged file.
  unfoldable pub receive_part :
      World E.storage → Request → Bucket → String → ℕ → Capped → Answer E.storage
  unfolding confirm_part record_part unlink_part write_part
  receive_part w request bucket upload_id part_number (too_large size) = (
    ok (s3_error_response 400 "EntityTooLarge"),
    record w { staged = unlink_part upload_id part_number w.staged },
  )
  receive_part w request bucket upload_id part_number (fits content) =
      after (confirm_part w request bucket content)
        (record w { staged = unlink_part upload_id part_number w.staged })
        λ _.
          record_part (record w { staged = write_part upload_id part_number content w.staged })
            bucket upload_id part_number content

  unfoldable pub upload_part :
      Request → String → String → String → ℕ → World E.storage → Answer E.storage
  unfolding admit_part receive_part read_body_capped
  upload_part request bucket_name key upload_id part_number w =
      after (admit_part w request bucket_name key upload_id part_number) w λ bucket.
        receive_part w request bucket upload_id part_number
          (read_body_capped request cfg.max_upload_bytes)
