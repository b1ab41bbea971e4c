-- ===== src/Examples/Parts.antt =====
-- An upload in two parts.
use telezon_s.Prelude.{
  ℕ, ◌≡◌, ◌≢◌, refl, ap, true, Option, none, some, List, [], ◌∷◌, String, ◌<>◌, arith, string_eq,
  nat_eq,
}
use telezon_s.Outcome.{ok}
use telezon_s.Model.{Config, Db, MultipartUploadRow, MultipartPartRow}
use telezon_s.Model.Lookup.{crud_get_bucket_by_name}
use telezon_s.Http.{Request, Response, plain, next, xml_response}
use telezon_s.Http.Body.{reject_oversized_content_length, read_body_capped}
use telezon_s.Http.Text.{escape}
use telezon_s.Telegram.{Storage, PutFileResult}
use telezon_s.Telegram.World.{World}
use telezon_s.Cache.{empty_cache}
use telezon_s.Service.{Service, serve}
use telezon_s.Examples.Memory.{encoded, decoded, decoded-encoded, turning}
use telezon_s.Examples.Data.{config, db_with, request, signed_by_ann, pics}
use telezon_s.Auth.{
  precheck_request_for_bucket, extract_access_key, precheck_identity, identity_or_owner,
  resolve_identity, method_allowed, is_write, authorize_request_for_bucket, authorize_identity,
  verify_sigv4, auth_error_response, can_write,
}
use telezon_s.Objects.{
  load_bucket_or_404, is_auth_ok, authorize_before_stream, finalize_streamed_payload,
}
use telezon_s.Objects.Put.{refuse_stream, authorized_bucket}
use telezon_s.Objects.Recorded.{Readable}
use telezon_s.Tables.Blobs.{crud_get_blob_in_bucket, crud_get_all_blobs, crud_create_blob}
use telezon_s.Tables.Uploads.{
  crud_get_part, crud_list_parts, crud_get_parts_for_complete, crud_get_multipart_upload,
  sort_by_number,
}
use telezon_s.Multipart.{
  named_upload, upload_owner_ok, norm_etag, owned_upload, abort_multipart_upload,
  delete_part_messages,
}
use telezon_s.Multipart.Staging.{staged_part, part_tg_upload_path}
use telezon_s.Multipart.Upload.{upload_part, admit_part, confirm_part}
use telezon_s.Multipart.Checks.{
  Completion, completion, completion_request, check_xml_length, small_body, parse_complete_xml,
  requested_parts, part_number_of, wanted_numbers, matching_rows, check_sizes, select_parts,
}
use telezon_s.Multipart.Kept.{KeepsAlbums, AllHeld}
use telezon_s.Multipart.Chunks.{chunks_of_covers, flat, AllFilled}
use telezon_s.Multipart.Albums.{
  chunks_of, send_albums, send_album, send_docs, album_docs, receive_album, add_album,
}
use telezon_s.Telegram.Deletes.{safe_delete_tg_message}
use telezon_s.Telegram.Deletes.Queue.{SameButPending}
use telezon_s.Multipart.Failures.{complete_multipart_upload_fails, upload_part_fails}
use telezon_s.Http.Text.{show_nat}
use telezon_s.Multipart.Recorded.{upload_part_lem}
use telezon_s.Multipart.Aborted.{Dropped, abort_multipart_upload_lem}
use telezon_s.Multipart.Complete.{
  complete_multipart_upload, complete_parts, send_staged, after_albums, assemble,
  cleanup_existing_blob, retire_found, store_completed, finish_completion, completed_etag,
}
use telezon_s.Multipart.Completed.{complete_multipart_upload-Readable}

-- a storage whose file ids spell the files
abbrev echoed : List (List ℕ × String) → List PutFileResult
echoed [] = []
echoed ((content, label) ∷ docs) =
    record { file_id = encoded content; message_id = none; grouped_id = none } ∷ echoed docs

abbrev echo : Storage
echo = record {
  State = Unit {0};
  put_file = λ content label chat topic s.
      (ok (record { file_id = encoded content; message_id = none; grouped_id = none }), s);
  get_file = λ file_id chat mid s. (ok (decoded 0 file_id), s);
  delete_message = λ mid chat s. (ok true, s);
  send_media_group = λ docs chat topic s. (ok (echoed docs), s);
  forward_messages = λ from mid chat topic s. (ok [], s);
}

abbrev Spelled : Unit {0} → Option String → String → Option ℕ → List ℕ → Type 0
Spelled s c f m content = decoded 0 f ≡ content

echoed_held : (docs : List (List ℕ × String)) → AllHeld (λ t. Spelled t none) tt docs (echoed docs)
echoed_held [] = tt
echoed_held ((content, label) ∷ docs) = (decoded-encoded content, echoed_held docs)

answered :
    (docs : List (List ℕ × String)) (s : Unit {0}) (results : List PutFileResult)
    → ok (echoed docs) ≡ ok results
    → AllHeld (λ t. Spelled t none) s docs results
answered docs s results h =
    let same : echoed docs ≡ results = ground arith in rw same at (echoed_held docs)

abbrev echo_keeps : KeepsAlbums echo (some "home")
echo_keeps = record {
  holds = Spelled;
  reads = λ s c f m content h. ap ok h;
  lasts_get = λ s c f m content f' m' c' h. h;
  lasts_send = λ s c f m content docs chat topic h. h;
  sends = λ s docs chat topic results h. answered docs s results h;
}

abbrev parts_service : Service
parts_service = record {
  storage = echo;
  crypto = turning;
  verifier = λ request payload key secret timed. true;
  strptime = λ text. none;
  parsedate = λ text. none;
  format_date = λ t. "";
  iso = λ t. "";
  xml_delete = λ raw. some (none, some "a" ∷ some "" ∷ none ∷ []);
  sha256 = λ bs. "";
  md5_hex = λ bs. "md5";
  unquote = λ s. s;
  xml_parts = λ raw. some ((some "2", some "\"md5\"") ∷ (some " 1 ", none) ∷ []);
  nonce = λ id. [];
}

abbrev staging : Config
staging = record config { mpu_staging = true; multipart_min_part_bytes = 1 }

abbrev begun : MultipartUploadRow
begun = record {
  upload_id = "u";
  bucket = "pics";
  key = "a";
  content_type = "text/plain";
  owner_access_key = "AK";
  storage_id = "s";
  initiated_at = 1;
}

abbrev row_of_part : ℕ → ℕ → MultipartPartRow
row_of_part number size = record {
  upload_id = "u";
  part_number = number;
  etag = "\"md5\"";
  size = size;
  file_id = "";
  message_id = none;
  staging_path = some "u/part";
}

abbrev parts_db : Db
parts_db = record (db_with []) {
  uploads = begun ∷ [];
  parts = row_of_part 2 1 ∷ row_of_part 1 2 ∷ [];
}

abbrev parts_world : World echo
parts_world = record {
  db = parts_db;
  tg = tt;
  cache = empty_cache;
  staged = ("u", 2, 9 ∷ []) ∷ ("u", 1, 7 ∷ 8 ∷ []) ∷ [];
  now = 100;
  ids = λ n. "id";
  drawn = 0;
}

abbrev post : Request
post = request "POST" signed_by_ann ((60 ∷ []) ∷ [])

abbrev completing : Completion
completing = record {
  upload = begun;
  bucket = pics;
  parts = row_of_part 2 1 ∷ row_of_part 1 2 ∷ [];
}

completion_run : completion parts_service staging parts_world post "pics" "a" "u" ≡ next completing
unfolding completion named_upload crud_get_multipart_upload load_bucket_or_404
    crud_get_bucket_by_name completion_request precheck_request_for_bucket extract_access_key
    precheck_identity identity_or_owner resolve_identity method_allowed is_write can_write
    is_auth_ok auth_error_response check_xml_length small_body read_body_capped
    authorize_request_for_bucket authorize_identity verify_sigv4 upload_owner_ok parse_complete_xml
    requested_parts part_number_of norm_etag select_parts crud_get_parts_for_complete sort_by_number
    wanted_numbers matching_rows check_sizes
completion_run = refl

abbrev completed : Response
completed = xml_response (
    "<?xml version=\"1.0\" encoding=\"UTF-8\"?><CompleteMultipartUploadResult><Bucket>pics</Bucket>"
    <> "<Key>a</Key><ETag>\"md5-2\"</ETag></CompleteMultipartUploadResult>")

complete_run :
    (complete_multipart_upload parts_service staging post "pics" "a" "u" parts_world).0
    ≡ ok completed
unfolding complete_multipart_upload complete_parts send_staged send_albums send_album send_docs
    album_docs receive_album after_albums assemble delete_part_messages safe_delete_tg_message
    cleanup_existing_blob crud_get_all_blobs retire_found store_completed finish_completion
    crud_create_blob crud_get_blob_in_bucket completed_etag escape crud_list_parts sort_by_number
    crud_get_bucket_by_name part_tg_upload_path add_album
complete_run = rw (completion_run) refl

no_object : crud_get_blob_in_bucket parts_db "pics" "a" ≡ none
unfolding crud_get_blob_in_bucket
no_object = refl

complete_multipart_upload-Readable_example :
    Readable parts_service staging
      (complete_multipart_upload parts_service staging post "pics" "a" "u" parts_world).1
      "pics"
      "a"
      (7 ∷ 8 ∷ 9 ∷ [])
unfolding staged_part sort_by_number crud_list_parts
complete_multipart_upload-Readable_example =
    complete_multipart_upload-Readable parts_service staging echo_keeps "pics" "a"
      (record { given = refl; no_comma = refl }) (record { given = refl; no_comma = refl })
      parts_world post "u" completing completed tt no_object completion_run refl (refl, (refl, tt))
      (refl, (refl, tt)) (omega arith) (omega arith) complete_run refl

abbrev three_parts : List ℕ
three_parts = 5 ∷ 6 ∷ 7 ∷ []

chunks_of_covers_example :
    (flat (chunks_of 3 2 three_parts) ≡ three_parts) × AllFilled 2 (chunks_of 3 2 three_parts)
chunks_of_covers_example = chunks_of_covers 2 three_parts (omega arith)

abbrev no_one : Request
no_one = request "POST" [] []

abbrev foreign : Request
foreign = request "PUT" [] ((60 ∷ []) ∷ [])

complete_refused :
    (serve parts_world
      (complete_multipart_upload parts_service staging no_one "pics" "a" "u" parts_world)).0.status
    ≡ 403
unfolding complete_multipart_upload serve completion named_upload crud_get_multipart_upload
    load_bucket_or_404 crud_get_bucket_by_name completion_request precheck_request_for_bucket
    extract_access_key is_auth_ok auth_error_response
complete_refused = refl

refused_status : ◌≢◌ {A = ℕ} 403 200
refused_status h = omega (arith, h)

complete_multipart_upload_fails_example :
    SameButPending parts_db
      (serve parts_world
        (complete_multipart_upload parts_service staging no_one "pics" "a" "u" parts_world)).1.db
complete_multipart_upload_fails_example =
    complete_multipart_upload_fails parts_service staging no_one "pics" "a" "u" parts_world
      (rw (complete_refused) refused_status)

part_refused :
    (serve parts_world
      (upload_part parts_service staging no_one "pics" "a" "u" 0 parts_world)).0.status
    ≡ 400
unfolding upload_part serve admit_part
part_refused = refl

bad_status : ◌≢◌ {A = ℕ} 400 200
bad_status h = omega (arith, h)

upload_part_fails_example :
    (serve parts_world (upload_part parts_service staging no_one "pics" "a" "u" 0 parts_world)).1.db
    ≡ parts_db
upload_part_fails_example =
    upload_part_fails parts_service staging no_one "pics" "a" "u" 0 parts_world
      (rw (part_refused) bad_status)

abbrev third : Request
third = request "PUT" (("content-length", "2") ∷ signed_by_ann) ((4 ∷ []) ∷ (5 ∷ []) ∷ [])

admit_run : admit_part parts_service staging parts_world third "pics" "a" "u" 3 ≡ next pics
unfolding admit_part named_upload crud_get_multipart_upload load_bucket_or_404
    crud_get_bucket_by_name reject_oversized_content_length precheck_request_for_bucket
    extract_access_key precheck_identity identity_or_owner resolve_identity method_allowed is_write
    can_write is_auth_ok auth_error_response refuse_stream authorize_before_stream
admit_run = refl

confirm_run : confirm_part parts_service staging parts_world third pics (4 ∷ 5 ∷ []) ≡ next tt
unfolding confirm_part finalize_streamed_payload refuse_stream authorize_before_stream
    authorize_request_for_bucket authorize_identity verify_sigv4 upload_owner_ok extract_access_key
    resolve_identity method_allowed is_write can_write is_auth_ok identity_or_owner
confirm_run = refl

upload_part_lem_example :
    ((upload_part parts_service staging third "pics" "a" "u" 3 parts_world).0
      ≡ ok (plain 200 (("ETag", "\"md5\"") ∷ [])))
    × (staged_part "u" 3
          (upload_part parts_service staging third "pics" "a" "u" 3 parts_world).1.staged
        ≡ some (4 ∷ 5 ∷ []))
    × (crud_get_part
          (upload_part parts_service staging third "pics" "a" "u" 3 parts_world).1.db
          "u"
          3
        ≡ some (record {
          upload_id = "u";
          part_number = 3;
          etag = "\"md5\"";
          size = 2;
          file_id = "";
          message_id = none;
          staging_path = some "u/part-3";
        }))
unfolding show_nat
upload_part_lem_example =
    upload_part_lem parts_service staging third "pics" "a" "u" 3 parts_world pics "u" 3 admit_run
      (omega arith) confirm_run

abbrev give_up : Request
give_up = request "DELETE" signed_by_ann []

owned_run : owned_upload parts_service staging parts_world give_up "pics" "a" "u" ≡ next pics
unfolding owned_upload named_upload crud_get_multipart_upload authorized_bucket load_bucket_or_404
    crud_get_bucket_by_name authorize_request_for_bucket authorize_identity verify_sigv4
    upload_owner_ok extract_access_key resolve_identity method_allowed is_write can_write is_auth_ok
    identity_or_owner
owned_run = refl

abort_multipart_upload_lem_example :
    ((abort_multipart_upload parts_service staging give_up "pics" "a" "u" parts_world).0
      ≡ ok (plain 204 []))
    × Dropped staging "u" parts_db
        (abort_multipart_upload parts_service staging give_up "pics" "a" "u" parts_world).1.db
        parts_world.staged
        (abort_multipart_upload parts_service staging give_up "pics" "a" "u" parts_world).1.staged
abort_multipart_upload_lem_example =
    abort_multipart_upload_lem parts_service staging give_up "pics" "a" "u" parts_world pics
      owned_run
