-- ===== src/Examples/Objects.antt =====
-- Storing and deleting objects.
use telezon_s.Prelude.{ℕ, ◌≡◌, ◌≢◌, ◌<◌, refl, true, false, none, some, List, [], ◌∷◌, arith}
use telezon_s.Outcome.{ok}
use telezon_s.Model.{BlobRow}
use telezon_s.Model.Lookup.{crud_get_bucket_by_name}
use telezon_s.Http.{Request, plain, next}
use telezon_s.Examples.Memory.{memory, memory_keeps, memory_deletes, service}
use telezon_s.Examples.Data.{
  config, db_with, world_with, row, plain_base, request, signed_by_ann, pics,
}
use telezon_s.Http.Body.{reject_oversized_content_length, read_body_capped}
use telezon_s.Auth.{
  precheck_request_for_bucket, extract_access_key, precheck_identity, identity_or_owner,
  resolve_identity, method_allowed, is_write, authorize_request_for_bucket, authorize_identity,
  verify_sigv4, auth_error_response,
}
use telezon_s.Tables.Blobs.{
  crud_get_all_blobs, crud_create_blob, crud_delete_blob, crud_get_blob_in_bucket,
}
use telezon_s.Telegram.World.{draw}
use telezon_s.Objects.{
  load_bucket_or_404, is_auth_ok, authorize_before_stream, finalize_streamed_payload, object_etag,
}
use telezon_s.Objects.Put.{
  Staged, unsealed, put_object, stage_object, admit_upload, stage_body, refuse_stream, staged_body,
  sealed_body, store_object, store_version, record_object, finish_put,
}
use telezon_s.Objects.Recorded.{Readable}
use telezon_s.Objects.RoundTrip.{put_object-Readable}
use telezon_s.Objects.Failures.{put_object_fails}
use telezon_s.Service.{serve}
use telezon_s.Tables.Refs.{count_message_id_refs}
use telezon_s.Telegram.Deletes.Clears.{Settled, safe_delete_settles}
use telezon_s.Telegram.Deletes.{safe_delete_tg_message}
use telezon_s.Lifecycle.{
  delete_live_object, use_trash, hard_delete, purge_deleted, delete_row, purge_tg_for_blob,
}
use telezon_s.Lifecycle.Safety.{delete, Removal-spares}
use telezon_s.Lifecycle.Clears.{delete_live_object_settles}

abbrev upload : Request
upload = request "PUT" (("content-length", "3") ∷ signed_by_ann) ((1 ∷ 2 ∷ []) ∷ [] ∷ (3 ∷ []) ∷ [])

abbrev unsent : Request
unsent = request "PUT" [] []

abbrev staged : Staged
staged = record { bucket = pics; size = 3; sealed = unsealed (1 ∷ 2 ∷ 3 ∷ []) }

stage_object_run : stage_object service config (world_with []) upload "pics" "a" ≡ next staged
unfolding stage_object admit_upload stage_body load_bucket_or_404 crud_get_bucket_by_name
    reject_oversized_content_length is_auth_ok precheck_request_for_bucket extract_access_key
    precheck_identity identity_or_owner resolve_identity method_allowed is_write refuse_stream
    authorize_before_stream authorize_request_for_bucket authorize_identity verify_sigv4
    finalize_streamed_payload read_body_capped staged_body sealed_body auth_error_response
stage_object_run = refl

store_object_run :
    (store_object service config (draw (world_with [])) upload "pics" "a" staged).0
    ≡ ok (plain 200 (("ETag", "\"file-3\"") ∷ []))
unfolding store_object store_version record_object finish_put crud_get_all_blobs crud_create_blob
    crud_get_blob_in_bucket object_etag crud_get_bucket_by_name
store_object_run = refl

put_object_run :
    (put_object service config upload "pics" "a" (world_with [])).0
    ≡ ok (plain 200 (("ETag", "\"file-3\"") ∷ []))
unfolding put_object
put_object_run = rw (stage_object_run) store_object_run

fresh : crud_get_blob_in_bucket (db_with []) "pics" "a" ≡ none
unfolding crud_get_blob_in_bucket
fresh = refl

put_object-Readable_example :
    Readable service config
      (put_object service config upload "pics" "a" (world_with [])).1
      "pics"
      "a"
      (1 ∷ 2 ∷ 3 ∷ [])
put_object-Readable_example =
    put_object-Readable service config memory_keeps (world_with []) upload "pics" "a" staged
      (plain 200 (("ETag", "\"file-3\"") ∷ [])) (record { given = refl; no_comma = refl })
      (record { given = refl; no_comma = refl }) tt fresh refl stage_object_run put_object_run refl

unsent_run :
    (serve (world_with []) (put_object service config unsent "pics" "a" (world_with []))).0.status
    ≡ 411
unfolding put_object serve stage_object admit_upload load_bucket_or_404 crud_get_bucket_by_name
    reject_oversized_content_length
unsent_run = refl

refused_status : ◌≢◌ {A = ℕ} 411 200
refused_status h = omega (arith, h)

put_object_fails_example :
    (serve (world_with []) (put_object service config unsent "pics" "a" (world_with []))).1.db
    ≡ db_with []
put_object_fails_example =
    put_object_fails service config unsent "pics" "a" (world_with [])
      (rw (unsent_run) refused_status)

-- two objects: "a" names message 5, "b" names message 3
abbrev two_rows : List BlobRow
two_rows = row (plain_base "a" [] 1 (some 5)) ∷ row (plain_base "b" [] 1 (some 3)) ∷ []

still_referred :
    0
    < count_message_id_refs
        (delete_live_object memory config
          (world_with two_rows)
          "pics"
          "a"
          none
          ""
          "delete_object"
          false).1.db
        3
unfolding count_message_id_refs delete_live_object crud_get_blob_in_bucket hard_delete purge_deleted
    delete_row crud_delete_blob purge_tg_for_blob safe_delete_tg_message
still_referred = omega arith

Removal-spares_example :
    memory_deletes.holds
      (delete_live_object memory config
        (world_with two_rows)
        "pics"
        "a"
        none
        ""
        "delete_object"
        false).1.tg
      none
      3
    ≡ true
Removal-spares_example =
    Removal-spares memory memory_deletes none 3 config {w = world_with two_rows}
      {w' = (delete_live_object memory config (world_with two_rows) "pics" "a" none ""
        "delete_object" false).1}
      (delete "pics" "a" none "" "delete_object" false) still_referred

delete_live_object_settles_example :
    Settled memory memory_deletes
      (delete_live_object memory config
        (world_with two_rows)
        "pics"
        "a"
        none
        ""
        "delete_object"
        false).1
      none
      5
unfolding use_trash count_message_id_refs delete_live_object crud_get_blob_in_bucket hard_delete
    purge_deleted delete_row crud_delete_blob purge_tg_for_blob safe_delete_tg_message
delete_live_object_settles_example =
    delete_live_object_settles memory memory_deletes config (world_with two_rows) "pics" "a" none ""
      "delete_object" false (row (plain_base "a" [] 1 (some 5))) 5 refl refl (omega arith) refl

safe_delete_settles_example :
    Settled memory memory_deletes
      (safe_delete_tg_message memory (world_with []) true (some 5) none "x").1
      none
      5
unfolding count_message_id_refs
safe_delete_settles_example =
    safe_delete_settles memory memory_deletes (world_with []) 5 none "x" refl
