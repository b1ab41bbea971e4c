-- ===== src/Examples/Listings.antt =====
-- Listing and emptying a bucket.
use telezon_s.Prelude.{◌≡◌, refl, true, false, none, some, List, [], ◌∷◌, arith, text_lt}
use telezon_s.Outcome.{ok}
use telezon_s.Model.{Config, BlobRow}
use telezon_s.Model.Lookup.{crud_get_bucket_by_name}
use telezon_s.Http.{Request, plain, next, xml_response}
use telezon_s.Http.Body.{read_body_capped}
use telezon_s.Http.Subresources.{reject_unsupported_subresource}
use telezon_s.Auth.{
  precheck_request_for_bucket, extract_access_key, precheck_identity, identity_or_owner,
  resolve_identity, method_allowed, is_write, authorize_request_for_bucket, authorize_identity,
  verify_sigv4, auth_error_response, can_write,
}
use telezon_s.Objects.{load_bucket_or_404, is_auth_ok}
use telezon_s.Objects.Put.{authorized_bucket}
use telezon_s.Objects.Batch.{
  DeleteRequest, batch_request, delete_objects, delete_result_xml, parse_delete_xml, given_keys,
  is_quiet,
}
use telezon_s.Objects.Batched.{delete_objects_lem}
use telezon_s.Multipart.Checks.{small_body}
use telezon_s.Tables.Blobs.{crud_get_blob_in_bucket, sort_by_path}
use telezon_s.Tables.Buckets.{crud_bucket_has_objects}
use telezon_s.Tables.Uploads.{crud_list_multipart_uploads}
use telezon_s.Lifecycle.{delete_live_object}
use telezon_s.Lifecycle.Frees.{delete_live_object_frees, delete_live_object_parks}
use telezon_s.Tables.Like.{escape_like_prefix}
use telezon_s.Listing.Order.{text_lt-OrdersTexts}
use telezon_s.Listing.Walk.{all_pages, all_pages_lem}
use telezon_s.Buckets.{deletable_bucket, delete_bucket}
use telezon_s.Buckets.Emptied.{Emptied, delete_bucket_lem}
use telezon_s.Examples.Memory.{memory, service}
use telezon_s.Examples.Data.{
  config, db_with, world_with, row, plain_base, request, signed_by_ann, pics,
}

abbrev row_b : BlobRow
row_b = row (plain_base "b" [] 1 (some 3))

abbrev row_a : BlobRow
row_a = row (plain_base "a" [] 1 (some 5))

abbrev row_c : BlobRow
row_c = row (plain_base "c" [] 1 none)

abbrev shuffled : List BlobRow
shuffled = row_c ∷ row_a ∷ row_b ∷ []

-- keys under the prefix "a_", in either case, and one that only an unescaped pattern would match
abbrev underscored : List BlobRow
underscored =
    row (plain_base "a_2" [] 1 none)
    ∷ row (plain_base "ab1" [] 1 none)
    ∷ row (plain_base "A_1" [] 1 none)
    ∷ []

all_pages_lem_example :
    all_pages 3 (db_with underscored) "pics" "a_" "" 1
    ≡ row (plain_base "A_1" [] 1 none) ∷ row (plain_base "a_2" [] 1 none) ∷ []
unfolding sort_by_path text_lt escape_like_prefix
all_pages_lem_example =
    all_pages_lem (db_with underscored) text_lt-OrdersTexts "pics" "a_" 1 (refl, (refl, tt))
      (refl, (refl, tt)) (omega arith)

delete_live_object_frees_example :
    crud_get_blob_in_bucket
      (delete_live_object memory config
        (world_with shuffled)
        "pics"
        "a"
        none
        ""
        "delete_object"
        false).1.db
      "pics"
      "a"
    ≡ none
delete_live_object_frees_example =
    (delete_live_object_frees memory config (world_with shuffled) "pics" "a" none "" "delete_object"
        false (refl, (refl, (refl, tt)))).1
      "pics" "a"

abbrev with_trash : Config
with_trash = record config { enable_trash = true }

row_found : crud_get_blob_in_bucket (db_with shuffled) "pics" "a" ≡ some row_a
unfolding crud_get_blob_in_bucket
row_found = refl

delete_live_object_parks_example :
    ((delete_live_object memory with_trash
        (world_with shuffled)
        "pics"
        "a"
        none
        ""
        "delete_object"
        false).1.db.trash
      ≡ record {
        base = row_a.base;
        trash_id = "id";
        bucket_name = "pics";
        deleted_at = 100;
        expires_at = 1100;
        deleted_by = "";
        reason = "delete_object";
      }
        ∷ [])
    × ((delete_live_object memory with_trash
          (world_with shuffled)
          "pics"
          "a"
          none
          ""
          "delete_object"
          false).1.tg
        ≡ (world_with shuffled).tg)
delete_live_object_parks_example =
    delete_live_object_parks memory with_trash (world_with shuffled) "pics" "a" none ""
      "delete_object" row_a refl row_found

abbrev batch : Request
batch = record (request "POST" (("content-md5", "1;") ∷ signed_by_ann) ((60 ∷ []) ∷ [])) {
  query = ("delete", "") ∷ [];
}

abbrev wanted : DeleteRequest
wanted = record { keys = "a" ∷ []; quiet = false }

batch_run : batch_request service config (world_with shuffled) batch "pics" ≡ next (pics, wanted)
unfolding batch_request reject_unsupported_subresource load_bucket_or_404 crud_get_bucket_by_name
    precheck_request_for_bucket extract_access_key precheck_identity identity_or_owner
    resolve_identity method_allowed is_write can_write is_auth_ok auth_error_response small_body
    read_body_capped authorize_request_for_bucket authorize_identity verify_sigv4 parse_delete_xml
    given_keys is_quiet
batch_run = refl

delete_objects_lem_example :
    ((delete_objects service config batch "pics" (world_with shuffled)).0
      ≡ ok (xml_response (delete_result_xml ("a" ∷ []) false)))
    × (crud_get_blob_in_bucket
          (delete_objects service config batch "pics" (world_with shuffled)).1.db
          "pics"
          "a"
        ≡ none)
delete_objects_lem_example =
    delete_objects_lem service config batch "pics" (world_with shuffled) pics wanted "pics" "a"
      (refl, (refl, (refl, tt))) batch_run

abbrev emptying : Request
emptying = request "DELETE" signed_by_ann []

deletable_run : deletable_bucket service config (world_with []) emptying "pics" ≡ next pics
unfolding deletable_bucket reject_unsupported_subresource authorized_bucket load_bucket_or_404
    crud_get_bucket_by_name authorize_request_for_bucket authorize_identity verify_sigv4
    extract_access_key resolve_identity method_allowed is_write can_write is_auth_ok
    identity_or_owner crud_bucket_has_objects crud_list_multipart_uploads
deletable_run = refl

delete_bucket_lem_example :
    ((delete_bucket service config emptying "pics" (world_with [])).0 ≡ ok (plain 204 []))
    × Emptied "pics"
        (db_with [])
        (delete_bucket service config emptying "pics" (world_with [])).1.db
delete_bucket_lem_example =
    delete_bucket_lem service config emptying "pics" (world_with []) pics deletable_run
