-- ===== src/Objects/Batched.antt =====
-- The objects that a batch has deleted.
use telezon_s.Prelude.{
  ◌≡◌, refl, Bool, ◌&&◌, Option, none, List, [], ◌∷◌, String, ◌==◌, string_eq, arith, any,
  if◌then◌else◌,
}
use telezon_s.Outcome.{ok}
use telezon_s.Model.{Config, Bucket}
use telezon_s.Tables.Blobs.{crud_get_blob_in_bucket}
use telezon_s.Tables.Blobs.Writes.{UniqueKeys}
use telezon_s.Telegram.World.{World}
use telezon_s.Lifecycle.{delete_live_object, bypass_trash_requested}
use telezon_s.Lifecycle.Frees.{delete_live_object_frees}
use telezon_s.Http.{Request, next, header, xml_response}
use telezon_s.Service.{Service}
use telezon_s.Objects.Batch.{
  DeleteRequest, batch_request, delete_keys, delete_objects, delete_result_xml,
}

abbrev pub is_listed : String → List String → String → String → Bool
is_listed bucket keys b k = bucket == b && any (λ key. key == k) keys

module _ (E : Service) (cfg : Config) where
  delete_keys_lem :
      (w : World E.storage) (bucket : String) (chat : Option String) (bypass : Bool)
      (keys : List String) (b k : String)
      → UniqueKeys w.db.blobs
      → crud_get_blob_in_bucket (delete_keys E cfg w bucket chat bypass keys).db b k
        ≡ (if is_listed bucket keys b k then none else crud_get_blob_in_bucket w.db b k)
  unfolding delete_keys
  delete_keys_lem w bucket chat bypass [] b k unique = ground arith
  delete_keys_lem w bucket chat bypass (key ∷ keys) b k unique =
      let w' = (delete_live_object E.storage cfg w bucket key chat "" "delete_objects" bypass).1 in
      let (still, found) =
        delete_live_object_frees E.storage cfg w bucket key chat "" "delete_objects" bypass
          unique in
      ground (arith, delete_keys_lem w' bucket chat bypass keys b k still, found b k)

  -- A batch that passes its guards is answered with the document about its keys. Where the table
  -- has one row for each key, the keys that it lists are free in the bucket afterwards, and every
  -- other key, and every key of another bucket, holds what it held.
  pub delete_objects_lem :
      (request : Request) (bucket_name : String) (w : World E.storage) (bucket : Bucket)
      (wanted : DeleteRequest) (b k : String)
      → UniqueKeys w.db.blobs
      → batch_request E cfg w request bucket_name ≡ next (bucket, wanted)
      → ((delete_objects E cfg request bucket_name w).0
          ≡ ok (xml_response (delete_result_xml wanted.keys wanted.quiet)))
        × (crud_get_blob_in_bucket (delete_objects E cfg request bucket_name w).1.db b k ≡ (
            if is_listed bucket_name wanted.keys b k
            then none
            else crud_get_blob_in_bucket w.db b k))
  unfolding delete_objects
  delete_objects_lem request bucket_name w bucket wanted b k unique passed = rw (passed) (
    refl,
    delete_keys_lem w bucket_name bucket.row.telegram_chat_id
        (bypass_trash_requested (header request "x-telezon-bypass-trash")) wanted.keys b k unique,
  )
