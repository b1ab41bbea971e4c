-- ===== src/Objects/RoundTrip.antt =====
-- An object that was put is read back.
use telezon_s.Prelude.{
  ℕ, suc, ◌≡◌, refl, ap, ◌∙◌, none, some, List, String, ◌<>◌, string_eq, head?, if◌then◌else◌,
  length,
}
use telezon_s.Outcome.{ok}
use telezon_s.Model.{Config, Bucket}
use telezon_s.Model.Lookup.{crud_get_bucket_by_name}
use telezon_s.Telegram.World.{World, draw, next_id}
use telezon_s.Http.{Request, Response, next}
use telezon_s.Tables.Blobs.{crud_get_all_blobs, at_key, crud_get_blob_in_bucket}
use telezon_s.Tables.Blobs.Keys.{IsPlain, head-crud_get_all_blobs}
use telezon_s.Tables.Blobs.Writes.{UniqueKeys}
use telezon_s.Service.{Service}
use telezon_s.Objects.Put.{store_object, Staged, unsealed, drafted, new_blob, stage_object}
use telezon_s.Http.Body.{body_of}
use telezon_s.Objects.Get.{sse_key_header}
use telezon_s.Objects.Put.{put_object, store_version}
use telezon_s.Objects.Staging.{stage_object_lem}
use telezon_s.Objects.Recorded.{Keeps, Readable, record_object-Readable}

module _ (E : Service) (cfg : Config) (laws : Keeps E.storage cfg.cid) where
  unseen :
      (w : World E.storage) (bucket key : String) (b : Bucket)
      → IsPlain bucket
      → IsPlain key
      → crud_get_bucket_by_name w.db bucket ≡ some b
      → crud_get_blob_in_bucket w.db bucket key ≡ none
      → head? (crud_get_all_blobs w.db (at_key bucket key)) ≡ none
  unseen w bucket key b plain_bucket plain_key known fresh =
      head-crud_get_all_blobs w.db bucket b known key plain_bucket plain_key ∙ rw (fresh) refl

  store_version-Readable :
      (w : World E.storage) (request : Request) (bucket key : String) (staged : Staged)
      (content : List ℕ) (response : Response)
      → IsPlain bucket
      → IsPlain key
      → UniqueKeys w.db.blobs
      → crud_get_bucket_by_name w.db bucket ≡ some staged.bucket
      → staged.sealed ≡ unsealed content
      → staged.size ≡ length content
      → (store_version E cfg w request bucket key staged none).0 ≡ ok response
      → response.status ≡ 200
      → Readable E cfg (store_version E cfg w request bucket key staged none).1 bucket key content
  unfolding store_version drafted
  store_version-Readable w request bucket key staged content response pb pk unique known sealed n h
        fine =
      let opaque = cfg.tg_opaque_filenames in
      let label = if opaque then next_id w <> ".bin" else key in
      record_object-Readable E cfg laws bucket key pb pk
        (record w { drawn = if opaque then suc w.drawn else w.drawn }) request staged
        (drafted request staged (new_blob key) (if opaque then some (next_id w) else none)) content
        response
        (E.storage.put_file staged.sealed.body label staged.bucket.row.telegram_chat_id
          staged.bucket.row.telegram_topic_id w.tg)
        refl unique known refl (ap (λ t. t.encrypted) sealed) n
        (λ r accepted.
          laws.put_get staged.sealed.body label staged.bucket.row.telegram_chat_id
            staged.bucket.row.telegram_topic_id w.tg r accepted
          ∙ ap (λ t. ok t.body) sealed)
        h fine

  store_object-Readable :
      (w : World E.storage) (request : Request) (bucket key : String) (staged : Staged)
      (content : List ℕ) (response : Response)
      → IsPlain bucket
      → IsPlain key
      → UniqueKeys w.db.blobs
      → crud_get_bucket_by_name w.db bucket ≡ some staged.bucket
      → crud_get_blob_in_bucket w.db bucket key ≡ none
      → staged.sealed ≡ unsealed content
      → staged.size ≡ length content
      → (store_object E cfg w request bucket key staged).0 ≡ ok response
      → response.status ≡ 200
      → Readable E cfg (store_object E cfg w request bucket key staged).1 bucket key content
  unfolding store_object
  store_object-Readable w request bucket key staged content response pb pk unique known fresh sealed
        n h fine =
      let new = unseen w bucket key staged.bucket pb pk known fresh in
      rw (new) (
        store_version-Readable w request bucket key staged content response pb pk unique known
          sealed n (rw (new) at h) fine)

  -- If the storage hands out what it has accepted to who names the message and the chat that it was
  -- put into, which is the setting's if the bucket names none, and the table has one row for each
  -- key: a PUT of a new object, with a bucket name and a key that are not blank and have no comma, and
  -- without a customer's key: if it passes its checks and answers 200, the object is found, has the
  -- size of the body that was sent, and is loaded as that body.
  pub put_object-Readable :
      (w : World E.storage) (request : Request) (bucket key : String) (staged : Staged)
      (response : Response)
      → IsPlain bucket
      → IsPlain key
      → UniqueKeys w.db.blobs
      → crud_get_blob_in_bucket w.db bucket key ≡ none
      → sse_key_header request ≡ none
      → stage_object E cfg w request bucket key ≡ next staged
      → (put_object E cfg request bucket key w).0 ≡ ok response
      → response.status ≡ 200
      → Readable E cfg (put_object E cfg request bucket key w).1 bucket key (body_of request.chunks)
  unfolding put_object
  put_object-Readable w request bucket key staged response pb pk unique fresh no_key passed h fine =
      let (known, sealed, n) = stage_object_lem E cfg w request bucket key staged no_key passed in
      rw (passed) (
        store_object-Readable (draw w) request bucket key staged (body_of request.chunks) response
          pb pk unique known fresh sealed n (rw (passed) at h) fine)
