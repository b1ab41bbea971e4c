-- ===== src/Multipart/RoundTrip.antt =====
-- An object that was completed from its staged parts is read back.
use mathlib.Core.Path.{subst}
use telezon_s.Prelude.{
  ◌<◌, ◌≡◌, refl, sym, ap, ◌∙◌, false, none, some, List, String, string_eq, arith, eq_iff, sum_of,
}
use telezon_s.Outcome.{Result, ok, err}
use telezon_s.Model.{Config, Db, BlobPart, Blob, BlobRow}
use telezon_s.Model.Lookup.{crud_get_bucket_by_name}
use telezon_s.Telegram.World.{World}
use telezon_s.Http.{Response}
use telezon_s.Cache.{cache_delete}
use telezon_s.Tables.Blobs.{crud_create_blob, crud_get_blob_in_bucket}
use telezon_s.Tables.Blobs.Keys.{IsPlain, head-crud_get_all_blobs, as_blob}
use telezon_s.Tables.Blobs.Writes.{UniqueKeys, crud_create_blob_lem}
use telezon_s.Tables.Uploads.{crud_delete_multipart_upload}
use telezon_s.Service.{Service}
use telezon_s.Objects.Get.{find_blob, load_object_bytes}
use telezon_s.Objects.Recorded.{Readable, bucket_kept, row_of}
use telezon_s.Multipart.{StagedFiles}
use telezon_s.Multipart.Checks.{Completion}
use telezon_s.Multipart.Albums.{Sent}
use telezon_s.Multipart.Complete.{finish_completion, completed_blob, size_of}
use telezon_s.Multipart.Kept.{KeepsAlbums, PartsHeld, content_of, numbered}
use telezon_s.Multipart.Order.{IsAscending, AllSized, contents, sizes-contents}
use telezon_s.Multipart.Assembled.{object_loaded}

module _ (E : Service) (cfg : Config) (laws : KeepsAlbums E.storage cfg.cid) (bucket key : String)
    (plain_bucket : IsPlain bucket) (plain_key : IsPlain key) where
  -- the rows of an object are not those of an upload
  same_lookup :
      (db : Db) (upload_id : String)
      → crud_get_bucket_by_name (crud_delete_multipart_upload db upload_id) bucket
        ≡ crud_get_bucket_by_name db bucket
  unfolding crud_get_bucket_by_name crud_delete_multipart_upload
  same_lookup db upload_id = refl

  row_seen :
      (db : Db) (upload_id : String) (row : BlobRow)
      → crud_get_blob_in_bucket db bucket key ≡ some row
      → crud_get_blob_in_bucket (crud_delete_multipart_upload db upload_id) bucket key ≡ some row
  unfolding crud_get_blob_in_bucket crud_delete_multipart_upload
  row_seen db upload_id row h = h

  -- an object that has been recorded with the parts that were sent
  loaded_as_sent :
      (w : World E.storage) (blob : Blob) (upload_id : String) (files : StagedFiles)
      (parts : List BlobPart)
      → blob.base.parts ≡ parts
      → blob.base.encrypted ≡ false
      → blob.base.size ≡ sum_of size_of parts
      → PartsHeld upload_id files E.storage cfg.cid laws blob.bucket.telegram_chat_id w.tg parts
      → IsAscending (numbered parts)
      → AllSized (content_of upload_id files) (numbered parts)
      → 0 < sum_of size_of parts
      → (load_object_bytes E cfg w blob bucket key none none).0
        ≡ ok (contents (content_of upload_id files) (numbered parts), false)
  loaded_as_sent w blob upload_id files parts same plain size held asc sized pos =
      let back = sym same in
      object_loaded E cfg laws blob.bucket.telegram_chat_id upload_id files w blob bucket key refl
        (subst (PartsHeld upload_id files E.storage cfg.cid laws blob.bucket.telegram_chat_id w.tg)
          back held)
        (subst (λ ps. IsAscending (numbered ps)) back asc)
        (subst (λ ps. AllSized (content_of upload_id files) (numbered ps)) back sized) plain
        (size ∙ ap (sum_of size_of) back) (omega (arith, size, pos))
      ∙ ap (λ ps. ok (contents (content_of upload_id files) (numbered ps), false)) same

  pub finish_completion-Readable :
      (w : World E.storage) (c : Completion) (sent : Sent) (files : StagedFiles)
      (created : Result Db) (response : Response)
      → crud_create_blob w.now w.db (completed_blob c key sent) bucket false ≡ created
      → UniqueKeys w.db.blobs
      → crud_get_bucket_by_name w.db bucket ≡ some c.bucket
      → PartsHeld c.upload.upload_id files E.storage cfg.cid laws c.bucket.row.telegram_chat_id w.tg
          sent.parts
      → IsAscending (numbered sent.parts)
      → AllSized (content_of c.upload.upload_id files) (numbered sent.parts)
      → 0 < sum_of size_of sent.parts
      → (finish_completion E cfg w bucket key c.upload.upload_id sent created).0 ≡ ok response
      → Readable E cfg
          (finish_completion E cfg w bucket key c.upload.upload_id sent created).1
          bucket
          key
          (contents (content_of c.upload.upload_id files) (numbered sent.parts))
  unfolding finish_completion find_blob
  finish_completion-Readable w c sent files (err e) response made unique known held asc sized pos
        h =
      absurd (ground arith)
  finish_completion-Readable w c sent files (ok db) response made unique known held asc sized pos
        h =
      let blob = completed_blob c key sent in
      let upload_id = c.upload.upload_id in
      let db' = crud_delete_multipart_upload db upload_id in
      let put_there = crud_create_blob_lem w.now w.db db blob bucket false unique made in
      let (row, at_row, same) =
        row_of E cfg (crud_get_blob_in_bucket db bucket key) blob
          (ground (arith, put_there.1 bucket key, eq_iff bucket bucket, eq_iff key key)) in
      let known' =
        same_lookup db upload_id ∙ bucket_kept E cfg w.now w.db db blob bucket made ∙ known in
      let seen = head-crud_get_all_blobs db' bucket c.bucket known' key plain_bucket plain_key in
      let found : Blob = as_blob db' bucket c.bucket known' row in
      let after_run : World E.storage = record w {
        db = db';
        cache = cache_delete cfg w.cache bucket key;
      } in
      record {
        blob = found;
        found = rw (find_blob, seen, row_seen db upload_id row at_row) refl;
        size = ap (λ b. b.size) same ∙ sizes-contents (content_of upload_id files) sent.parts sized;
        loaded =
            loaded_as_sent after_run found upload_id files sent.parts (ap (λ b. b.parts) same)
              (ap (λ b. b.encrypted) same) (ap (λ b. b.size) same) held asc sized pos;
      }
