-- ===== src/Copies/Failures.antt =====
-- A copy that fails leaves the database as it was.
use telezon_s.Prelude.{
  ℕ, suc, ◌≡◌, ◌≢◌, refl, Option, none, some, List, String, nat_eq, ◌==◌, ◌<>◌, string_eq,
  if◌then◌else◌, Bool-cases, inl, inr, ltb, length, head?, is_some,
}
use telezon_s.Outcome.{
  Result, ok, err, throttle, unavailable, object_gone, os_error, value_error, integrity_error,
  no_result, not_supported, sse_error, other, http,
}
use telezon_s.Model.{Config, Db, Bucket, Blob, BlobBase}
use telezon_s.Tables.Blobs.{crud_create_blob, crud_get_all_blobs, at_key}
use telezon_s.Telegram.{PutFileResult}
use telezon_s.Telegram.World.{World, next_id}
use telezon_s.BlobIo.{load_blob_bytes}
use telezon_s.Http.{Request}
use telezon_s.Service.{Service, storage_error, serve}
use telezon_s.Objects.Failures.{FailsClean, same_db_fails, after_fails}
use telezon_s.Copies.Forward.{Attempt}
use telezon_s.Copies.Unwritten.{forwarding_writes_nothing}
use telezon_s.Copies.{
  Copying, admit_copy, finish_copy, record_copy, copy_within, record_sent, send_copy, copy_bytes,
  copy_forwarded, copy_across, copy_object, copy_conditions, sent_content_type,
}

module _ (E : Service) (cfg : Config) (request : Request) (bucket_name key : String)
    (start : World E.storage) where
  finish_copy_fails :
      (w : World E.storage) (dest : Bucket) (previous : Option Blob) (blob : BlobBase)
      (created : Result Db)
      → w.db ≡ start.db
      → FailsClean start (finish_copy E cfg request bucket_name key w dest previous blob created)
  unfolding finish_copy serve
  finish_copy_fails w dest previous blob (err e) same h = same_db_fails start w (err e) same h
  finish_copy_fails w dest previous blob (ok db) same h = absurd (h refl)

  record_copy_fails :
      (w : World E.storage) (dest : Bucket) (previous : Option Blob) (blob : BlobBase)
      → w.db ≡ start.db
      → FailsClean start (record_copy E cfg request bucket_name key w dest previous blob)
  unfolding record_copy
  record_copy_fails w dest previous blob same =
      finish_copy_fails w dest previous blob
        (crud_create_blob w.now w.db blob bucket_name (is_some previous)) same

  record_sent_fails :
      (w : World E.storage) (job : Copying) (previous : Option Blob) (sid : Option String)
      (size : ℕ) (put : Result PutFileResult × E.storage.State)
      → w.db ≡ start.db
      → FailsClean start (record_sent E cfg request bucket_name key w job previous sid size put)
  unfolding record_sent
  record_sent_fails w job previous sid size (err e, s) same =
      same_db_fails start (record w { tg = s }) (storage_error e) same
  record_sent_fails w job previous sid size (ok put, s) same =
      record_copy_fails (record w { tg = s }) job.dest previous _ same

  send_copy_fails :
      (w : World E.storage) (job : Copying) (previous : Option Blob)
      (got : Result (List ℕ) × E.storage.State)
      → w.db ≡ start.db
      → FailsClean start (send_copy E cfg request bucket_name key w job previous got)
  unfolding send_copy
  send_copy_fails w job previous (err e, s) same = same_db_fails start (record w { tg = s }) _ same
  send_copy_fails w job previous (ok content, s) same =
      let label = if cfg.tg_opaque_filenames then next_id w <> ".bin" else key in
      record_sent_fails
        (record w { drawn = if cfg.tg_opaque_filenames then suc w.drawn else w.drawn }) job previous
        (if cfg.tg_opaque_filenames then some (next_id w) else none) (length content)
        (E.storage.put_file content label job.dest.row.telegram_chat_id
          job.dest.row.telegram_topic_id s)
        same

  copy_bytes_fails :
      (w : World E.storage) (job : Copying) (previous : Option Blob)
      → w.db ≡ start.db
      → FailsClean start (copy_bytes E cfg request bucket_name key w job previous)
  unfolding copy_bytes
  copy_bytes_fails w job previous same =
      elim (Bool-cases (ltb cfg.max_upload_bytes job.blob.base.size)) [
        | inl e ↦ rw e (same_db_fails start w _ same)
        | inr e ↦ rw e (
            send_copy_fails w job previous
              (load_blob_bytes E.storage E.crypto cfg job.blob none w.tg) same)
      ]

  copy_forwarded_fails :
      (job : Copying) (previous : Option Blob) (a : Attempt E.storage BlobBase)
      → a.1.db ≡ start.db
      → FailsClean start (copy_forwarded E cfg request bucket_name key job previous a)
  unfolding copy_forwarded
  copy_forwarded_fails job previous (ok none, w) same = copy_bytes_fails w job previous same
  copy_forwarded_fails job previous (ok (some blob), w) same =
      record_copy_fails w job.dest previous blob same
  copy_forwarded_fails job previous (err throttle, w) same = same_db_fails start w _ same
  copy_forwarded_fails job previous (err unavailable, w) same = same_db_fails start w _ same
  copy_forwarded_fails job previous (err object_gone, w) same = same_db_fails start w _ same
  copy_forwarded_fails job previous (err os_error, w) same = same_db_fails start w _ same
  copy_forwarded_fails job previous (err value_error, w) same = same_db_fails start w _ same
  copy_forwarded_fails job previous (err integrity_error, w) same = same_db_fails start w _ same
  copy_forwarded_fails job previous (err no_result, w) same = same_db_fails start w _ same
  copy_forwarded_fails job previous (err not_supported, w) same = same_db_fails start w _ same
  copy_forwarded_fails job previous (err sse_error, w) same = same_db_fails start w _ same
  copy_forwarded_fails job previous (err other, w) same = same_db_fails start w _ same
  copy_forwarded_fails job previous (err (http status), w) same = same_db_fails start w _ same

  copy_across_fails :
      (job : Copying) (previous : Option Blob)
      → FailsClean start (copy_across E cfg request bucket_name key start job previous)
  unfolding copy_across
  copy_across_fails job previous =
      after_fails start (copy_conditions request job.blob.base) _ λ passed.
        copy_forwarded_fails job previous _ (
          forwarding_writes_nothing E.storage start cfg job.blob.base key
            (sent_content_type request job.directive job.blob.base) job.source.row.telegram_chat_id
            job.dest.row.telegram_chat_id job.dest.row.telegram_topic_id start refl)

  copied_fails :
      (job : Copying) (previous : Option Blob)
      → FailsClean start (
          if job.src_bucket == bucket_name
          then copy_within E cfg request bucket_name key start job previous
          else copy_across E cfg request bucket_name key start job previous)
  unfolding copy_within
  copied_fails job previous = elim (Bool-cases (job.src_bucket == bucket_name)) [
    | inl e ↦ rw e (record_copy_fails start job.dest previous _ refl)
    | inr e ↦ rw e (copy_across_fails job previous)
  ]

  -- A copy whose answer, with an exception counted as a 500, is not 200 leaves the database as it
  -- was, whether it would have shared the file of its source, forwarded it or sent it again.
  pub copy_object_fails :
      (serve start (copy_object E cfg request bucket_name key start)).0.status ≢ 200
      → (serve start (copy_object E cfg request bucket_name key start)).1.db ≡ start.db
  unfolding copy_object
  copy_object_fails =
      after_fails start (admit_copy E start request bucket_name key) _
        λ job. copied_fails job (head? (crud_get_all_blobs start.db (at_key bucket_name key)))
