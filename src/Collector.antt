-- ===== src/Collector.antt =====
-- app/ops/gc.py: one run of the collector, behind the test that there is a database.
pub mod Steps
pub mod Purges
pub mod Cleaned
use telezon_s.Prelude.{
  ℕ, ◌+◌, ◌-◌, Bool, true, false, ◌||◌, not, Option, none, some, List, [], ◌∷◌, String, nat_beq,
  if◌then◌else◌, any, codes, lower, map, starts_with, or_none, take,
}
use telezon_s.Outcome.{Result, ok, err, Error, throttle, unavailable, object_gone}
use telezon_s.Model.{Config, Db, BlobRow, BlobPart, TrashItem, MultipartPartRow, MultipartUploadRow}
use telezon_s.Model.Lookup.{crud_get_bucket_by_name}
use telezon_s.Tables.Blobs.{crud_delete_blob}
use telezon_s.Tables.Uploads.{
  crud_list_parts, crud_delete_multipart_upload, crud_list_stale_multipart_uploads,
}
use telezon_s.Tables.Shares.{crud_delete_expired_shares}
use telezon_s.Tables.Trash.{crud_delete_trash, crud_list_expired_trash}
use telezon_s.Telegram.{Storage}
use telezon_s.Telegram.World.{World}
use telezon_s.Telegram.Deletes.{retry_pending_tg_deletes}
use telezon_s.Lifecycle.{purge_trash_item}
use telezon_s.BlobIo.{resolve_telegram_chat_id}
use telezon_s.Http.Text.{is_blank}
use telezon_s.Multipart.{remove_upload_staging}

unfoldable pub begins_with : List ℕ → List ℕ → Bool
begins_with [] text = true
begins_with (c ∷ cs) [] = false
begins_with (c ∷ cs) (d ∷ ds) = let rest = begins_with cs ds in if nat_beq c d then rest else false

-- `marker in text`
unfoldable pub mentions : List ℕ → List ℕ → Bool
unfolding begins_with
mentions marker [] = begins_with marker []
mentions marker (c ∷ cs) = begins_with marker (c ∷ cs) || mentions marker cs

abbrev pub gone_markers : List String
gone_markers =
    "file_id_invalid" ∷ "file reference" ∷ "media_empty" ∷ "wrong file id" ∷ "wrong file_id"
    ∷ "file not found" ∷ "no such file" ∷ "message not found" ∷ "msg_id_invalid"
    ∷ "message_id_invalid" ∷ []

-- `str(exc).lower()`: what an exception says is not part of the model's errors, and a parameter
module _ (message : Error → String) where
  abbrev error_text : Error → List ℕ
  error_text e = map lower (codes (message e))

  unfoldable pub is_transient_probe_error : Error → Bool
  unfolding mentions lower
  is_transient_probe_error throttle = true
  is_transient_probe_error unavailable = true
  is_transient_probe_error e =
      mentions (codes "file_reference_expired") (error_text e)
      || mentions (codes "file reference") (error_text e)

  unfoldable pub is_confirmed_object_gone : Error → Bool
  unfolding mentions lower
  is_confirmed_object_gone object_gone = true
  is_confirmed_object_gone e = any (λ marker. mentions (codes marker) (error_text e)) gone_markers

  -- an object whose probe ended in this exception is removed
  abbrev pub is_dead : Error → Bool
  is_dead e = if is_transient_probe_error e then false else is_confirmed_object_gone e

-- the bucket's chat as the table has it
unfoldable pub bucket_chat : Db → String → Option String
unfolding crud_get_bucket_by_name
bucket_chat db name = or_none (crud_get_bucket_by_name db name) λ b. b.row.telegram_chat_id

-- A count of what was done, and the state.
abbrev pub Counted : Storage → Type 0
Counted S = ℕ × World S

abbrev pub also : {S : Storage} → Counted S → (World S → Counted S) → Counted S
also (n, w) go_on = let (m, w') = go_on w in (n + m, w')

-- What a run reports.
pub record Collected : Type 0 where
  pub multipart_aborted : ℕ
  pub shares_deleted : ℕ
  pub pending_tg_cleared : ℕ
  pub dead_blobs_removed : ℕ
  pub trash_purged : ℕ

module _ (S : Storage) where
  -- what probing an object asks of the storage; `none` is an object that is passed over
  unfoldable pub probe : World S → BlobRow → Option String → Option (Result (List ℕ) × S.State)
  probe w blob chat = elim blob.base.parts [
    | [] ↦
        if is_blank blob.base.file || starts_with blob.base.file "multipart:"
        then none
        else some (S.get_file blob.base.file chat blob.base.message_id w.tg)
    | first ∷ rest ↦
        if is_blank first.file_id
        then none
        else some (S.get_file first.file_id chat first.message_id w.tg)
  ]

  -- the exceptions of the deletions are logged
  unfoldable pub delete_stale_messages : World S → List MultipartPartRow → Option String → World S
  delete_stale_messages w [] chat = w
  delete_stale_messages w (p ∷ ps) chat = elim p.message_id [
    | none ↦ delete_stale_messages w ps chat
    | some mid ↦
        delete_stale_messages (record w { tg = (S.delete_message mid chat w.tg).1 }) ps chat
  ]

  module _ (cfg : Config) where
    unfoldable pub abort_stale : World S → MultipartUploadRow → Counted S
    unfolding bucket_chat delete_stale_messages remove_upload_staging
    abort_stale w upload =
        if is_blank upload.upload_id
        then (0, w)
        else let chat = if is_blank upload.bucket then none else bucket_chat w.db upload.bucket in
          let w' = delete_stale_messages w (crud_list_parts w.db upload.upload_id) chat in
          (
            1,
            record w' {
              staged = remove_upload_staging cfg upload.upload_id w'.staged;
              db = crud_delete_multipart_upload w'.db upload.upload_id;
            },
          )

    unfoldable pub abort_all_stale : World S → List MultipartUploadRow → Counted S
    unfolding abort_stale
    abort_all_stale w [] = (0, w)
    abort_all_stale w (upload ∷ uploads) =
        also (abort_stale w upload) λ w'. abort_all_stale w' uploads

    unfoldable pub purge_expired : World S → List TrashItem → Counted S
    unfolding bucket_chat crud_delete_trash
    purge_expired w [] = (0, w)
    purge_expired w (item ∷ items) =
        let chat = bucket_chat w.db item.bucket_name in
        let (removed, db) = crud_delete_trash w.db item.trash_id in
        elim removed [
          | none ↦ purge_expired (record w { db = db }) items
          | some gone ↦
              also (1, purge_trash_item S (record w { db = db }) gone chat)
                λ w'. purge_expired w' items
        ]

    -- the time is that of the clock, which stands still during a run
    unfoldable pub purge_expired_trash : ℕ → World S → Counted S
    unfolding purge_expired
    purge_expired_trash now w =
        if cfg.enable_trash then purge_expired w (crud_list_expired_trash now w.db 100) else (0, w)

    -- The random sample of rows is an argument. Deletions bypass Telegram and the trash.
    module _ (message : Error → String) where
      unfoldable pub after_probe :
          World S → BlobRow → Option (Result (List ℕ) × S.State) → Counted S
      unfolding is_transient_probe_error is_confirmed_object_gone crud_delete_blob
      after_probe w blob none = (0, w)
      after_probe w blob (some (ok content, s)) = (0, record w { tg = s })
      after_probe w blob (some (err e, s)) =
          if is_dead message e
          then (
            1,
            record w { tg = s; db = (crud_delete_blob w.db blob.bucket_name blob.base.path).1 },
          )
          else (0, record w { tg = s })

      unfoldable pub sample_blob : World S → BlobRow → Counted S
      unfolding after_probe probe bucket_chat
      sample_blob w blob =
          if is_blank blob.bucket_name || is_blank blob.base.path
          then (0, w)
          else after_probe w blob
              (probe w blob (resolve_telegram_chat_id cfg (bucket_chat w.db blob.bucket_name)))

      unfoldable pub sample_dead_blobs : World S → List BlobRow → Counted S
      unfolding sample_blob
      sample_dead_blobs w [] = (0, w)
      sample_dead_blobs w (blob ∷ blobs) =
          also (sample_blob w blob) λ w'. sample_dead_blobs w' blobs

      unfoldable pub run_gc_once : World S → List BlobRow → Collected × World S
      unfolding abort_all_stale sample_dead_blobs purge_expired_trash
      run_gc_once w samples =
          let cutoff = w.now - cfg.gc_multipart_max_age_seconds in
          let (aborted, w1) =
            abort_all_stale w (crud_list_stale_multipart_uploads w.db cutoff 100) in
          let (shares, db) = crud_delete_expired_shares w1.db w.now in
          let (cleared, w2) = retry_pending_tg_deletes S (record w1 { db = db }) 50 in
          let (dead, w3) = sample_dead_blobs w2 (take cfg.gc_orphan_sample_size samples) in
          let (purged, w4) = purge_expired_trash w.now w3 in
          (
            record {
              multipart_aborted = aborted;
              shares_deleted = shares;
              pending_tg_cleared = cleared;
              dead_blobs_removed = dead;
              trash_purged = purged;
            },
            w4,
          )
