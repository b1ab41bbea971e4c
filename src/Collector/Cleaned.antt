-- ===== src/Collector/Cleaned.antt =====
-- What a run of the collector leaves.
use telezon_s.Prelude.{
  nat_eq, ℕ, ◌-◌, ◌≡◌, refl, ap, ◌∙◌, Bool, false, ◌&&◌, not, none, List, [], ◌∷◌, String, ◌==◌,
  string_eq, if◌then◌else◌, arith, any, select, take, ltb, zero, suc, find, Bool-cases, inl, inr,
}
use telezon_s.Outcome.{Error}
use telezon_s.Model.{Config, Db, BlobRow, TrashItem, MultipartUploadRow}
use telezon_s.Tables.Blobs.{is_at, crud_get_blob_in_bucket}
use telezon_s.Tables.Uploads.{
  crud_get_multipart_upload, crud_get_part, crud_list_stale_multipart_uploads, is_part,
}
use telezon_s.Tables.Shares.{crud_delete_expired_shares}
use telezon_s.Tables.Trash.{crud_get_trash, crud_list_expired_trash}
use telezon_s.Telegram.{Storage}
use telezon_s.Telegram.World.{World}
use telezon_s.Telegram.Deletes.{retry_pending_tg_deletes}
use telezon_s.Collector.{abort_all_stale, sample_dead_blobs, purge_expired_trash, run_gc_once}
use telezon_s.Collector.Steps.{AllNamed, UniqueIds, abort_all-Without, retry_rows_pending}
use telezon_s.Collector.Purges.{Purged, purge_expired-Purged, sample_dead_blobs-Spared}

AllNamed-select :
    (p : MultipartUploadRow → Bool) (us : List MultipartUploadRow)
    → AllNamed us
    → AllNamed (select p us)
AllNamed-select p [] named = tt
AllNamed-select p (u ∷ us) named = ground (arith, AllNamed-select p us)

AllNamed-take : (n : ℕ) (us : List MultipartUploadRow) → AllNamed us → AllNamed (take n us)
AllNamed-take zero us named = tt
AllNamed-take (suc n) [] named = tt
AllNamed-take (suc n) (u ∷ us) (name, named) = (name, AllNamed-take n us named)

stale_named :
    (cutoff : ℕ) (db : Db)
    → AllNamed db.uploads
    → AllNamed (crud_list_stale_multipart_uploads db cutoff 100)
unfolding crud_list_stale_multipart_uploads
stale_named cutoff db named =
    AllNamed-take 100 (select (λ u. ltb u.initiated_at cutoff) db.uploads)
      (AllNamed-select (λ u. ltb u.initiated_at cutoff) db.uploads named)

-- the first hundred uploads that were begun longer ago than the limit
abbrev pub first_stale : Config → ℕ → Db → List MultipartUploadRow
first_stale cfg now db =
    take 100 (select (λ u. ltb u.initiated_at (now - cfg.gc_multipart_max_age_seconds)) db.uploads)

-- the first hundred items of the trash whose time has passed
abbrev pub first_expired : ℕ → Db → List TrashItem
first_expired now db = take 100 (select (λ t. ltb t.expires_at now) db.trash)

-- What is found after a run at the time `now`: of the database `db`, the stale uploads with their
-- parts, the links that have expired and the expired trash are gone, and of the objects none but
-- one that was probed.
pub record Cleaned (cfg : Config) (now : ℕ) (probed : List BlobRow) (db db' : Db) : Type 0 where
  pub uploads :
      (v : String)
      → find (λ u. u.upload_id == v) db'.uploads ≡ (
          if any (λ u. u.upload_id == v) (first_stale cfg now db)
          then none
          else find (λ u. u.upload_id == v) db.uploads)
  pub parts :
      (v : String) (n : ℕ)
      → find (λ p. p.upload_id == v && p.part_number == n) db'.parts ≡ (
          if any (λ u. u.upload_id == v) (first_stale cfg now db)
          then none
          else find (λ p. p.upload_id == v && p.part_number == n) db.parts)
  pub shares : db'.shares ≡ select (λ s. not (ltb s.expires_at now)) db.shares
  pub trash :
      (v : String)
      → find (λ t. t.trash_id == v) db'.trash ≡ (
          if cfg.enable_trash && any (λ t. t.trash_id == v) (first_expired now db)
          then none
          else find (λ t. t.trash_id == v) db.trash)
  pub objects :
      (b k : String)
      → any (λ r. r.bucket_name == b && r.base.path == k) probed ≡ false
      → find (λ r. r.bucket_name == b && r.base.path == k) db'.blobs
        ≡ find (λ r. r.bucket_name == b && r.base.path == k) db.blobs

module _ (S : Storage) (cfg : Config) where
  purge_expired_trash-Purged :
      (now : ℕ) (w : World S)
      → UniqueIds w.db.trash
      → Purged
          (if cfg.enable_trash then crud_list_expired_trash now w.db 100 else [])
          w.db
          (purge_expired_trash S cfg now w).1.db
  unfolding purge_expired_trash
  purge_expired_trash-Purged now w unique = elim (Bool-cases cfg.enable_trash) [
    | inl e ↦ rw e (purge_expired-Purged S cfg (crud_list_expired_trash now w.db 100) w unique)
    | inr e ↦ rw e (record { trash = λ v. refl; same = refl })
  ]

  -- what the purge finds, told of a database with the same trash
  expired_in :
      (now : ℕ) (v : String) (db db3 : Db)
      → db3.trash ≡ db.trash
      → (if any
            (λ t. t.trash_id == v)
            (if cfg.enable_trash then crud_list_expired_trash now db3 100 else [])
          then none
          else crud_get_trash db3 v)
        ≡ (if cfg.enable_trash && any (λ t. t.trash_id == v) (first_expired now db)
            then none
            else crud_get_trash db v)
  unfolding crud_list_expired_trash crud_get_trash
  expired_in now v db db3 same =
      rw same (elim (Bool-cases cfg.enable_trash) [ inl e ↦ rw e refl | inr e ↦ rw e refl ])

  -- If no upload has a blank id and each item of the trash has its own: after a run, of the first
  -- hundred uploads that are older than the limit neither the upload nor a part is found, all others
  -- are found as they were; the links are those that have not expired; with the trash on, the first
  -- hundred items that have expired are gone from it, all others are as they were; and each object
  -- that is not in the sample is as it was.
  pub run_gc_once-Cleaned :
      (message : Error → String) (w : World S) (samples : List BlobRow)
      → AllNamed w.db.uploads
      → UniqueIds w.db.trash
      → Cleaned cfg w.now
          (take cfg.gc_orphan_sample_size samples)
          w.db
          (run_gc_once S cfg message w samples).1.db
  unfolding run_gc_once crud_get_multipart_upload crud_get_part crud_get_trash
      crud_get_blob_in_bucket retry_pending_tg_deletes crud_delete_expired_shares
      crud_list_stale_multipart_uploads
  run_gc_once-Cleaned message w samples named unique =
      let stale =
        crud_list_stale_multipart_uploads w.db (w.now - cfg.gc_multipart_max_age_seconds) 100 in
      let probed = take cfg.gc_orphan_sample_size samples in
      let w1 = (abort_all_stale S cfg w stale).1 in
      let linked = record w1 { db = (crud_delete_expired_shares w1.db w.now).1 } in
      let w2 = (retry_pending_tg_deletes S linked 50).1 in
      let w3 = (sample_dead_blobs S cfg message w2 probed).1 in
      let aborted =
        abort_all-Without S cfg stale w
          (stale_named (w.now - cfg.gc_multipart_max_age_seconds) w.db named) in
      let queue = retry_rows_pending S linked (take 50 linked.db.pending) in
      let spared = sample_dead_blobs-Spared S cfg message probed w2 in
      let trash3 : w3.db.trash ≡ w.db.trash =
        ap (λ (d : Db). d.trash) spared.same
        ∙ ap (λ (d : Db). d.trash) queue
        ∙ ap (λ (d : Db). d.trash) aborted.same in
      let purged = purge_expired_trash-Purged w.now w3 (rw trash3 unique) in
      let uploads =
        ap (λ (d : Db). d.uploads) purged.same
        ∙ ap (λ (d : Db). d.uploads) spared.same
        ∙ ap (λ (d : Db). d.uploads) queue in
      let parts =
        ap (λ (d : Db). d.parts) purged.same
        ∙ ap (λ (d : Db). d.parts) spared.same
        ∙ ap (λ (d : Db). d.parts) queue in
      record {
        uploads = λ v. ap (find (λ u. u.upload_id == v)) uploads ∙ aborted.uploads v;
        parts = λ v n. ap (find (is_part v n)) parts ∙ aborted.parts v n;
        shares =
            ap (λ (d : Db). d.shares) purged.same
            ∙ ap (λ (d : Db). d.shares) spared.same
            ∙ ap (λ (d : Db). d.shares) queue
            ∙ ap (λ (d : Db). select (λ s. not (ltb s.expires_at w.now)) d.shares) aborted.same;
        trash = λ v. purged.trash v ∙ expired_in w.now v w.db w3.db trash3;
        objects = λ b k out.
            ap (λ (d : Db). find (is_at b k) d.blobs) purged.same
            ∙ spared.objects b k out
            ∙ ap (λ (d : Db). find (is_at b k) d.blobs) queue
            ∙ ap (λ (d : Db). find (is_at b k) d.blobs) aborted.same;
      }
