-- ===== src/Multipart/Aborted.antt =====
-- An upload that was aborted.
use telezon_s.Prelude.{
  ℕ, ◌≡◌, refl, ap, ◌∙◌, true, ◌&&◌, not, Option, none, List, [], ◌∷◌, String, arith, eq_iff, ◌==◌,
  string_eq, nat_eq, if◌then◌else◌, find, select, Bool-cases, inl, inr,
}
use telezon_s.Outcome.{ok}
use telezon_s.Model.{Config, Db, Bucket, MultipartPartRow, MultipartUploadRow}
use telezon_s.Telegram.World.{World}
use telezon_s.Telegram.Deletes.{safe_delete_tg_message}
use telezon_s.Tables.Uploads.{
  crud_get_part, is_part, crud_get_multipart_upload, crud_delete_multipart_upload, crud_list_parts,
}
use telezon_s.Http.{Request, next, plain}
use telezon_s.Service.{Service}
use telezon_s.Multipart.{
  StagedFiles, aborted, delete_part_messages, remove_upload_staging, not_of_upload, owned_upload,
  abort_multipart_upload,
}
use telezon_s.Multipart.Staging.{staged_part}
use telezon_s.Telegram.Deletes.Queue.{SameButPending, safe_delete_pending, SameButPending-trans}
use telezon_s.Multipart.Recorded.{safe_delete_staged}

find-dropped_upload :
    (upload_id v : String) (uploads : List MultipartUploadRow)
    → find (λ u. u.upload_id == v) (select (λ u. not (u.upload_id == upload_id)) uploads)
      ≡ (if upload_id == v then none else find (λ u. u.upload_id == v) uploads)
find-dropped_upload upload_id v [] = ground arith
find-dropped_upload upload_id v (u ∷ us) = ground (
  arith,
  eq_iff upload_id v,
  eq_iff u.upload_id v,
  eq_iff u.upload_id upload_id,
  find-dropped_upload upload_id v us,
)

find-dropped_part :
    (upload_id v : String) (n : ℕ) (parts : List MultipartPartRow)
    → find (is_part v n) (select (λ p. not (p.upload_id == upload_id)) parts)
      ≡ (if upload_id == v then none else find (is_part v n) parts)
find-dropped_part upload_id v n [] = ground arith
find-dropped_part upload_id v n (p ∷ ps) = ground (
  arith,
  eq_iff upload_id v,
  eq_iff p.upload_id v,
  eq_iff p.upload_id upload_id,
  find-dropped_part upload_id v n ps,
)

staged_part-dropped :
    (upload_id v : String) (n : ℕ) (files : StagedFiles)
    → staged_part v n (select (not_of_upload upload_id) files)
      ≡ (if upload_id == v then none else staged_part v n files)
unfolding staged_part
staged_part-dropped upload_id v n [] = ground arith
staged_part-dropped upload_id v n ((u, m, content) ∷ files) = ground (
  arith,
  eq_iff upload_id v,
  eq_iff u v,
  eq_iff u upload_id,
  staged_part-dropped upload_id v n files,
)

-- what is found of an upload and of its parts when the upload `upload_id` is gone
pub record Dropped (cfg : Config) (upload_id : String) (db db' : Db) (files files' : StagedFiles)
    : Type 0 where
  pub uploads :
      (v : String)
      → crud_get_multipart_upload db' v
        ≡ (if upload_id == v then none else crud_get_multipart_upload db v)
  pub parts :
      (v : String) (n : ℕ)
      → crud_get_part db' v n ≡ (if upload_id == v then none else crud_get_part db v n)
  pub staged :
      (v : String) (n : ℕ)
      → staged_part v n files'
        ≡ (if cfg.mpu_staging && upload_id == v then none else staged_part v n files)
  pub blobs : db'.blobs ≡ db.blobs

pub dropped_uploads :
    (db : Db) (upload_id v : String)
    → crud_get_multipart_upload (crud_delete_multipart_upload db upload_id) v
      ≡ (if upload_id == v then none else crud_get_multipart_upload db v)
unfolding crud_get_multipart_upload crud_delete_multipart_upload
dropped_uploads db upload_id v = find-dropped_upload upload_id v db.uploads

pub dropped_parts :
    (db : Db) (upload_id v : String) (n : ℕ)
    → crud_get_part (crud_delete_multipart_upload db upload_id) v n
      ≡ (if upload_id == v then none else crud_get_part db v n)
unfolding crud_get_part crud_delete_multipart_upload
dropped_parts db upload_id v n = find-dropped_part upload_id v n db.parts

dropped_blobs :
    (db : Db) (upload_id : String) → (crud_delete_multipart_upload db upload_id).blobs ≡ db.blobs
unfolding crud_delete_multipart_upload
dropped_blobs db upload_id = refl

dropped_files :
    (cfg : Config) (upload_id v : String) (n : ℕ) (files : StagedFiles)
    → staged_part v n (remove_upload_staging cfg upload_id files)
      ≡ (if cfg.mpu_staging && upload_id == v then none else staged_part v n files)
unfolding remove_upload_staging
dropped_files cfg upload_id v n files = elim (Bool-cases cfg.mpu_staging) [
  | inl e ↦ simp (e) (staged_part-dropped upload_id v n files)
  | inr e ↦ simp (e) refl
]

seen_upload :
    (db db' : Db) (v : String)
    → SameButPending db db'
    → crud_get_multipart_upload db' v ≡ crud_get_multipart_upload db v
unfolding crud_get_multipart_upload
seen_upload db db' v same = ap (λ (d : Db). find (λ u. u.upload_id == v) d.uploads) same

seen_part :
    (db db' : Db) (v : String) (n : ℕ)
    → SameButPending db db'
    → crud_get_part db' v n ≡ crud_get_part db v n
unfolding crud_get_part
seen_part db db' v n same = ap (λ (d : Db). find (is_part v n) d.parts) same

module _ (E : Service) (cfg : Config) where
  delete_part_messages_pending :
      (chat : Option String) (reason : String) (ps : List MultipartPartRow) (w : World E.storage)
      → SameButPending w.db (delete_part_messages E cfg chat reason ps w).db
        × ((delete_part_messages E cfg chat reason ps w).staged ≡ w.staged)
  unfolding delete_part_messages
  delete_part_messages_pending chat reason [] w = (refl, refl)
  delete_part_messages_pending chat reason (p ∷ ps) w =
      let w' = (safe_delete_tg_message E.storage w true p.message_id chat reason).1 in
      let (same, files) = delete_part_messages_pending chat reason ps w' in
      (
        SameButPending-trans w.db w'.db (delete_part_messages E cfg chat reason ps w').db
            (safe_delete_pending E.storage w p.message_id chat reason) same,
        files ∙ safe_delete_staged E cfg w p.message_id chat reason,
      )

  aborted-Dropped :
      (w : World E.storage) (chat : Option String) (upload_id : String)
      → Dropped cfg upload_id w.db
          (aborted E cfg w chat upload_id).db
          w.staged
          (aborted E cfg w chat upload_id).staged
  unfolding aborted
  aborted-Dropped w chat upload_id =
      let parts = crud_list_parts w.db upload_id in
      let w' = delete_part_messages E cfg chat "multipart_abort" parts w in
      let (same, files) = delete_part_messages_pending chat "multipart_abort" parts w in
      record {
        uploads = λ v.
            dropped_uploads w'.db upload_id v
            ∙ ap (λ o. if upload_id == v then none else o) (seen_upload w.db w'.db v same);
        parts = λ v n.
            dropped_parts w'.db upload_id v n
            ∙ ap (λ o. if upload_id == v then none else o) (seen_part w.db w'.db v n same);
        staged = λ v n.
            dropped_files cfg upload_id v n w'.staged
            ∙ ap (λ f. if cfg.mpu_staging && upload_id == v then none else staged_part v n f) files;
        blobs = dropped_blobs w'.db upload_id ∙ ap (λ (d : Db). d.blobs) same;
      }

  -- Aborting an upload that passes its guards is answered 204. Then neither the upload nor a part
  -- of it is found, nor a staged file where parts are staged; other uploads, their parts and their
  -- files are found as they were, and the objects stay.
  pub abort_multipart_upload_lem :
      (request : Request) (bucket_name key upload_id : String) (w : World E.storage)
      (bucket : Bucket)
      → owned_upload E cfg w request bucket_name key upload_id ≡ next bucket
      → ((abort_multipart_upload E cfg request bucket_name key upload_id w).0 ≡ ok (plain 204 []))
        × Dropped cfg upload_id w.db
            (abort_multipart_upload E cfg request bucket_name key upload_id w).1.db
            w.staged
            (abort_multipart_upload E cfg request bucket_name key upload_id w).1.staged
  unfolding abort_multipart_upload
  abort_multipart_upload_lem request bucket_name key upload_id w bucket passed =
      rw (passed) (refl, aborted-Dropped w bucket.row.telegram_chat_id upload_id)
