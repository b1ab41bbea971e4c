-- ===== src/Collector/Steps.antt =====
-- What each step of a run does to the database.
use telezon_s.Prelude.{
  ℕ, ◌≡◌, refl, ap, ◌∙◌, Bool, true, false, ◌||◌, Option, none, List, [], ◌∷◌, String, ◌==◌,
  string_eq, nat_eq, if◌then◌else◌, find, any, ltb, Bool-cases, Option-cases, inl, inr,
}
use telezon_s.Model.{
  Config, Db, TrashItem, MultipartUploadRow, MultipartPartRow, PendingTgDeleteRow,
}
use telezon_s.Tables.Refs.{count_message_id_refs}
use telezon_s.Tables.Uploads.{
  crud_get_multipart_upload, crud_get_part, crud_delete_multipart_upload, crud_list_parts,
}
use telezon_s.Tables.Trash.{has_id}
use telezon_s.Telegram.{Storage}
use telezon_s.Telegram.World.{World}
use telezon_s.Telegram.Deletes.{granted, retry_row, retry_rows}
use telezon_s.Telegram.Deletes.Queue.{SameButPending, SameButPending-trans}
use telezon_s.Http.Text.{is_blank}
use telezon_s.Multipart.Aborted.{dropped_uploads, dropped_parts}
use telezon_s.Collector.{delete_stale_messages, abort_stale, abort_all_stale, bucket_chat}

-- no upload has a blank id
abbrev pub AllNamed : List MultipartUploadRow → Type 0
AllNamed [] = Unit
AllNamed (u ∷ us) = (is_blank u.upload_id ≡ false) × AllNamed us

-- each item of the trash has its own id
abbrev pub UniqueIds : List TrashItem → Type 0
UniqueIds [] = Unit
UniqueIds (item ∷ items) = (find (has_id item.trash_id) items ≡ none) × UniqueIds items

abbrev pub SameButUploads : Db → Db → Type 0
SameButUploads db db' = db' ≡ record db { uploads = db'.uploads; parts = db'.parts }

abbrev pub SameButBlobs : Db → Db → Type 0
SameButBlobs db db' = db' ≡ record db { blobs = db'.blobs }

abbrev pub SameButTrash : Db → Db → Type 0
SameButTrash db db' = db' ≡ record db { trash = db'.trash; pending = db'.pending }

-- the uploads `us` and their parts are gone, and nothing else is
pub record Without (us : List MultipartUploadRow) (db db' : Db) : Type 0 where
  pub uploads :
      (v : String)
      → crud_get_multipart_upload db' v
        ≡ (if any (λ u. u.upload_id == v) us then none else crud_get_multipart_upload db v)
  pub parts :
      (v : String) (n : ℕ)
      → crud_get_part db' v n
        ≡ (if any (λ u. u.upload_id == v) us then none else crud_get_part db v n)
  pub same : SameButUploads db db'

pub if_step {ℓ} :
    {A : Type ℓ} (a b : Bool) (x y : A)
    → (if b then x else if a then x else y) ≡ (if a || b then x else y)
if_step true true x y = refl
if_step true false x y = refl
if_step false true x y = refl
if_step false false x y = refl

module _ (S : Storage) where
  delete_stale_messages_db :
      (w : World S) (ps : List MultipartPartRow) (chat : Option String)
      → (delete_stale_messages S w ps chat).db ≡ w.db
  unfolding delete_stale_messages
  delete_stale_messages_db w [] chat = refl
  delete_stale_messages_db w (p ∷ ps) chat = elim (Option-cases p.message_id) [
    | inl e ↦ rw (e, delete_stale_messages) (delete_stale_messages_db w ps chat)
    | inr (mid, e) ↦
        rw (e, delete_stale_messages)
          (delete_stale_messages_db (record w { tg = (S.delete_message mid chat w.tg).1 }) ps chat)
  ]

  module _ (cfg : Config) where
    abort_stale_db :
        (w : World S) (u : MultipartUploadRow)
        → is_blank u.upload_id ≡ false
        → (abort_stale S cfg w u).1.db ≡ crud_delete_multipart_upload w.db u.upload_id
    unfolding abort_stale
    abort_stale_db w u named = rw named (
        ap (λ db. crud_delete_multipart_upload db u.upload_id)
          (delete_stale_messages_db w (crud_list_parts w.db u.upload_id)
            (if is_blank u.bucket then none else bucket_chat w.db u.bucket)))

    delete_same : (db : Db) (v : String) → SameButUploads db (crud_delete_multipart_upload db v)
    unfolding crud_delete_multipart_upload
    delete_same db v = refl

    pub abort_all-Without :
        (us : List MultipartUploadRow) (w : World S)
        → AllNamed us
        → Without us w.db (abort_all_stale S cfg w us).1.db
    unfolding abort_all_stale crud_delete_multipart_upload
    abort_all-Without [] w named = record { uploads = λ v. refl; parts = λ v n. refl; same = refl }
    abort_all-Without (u ∷ us) w (name, named) =
        let w' = (abort_stale S cfg w u).1 in
        let db'' = (abort_all_stale S cfg w' us).1.db in
        let later = abort_all-Without us w' named in
        let step = abort_stale_db w u name in
        record {
          uploads = λ v.
              later.uploads v
              ∙ ap (λ o. if any (λ s. s.upload_id == v) us then none else o)
                  (ap (λ db. crud_get_multipart_upload db v) step
                    ∙ dropped_uploads w.db u.upload_id v)
              ∙ if_step (u.upload_id == v) (any (λ s. s.upload_id == v) us) none
                  (crud_get_multipart_upload w.db v);
          parts = λ v n.
              later.parts v n
              ∙ ap (λ o. if any (λ s. s.upload_id == v) us then none else o)
                  (ap (λ db. crud_get_part db v n) step ∙ dropped_parts w.db u.upload_id v n)
              ∙ if_step (u.upload_id == v) (any (λ s. s.upload_id == v) us) none
                  (crud_get_part w.db v n);
          same =
              later.same
              ∙ ap (λ (d : Db). record d { uploads = db''.uploads; parts = db''.parts }) step;
        }

  retry_row_pending :
      (w : World S) (row : PendingTgDeleteRow) → SameButPending w.db (retry_row S w row).1.db
  unfolding retry_row
  retry_row_pending w row = elim (Bool-cases (ltb 0 (count_message_id_refs w.db row.message_id))) [
    | inl e ↦ rw e refl
    | inr e ↦ elim (Bool-cases (granted S (S.delete_message row.message_id row.chat_id w.tg).0)) [
      | inl g ↦ rw (e, g) refl
      | inr g ↦ rw (e, g) refl
    ]
  ]

  pub retry_rows_pending :
      (w : World S) (rows : List PendingTgDeleteRow)
      → SameButPending w.db (retry_rows S w rows).1.db
  unfolding retry_rows
  retry_rows_pending w [] = refl
  retry_rows_pending w (row ∷ rows) =
      let w' = (retry_row S w row).1 in
      SameButPending-trans w.db w'.db (retry_rows S w' rows).1.db (retry_row_pending w row)
        (retry_rows_pending w' rows)
