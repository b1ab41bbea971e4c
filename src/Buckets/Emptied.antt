-- ===== src/Buckets/Emptied.antt =====
-- A bucket that was deleted.
use telezon_s.Prelude.{
  ◌≡◌, refl, ap, ◌∙◌, true, false, not, Option, none, some, List, [], ◌∷◌, String, ◌==◌, string_eq,
  arith, eq_iff, select, find, any, is_some, if◌then◌else◌, Bool-cases, Option-cases, inl, inr,
}
use telezon_s.Outcome.{ok}
use telezon_s.Model.{Config, Db, Bucket, BucketRow, BlobRow, TrashItem}
use telezon_s.Model.Lookup.{crud_get_bucket_by_name, crud_get_user_by_username}
use telezon_s.Tables.Buckets.{crud_delete_bucket, crud_bucket_has_objects, is_named}
use telezon_s.Tables.Trash.{crud_delete_trash_for_bucket}
use telezon_s.Telegram.World.{World}
use telezon_s.Telegram.Deletes.Queue.{SameButPending, SameButPending-trans}
use telezon_s.Lifecycle.{purge_trash_item}
use telezon_s.Lifecycle.Frees.{purge_tg_for_blob_pending}
use telezon_s.Http.{
  Request, next, plain, bind-next, some_or-next, s3_error_response, return_if, return_if-next,
}
use telezon_s.Http.Subresources.{reject_unsupported_subresource}
use telezon_s.Service.{Service}
use telezon_s.Objects.{load_bucket_or_404}
use telezon_s.Objects.Put.{authorized_bucket}
use telezon_s.Buckets.{deletable_bucket, delete_bucket, purge_bucket, purge_trash_items}

find-dropped_bucket :
    (name v : String) (buckets : List BucketRow)
    → find (is_named v) (select (λ b. not (b.name == name)) buckets)
      ≡ (if name == v then none else find (is_named v) buckets)
find-dropped_bucket name v [] = ground arith
find-dropped_bucket name v (b ∷ bs) =
    ground
      (arith, eq_iff name v, eq_iff b.name v, eq_iff b.name name, find-dropped_bucket name v bs)

no_object :
    (name : String) (rows : List BlobRow)
    → is_some (find (λ (row : BlobRow). row.bucket_name == name) rows) ≡ false
    → any (λ row. row.bucket_name == name) rows ≡ false
no_object name [] h = refl
no_object name (row ∷ rows) h = ground (arith, no_object name rows)

-- the database without the row of a bucket
abbrev pub without_bucket : Db → String → Db
without_bucket db name = record db {
  buckets = select (λ (b : BucketRow). not (b.name == name)) db.buckets;
}

crud_delete_bucket_lem :
    (db : Db) (name : String) (row : BucketRow)
    → find (is_named name) db.buckets ≡ some row
    → crud_bucket_has_objects db name ≡ false
    → crud_delete_bucket db name ≡ ok (true, without_bucket db name)
unfolding crud_delete_bucket crud_bucket_has_objects
crud_delete_bucket_lem db name row found bare =
    rw (crud_delete_bucket, found, no_object name db.blobs bare) refl

bucket_row :
    (db : Db) (name : String) (bucket : Bucket)
    → crud_get_bucket_by_name db name ≡ some bucket
    → (row : BucketRow) × (find (is_named name) db.buckets ≡ some row)
unfolding crud_get_bucket_by_name
bucket_row db name bucket h = elim (Option-cases (find (is_named name) db.buckets)) [
  | inl e ↦ absurd (ground arith)
  | inr (row, e) ↦ (row, e)
]

get_without_bucket :
    (db : Db) (name v : String)
    → crud_get_bucket_by_name (without_bucket db name) v
      ≡ (if name == v then none else crud_get_bucket_by_name db v)
unfolding crud_get_bucket_by_name crud_get_user_by_username
get_without_bucket db name v =
    rw (find-dropped_bucket name v db.buckets)
      (elim (Bool-cases (name == v)) [ inl e ↦ rw e refl | inr e ↦ rw e refl ])

get_without_trash :
    (db : Db) (name v : String)
    → crud_get_bucket_by_name (crud_delete_trash_for_bucket (without_bucket db name) name).1 v
      ≡ crud_get_bucket_by_name (without_bucket db name) v
unfolding crud_get_bucket_by_name crud_get_user_by_username crud_delete_trash_for_bucket
get_without_trash db name v = refl

get_bucket_pending :
    (db db' : Db) (v : String)
    → SameButPending db db'
    → crud_get_bucket_by_name db' v ≡ crud_get_bucket_by_name db v
unfolding crud_get_bucket_by_name crud_get_user_by_username
get_bucket_pending db db' v same = ap (λ (d : Db). crud_get_bucket_by_name d v) same

-- what is left when a bucket is gone: its name is free, its trash is emptied, and all else is there
pub record Emptied (name : String) (db db' : Db) : Type 0 where
  pub buckets :
      (v : String)
      → crud_get_bucket_by_name db' v ≡ (if name == v then none else crud_get_bucket_by_name db v)
  pub trash : db'.trash ≡ select (λ (item : TrashItem). not (item.bucket_name == name)) db.trash
  pub blobs : db'.blobs ≡ db.blobs
  pub bare : any (λ (row : BlobRow). row.bucket_name == name) db'.blobs ≡ false

module _ (E : Service) (cfg : Config) where
  purge_trash_items_pending :
      (w : World E.storage) (items : List TrashItem) (chat : Option String)
      → SameButPending w.db (purge_trash_items E cfg w items chat).db
  unfolding purge_trash_items purge_trash_item
  purge_trash_items_pending w [] chat = refl
  purge_trash_items_pending w (item ∷ items) chat =
      let w' = purge_trash_item E.storage w item chat in
      SameButPending-trans w.db w'.db (purge_trash_items E cfg w' items chat).db
        (purge_tg_for_blob_pending E.storage w item.base chat "trash_purge")
        (purge_trash_items_pending w' items chat)

  purge_bucket-Emptied :
      (w : World E.storage) (name : String) (chat : Option String)
      → any (λ (row : BlobRow). row.bucket_name == name) w.db.blobs ≡ false
      → Emptied name w.db
          (purge_bucket E cfg w name chat (ok (true, without_bucket w.db name))).1.db
  unfolding purge_bucket crud_delete_trash_for_bucket
  purge_bucket-Emptied w name chat bare =
      let (items, db) = crud_delete_trash_for_bucket (without_bucket w.db name) name in
      let start : World E.storage = record w { db = db } in
      let same = purge_trash_items_pending start items chat in
      let blobs = ap (λ (d : Db). d.blobs) same in
      record {
        buckets = λ v.
            get_bucket_pending db (purge_trash_items E cfg start items chat).db v same
            ∙ get_without_trash w.db name v
            ∙ get_without_bucket w.db name v;
        trash = ap (λ (d : Db). d.trash) same;
        blobs = blobs;
        bare = ap (any (λ (row : BlobRow). row.bucket_name == name)) blobs ∙ bare;
      }

  purge_bucket_answer :
      (w : World E.storage) (name : String) (chat : Option String)
      → (purge_bucket E cfg w name chat (ok (true, without_bucket w.db name))).0 ≡ ok (plain 204 [])
  unfolding purge_bucket
  purge_bucket_answer w name chat = refl

  deletable_bucket_lem :
      (w : World E.storage) (request : Request) (name : String) (bucket : Bucket)
      → deletable_bucket E cfg w request name ≡ next bucket
      → ((row : BucketRow) × (find (is_named name) w.db.buckets ≡ some row))
        × (crud_bucket_has_objects w.db name ≡ false)
  unfolding deletable_bucket authorized_bucket load_bucket_or_404
  deletable_bucket_lem w request name bucket passed =
      let (u, allowed, h1) = bind-next (reject_unsupported_subresource request) passed in
      let (b, shown, h2) = bind-next (authorized_bucket E cfg w request name) h1 in
      let (found, known, h3) = bind-next (load_bucket_or_404 w.db name) shown in
      let row = bucket_row w.db name found (
        some_or-next (crud_get_bucket_by_name w.db name) (s3_error_response 404 "NoSuchBucket")
          known) in
      let (u', bare, h4) =
        bind-next
          (return_if (crud_bucket_has_objects w.db name) (s3_error_response 409 "BucketNotEmpty"))
          h2 in
      (
        row,
        return_if-next (crud_bucket_has_objects w.db name) (s3_error_response 409 "BucketNotEmpty")
            bare,
      )

  bare_rows :
      (db : Db) (name : String)
      → crud_bucket_has_objects db name ≡ false
      → any (λ (row : BlobRow). row.bucket_name == name) db.blobs ≡ false
  unfolding crud_bucket_has_objects
  bare_rows db name h = no_object name db.blobs h

  -- A deletion of a bucket that passes its guards is answered 204. Then the bucket's name is free and
  -- no object is in it, of the trash exactly its items are gone, and the other buckets and all
  -- objects are as they were.
  pub delete_bucket_lem :
      (request : Request) (name : String) (w : World E.storage) (bucket : Bucket)
      → deletable_bucket E cfg w request name ≡ next bucket
      → ((delete_bucket E cfg request name w).0 ≡ ok (plain 204 []))
        × Emptied name w.db (delete_bucket E cfg request name w).1.db
  unfolding delete_bucket
  delete_bucket_lem request name w bucket passed =
      let ((row, found), bare) = deletable_bucket_lem w request name bucket passed in
      rw (passed, crud_delete_bucket_lem w.db name row found bare)
        (
          purge_bucket_answer w name bucket.row.telegram_chat_id,
          purge_bucket-Emptied w name bucket.row.telegram_chat_id (bare_rows w.db name bare),
        )
