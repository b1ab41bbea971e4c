-- ===== src/Collector/Purges.antt =====
-- What the purge of the trash and the sample of objects do to the database.
use telezon_s.Prelude.{
  ℕ, ◌≡◌, refl, ap, ◌∙◌, false, ◌&&◌, ◌||◌, Option, none, some, List, [], ◌∷◌, String, ◌==◌,
  string_eq, nat_eq, if◌then◌else◌, arith, eq_iff, find, any, Bool-cases, Option-cases, inl, inr,
}
use telezon_s.Outcome.{Result, ok, err, Error}
use telezon_s.Model.{Config, Db, BlobRow, TrashItem}
use telezon_s.Tables.Blobs.{is_at, remove_row, crud_get_blob_in_bucket, crud_delete_blob}
use telezon_s.Tables.Blobs.Writes.{crud_delete_blob_eq}
use telezon_s.Tables.Trash.{has_id, remove_item, crud_get_trash, crud_delete_trash}
use telezon_s.Telegram.{Storage}
use telezon_s.Telegram.World.{World}
use telezon_s.Telegram.Deletes.Queue.{SameButPending}
use telezon_s.Lifecycle.{purge_trash_item}
use telezon_s.Lifecycle.Frees.{purge_tg_for_blob_pending}
use telezon_s.Http.Text.{is_blank}
use telezon_s.BlobIo.{resolve_telegram_chat_id}
use telezon_s.Collector.{
  bucket_chat, purge_expired, after_probe, sample_blob, sample_dead_blobs, is_dead, probe,
}
use telezon_s.Collector.Steps.{if_step, UniqueIds, SameButBlobs, SameButTrash}

remove_item-absent :
    (id : String) (items : List TrashItem)
    → find (has_id id) items ≡ none
    → remove_item id items ≡ items
unfolding remove_item
remove_item-absent id [] h = refl
remove_item-absent id (item ∷ items) h = ground (arith, remove_item-absent id items)

crud_delete_trash_eq :
    (db : Db) (id : String)
    → crud_delete_trash db id
      ≡ (crud_get_trash db id, record db { trash = remove_item id db.trash })
unfolding crud_delete_trash crud_get_trash
crud_delete_trash_eq db id = ground (arith, remove_item-absent id db.trash)

find-remove_item :
    (id v : String) (items : List TrashItem)
    → UniqueIds items
    → find (has_id v) (remove_item id items) ≡ (if id == v then none else find (has_id v) items)
unfolding remove_item
find-remove_item id v [] unique = ground arith
find-remove_item id v (item ∷ items) unique = ground (
  arith,
  find-remove_item id v items,
  eq_iff item.trash_id id,
  eq_iff item.trash_id v,
  eq_iff id v,
)

UniqueIds-remove_item :
    (id : String) (items : List TrashItem) → UniqueIds items → UniqueIds (remove_item id items)
unfolding remove_item
UniqueIds-remove_item id [] unique = tt
UniqueIds-remove_item id (item ∷ items) unique =
    ground (arith, UniqueIds-remove_item id items, find-remove_item id item.trash_id items)

-- the items `gone` have left the trash, and nothing else has
pub record Purged (gone : List TrashItem) (db db' : Db) : Type 0 where
  pub trash :
      (v : String)
      → crud_get_trash db' v
        ≡ (if any (λ t. t.trash_id == v) gone then none else crud_get_trash db v)
  pub same : SameButTrash db db'

crud_delete_trash_step :
    (db : Db) (id : String)
    → UniqueIds db.trash
    → ((v : String)
        → crud_get_trash (crud_delete_trash db id).1 v
          ≡ (if id == v then none else crud_get_trash db v))
      × UniqueIds (crud_delete_trash db id).1.trash
      × SameButTrash db (crud_delete_trash db id).1
unfolding crud_get_trash
crud_delete_trash_step db id unique =
    rw (crud_delete_trash_eq db id)
      (λ v. find-remove_item id v db.trash unique, UniqueIds-remove_item id db.trash unique, refl)

get-pending :
    (db db' : Db) (v : String) → SameButPending db db' → crud_get_trash db' v ≡ crud_get_trash db v
unfolding crud_get_trash
get-pending db db' v same = ap (λ (d : Db). find (has_id v) d.trash) same

-- one more item is gone: `db1` is without it, and `db2` is that but for the queue
Purged-cons :
    (item : TrashItem) (gone : List TrashItem) (db db1 db2 db3 : Db)
    → ((v : String)
        → crud_get_trash db1 v ≡ (if item.trash_id == v then none else crud_get_trash db v))
    → SameButTrash db db1
    → SameButPending db1 db2
    → Purged gone db2 db3
    → Purged (item ∷ gone) db db3
Purged-cons item gone db db1 db2 db3 less same queue later = record {
  trash = λ v.
      later.trash v
      ∙ ap (λ o. if any (λ t. t.trash_id == v) gone then none else o)
          (get-pending db1 db2 v queue ∙ less v)
      ∙ if_step (item.trash_id == v) (any (λ t. t.trash_id == v) gone) none (crud_get_trash db v);
  same =
      later.same
      ∙ ap (λ (d : Db). record d { trash = db3.trash; pending = db3.pending }) queue
      ∙ ap (λ (d : Db). record d { trash = db3.trash; pending = db3.pending }) same;
}

module _ (S : Storage) (cfg : Config) where
  purge_trash_item_pending :
      (w : World S) (item : TrashItem) (chat : Option String)
      → SameButPending w.db (purge_trash_item S w item chat).db
  unfolding purge_trash_item
  purge_trash_item_pending w item chat = purge_tg_for_blob_pending S w item.base chat "trash_purge"

  -- the rest of the loop, for what the deletion returned
  pub purge_expired-Purged :
      (items : List TrashItem) (w : World S)
      → UniqueIds w.db.trash
      → Purged items w.db (purge_expired S cfg w items).1.db
  unfolding purge_expired
  purge_expired-Purged [] w unique = record { trash = λ v. refl; same = refl }
  purge_expired-Purged (item ∷ items) w unique =
      let db1 = (crud_delete_trash w.db item.trash_id).1 in
      let (less, unique1, same) = crud_delete_trash_step w.db item.trash_id unique in
      elim (Option-cases (crud_delete_trash w.db item.trash_id).0) [
        | inl e ↦
            rw (e, purge_expired)
              (Purged-cons item items w.db db1 db1 _ less same refl
                (purge_expired-Purged items (record w { db = db1 }) unique1))
        | inr (removed, e) ↦
            let w2 =
              purge_trash_item S (record w { db = db1 }) removed
                (bucket_chat w.db item.bucket_name) in
            let queue =
              purge_trash_item_pending (record w { db = db1 }) removed
                (bucket_chat w.db item.bucket_name) in
            rw (e, purge_expired)
              (Purged-cons item items w.db db1 w2.db _ less same queue
                (purge_expired-Purged items w2 (rw (ap (λ (d : Db). d.trash) queue) unique1)))
      ]

find-other :
    (bucket key b k : String) (rows : List BlobRow)
    → (bucket == b && key == k) ≡ false
    → find (is_at b k) (remove_row bucket key rows) ≡ find (is_at b k) rows
unfolding remove_row
find-other bucket key b k [] apart = refl
find-other bucket key b k (row ∷ rows) apart = ground (
  arith,
  find-other bucket key b k rows,
  eq_iff row.bucket_name bucket,
  eq_iff row.base.path key,
  eq_iff row.bucket_name b,
  eq_iff row.base.path k,
  eq_iff bucket b,
  eq_iff key k,
)

-- a key that no row of the sample stands at holds what it held, and only objects are removed
pub record Spared (samples : List BlobRow) (db db' : Db) : Type 0 where
  pub objects :
      (b k : String)
      → any (is_at b k) samples ≡ false
      → crud_get_blob_in_bucket db' b k ≡ crud_get_blob_in_bucket db b k
  pub same : SameButBlobs db db'

Spared-refl : (blob : BlobRow) (db : Db) → Spared (blob ∷ []) db db
Spared-refl blob db = record { objects = λ b k out. refl; same = refl }

removed_one :
    (blob : BlobRow) (db : Db)
    → Spared (blob ∷ []) db (crud_delete_blob db blob.bucket_name blob.base.path).1
unfolding crud_get_blob_in_bucket
removed_one blob db = rw (crud_delete_blob_eq db blob.bucket_name blob.base.path) record {
  objects =
      λ b k out. find-other blob.bucket_name blob.base.path b k db.blobs (ground (arith, out));
  same = refl;
}

module _ (S : Storage) (cfg : Config) (message : Error → String) where
  after_probe-Spared :
      (w : World S) (blob : BlobRow) (got : Option (Result (List ℕ) × S.State))
      → Spared (blob ∷ []) w.db (after_probe S cfg message w blob got).1.db
  unfolding after_probe
  after_probe-Spared w blob none = Spared-refl blob w.db
  after_probe-Spared w blob (some (ok content, s)) = Spared-refl blob w.db
  after_probe-Spared w blob (some (err e, s)) = elim (Bool-cases (is_dead message e)) [
    | inl dead ↦ rw dead (removed_one blob w.db)
    | inr alive ↦ rw alive (Spared-refl blob w.db)
  ]

  sample_blob-Spared :
      (w : World S) (blob : BlobRow)
      → Spared (blob ∷ []) w.db (sample_blob S cfg message w blob).1.db
  unfolding sample_blob
  sample_blob-Spared w blob =
      elim (Bool-cases (is_blank blob.bucket_name || is_blank blob.base.path)) [
        | inl e ↦ rw e (Spared-refl blob w.db)
        | inr e ↦ rw e (
            after_probe-Spared w blob
              (probe S w blob (resolve_telegram_chat_id cfg (bucket_chat w.db blob.bucket_name))))
      ]

  any_split :
      (x : BlobRow) (xs : List BlobRow) (b k : String)
      → any (is_at b k) (x ∷ xs) ≡ false
      → (any (is_at b k) (x ∷ []) ≡ false) × (any (is_at b k) xs ≡ false)
  any_split x xs b k out = ground arith

  pub sample_dead_blobs-Spared :
      (blobs : List BlobRow) (w : World S)
      → Spared blobs w.db (sample_dead_blobs S cfg message w blobs).1.db
  unfolding sample_dead_blobs
  sample_dead_blobs-Spared [] w = record { objects = λ b k out. refl; same = refl }
  sample_dead_blobs-Spared (blob ∷ blobs) w =
      let w' = (sample_blob S cfg message w blob).1 in
      let db'' = (sample_dead_blobs S cfg message w' blobs).1.db in
      let step = sample_blob-Spared w blob in
      let later = sample_dead_blobs-Spared blobs w' in
      record {
        objects = λ b k out.
            let (here, there) = any_split blob blobs b k out in
            later.objects b k there ∙ step.objects b k here;
        same = later.same ∙ ap (λ (d : Db). record d { blobs = db''.blobs }) step.same;
      }
