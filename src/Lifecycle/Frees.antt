-- ===== src/Lifecycle/Frees.antt =====
-- A deletion frees the key, and with the trash on it loses nothing.
use mathlib.Core.Path.{subst}
use telezon_s.Prelude.{
  find, ◌+◌, max, false, ◌≡◌, refl, sym, ap, ◌∙◌, Bool, true, Option, none, some, List, [], ◌∷◌,
  ◌++◌, String, ◌==◌, string_eq, arith, Bool-cases, Option-cases, inl, inr, is_empty, if◌then◌else◌,
}
use telezon_s.Model.{Config, Db, BlobBase, BlobPart, BlobRow, TrashItem}
use telezon_s.Tables.Blobs.{crud_get_blob_in_bucket, crud_delete_blob, remove_row, is_at}
use telezon_s.Tables.Blobs.Writes.{
  UniqueKeys, same_key, find-is_at, crud_delete_blob_eq, crud_delete_blob_lem, remove_row-absent,
}
use telezon_s.Tables.Trash.{crud_insert_trash_from_blob, crud_delete_trash}
use telezon_s.Telegram.{Storage}
use telezon_s.Telegram.World.{World, next_id, draw}
use telezon_s.Telegram.Deletes.{safe_delete_tg_message}
use telezon_s.Telegram.Deletes.Queue.{SameButPending, SameButPending-trans, safe_delete_pending}
use telezon_s.Lifecycle.{
  purge_parts, purge_tg_for_blob, delete_row, soft_delete, hard_delete, delete_live_object,
  use_trash, purge_deleted, withdraw_trash,
}

module _ (S : Storage) where
  purge_parts_pending :
      (w : World S) (ps : List BlobPart) (chat : Option String) (reason : String)
      → SameButPending w.db (purge_parts S w ps chat reason).db
  unfolding purge_parts
  purge_parts_pending w [] chat reason = refl
  purge_parts_pending w (p ∷ ps) chat reason =
      let w' = (safe_delete_tg_message S w true p.message_id chat reason).1 in
      SameButPending-trans w.db w'.db (purge_parts S w' ps chat reason).db
        (safe_delete_pending S w p.message_id chat reason) (purge_parts_pending w' ps chat reason)

  pub purge_tg_for_blob_pending :
      (w : World S) (b : BlobBase) (chat : Option String) (reason : String)
      → SameButPending w.db (purge_tg_for_blob S w b chat reason).db
  unfolding purge_tg_for_blob
  purge_tg_for_blob_pending w b chat reason = elim (Bool-cases (is_empty b.parts)) [
    | inl e ↦ rw e (safe_delete_pending S w b.message_id chat reason)
    | inr e ↦ rw e (purge_parts_pending w b.parts chat reason)
  ]

module _ (S : Storage) (cfg : Config) where
  delete_row_blobs :
      (w : World S) (bucket key : String)
      → (delete_row S cfg w bucket key).1.db.blobs ≡ remove_row bucket key w.db.blobs
  unfolding delete_row
  delete_row_blobs w bucket key = ap (λ d. d.1.blobs) (crud_delete_blob_eq w.db bucket key)

  withdraw_trash_blobs :
      (w : World S) (deleted : Option BlobRow) (trash_id : String)
      → (withdraw_trash S cfg w deleted trash_id).db.blobs ≡ w.db.blobs
  unfolding withdraw_trash crud_delete_trash
  withdraw_trash_blobs w none trash_id = ground arith
  withdraw_trash_blobs w (some row) trash_id = refl

  purge_deleted_blobs :
      (w : World S) (deleted : Option BlobRow) (chat : Option String) (reason : String)
      → (purge_deleted S cfg w deleted chat reason).db.blobs ≡ w.db.blobs
  unfolding purge_deleted
  purge_deleted_blobs w none chat reason = refl
  purge_deleted_blobs w (some row) chat reason =
      ap (λ (d : Db). d.blobs)
        (purge_tg_for_blob_pending S w row.base chat
          (if reason == "" then "hard_delete" else reason))

  soft_delete_blobs :
      (w : World S) (snapshot : BlobRow) (bucket key deleted_by reason : String)
      → (soft_delete S cfg w snapshot bucket key deleted_by reason).1.db.blobs
        ≡ remove_row bucket key w.db.blobs
  unfolding soft_delete crud_insert_trash_from_blob
  soft_delete_blobs w snapshot bucket key deleted_by reason =
      let db =
        (crud_insert_trash_from_blob cfg w.now (next_id w) w.db snapshot deleted_by reason).1 in
      let (deleted, w') = delete_row S cfg (record (draw w) { db = db }) bucket key in
      withdraw_trash_blobs w' deleted (next_id w)
      ∙ delete_row_blobs (record (draw w) { db = db }) bucket key

  hard_delete_blobs :
      (w : World S) (bucket key : String) (chat : Option String) (reason : String)
      → (hard_delete S cfg w bucket key chat reason).1.db.blobs ≡ remove_row bucket key w.db.blobs
  unfolding hard_delete
  hard_delete_blobs w bucket key chat reason =
      purge_deleted_blobs (delete_row S cfg w bucket key).1 (delete_row S cfg w bucket key).0 chat
        reason
      ∙ delete_row_blobs w bucket key

  live_object_blobs :
      (w : World S) (bucket key : String) (chat : Option String) (deleted_by reason : String)
      (bypass : Bool)
      → (delete_live_object S cfg w bucket key chat deleted_by reason bypass).1.db.blobs
        ≡ (crud_delete_blob w.db bucket key).1.blobs
  unfolding delete_live_object crud_get_blob_in_bucket
  live_object_blobs w bucket key chat deleted_by reason bypass =
      let removed = ap (λ d. d.1.blobs) (sym (crud_delete_blob_eq w.db bucket key)) in
      elim (Option-cases (crud_get_blob_in_bucket w.db bucket key)) [
        | inl e ↦
            rw (delete_live_object, e) (sym (remove_row-absent bucket key w.db.blobs e) ∙ removed)
        | inr (row, e) ↦ elim (Bool-cases (use_trash S cfg bypass)) [
          | inl t ↦
              rw (delete_live_object, e, t)
                (soft_delete_blobs w row bucket key deleted_by reason ∙ removed)
          | inr t ↦
              rw (delete_live_object, e, t) (hard_delete_blobs w bucket key chat reason ∙ removed)
        ]
      ]

  same_blobs :
      (db db' : Db) (b k : String)
      → db'.blobs ≡ db.blobs
      → crud_get_blob_in_bucket db' b k ≡ crud_get_blob_in_bucket db b k
  unfolding crud_get_blob_in_bucket
  same_blobs db db' b k same = ap (find (is_at b k)) same

  -- In a table with one row for each key: a deletion, into the trash or for good, frees its key,
  -- every other key holds what it held, and each key still has one row.
  pub delete_live_object_frees :
      (w : World S) (bucket key : String) (chat : Option String) (deleted_by reason : String)
      (bypass : Bool)
      → UniqueKeys w.db.blobs
      → UniqueKeys (delete_live_object S cfg w bucket key chat deleted_by reason bypass).1.db.blobs
        × ((b k : String)
            → crud_get_blob_in_bucket
                (delete_live_object S cfg w bucket key chat deleted_by reason bypass).1.db
                b
                k
              ≡ (if same_key bucket key b k then none else crud_get_blob_in_bucket w.db b k))
  delete_live_object_frees w bucket key chat deleted_by reason bypass unique =
      let after_run = (delete_live_object S cfg w bucket key chat deleted_by reason bypass).1 in
      let gone = live_object_blobs w bucket key chat deleted_by reason bypass in
      let (still, given, found) = crud_delete_blob_lem w.db bucket key unique in
      (
        subst UniqueKeys (sym gone) still,
        λ b k. same_blobs (crud_delete_blob w.db bucket key).1 after_run.db b k gone ∙ found b k,
      )

  soft_delete_parks :
      (w : World S) (snapshot : BlobRow) (bucket key deleted_by reason : String)
      → crud_get_blob_in_bucket w.db bucket key ≡ some snapshot
      → ((soft_delete S cfg w snapshot bucket key deleted_by reason).1.db.trash
          ≡ w.db.trash
            ++ (crud_insert_trash_from_blob cfg w.now (next_id w) w.db snapshot deleted_by reason).0
              ∷ [])
        × ((soft_delete S cfg w snapshot bucket key deleted_by reason).1.tg ≡ w.tg)
  unfolding soft_delete crud_insert_trash_from_blob delete_row withdraw_trash crud_delete_blob
      crud_get_blob_in_bucket
  soft_delete_parks w snapshot bucket key deleted_by reason found =
      rw (crud_delete_blob, found) (refl, refl)

  trash_used : cfg.enable_trash ≡ true → use_trash S cfg false ≡ true
  unfolding use_trash
  trash_used on = ground arith

  -- the item that an object is parked as: its content and its metadata as they were, found under its
  -- bucket, until the retention time has passed
  abbrev pub parked : World S → String → BlobBase → String → String → TrashItem
  parked w bucket base deleted_by reason = record {
    base = base;
    trash_id = next_id w;
    bucket_name = bucket;
    deleted_at = w.now;
    expires_at = w.now + max 60 cfg.trash_retention_seconds;
    deleted_by = deleted_by;
    reason = reason;
  }

  -- With the trash on and not bypassed, deleting an object that exists puts it, its content and its
  -- metadata as they were, behind what was in the trash before, under its bucket, with the time of
  -- the deletion, a time of expiry that lies the retention time ahead, but a minute at least, and
  -- who deleted it and why; and it leaves the storage alone.
  pub delete_live_object_parks :
      (w : World S) (bucket key : String) (chat : Option String) (deleted_by reason : String)
      (row : BlobRow)
      → cfg.enable_trash ≡ true
      → crud_get_blob_in_bucket w.db bucket key ≡ some row
      → ((delete_live_object S cfg w bucket key chat deleted_by reason false).1.db.trash
          ≡ w.db.trash ++ parked w bucket row.base deleted_by reason ∷ [])
        × ((delete_live_object S cfg w bucket key chat deleted_by reason false).1.tg ≡ w.tg)
  unfolding delete_live_object crud_insert_trash_from_blob crud_get_blob_in_bucket
  delete_live_object_parks w bucket key chat deleted_by reason row on found =
      let (kept, same) = soft_delete_parks w row bucket key deleted_by reason found in
      let at = find-is_at bucket key w.db.blobs row found in
      (
        rw (delete_live_object, found, trash_used on) kept
            ∙ ap (λ b. w.db.trash ++ parked w b row.base deleted_by reason ∷ []) at.0,
        rw (delete_live_object, found, trash_used on) same,
      )
