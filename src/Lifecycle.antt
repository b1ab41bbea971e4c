-- ===== src/Lifecycle.antt =====
-- app/s3/object_lifecycle.py: soft deletion into the trash, hard deletion, and overwriting.
pub mod Safety
pub mod Clears
pub mod Frees
use telezon_s.Prelude.{
  ℕ, Bool, true, false, ◌&&◌, ◌||◌, not, Option, none, some, List, [], ◌∷◌, String, ◌<>◌, ◌==◌,
  string_eq, if◌then◌else◌, codes, strip, lower, codes_eq, map, is_empty,
}
use telezon_s.Model.{Db, Config, BlobBase, BlobPart, BlobRow, Blob, TrashItem}
use telezon_s.Tables.Blobs.{crud_delete_blob, crud_get_blob_in_bucket}
use telezon_s.Tables.Trash.{crud_insert_trash_from_blob, crud_delete_trash}
use telezon_s.Cache.{cache_delete}
use telezon_s.Telegram.{Storage}
use telezon_s.Telegram.World.{World, next_id, draw}
use telezon_s.Telegram.Deletes.{safe_delete_tg_message}

-- the value of the header `x-telezon-bypass-trash`, if it was sent
unfoldable pub bypass_trash_requested : Option String → Bool
unfolding strip lower codes_eq
bypass_trash_requested none = false
bypass_trash_requested (some value) =
    let v = map lower (strip (codes value)) in
    codes_eq v (codes "1") || codes_eq v (codes "true") || codes_eq v (codes "yes")

-- `_as_blob_in_db`, for a live object that a query returned
unfoldable pub as_blob_in_db : Blob → String → BlobRow
as_blob_in_db live bucket_name = record {
  base = live.base;
  bucket_name = bucket_name;
  created_at = live.created_at;
  updated_at = live.updated_at;
}

module _ (S : Storage) where
  -- the loop over the parts; one without a message is passed over
  unfoldable pub purge_parts : World S → List BlobPart → Option String → String → World S
  purge_parts w [] chat reason = w
  purge_parts w (p ∷ ps) chat reason =
      purge_parts (safe_delete_tg_message S w true p.message_id chat reason).1 ps chat reason

  -- `_purge_tg_for_blob`
  unfoldable pub purge_tg_for_blob : World S → BlobBase → Option String → String → World S
  unfolding purge_parts
  purge_tg_for_blob w b chat reason =
      if is_empty b.parts
      then (safe_delete_tg_message S w true b.message_id chat reason).1
      else purge_parts w b.parts chat reason

  module _ (cfg : Config) where
    unfoldable pub use_trash : Bool → Bool
    use_trash bypass = cfg.enable_trash && not bypass

    -- `crud_delete_blob` finds the row that the select before it found: nothing runs in between.
    unfoldable pub delete_row : World S → String → String → Option BlobRow × World S
    delete_row w bucket key =
        let (deleted, db) = crud_delete_blob w.db bucket key in
        (deleted, record w { db = db; cache = cache_delete cfg w.cache bucket key })

    -- `if not deleted` with a trash item, and `if not use_trash`: what follows the deletion
    unfoldable pub withdraw_trash : World S → Option BlobRow → String → World S
    withdraw_trash w none trash_id = record w { db = (crud_delete_trash w.db trash_id).1 }
    withdraw_trash w (some row) trash_id = w

    unfoldable pub purge_deleted : World S → Option BlobRow → Option String → String → World S
    purge_deleted w none chat reason = w
    purge_deleted w (some row) chat reason =
        purge_tg_for_blob w row.base chat (if reason == "" then "hard_delete" else reason)

    unfoldable pub soft_delete :
        World S → BlobRow → String → String → String → String → Option BlobRow × World S
    unfolding delete_row withdraw_trash
    soft_delete w snapshot bucket key deleted_by reason =
        let (item, db) =
          crud_insert_trash_from_blob cfg w.now (next_id w) w.db snapshot deleted_by reason in
        let (deleted, w') = delete_row (record (draw w) { db = db }) bucket key in
        (deleted, withdraw_trash w' deleted item.trash_id)

    unfoldable pub hard_delete :
        World S → String → String → Option String → String → Option BlobRow × World S
    hard_delete w bucket key chat reason =
        let (deleted, w') = delete_row w bucket key in
        (deleted, purge_deleted w' deleted chat reason)

    unfoldable pub delete_live_object :
        World S
        → String
        → String
        → Option String
        → String
        → String
        → Bool
        → Option BlobRow × World S
    unfolding use_trash
    delete_live_object w bucket key chat deleted_by reason bypass =
        elim (crud_get_blob_in_bucket w.db bucket key) [
          | none ↦ (none, w)
          | some snapshot ↦
              if use_trash bypass
              then soft_delete w snapshot bucket key deleted_by reason
              else hard_delete w bucket key chat reason
        ]

    unfoldable pub retire_previous_version :
        World S → Blob → String → Option String → String → Bool → String → World S
    unfolding use_trash as_blob_in_db
    retire_previous_version w previous bucket chat deleted_by bypass reason =
        let snapshot = as_blob_in_db previous bucket in
        if use_trash bypass
        then record (draw w) {
          db =
              (crud_insert_trash_from_blob cfg w.now (next_id w) w.db snapshot deleted_by reason).1;
        }
        else purge_tg_for_blob w snapshot.base chat (reason <> "_hard_delete")

  unfoldable pub purge_trash_item : World S → TrashItem → Option String → World S
  unfolding purge_tg_for_blob
  purge_trash_item w item chat = purge_tg_for_blob w item.base chat "trash_purge"
