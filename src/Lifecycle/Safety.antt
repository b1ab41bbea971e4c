-- ===== src/Lifecycle/Safety.antt =====
-- What deleting objects does to the messages in Telegram.
use telezon_s.Prelude.{
  ℕ, ◌<◌, ◌≡◌, refl, ◌∙◌, Bool, true, Option, none, some, List, [], ◌∷◌, String, arith, ◌==◌,
  nat_eq, string_eq, if◌then◌else◌, Option-cases, inl, inr, ◌<>◌, take,
}
use telezon_s.Model.{Config, BlobBase, BlobPart, BlobRow, Blob, TrashItem}
use telezon_s.Tables.Blobs.{crud_get_blob_in_bucket}
use telezon_s.Tables.Refs.{count_message_id_refs}
use telezon_s.Telegram.{Storage, DeletesOne}
use telezon_s.Telegram.World.{World}
use telezon_s.Telegram.Deletes.{safe_delete_tg_message, retry_pending_tg_deletes}
use telezon_s.Telegram.Deletes.Spares.{
  count-safe_delete_tg_message, count-retry_rows, safe_delete_spares, retry_rows_spares,
}
use telezon_s.Lifecycle.{
  purge_parts, purge_tg_for_blob, delete_row, soft_delete, hard_delete, delete_live_object,
  retire_previous_version, purge_trash_item, as_blob_in_db, purge_deleted,
}

module _ (S : Storage) where
  count-purge_parts :
      (w : World S) (ps : List BlobPart) (chat : Option String) (reason : String) (m : ℕ)
      → count_message_id_refs (purge_parts S w ps chat reason).db m ≡ count_message_id_refs w.db m
  unfolding purge_parts
  count-purge_parts w [] chat reason m = refl
  count-purge_parts w (p ∷ ps) chat reason m =
      count-purge_parts (safe_delete_tg_message S w true p.message_id chat reason).1 ps chat reason
        m
      ∙ count-safe_delete_tg_message S w true p.message_id chat reason m

  pub count-purge_tg_for_blob :
      (w : World S) (b : BlobBase) (chat : Option String) (reason : String) (m : ℕ)
      → count_message_id_refs (purge_tg_for_blob S w b chat reason).db m
        ≡ count_message_id_refs w.db m
  unfolding purge_tg_for_blob
  count-purge_tg_for_blob w b chat reason m = ground (
    arith,
    count-purge_parts w b.parts chat reason m,
    count-safe_delete_tg_message S w true b.message_id chat reason m,
  )

  -- the four ways in which objects and queued deletions leave the database
  pub data Removal (cfg : Config) (w : World S) : World S → Type 0 where
    delete :
        (bucket key : String) (chat : Option String) (deleted_by reason : String) (bypass : Bool)
        → Removal cfg w (delete_live_object S cfg w bucket key chat deleted_by reason bypass).1
    overwrite :
        (previous : Blob) (bucket : String) (chat : Option String) (deleted_by : String)
        (bypass : Bool) (reason : String)
        → Removal cfg w
            (retire_previous_version S cfg w previous bucket chat deleted_by bypass reason)
    purge :
        (item : TrashItem) (chat : Option String) → Removal cfg w (purge_trash_item S w item chat)
    retry : (limit : ℕ) → Removal cfg w (retry_pending_tg_deletes S w limit).1

  module _ (L : DeletesOne S) (c : Option String) (m : ℕ) where
    purge_parts_spares :
        (w : World S) (ps : List BlobPart) (chat : Option String) (reason : String)
        → 0 < count_message_id_refs w.db m
        → L.holds (purge_parts S w ps chat reason).tg c m ≡ L.holds w.tg c m
    unfolding purge_parts
    purge_parts_spares w [] chat reason used = refl
    purge_parts_spares w (p ∷ ps) chat reason used = ground (
      arith,
      purge_parts_spares (safe_delete_tg_message S w true p.message_id chat reason).1 ps chat
          reason,
      safe_delete_spares S L c m w p.message_id chat reason,
      count-safe_delete_tg_message S w true p.message_id chat reason m,
    )

    purge_tg_for_blob_spares :
        (w : World S) (b : BlobBase) (chat : Option String) (reason : String)
        → 0 < count_message_id_refs w.db m
        → L.holds (purge_tg_for_blob S w b chat reason).tg c m ≡ L.holds w.tg c m
    unfolding purge_tg_for_blob
    purge_tg_for_blob_spares w b chat reason used = ground (
      arith,
      purge_parts_spares w b.parts chat reason,
      safe_delete_spares S L c m w b.message_id chat reason,
    )

    module _ (cfg : Config) where
      tg-soft_delete :
          (w : World S) (snapshot : BlobRow) (bucket key deleted_by reason : String)
          → (soft_delete S cfg w snapshot bucket key deleted_by reason).1.tg ≡ w.tg
      unfolding soft_delete
      tg-soft_delete w snapshot bucket key deleted_by reason = ground arith

      purge_deleted_spares :
          (w : World S) (deleted : Option BlobRow) (chat : Option String) (reason : String)
          → 0 < count_message_id_refs (purge_deleted S cfg w deleted chat reason).db m
          → L.holds (purge_deleted S cfg w deleted chat reason).tg c m ≡ L.holds w.tg c m
      unfolding purge_deleted
      purge_deleted_spares w none chat reason used = refl
      purge_deleted_spares w (some row) chat reason used =
          let r = if reason == "" then "hard_delete" else reason in
          purge_tg_for_blob_spares w row.base chat r
            (rw (count-purge_tg_for_blob w row.base chat r m) at used)

      hard_delete_spares :
          (w : World S) (bucket key : String) (chat : Option String) (reason : String)
          → 0 < count_message_id_refs (hard_delete S cfg w bucket key chat reason).1.db m
          → L.holds (hard_delete S cfg w bucket key chat reason).1.tg c m ≡ L.holds w.tg c m
      unfolding hard_delete delete_row
      hard_delete_spares w bucket key chat reason used =
          let (deleted, w') = delete_row S cfg w bucket key in
          purge_deleted_spares w' deleted chat reason used

      delete_live_object_spares :
          (w : World S) (bucket key : String) (chat : Option String) (deleted_by reason : String)
          (bypass : Bool)
          → 0
            < count_message_id_refs
                (delete_live_object S cfg w bucket key chat deleted_by reason bypass).1.db
                m
          → L.holds (delete_live_object S cfg w bucket key chat deleted_by reason bypass).1.tg c m
            ≡ L.holds w.tg c m
      unfolding delete_live_object
      delete_live_object_spares w bucket key chat deleted_by reason bypass used =
          elim (Option-cases (crud_get_blob_in_bucket w.db bucket key)) [
            | inl e ↦ rw (e, delete_live_object) refl
            | inr (snapshot, e) ↦ ground (
              arith,
              e,
              hard_delete_spares w bucket key chat reason,
              tg-soft_delete w snapshot bucket key deleted_by reason,
            )
          ]

      retire_spares :
          (w : World S) (previous : Blob) (bucket : String) (chat : Option String)
          (deleted_by : String) (bypass : Bool) (reason : String)
          → 0
            < count_message_id_refs
                (retire_previous_version S cfg w previous bucket chat deleted_by bypass reason).db
                m
          → L.holds
              (retire_previous_version S cfg w previous bucket chat deleted_by bypass reason).tg
              c
              m
            ≡ L.holds w.tg c m
      unfolding retire_previous_version
      retire_spares w previous bucket chat deleted_by bypass reason used =
          let b = (as_blob_in_db previous bucket).base in
          let r = reason <> "_hard_delete" in
          ground (arith, purge_tg_for_blob_spares w b chat r, count-purge_tg_for_blob w b chat r m)

      purge_item_spares :
          (w : World S) (item : TrashItem) (chat : Option String)
          → 0 < count_message_id_refs (purge_trash_item S w item chat).db m
          → L.holds (purge_trash_item S w item chat).tg c m ≡ L.holds w.tg c m
      unfolding purge_trash_item
      purge_item_spares w item chat used =
          purge_tg_for_blob_spares w item.base chat "trash_purge"
            (rw (count-purge_tg_for_blob w item.base chat "trash_purge" m) at used)

      retry_spares :
          (w : World S) (limit : ℕ)
          → 0 < count_message_id_refs (retry_pending_tg_deletes S w limit).1.db m
          → L.holds (retry_pending_tg_deletes S w limit).1.tg c m ≡ L.holds w.tg c m
      unfolding retry_pending_tg_deletes
      retry_spares w limit used =
          let rows = take limit w.db.pending in
          retry_rows_spares S L c m w rows (rw (count-retry_rows S w rows m) at used)

      -- If a deletion in Telegram touches no message but the one it names: deleting an object,
      -- overwriting one, purging a trash item and retrying the queue leave every
      -- message in Telegram that the database refers to afterwards, whatever the service answers.
      pub Removal-spares :
          {w w' : World S}
          → Removal cfg w w'
          → 0 < count_message_id_refs w'.db m
          → L.holds w'.tg c m ≡ L.holds w.tg c m
      Removal-spares {w} (delete bucket key chat deleted_by reason bypass) used =
          delete_live_object_spares w bucket key chat deleted_by reason bypass used
      Removal-spares {w} (overwrite previous bucket chat deleted_by bypass reason) used =
          retire_spares w previous bucket chat deleted_by bypass reason used
      Removal-spares {w} (purge item chat) used = purge_item_spares w item chat used
      Removal-spares {w} (retry limit) used = retry_spares w limit used
