-- ===== src/Lifecycle/Clears.antt =====
-- A hard deletion forgets no message of the object.
use telezon_s.Prelude.{
  ℕ, ◌<◌, ◌≡◌, refl, ◌∙◌, Bool, true, false, Option, none, some, List, [], ◌∷◌, String, arith, ltb,
  ◌==◌, nat_eq, string_eq, if◌then◌else◌, Bool-cases, inl, inr, is_empty,
}
use telezon_s.Model.{Config, BlobBase, BlobPart, BlobRow}
use telezon_s.Tables.Blobs.{crud_get_blob_in_bucket, crud_delete_blob}
use telezon_s.Tables.Refs.{count_message_id_refs, count_mid_in_parts, is_mid}
use telezon_s.Telegram.{Storage, DeletesOne}
use telezon_s.Telegram.World.{World}
use telezon_s.Telegram.Deletes.{safe_delete_tg_message}
use telezon_s.Telegram.Deletes.Spares.{count-safe_delete_tg_message}
use telezon_s.Telegram.Deletes.Clears.{Settled, safe_delete-keeps, safe_delete_settles}
use telezon_s.Lifecycle.{
  purge_parts, purge_tg_for_blob, delete_row, hard_delete, delete_live_object, use_trash,
  purge_deleted,
}
use telezon_s.Lifecycle.Safety.{count-purge_tg_for_blob}

-- how often an object's content names a message: its parts do if it has parts
abbrev pub content_mentions : BlobBase → ℕ → ℕ
content_mentions b mid =
    if is_empty b.parts then is_mid b.message_id mid else count_mid_in_parts b.parts mid

module _ (S : Storage) (L : DeletesOne S) where
  purge_parts-keeps :
      (w : World S) (ps : List BlobPart) (chat : Option String) (reason : String)
      (c : Option String) (m : ℕ)
      → Settled S L w c m
      → Settled S L (purge_parts S w ps chat reason) c m
  unfolding purge_parts
  purge_parts-keeps w [] chat reason c m h = h
  purge_parts-keeps w (p ∷ ps) chat reason c m h =
      purge_parts-keeps (safe_delete_tg_message S w true p.message_id chat reason).1 ps chat reason
        c m (safe_delete-keeps S L w p.message_id chat reason c m h)

  module _ (chat : Option String) (reason : String) (m : ℕ) where
    safe_delete_named :
        (w : World S) (mid : Option ℕ)
        → 0 < is_mid mid m
        → count_message_id_refs w.db m ≡ 0
        → Settled S L (safe_delete_tg_message S w true mid chat reason).1 chat m
    unfolding is_mid
    safe_delete_named w none named free = absurd (omega arith)
    safe_delete_named w (some k) named free =
        let e : k ≡ m = ground arith in rw e (safe_delete_settles S L w m chat reason free)

    purge_parts_settles :
        (w : World S) (ps : List BlobPart)
        → 0 < count_mid_in_parts ps m
        → count_message_id_refs w.db m ≡ 0
        → Settled S L (purge_parts S w ps chat reason) chat m
    unfolding purge_parts count_mid_in_parts
    purge_parts_settles w [] named free = absurd (omega arith)
    purge_parts_settles w (p ∷ ps) named free =
        let w' = (safe_delete_tg_message S w true p.message_id chat reason).1 in
        elim (Bool-cases (ltb 0 (is_mid p.message_id m))) [
          | inl here ↦
              purge_parts-keeps w' ps chat reason chat m
                (safe_delete_named w p.message_id (ground arith) free)
          | inr later ↦
              purge_parts_settles w' ps (ground arith)
                (count-safe_delete_tg_message S w true p.message_id chat reason m ∙ free)
        ]

    purge_tg_for_blob_settles :
        (w : World S) (b : BlobBase)
        → 0 < content_mentions b m
        → count_message_id_refs w.db m ≡ 0
        → Settled S L (purge_tg_for_blob S w b chat reason) chat m
    unfolding purge_tg_for_blob
    purge_tg_for_blob_settles w b named free = elim (Bool-cases (is_empty b.parts)) [
      | inl e ↦ rw e (safe_delete_named w b.message_id (rw e at named) free)
      | inr e ↦ rw e (purge_parts_settles w b.parts (rw e at named) free)
    ]

module _ (S : Storage) (L : DeletesOne S) (cfg : Config) where
  purge_deleted_settles :
      (w : World S) (row : BlobRow) (chat : Option String) (reason : String) (m : ℕ)
      → 0 < content_mentions row.base m
      → count_message_id_refs (purge_deleted S cfg w (some row) chat reason).db m ≡ 0
      → Settled S L (purge_deleted S cfg w (some row) chat reason) chat m
  unfolding purge_deleted
  purge_deleted_settles w row chat reason m named free =
      let r = if reason == "" then "hard_delete" else reason in
      purge_tg_for_blob_settles S L chat r m w row.base named
        (rw (count-purge_tg_for_blob S w row.base chat r m) at free)

  delete_row_eq :
      (w : World S) (bucket key : String) (row : BlobRow)
      → crud_get_blob_in_bucket w.db bucket key ≡ some row
      → (delete_row S cfg w bucket key).0 ≡ some row
  unfolding delete_row crud_delete_blob
  delete_row_eq w bucket key row e = rw (e, crud_delete_blob) refl

  hard_delete_settles :
      (w : World S) (bucket key : String) (chat : Option String) (reason : String) (row : BlobRow)
      (m : ℕ)
      → crud_get_blob_in_bucket w.db bucket key ≡ some row
      → 0 < content_mentions row.base m
      → count_message_id_refs (hard_delete S cfg w bucket key chat reason).1.db m ≡ 0
      → Settled S L (hard_delete S cfg w bucket key chat reason).1 chat m
  unfolding hard_delete
  hard_delete_settles w bucket key chat reason row m found named free =
      let e = delete_row_eq w bucket key row found in
      let (deleted, w') = delete_row S cfg w bucket key in
      rw e (purge_deleted_settles w' row chat reason m named (rw e at free))

  delete_live_object_hard :
      (w : World S) (bucket key : String) (chat : Option String) (deleted_by reason : String)
      (bypass : Bool) (row : BlobRow)
      → use_trash S cfg bypass ≡ false
      → crud_get_blob_in_bucket w.db bucket key ≡ some row
      → delete_live_object S cfg w bucket key chat deleted_by reason bypass
        ≡ hard_delete S cfg w bucket key chat reason
  unfolding delete_live_object
  delete_live_object_hard w bucket key chat deleted_by reason bypass row off found = ground arith

  -- If a deletion in Telegram that answers true is done, and none is undone: when an object that
  -- exists is deleted with the trash off or bypassed: each message that its
  -- content names and that no row refers to afterwards is gone from its chat, or waits in the queue
  -- of deletions to retry.
  pub delete_live_object_settles :
      (w : World S) (bucket key : String) (chat : Option String) (deleted_by reason : String)
      (bypass : Bool) (row : BlobRow) (m : ℕ)
      → use_trash S cfg bypass ≡ false
      → crud_get_blob_in_bucket w.db bucket key ≡ some row
      → 0 < content_mentions row.base m
      → count_message_id_refs
          (delete_live_object S cfg w bucket key chat deleted_by reason bypass).1.db
          m
        ≡ 0
      → Settled S L (delete_live_object S cfg w bucket key chat deleted_by reason bypass).1 chat m
  delete_live_object_settles w bucket key chat deleted_by reason bypass row m off found named free =
      let eq = delete_live_object_hard w bucket key chat deleted_by reason bypass row off found in
      rw eq (hard_delete_settles w bucket key chat reason row m found named (rw eq at free))
