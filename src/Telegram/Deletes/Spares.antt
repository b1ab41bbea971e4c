-- ===== src/Telegram/Deletes/Spares.antt =====
-- No deletion touches a message that a row refers to.
use telezon_s.Prelude.{
  ℕ, ◌<◌, ◌≡◌, refl, ◌∙◌, Bool, true, Option, none, some, List, [], ◌∷◌, String, arith, nat_eq,
}
use telezon_s.Model.{Db, PendingTgDeleteRow}
use telezon_s.Tables.Refs.{count_message_id_refs}
use telezon_s.Telegram.{Storage, DeletesOne}
use telezon_s.Telegram.World.{World}
use telezon_s.Telegram.Deletes.{
  enqueue_pending_tg_delete, safe_delete_tg_message, retry_row, retry_rows,
}

-- the queue holds no references
count-enqueue :
    (db : Db) (mid : ℕ) (chat : Option String) (reason : String) (m : ℕ)
    → count_message_id_refs (enqueue_pending_tg_delete db mid chat reason) m
      ≡ count_message_id_refs db m
unfolding enqueue_pending_tg_delete count_message_id_refs
count-enqueue db mid chat reason m = ground arith

module _ (S : Storage) where
  pub count-safe_delete_tg_message :
      (w : World S) (b : Bool) (mid : Option ℕ) (chat : Option String) (reason : String) (m : ℕ)
      → count_message_id_refs (safe_delete_tg_message S w b mid chat reason).1.db m
        ≡ count_message_id_refs w.db m
  unfolding safe_delete_tg_message
  count-safe_delete_tg_message w b none chat reason m = refl
  count-safe_delete_tg_message w b (some mid) chat reason m =
      ground (arith, count-enqueue w.db mid chat reason m)

  count-retry_row :
      (w : World S) (row : PendingTgDeleteRow) (m : ℕ)
      → count_message_id_refs (retry_row S w row).1.db m ≡ count_message_id_refs w.db m
  unfolding retry_row count_message_id_refs
  count-retry_row w row m = ground arith

  pub count-retry_rows :
      (w : World S) (rows : List PendingTgDeleteRow) (m : ℕ)
      → count_message_id_refs (retry_rows S w rows).1.db m ≡ count_message_id_refs w.db m
  unfolding retry_rows
  count-retry_rows w [] m = refl
  count-retry_rows w (row ∷ rows) m =
      count-retry_rows (retry_row S w row).1 rows m ∙ count-retry_row w row m

  module _ (L : DeletesOne S) (c : Option String) (m : ℕ) where
    pub safe_delete_spares :
        (w : World S) (mid : Option ℕ) (chat : Option String) (reason : String)
        → 0 < count_message_id_refs w.db m
        → L.holds (safe_delete_tg_message S w true mid chat reason).1.tg c m ≡ L.holds w.tg c m
    unfolding safe_delete_tg_message
    safe_delete_spares w none chat reason used = refl
    safe_delete_spares w (some mid) chat reason used = ground (arith, L.spares w.tg mid chat c m)

    retry_row_spares :
        (w : World S) (row : PendingTgDeleteRow)
        → 0 < count_message_id_refs w.db m
        → L.holds (retry_row S w row).1.tg c m ≡ L.holds w.tg c m
    unfolding retry_row
    retry_row_spares w row used = ground (arith, L.spares w.tg row.message_id row.chat_id c m)

    pub retry_rows_spares :
        (w : World S) (rows : List PendingTgDeleteRow)
        → 0 < count_message_id_refs w.db m
        → L.holds (retry_rows S w rows).1.tg c m ≡ L.holds w.tg c m
    unfolding retry_rows
    retry_rows_spares w [] used = refl
    retry_rows_spares w (row ∷ rows) used = ground (
      arith,
      retry_rows_spares (retry_row S w row).1 rows,
      retry_row_spares w row,
      count-retry_row w row m,
    )
