-- ===== src/Telegram/Deletes.antt =====
-- app/ops/tg_delete.py: deleting a message unless a row refers to it, with a queue for retries.
pub mod Spares
pub mod Clears
pub mod Queue
use telezon_s.Prelude.{
  ℕ, zero, suc, ◌+◌, Bool, true, false, ◌&&◌, Option, none, some, List, [], ◌∷◌, ◌++◌, String, ◌==◌,
  string_eq, nat_eq, if◌then◌else◌, find, take, ltb, is_some, eq_iff,
}
use telezon_s.Outcome.{Result, ok, err}
use telezon_s.Model.{Db, PendingTgDeleteRow}
use telezon_s.Tables.Refs.{count_message_id_refs}
use telezon_s.Telegram.{Storage}
use telezon_s.Telegram.World.{World}

-- `chat_id or ""`
abbrev pub chat_key : Option String → String
chat_key none = ""
chat_key (some chat) = chat

abbrev pub is_pending : ℕ → Option String → PendingTgDeleteRow → Bool
is_pending mid chat row = row.message_id == mid && chat_key row.chat_id == chat_key chat

unfoldable pub touch_pending :
    ℕ → Option String → String → List PendingTgDeleteRow → List PendingTgDeleteRow
touch_pending mid chat reason [] = []
touch_pending mid chat reason (row ∷ rows) =
    let rest = touch_pending mid chat reason rows in
    if is_pending mid chat row then record row { reason = reason } ∷ rows else row ∷ rest

-- The reasons that the program gives are shorter than the 200 characters it cuts them to.
unfoldable pub enqueue_pending_tg_delete : Db → ℕ → Option String → String → Db
unfolding touch_pending
enqueue_pending_tg_delete db mid chat reason =
    if is_some (find (is_pending mid chat) db.pending)
    then record db { pending = touch_pending mid chat reason db.pending }
    else record db {
      pending =
          db.pending
          ++ (record { message_id = mid; chat_id = chat; reason = reason; attempts = 0 }) ∷ [];
    }

module _ (S : Storage) where
  -- the exception of a deletion counts as a refusal
  abbrev pub granted : Result Bool → Bool
  granted (ok b) = b
  granted (err e) = false

  -- With no database session the references are not looked up and nothing is queued.
  unfoldable pub delete_unreferenced : World S → Bool → ℕ → Option String → String → Bool × World S
  unfolding enqueue_pending_tg_delete
  delete_unreferenced w with_db mid chat reason =
      let (r, tg) = S.delete_message mid chat w.tg in
      if granted r
      then (true, record w { tg = tg })
      else if with_db
      then (false, record w { tg = tg; db = enqueue_pending_tg_delete w.db mid chat reason })
      else (false, record w { tg = tg })

  unfoldable pub safe_delete_tg_message :
      World S → Bool → Option ℕ → Option String → String → Bool × World S
  unfolding delete_unreferenced
  safe_delete_tg_message w with_db none chat reason = (true, w)
  safe_delete_tg_message w with_db (some mid) chat reason =
      if with_db && ltb 0 (count_message_id_refs w.db mid)
      then (true, w)
      else delete_unreferenced w with_db mid chat reason

  unfoldable pub remove_pending :
      PendingTgDeleteRow → List PendingTgDeleteRow → List PendingTgDeleteRow
  remove_pending row [] = []
  remove_pending row (r ∷ rs) =
      let rest = remove_pending row rs in
      if is_pending row.message_id row.chat_id r then rs else r ∷ rest

  unfoldable pub count_attempt :
      PendingTgDeleteRow → List PendingTgDeleteRow → List PendingTgDeleteRow
  count_attempt row [] = []
  count_attempt row (r ∷ rs) =
      let rest = count_attempt row rs in
      if is_pending row.message_id row.chat_id r
      then record r { attempts = r.attempts + 1 } ∷ rs
      else r ∷ rest

  abbrev set_pending : World S → List PendingTgDeleteRow → World S
  set_pending w rows = record w { db = record w.db { pending = rows } }

  -- one round of the loop: whether the row was cleared, and the state
  unfoldable pub retry_row : World S → PendingTgDeleteRow → Bool × World S
  unfolding remove_pending count_attempt
  retry_row w row =
      if ltb 0 (count_message_id_refs w.db row.message_id)
      then (true, set_pending w (remove_pending row w.db.pending))
      else let (r, tg) = S.delete_message row.message_id row.chat_id w.tg in
        if granted r
        then (true, set_pending (record w { tg = tg }) (remove_pending row w.db.pending))
        else (false, set_pending (record w { tg = tg }) (count_attempt row w.db.pending))

  unfoldable pub retry_rows : World S → List PendingTgDeleteRow → ℕ × World S
  unfolding retry_row
  retry_rows w [] = (0, w)
  retry_rows w (row ∷ rows) =
      let (done, w') = retry_row w row in
      let (cleared, w'') = retry_rows w' rows in (if done then cleared + 1 else cleared, w'')

  unfoldable pub retry_pending_tg_deletes : World S → ℕ → ℕ × World S
  unfolding retry_rows
  retry_pending_tg_deletes w limit = retry_rows w (take limit w.db.pending)
