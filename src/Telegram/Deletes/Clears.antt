-- ===== src/Telegram/Deletes/Clears.antt =====
-- A deletion that no row forbids is done, or is queued to be tried again.
use telezon_s.Prelude.{
  ℕ, ◌≡◌, refl, ◌⊎◌, Bool, true, false, Option, none, some, List, [], ◌∷◌, ◌++◌, String, arith, ltb,
  nat_eq, string_eq, eq_iff, if◌then◌else◌, Bool-cases, inl, inr, find, is_some,
}
use telezon_s.Outcome.{Result, ok, err}
use telezon_s.Model.{Db, PendingTgDeleteRow}
use telezon_s.Tables.Refs.{count_message_id_refs}
use telezon_s.Telegram.{Storage, DeletesOne}
use telezon_s.Telegram.World.{World}
use telezon_s.Telegram.Deletes.{
  chat_key, is_pending, touch_pending, enqueue_pending_tg_delete, delete_unreferenced,
  safe_delete_tg_message, granted,
}

abbrev pub queued : Db → ℕ → Option String → Bool
queued db mid chat = is_some (find (is_pending mid chat) db.pending)

find-append :
    (mid : ℕ) (chat : Option String) (rows : List PendingTgDeleteRow) (new : PendingTgDeleteRow)
    → is_some (find (is_pending mid chat) (rows ++ new ∷ []))
      ≡ (if is_some (find (is_pending mid chat) rows) then true else is_pending mid chat new)
find-append mid chat [] new = ground arith
find-append mid chat (row ∷ rows) new = ground (arith, find-append mid chat rows new)

find-touch :
    (mid m : ℕ) (chat c : Option String) (reason : String) (rows : List PendingTgDeleteRow)
    → is_some (find (is_pending m c) (touch_pending mid chat reason rows))
      ≡ is_some (find (is_pending m c) rows)
unfolding touch_pending
find-touch mid m chat c reason [] = refl
find-touch mid m chat c reason (row ∷ rows) = ground (arith, find-touch mid m chat c reason rows)

-- enqueuing keeps what is queued, and adds its own message
queued-enqueue :
    (db : Db) (mid : ℕ) (chat : Option String) (reason : String) (m : ℕ) (c : Option String)
    → (queued db m c ≡ true → queued (enqueue_pending_tg_delete db mid chat reason) m c ≡ true)
      × (queued (enqueue_pending_tg_delete db mid chat reason) mid chat ≡ true)
unfolding enqueue_pending_tg_delete
queued-enqueue db mid chat reason m c =
    let new : PendingTgDeleteRow = record {
      message_id = mid;
      chat_id = chat;
      reason = reason;
      attempts = 0;
    } in
    (
      ground (arith, find-append m c db.pending new, find-touch mid m chat c reason db.pending),
      ground (
        arith,
        find-append mid chat db.pending new,
        find-touch mid mid chat chat reason db.pending,
        eq_iff (chat_key chat) (chat_key chat),
      ),
    )

module _ (S : Storage) (L : DeletesOne S) where
  -- the message is gone, or waits in the queue
  abbrev pub Settled : World S → Option String → ℕ → Type 0
  Settled w c m = (L.holds w.tg c m ≡ false) ⊎ (queued w.db m c ≡ true)

  delete_unreferenced-keeps :
      (w : World S) (mid : ℕ) (chat : Option String) (reason : String) (c : Option String) (m : ℕ)
      → Settled w c m
      → Settled (delete_unreferenced S w true mid chat reason).1 c m
  unfolding delete_unreferenced
  delete_unreferenced-keeps w mid chat reason c m (inl gone) =
      ground (arith, L.never_revives w.tg mid chat c m)
  delete_unreferenced-keeps w mid chat reason c m (inr waits) =
      ground (arith, queued-enqueue w.db mid chat reason m c)

  granted-true : (r : Result Bool) → granted S r ≡ true → r ≡ ok true
  granted-true (ok true) h = refl
  granted-true (ok false) h = cc
  granted-true (err e) h = cc

  delete_unreferenced-settles :
      (w : World S) (mid : ℕ) (chat : Option String) (reason : String)
      → Settled (delete_unreferenced S w true mid chat reason).1 chat mid
  unfolding delete_unreferenced
  delete_unreferenced-settles w mid chat reason =
      let r = (S.delete_message mid chat w.tg).0 in
      ground (
        arith,
        L.deletes w.tg mid chat,
        granted-true r,
        queued-enqueue w.db mid chat reason mid chat,
      )

  pub safe_delete-keeps :
      (w : World S) (mid : Option ℕ) (chat : Option String) (reason : String) (c : Option String)
      (m : ℕ)
      → Settled w c m
      → Settled (safe_delete_tg_message S w true mid chat reason).1 c m
  unfolding safe_delete_tg_message
  safe_delete-keeps w none chat reason c m h = h
  safe_delete-keeps w (some mid) chat reason c m h =
      elim (Bool-cases (ltb 0 (count_message_id_refs w.db mid))) [
        | inl used ↦ rw used h
        | inr free ↦ rw free (delete_unreferenced-keeps w mid chat reason c m h)
      ]

  -- If a deletion in Telegram that answers true is done: for a message that no row refers to, after
  -- the deletion it is gone from the chat, or waits in the
  -- queue.
  pub safe_delete_settles :
      (w : World S) (mid : ℕ) (chat : Option String) (reason : String)
      → count_message_id_refs w.db mid ≡ 0
      → Settled (safe_delete_tg_message S w true (some mid) chat reason).1 chat mid
  unfolding safe_delete_tg_message
  safe_delete_settles w mid chat reason free =
      rw free (delete_unreferenced-settles w mid chat reason)
