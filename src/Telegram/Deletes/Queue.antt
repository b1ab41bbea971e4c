-- ===== src/Telegram/Deletes/Queue.antt =====
-- A deletion changes the database in the queue of deletions alone.
use telezon_s.Prelude.{
  ℕ, ◌≡◌, refl, ap, ◌∙◌, true, Option, none, some, String, is_some, find, Bool-cases, inl, inr, ltb,
}
use telezon_s.Model.{Db}
use telezon_s.Telegram.{Storage}
use telezon_s.Telegram.World.{World}
use telezon_s.Telegram.Deletes.{
  safe_delete_tg_message, delete_unreferenced, enqueue_pending_tg_delete, is_pending, granted,
}
use telezon_s.Tables.Refs.{count_message_id_refs}

-- the database but for the queue of deletions
abbrev pub SameButPending : Db → Db → Type 0
SameButPending db db' = db' ≡ record db { pending = db'.pending }

pub SameButPending-trans :
    (db db' db'' : Db) → SameButPending db db' → SameButPending db' db'' → SameButPending db db''
SameButPending-trans db db' db'' h k = k ∙ ap (λ (d : Db). record d { pending = db''.pending }) h

module _ (S : Storage) where
  enqueue_pending_only :
      (db : Db) (mid : ℕ) (chat : Option String) (reason : String)
      → SameButPending db (enqueue_pending_tg_delete db mid chat reason)
  unfolding enqueue_pending_tg_delete
  enqueue_pending_only db mid chat reason =
      elim (Bool-cases (is_some (find (is_pending mid chat) db.pending))) [
        | inl e ↦ rw (e) refl
        | inr e ↦ rw (e) refl
      ]

  pub safe_delete_pending :
      (w : World S) (mid : Option ℕ) (chat : Option String) (reason : String)
      → SameButPending w.db (safe_delete_tg_message S w true mid chat reason).1.db
  unfolding safe_delete_tg_message delete_unreferenced
  safe_delete_pending w none chat reason = refl
  safe_delete_pending w (some mid) chat reason =
      elim (Bool-cases (ltb 0 (count_message_id_refs w.db mid))) [
        | inl e ↦ rw (e) refl
        | inr e ↦ elim (Bool-cases (granted S (S.delete_message mid chat w.tg).0)) [
          | inl g ↦ rw (e, g) refl
          | inr g ↦ rw (e, g) (enqueue_pending_only w.db mid chat reason)
        ]
      ]
