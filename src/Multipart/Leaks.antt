-- ===== src/Multipart/Leaks.antt =====
-- What aborting an upload does in Telegram.
use telezon_s.Prelude.{
  ℕ, ◌<◌, ◌≡◌, refl, ap, Bool, true, Option, some, List, [], ◌∷◌, String, ◌==◌, nat_eq, string_eq,
  arith, select, Option-cases, inl, inr,
}
use telezon_s.Model.{Config, Db, Bucket, MultipartPartRow}
use telezon_s.Tables.Refs.{count_message_id_refs, count_in_uploads, is_mid}
use telezon_s.Tables.Uploads.{
  crud_list_parts, crud_delete_multipart_upload, sort_by_number, insert_by_number,
}
use telezon_s.Telegram.World.{World}
use telezon_s.Telegram.Deletes.{safe_delete_tg_message}
use telezon_s.Http.{Request, next}
use telezon_s.Service.{Service}
use telezon_s.Multipart.{aborted, delete_part_messages, owned_upload, abort_multipart_upload}

-- the rows `rows` refer to the messages of the parts
abbrev ReferredIn : List MultipartPartRow → List MultipartPartRow → Type 0
ReferredIn rows [] = Unit
ReferredIn rows (p ∷ ps) =
    ((mid : ℕ) → p.message_id ≡ some mid → 0 < count_in_uploads rows mid) × ReferredIn rows ps

weaken :
    (x : MultipartPartRow) (rows ps : List MultipartPartRow)
    → ReferredIn rows ps
    → ReferredIn (x ∷ rows) ps
unfolding count_in_uploads
weaken x rows [] h = tt
weaken x rows (p ∷ ps) (here, there) =
    (λ mid e. let used = here mid e in ground (arith, used), weaken x rows ps there)

own_rows : (rows : List MultipartPartRow) → ReferredIn rows rows
unfolding count_in_uploads is_mid
own_rows [] = tt
own_rows (p ∷ rows) = (λ mid e. rw e (ground arith), weaken p rows rows (own_rows rows))

ReferredIn-select :
    (q : MultipartPartRow → Bool) (rows ps : List MultipartPartRow)
    → ReferredIn rows ps
    → ReferredIn rows (select q ps)
ReferredIn-select q rows [] h = tt
ReferredIn-select q rows (p ∷ ps) h = ground (arith, ReferredIn-select q rows ps)

ReferredIn-insert :
    (x : MultipartPartRow) (rows ps : List MultipartPartRow)
    → ((mid : ℕ) → x.message_id ≡ some mid → 0 < count_in_uploads rows mid)
    → ReferredIn rows ps
    → ReferredIn rows (insert_by_number x ps)
unfolding insert_by_number
ReferredIn-insert x rows [] here h = (here, tt)
ReferredIn-insert x rows (p ∷ ps) here h = ground (arith, ReferredIn-insert x rows ps here)

ReferredIn-sort :
    (rows ps : List MultipartPartRow) → ReferredIn rows ps → ReferredIn rows (sort_by_number ps)
unfolding sort_by_number
ReferredIn-sort rows [] h = tt
ReferredIn-sort rows (p ∷ ps) (here, there) =
    ReferredIn-insert p rows (sort_by_number ps) here (ReferredIn-sort rows ps there)

listed_referred :
    (db : Db) (upload_id : String) → ReferredIn db.parts (crud_list_parts db upload_id)
unfolding crud_list_parts
listed_referred db upload_id =
    ReferredIn-sort db.parts (select (λ p. p.upload_id == upload_id) db.parts)
      (ReferredIn-select (λ p. p.upload_id == upload_id) db.parts db.parts (own_rows db.parts))

module _ (E : Service) (cfg : Config) where
  used_message_stays :
      (w : World E.storage) (mid : ℕ) (chat : Option String) (reason : String)
      → 0 < count_in_uploads w.db.parts mid
      → (safe_delete_tg_message E.storage w true (some mid) chat reason).1 ≡ w
  unfolding safe_delete_tg_message count_message_id_refs
  used_message_stays w mid chat reason used = ground (arith, used)

  nothing_deleted :
      (chat : Option String) (reason : String) (ps : List MultipartPartRow) (w : World E.storage)
      → ReferredIn w.db.parts ps
      → delete_part_messages E cfg chat reason ps w ≡ w
  unfolding delete_part_messages safe_delete_tg_message
  nothing_deleted chat reason [] w h = refl
  nothing_deleted chat reason (p ∷ ps) w (here, there) = elim (Option-cases p.message_id) [
    | inl e ↦ rw e (nothing_deleted chat reason ps w there)
    | inr (mid, e) ↦
        rw (e, used_message_stays w mid chat reason (here mid e))
          (nothing_deleted chat reason ps w there)
  ]

  aborted_tg :
      (w : World E.storage) (chat : Option String) (upload_id : String)
      → ((aborted E cfg w chat upload_id).tg ≡ w.tg)
        × ((aborted E cfg w chat upload_id).db.pending ≡ w.db.pending)
  unfolding aborted crud_delete_multipart_upload
  aborted_tg w chat upload_id =
      let kept =
        nothing_deleted chat "multipart_abort" (crud_list_parts w.db upload_id) w
          (listed_referred w.db upload_id) in
      (ap (λ (v : World E.storage). v.tg) kept, ap (λ (v : World E.storage). v.db.pending) kept)

  -- Aborting an upload that passes its guards deletes nothing in Telegram and queues nothing: each
  -- message is looked up while the rows of the parts, which are dropped afterwards, refer to it.
  pub abort_deletes_nothing :
      (request : Request) (bucket_name key upload_id : String) (w : World E.storage)
      (bucket : Bucket)
      → owned_upload E cfg w request bucket_name key upload_id ≡ next bucket
      → ((abort_multipart_upload E cfg request bucket_name key upload_id w).1.tg ≡ w.tg)
        × ((abort_multipart_upload E cfg request bucket_name key upload_id w).1.db.pending
            ≡ w.db.pending)
  unfolding abort_multipart_upload
  abort_deletes_nothing request bucket_name key upload_id w bucket passed =
      rw (passed) (aborted_tg w bucket.row.telegram_chat_id upload_id)
