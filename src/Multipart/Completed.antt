-- ===== src/Multipart/Completed.antt =====
-- `complete_multipart_upload` with a key that has no object: its answer 200 means that the parts are
-- there to be read.
use mathlib.Core.Path.{subst}
use telezon_s.Prelude.{
  ℕ, ◌<◌, ◌≡◌, ◌≢◌, refl, sym, ap, ◌∙◌, Bool, false, true, Option, none, some, List, [], ◌∷◌,
  String, string_eq, arith, length, is_empty, head?, sum_of, select, Bool-cases, inl, inr,
}
use telezon_s.Outcome.{
  ok, Error, throttle, unavailable, object_gone, os_error, value_error, integrity_error, no_result,
  not_supported, sse_error, other, http,
}
use telezon_s.Model.{Config, Db, Blob, Bucket, MultipartPartRow}
use telezon_s.Model.Lookup.{crud_get_bucket_by_name}
use telezon_s.Telegram.World.{World}
use telezon_s.Telegram.Deletes.{safe_delete_tg_message}
use telezon_s.Http.{Request, Response, next, s3_error_response, bind-next, some_or-next}
use telezon_s.Tables.Blobs.{crud_create_blob, crud_get_blob_in_bucket, crud_get_all_blobs, at_key}
use telezon_s.Tables.Blobs.Keys.{IsPlain, head-crud_get_all_blobs}
use telezon_s.Tables.Blobs.Writes.{UniqueKeys}
use telezon_s.Tables.Uploads.{crud_list_parts, sort_by_number}
use telezon_s.Service.{Service, Answer}
use telezon_s.Objects.{load_bucket_or_404}
use telezon_s.Objects.Recorded.{Readable}
use telezon_s.Multipart.{StagedFiles, delete_part_messages, named_upload, remove_upload_staging}
use telezon_s.Multipart.Checks.{Completion, completion, completion_request, select_parts}
use telezon_s.Multipart.Chunks.{chunks_of_covers}
use telezon_s.Multipart.Albums.{Sent, Sending, nothing_sent, chunks_of}
use telezon_s.Multipart.Complete.{
  finish_completion, completed_blob, size_of, assemble, store_completed, cleanup_existing_blob,
  retire_found, refused_album, album_error, after_albums, send_staged, complete_parts, is_legacy,
  unused_parts, complete_multipart_upload,
}
use telezon_s.Multipart.Kept.{
  KeepsAlbums, PartsHeld, content_of, numbered, numbers, Delivered, send_albums-Delivered,
}
use telezon_s.Multipart.Order.{
  IsAscending, AllSized, contents, sizes-contents, sort_by_number-IsAscending,
  sort_by_number-AllSized,
}
use telezon_s.Multipart.RoundTrip.{finish_completion-Readable}

module _ (E : Service) (cfg : Config) where
  -- no row of the upload refers to a message: so it is for every part that `upload_part` has recorded
  abbrev pub AllUnsent : List MultipartPartRow → Type 0
  AllUnsent [] = Unit {0}
  AllUnsent (p ∷ ps) = (p.message_id ≡ none) × AllUnsent ps

  AllUnsent-select :
      (f : MultipartPartRow → Bool) (ps : List MultipartPartRow)
      → AllUnsent ps
      → AllUnsent (select f ps)
  AllUnsent-select f [] h = tt
  AllUnsent-select f (p ∷ ps) h = elim (Bool-cases (f p)) [
    | inl e ↦ rw (e) (h.0, AllUnsent-select f ps h.1)
    | inr e ↦ rw (e) (AllUnsent-select f ps h.1)
  ]

  delete_part_messages_none :
      (chat : Option String) (reason : String) (ps : List MultipartPartRow) (w : World E.storage)
      → AllUnsent ps
      → delete_part_messages E cfg chat reason ps w ≡ w
  unfolding delete_part_messages safe_delete_tg_message
  delete_part_messages_none chat reason [] w h = refl
  delete_part_messages_none chat reason (p ∷ ps) w h =
      rw (h.0) (delete_part_messages_none chat reason ps w h.1)

  head_none : (blobs : List Blob) → head? blobs ≡ none → is_empty blobs ≡ true
  head_none [] h = refl
  head_none (b ∷ bs) h = absurd (ground arith)

  -- with no object at the key and no messages to delete, the object is recorded at once
  assemble_fresh :
      (w : World E.storage) (request : Request) (bucket key : String) (c : Completion) (sent : Sent)
      → AllUnsent (crud_list_parts w.db c.upload.upload_id)
      → head? (crud_get_all_blobs w.db (at_key bucket key)) ≡ none
      → assemble E cfg w request bucket key c sent
        ≡ finish_completion E cfg w bucket key c.upload.upload_id sent
            (crud_create_blob w.now w.db (completed_blob c key sent) bucket false)
  unfolding assemble store_completed cleanup_existing_blob retire_found
  assemble_fresh w request bucket key c sent unsent fresh =
      let all = crud_list_parts w.db c.upload.upload_id in
      let kept =
        delete_part_messages_none c.bucket.row.telegram_chat_id "multipart_unused_part"
          (unused_parts c.parts all) w (AllUnsent-select _ all unsent) in
      rw (kept) (rw (fresh, head_none (crud_get_all_blobs w.db (at_key bucket key)) fresh) refl)

  -- an album that was not sent is not answered with 200
  refused_album_lem :
      (w : World E.storage) (chat : Option String) (sent : Sent) (e : Error) (response : Response)
      → (refused_album E cfg w chat sent e (album_error e)).0 ≡ ok response
      → response.status ≢ 200
  unfolding refused_album
  refused_album_lem w chat sent throttle response h fine = ground arith
  refused_album_lem w chat sent unavailable response h fine = ground arith
  refused_album_lem w chat sent os_error response h fine = ground arith
  refused_album_lem w chat sent value_error response h fine = ground arith
  refused_album_lem w chat sent object_gone response h fine = ground arith
  refused_album_lem w chat sent integrity_error response h fine = ground arith
  refused_album_lem w chat sent no_result response h fine = ground arith
  refused_album_lem w chat sent not_supported response h fine = ground arith
  refused_album_lem w chat sent sse_error response h fine = ground arith
  refused_album_lem w chat sent other response h fine = ground arith
  refused_album_lem w chat sent (http status) response h fine = ground arith

  completion_bucket :
      (w : World E.storage) (request : Request) (bucket key upload_id : String) (c : Completion)
      → completion E cfg w request bucket key upload_id ≡ next c
      → crud_get_bucket_by_name w.db bucket ≡ some c.bucket
  unfolding completion load_bucket_or_404
  completion_bucket w request bucket key upload_id c h =
      let (upload, named, h1) = bind-next (named_upload w.db upload_id bucket key) h in
      let (b, found, h2) = bind-next (load_bucket_or_404 w.db bucket) h1 in
      let (wanted, asked, h3) = bind-next (completion_request E cfg w request b) h2 in
      let (parts, chosen, h4) = bind-next (select_parts cfg w.db upload_id wanted) h3 in
      some_or-next (crud_get_bucket_by_name w.db bucket) (s3_error_response 404 "NoSuchBucket")
        found
      ∙ ap some (ground arith)

module _ (E : Service) (cfg : Config) (laws : KeepsAlbums E.storage cfg.cid) (bucket key : String)
    (plain_bucket : IsPlain bucket) (plain_key : IsPlain key) where
  nothing_there :
      (db : Db) (b : Bucket)
      → crud_get_bucket_by_name db bucket ≡ some b
      → crud_get_blob_in_bucket db bucket key ≡ none
      → head? (crud_get_all_blobs db (at_key bucket key)) ≡ none
  nothing_there db b known fresh =
      head-crud_get_all_blobs db bucket b known key plain_bucket plain_key ∙ rw (fresh) refl

  module _ (c : Completion) (request : Request) (start : World E.storage)
      (unique : UniqueKeys start.db.blobs)
      (known : crud_get_bucket_by_name start.db bucket ≡ some c.bucket)
      (fresh : crud_get_blob_in_bucket start.db bucket key ≡ none)
      (unsent : AllUnsent E cfg (crud_list_parts start.db c.upload.upload_id)) where
    assemble-Readable :
        (w : World E.storage) (sent : Sent) (files : StagedFiles) (response : Response)
        → w.db ≡ start.db
        → PartsHeld c.upload.upload_id files E.storage cfg.cid laws c.bucket.row.telegram_chat_id
            w.tg sent.parts
        → IsAscending (numbered sent.parts)
        → AllSized (content_of c.upload.upload_id files) (numbered sent.parts)
        → 0 < sum_of size_of sent.parts
        → (assemble E cfg w request bucket key c sent).0 ≡ ok response
        → Readable E cfg
            (assemble E cfg w request bucket key c sent).1
            bucket
            key
            (contents (content_of c.upload.upload_id files) (numbered sent.parts))
    assemble-Readable w sent files response same held asc sized pos h =
        let back = sym same in
        let at_once =
          assemble_fresh E cfg w request bucket key c sent
            (subst (λ db. AllUnsent E cfg (crud_list_parts db c.upload.upload_id)) back unsent)
            (subst (λ db. head? (crud_get_all_blobs db (at_key bucket key)) ≡ none) back
              (nothing_there start.db c.bucket known fresh)) in
        subst
          (λ (a : Answer E.storage).
            Readable E cfg a.1 bucket key
              (contents (content_of c.upload.upload_id files) (numbered sent.parts)))
          (sym at_once)
          (finish_completion-Readable E cfg laws bucket key plain_bucket plain_key w c sent files
            (crud_create_blob w.now w.db (completed_blob c key sent) bucket false) response refl
            (subst (λ db. UniqueKeys db.blobs) back unique)
            (subst (λ db. crud_get_bucket_by_name db bucket ≡ some c.bucket) back known) held asc
            sized pos (sym (ap (λ a. a.0) at_once) ∙ h))

    after_albums-Readable :
        (pairs : List (ℕ × ℕ)) (sending : Sending E.storage) (response : Response)
        → Delivered c.upload.upload_id start.staged E.storage cfg.cid laws
            c.bucket.row.telegram_chat_id start pairs sending
        → IsAscending pairs
        → AllSized (content_of c.upload.upload_id start.staged) pairs
        → 0 < length (contents (content_of c.upload.upload_id start.staged) pairs)
        → (after_albums E cfg request bucket key c sending).0 ≡ ok response
        → response.status ≡ 200
        → Readable E cfg
            (after_albums E cfg request bucket key c sending).1
            bucket
            key
            (contents (content_of c.upload.upload_id start.staged) pairs)
    unfolding after_albums
    after_albums-Readable pairs (some e, sent, w) response d asc sized pos h fine =
        absurd (refused_album_lem E cfg w c.bucket.row.telegram_chat_id sent e response h fine)
    after_albums-Readable pairs (none, sent, w) response (held, equal, only) asc sized pos h fine =
        let files = start.staged in
        let content = content_of c.upload.upload_id files in
        let back = sym equal in
        let sized' = subst (AllSized content) back sized in
        let w' : World E.storage = record w {
          staged = remove_upload_staging cfg c.upload.upload_id w.staged;
        } in
        subst
          (λ l.
            Readable E cfg (assemble E cfg w' request bucket key c sent).1 bucket key
              (contents content l))
          equal
          (assemble-Readable w' sent files response (ap (λ (u : World E.storage). u.db) only) held
            (subst IsAscending back asc) sized'
            (omega (
              arith,
              sizes-contents content sent.parts sized',
              pos,
              ap (λ l. length (contents content l)) equal,
            ))
            h)

  -- Where the storage keeps the albums it answers for and hands their files out to who names the
  -- chat they were sent to, which is the setting's if the bucket names none: a completion that passes its checks, of
  -- parts that are staged with the sizes on record, whose upload has sent no messages, for a bucket
  -- name and a key that are not blank, have no comma, and name no object: if the contents are not
  -- all empty and the answer is 200, the object is found, and its size and the bytes that are
  -- loaded are those of the staged parts joined in the order of their numbers.
  pub complete_multipart_upload-Readable :
      (w : World E.storage) (request : Request) (upload_id : String) (c : Completion)
      (response : Response)
      → UniqueKeys w.db.blobs
      → crud_get_blob_in_bucket w.db bucket key ≡ none
      → completion E cfg w request bucket key upload_id ≡ next c
      → is_legacy c.parts ≡ false
      → AllUnsent E cfg (crud_list_parts w.db c.upload.upload_id)
      → AllSized (content_of c.upload.upload_id w.staged) (numbers c.parts)
      → 0 < cfg.tg_album_max_items
      → 0
        < length
            (contents (content_of c.upload.upload_id w.staged) (numbers (sort_by_number c.parts)))
      → (complete_multipart_upload E cfg request bucket key upload_id w).0 ≡ ok response
      → response.status ≡ 200
      → Readable E cfg
          (complete_multipart_upload E cfg request bucket key upload_id w).1
          bucket
          key
          (contents (content_of c.upload.upload_id w.staged) (numbers (sort_by_number c.parts)))
  unfolding complete_multipart_upload complete_parts send_staged
  complete_multipart_upload-Readable w request upload_id c response unique fresh passed staged
        unsent sized items pos h fine =
      let parts = sort_by_number c.parts in
      let covers = chunks_of_covers cfg.tg_album_max_items parts items in
      let delivered =
        send_albums-Delivered c.upload.upload_id w.staged E.storage cfg.cid laws
          c.bucket.row.telegram_chat_id c.bucket.row.telegram_topic_id c.upload.storage_id
          (chunks_of (length parts) cfg.tg_album_max_items parts) w nothing_sent refl tt in
      rw (passed, staged)
        (after_albums-Readable c request w unique
          (completion_bucket E cfg w request bucket key upload_id c passed) fresh unsent
          (numbers parts) (send_staged E cfg w c) response (rw (covers.0) at delivered)
          (sort_by_number-IsAscending c.parts)
          (sort_by_number-AllSized (content_of c.upload.upload_id w.staged) c.parts sized) pos
          (rw (passed, staged) at h) fine)
