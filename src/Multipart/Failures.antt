-- ===== src/Multipart/Failures.antt =====
-- A request to a multipart upload that fails.
use telezon_s.Prelude.{
  ℕ, ◌≡◌, ◌≢◌, refl, sym, ap, ◌∙◌, true, Option, none, some, List, [], ◌∷◌, String, any, nat_beq,
  Bool-cases, Option-cases, inl, inr, length, nat_eq, ◌==◌,
}
use telezon_s.Outcome.{Result, ok, err, Error}
use telezon_s.Model.{Config, Db, Bucket, BlobPart, MultipartPartRow}
use telezon_s.Telegram.{Storage, PutFileResult}
use telezon_s.Telegram.World.{World}
use telezon_s.Telegram.Deletes.{safe_delete_tg_message}
use telezon_s.Telegram.Deletes.Queue.{SameButPending, SameButPending-trans, safe_delete_pending}
use telezon_s.Http.{Request, Response, Flow, next, reply, raise}
use telezon_s.Http.Body.{Capped, fits, too_large, read_body_capped}
use telezon_s.Service.{Service, Answer, after, serve}
use telezon_s.Objects.Failures.{FailsClean, same_db_fails, after_fails, after_fails_from, succeeds}
use telezon_s.Multipart.Upload.{upload_part, admit_part, receive_part, confirm_part, record_part}
use telezon_s.Multipart.Staging.{unlink_part, write_part}
use telezon_s.Multipart.Albums.{
  Sent, Sending, send_albums, send_album, send_docs, receive_album, album_docs, then_send,
  rollback_sent_parts, nothing_sent,
}
use telezon_s.Multipart.Checks.{Completion, completion}
use telezon_s.Multipart.Complete.{
  complete_multipart_upload, complete_parts, after_albums, refused_album, album_error, assemble,
  store_completed, finish_completion, send_staged, is_legacy,
}

-- what `serve` leaves of a failed request
abbrev pub FailsPending : {S : Storage} → World S → Answer S → Type 0
FailsPending w answer = (serve w answer).0.status ≢ 200 → SameButPending w.db (serve w answer).1.db

module _ (S : Storage) where
  rollback_pending :
      (chat : Option String) (ps : List BlobPart) (seen : List ℕ) (w : World S)
      → SameButPending w.db (rollback_sent_parts S chat ps seen w).db
  unfolding rollback_sent_parts
  rollback_pending chat [] seen w = refl
  rollback_pending chat (p ∷ ps) seen w = elim (Option-cases p.message_id) [
    | inl e ↦ rw (e) (rollback_pending chat ps seen w)
    | inr (mid, e) ↦ elim (Bool-cases (any (λ m. m == mid) seen)) [
      | inl old ↦ simp (e, old) (rollback_pending chat ps seen w)
      | inr new ↦
          simp (e, new)
            (SameButPending-trans w.db _ _
              (safe_delete_pending S w (some mid) chat "multipart_complete_rollback")
              (rollback_pending chat ps (mid ∷ seen)
                (safe_delete_tg_message S w true (some mid) chat "multipart_complete_rollback").1))
    ]
  ]

  -- the loop over the albums works on the storage alone
  receive_album_db :
      (sent : Sent) (rows : List MultipartPartRow) (w : World S)
      (answer : Result (List PutFileResult) × S.State)
      → (receive_album S sent rows w answer).2.db ≡ w.db
  unfolding receive_album
  receive_album_db sent rows w (err e, s) = refl
  receive_album_db sent rows w (ok results, s) =
      elim (Bool-cases (nat_beq (length results) (length rows))) [
        | inl e ↦ rw (e) refl
        | inr e ↦ rw (e) refl
      ]

  module _ (chat : Option String) (topic : Option ℕ) (upload_id storage_id : String) where
    send_docs_db :
        (sent : Sent) (rows : List MultipartPartRow) (w : World S)
        (docs : Result (List (List ℕ × String)))
        → (send_docs S chat topic sent rows w docs).2.db ≡ w.db
    unfolding send_docs
    send_docs_db sent rows w (err e) = refl
    send_docs_db sent rows w (ok docs) =
        receive_album_db sent rows w (S.send_media_group docs chat topic w.tg)

    then_send_db :
        (chunks : List (List MultipartPartRow)) (w : World S) (sending : Sending S)
        → sending.2.db ≡ w.db
        → ((sent : Sent) (w' : World S)
            → (send_albums S chat topic upload_id storage_id sent chunks w').2.db ≡ w'.db)
        → (then_send S sending
            λ sent w'. send_albums S chat topic upload_id storage_id sent chunks w').2.db
          ≡ w.db
    then_send_db chunks w (some e, sent, w') same rest = same
    then_send_db chunks w (none, sent, w') same rest = rest sent w' ∙ same

    pub send_albums_db :
        (chunks : List (List MultipartPartRow)) (sent : Sent) (w : World S)
        → (send_albums S chat topic upload_id storage_id sent chunks w).2.db ≡ w.db
    unfolding send_albums send_album
    send_albums_db [] sent w = refl
    send_albums_db (rows ∷ chunks) sent w =
        then_send_db chunks w (send_album S chat topic upload_id storage_id sent rows w)
          (send_docs_db sent rows w (album_docs upload_id storage_id w.staged rows))
          (send_albums_db chunks)

module _ (E : Service) (cfg : Config) where
  FailsPending-clean :
      (start : World E.storage) (answer : Answer E.storage)
      → FailsClean start answer
      → FailsPending start answer
  FailsPending-clean start answer clean h =
      let same = clean h in
      same ∙ ap (λ (d : Db). record start.db { pending = d.pending }) (sym same)

  -- the answer of the end of the handler is 200 or an exception
  finish_completion_fails :
      (start w : World E.storage) (bucket_name key upload_id : String) (sent : Sent)
      (created : Result Db)
      → FailsClean start (finish_completion E cfg w bucket_name key upload_id sent created)
  unfolding finish_completion serve
  finish_completion_fails start w bucket_name key upload_id sent (err e) h = refl
  finish_completion_fails start w bucket_name key upload_id sent (ok db) h = absurd (h refl)

  assemble_fails :
      (start w : World E.storage) (request : Request) (bucket_name key : String) (c : Completion)
      (sent : Sent)
      → FailsPending start (assemble E cfg w request bucket_name key c sent)
  unfolding assemble store_completed
  assemble_fails start w request bucket_name key c sent =
      FailsPending-clean start _ (finish_completion_fails start _ bucket_name key _ sent _)

  refused_album_fails :
      (start w : World E.storage) (chat : Option String) (sent : Sent) (e : Error)
      (answer : Option Response)
      → w.db ≡ start.db
      → FailsPending start (refused_album E cfg w chat sent e answer)
  unfolding refused_album serve
  refused_album_fails start w chat sent e none same h = refl
  refused_album_fails start w chat sent e (some response) same h =
      SameButPending-trans start.db w.db _
        (same ∙ ap (λ (d : Db). record start.db { pending = d.pending }) (sym same))
        (rollback_pending E.storage chat sent.parts [] w)

  after_albums_fails :
      (start : World E.storage) (request : Request) (bucket_name key : String) (c : Completion)
      (sending : Sending E.storage)
      → sending.2.db ≡ start.db
      → FailsPending start (after_albums E cfg request bucket_name key c sending)
  unfolding after_albums
  after_albums_fails start request bucket_name key c (some e, sent, w) same =
      refused_album_fails start w c.bucket.row.telegram_chat_id sent e (album_error e) same
  after_albums_fails start request bucket_name key c (none, sent, w) same =
      assemble_fails start _ request bucket_name key c sent

  after_pending :
      {A : Type 0} (start : World E.storage) (guards : Flow A) (go_on : A → Answer E.storage)
      → ((a : A) → FailsPending start (go_on a))
      → FailsPending start (after guards start go_on)
  unfolding serve
  after_pending start (next a) go_on rest = rest a
  after_pending start (reply r) go_on rest = λ h. refl
  after_pending start (raise e) go_on rest = λ h. refl

  complete_parts_fails :
      (start : World E.storage) (request : Request) (bucket_name key : String) (c : Completion)
      → FailsPending start (complete_parts E cfg start request bucket_name key c)
  unfolding complete_parts send_staged
  complete_parts_fails start request bucket_name key c = elim (Bool-cases (is_legacy c.parts)) [
    | inl e ↦ rw (e) (assemble_fails start start request bucket_name key c _)
    | inr e ↦ rw (e) (
        after_albums_fails start request bucket_name key c (send_staged E cfg start c) (
          send_albums_db E.storage c.bucket.row.telegram_chat_id c.bucket.row.telegram_topic_id
            c.upload.upload_id c.upload.storage_id _ nothing_sent start))
  ]

  -- A completion whose answer, with an exception counted as a 500, is not 200 leaves the database
  -- as it was, but for the queue of the messages that are still to be deleted.
  pub complete_multipart_upload_fails :
      (request : Request) (bucket_name key upload_id : String) (w : World E.storage)
      → (serve w (complete_multipart_upload E cfg request bucket_name key upload_id w)).0.status
        ≢ 200
      → SameButPending w.db
          (serve w (complete_multipart_upload E cfg request bucket_name key upload_id w)).1.db
  unfolding complete_multipart_upload
  complete_multipart_upload_fails request bucket_name key upload_id w =
      after_pending w (completion E cfg w request bucket_name key upload_id)
        (λ c. complete_parts E cfg w request bucket_name key c)
        (complete_parts_fails w request bucket_name key)

  record_part_fails :
      (start w : World E.storage) (bucket : Bucket) (upload_id : String) (part_number : ℕ)
      (content : List ℕ)
      → FailsClean start (record_part E cfg w bucket upload_id part_number content)
  unfolding record_part
  record_part_fails start w bucket upload_id part_number content = succeeds start _ _ refl

  receive_part_fails :
      (start : World E.storage) (request : Request) (bucket : Bucket) (upload_id : String)
      (part_number : ℕ) (body : Capped)
      → FailsClean start (receive_part E cfg start request bucket upload_id part_number body)
  unfolding receive_part
  receive_part_fails start request bucket upload_id part_number (too_large size) =
      same_db_fails start (record start { staged = unlink_part upload_id part_number start.staged })
        _ refl
  receive_part_fails start request bucket upload_id part_number (fits content) =
      after_fails_from start
        (record start { staged = unlink_part upload_id part_number start.staged })
        (confirm_part E cfg start request bucket content) _ refl
        (λ _.
          record_part_fails start
            (record start { staged = write_part upload_id part_number content start.staged }) bucket
            upload_id part_number content)

  -- An upload of a part whose answer, with an exception counted as a 500, is not 200 leaves the
  -- database as it was.
  pub upload_part_fails :
      (request : Request) (bucket_name key upload_id : String) (part_number : ℕ)
      (w : World E.storage)
      → (serve w (upload_part E cfg request bucket_name key upload_id part_number w)).0.status ≢ 200
      → (serve w (upload_part E cfg request bucket_name key upload_id part_number w)).1.db ≡ w.db
  unfolding upload_part
  upload_part_fails request bucket_name key upload_id part_number w =
      after_fails w (admit_part E cfg w request bucket_name key upload_id part_number)
        (λ bucket.
          receive_part E cfg w request bucket upload_id part_number
            (read_body_capped request cfg.max_upload_bytes))
        (λ bucket.
          receive_part_fails w request bucket upload_id part_number
            (read_body_capped request cfg.max_upload_bytes))
