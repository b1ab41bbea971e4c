-- ===== src/Objects/Failures.antt =====
-- A request that fails leaves the database as it was.
use telezon_s.Prelude.{
  suc, ◌≡◌, ◌≢◌, refl, Option, some, String, is_some, head?, ◌<>◌, if◌then◌else◌,
}
use telezon_s.Outcome.{Result, ok, err}
use telezon_s.Model.{Config, Db, BlobBase, Blob}
use telezon_s.Telegram.{Storage, PutFileResult}
use telezon_s.Telegram.World.{World, draw, next_id}
use telezon_s.Http.{Request, Response, Flow, next, reply, raise}
use telezon_s.Service.{Service, Answer, after, storage_error, serve}
use telezon_s.Tables.Blobs.{crud_create_blob, crud_get_all_blobs, at_key}
use telezon_s.Objects.Put.{
  record_object, finish_put, base_of, drafted, store_object, store_version, put_object, Staged,
  stage_object,
}

-- what `serve` leaves of a failed request
abbrev pub FailsClean : {S : Storage} → World S → Answer S → Type 0
FailsClean w answer = (serve w answer).0.status ≢ 200 → (serve w answer).1.db ≡ w.db

pub same_db_fails :
    {S : Storage} (start w : World S) (r : Result Response)
    → w.db ≡ start.db
    → FailsClean start (r, w)
unfolding serve
same_db_fails start w (ok r) same h = same
same_db_fails start w (err e) same h = refl

pub succeeds :
    {S : Storage} (start w : World S) (r : Response) → r.status ≡ 200 → FailsClean start (ok r, w)
unfolding serve
succeeds start w r fine h = absurd (h fine)

-- the guards refuse from a world with the database of the start
pub after_fails_from :
    {S : Storage} {A : Type 0} (start w : World S) (guards : Flow A) (go_on : A → Answer S)
    → w.db ≡ start.db
    → ((a : A) → FailsClean start (go_on a))
    → FailsClean start (after guards w go_on)
after_fails_from start w (next a) go_on same rest = rest a
after_fails_from start w (reply r) go_on same rest = same_db_fails start w (ok r) same
after_fails_from start w (raise e) go_on same rest = same_db_fails start w (err e) same

pub after_fails :
    {S : Storage} {A : Type 0} (start : World S) (guards : Flow A) (go_on : A → Answer S)
    → ((a : A) → FailsClean start (go_on a))
    → FailsClean start (after guards start go_on)
after_fails start guards go_on rest = after_fails_from start start guards go_on refl rest

module _ (E : Service) (cfg : Config) where
  finish_put_fails :
      (start w : World E.storage) (request : Request) (bucket_name key : String) (staged : Staged)
      (previous : Option Blob) (blob : BlobBase) (created : Result Db)
      → w.db ≡ start.db
      → FailsClean start (finish_put E cfg w request bucket_name key staged previous blob created)
  unfolding finish_put serve
  finish_put_fails start w request bucket_name key staged previous blob (err e) same h =
      same_db_fails start w (err e) same h
  finish_put_fails start w request bucket_name key staged previous blob (ok db) same h =
      absurd (h refl)

  record_object_fails :
      (start w : World E.storage) (request : Request) (bucket_name key : String) (staged : Staged)
      (previous : Option Blob) (draft : BlobBase) (put : Result PutFileResult × E.storage.State)
      → w.db ≡ start.db
      → FailsClean start (record_object E cfg w request bucket_name key staged previous draft put)
  unfolding record_object serve
  record_object_fails start w request bucket_name key staged previous draft (err e, s) same =
      same_db_fails start (record w { tg = s }) (storage_error e) same
  record_object_fails start w request bucket_name key staged previous draft (ok put, s) same =
      let blob = record draft { file = put.file_id; message_id = put.message_id } in
      finish_put_fails start (record w { tg = s }) request bucket_name key staged previous blob
        (crud_create_blob w.now w.db blob bucket_name (is_some previous)) same

  store_object_fails :
      (start w : World E.storage) (request : Request) (bucket_name key : String) (staged : Staged)
      → w.db ≡ start.db
      → FailsClean start (store_object E cfg w request bucket_name key staged)
  unfolding store_object store_version
  store_object_fails start w request bucket_name key staged same =
      let previous = head? (crud_get_all_blobs w.db (at_key bucket_name key)) in
      let opaque = cfg.tg_opaque_filenames in
      let base = base_of previous key in
      record_object_fails start (record w { drawn = if opaque then suc w.drawn else w.drawn })
        request bucket_name key staged previous
        (drafted request staged base (if opaque then some (next_id w) else base.storage_id))
        (E.storage.put_file staged.sealed.body (if opaque then next_id w <> ".bin" else key)
          staged.bucket.row.telegram_chat_id staged.bucket.row.telegram_topic_id w.tg)
        same

  -- A PUT whose answer, with an exception counted as a 500, is not 200 leaves the database as it was.
  pub put_object_fails :
      (request : Request) (bucket_name key : String) (w : World E.storage)
      → (serve w (put_object E cfg request bucket_name key w)).0.status ≢ 200
      → (serve w (put_object E cfg request bucket_name key w)).1.db ≡ w.db
  unfolding put_object
  put_object_fails request bucket_name key w =
      after_fails w (stage_object E cfg w request bucket_name key)
        (λ staged. store_object E cfg (draw w) request bucket_name key staged)
        (λ staged. store_object_fails w (draw w) request bucket_name key staged refl)
