-- ===== src/Objects/Recorded.antt =====
-- What is read of an object once its file and its row are recorded.
use telezon_s.Prelude.{
  ℕ, ◌≡◌, ◌≢◌, refl, sym, ap, ◌∙◌, false, Option, none, some, List, [], ◌∷◌, String, string_eq,
  arith, eq_iff, Bool-cases, inl, inr, is_some, length,
}
use telezon_s.Outcome.{
  Result, ok, err, Error, throttle, unavailable, object_gone, os_error, value_error,
  integrity_error, no_result, not_supported, sse_error, other, http,
}
use telezon_s.Model.{Config, Db, BlobBase, Blob, BlobRow}
use telezon_s.Model.Lookup.{crud_get_bucket_by_name}
use telezon_s.Telegram.{Storage, PutFileResult, chat_of, named}
use telezon_s.Telegram.World.{World}
use telezon_s.Http.{Request, Response, next}
use telezon_s.Cache.{cache_get, cache_delete, delete_entry, lookup, pop, entry_key}
use telezon_s.Tables.Blobs.{crud_create_blob, crud_get_blob_in_bucket}
use telezon_s.Tables.Blobs.Keys.{IsPlain, head-crud_get_all_blobs, as_blob}
use telezon_s.Tables.Blobs.Writes.{UniqueKeys, crud_create_blob_lem, base_in}
use telezon_s.Service.{Service, storage_error}
use telezon_s.Objects.Put.{record_object, finish_put, Staged, retire_previous}
use telezon_s.BlobIo.{blob_telegram_chat_id, resolve_telegram_chat_id, text_or_none}
use telezon_s.Objects.Get.{find_blob, load_object_bytes, use_file}

-- What the storage promises of a file that it has accepted: it hands the bytes out again to who names
-- the message together with the chat that it was put into, which is `home` if none was named.
pub record Keeps (S : Storage) (home : Option String) : Type 0 where
  pub put_get :
      (content : List ℕ) (label : String) (chat : Option String) (topic : Option ℕ) (s : S.State)
      (r : PutFileResult)
      → (S.put_file content label chat topic s).0 ≡ ok r
      → (S.get_file r.file_id
          (chat_of home chat)
          r.message_id
          (S.put_file content label chat topic s).1).0
        ≡ ok content

text_or_none-named : (o : Option String) → text_or_none o ≡ named o
text_or_none-named none = refl
text_or_none-named (some String.[]) = refl
text_or_none-named (some (String.◌∷◌ c s)) = refl

resolve-chat_of :
    (cfg : Config) (chat : Option String) → resolve_telegram_chat_id cfg chat ≡ chat_of cfg.cid chat
unfolding resolve_telegram_chat_id
resolve-chat_of cfg none = text_or_none-named cfg.cid
resolve-chat_of cfg (some String.[]) = text_or_none-named cfg.cid
resolve-chat_of cfg (some (String.◌∷◌ c s)) = refl

-- an object is fetched from the chat that its bucket's files are put into
pub blob_chat_lem :
    (cfg : Config) (blob : Blob)
    → blob_telegram_chat_id cfg blob ≡ chat_of cfg.cid blob.bucket.telegram_chat_id
unfolding blob_telegram_chat_id
blob_chat_lem cfg blob = resolve-chat_of cfg blob.bucket.telegram_chat_id

lookup-pop : (k : String) (files : List (String × List ℕ)) → lookup k (pop k files) ≡ none
unfolding lookup pop
lookup-pop k [] = refl
lookup-pop k ((j, content) ∷ files) = ground (arith, lookup-pop k files)

-- a storage that refuses a file is not answered with 200
refused_put :
    (e : Error) (response : Response) → storage_error e ≡ ok response → response.status ≢ 200
refused_put throttle response h fine = ground arith
refused_put unavailable response h fine = ground arith
refused_put object_gone response h fine = ground arith
refused_put os_error response h fine = ground arith
refused_put value_error response h fine = ground arith
refused_put integrity_error response h fine = ground arith
refused_put no_result response h fine = ground arith
refused_put not_supported response h fine = ground arith
refused_put sse_error response h fine = ground arith
refused_put other response h fine = ground arith
refused_put (http status) response h fine = ground arith

module _ (E : Service) (cfg : Config) where
  uncached :
      (w : World E.storage) (bucket key : String)
      → cache_get cfg (cache_delete cfg w.cache bucket key) bucket key ≡ none
  unfolding cache_get cache_delete delete_entry
  uncached w bucket key = ground (arith, lookup-pop (entry_key bucket key) w.cache.files)

  use_file_plain :
      (w : World E.storage) (blob : Blob) (bucket key : String) (content : List ℕ)
      (fetched : Result (List ℕ) × E.storage.State)
      → blob.base.encrypted ≡ false
      → fetched.0 ≡ ok content
      → (use_file E cfg w blob bucket key none none fetched).0 ≡ ok (content, false)
  unfolding use_file
  use_file_plain w blob bucket key content (err e, s) plain h = absurd (ground arith)
  use_file_plain w blob bucket key content (ok got, s) plain h = ground arith

  -- a file that the cache does not have is read from the storage
  load_fetched :
      (w : World E.storage) (blob : Blob) (bucket key : String) (content : List ℕ)
      → blob.base.parts ≡ []
      → blob.base.encrypted ≡ false
      → cache_get cfg w.cache bucket key ≡ none
      → (E.storage.get_file blob.base.file
          (chat_of cfg.cid blob.bucket.telegram_chat_id)
          blob.base.message_id
          w.tg).0
        ≡ ok content
      → (load_object_bytes E cfg w blob bucket key none none).0 ≡ ok (content, false)
  unfolding load_object_bytes
  load_fetched w blob bucket key content p e c g =
      simp (p, e, c)
        (use_file_plain w blob bucket key content
          (E.storage.get_file blob.base.file (blob_telegram_chat_id cfg blob) blob.base.message_id
            w.tg)
          e (rw (blob_chat_lem cfg blob) g))

  abbrev written : Db → Result Db → Db
  written db (ok db') = db'
  written db (err e) = db

  -- only a write of the object itself changes what the bucket's lookups see
  pub bucket_kept :
      (now : ℕ) (db db' : Db) (blob : BlobBase) (bucket : String)
      → crud_create_blob now db blob bucket false ≡ ok db'
      → crud_get_bucket_by_name db' bucket ≡ crud_get_bucket_by_name db bucket
  unfolding crud_create_blob crud_get_bucket_by_name
  bucket_kept now db db' blob bucket h =
      let outcome = λ (r : Result Db). crud_get_bucket_by_name (written db r) bucket in
      elim (Bool-cases (is_some (crud_get_blob_in_bucket db bucket blob.path))) [
        | inl e ↦ absurd (ground arith)
        | inr e ↦ sym (ap outcome (rw (e) at h))
      ]

  pub row_of :
      (row : Option BlobRow) (blob : BlobBase)
      → base_in row ≡ some blob
      → (r : BlobRow) × (row ≡ some r) × (r.base ≡ blob)
  row_of none blob h = absurd (ground arith)
  row_of (some r) blob h = (r, refl, ground arith)

  -- what a reader finds
  pub record Readable (w : World E.storage) (bucket key : String) (content : List ℕ) : Type 0 where
    pub blob : Blob
    pub found : find_blob E cfg w.db bucket key ≡ next blob
    pub size : blob.base.size ≡ length content
    pub loaded : (load_object_bytes E cfg w blob bucket key none none).0 ≡ ok (content, false)

  module _ (laws : Keeps E.storage cfg.cid) (bucket key : String) (plain_bucket : IsPlain bucket)
      (plain_key : IsPlain key) where
    finish_put-Readable :
        (w : World E.storage) (request : Request) (staged : Staged) (blob : BlobBase)
        (content : List ℕ) (created : Result Db) (response : Response)
        → crud_create_blob w.now w.db blob bucket false ≡ created
        → blob.path ≡ key
        → UniqueKeys w.db.blobs
        → crud_get_bucket_by_name w.db bucket ≡ some staged.bucket
        → blob.parts ≡ []
        → blob.encrypted ≡ false
        → blob.size ≡ length content
        → (E.storage.get_file blob.file
            (chat_of cfg.cid staged.bucket.row.telegram_chat_id)
            blob.message_id
            w.tg).0
          ≡ ok content
        → (finish_put E cfg w request bucket key staged none blob created).0 ≡ ok response
        → Readable
            (finish_put E cfg w request bucket key staged none blob created).1
            bucket
            key
            content
    unfolding finish_put retire_previous find_blob
    finish_put-Readable w request staged blob content (err e) response made at unique known p e' n g
          h =
        absurd (ground arith)
    finish_put-Readable w request staged blob content (ok db) response made at unique known p e' n g
          h =
        let put_there = crud_create_blob_lem w.now w.db db blob bucket false unique made in
        let (row, at_row, same) = row_of (crud_get_blob_in_bucket db bucket key) blob (
          ground (arith, put_there.1 bucket key, at, eq_iff bucket bucket, eq_iff blob.path key)) in
        let known' = bucket_kept w.now w.db db blob bucket made ∙ known in
        let seen =
          head-crud_get_all_blobs db bucket staged.bucket known' key plain_bucket plain_key in
        record {
          blob = as_blob db bucket staged.bucket known' row;
          found = rw (find_blob, seen, at_row) refl;
          size = ap (λ b. b.size) same ∙ n;
          loaded =
              load_fetched (record w { db = db; cache = cache_delete cfg w.cache bucket key })
                (as_blob db bucket staged.bucket known' row) bucket key content
                (ap (λ b. b.parts) same ∙ p) (ap (λ b. b.encrypted) same ∙ e')
                (uncached w bucket key) (rw (same) g);
        }

    pub record_object-Readable :
        (w : World E.storage) (request : Request) (staged : Staged) (draft : BlobBase)
        (content : List ℕ) (response : Response) (put : Result PutFileResult × E.storage.State)
        → draft.path ≡ key
        → UniqueKeys w.db.blobs
        → crud_get_bucket_by_name w.db bucket ≡ some staged.bucket
        → draft.parts ≡ []
        → draft.encrypted ≡ false
        → draft.size ≡ length content
        → ((r : PutFileResult)
            → put.0 ≡ ok r
            → (E.storage.get_file r.file_id
                (chat_of cfg.cid staged.bucket.row.telegram_chat_id)
                r.message_id
                put.1).0
              ≡ ok content)
        → (record_object E cfg w request bucket key staged none draft put).0 ≡ ok response
        → response.status ≡ 200
        → Readable
            (record_object E cfg w request bucket key staged none draft put).1
            bucket
            key
            content
    unfolding record_object
    record_object-Readable w request staged draft content response (err e, s) at unique known p e' n
          g h fine =
        absurd (refused_put e response h fine)
    record_object-Readable w request staged draft content response (ok put, s) at unique known p e'
          n g h fine =
        let blob = record draft { file = put.file_id; message_id = put.message_id } in
        finish_put-Readable (record w { tg = s }) request staged blob content
          (crud_create_blob w.now w.db blob bucket false) response refl at unique known p e' n
          (g put refl) h
