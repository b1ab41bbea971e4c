-- ===== src/Multipart/Recorded.antt =====
-- A part that was uploaded, and an upload that was aborted.
use telezon_s.Prelude.{
  ℕ, ◌≤◌, ◌≡◌, ◌<>◌, refl, ap, ◌∙◌, true, ◌&&◌, Option, none, some, List, [], ◌∷◌, ◌++◌, String,
  arith, eq_iff, ◌==◌, string_eq, nat_eq, if◌then◌else◌, find, length, is_some, Option-cases,
  Bool-cases, inl, inr, ltb,
}
use telezon_s.Outcome.{ok}
use telezon_s.Model.{Config, Db, Bucket, MultipartPartRow}
use telezon_s.Telegram.World.{World}
use telezon_s.Telegram.Deletes.{safe_delete_tg_message, delete_unreferenced, granted}
use telezon_s.Tables.Refs.{count_message_id_refs}
use telezon_s.Tables.Uploads.{crud_get_part, crud_upsert_part, replace_part, is_part}
use telezon_s.Http.{Request, next, plain}
use telezon_s.Http.Text.{show_nat}
use telezon_s.Http.Body.{Capped, fits, body_of, Decided, kept, refused, read_body_capped-Decided}
use telezon_s.Service.{Service}
use telezon_s.Multipart.Upload.{
  upload_part, admit_part, receive_part, confirm_part, record_part, new_part, delete_replaced,
}
use telezon_s.Multipart.Staging.{staged_part, staged_part-write_part, write_part}
use telezon_s.Telegram.Deletes.Queue.{SameButPending, safe_delete_pending}

abbrev found_as : MultipartPartRow → String → ℕ → Option MultipartPartRow → Option MultipartPartRow
found_as new u n old = if new.upload_id == u && new.part_number == n then some new else old

find-replace_part :
    (new : MultipartPartRow) (u : String) (n : ℕ) (parts : List MultipartPartRow)
    → is_some (find (is_part new.upload_id new.part_number) parts) ≡ true
    → find (is_part u n) (replace_part new parts) ≡ found_as new u n (find (is_part u n) parts)
unfolding replace_part
find-replace_part new u n [] h = absurd (ground arith)
find-replace_part new u n (p ∷ ps) h = ground (
  arith,
  eq_iff new.upload_id u,
  eq_iff p.upload_id u,
  eq_iff p.upload_id new.upload_id,
  find-replace_part new u n ps,
)

find-add_part :
    (new : MultipartPartRow) (u : String) (n : ℕ) (parts : List MultipartPartRow)
    → find (is_part new.upload_id new.part_number) parts ≡ none
    → find (is_part u n) (parts ++ new ∷ []) ≡ found_as new u n (find (is_part u n) parts)
find-add_part new u n [] h = refl
find-add_part new u n (p ∷ ps) h = ground (
  arith,
  eq_iff new.upload_id u,
  eq_iff p.upload_id u,
  eq_iff p.upload_id new.upload_id,
  find-add_part new u n ps,
)

-- The upsert of a part changes what is found at its number of its upload, and at no other place.
pub crud_upsert_part_lem :
    (db : Db) (new : MultipartPartRow) (u : String) (n : ℕ)
    → crud_get_part (crud_upsert_part db new).1 u n ≡ found_as new u n (crud_get_part db u n)
unfolding crud_upsert_part crud_get_part
crud_upsert_part_lem db new u n =
    elim (Option-cases (find (is_part new.upload_id new.part_number) db.parts)) [
      | inl e ↦ rw (crud_upsert_part, crud_get_part, e) (find-add_part new u n db.parts e)
      | inr (old, e) ↦
          rw (crud_upsert_part, crud_get_part, e)
            (find-replace_part new u n db.parts (ground arith))
    ]

Decided-kept :
    {max_bytes : ℕ} {whole : List ℕ} {body : Capped}
    → Decided max_bytes whole body
    → length whole ≤ max_bytes
    → body ≡ fits whole
Decided-kept (kept small) h = refl
Decided-kept (refused n over most) h = absurd (omega (arith, over, most, h))

-- the row of a part whose body is `content`: the MD5 digest as its ETag, the length as its size, and
-- no message yet
abbrev pub part_as_sent : Service → String → ℕ → List ℕ → MultipartPartRow
part_as_sent E upload_id part_number content = record {
  upload_id = upload_id;
  part_number = part_number;
  etag = "\"" <> E.md5_hex content <> "\"";
  size = length content;
  file_id = "";
  message_id = none;
  staging_path = some (upload_id <> "/part-" <> show_nat part_number);
}

module _ (E : Service) (cfg : Config) where
  parts_kept :
      (db db' : Db) (u : String) (n : ℕ)
      → SameButPending db db'
      → crud_get_part db' u n ≡ crud_get_part db u n
  unfolding crud_get_part
  parts_kept db db' u n same = ap (λ (d : Db). find (is_part u n) d.parts) same

  delete_replaced_pending :
      (w : World E.storage) (chat : Option String) (previous : Option MultipartPartRow)
      → SameButPending w.db (delete_replaced E cfg w chat previous).db
  unfolding delete_replaced
  delete_replaced_pending w chat none = refl
  delete_replaced_pending w chat (some previous) =
      safe_delete_pending E.storage w previous.message_id chat "multipart_part_replaced"

  pub safe_delete_staged :
      (w : World E.storage) (mid : Option ℕ) (chat : Option String) (reason : String)
      → (safe_delete_tg_message E.storage w true mid chat reason).1.staged ≡ w.staged
  unfolding safe_delete_tg_message delete_unreferenced
  safe_delete_staged w none chat reason = refl
  safe_delete_staged w (some mid) chat reason =
      elim (Bool-cases (ltb 0 (count_message_id_refs w.db mid))) [
        | inl e ↦ rw (e) refl
        | inr e ↦ elim (Bool-cases (granted E.storage (E.storage.delete_message mid chat w.tg).0)) [
          | inl g ↦ rw (e, g) refl
          | inr g ↦ rw (e, g) refl
        ]
      ]

  delete_replaced_staged :
      (w : World E.storage) (chat : Option String) (previous : Option MultipartPartRow)
      → (delete_replaced E cfg w chat previous).staged ≡ w.staged
  unfolding delete_replaced
  delete_replaced_staged w chat none = refl
  delete_replaced_staged w chat (some previous) =
      safe_delete_staged w previous.message_id chat "multipart_part_replaced"

  record_part_answer :
      (w : World E.storage) (bucket : Bucket) (upload_id : String) (part_number : ℕ)
      (content : List ℕ)
      → (record_part E cfg w bucket upload_id part_number content).0
        ≡ ok (plain 200 (("ETag", "\"" <> E.md5_hex content <> "\"") ∷ []))
  unfolding record_part new_part
  record_part_answer w bucket upload_id part_number content = refl

  record_part_lem :
      (w : World E.storage) (bucket : Bucket) (upload_id : String) (part_number : ℕ)
      (content : List ℕ) (u : String) (n : ℕ)
      → ((record_part E cfg w bucket upload_id part_number content).1.staged ≡ w.staged)
        × (crud_get_part (record_part E cfg w bucket upload_id part_number content).1.db u n
            ≡ found_as (part_as_sent E upload_id part_number content) u n (crud_get_part w.db u n))
  unfolding record_part new_part
  record_part_lem w bucket upload_id part_number content u n =
      let new = part_as_sent E upload_id part_number content in
      let (previous, db) = crud_upsert_part w.db new in
      let chat = bucket.row.telegram_chat_id in
      (
        delete_replaced_staged (record w { db = db }) chat previous,
        parts_kept db (delete_replaced E cfg (record w { db = db }) chat previous).db u n
              (delete_replaced_pending (record w { db = db }) chat previous)
            ∙ crud_upsert_part_lem w.db new u n,
      )

  -- An upload of a part that passes the checks before and behind its body, whose size is within
  -- the limit, is answered 200 with the MD5 digest of the body as the ETag. Behind it the file at the part's number of the
  -- upload has the body as its content, and the row there has that ETag, the body's size and
  -- no message; the files and the rows at other numbers and of other uploads are as they were.
  pub upload_part_lem :
      (request : Request) (bucket_name key upload_id : String) (part_number : ℕ)
      (w : World E.storage) (bucket : Bucket) (u : String) (n : ℕ)
      → admit_part E cfg w request bucket_name key upload_id part_number ≡ next bucket
      → length (body_of request.chunks) ≤ cfg.max_upload_bytes
      → confirm_part E cfg w request bucket (body_of request.chunks) ≡ next tt
      → ((upload_part E cfg request bucket_name key upload_id part_number w).0
          ≡ ok (plain 200 (("ETag", "\"" <> E.md5_hex (body_of request.chunks) <> "\"") ∷ [])))
        × (staged_part u n
              (upload_part E cfg request bucket_name key upload_id part_number w).1.staged
            ≡ (if upload_id == u && part_number == n
                then some (body_of request.chunks)
                else staged_part u n w.staged))
        × (crud_get_part
              (upload_part E cfg request bucket_name key upload_id part_number w).1.db
              u
              n
            ≡ found_as
                (part_as_sent E upload_id part_number (body_of request.chunks))
                u
                n
                (crud_get_part w.db u n))
  unfolding upload_part receive_part
  upload_part_lem request bucket_name key upload_id part_number w bucket u n admitted small
        confirmed =
      let body = body_of request.chunks in
      let whole = Decided-kept (read_body_capped-Decided request cfg.max_upload_bytes) small in
      let w' : World E.storage = record w {
        staged = write_part upload_id part_number body w.staged;
      } in
      let (staged, found) = record_part_lem w' bucket upload_id part_number body u n in
      rw (admitted, whole, confirmed)
        (
          record_part_answer w' bucket upload_id part_number body,
          ap (staged_part u n) staged
              ∙ staged_part-write_part upload_id u part_number n body w.staged,
          found,
        )
