-- ===== src/Tables/Uploads.antt =====
-- app/crud/multipart.py: the open multipart uploads and their parts. The random upload and
-- storage ids are arguments.
use telezon_s.Prelude.{
  ℕ, ◌+◌, max, min, Bool, ◌&&◌, ◌||◌, not, Option, none, some, List, [], ◌∷◌, ◌++◌, String, ◌==◌,
  string_eq, nat_eq, if◌then◌else◌, select, find, take, ltb, any, text_lt,
}
use telezon_s.Tables.Like.{prefix_pattern}
use telezon_s.Model.{Db, MultipartUploadRow, MultipartPartRow}

unfoldable pub crud_create_multipart_upload :
    ℕ → String → String → Db → String → String → String → String → Db
crud_create_multipart_upload now upload_id storage_id db bucket key content_type owner_access_key =
    record db {
      uploads =
          db.uploads
          ++ (record {
            upload_id = upload_id;
            bucket = bucket;
            key = key;
            content_type = content_type;
            owner_access_key = owner_access_key;
            storage_id = storage_id;
            initiated_at = now;
          })
            ∷ [];
    }

unfoldable pub crud_get_multipart_upload : Db → String → Option MultipartUploadRow
crud_get_multipart_upload db upload_id = find (λ u. u.upload_id == upload_id) db.uploads

unfoldable pub crud_delete_multipart_upload : Db → String → Db
crud_delete_multipart_upload db upload_id = record db {
  parts = select (λ p. not (p.upload_id == upload_id)) db.parts;
  uploads = select (λ u. not (u.upload_id == upload_id)) db.uploads;
}

abbrev pub is_part : String → ℕ → MultipartPartRow → Bool
is_part upload_id part_number p = p.upload_id == upload_id && p.part_number == part_number

unfoldable pub crud_get_part : Db → String → ℕ → Option MultipartPartRow
crud_get_part db upload_id part_number = find (is_part upload_id part_number) db.parts

unfoldable pub replace_part : MultipartPartRow → List MultipartPartRow → List MultipartPartRow
replace_part new [] = []
replace_part new (p ∷ ps) =
    let rest = replace_part new ps in
    if is_part new.upload_id new.part_number p then new ∷ ps else p ∷ rest

-- the row that was there before, and the table with the new row
unfoldable pub crud_upsert_part : Db → MultipartPartRow → Option MultipartPartRow × Db
unfolding crud_get_part replace_part
crud_upsert_part db new = elim (crud_get_part db new.upload_id new.part_number) [
  | none ↦ (none, record db { parts = db.parts ++ new ∷ [] })
  | some old ↦ (some old, record db { parts = replace_part new db.parts })
]

unfoldable pub insert_by_number : MultipartPartRow → List MultipartPartRow → List MultipartPartRow
insert_by_number x [] = x ∷ []
insert_by_number x (y ∷ ys) =
    let rest = insert_by_number x ys in
    if ltb y.part_number x.part_number then y ∷ rest else x ∷ y ∷ ys

unfoldable pub sort_by_number : List MultipartPartRow → List MultipartPartRow
unfolding insert_by_number
sort_by_number [] = []
sort_by_number (x ∷ xs) = insert_by_number x (sort_by_number xs)

unfoldable pub crud_list_parts : Db → String → List MultipartPartRow
unfolding sort_by_number
crud_list_parts db upload_id = sort_by_number (select (λ p. p.upload_id == upload_id) db.parts)

unfoldable pub crud_get_parts_for_complete : Db → String → List ℕ → List MultipartPartRow
unfolding sort_by_number
crud_get_parts_for_complete db upload_id numbers =
    sort_by_number
      (select (λ p. p.upload_id == upload_id && any (λ n. p.part_number == n) numbers) db.parts)

-- ORDER BY key, upload_id, in the order of the collation
abbrev pub upload_before : (String → String → Bool) → MultipartUploadRow → MultipartUploadRow → Bool
upload_before before x y =
    before x.key y.key || not (before y.key x.key) && before x.upload_id y.upload_id

unfoldable pub insert_upload :
    (String → String → Bool)
    → MultipartUploadRow
    → List MultipartUploadRow
    → List MultipartUploadRow
insert_upload before x [] = x ∷ []
insert_upload before x (y ∷ ys) =
    let rest = insert_upload before x ys in
    if upload_before before y x then y ∷ rest else x ∷ y ∷ ys

unfoldable pub sort_uploads :
    (String → String → Bool) → List MultipartUploadRow → List MultipartUploadRow
unfolding insert_upload
sort_uploads before [] = []
sort_uploads before (x ∷ xs) = insert_upload before x (sort_uploads before xs)

-- what the loop over the rows keeps behind the marker, in Python's order of texts
abbrev pub behind_marker : String → String → MultipartUploadRow → Bool
behind_marker key_marker upload_id_marker u =
    not (text_lt u.key key_marker)
    && not (u.key == key_marker && not (text_lt upload_id_marker u.upload_id))

-- The marker is applied to the rows that LIMIT has left.
unfoldable pub crud_list_multipart_uploads :
    Db → String → String → String → String → ℕ → List MultipartUploadRow
unfolding sort_uploads text_lt
crud_list_multipart_uploads db bucket prefix key_marker upload_id_marker max_uploads =
    let rows = take (max 1 (min max_uploads 1000) + 1) (
      sort_uploads db.collation.before (
        select
          (λ u.
            u.bucket == bucket && (prefix == "" || db.collation.like u.key (prefix_pattern prefix)))
          db.uploads)) in
    if key_marker == "" then rows else select (behind_marker key_marker upload_id_marker) rows

unfoldable pub crud_list_stale_multipart_uploads : Db → ℕ → ℕ → List MultipartUploadRow
crud_list_stale_multipart_uploads db cutoff limit =
    take limit (select (λ u. ltb u.initiated_at cutoff) db.uploads)
