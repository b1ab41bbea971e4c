-- ===== src/Tables/Blobs.antt =====
-- app/crud/blob.py: the live objects.
pub mod Keys
pub mod Writes
use Prim.Native.Char.{Char, code}
use telezon_s.Prelude.{
  ℕ, ◌+◌, Bool, true, false, ◌&&◌, ◌||◌, not, Option, none, some, List, [], ◌∷◌, ◌++◌, String, ◌<>◌,
  ◌==◌, string_eq, nat_beq, if◌then◌else◌, select, find, any, take, drop, is_some, or_none, map,
}
use telezon_s.Outcome.{Result, ok, err, integrity_error, no_result, value_error, os_error}
use telezon_s.Tables.Like.{prefix_pattern}
use telezon_s.Model.{
  Collation, Db, BlobRow, BlobBase, Blob, BlobFilterParams, Bucket, BucketRow, UserRow,
}
use telezon_s.Model.Lookup.{crud_get_bucket_by_name}

-- `text.replace(", ", ",")`
unfoldable pub close_commas : String → String
close_commas String.[] = String.[]
close_commas (String.◌∷◌ c String.[]) = String.◌∷◌ c String.[]
close_commas (String.◌∷◌ c (String.◌∷◌ d s)) =
    let skipped = String.◌∷◌ c (close_commas s) in
    let kept = String.◌∷◌ c (close_commas (String.◌∷◌ d s)) in
    if nat_beq (code c) b',' && nat_beq (code d) b' ' then skipped else kept

-- one more character before the pieces of a split, which are never none
unfoldable pub before_pieces : Char → List String → List String
before_pieces c [] = if nat_beq (code c) b',' then "" ∷ "" ∷ [] else String.◌∷◌ c String.[] ∷ []
before_pieces c (piece ∷ rest) =
    if nat_beq (code c) b',' then "" ∷ piece ∷ rest else String.◌∷◌ c piece ∷ rest

-- `text.split(",")`
unfoldable pub split_commas : String → List String
unfolding before_pieces
split_commas String.[] = "" ∷ []
split_commas (String.◌∷◌ c s) = before_pieces c (split_commas s)

-- `filters.x.replace(", ", ",").split(",")`, and the IN clause that it feeds
unfoldable pub names_in : String → List String
unfolding close_commas split_commas
names_in text = split_commas (close_commas text)

unfoldable pub admits : String → String → Bool
unfolding names_in
admits text value = text == "" || any (λ name. value == name) (names_in text)

unfoldable pub join_owner : Db → BlobRow → Option Blob
unfolding crud_get_bucket_by_name
join_owner db row = or_none (crud_get_bucket_by_name db row.bucket_name) λ b. some (record {
  base = row.base;
  bucket = b.row;
  owner = b.owner;
  created_at = row.created_at;
  updated_at = row.updated_at;
})

unfoldable pub joined : Db → List BlobRow → List Blob
unfolding join_owner
joined db [] = []
joined db (row ∷ rows) =
    let rest = joined db rows in elim (join_owner db row) [ none ↦ rest | some b ↦ b ∷ rest ]

unfoldable pub crud_get_all_blobs : Db → BlobFilterParams → List Blob
unfolding joined admits
crud_get_all_blobs db f = take f.limit (
    drop f.offset (
      joined db
        (select (λ row. admits f.path row.path && admits f.bucket_name row.bucket_name) db.blobs)))

-- `BlobFilterParams(path=key, bucket_name=bucket)`, with the defaults of the other fields
abbrev pub at_key : String → String → BlobFilterParams
at_key bucket key = record { path = key; bucket_name = bucket; limit = 20; offset = 0 }

-- the WHERE clause of the queries by bucket and path
abbrev pub is_at : String → String → BlobRow → Bool
is_at bucket key row = row.bucket_name == bucket && row.path == key

unfoldable pub crud_get_blob_in_bucket : Db → String → String → Option BlobRow
crud_get_blob_in_bucket db bucket key = find (is_at bucket key) db.blobs

unfoldable pub update_row : String → String → (BlobRow → BlobRow) → List BlobRow → List BlobRow
update_row bucket key f [] = []
update_row bucket key f (row ∷ rows) =
    let rest = update_row bucket key f rows in
    if is_at bucket key row then f row ∷ rows else row ∷ rest

unfoldable pub remove_row : String → String → List BlobRow → List BlobRow
remove_row bucket key [] = []
remove_row bucket key (row ∷ rows) =
    let rest = remove_row bucket key rows in if is_at bucket key row then rows else row ∷ rest

-- INSERT fails where the unique constraint on bucket and path is violated; UPDATE keeps the
-- row's bucket, path and creation time.
unfoldable pub crud_create_blob : ℕ → Db → BlobBase → String → Bool → Result Db
unfolding crud_get_blob_in_bucket update_row
crud_create_blob now db blob bucket false =
    if is_some (crud_get_blob_in_bucket db bucket blob.path)
    then err integrity_error
    else ok (record db {
      blobs =
          db.blobs
          ++ (record { base = blob; bucket_name = bucket; created_at = now; updated_at = now })
            ∷ [];
    })
crud_create_blob now db blob bucket true =
    if is_some (crud_get_blob_in_bucket db bucket blob.path)
    then ok (record db {
      blobs =
          update_row bucket blob.path (λ row. record row { base = blob; updated_at = now })
            db.blobs;
    })
    else err no_result

unfoldable pub crud_delete_blob : Db → String → String → Option BlobRow × Db
unfolding crud_get_blob_in_bucket remove_row
crud_delete_blob db bucket key = elim (crud_get_blob_in_bucket db bucket key) [
  | none ↦ (none, db)
  | some row ↦ (some row, record db { blobs = remove_row bucket key db.blobs })
]

-- ORDER BY path, in the order of the collation
unfoldable pub insert_by_path : (String → String → Bool) → BlobRow → List BlobRow → List BlobRow
insert_by_path before x [] = x ∷ []
insert_by_path before x (y ∷ ys) =
    let rest = insert_by_path before x ys in if before y.path x.path then y ∷ rest else x ∷ y ∷ ys

unfoldable pub sort_by_path : (String → String → Bool) → List BlobRow → List BlobRow
unfolding insert_by_path
sort_by_path before [] = []
sort_by_path before (x ∷ xs) = insert_by_path before x (sort_by_path before xs)

abbrev pub listed : Collation → String → String → String → BlobRow → Bool
listed collation bucket prefix start_after row =
    row.bucket_name == bucket
    && (prefix == "" || collation.like row.path (prefix_pattern prefix))
    && (start_after == "" || collation.before start_after row.path)

unfoldable pub crud_list_blobs_for_s3 : Db → String → String → String → ℕ → List BlobRow
unfolding sort_by_path
crud_list_blobs_for_s3 db bucket prefix start_after max_keys = take max_keys (
    sort_by_path db.collation.before
      (select (listed db.collation bucket prefix start_after) db.blobs))

-- `ValueError`, `LookupError` and `FileExistsError` are the three refusals.
unfoldable pub crud_rename_blob : ℕ → Db → String → String → String → Result Db
unfolding crud_get_blob_in_bucket update_row
crud_rename_blob now db bucket old_path new_path =
    if old_path == new_path
    then err value_error
    else if not (is_some (crud_get_blob_in_bucket db bucket old_path))
    then err no_result
    else if is_some (crud_get_blob_in_bucket db bucket new_path)
    then err os_error
    else ok (record db {
      blobs =
          update_row bucket old_path
            (λ row. record row { base = record row.base { path = new_path }; updated_at = now })
            db.blobs;
    })
