-- ===== src/Tables/Blobs/Writes.antt =====
-- Each live object has one row, and what the writes do to the row of each key.
use telezon_s.Prelude.{
  ℕ, ◌≡◌, refl, Bool, true, false, ◌&&◌, Option, none, some, List, [], ◌∷◌, ◌++◌, String, arith,
  ◌==◌, string_eq, eq_iff, if◌then◌else◌, find, is_some, or_none,
}
use telezon_s.Outcome.{ok}
use telezon_s.Model.{Db, BlobRow, BlobBase}
use telezon_s.Tables.Blobs.{
  is_at, crud_get_blob_in_bucket, update_row, remove_row, crud_create_blob, crud_delete_blob,
}

-- the unique constraint on bucket and path
abbrev pub UniqueKeys : List BlobRow → Type 0
UniqueKeys [] = Unit
UniqueKeys (row ∷ rows) = (find (is_at row.bucket_name row.path) rows ≡ none) × UniqueKeys rows

abbrev pub same_key : String → String → String → String → Bool
same_key b k bucket key = b == bucket && k == key

find-append :
    (p : BlobRow → Bool) (rows : List BlobRow) (new : BlobRow)
    → find p (rows ++ new ∷ [])
      ≡ (if is_some (find p rows) then find p rows else if p new then some new else none)
find-append p [] new = ground arith
find-append p (row ∷ rows) new = ground (arith, find-append p rows new)

abbrev KeepsKey : (BlobRow → BlobRow) → Type 0
KeepsKey f = (row : BlobRow) → ((f row).bucket_name ≡ row.bucket_name) × ((f row).path ≡ row.path)

pub find-is_at :
    (b k : String) (rows : List BlobRow) (row : BlobRow)
    → find (is_at b k) rows ≡ some row
    → (row.bucket_name ≡ b) × (row.path ≡ k)
find-is_at b k [] row h = absurd (ground arith)
find-is_at b k (r ∷ rows) row h =
    ground (arith, find-is_at b k rows row, eq_iff r.bucket_name b, eq_iff r.path k)

find-remove_row :
    (bucket key b k : String) (rows : List BlobRow)
    → UniqueKeys rows
    → find (is_at b k) (remove_row bucket key rows)
      ≡ (if same_key bucket key b k then none else find (is_at b k) rows)
unfolding remove_row
find-remove_row bucket key b k [] u = ground arith
find-remove_row bucket key b k (row ∷ rows) u = ground (
  arith,
  find-remove_row bucket key b k rows,
  eq_iff row.bucket_name bucket,
  eq_iff row.path key,
  eq_iff row.bucket_name b,
  eq_iff row.path k,
  eq_iff bucket b,
  eq_iff key k,
)

UniqueKeys-remove_row :
    (bucket key : String) (rows : List BlobRow)
    → UniqueKeys rows
    → UniqueKeys (remove_row bucket key rows)
unfolding remove_row
UniqueKeys-remove_row bucket key [] u = tt
UniqueKeys-remove_row bucket key (row ∷ rows) u = ground (
  arith,
  UniqueKeys-remove_row bucket key rows,
  find-remove_row bucket key row.bucket_name row.path rows,
)

UniqueKeys-append :
    (rows : List BlobRow) (new : BlobRow)
    → UniqueKeys rows
    → find (is_at new.bucket_name new.path) rows ≡ none
    → UniqueKeys (rows ++ new ∷ [])
UniqueKeys-append [] new u h = (refl, tt)
UniqueKeys-append (row ∷ rows) new u h = ground (
  arith,
  UniqueKeys-append rows new,
  find-append (is_at row.bucket_name row.path) rows new,
  eq_iff row.bucket_name new.bucket_name,
  eq_iff row.path new.path,
  eq_iff new.bucket_name row.bucket_name,
  eq_iff new.path row.path,
)

module _ (blob : BlobBase) (now : ℕ) where
  abbrev pub rewritten : BlobRow → BlobRow
  rewritten row = record row { base = blob; updated_at = now }

  find-update_row :
      (bucket b k : String) (rows : List BlobRow)
      → find (is_at b k) (update_row bucket blob.path rewritten rows) ≡ (
          if same_key bucket blob.path b k
          then or_none (find (is_at b k) rows) (λ row. some (rewritten row))
          else find (is_at b k) rows)
  unfolding update_row
  find-update_row bucket b k [] = ground arith
  find-update_row bucket b k (row ∷ rows) = ground (
    arith,
    find-update_row bucket b k rows,
    eq_iff row.bucket_name bucket,
    eq_iff row.path blob.path,
    eq_iff row.bucket_name b,
    eq_iff row.path k,
    eq_iff bucket b,
    eq_iff blob.path k,
  )

  UniqueKeys-update_row :
      (bucket : String) (rows : List BlobRow)
      → UniqueKeys rows
      → UniqueKeys (update_row bucket blob.path rewritten rows)
  unfolding update_row
  UniqueKeys-update_row bucket [] u = tt
  UniqueKeys-update_row bucket (row ∷ rows) u = ground (
    arith,
    UniqueKeys-update_row bucket rows,
    find-update_row bucket row.bucket_name row.path rows,
    eq_iff row.path blob.path,
  )

-- what is stored at a key
abbrev pub base_in : Option BlobRow → Option BlobBase
base_in none = none
base_in (some row) = some row.base

abbrev pub stored : Db → String → String → Option BlobBase
stored db bucket key = base_in (crud_get_blob_in_bucket db bucket key)

insert_lem :
    (now : ℕ) (db db' : Db) (blob : BlobBase) (bucket : String)
    → crud_create_blob now db blob bucket false ≡ ok db'
    → (find (is_at bucket blob.path) db.blobs ≡ none)
      × (db' ≡ record db {
        blobs =
            db.blobs
            ++ (record { base = blob; bucket_name = bucket; created_at = now; updated_at = now })
              ∷ [];
      })
unfolding crud_create_blob
insert_lem now db db' blob bucket h = ground arith

update_lem :
    (now : ℕ) (db db' : Db) (blob : BlobBase) (bucket : String)
    → crud_create_blob now db blob bucket true ≡ ok db'
    → (is_some (find (is_at bucket blob.path) db.blobs) ≡ true)
      × (db' ≡ record db { blobs = update_row bucket blob.path (rewritten blob now) db.blobs })
unfolding crud_create_blob
update_lem now db db' blob bucket h = ground arith

-- In a table with one row for each key: after a write of `blob` that does not raise, its key holds `blob`, every other key what it held,
-- and each key still has one row.
pub crud_create_blob_lem :
    (now : ℕ) (db db' : Db) (blob : BlobBase) (bucket : String) (update : Bool)
    → UniqueKeys db.blobs
    → crud_create_blob now db blob bucket update ≡ ok db'
    → UniqueKeys db'.blobs
      × ((b k : String)
          → stored db' b k ≡ (if same_key bucket blob.path b k then some blob else stored db b k))
unfolding crud_get_blob_in_bucket
crud_create_blob_lem now db db' blob bucket false u h =
    let (fresh, e) = insert_lem now db db' blob bucket h in
    let new : BlobRow = record {
      base = blob;
      bucket_name = bucket;
      created_at = now;
      updated_at = now;
    } in
    rw e (
      UniqueKeys-append db.blobs new u fresh,
      λ b k.
          ground (arith, find-append (is_at b k) db.blobs new, eq_iff bucket b, eq_iff blob.path k),
    )
crud_create_blob_lem now db db' blob bucket true u h =
    let (old, e) = update_lem now db db' blob bucket h in
    rw e (
      UniqueKeys-update_row blob now bucket db.blobs u,
      λ b k. ground (
        arith,
        find-update_row blob now bucket b k db.blobs,
        eq_iff bucket b,
        eq_iff blob.path k,
      ),
    )

pub remove_row-absent :
    (bucket key : String) (rows : List BlobRow)
    → find (is_at bucket key) rows ≡ none
    → remove_row bucket key rows ≡ rows
unfolding remove_row
remove_row-absent bucket key [] h = refl
remove_row-absent bucket key (row ∷ rows) h = ground (arith, remove_row-absent bucket key rows)

-- with and without a row
pub crud_delete_blob_eq :
    (db : Db) (bucket key : String)
    → crud_delete_blob db bucket key ≡ (
      crud_get_blob_in_bucket db bucket key,
      record db { blobs = remove_row bucket key db.blobs },
    )
unfolding crud_delete_blob
crud_delete_blob_eq db bucket key = ground (arith, remove_row-absent bucket key db.blobs)

-- In a table with one row for each key: after a deletion the key is free, every other key holds what it held, the row that is returned
-- is the one that was there, and each key still has one row.
pub crud_delete_blob_lem :
    (db : Db) (bucket key : String)
    → UniqueKeys db.blobs
    → UniqueKeys (crud_delete_blob db bucket key).1.blobs
      × ((crud_delete_blob db bucket key).0 ≡ crud_get_blob_in_bucket db bucket key)
      × ((b k : String)
          → crud_get_blob_in_bucket (crud_delete_blob db bucket key).1 b k
            ≡ (if same_key bucket key b k then none else crud_get_blob_in_bucket db b k))
unfolding crud_get_blob_in_bucket
crud_delete_blob_lem db bucket key u = rw (crud_delete_blob_eq db bucket key) (
  UniqueKeys-remove_row bucket key db.blobs u,
  refl,
  λ b k. find-remove_row bucket key b k db.blobs u,
)
