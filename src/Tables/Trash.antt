-- ===== src/Tables/Trash.antt =====
-- app/crud/trash.py: the soft-deleted objects. `uuid4().hex` is the argument `trash_id`.
use telezon_s.Prelude.{
  ℕ, ◌+◌, max, min, Bool, true, not, Option, none, some, List, [], ◌∷◌, ◌++◌, String, ◌==◌,
  string_eq, if◌then◌else◌, select, find, take, drop, ltb, any,
}
use telezon_s.Model.{Db, BlobRow, TrashItem, Config}

abbrev pub has_id : String → TrashItem → Bool
has_id trash_id item = item.trash_id == trash_id

-- The reasons that the program gives are shorter than the 64 characters it cuts them to.
unfoldable pub crud_insert_trash_from_blob :
    Config → ℕ → String → Db → BlobRow → String → String → TrashItem × Db
crud_insert_trash_from_blob cfg now trash_id db blob deleted_by reason =
    let item : TrashItem = record {
      base = blob.base;
      trash_id = trash_id;
      bucket_name = blob.bucket_name;
      deleted_at = now;
      expires_at = now + max 60 cfg.trash_retention_seconds;
      deleted_by = deleted_by;
      reason = reason;
    } in
    (item, record db { trash = db.trash ++ item ∷ [] })

unfoldable pub crud_get_trash : Db → String → Option TrashItem
crud_get_trash db trash_id = find (has_id trash_id) db.trash

-- the trash of one bucket, or of some buckets, or all: newest first, one page
unfoldable pub insert_newest : TrashItem → List TrashItem → List TrashItem
insert_newest x [] = x ∷ []
insert_newest x (y ∷ ys) =
    let rest = insert_newest x ys in if ltb x.deleted_at y.deleted_at then y ∷ rest else x ∷ y ∷ ys

unfoldable pub sort_newest : List TrashItem → List TrashItem
unfolding insert_newest
sort_newest [] = []
sort_newest (x ∷ xs) = insert_newest x (sort_newest xs)

abbrev pub in_scope : String → Option (List String) → TrashItem → Bool
in_scope bucket none item = if bucket == "" then true else item.bucket_name == bucket
in_scope bucket (some owned) item =
    if bucket == ""
    then any (λ name. item.bucket_name == name) owned
    else item.bucket_name == bucket

unfoldable pub crud_list_trash : Db → String → Option (List String) → ℕ → ℕ → List TrashItem
unfolding sort_newest
crud_list_trash db bucket owned limit offset =
    take (max 1 (min limit 1000))
      (drop offset (sort_newest (select (in_scope bucket owned) db.trash)))

unfoldable pub remove_item : String → List TrashItem → List TrashItem
remove_item trash_id [] = []
remove_item trash_id (item ∷ items) =
    let rest = remove_item trash_id items in if has_id trash_id item then items else item ∷ rest

unfoldable pub crud_delete_trash : Db → String → Option TrashItem × Db
unfolding crud_get_trash remove_item
crud_delete_trash db trash_id = elim (crud_get_trash db trash_id) [
  | none ↦ (none, db)
  | some item ↦ (some item, record db { trash = remove_item trash_id db.trash })
]

unfoldable pub crud_delete_trash_for_bucket : Db → String → List TrashItem × Db
crud_delete_trash_for_bucket db bucket = (
  select (λ item. item.bucket_name == bucket) db.trash,
  record db { trash = select (λ item. not (item.bucket_name == bucket)) db.trash },
)

unfoldable pub crud_list_expired_trash : ℕ → Db → ℕ → List TrashItem
crud_list_expired_trash now db limit =
    take limit (select (λ item. ltb item.expires_at now) db.trash)
