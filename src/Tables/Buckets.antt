-- ===== src/Tables/Buckets.antt =====
-- app/crud/bucket.py: the buckets.
use telezon_s.Prelude.{
  ℕ, Bool, true, false, ◌&&◌, not, Option, none, some, List, [], ◌∷◌, ◌++◌, String, ◌==◌, string_eq,
  if◌then◌else◌, select, find, take, drop, any, is_some, or_none,
}
use telezon_s.Outcome.{Result, ok, err, integrity_error, http}
use telezon_s.Model.{Db, BucketRow, Bucket, BlobRow}
use telezon_s.Model.Lookup.{crud_get_user_by_username}
use telezon_s.Tables.Blobs.{admits}

abbrev pub is_named : String → BucketRow → Bool
is_named name b = b.name == name

unfoldable pub load_bucket_with_owner : Db → BucketRow → Option Bucket
unfolding crud_get_user_by_username
load_bucket_with_owner db row =
    or_none (crud_get_user_by_username db row.owner_username)
      λ owner. some (record { row = row; owner = owner })

-- A row whose owner is missing cannot occur: the owner is a foreign key.
unfoldable pub load_buckets : Db → List BucketRow → List Bucket
unfolding load_bucket_with_owner
load_buckets db [] = []
load_buckets db (row ∷ rows) =
    let rest = load_buckets db rows in
    elim (load_bucket_with_owner db row) [ none ↦ rest | some b ↦ b ∷ rest ]

unfoldable pub crud_get_all_buckets : Db → String → String → ℕ → ℕ → List Bucket
unfolding load_buckets admits
crud_get_all_buckets db name owner_username limit offset = load_buckets db (
    take limit (
      drop offset
        (select (λ b. admits name b.name && admits owner_username b.owner_username) db.buckets)))

-- INSERT fails where the name is taken, or the owner is not a user.
unfoldable pub crud_create_bucket : ℕ → Db → String → String → Result Db
unfolding crud_get_user_by_username
crud_create_bucket now db name owner_username =
    if is_some (find (is_named name) db.buckets)
    then err integrity_error
    else if not (is_some (crud_get_user_by_username db owner_username))
    then err integrity_error
    else ok (record db {
      buckets =
          db.buckets
          ++ (record {
            name = name;
            owner_username = owner_username;
            is_public = false;
            telegram_chat_id = none;
            telegram_topic_id = none;
            created_at = now;
            updated_at = now;
          })
            ∷ [];
    })

-- DELETE fails where an object refers to the bucket.
unfoldable pub crud_delete_bucket : Db → String → Result (Bool × Db)
crud_delete_bucket db name =
    if not (is_some (find (is_named name) db.buckets))
    then ok (false, db)
    else if any (λ row. row.bucket_name == name) db.blobs
    then err integrity_error
    else ok (true, record db { buckets = select (λ b. not (b.name == name)) db.buckets })

unfoldable pub crud_bucket_has_objects : Db → String → Bool
crud_bucket_has_objects db name =
    is_some (find (λ (row : BlobRow). row.bucket_name == name) db.blobs)

-- `BucketInUpdate`: a field that is set; for the chat and the topic, also to nothing
pub record BucketInUpdate : Type 0 where
  pub owner_username : Option String
  pub is_public : Option Bool
  pub telegram_chat_id : Option (Option String)
  pub telegram_topic_id : Option (Option ℕ)

abbrev pub or_kept {ℓ} : {A : Type ℓ} → Option A → A → A
or_kept none old = old
or_kept (some new) old = new

-- `value or None`
abbrev pub filled : Option String → Option String
filled none = none
filled (some value) = if value == "" then none else some value

abbrev pub fill_set : Option (Option String) → Option (Option String)
fill_set none = none
fill_set (some value) = some (filled value)

unfoldable pub updated_bucket : ℕ → BucketInUpdate → BucketRow → BucketRow
updated_bucket now update row = record row {
  owner_username = or_kept update.owner_username row.owner_username;
  is_public = or_kept update.is_public row.is_public;
  telegram_chat_id = or_kept (fill_set update.telegram_chat_id) row.telegram_chat_id;
  telegram_topic_id = or_kept update.telegram_topic_id row.telegram_topic_id;
  updated_at = now;
}

unfoldable pub replace_bucket : String → (BucketRow → BucketRow) → List BucketRow → List BucketRow
replace_bucket name f [] = []
replace_bucket name f (b ∷ bs) =
    let rest = replace_bucket name f bs in if is_named name b then f b ∷ bs else b ∷ rest

abbrev pub owner_missing : Db → Option String → Bool
owner_missing db none = false
owner_missing db (some owner) = not (is_some (crud_get_user_by_username db owner))

unfoldable pub crud_update_bucket : ℕ → Db → String → BucketInUpdate → Result Db
unfolding updated_bucket replace_bucket crud_get_user_by_username
crud_update_bucket now db name update =
    if not (is_some (find (is_named name) db.buckets))
    then err (http 404)
    else if owner_missing db update.owner_username
    then err (http 404)
    else ok (record db { buckets = replace_bucket name (updated_bucket now update) db.buckets })
