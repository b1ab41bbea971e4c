-- ===== src/Model.antt =====
-- The data of app/models/*.py and the tables of app/db/tables.py, with the settings of
-- app/core/config.py that the modelled code reads.
-- A JSON list column that is None or empty is read back as None and only tested for truth, so
-- both are the empty list here. Times are seconds.
mod Settings
pub mod Lookup
pub use Settings.*
use telezon_s.Prelude.{ℕ, String, Bool, Option, List}

-- app/models/blob.py
pub record BlobPart : Type 0 where
  pub part_number : ℕ
  pub file_id : String
  pub size : ℕ
  pub message_id : Option ℕ
  pub etag : String
  pub album_index : Option ℕ

pub record TelegramAlbumMeta : Type 0 where
  pub grouped_id : ℕ
  pub part_start : ℕ
  pub part_end : ℕ

pub record BlobBase : Type 0 where
  pub path : String
  pub storage_id : Option String
  pub telegram_grouped_id : Option ℕ
  pub telegram_albums : List TelegramAlbumMeta
  pub file : String
  pub content_type : String
  pub size : ℕ
  pub message_id : Option ℕ
  pub parts : List BlobPart
  pub sse_nonce : Option String
  pub sse_tag : Option String
  pub encrypted : Bool

pub record BlobRow : Type 0 where
  pub base : BlobBase
  pub open base use *
  pub bucket_name : String
  pub created_at : ℕ
  pub updated_at : ℕ

pub record UserRow : Type 0 where
  pub username : String
  pub role : String
  pub access_key_id : String
  pub secret_key : String

pub record BucketRow : Type 0 where
  pub name : String
  pub owner_username : String
  pub is_public : Bool
  pub telegram_chat_id : Option String
  pub telegram_topic_id : Option ℕ
  pub created_at : ℕ
  pub updated_at : ℕ

-- `Blob`: a live row joined with its bucket and its owner
pub record Blob : Type 0 where
  pub base : BlobBase
  pub open base use *
  pub bucket : BucketRow
  pub owner : UserRow
  pub created_at : ℕ
  pub updated_at : ℕ

pub record BlobFilterParams : Type 0 where
  pub path : String
  pub bucket_name : String
  pub limit : ℕ
  pub offset : ℕ

-- app/models/trash.py
pub record TrashItem : Type 0 where
  pub base : BlobBase
  pub open base use *
  pub trash_id : String
  pub bucket_name : String
  pub deleted_at : ℕ
  pub expires_at : ℕ
  pub deleted_by : String
  pub reason : String

-- `Bucket` of app/models/bucket.py, with its owner loaded
pub record Bucket : Type 0 where
  pub row : BucketRow
  pub open row use *
  pub owner : UserRow

pub record CredentialRow : Type 0 where
  pub access_key_id : String
  pub secret_key : String
  pub owner_username : String
  pub role : String
  pub buckets : List String

pub record MultipartUploadRow : Type 0 where
  pub upload_id : String
  pub bucket : String
  pub key : String
  pub content_type : String
  pub owner_access_key : String
  pub storage_id : String
  pub initiated_at : ℕ

pub record MultipartPartRow : Type 0 where
  pub upload_id : String
  pub part_number : ℕ
  pub etag : String
  pub size : ℕ
  pub file_id : String
  pub message_id : Option ℕ
  pub staging_path : Option String

pub record PendingTgDeleteRow : Type 0 where
  pub message_id : ℕ
  pub chat_id : Option String
  pub reason : String
  pub attempts : ℕ

pub record ShareRow : Type 0 where
  pub token : String
  pub bucket : String
  pub key : String
  pub password_hash : Option String
  pub expires_at : ℕ
  pub max_downloads : Option ℕ
  pub download_count : ℕ
  pub owner_username : String

pub record ShareLockoutRow : Type 0 where
  pub key : String
  pub failures : ℕ
  pub locked_until : Option ℕ

-- How the database compares the texts of a column, which is up to the engine and the collation it
-- is set up with: `like path pattern` is `path LIKE pattern` with `\` as the escape character, and
-- `before` is the order of `<` and of ORDER BY. The equality of texts is exact in the model.
pub record Collation : Type 0 where
  pub like : String → String → Bool
  pub before : String → String → Bool

-- the database: one list of rows for each table
pub record Db : Type 0 where
  pub collation : Collation
  pub users : List UserRow
  pub buckets : List BucketRow
  pub credentials : List CredentialRow
  pub blobs : List BlobRow
  pub trash : List TrashItem
  pub uploads : List MultipartUploadRow
  pub parts : List MultipartPartRow
  pub pending : List PendingTgDeleteRow
  pub shares : List ShareRow
  pub lockouts : List ShareLockoutRow
