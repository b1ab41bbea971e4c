-- ===== src/Examples/Data.antt =====
-- A small installation.
use telezon_s.Prelude.{ℕ, true, false, Option, none, some, List, [], ◌∷◌, String}
use telezon_s.Model.{Config, UserRow, BucketRow, Bucket, BlobPart, BlobBase, BlobRow, Blob, Db}
use telezon_s.Cache.{empty_cache}
use telezon_s.Telegram.World.{World}
use telezon_s.Http.{Request}
use telezon_s.Examples.Memory.{memory, home}
use telezon_s.Examples.Sqlite.{sqlite}

abbrev pub config : Config
config = record {
  cid = home;
  max_upload_bytes = 100;
  cache_enabled = true;
  cache_max_bytes = 10;
  multipart_max_parts = 10000;
  multipart_min_part_bytes = 5;
  tg_album_max_items = 10;
  tg_opaque_filenames = false;
  mpu_staging = false;
  enable_trash = false;
  trash_retention_seconds = 1000;
  share_max_failed_attempts = 3;
  share_lockout_seconds = 60;
  gc_multipart_max_age_seconds = 1000;
  gc_orphan_sample_size = 1;
}

abbrev pub ann : UserRow
ann = record { username = "ann"; role = "admin"; access_key_id = "AK"; secret_key = "SK" }

abbrev pub pics_row : BucketRow
pics_row = record {
  name = "pics";
  owner_username = "ann";
  is_public = false;
  telegram_chat_id = none;
  telegram_topic_id = none;
  created_at = 1;
  updated_at = 1;
}

abbrev pub pics : Bucket
pics = record { row = pics_row; owner = ann }

abbrev pub part : ℕ → String → ℕ → BlobPart
part number file size = record {
  part_number = number;
  file_id = file;
  size = size;
  message_id = some number;
  etag = "";
  album_index = none;
}

abbrev pub plain_base : String → List BlobPart → ℕ → Option ℕ → BlobBase
plain_base path parts size message_id = record {
  path = path;
  storage_id = none;
  telegram_grouped_id = none;
  telegram_albums = [];
  file = "file";
  content_type = "";
  size = size;
  message_id = message_id;
  parts = parts;
  sse_nonce = none;
  sse_tag = none;
  encrypted = false;
}

abbrev pub row : BlobBase → BlobRow
row base = record { base = base; bucket_name = "pics"; created_at = 1; updated_at = 1 }

abbrev pub live : BlobBase → Blob
live base = record { base = base; bucket = pics_row; owner = ann; created_at = 1; updated_at = 1 }

abbrev pub db_with : List BlobRow → Db
db_with rows = record {
  collation = sqlite;
  users = ann ∷ [];
  buckets = pics_row ∷ [];
  credentials = [];
  blobs = rows;
  trash = [];
  uploads = [];
  parts = [];
  pending = [];
  shares = [];
  lockouts = [];
}

abbrev pub world_with : List BlobRow → World memory
world_with rows = record {
  db = db_with rows;
  tg = record { files = []; messages = 5 ∷ 3 ∷ [] };
  cache = empty_cache;
  staged = [];
  now = 100;
  ids = λ n. "id";
  drawn = 0;
}

abbrev pub request : String → List (String × String) → List (List ℕ) → Request
request method headers chunks = record {
  method = method;
  headers = headers;
  query = [];
  chunks = chunks;
}

abbrev pub signed_by_ann : List (String × String)
signed_by_ann = ("authorization", "AWS4-HMAC-SHA256 Credential=AK/today, Signature=x") ∷ []
