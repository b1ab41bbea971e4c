-- ===== src/Copies/Shared.antt =====
-- A copy within a bucket.
use telezon_s.Prelude.{false, ◌<◌, ◌≡◌, ℕ, Option, some, String, string_eq, if◌then◌else◌}
use telezon_s.Model.{Config, BlobBase}
use telezon_s.Tables.Blobs.Writes.{stored, same_key}
use telezon_s.Tables.Refs.{count_message_id_refs}
use telezon_s.Telegram.{DeletesOne}
use telezon_s.Telegram.World.{World}
use telezon_s.Http.{Request, Flow, next, reply, raise, header}
use telezon_s.Http.Text.{is_blank}
use telezon_s.Service.{Service}
use telezon_s.Copies.{Directive, copy, replace, Copying}

-- `blob` is what `src` is, at the path `key`, with the media type that the request asks for
pub record CopyOf (request : Request) (directive : Directive) (src : BlobBase) (key : String)
    (blob : BlobBase) : Type 0 where
  pub path : blob.path ≡ key
  pub file : blob.file ≡ src.file
  pub size : blob.size ≡ src.size
  pub message_id : blob.message_id ≡ src.message_id
  pub parts : blob.parts ≡ src.parts
  pub storage_id : blob.storage_id ≡ src.storage_id
  pub grouped_id : blob.telegram_grouped_id ≡ src.telegram_grouped_id
  pub albums : blob.telegram_albums ≡ src.telegram_albums
  pub nonce : blob.sse_nonce ≡ src.sse_nonce
  pub tag : blob.sse_tag ≡ src.sse_tag
  pub encrypted : blob.encrypted ≡ src.encrypted
  pub kept_type :
      directive ≡ copy → is_blank src.content_type ≡ false → blob.content_type ≡ src.content_type
  pub new_type :
      (value : String)
      → directive ≡ replace
      → header request "content-type" ≡ some value
      → blob.content_type ≡ value

abbrev reached_job : Copying → Flow Copying → Copying
reached_job a (next b) = b
reached_job a (reply r) = a
reached_job a (raise e) = a

module _ (E : Service) (cfg : Config) (request : Request) (bucket_name key : String)
    (L : DeletesOne E.storage) where
  -- what a copy of `blob` leaves: its key holds `blob`, every other key what it held, and every
  -- message that the database refers to is as it was in Telegram
  pub record Shares (w w' : World E.storage) (blob : BlobBase) : Type 0 where
    pub objects :
        (b k : String)
        → stored w'.db b k ≡ (if same_key bucket_name key b k then some blob else stored w.db b k)
    pub messages :
        (c : Option String) (m : ℕ)
        → 0 < count_message_id_refs w'.db m
        → L.holds w'.tg c m ≡ L.holds w.tg c m
