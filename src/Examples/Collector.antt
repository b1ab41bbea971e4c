-- ===== src/Examples/Collector.antt =====
-- A run of the collector over an upload and an item of the trash that are due.
use telezon_s.Prelude.{◌≡◌, refl, true, find, ◌==◌, string_eq, none, some, [], ◌∷◌}
use telezon_s.Model.{Config, TrashItem, MultipartUploadRow}
use telezon_s.Telegram.World.{World}
use telezon_s.Collector.{run_gc_once}
use telezon_s.Collector.Cleaned.{run_gc_once-Cleaned}
use telezon_s.Examples.Memory.{memory}
use telezon_s.Examples.Data.{config, db_with, world_with, row, plain_base}

abbrev collecting : Config
collecting = record config { enable_trash = true; gc_multipart_max_age_seconds = 10 }

abbrev expired_item : TrashItem
expired_item = record {
  base = plain_base "b" [] 1 (some 3);
  trash_id = "t";
  bucket_name = "pics";
  deleted_at = 10;
  expires_at = 50;
  deleted_by = "";
  reason = "delete_object";
}

abbrev stale_upload : MultipartUploadRow
stale_upload = record {
  upload_id = "u";
  bucket = "pics";
  key = "c";
  content_type = "";
  owner_access_key = "AK";
  storage_id = "s";
  initiated_at = 5;
}

abbrev due : World memory
due = record (world_with []) {
  db = record (db_with (row (plain_base "a" [] 1 (some 5)) ∷ [])) {
    trash = expired_item ∷ [];
    uploads = stale_upload ∷ [];
  };
}

run_gc_once-Cleaned_example :
    (find (λ t. t.trash_id == "t") (run_gc_once memory collecting (λ e. "") due []).1.db.trash
      ≡ none)
    × (find (λ u. u.upload_id == "u") (run_gc_once memory collecting (λ e. "") due []).1.db.uploads
        ≡ none)
run_gc_once-Cleaned_example = (
  (run_gc_once-Cleaned memory collecting (λ e. "") due [] (refl, tt) (refl, tt)).trash "t",
  (run_gc_once-Cleaned memory collecting (λ e. "") due [] (refl, tt) (refl, tt)).uploads "u",
)
