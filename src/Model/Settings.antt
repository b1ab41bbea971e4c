-- ===== src/Model/Settings.antt =====
-- app/core/config.py: the settings that the modelled code reads
use telezon_s.Prelude.{ℕ, String, Bool, Option}

pub record Config : Type 0 where
  pub cid : Option String
  pub max_upload_bytes : ℕ
  pub cache_enabled : Bool
  pub cache_max_bytes : ℕ
  pub multipart_max_parts : ℕ
  pub multipart_min_part_bytes : ℕ
  pub tg_album_max_items : ℕ
  pub tg_opaque_filenames : Bool
  pub mpu_staging : Bool
  pub enable_trash : Bool
  pub trash_retention_seconds : ℕ
  pub share_max_failed_attempts : ℕ
  pub share_lockout_seconds : ℕ
  pub gc_multipart_max_age_seconds : ℕ
  pub gc_orphan_sample_size : ℕ
