-- ===== src/Examples/Links.antt =====
-- A public link with one download and a password.
use telezon_s.Prelude.{ℕ, ◌≡◌, ◌≢◌, refl, Bool, false, none, some, List, [], ◌∷◌, String, arith}
use telezon_s.Model.{ShareRow}
use telezon_s.Http.{Request}
use telezon_s.Telegram.World.{World}
use telezon_s.Service.{serve}
use telezon_s.Tables.Shares.{
  crud_get_share, share_is_usable, share_is_locked, share_password_ok,
  share_record_password_failure,
}
use telezon_s.Tables.Shares.Limits.{
  AllWithin, ShareWrite, create, claim_at, release, write_shares, write_shares-AllWithin,
}
use telezon_s.Shares.{download_share, download_of, download_found, wrong_password}
use telezon_s.Shares.Failures.{download_share_fails}
use telezon_s.Examples.Memory.{memory, service}
use telezon_s.Examples.Data.{config, db_with, world_with, request}

abbrev link : ShareRow
link = record {
  token = "t";
  bucket = "pics";
  key = "a";
  password_hash = some "secret";
  expires_at = 1000;
  max_downloads = some 1;
  download_count = 0;
  owner_username = "ann";
}

abbrev shared : World memory
shared = record (world_with []) { db = record (db_with []) { shares = link ∷ [] } }

abbrev never : String → String → Bool
never sent stored = false

abbrev itself : String → String
itself text = text

abbrev guess : Request
guess = request "GET" (("x-share-password", "guess") ∷ []) []

guess_run :
    (serve shared (download_share service config never itself guess "1.2.3.4" "t" shared)).0.status
    ≡ 403
unfolding download_share download_of crud_get_share download_found share_is_usable share_is_locked
    share_password_ok wrong_password share_record_password_failure serve
guess_run = refl

forbidden : ◌≢◌ {A = ℕ} 403 200
forbidden h = omega (arith, h)

download_share_fails_example :
    (serve shared (download_share service config never itself guess "1.2.3.4" "t" shared)).1.db
    ≡ shared.db
download_share_fails_example =
    download_share_fails service config never itself guess "1.2.3.4" "t" shared
      (rw (guess_run) forbidden)

abbrev link_writes : List ShareWrite
link_writes =
    create 0 "u"
      (record {
        bucket = "pics";
        key = "a";
        password = none;
        expires_in = 60;
        max_downloads = some 1;
      })
      "ann"
    ∷ claim_at "u" 1
    ∷ claim_at "u" 2
    ∷ release "u"
    ∷ claim_at "u" 3
    ∷ []

write_shares-AllWithin_example : AllWithin (write_shares itself shared.db link_writes).shares
write_shares-AllWithin_example =
    write_shares-AllWithin itself shared.db link_writes (omega arith, tt)
