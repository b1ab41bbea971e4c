-- ===== src/Shares.antt =====
-- app/api/v1/endpoints/shares.py: the download of a public link.
pub mod Failures
use telezon_s.Prelude.{
  ℕ, Bool, true, false, not, Option, none, some, List, [], ◌∷◌, String, if◌then◌else◌, ltb, head?,
  length,
}
use telezon_s.Outcome.{Result, ok, err, http}
use telezon_s.Model.{Config, Db, Blob, ShareRow}
use telezon_s.Tables.Blobs.{crud_get_all_blobs, at_key}
use telezon_s.Tables.Shares.{
  crud_get_share, share_is_usable, share_is_locked, share_password_ok,
  share_record_password_failure, share_clear_password_failures, crud_claim_share_download,
  crud_release_share_download,
}
use telezon_s.BlobIo.{load_blob_bytes}
use telezon_s.Telegram.World.{World}
use telezon_s.Http.{Request, Response, Content, bytes, header, has_param}
use telezon_s.Http.Text.{show_nat}
use telezon_s.Objects.Get.{media_type}
use telezon_s.Service.{Service, Answer}

-- `checkpw` is bcrypt's, and `disposition` the text of `safe_content_disposition`.
module _ (E : Service) (cfg : Config) (checkpw : String → String → Bool)
    (disposition : String → String) where
  -- an exception behind the claim gives the download back
  unfoldable pub give_back : World E.storage → String → ℕ → Answer E.storage
  unfolding crud_release_share_download
  give_back w token status =
      (err (http status), record w { db = (crud_release_share_download w.db token).1 })

  unfoldable pub send_content :
      World E.storage → ShareRow → Blob → Result (List ℕ) × E.storage.State → Answer E.storage
  unfolding give_back
  send_content w share blob (err e, s) = give_back (record w { tg = s }) share.token 404
  send_content w share blob (ok content, s) = (
    ok (record {
      status = 200;
      headers =
          ("Content-Type", media_type blob)
          ∷ ("Content-Disposition", disposition share.key)
          ∷ ("Content-Length", show_nat (length content))
          ∷ [];
      content = bytes content;
    }),
    record w { tg = s },
  )

  unfoldable pub send_blob : World E.storage → ShareRow → Option Blob → Answer E.storage
  send_blob w share none = give_back w share.token 404
  send_blob w share (some blob) =
      if blob.base.encrypted
      then give_back w share.token 400
      else if ltb cfg.max_upload_bytes blob.base.size
      then give_back w share.token 413
      else send_content w share blob (load_blob_bytes E.storage E.crypto cfg blob none w.tg)

  unfoldable pub claimed_download :
      World E.storage → ShareRow → Option ShareRow × Db → Answer E.storage
  claimed_download w share (none, db) = (err (http 404), record w { db = db })
  claimed_download w share (some claimed, db) =
      send_blob (record w { db = db }) share
        (head? (crud_get_all_blobs db (at_key share.bucket share.key)))

  unfoldable pub wrong_password : World E.storage → String → String → Answer E.storage
  wrong_password w token client_ip =
      let (locked, db) = share_record_password_failure cfg w.now w.db token client_ip in
      (err (http (if locked then 429 else 403)), record w { db = db })

  unfoldable pub download_found :
      World E.storage → Request → String → String → ShareRow → Answer E.storage
  download_found w request client_ip token share =
      let cleared = share_clear_password_failures w.db token client_ip in
      if not (share_is_usable w.now share)
      then (err (http 404), w)
      else if share_is_locked w.now w.db token client_ip
      then (err (http 429), w)
      else if has_param request "password"
      then (err (http 400), w)
      else if not (share_password_ok checkpw share (header request "x-share-password"))
      then wrong_password w token client_ip
      else claimed_download (record w { db = cleared }) share
          (crud_claim_share_download w.now cleared token)

  unfoldable pub download_of :
      World E.storage → Request → String → String → Option ShareRow → Answer E.storage
  download_of w request client_ip token none = (err (http 404), w)
  download_of w request client_ip token (some share) =
      download_found w request client_ip token share

  unfoldable pub download_share : Request → String → String → World E.storage → Answer E.storage
  download_share request client_ip token w =
      download_of w request client_ip token (crud_get_share w.db token)
