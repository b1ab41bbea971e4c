-- ===== src/Shares/Failures.antt =====
-- A download of a link that fails costs nothing, and leaves no trace in the database.
use telezon_s.Prelude.{
  ℕ, ◌≡◌, ◌≢◌, refl, Bool, true, false, not, Option, none, some, List, String, ltb, if◌then◌else◌,
  head?,
}
use telezon_s.Outcome.{Result, ok, err, Error, http}
use telezon_s.Model.{Config, Db, Blob, ShareRow}
use telezon_s.Tables.Blobs.{crud_get_all_blobs, at_key}
use telezon_s.Tables.Shares.{
  crud_get_share, share_is_usable, share_is_locked, share_password_ok,
  share_clear_password_failures, crud_claim_share_download,
}
use telezon_s.BlobIo.{load_blob_bytes}
use telezon_s.Telegram.{Storage}
use telezon_s.Telegram.World.{World}
use telezon_s.Http.{Request, header, has_param}
use telezon_s.Service.{Service, Answer, serve}
use telezon_s.Objects.Failures.{FailsClean}
use telezon_s.Shares.{
  give_back, send_content, send_blob, claimed_download, wrong_password, download_found, download_of,
  download_share,
}

raised_fails : {S : Storage} (start w : World S) (e : Error) → FailsClean start (err e, w)
unfolding serve
raised_fails start w e h = refl

branch_fails :
    {S : Storage} (start : World S) (test : Bool) (first second : Answer S)
    → FailsClean start first
    → FailsClean start second
    → FailsClean start (if test then first else second)
branch_fails start true first second h k = h
branch_fails start false first second h k = k

module _ (E : Service) (cfg : Config) (checkpw : String → String → Bool)
    (disposition : String → String) where
  send_content_fails :
      (start w : World E.storage) (share : ShareRow) (blob : Blob)
      (loaded : Result (List ℕ) × E.storage.State)
      → FailsClean start (send_content E cfg checkpw disposition w share blob loaded)
  unfolding send_content serve
  send_content_fails start w share blob (err e, s) h = refl
  send_content_fails start w share blob (ok content, s) h = absurd (h refl)

  send_blob_fails :
      (start w : World E.storage) (share : ShareRow) (blob : Option Blob)
      → FailsClean start (send_blob E cfg checkpw disposition w share blob)
  unfolding send_blob give_back
  send_blob_fails start w share none = raised_fails start _ (http 404)
  send_blob_fails start w share (some blob) =
      branch_fails start blob.base.encrypted _ _ (raised_fails start _ (http 400)) (
        branch_fails start (ltb cfg.max_upload_bytes blob.base.size) _ _
          (raised_fails start _ (http 413))
          (send_content_fails start w share blob
            (load_blob_bytes E.storage E.crypto cfg blob none w.tg)))

  claimed_download_fails :
      (start w : World E.storage) (share : ShareRow) (claim : Option ShareRow × Db)
      → FailsClean start (claimed_download E cfg checkpw disposition w share claim)
  unfolding claimed_download
  claimed_download_fails start w share (none, db) =
      raised_fails start (record w { db = db }) (http 404)
  claimed_download_fails start w share (some claimed, db) =
      send_blob_fails start (record w { db = db }) share
        (head? (crud_get_all_blobs db (at_key share.bucket share.key)))

  wrong_password_fails :
      (w : World E.storage) (token client_ip : String)
      → FailsClean w (wrong_password E cfg checkpw disposition w token client_ip)
  unfolding wrong_password serve
  wrong_password_fails w token client_ip h = refl

  download_found_fails :
      (w : World E.storage) (request : Request) (client_ip token : String) (share : ShareRow)
      → FailsClean w (download_found E cfg checkpw disposition w request client_ip token share)
  unfolding download_found
  download_found_fails w request client_ip token share =
      branch_fails w (not (share_is_usable w.now share)) _ _ (raised_fails w w (http 404)) (
        branch_fails w (share_is_locked w.now w.db token client_ip) _ _
          (raised_fails w w (http 429))
          (branch_fails w (has_param request "password") _ _ (raised_fails w w (http 400)) (
            branch_fails w
              (not (share_password_ok checkpw share (header request "x-share-password"))) _ _
              (wrong_password_fails w token client_ip)
              (claimed_download_fails w
                (record w { db = share_clear_password_failures w.db token client_ip }) share
                (crud_claim_share_download w.now
                  (share_clear_password_failures w.db token client_ip) token)))))

  download_of_fails :
      (w : World E.storage) (request : Request) (client_ip token : String) (found : Option ShareRow)
      → FailsClean w (download_of E cfg checkpw disposition w request client_ip token found)
  unfolding download_of
  download_of_fails w request client_ip token none = raised_fails w w (http 404)
  download_of_fails w request client_ip token (some share) =
      download_found_fails w request client_ip token share

  -- A download of a link whose answer is not 200, a wrong password included, leaves the database as
  -- it was: no download is counted, and no failed attempt either.
  pub download_share_fails :
      (request : Request) (client_ip token : String) (w : World E.storage)
      → (serve w (download_share E cfg checkpw disposition request client_ip token w)).0.status
        ≢ 200
      → (serve w (download_share E cfg checkpw disposition request client_ip token w)).1.db ≡ w.db
  unfolding download_share
  download_share_fails request client_ip token w =
      download_of_fails w request client_ip token (crud_get_share w.db token)
