-- ===== src/Objects.antt =====
-- app/s3/handlers/object.py: what the object handlers share; app/s3/stream_upload.py; and
-- `object_etag` of app/s3/xml.py.
pub mod Get
pub mod Put
pub mod Batch
pub mod Batched
pub mod Failures
pub mod Staging
pub mod Recorded
pub mod RoundTrip
use telezon_s.Prelude.{
  ℕ, ◌+◌, Bool, true, false, ◌&&◌, ◌||◌, not, Option, none, some, List, [], ◌∷◌, String, ◌<>◌, ◌==◌,
  string_eq, if◌then◌else◌, codes, codes_eq, lower, map,
}
use telezon_s.Outcome.{Result, ok, err}
use telezon_s.Model.{Config, Db, Bucket, Blob, BlobBase}
use telezon_s.Model.Lookup.{crud_get_bucket_by_name}
use telezon_s.Auth.{
  AuthCode, auth_ok, auth_signature, auth_denied, auth_missing, authorize_request_for_bucket,
  auth_error_response,
}
use telezon_s.Http.{
  Request, Response, Flow, next, reply, header, or_blank, some_or, s3_error_response, return_if,
  ◌>>=◌, ◌>>◌,
}
use telezon_s.Http.Text.{is_blank, show_nat}
use telezon_s.Service.{Service}

unfoldable pub is_auth_ok : AuthCode → Bool
is_auth_ok auth_ok = true
is_auth_ok auth_signature = false
is_auth_ok auth_denied = false
is_auth_ok auth_missing = false

unfoldable pub load_bucket_or_404 : Db → String → Flow Bucket
load_bucket_or_404 db bucket_name =
    some_or (crud_get_bucket_by_name db bucket_name) (s3_error_response 404 "NoSuchBucket")

unfoldable pub object_etag : BlobBase → String
unfolding show_nat
object_etag b =
    "\"" <> (if is_blank b.file then b.path else b.file) <> "-" <> show_nat b.size <> "\""

-- the hash that the client declares; an empty header counts as none
unfoldable pub content_sha256_header : Request → Option String
content_sha256_header request =
    if is_blank (or_blank (header request "x-amz-content-sha256"))
    then none
    else header request "x-amz-content-sha256"

abbrev pub lowered : String → List ℕ
lowered text = map lower (codes text)

-- A digest is compared with the header in lower case.
unfoldable pub payload_sha256_mismatch : Option String → String → Bool
unfolding codes_eq lower
payload_sha256_mismatch none sha256_hex = false
payload_sha256_mismatch (some header_sha) sha256_hex =
    not (header_sha == "UNSIGNED-PAYLOAD") && not (codes_eq (lowered header_sha) (codes sha256_hex))

-- What the checks around a streamed body answer: a code, or that it is left for later, or that the
-- payload is not the one that was declared.
pub data StreamAuth : Type 0 where
  checked : AuthCode → StreamAuth
  deferred : StreamAuth
  sha_mismatch : StreamAuth

module _ (E : Service) where
  abbrev pub authorize : ℕ → Bucket → Request → Db → Option (List ℕ) → Option (List ℕ) → AuthCode
  authorize now bucket request db body sha256 =
      authorize_request_for_bucket E.verifier E.strptime now bucket request db body sha256

  unfoldable pub authorize_before_stream : ℕ → Bucket → Request → Db → StreamAuth
  unfolding content_sha256_header
  authorize_before_stream now bucket request db = elim (content_sha256_header request) [
    | none ↦ deferred
    | some header_sha ↦
        if header_sha == "UNSIGNED-PAYLOAD"
        then checked (authorize now bucket request db (some []) none)
        else checked (authorize now bucket request db (some []) (some (lowered header_sha)))
  ]

  unfoldable pub finalize_streamed_payload : ℕ → Bucket → Request → Db → String → Bool → StreamAuth
  unfolding content_sha256_header payload_sha256_mismatch
  finalize_streamed_payload now bucket request db sha256_hex pre_authenticated =
      if payload_sha256_mismatch (content_sha256_header request) sha256_hex
      then sha_mismatch
      else if pre_authenticated
      then checked auth_ok
      else checked (authorize now bucket request db (some []) (some (codes sha256_hex)))
