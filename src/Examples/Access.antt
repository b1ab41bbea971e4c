-- ===== src/Examples/Access.antt =====
-- Authorisation.
use telezon_s.Prelude.{ℕ, ◌≡◌, refl, true, Option, none, [], String, ◌⊎◌}
use telezon_s.Http.{Request}
use telezon_s.Auth.{
  Verifier, auth_ok, auth_signature, authorize_request_for_bucket, precheck_request_for_bucket,
  extract_access_key, authorize_identity, identity_or_owner, resolve_identity, verify_sigv4,
  is_presigned_request, method_allowed, is_write,
}
use telezon_s.Auth.Policy.{Allowed, authorize-Allowed, authorize_precheck}
use telezon_s.Examples.Data.{db_with, pics, request, signed_by_ann}

abbrev willing : Verifier
willing request payload key secret timed = true

abbrev no_date : String → Option ℕ
no_date text = none

abbrev deletion : Request
deletion = request "DELETE" signed_by_ann []

authorized_run :
    authorize_request_for_bucket willing no_date 100 pics deletion (db_with []) none none ≡ auth_ok
unfolding authorize_request_for_bucket extract_access_key authorize_identity identity_or_owner
    resolve_identity verify_sigv4 is_presigned_request method_allowed is_write
authorized_run = refl

authorize-Allowed_example : Allowed willing no_date 100 pics deletion (db_with []) none none
authorize-Allowed_example =
    authorize-Allowed willing no_date 100 pics deletion (db_with []) none none authorized_run

authorize_precheck_example :
    (authorize_request_for_bucket willing no_date 100 pics deletion (db_with []) none none
      ≡ auth_signature)
    ⊎ (authorize_request_for_bucket willing no_date 100 pics deletion (db_with []) none none
        ≡ precheck_request_for_bucket pics deletion (db_with []))
authorize_precheck_example =
    authorize_precheck willing no_date 100 pics deletion (db_with []) none none
