-- ===== src/Objects/Batch.antt =====
-- app/s3/handlers/delete_objects.py: deleting the objects that a document lists.
use telezon_s.Prelude.{
  ℕ, Bool, false, ◌||◌, not, Option, none, some, List, [], ◌∷◌, String, ◌<>◌, ◌==◌, string_eq,
  if◌then◌else◌, is_empty, ltb, length, codes, codes_eq, lower, map, strip,
}
use telezon_s.Outcome.{ok}
use telezon_s.Model.{Config, Bucket}
use telezon_s.Telegram.World.{World}
use telezon_s.Lifecycle.{bypass_trash_requested, delete_live_object}
use telezon_s.Auth.{precheck_request_for_bucket, auth_error_response}
use telezon_s.Http.{
  Request, Flow, next, header, has_param, or_blank, return_if, some_or, s3_error_response,
  xml_response, ◌>>=◌, ◌>>◌,
}
use telezon_s.Http.Body.{read_body_capped}
use telezon_s.Http.Subresources.{reject_unsupported_subresource}
use telezon_s.Http.Text.{is_blank, escape}
use telezon_s.Multipart.Checks.{upper, contains_codes, small_body}
use telezon_s.Service.{Service, Answer, after}
use telezon_s.Objects.{load_bucket_or_404, is_auth_ok, authorize}

-- `_MAX_DELETE_XML_BYTES` and `_MAX_DELETE_KEYS`
abbrev pub max_delete_xml_bytes : ℕ
max_delete_xml_bytes = 262144

abbrev pub max_delete_keys : ℕ
max_delete_keys = 1000

-- what the document asks for: the keys, and whether the answer is to leave them out
pub record DeleteRequest : Type 0 where
  pub keys : List String
  pub quiet : Bool

unfoldable pub given_keys : List (Option String) → List String
given_keys [] = []
given_keys (none ∷ keys) = given_keys keys
given_keys (some key ∷ keys) = let rest = given_keys keys in if key == "" then rest else key ∷ rest

-- `root.findtext("Quiet") or "false"`
unfoldable pub is_quiet : Option String → Bool
unfolding strip lower codes_eq
is_quiet none = false
is_quiet (some text) =
    let value = map lower (strip (codes text)) in
    codes_eq value (codes "true") || codes_eq value (codes "1")

unfoldable pub deleted_xml : List String → String
unfolding escape
deleted_xml [] = ""
deleted_xml (key ∷ keys) = "<Deleted><Key>" <> escape key <> "</Key></Deleted>" <> deleted_xml keys

-- Without errors: the deletions answer for the storage's exceptions themselves.
unfoldable pub delete_result_xml : List String → Bool → String
unfolding deleted_xml
delete_result_xml deleted quiet =
    "<?xml version=\"1.0\" encoding=\"UTF-8\"?><DeleteResult>"
    <> (if quiet then "" else deleted_xml deleted)
    <> "</DeleteResult>"

module _ (E : Service) (cfg : Config) where
  unfoldable pub parse_delete_xml : List ℕ → Flow DeleteRequest
  unfolding upper contains_codes given_keys is_quiet
  parse_delete_xml raw = do
    return_if
        (contains_codes (codes "<!DOCTYPE") (map upper raw)
          || contains_codes (codes "<!ENTITY") (map upper raw))
        (s3_error_response 400 "InvalidRequest")
    (quiet, keys) ← some_or (E.xml_delete raw) (s3_error_response 400 "InvalidRequest")
    next (record { keys = given_keys keys; quiet = is_quiet quiet })

  -- the bucket, and the request in its body, behind the guards
  unfoldable pub batch_request : World E.storage → Request → String → Flow (Bucket × DeleteRequest)
  unfolding reject_unsupported_subresource load_bucket_or_404 precheck_request_for_bucket is_auth_ok
      auth_error_response small_body read_body_capped parse_delete_xml
  batch_request w request bucket_name = do
    return_if (not (has_param request "delete")) (s3_error_response 501 "NotImplemented")
    reject_unsupported_subresource request
    bucket ← load_bucket_or_404 w.db bucket_name
    let pre = precheck_request_for_bucket bucket request w.db
    return_if (not (is_auth_ok pre)) (auth_error_response pre)
    raw ← small_body (read_body_capped request max_delete_xml_bytes)
    let auth = authorize E w.now bucket request w.db (some raw) none
    return_if (not (is_auth_ok auth)) (auth_error_response auth)
    return_if (is_blank (or_blank (header request "content-md5")))
        (s3_error_response 400 "InvalidRequest")
    return_if
        (not (or_blank (header request "content-md5") == E.crypto.b64encode (E.crypto.md5 raw)))
        (s3_error_response 400 "InvalidRequest")
    wanted ← parse_delete_xml raw
    return_if (is_empty wanted.keys || ltb max_delete_keys (length wanted.keys))
        (s3_error_response 400 "InvalidRequest")
    next (bucket, wanted)

  -- the loop over the keys
  unfoldable pub delete_keys :
      World E.storage → String → Option String → Bool → List String → World E.storage
  delete_keys w bucket_name chat bypass [] = w
  delete_keys w bucket_name chat bypass (key ∷ keys) =
      delete_keys
        (delete_live_object E.storage cfg w bucket_name key chat "" "delete_objects" bypass).1
        bucket_name chat bypass keys

  unfoldable pub delete_objects : Request → String → World E.storage → Answer E.storage
  unfolding batch_request delete_keys bypass_trash_requested delete_result_xml
  delete_objects request bucket_name w =
      after (batch_request w request bucket_name) w λ (bucket, wanted). (
        ok (xml_response (delete_result_xml wanted.keys wanted.quiet)),
        delete_keys w bucket_name bucket.row.telegram_chat_id
            (bypass_trash_requested (header request "x-telezon-bypass-trash")) wanted.keys,
      )
