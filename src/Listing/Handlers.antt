-- ===== src/Listing/Handlers.antt =====
-- app/s3/handlers/list_objects.py: the handlers; and app/s3/list_query.py.
use telezon_s.Prelude.{
  ℕ, Bool, true, ◌||◌, not, Option, none, some, String, ◌<>◌, ◌==◌, string_eq, if◌then◌else◌, max,
  min,
}
use telezon_s.Outcome.{ok}
use telezon_s.Model.{Config}
use telezon_s.Telegram.World.{World}
use telezon_s.Tables.Uploads.{crud_list_multipart_uploads}
use telezon_s.Http.{
  Request, Response, Flow, next, param, has_param, or_blank, return_if, s3_error_response,
  xml_response, ◌>>=◌, ◌>>◌,
}
use telezon_s.Http.Subresources.{reject_unsupported_subresource}
use telezon_s.Http.Text.{is_blank, int_of_text, Integer, natural, negative, not_a_number}
use telezon_s.Service.{Service, Answer, after}
use telezon_s.Objects.Put.{authorized_bucket}
use telezon_s.Listing.Page.{list_page}
use telezon_s.Listing.Xml.{build_list_objects_v2_xml, uploads_xml}

unfoldable pub looks_like_list_objects : Request → Bool
looks_like_list_objects request =
    has_param request "delimiter"
    || has_param request "prefix"
    || has_param request "max-keys"
    || has_param request "list-type"
    || has_param request "continuation-token"
    || has_param request "start-after"
    || has_param request "encoding-type"

-- `max(1, min(int(text), 1000))`, and 1000 where the text is no number
unfoldable pub clamped : Integer → ℕ
clamped (natural n) = max 1 (min n 1000)
clamped (negative n) = 1
clamped not_a_number = 1000

unfoldable pub page_size : Option String → ℕ
unfolding clamped int_of_text
page_size none = 1000
page_size (some text) = clamped (int_of_text text)

-- `continuation_token or start_after or ""`
abbrev pub effective_start : Request → String
effective_start request =
    if is_blank (or_blank (param request "continuation-token"))
    then or_blank (param request "start-after")
    else or_blank (param request "continuation-token")

abbrev pub location_xml : String
location_xml =
    "<?xml version=\"1.0\" encoding=\"UTF-8\"?>"
    <> "<LocationConstraint xmlns=\"http://s3.amazonaws.com/doc/2006-03-01/\">us-east-1"
    <> "</LocationConstraint>"

abbrev pub versioning_xml : String
versioning_xml =
    "<?xml version=\"1.0\" encoding=\"UTF-8\"?>"
    <> "<VersioningConfiguration xmlns=\"http://s3.amazonaws.com/doc/2006-03-01/\"/>"

abbrev pub object_lock_xml : String
object_lock_xml =
    "<?xml version=\"1.0\" encoding=\"UTF-8\"?>"
    <> "<ObjectLockConfiguration xmlns=\"http://s3.amazonaws.com/doc/2006-03-01\"/>"

-- without `list-type`, version 2 is meant
abbrev pub is_version_2 : Option String → Bool
is_version_2 none = true
is_version_2 (some version) = version == "2"

module _ (E : Service) (cfg : Config) where
  unfoldable pub list_multipart_uploads : World E.storage → Request → String → Flow Response
  unfolding reject_unsupported_subresource authorized_bucket page_size uploads_xml
      crud_list_multipart_uploads
  list_multipart_uploads w request bucket_name = do
    reject_unsupported_subresource request
    bucket ← authorized_bucket E cfg w request bucket_name
    let prefix = or_blank (param request "prefix")
    let key_marker = or_blank (param request "key-marker")
    let upload_id_marker = or_blank (param request "upload-id-marker")
    let max_uploads = page_size (param request "max-uploads")
    next (
        xml_response (
          uploads_xml E bucket_name prefix key_marker upload_id_marker max_uploads (
            crud_list_multipart_uploads w.db bucket_name prefix key_marker upload_id_marker
              max_uploads)))

  -- a constant document about a bucket
  unfoldable pub bucket_document : World E.storage → Request → String → String → Flow Response
  unfolding authorized_bucket
  bucket_document w request bucket_name document = do
    bucket ← authorized_bucket E cfg w request bucket_name
    next (xml_response document)

  unfoldable pub list_objects_v2 : World E.storage → Request → String → Flow Response
  unfolding reject_unsupported_subresource authorized_bucket page_size list_page
      build_list_objects_v2_xml
  list_objects_v2 w request bucket_name = do
    reject_unsupported_subresource request
    return_if (not (is_version_2 (param request "list-type")))
        (s3_error_response 501 "NotImplemented")
    bucket ← authorized_bucket E cfg w request bucket_name
    let prefix = or_blank (param request "prefix")
    let delimiter = or_blank (param request "delimiter")
    let max_keys = page_size (param request "max-keys")
    next (
        xml_response (
          build_list_objects_v2_xml E bucket_name prefix max_keys
            (list_page w.db bucket_name prefix delimiter (effective_start request) max_keys)
            (param request "continuation-token") (or_blank (param request "start-after"))
            delimiter))

  unfoldable pub list_objects : Request → String → World E.storage → Answer E.storage
  unfolding list_multipart_uploads bucket_document list_objects_v2
  list_objects request bucket_name w =
      after
        (if has_param request "uploads"
          then list_multipart_uploads w request bucket_name
          else if has_param request "location"
          then bucket_document w request bucket_name location_xml
          else if has_param request "versioning"
          then bucket_document w request bucket_name versioning_xml
          else if has_param request "object-lock"
          then bucket_document w request bucket_name object_lock_xml
          else list_objects_v2 w request bucket_name)
        w λ response. (ok response, w)
