-- ===== src/Listing/Xml.antt =====
-- app/s3/xml.py: `build_list_objects_v2_xml`; and the documents of
-- app/s3/handlers/list_objects.py.
use telezon_s.Prelude.{
  ℕ, ◌+◌, Bool, true, false, Option, none, some, List, [], ◌∷◌, String, ◌<>◌, if◌then◌else◌, length,
  last, take, ltb,
}
use telezon_s.Model.{BlobRow, MultipartUploadRow}
use telezon_s.Http.{or_blank}
use telezon_s.Http.Text.{is_blank, show_nat, escape}
use telezon_s.Objects.{object_etag}
use telezon_s.Service.{Service}
use telezon_s.Listing.Page.{ListPage}

abbrev pub bool_text : Bool → String
bool_text true = "true"
bool_text false = "false"

-- an element, left out where its text is empty
unfoldable pub optional_xml : String → String → String
unfolding escape
optional_xml tag text =
    if is_blank text then "" else "<" <> tag <> ">" <> escape text <> "</" <> tag <> ">"

unfoldable pub prefix_xml : List String → String
unfolding escape
prefix_xml [] = ""
prefix_xml (common ∷ commons) =
    "<CommonPrefixes><Prefix>"
    <> escape common
    <> "</Prefix></CommonPrefixes>"
    <> prefix_xml commons

module _ (E : Service) where
  unfoldable pub contents_xml : List BlobRow → String
  unfolding escape object_etag show_nat
  contents_xml [] = ""
  contents_xml (blob ∷ blobs) =
      "<Contents><Key>"
      <> escape blob.base.path
      <> "</Key><LastModified>"
      <> E.iso blob.updated_at
      <> "</LastModified><ETag>"
      <> escape (object_etag blob.base)
      <> "</ETag><Size>"
      <> show_nat blob.base.size
      <> "</Size><StorageClass>STANDARD</StorageClass></Contents>"
      <> contents_xml blobs

  unfoldable pub build_list_objects_v2_xml :
      String → String → ℕ → ListPage → Option String → String → String → String
  unfolding contents_xml prefix_xml optional_xml escape show_nat
  build_list_objects_v2_xml bucket_name prefix max_keys page continuation_token start_after
        delimiter =
      "<?xml version=\"1.0\" encoding=\"UTF-8\"?>"
      <> "<ListBucketResult xmlns=\"http://s3.amazonaws.com/doc/2006-03-01/\"><Name>"
      <> escape bucket_name
      <> "</Name><Prefix>"
      <> escape prefix
      <> "</Prefix><MaxKeys>"
      <> show_nat max_keys
      <> "</MaxKeys><KeyCount>"
      <> show_nat (length page.contents + length page.common_prefixes)
      <> "</KeyCount><IsTruncated>"
      <> bool_text page.is_truncated
      <> "</IsTruncated>"
      <> optional_xml "Delimiter" delimiter
      <> optional_xml "ContinuationToken" (or_blank continuation_token)
      <> optional_xml "NextContinuationToken" (or_blank page.next_token)
      <> optional_xml "StartAfter" start_after
      <> contents_xml page.contents
      <> prefix_xml page.common_prefixes
      <> "</ListBucketResult>"

  unfoldable pub upload_xml : List MultipartUploadRow → String
  unfolding escape
  upload_xml [] = ""
  upload_xml (u ∷ us) =
      "<Upload><Key>"
      <> escape u.key
      <> "</Key><UploadId>"
      <> escape u.upload_id
      <> "</UploadId><Initiated>"
      <> escape (E.iso u.initiated_at)
      <> "</Initiated></Upload>"
      <> upload_xml us

  abbrev pub key_of : Option MultipartUploadRow → String
  key_of none = ""
  key_of (some u) = u.key

  abbrev pub id_of : Option MultipartUploadRow → String
  id_of none = ""
  id_of (some u) = u.upload_id

  -- the rows are one more than the page holds, if there are as many
  unfoldable pub uploads_xml :
      String → String → String → String → ℕ → List MultipartUploadRow → String
  unfolding upload_xml escape show_nat
  uploads_xml bucket_name prefix key_marker upload_id_marker max_uploads rows =
      let truncated = ltb max_uploads (length rows) in
      let page = take max_uploads rows in
      let next = if truncated then last page else none in
      "<?xml version=\"1.0\" encoding=\"UTF-8\"?><ListMultipartUploadsResult><Bucket>"
      <> escape bucket_name
      <> "</Bucket><Prefix>"
      <> escape prefix
      <> "</Prefix><KeyMarker>"
      <> escape key_marker
      <> "</KeyMarker><UploadIdMarker>"
      <> escape upload_id_marker
      <> "</UploadIdMarker><NextKeyMarker>"
      <> escape (key_of next)
      <> "</NextKeyMarker><NextUploadIdMarker>"
      <> escape (id_of next)
      <> "</NextUploadIdMarker><MaxUploads>"
      <> show_nat max_uploads
      <> "</MaxUploads><IsTruncated>"
      <> bool_text truncated
      <> "</IsTruncated>"
      <> upload_xml page
      <> "</ListMultipartUploadsResult>"
