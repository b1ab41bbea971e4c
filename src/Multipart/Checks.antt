-- ===== src/Multipart/Checks.antt =====
-- app/s3/handlers/multipart.py: what `complete_multipart_upload` checks before it sends anything.
use telezon_s.Prelude.{
  ℕ, ◌||◌, Bool, ◌&&◌, not, Option, none, some, List, [], ◌∷◌, String, ◌==◌, string_eq, nat_eq,
  nat_beq, if◌then◌else◌, ltb, leb, length, is_empty, find, codes, map, ◌-◌,
}
use telezon_s.Outcome.{value_error, other}
use telezon_s.Range.{is_digits, int_of, starts_with_codes}
use telezon_s.Model.{Config, Db, Bucket, MultipartPartRow, MultipartUploadRow}
use telezon_s.Telegram.World.{World}
use telezon_s.Tables.Uploads.{crud_get_parts_for_complete}
use telezon_s.Auth.{precheck_request_for_bucket, auth_error_response}
use telezon_s.Http.{
  Request, Flow, next, reply, raise, header, return_if, some_or, s3_error_response, ◌>>=◌, ◌>>◌,
}
use telezon_s.Http.Text.{is_blank, int_of_text, Integer, natural, negative, not_a_number}
use telezon_s.Http.Body.{read_body_capped, Capped, fits, too_large}
use telezon_s.Service.{Service}
use telezon_s.Objects.{load_bucket_or_404, is_auth_ok, authorize}
use telezon_s.Multipart.{named_upload, upload_owner_ok, norm_etag}

-- `_MAX_COMPLETE_XML_BYTES`
abbrev pub max_complete_xml_bytes : ℕ
max_complete_xml_bytes = 262144

-- `bytes.upper`, and `needle in raw`
unfoldable pub upper : ℕ → ℕ
upper c = if leb b'a' c && leb c b'z' then c - 32 else c

unfoldable pub contains_codes : List ℕ → List ℕ → Bool
unfolding starts_with_codes
contains_codes needle [] = is_empty needle
contains_codes needle (c ∷ cs) = starts_with_codes (c ∷ cs) needle || contains_codes needle cs

unfoldable pub check_xml_length : Option String → Flow (Unit {0})
unfolding is_digits int_of
check_xml_length none = next tt
check_xml_length (some value) =
    if not (is_digits (codes value))
    then reply (s3_error_response 400 "InvalidRequest")
    else elim (int_of (codes value)) [
      | none ↦ raise value_error
      | some declared ↦
          return_if (ltb max_complete_xml_bytes declared) (s3_error_response 400 "InvalidRequest")
    ]

unfoldable pub small_body : Capped → Flow (List ℕ)
small_body (fits raw) = next raw
small_body (too_large size) = reply (s3_error_response 400 "InvalidRequest")

-- A part that is asked for: its number, and its normalised ETag. No part has a number below 0, and
-- all of those stand as `none`.
abbrev pub Wanted : Type 0
Wanted = Option ℕ × String

-- `int(num)`
unfoldable pub part_number_of : Integer → Flow (Option ℕ)
part_number_of (natural n) = next (some n)
part_number_of (negative n) = next (if nat_beq n 0 then some 0 else none)
part_number_of not_a_number = raise value_error

unfoldable pub requested_parts : List (Option String × Option String) → Flow (List Wanted)
unfolding int_of_text part_number_of norm_etag
requested_parts [] = next []
requested_parts ((none, etag) ∷ parts) = requested_parts parts
requested_parts ((some num, etag) ∷ parts) = do
  number ← part_number_of (int_of_text num)
  more ← requested_parts parts
  next ((number, norm_etag etag) ∷ more)

unfoldable pub wanted_numbers : List Wanted → List ℕ
wanted_numbers [] = []
wanted_numbers ((none, etag) ∷ more) = wanted_numbers more
wanted_numbers ((some number, etag) ∷ more) = number ∷ wanted_numbers more

-- `by_num[num]`, where a number that is not there raises KeyError
abbrev pub part_row : List MultipartPartRow → Option ℕ → Flow MultipartPartRow
part_row rows none = raise other
part_row rows (some number) = elim (find (λ p. p.part_number == number) rows) [
  | none ↦ raise other
  | some p ↦ next p
]

-- the loop over the ETags, with the rows that it looks up
unfoldable pub matching_rows : List MultipartPartRow → List Wanted → Flow (List MultipartPartRow)
unfolding norm_etag
matching_rows rows [] = next []
matching_rows rows ((number, etag) ∷ more) = do
  p ← part_row rows number
  return_if (not (is_blank etag) && not (norm_etag (some p.etag) == etag))
      (s3_error_response 400 "InvalidPart")
  rest ← matching_rows rows more
  next (p ∷ rest)

-- the loop over the sizes, in the order of the request
unfoldable pub check_sizes : Config → List MultipartPartRow → Flow (Unit {0})
check_sizes cfg [] = next tt
check_sizes cfg (p ∷ []) = next tt
check_sizes cfg (p ∷ q ∷ ps) = do
  return_if (ltb p.size cfg.multipart_min_part_bytes) (s3_error_response 400 "EntityTooSmall")
  check_sizes cfg (q ∷ ps)

-- The parts of an upload have different numbers by their primary key, so `by_num` has as many
-- entries as there are rows.
unfoldable pub select_parts : Config → Db → String → List Wanted → Flow (List MultipartPartRow)
unfolding crud_get_parts_for_complete wanted_numbers matching_rows check_sizes
select_parts cfg db upload_id wanted = do
  return_if (is_empty wanted) (s3_error_response 400 "InvalidRequest")
  let rows = crud_get_parts_for_complete db upload_id (wanted_numbers wanted)
  return_if (not (nat_beq (length rows) (length wanted))) (s3_error_response 400 "InvalidPart")
  parts ← matching_rows rows wanted
  check_sizes cfg parts
  next parts

-- what the handler has behind its checks
pub record Completion : Type 0 where
  pub upload : MultipartUploadRow
  pub bucket : Bucket
  pub parts : List MultipartPartRow

module _ (E : Service) (cfg : Config) where
  unfoldable pub parse_complete_xml : List ℕ → Flow (List (Option String × Option String))
  unfolding upper contains_codes
  parse_complete_xml raw = do
    return_if
        (contains_codes (codes "<!DOCTYPE") (map upper raw)
          || contains_codes (codes "<!ENTITY") (map upper raw)
          || ltb max_complete_xml_bytes (length raw))
        (s3_error_response 400 "InvalidRequest")
    some_or (E.xml_parts raw) (s3_error_response 400 "InvalidRequest")

  -- the guards up to the parsed body
  unfoldable pub completion_request : World E.storage → Request → Bucket → Flow (List Wanted)
  unfolding precheck_request_for_bucket is_auth_ok auth_error_response check_xml_length small_body
      read_body_capped upload_owner_ok parse_complete_xml requested_parts
  completion_request w request bucket = do
    let pre = precheck_request_for_bucket bucket request w.db
    return_if (not (is_auth_ok pre)) (auth_error_response pre)
    check_xml_length (header request "content-length")
    raw ← small_body (read_body_capped request max_complete_xml_bytes)
    let auth = authorize E w.now bucket request w.db (some raw) none
    return_if (not (is_auth_ok auth)) (auth_error_response auth)
    return_if (not (upload_owner_ok bucket request w.db)) (s3_error_response 403 "AccessDenied")
    root ← parse_complete_xml raw
    requested_parts root

  unfoldable pub completion : World E.storage → Request → String → String → String → Flow Completion
  unfolding named_upload load_bucket_or_404
  completion w request bucket_name key upload_id = do
    upload ← named_upload w.db upload_id bucket_name key
    bucket ← load_bucket_or_404 w.db bucket_name
    wanted ← completion_request w request bucket
    parts ← select_parts cfg w.db upload_id wanted
    next (record { upload = upload; bucket = bucket; parts = parts })
