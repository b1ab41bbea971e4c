-- ===== src/Auth.antt =====
-- app/s3/auth.py: who a request comes from, and what it may do to a bucket.
-- The verification of the signature itself is app/s3/awssig.py over HMAC-SHA256, and is a parameter
-- `verify_sigv4`: the request, the access key and the secret key that it is checked against, and the
-- payload's SHA-256 or body that the handler passes.
pub mod Policy
use telezon_s.Prelude.{
  ℕ, ◌+◌, ◌≤◌, Bool, true, false, ◌&&◌, ◌||◌, not, Option, none, some, List, [], ◌∷◌, String, ◌==◌,
  string_eq, nat_beq, ltb, leb, if◌then◌else◌, is_empty, any, is_some, or_none, starts_with, map,
}
use telezon_s.Model.{Db, UserRow, Bucket, CredentialRow}
use telezon_s.Model.Lookup.{
  crud_get_user_by_access_key_id, crud_get_credential_by_access_key, crud_get_user_by_username,
}
use telezon_s.Http.{Request, header, param, has_param, or_blank, Response, s3_error_response}
use telezon_s.Http.Body.{body_of}
use telezon_s.Tables.Blobs.{split_commas}
use telezon_s.Http.Text.{
  strip_text, before_char, behind_char, skip, is_blank, int_of_text, Integer, natural, negative,
  not_a_number,
}

pub data AuthCode : Type 0 where
  auth_ok auth_signature auth_denied auth_missing : AuthCode

-- `buckets = []` stands for None: every bucket of the owner.
pub record AccessIdentity : Type 0 where
  pub access_key_id : String
  pub secret_key : String
  pub owner_username : String
  pub role : String
  pub buckets : List String
  pub is_primary : Bool

unfoldable pub allows_bucket : AccessIdentity → String → Bool
allows_bucket identity bucket_name =
    if is_empty identity.buckets then true else any (λ b. b == bucket_name) identity.buckets

unfoldable pub can_read : AccessIdentity → Bucket → Bool
unfolding allows_bucket
can_read identity bucket =
    if not (bucket.owner.username == identity.owner_username)
    then false
    else allows_bucket identity bucket.row.name

unfoldable pub can_write : AccessIdentity → Bucket → Bool
unfolding can_read
can_write identity bucket =
    if not (can_read identity bucket)
    then false
    else identity.role == "owner" || identity.role == "readwrite"

unfoldable pub can_create_bucket : AccessIdentity → Bool
can_create_bucket identity =
    if identity.is_primary then true else identity.role == "readwrite" && is_empty identity.buckets

-- the access key of the first part of the header that is a credential
unfoldable pub credential_key : List String → Option String
unfolding strip_text before_char behind_char
credential_key [] = none
credential_key (part ∷ parts) =
    let later = credential_key parts in
    if starts_with (strip_text part) "Credential="
    then some (before_char b'/' (behind_char b'=' (strip_text part)))
    else later

unfoldable pub header_key : String → Option String
unfolding credential_key split_commas skip
header_key auth =
    if starts_with auth "AWS4-HMAC-SHA256 "
    then credential_key (split_commas (skip "AWS4-HMAC-SHA256 " auth))
    else none

-- A key that is empty counts as none where the handlers test it.
unfoldable pub extract_access_key : Request → Option String
unfolding header_key before_char
extract_access_key request = elim (header_key (or_blank (header request "authorization"))) [
  | some key ↦ some key
  | none ↦
      if is_blank (or_blank (param request "X-Amz-Credential"))
      then none
      else some (before_char b'/' (or_blank (param request "X-Amz-Credential")))
]

unfoldable pub is_presigned_request : Request → Bool
is_presigned_request request =
    or_blank (param request "X-Amz-Algorithm") == "AWS4-HMAC-SHA256"
    && has_param request "X-Amz-Signature"

-- `_presign_still_valid`, with the clock, and `datetime.strptime` as a parameter
unfoldable pub within_window : ℕ → ℕ → ℕ → Bool
within_window now started expires =
    if ltb (now + 900) started then false else leb now (started + expires)

unfoldable pub presign_window : (String → Option ℕ) → ℕ → Request → ℕ → Bool
unfolding within_window
presign_window parse_amz_date now request expires =
    if nat_beq expires 0 || ltb 604800 expires
    then false
    else elim (or_none (param request "X-Amz-Date") parse_amz_date) [
      | none ↦ false
      | some started ↦ within_window now started expires
    ]

abbrev pub expires_text : Option String → String
expires_text none = "0"
expires_text (some v) = v

unfoldable pub presign_still_valid : (String → Option ℕ) → ℕ → Request → Bool
unfolding presign_window
presign_still_valid parse_amz_date now request =
    elim (int_of_text (expires_text (param request "X-Amz-Expires"))) [
      | natural expires ↦ presign_window parse_amz_date now request expires
      | negative n ↦ false
      | not_a_number ↦ false
    ]

unfoldable pub resolve_identity : Db → String → Option AccessIdentity
unfolding crud_get_user_by_access_key_id crud_get_credential_by_access_key
resolve_identity db access_key_id = elim (crud_get_user_by_access_key_id db access_key_id) [
  | some user ↦ some (record {
    access_key_id = user.access_key_id;
    secret_key = user.secret_key;
    owner_username = user.username;
    role = "owner";
    buckets = [];
    is_primary = true;
  })
  | none ↦ or_none (crud_get_credential_by_access_key db access_key_id) λ cred. some (record {
    access_key_id = cred.access_key_id;
    secret_key = cred.secret_key;
    owner_username = cred.owner_username;
    role = cred.role;
    buckets = cred.buckets;
    is_primary = false;
  })
]

-- the identity that the owner's primary key stands for
unfoldable pub owner_identity : UserRow → AccessIdentity
owner_identity owner = record {
  access_key_id = owner.access_key_id;
  secret_key = owner.secret_key;
  owner_username = owner.username;
  role = "owner";
  buckets = [];
  is_primary = true;
}

unfoldable pub identity_or_owner : Option AccessIdentity → UserRow → String → Option AccessIdentity
unfolding owner_identity
identity_or_owner (some identity) owner access_key = some identity
identity_or_owner none owner access_key =
    if access_key == owner.access_key_id then some (owner_identity owner) else none

-- `request.method in _WRITE_METHODS`
unfoldable pub is_write : Request → Bool
is_write request = any (λ m. m == request.method) ("PUT" ∷ "POST" ∷ "DELETE" ∷ "PATCH" ∷ [])

-- `_method_allowed`
unfoldable pub method_allowed : AccessIdentity → Request → Bucket → Bool
unfolding can_read can_write
method_allowed identity request bucket =
    if is_write request then can_write identity bucket else can_read identity bucket

-- What the signature is checked over: the code points of the payload's hash, or its bytes.
pub data Payload : Type 0 where
  hashed : List ℕ → Payload
  raw : List ℕ → Payload

abbrev pub payload_of : Request → Option (List ℕ) → Option (List ℕ) → Payload
payload_of request body (some sha256) = hashed sha256
payload_of request (some content) none = raw content
payload_of request none none =
    if any (λ m. m == request.method) ("GET" ∷ "HEAD" ∷ "DELETE" ∷ [])
    then raw []
    else raw (body_of request.chunks)

-- the headers that the verifier is given
abbrev pub signed_headers : Request → List (String × String)
signed_headers request =
    if is_presigned_request request && not (is_some (header request "x-amz-content-sha256"))
    then ("x-amz-content-sha256", "UNSIGNED-PAYLOAD") ∷ request.headers
    else request.headers

-- `AWSSigV4Verifier(...).verify()`: the request with the headers above, the payload, the access
-- key, its secret key, and whether the clock is compared.
abbrev pub Verifier : Type 0
Verifier = Request → Payload → String → String → Bool → Bool

module _ (verifier : Verifier) (parse_amz_date : String → Option ℕ) (now : ℕ) where
  unfoldable pub verify_sigv4 : Request → String → String → Option (List ℕ) → Option (List ℕ) → Bool
  unfolding is_presigned_request presign_still_valid
  verify_sigv4 request key secret body sha256 =
      let presigned = is_presigned_request request in
      if presigned && not (presign_still_valid parse_amz_date now request)
      then false
      else verifier (record request { headers = signed_headers request })
          (payload_of request body sha256) key secret (not presigned)

  unfoldable pub resolve_verified_identity : Db → Request → Option (List ℕ) → Option AccessIdentity
  unfolding extract_access_key resolve_identity
  resolve_verified_identity db request body = or_none (extract_access_key request) λ access_key.
      if is_blank access_key
      then none
      else or_none (resolve_identity db access_key) λ identity.
        if verify_sigv4 request identity.access_key_id identity.secret_key body none
        then some identity
        else none

  -- the two checks behind the identity
  unfoldable pub authorize_identity :
      Bucket → Request → Option (List ℕ) → Option (List ℕ) → Option AccessIdentity → AuthCode
  authorize_identity bucket request body sha256 none = auth_missing
  authorize_identity bucket request body sha256 (some identity) =
      if not (verify_sigv4 request identity.access_key_id identity.secret_key body sha256)
      then auth_signature
      else if not (method_allowed identity request bucket)
      then auth_denied
      else auth_ok

  unfoldable pub authorize_request_for_bucket :
      Bucket → Request → Db → Option (List ℕ) → Option (List ℕ) → AuthCode
  authorize_request_for_bucket bucket request db body sha256 = elim (extract_access_key request) [
    | none ↦ auth_missing
    | some access_key ↦
        if is_blank access_key
        then auth_missing
        else authorize_identity bucket request body sha256
            (identity_or_owner (resolve_identity db access_key) bucket.owner access_key)
  ]

  -- with `db=None`: the owner's primary key alone
  unfoldable pub authorize_owner_key :
      Bucket → Request → Option (List ℕ) → Option (List ℕ) → AuthCode
  authorize_owner_key bucket request body sha256 =
      if verify_sigv4 request bucket.owner.access_key_id bucket.owner.secret_key body sha256
      then auth_ok
      else auth_signature

unfoldable pub precheck_identity : Bucket → Request → Option AccessIdentity → AuthCode
precheck_identity bucket request none = auth_missing
precheck_identity bucket request (some identity) =
    if not (method_allowed identity request bucket) then auth_denied else auth_ok

unfoldable pub precheck_request_for_bucket : Bucket → Request → Db → AuthCode
precheck_request_for_bucket bucket request db = elim (extract_access_key request) [
  | none ↦ auth_missing
  | some access_key ↦
      if is_blank access_key
      then auth_missing
      else precheck_identity bucket request
          (identity_or_owner (resolve_identity db access_key) bucket.owner access_key)
]

unfoldable pub auth_error_response : AuthCode → Response
auth_error_response auth_denied = s3_error_response 403 "AccessDenied"
auth_error_response auth_missing = s3_error_response 403 "InvalidAccessKeyId"
auth_error_response auth_ok = s3_error_response 403 "SignatureDoesNotMatch"
auth_error_response auth_signature = s3_error_response 403 "SignatureDoesNotMatch"
