-- ===== src/Http/Subresources.antt =====
-- app/s3/subresources.py: query parameters that name an operation the server does not have.
use telezon_s.Prelude.{
  Bool, false, ◌||◌, Option, none, some, List, [], ◌∷◌, String, codes, codes_eq, lower, map, any,
  ◌==◌, string_eq, if◌then◌else◌, find,
}
use telezon_s.Range.{starts_with_codes}
use telezon_s.Http.{Request, Flow, next, reply, s3_error_response}

abbrev pub unsupported_subresources : List String
unsupported_subresources =
    "acl" ∷ "policy" ∷ "cors" ∷ "encryption" ∷ "notification" ∷ "replication" ∷ "website"
    ∷ "logging" ∷ "analytics" ∷ "metrics" ∷ "inventory" ∷ "accelerate" ∷ "requestPayment"
    ∷ "object-lock" ∷ "legal-hold" ∷ "retention" ∷ "torrent" ∷ "restore" ∷ "select"
    ∷ "intelligent-tiering" ∷ "ownershipControls" ∷ "publicAccessBlock" ∷ "versions" ∷ "lifecycle"
    ∷ "tagging" ∷ []

abbrev pub allowed_always : List String
allowed_always =
    "list-type" ∷ "prefix" ∷ "continuation-token" ∷ "start-after" ∷ "max-keys" ∷ "encoding-type"
    ∷ "delimiter" ∷ "uploads" ∷ "uploadId" ∷ "partNumber" ∷ "delete" ∷ "x-id" ∷ "key-marker"
    ∷ "upload-id-marker" ∷ "max-uploads" ∷ "location" ∷ "versioning" ∷ []

-- `name.lower() in names`
unfoldable pub lower_in : String → List String → Bool
unfolding lower codes_eq
lower_in name names = any (λ n. codes_eq (map lower (codes name)) (codes n)) names

unfoldable pub is_unsupported : String → Bool
unfolding lower_in starts_with_codes
is_unsupported name =
    if starts_with_codes (map lower (codes name)) (codes "x-amz-")
    then false
    else if lower_in name allowed_always
    then false
    else lower_in name unsupported_subresources || any (λ n. n == name) unsupported_subresources

unfoldable pub unsupported_subresource : Request → Option String
unfolding is_unsupported
unsupported_subresource request = find is_unsupported (map (λ (name, value). name) request.query)

unfoldable pub reject_unsupported_subresource : Request → Flow (Unit {0})
unfolding unsupported_subresource
reject_unsupported_subresource request = elim (unsupported_subresource request) [
  | none ↦ next tt
  | some name ↦ reply (s3_error_response 501 "NotImplemented")
]
