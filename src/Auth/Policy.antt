-- ===== src/Auth/Policy.antt =====
-- What an authorised request may do.
use telezon_s.Prelude.{
  ℕ, ◌≡◌, refl, true, false, Option, none, some, List, String, string_eq, Option-cases, ◌⊎◌, inl,
  inr, arith, eq_iff,
}
use telezon_s.Model.{Db, Bucket}
use telezon_s.Http.{Request}
use telezon_s.Auth.{
  auth_ok, auth_signature, AccessIdentity, Verifier, can_write, can_read, allows_bucket,
  verify_sigv4, authorize_request_for_bucket, authorize_identity, precheck_request_for_bucket,
  precheck_identity, identity_or_owner, resolve_identity, extract_access_key, method_allowed,
  is_write,
}

-- the identity that an authorised request has shown, and what it may do
pub record Allowed (verifier : Verifier) (parse_amz_date : String → Option ℕ) (now : ℕ)
    (bucket : Bucket) (request : Request) (db : Db) (body : Option (List ℕ))
    (sha256 : Option (List ℕ)) : Type 0 where
  pub identity : AccessIdentity
  pub access_key : String
  pub key_sent : extract_access_key request ≡ some access_key
  pub known :
      identity_or_owner (resolve_identity db access_key) bucket.owner access_key ≡ some identity
  pub signed :
      verify_sigv4 verifier parse_amz_date now request identity.access_key_id identity.secret_key
        body sha256
      ≡ true
  pub same_owner : bucket.owner.username ≡ identity.owner_username
  pub in_scope : allows_bucket identity bucket.row.name ≡ true
  pub may_write :
      (is_write request ≡ false) ⊎ (identity.role ≡ "owner") ⊎ (identity.role ≡ "readwrite")

can_read_lem :
    (identity : AccessIdentity) (bucket : Bucket)
    → can_read identity bucket ≡ true
    → (bucket.owner.username ≡ identity.owner_username)
      × (allows_bucket identity bucket.row.name ≡ true)
unfolding can_read
can_read_lem identity bucket h =
    ground (arith, eq_iff bucket.owner.username identity.owner_username)

can_write_lem :
    (identity : AccessIdentity) (bucket : Bucket)
    → can_write identity bucket ≡ true
    → (can_read identity bucket ≡ true)
      × ((identity.role ≡ "owner") ⊎ (identity.role ≡ "readwrite"))
unfolding can_write
can_write_lem identity bucket h =
    ground (arith, eq_iff identity.role "owner", eq_iff identity.role "readwrite")

method_allowed-read :
    (identity : AccessIdentity) (request : Request) (bucket : Bucket)
    → method_allowed identity request bucket ≡ true
    → can_read identity bucket ≡ true
unfolding method_allowed
method_allowed-read identity request bucket h = ground (arith, can_write_lem identity bucket)

method_allowed-write :
    (identity : AccessIdentity) (request : Request) (bucket : Bucket)
    → method_allowed identity request bucket ≡ true
    → (is_write request ≡ false) ⊎ (identity.role ≡ "owner") ⊎ (identity.role ≡ "readwrite")
unfolding method_allowed
method_allowed-write identity request bucket h = ground (arith, can_write_lem identity bucket)

Allowed-of :
    (verifier : Verifier) (parse_amz_date : String → Option ℕ) (now : ℕ) (bucket : Bucket)
    (request : Request) (db : Db) (body : Option (List ℕ)) (sha256 : Option (List ℕ))
    (access_key : String) (identity : AccessIdentity)
    → extract_access_key request ≡ some access_key
    → identity_or_owner (resolve_identity db access_key) bucket.owner access_key ≡ some identity
    → verify_sigv4 verifier parse_amz_date now request identity.access_key_id identity.secret_key
        body sha256
      ≡ true
    → method_allowed identity request bucket ≡ true
    → Allowed verifier parse_amz_date now bucket request db body sha256
Allowed-of verifier parse_amz_date now bucket request db body sha256 access_key identity k i v m =
    let r = can_read_lem identity bucket (method_allowed-read identity request bucket m) in
    record {
      identity = identity;
      access_key = access_key;
      key_sent = k;
      known = i;
      signed = v;
      same_owner = r.0;
      in_scope = r.1;
      may_write = method_allowed-write identity request bucket m;
    }

authorize_identity-ok :
    (verifier : Verifier) (parse_amz_date : String → Option ℕ) (now : ℕ) (bucket : Bucket)
    (request : Request) (body : Option (List ℕ)) (sha256 : Option (List ℕ))
    (found : Option AccessIdentity)
    → authorize_identity verifier parse_amz_date now bucket request body sha256 found ≡ auth_ok
    → (identity : AccessIdentity) × (found ≡ some identity)
      × (verify_sigv4 verifier parse_amz_date now request identity.access_key_id identity.secret_key
            body sha256
          ≡ true)
      × (method_allowed identity request bucket ≡ true)
unfolding authorize_identity
authorize_identity-ok verifier parse_amz_date now bucket request body sha256 none h =
    absurd (ground arith)
authorize_identity-ok verifier parse_amz_date now bucket request body sha256 (some identity) h =
    (identity, refl, ground arith, ground arith)

authorize-key :
    (verifier : Verifier) (parse_amz_date : String → Option ℕ) (now : ℕ) (bucket : Bucket)
    (request : Request) (db : Db) (body : Option (List ℕ)) (sha256 : Option (List ℕ))
    → authorize_request_for_bucket verifier parse_amz_date now bucket request db body sha256
      ≡ auth_ok
    → (access_key : String) × (extract_access_key request ≡ some access_key)
      × (authorize_identity verifier parse_amz_date now bucket request body sha256
            (identity_or_owner (resolve_identity db access_key) bucket.owner access_key)
          ≡ auth_ok)
unfolding authorize_request_for_bucket
authorize-key verifier parse_amz_date now bucket request db body sha256 h =
    elim (Option-cases (extract_access_key request)) [
      | inl e ↦ absurd (ground arith)
      | inr (key, e) ↦ (key, e, ground arith)
    ]

-- A request that is authorised for a bucket has sent an access key that resolves to an identity,
-- its signature verifies under that identity's secret key, the bucket belongs to that identity's
-- owner and is in its scope, and if the method writes, the role is owner or readwrite.
pub authorize-Allowed :
    (verifier : Verifier) (parse_amz_date : String → Option ℕ) (now : ℕ) (bucket : Bucket)
    (request : Request) (db : Db) (body : Option (List ℕ)) (sha256 : Option (List ℕ))
    → authorize_request_for_bucket verifier parse_amz_date now bucket request db body sha256
      ≡ auth_ok
    → Allowed verifier parse_amz_date now bucket request db body sha256
authorize-Allowed verifier parse_amz_date now bucket request db body sha256 h =
    let (key, sent, passed) =
      authorize-key verifier parse_amz_date now bucket request db body sha256 h in
    let (identity, known, signed, may) =
      authorize_identity-ok verifier parse_amz_date now bucket request body sha256
        (identity_or_owner (resolve_identity db key) bucket.owner key) passed in
    Allowed-of verifier parse_amz_date now bucket request db body sha256 key identity sent known
      signed may

authorize_identity-precheck :
    (verifier : Verifier) (parse_amz_date : String → Option ℕ) (now : ℕ) (bucket : Bucket)
    (request : Request) (body : Option (List ℕ)) (sha256 : Option (List ℕ))
    (found : Option AccessIdentity)
    → (authorize_identity verifier parse_amz_date now bucket request body sha256 found
        ≡ auth_signature)
      ⊎ (authorize_identity verifier parse_amz_date now bucket request body sha256 found
          ≡ precheck_identity bucket request found)
unfolding authorize_identity precheck_identity
authorize_identity-precheck verifier parse_amz_date now bucket request body sha256 none = inr refl
authorize_identity-precheck verifier parse_amz_date now bucket request body sha256 (some identity) =
    ground arith

-- The cheap check before a body is read decides what the full check decides, but for the
-- signature: authorising answers that the signature is wrong, or as the precheck did.
pub authorize_precheck :
    (verifier : Verifier) (parse_amz_date : String → Option ℕ) (now : ℕ) (bucket : Bucket)
    (request : Request) (db : Db) (body : Option (List ℕ)) (sha256 : Option (List ℕ))
    → (authorize_request_for_bucket verifier parse_amz_date now bucket request db body sha256
        ≡ auth_signature)
      ⊎ (authorize_request_for_bucket verifier parse_amz_date now bucket request db body sha256
          ≡ precheck_request_for_bucket bucket request db)
unfolding authorize_request_for_bucket precheck_request_for_bucket
authorize_precheck verifier parse_amz_date now bucket request db body sha256 =
    elim (Option-cases (extract_access_key request)) [
      | inl e ↦ rw (authorize_request_for_bucket, precheck_request_for_bucket, e) (inr refl)
      | inr (key, e) ↦
          rw (authorize_request_for_bucket, precheck_request_for_bucket, e)
            (ground (
              arith,
              authorize_identity-precheck verifier parse_amz_date now bucket request body sha256
                  (identity_or_owner (resolve_identity db key) bucket.owner key),
            ))
    ]
