-- ===== src/Examples/Copies.antt =====
-- Copying an object within its bucket, and a request that names no source.
use telezon_s.Prelude.{ℕ, ◌≡◌, ◌≢◌, refl, some, List, [], ◌∷◌, arith}
use telezon_s.Model.{BlobRow}
use telezon_s.Http.{Request, Response}
use telezon_s.Service.{serve}
use telezon_s.Copies.{Copying, copy, admit_copy, copy_object, parse_copy_source, copy_response}
use telezon_s.Copies.Failures.{copy_object_fails}
use telezon_s.Examples.Memory.{service}
use telezon_s.Examples.Data.{
  config, db_with, world_with, row, live, plain_base, request, signed_by_ann, pics,
}

-- "a" lies in message 5 and is copied over "b", which lies in message 3
abbrev both : List BlobRow
both = row (plain_base "a" [] 1 (some 5)) ∷ row (plain_base "b" [] 1 (some 3)) ∷ []

abbrev copying : Request
copying = request "PUT" (("x-amz-copy-source", "/pics/a") ∷ signed_by_ann) []

abbrev job : Copying
job = record {
  directive = copy;
  src_bucket = "pics";
  src_key = "a";
  dest = pics;
  source = pics;
  blob = live (plain_base "a" [] 1 (some 5));
}

abbrev answer : Response
answer =
    copy_response service 100
      (record (plain_base "b" [] 1 (some 5)) { content_type = "application/octet-stream" })

abbrev sourceless : Request
sourceless = request "PUT" signed_by_ann []

sourceless_run :
    (serve
      (world_with both)
      (copy_object service config sourceless "pics" "b" (world_with both))).0.status
    ≡ 400
unfolding copy_object serve admit_copy parse_copy_source
sourceless_run = refl

bad_request : ◌≢◌ {A = ℕ} 400 200
bad_request h = omega (arith, h)

copy_object_fails_example :
    (serve
      (world_with both)
      (copy_object service config sourceless "pics" "b" (world_with both))).1.db
    ≡ db_with both
copy_object_fails_example =
    copy_object_fails service config sourceless "pics" "b" (world_with both)
      (rw (sourceless_run) bad_request)
