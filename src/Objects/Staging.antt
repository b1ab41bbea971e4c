-- ===== src/Objects/Staging.antt =====
-- What a PUT without a customer's key has staged.
use telezon_s.Prelude.{
  ℕ, ◌≡◌, refl, sym, ap, ◌∙◌, none, some, List, String, string_eq, arith, length,
}
use telezon_s.Model.{Config, Db, Bucket}
use telezon_s.Model.Lookup.{crud_get_bucket_by_name}
use telezon_s.Telegram.World.{World, next_id}
use telezon_s.Http.{Request, Flow, next, bind-next, some_or-next, s3_error_response, ◌>>=◌, ◌>>◌}
use telezon_s.Service.{Service}
use telezon_s.Objects.Put.{
  Staged, unsealed, sealed_body, stage_object, stage_body, admit_upload, staged_body, refuse_stream,
  is_checked,
}
use telezon_s.Http.Body.{
  body_of, read_body_capped-Decided, Decided, kept, refused, Capped, read_body_capped,
}
use telezon_s.Objects.{load_bucket_or_404, authorize_before_stream, finalize_streamed_payload}
use telezon_s.Objects.Get.{sse_key_header}

Decided-fits :
    {max_bytes : ℕ} {whole : List ℕ} {body : Capped} {content : List ℕ}
    → Decided max_bytes whole body
    → staged_body body ≡ next content
    → content ≡ whole
unfolding staged_body
Decided-fits (kept small) h = ground arith
Decided-fits (refused n over most) h = absurd (ground arith)

module _ (E : Service) (cfg : Config) where
  sealed_body_plain :
      (id : String) (request : Request) (bucket key : String) (content : List ℕ)
      → sse_key_header request ≡ none
      → sealed_body E cfg id request bucket key content ≡ next (unsealed content)
  unfolding sealed_body
  sealed_body_plain id request bucket key content h = rw (sealed_body, h) refl

  bucket_found :
      (db : Db) (bucket_name : String) (bucket : Bucket)
      → load_bucket_or_404 db bucket_name ≡ next bucket
      → crud_get_bucket_by_name db bucket_name ≡ some bucket
  unfolding load_bucket_or_404
  bucket_found db bucket_name bucket h =
      some_or-next (crud_get_bucket_by_name db bucket_name) (s3_error_response 404 "NoSuchBucket") h

  staged_body_lem :
      (request : Request) (content : List ℕ)
      → staged_body (read_body_capped request cfg.max_upload_bytes) ≡ next content
      → content ≡ body_of request.chunks
  staged_body_lem request content h =
      Decided-fits (read_body_capped-Decided request cfg.max_upload_bytes) h

  next-injective :
      {staged rest : Staged} → ◌≡◌ {A = Flow Staged} (next staged) (next rest) → rest ≡ staged
  next-injective h = ground arith

  seal_lem :
      (w : World E.storage) (request : Request) (bucket : Bucket) (bucket_name key : String)
      (staged : Staged) (check : Flow (Unit {0})) (content : List ℕ)
      → sse_key_header request ≡ none
      → (check
          >> (sealed_body E cfg (next_id w) request bucket_name key content >>= λ sealed.
              next (record { bucket = bucket; size = length content; sealed = sealed })))
        ≡ next staged
      → staged ≡ record { bucket = bucket; size = length content; sealed = unsealed content }
  seal_lem w request bucket bucket_name key staged check content h s =
      let (u, passed, s1) = bind-next check s in
      next-injective (rw (sealed_body_plain (next_id w) request bucket_name key content h) at s1)

  stage_body_lem :
      (w : World E.storage) (request : Request) (bucket : Bucket) (bucket_name key : String)
      (staged : Staged)
      → sse_key_header request ≡ none
      → stage_body E cfg w request bucket bucket_name key ≡ next staged
      → staged ≡ record {
        bucket = bucket;
        size = length (body_of request.chunks);
        sealed = unsealed (body_of request.chunks);
      }
  unfolding stage_body
  stage_body_lem w request bucket bucket_name key staged h s =
      let (content, read, s1) =
        bind-next (staged_body (read_body_capped request cfg.max_upload_bytes)) s in
      let sealed =
        seal_lem w request bucket bucket_name key staged
          (refuse_stream (
            finalize_streamed_payload E w.now bucket request w.db (E.sha256 content)
              (is_checked (authorize_before_stream E w.now bucket request w.db))))
          content h s1 in
      rw (sym (staged_body_lem request content read)) sealed

  -- a PUT without a customer's key that reaches the storage has staged the body that was sent
  pub stage_object_lem :
      (w : World E.storage) (request : Request) (bucket key : String) (staged : Staged)
      → sse_key_header request ≡ none
      → stage_object E cfg w request bucket key ≡ next staged
      → (crud_get_bucket_by_name w.db bucket ≡ some staged.bucket)
        × (staged.sealed ≡ unsealed (body_of request.chunks))
        × (staged.size ≡ length (body_of request.chunks))
  unfolding stage_object
  stage_object_lem w request bucket key staged h s =
      let (b, found, s1) = bind-next (load_bucket_or_404 w.db bucket) s in
      let (u, admitted, s2) = bind-next (admit_upload E cfg w request b) s1 in
      let same = stage_body_lem w request b bucket key staged h s2 in
      (
        bucket_found w.db bucket b found ∙ ap some (sym (ap (λ t. t.bucket) same)),
        ap (λ t. t.sealed) same,
        ap (λ t. t.size) same,
      )
