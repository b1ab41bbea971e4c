-- ===== src/Buckets.antt =====
-- app/s3/handlers/bucket_ops.py and app/s3/handlers/list_buckets.py, with `resolve_user_from_request`
-- of app/s3/auth.py and the list of buckets of app/s3/xml.py.
pub mod Emptied
use telezon_s.Prelude.{
  ℕ, Bool, true, false, ◌&&◌, ◌||◌, not, Option, none, some, List, [], ◌∷◌, ◌++◌, String, ◌<>◌,
  ◌==◌, string_eq, if◌then◌else◌, select, any, is_empty, is_some, or_none,
}
use telezon_s.Outcome.{Result, ok, err}
use telezon_s.Model.{Config, Db, Bucket, UserRow, TrashItem}
use telezon_s.Model.Lookup.{
  crud_get_bucket_by_name, crud_get_user_by_access_key_id, crud_get_user_by_username,
}
use telezon_s.Tables.Buckets.{
  crud_get_all_buckets, crud_create_bucket, crud_delete_bucket, crud_bucket_has_objects,
}
use telezon_s.Tables.Uploads.{crud_list_multipart_uploads}
use telezon_s.Tables.Trash.{crud_delete_trash_for_bucket}
use telezon_s.Telegram.World.{World}
use telezon_s.Lifecycle.{purge_trash_item}
use telezon_s.Auth.{AccessIdentity, can_create_bucket, resolve_verified_identity}
use telezon_s.Http.{
  Request, Response, Flow, next, reply, raise, plain, return_if, some_or, s3_error_response,
  xml_response, ◌>>=◌, ◌>>◌,
}
use telezon_s.Http.Subresources.{reject_unsupported_subresource}
use telezon_s.Http.Text.{escape}
use telezon_s.Service.{Service, Answer, after}
use telezon_s.Objects.Put.{authorized_bucket}

-- a user with the access key of the identity, or its owner
unfoldable pub user_of_identity : Db → AccessIdentity → Option UserRow
unfolding crud_get_user_by_access_key_id crud_get_user_by_username
user_of_identity db identity = elim (crud_get_user_by_access_key_id db identity.access_key_id) [
  | some user ↦ some user
  | none ↦ crud_get_user_by_username db identity.owner_username
]

-- the scope of a credential: `buckets = []` stands for None
abbrev pub in_credential_scope : AccessIdentity → List Bucket → List Bucket
in_credential_scope identity buckets =
    if is_empty identity.buckets
    then buckets
    else select (λ b. any (λ name. name == b.row.name) identity.buckets) buckets

module _ (E : Service) where
  unfoldable pub resolve_identity_from_request :
      ℕ → Db → Request → Option (List ℕ) → Option AccessIdentity
  resolve_identity_from_request now db request body =
      resolve_verified_identity E.verifier E.strptime now db request body

  unfoldable pub resolve_user_from_request : ℕ → Db → Request → Option (List ℕ) → Option UserRow
  unfolding resolve_identity_from_request user_of_identity
  resolve_user_from_request now db request body =
      or_none (resolve_identity_from_request now db request body) (user_of_identity db)

  unfoldable pub bucket_xml : List Bucket → String
  unfolding escape
  bucket_xml [] = ""
  bucket_xml (b ∷ bs) =
      "<Bucket><Name>"
      <> escape b.row.name
      <> "</Name><CreationDate>"
      <> E.iso b.row.created_at
      <> "</CreationDate></Bucket>"
      <> bucket_xml bs

  unfoldable pub build_list_buckets_xml : List Bucket → String → String → String
  unfolding bucket_xml escape
  build_list_buckets_xml buckets owner_id owner_display =
      "<?xml version=\"1.0\" encoding=\"UTF-8\"?>"
      <> "<ListAllMyBucketsResult xmlns=\"http://s3.amazonaws.com/doc/2006-03-01/\"><Owner><ID>"
      <> escape owner_id
      <> "</ID><DisplayName>"
      <> escape owner_display
      <> "</DisplayName></Owner><Buckets>"
      <> bucket_xml buckets
      <> "</Buckets></ListAllMyBucketsResult>"

  -- the buckets that a request is shown
  unfoldable pub listed_buckets : Db → AccessIdentity → UserRow → List Bucket
  unfolding crud_get_all_buckets
  listed_buckets db identity user =
      in_credential_scope identity (crud_get_all_buckets db "" user.username 1000 0)

  unfoldable pub list_buckets : Request → World E.storage → Answer E.storage
  unfolding resolve_identity_from_request resolve_user_from_request listed_buckets
      build_list_buckets_xml
  list_buckets request w =
      after
        (do
          identity ←
              some_or (resolve_identity_from_request w.now w.db request none)
                (s3_error_response 403 "AccessDenied")
          user ←
              some_or (resolve_user_from_request w.now w.db request none)
                (s3_error_response 403 "AccessDenied")
          next (
              xml_response (
                build_list_buckets_xml (listed_buckets w.db identity user) identity.access_key_id
                  user.username)))
        w λ response. (ok response, w)

  -- the user that a bucket is created for
  unfoldable pub bucket_creator : World E.storage → Request → Flow UserRow
  unfolding reject_unsupported_subresource resolve_identity_from_request resolve_user_from_request
      can_create_bucket
  bucket_creator w request = do
    reject_unsupported_subresource request
    identity ←
        some_or (resolve_identity_from_request w.now w.db request (some []))
          (s3_error_response 403 "AccessDenied")
    return_if (not (can_create_bucket identity)) (s3_error_response 403 "AccessDenied")
    some_or (resolve_user_from_request w.now w.db request (some []))
        (s3_error_response 403 "AccessDenied")

  -- a name that is taken, by the user or by another
  unfoldable pub refuse_taken : Db → String → UserRow → Flow (Unit {0})
  unfolding crud_get_bucket_by_name
  refuse_taken db bucket_name user = elim (crud_get_bucket_by_name db bucket_name) [
    | none ↦ next tt
    | some existing ↦
        if existing.owner.username == user.username
        then reply (s3_error_response 409 "BucketAlreadyOwnedByYou")
        else reply (s3_error_response 409 "BucketAlreadyExists")
  ]

  unfoldable pub created_bucket : World E.storage → String → Result Db → Answer E.storage
  created_bucket w bucket_name (err e) = (err e, w)
  created_bucket w bucket_name (ok db) =
      (ok (plain 200 (("Location", "/" <> bucket_name) ∷ [])), record w { db = db })

  unfoldable pub create_bucket : Request → String → World E.storage → Answer E.storage
  unfolding bucket_creator refuse_taken created_bucket
  create_bucket request bucket_name w =
      after (do user ← bucket_creator w request; refuse_taken w.db bucket_name user; next user) w
        λ user.
          created_bucket w bucket_name (crud_create_bucket w.now w.db bucket_name user.username)

  module _ (cfg : Config) where
    unfoldable pub head_bucket : Request → String → World E.storage → Answer E.storage
    unfolding reject_unsupported_subresource authorized_bucket
    head_bucket request bucket_name w =
        after
          (do reject_unsupported_subresource request; authorized_bucket E cfg w request bucket_name)
          w λ bucket. (ok (plain 200 (("x-amz-bucket-region", "us-east-1") ∷ [])), w)

    -- the bucket that may be deleted
    unfoldable pub deletable_bucket : World E.storage → Request → String → Flow Bucket
    unfolding reject_unsupported_subresource authorized_bucket crud_bucket_has_objects
    deletable_bucket w request bucket_name = do
      reject_unsupported_subresource request
      bucket ← authorized_bucket E cfg w request bucket_name
      return_if (crud_bucket_has_objects w.db bucket_name) (s3_error_response 409 "BucketNotEmpty")
      return_if (not (is_empty (crud_list_multipart_uploads w.db bucket_name "" "" "" 1)))
          (s3_error_response 409 "BucketNotEmpty")
      next bucket

    unfoldable pub purge_trash_items :
        World E.storage → List TrashItem → Option String → World E.storage
    unfolding purge_trash_item
    purge_trash_items w [] chat = w
    purge_trash_items w (item ∷ items) chat =
        purge_trash_items (purge_trash_item E.storage w item chat) items chat

    -- behind the deletion of the row: the bucket's trash is purged
    unfoldable pub purge_bucket :
        World E.storage → String → Option String → Result (Bool × Db) → Answer E.storage
    unfolding purge_trash_items crud_delete_trash_for_bucket
    purge_bucket w bucket_name chat (err e) = (err e, w)
    purge_bucket w bucket_name chat (ok (deleted, db)) =
        let (items, db') = crud_delete_trash_for_bucket db bucket_name in
        (ok (plain 204 []), purge_trash_items (record w { db = db' }) items chat)

    unfoldable pub delete_bucket : Request → String → World E.storage → Answer E.storage
    unfolding deletable_bucket purge_bucket
    delete_bucket request bucket_name w = after (deletable_bucket w request bucket_name) w λ bucket.
        purge_bucket w bucket_name bucket.row.telegram_chat_id (crud_delete_bucket w.db bucket_name)
