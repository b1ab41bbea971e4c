-- ===== src/Model/Lookup.antt =====
-- Reads by primary key: app/crud/user.py, app/crud/credential.py and app/crud/bucket.py.
use telezon_s.Prelude.{String, Option, some, find, or_none, ◌==◌, string_eq}
use telezon_s.Model.{Db, UserRow, Bucket, CredentialRow}

unfoldable pub crud_get_user_by_username : Db → String → Option UserRow
crud_get_user_by_username db username = find (λ u. u.username == username) db.users

unfoldable pub crud_get_user_by_access_key_id : Db → String → Option UserRow
crud_get_user_by_access_key_id db key = find (λ u. u.access_key_id == key) db.users

unfoldable pub crud_get_credential_by_access_key : Db → String → Option CredentialRow
crud_get_credential_by_access_key db key = find (λ c. c.access_key_id == key) db.credentials

-- A bucket row whose owner is missing cannot occur: the owner is a foreign key.
unfoldable pub crud_get_bucket_by_name : Db → String → Option Bucket
unfolding crud_get_user_by_username
crud_get_bucket_by_name db name = or_none (find (λ b. b.name == name) db.buckets) λ row.
    or_none (crud_get_user_by_username db row.owner_username)
      λ owner. some (record { row = row; owner = owner })
