-- ===== src/Examples/Tables.antt =====
-- The table of objects, and the disk cache.
use telezon_s.Prelude.{
  ◌≡◌, ◌≤◌, refl, false, none, some, List, [], ◌∷◌, String, arith, head?, any, ◌==◌, string_eq,
  if◌then◌else◌, or_none,
}
use telezon_s.Model.{Db, BlobBase}
use telezon_s.Model.Lookup.{crud_get_bucket_by_name}
use telezon_s.Tables.Blobs.{
  crud_create_blob, crud_delete_blob, crud_get_blob_in_bucket, crud_get_all_blobs, at_key,
}
use telezon_s.Tables.Blobs.Writes.{
  UniqueKeys, stored, same_key, crud_create_blob_lem, crud_delete_blob_lem,
}
use telezon_s.Tables.Blobs.Keys.{head-crud_get_all_blobs, comma_key_unseen, as_blob}
use telezon_s.Cache.{
  cache_get, cache_put, entry_key, empty_cache, too_full, evict, store_entry, oldest, delete_entry,
}
use telezon_s.Cache.Contents.{
  Write, put, run, history, total-run, cache_get-run, cache_get-cache_put,
}
use telezon_s.Listing.{rollup_with_delimiter}
use telezon_s.Listing.Pages.{IsPage, rollup_with_delimiter-IsPage}
use telezon_s.Cache.Accounting.{sum_sizes}
use telezon_s.Examples.Data.{config, db_with, row, plain_base, pics}

abbrev one_object : Db
one_object = db_with (row (plain_base "a" [] 1 none) ∷ [])

abbrev new_base : BlobBase
new_base = plain_base "b" [] 2 none

abbrev two_objects : Db
two_objects = db_with (
    row (plain_base "a" [] 1 none)
    ∷ (record { base = new_base; bucket_name = "pics"; created_at = 9; updated_at = 9 })
    ∷ [])

crud_create_blob_lem_example :
    UniqueKeys two_objects.blobs
    × ((b k : String)
        → stored two_objects b k
          ≡ (if same_key "pics" "b" b k then some new_base else stored one_object b k))
unfolding crud_create_blob crud_get_blob_in_bucket
crud_create_blob_lem_example =
    crud_create_blob_lem 9 one_object two_objects new_base "pics" false (refl, tt) refl

crud_delete_blob_lem_example :
    UniqueKeys (crud_delete_blob two_objects "pics" "a").1.blobs
    × ((crud_delete_blob two_objects "pics" "a").0 ≡ crud_get_blob_in_bucket two_objects "pics" "a")
    × ((b k : String)
        → crud_get_blob_in_bucket (crud_delete_blob two_objects "pics" "a").1 b k
          ≡ (if same_key "pics" "a" b k then none else crud_get_blob_in_bucket two_objects b k))
crud_delete_blob_lem_example = crud_delete_blob_lem two_objects "pics" "a" (refl, (refl, tt))

pics_known : crud_get_bucket_by_name two_objects "pics" ≡ some pics
unfolding crud_get_bucket_by_name
pics_known = refl

head-crud_get_all_blobs_example :
    head? (crud_get_all_blobs two_objects (at_key "pics" "b"))
    ≡ or_none
        (crud_get_blob_in_bucket two_objects "pics" "b")
        (λ row. some (as_blob two_objects "pics" pics pics_known row))
head-crud_get_all_blobs_example =
    head-crud_get_all_blobs two_objects "pics" pics pics_known "b"
      (record { given = refl; no_comma = refl }) (record { given = refl; no_comma = refl })

comma_key_unseen_example :
    any
      (λ b. b.base.path == "a,b")
      (crud_get_all_blobs (db_with (row (plain_base "a,b" [] 1 none) ∷ [])) (at_key "pics" "a,b"))
    ≡ false
comma_key_unseen_example =
    comma_key_unseen (db_with (row (plain_base "a,b" [] 1 none) ∷ [])) "a,b" refl "pics"

abbrev writes : List Write
writes =
    put "pics" "a" (1 ∷ 2 ∷ 3 ∷ 4 ∷ 5 ∷ 6 ∷ []) ∷ put "pics" "b" (1 ∷ 2 ∷ 3 ∷ 4 ∷ 5 ∷ 6 ∷ []) ∷ []

total-run_example :
    ((run config empty_cache writes).total ≡ sum_sizes (run config empty_cache writes).entries)
    × ((run config empty_cache writes).total ≤ 10)
total-run_example = total-run config writes

cache_get-run_example :
    history config (λ _. none) writes (entry_key "pics" "b") ≡ some (1 ∷ 2 ∷ 3 ∷ 4 ∷ 5 ∷ 6 ∷ [])
unfolding cache_get run cache_put too_full evict store_entry oldest delete_entry
cache_get-run_example =
    cache_get-run config refl writes "pics" "b" (1 ∷ 2 ∷ 3 ∷ 4 ∷ 5 ∷ 6 ∷ []) refl

cache_get-cache_put_example :
    cache_get config
      (cache_put config (run config empty_cache writes) "pics" "c" (7 ∷ []))
      "pics"
      "c"
    ≡ some (7 ∷ [])
cache_get-cache_put_example =
    cache_get-cache_put config refl writes "pics" "c" (7 ∷ []) (omega arith)

rollup_with_delimiter-IsPage_example : IsPage 2 (
    rollup_with_delimiter "" "/" 2 (
      row (plain_base "a/1" [] 1 none)
      ∷ row (plain_base "a/2" [] 1 none)
      ∷ row (plain_base "b" [] 1 none)
      ∷ []))
rollup_with_delimiter-IsPage_example =
    rollup_with_delimiter-IsPage "" "/" 2
      (row (plain_base "a/1" [] 1 none)
        ∷ row (plain_base "a/2" [] 1 none)
        ∷ row (plain_base "b" [] 1 none)
        ∷ [])
      (omega arith)
