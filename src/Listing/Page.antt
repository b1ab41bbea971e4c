-- ===== src/Listing/Page.antt =====
-- app/s3/handlers/list_objects.py: the page of objects that a listing answers.
use telezon_s.Prelude.{
  ℕ, ◌+◌, ◌*◌, Bool, ◌&&◌, ◌||◌, Option, none, some, List, [], String, ltb, leb, if◌then◌else◌,
  length, take, last, is_some, max, min, or_none,
}
use telezon_s.Model.{Db, BlobRow}
use telezon_s.Tables.Blobs.{crud_list_blobs_for_s3}
use telezon_s.Http.Text.{is_blank}
use telezon_s.Listing.{rollup_with_delimiter, Rolled}

-- what the XML document of a listing tells
pub record ListPage : Type 0 where
  pub contents : List BlobRow
  pub common_prefixes : List String
  pub is_truncated : Bool
  pub next_token : Option String

abbrev pub path_of : BlobRow → Option String
path_of row = some row.base.path

-- without a delimiter: one row more than the page holds is asked for
unfoldable pub plain_page : Db → String → String → String → ℕ → ListPage
unfolding crud_list_blobs_for_s3
plain_page db bucket_name prefix start max_keys =
    let rows = crud_list_blobs_for_s3 db bucket_name prefix start (max_keys + 1) in
    let page = take max_keys rows in
    record {
      contents = page;
      common_prefixes = [];
      is_truncated = ltb max_keys (length rows);
      next_token = if ltb max_keys (length rows) then or_none (last page) path_of else none;
    }

abbrev pub fetch_limit : ℕ → ℕ
fetch_limit max_keys = min 5000 (max (max_keys * 20) (max_keys + 1))

abbrev pub rolled_page : ℕ → List BlobRow → Rolled → ListPage
rolled_page max_keys rows rolled =
    let is_truncated =
      rolled.truncated || leb (fetch_limit max_keys) (length rows) && is_some rolled.last_key in
    record {
      contents = rolled.contents;
      common_prefixes = rolled.common_prefixes;
      is_truncated = is_truncated;
      next_token = if is_truncated then rolled.last_key else none;
    }

unfoldable pub delimited_page : Db → String → String → String → String → ℕ → ListPage
unfolding crud_list_blobs_for_s3 rollup_with_delimiter
delimited_page db bucket_name prefix delimiter start max_keys =
    let rows = crud_list_blobs_for_s3 db bucket_name prefix start (fetch_limit max_keys) in
    rolled_page max_keys rows (rollup_with_delimiter prefix delimiter max_keys rows)

unfoldable pub list_page : Db → String → String → String → String → ℕ → ListPage
unfolding plain_page delimited_page
list_page db bucket_name prefix delimiter start max_keys =
    if is_blank delimiter
    then plain_page db bucket_name prefix start max_keys
    else delimited_page db bucket_name prefix delimiter start max_keys
