-- ===== src/Listing.antt =====
-- app/s3/xml.py: `rollup_with_delimiter`, the page of a listing with common prefixes.
pub mod Pages
pub mod Xml
pub mod Page
pub mod Handlers
pub mod Order
pub mod Walk
use telezon_s.Prelude.{
  ℕ, ◌+◌, Bool, true, false, ◌&&◌, not, Option, none, some, List, [], ◌∷◌, ◌++◌, String, ◌<>◌, ◌==◌,
  string_eq, any, if◌then◌else◌, leb, length, starts_with,
}
use telezon_s.Model.{BlobRow}
use telezon_s.Http.Text.{is_blank, skip}

-- `text.split(delimiter, 1)[0]` if the delimiter is in the text
unfoldable pub before_text : String → String → Option String
before_text delimiter String.[] = if starts_with "" delimiter then some "" else none
before_text delimiter (String.◌∷◌ c s) =
    let later = before_text delimiter s in
    if starts_with (String.◌∷◌ c s) delimiter
    then some ""
    else elim later [ none ↦ none | some head ↦ some (String.◌∷◌ c head) ]

pub record Rolled : Type 0 where
  pub contents : List BlobRow
  pub common_prefixes : List String
  pub truncated : Bool
  pub last_key : Option String

-- the common prefix that a key is folded into, if it is
unfoldable pub folded : String → String → String → Option String
unfolding before_text skip
folded prefix delimiter key = elim (before_text delimiter (skip prefix key)) [
  | none ↦ none
  | some head ↦ if is_blank delimiter then none else some (prefix <> head <> delimiter)
]

module _ (prefix delimiter : String) (max_keys : ℕ) where
  abbrev pub is_full : List BlobRow → List String → Bool
  is_full contents commons = leb max_keys (length contents + length commons)

  -- The loop, with what was collected and the key that was looked at last. A key under a prefix
  -- that was seen goes on without the test for a full page.
  unfoldable pub rollup_from : List BlobRow → List String → Option String → List BlobRow → Rolled
  rollup_from contents commons last [] = record {
    contents = contents;
    common_prefixes = commons;
    truncated = false;
    last_key = last;
  }
  rollup_from contents commons last (blob ∷ blobs) =
      let key = blob.base.path in
      elim (not (is_blank prefix) && not (starts_with key prefix)) [
        | true ↦ rollup_from contents commons (some key) blobs
        | false ↦ elim (folded prefix delimiter key) [
          | some common ↦ elim (any (λ seen. seen == common) commons) [
            | true ↦ rollup_from contents commons (some key) blobs
            | false ↦ elim (is_full contents (commons ++ common ∷ [])) [
              | true ↦ record {
                contents = contents;
                common_prefixes = commons ++ common ∷ [];
                truncated = true;
                last_key = some key;
              }
              | false ↦ rollup_from contents (commons ++ common ∷ []) (some key) blobs
            ]
          ]
          | none ↦ elim (is_full (contents ++ blob ∷ []) commons) [
            | true ↦ record {
              contents = contents ++ blob ∷ [];
              common_prefixes = commons;
              truncated = true;
              last_key = some key;
            }
            | false ↦ rollup_from (contents ++ blob ∷ []) commons (some key) blobs
          ]
        ]
      ]

  unfoldable pub rollup_with_delimiter : List BlobRow → Rolled
  unfolding rollup_from
  rollup_with_delimiter blobs = rollup_from [] [] none blobs
