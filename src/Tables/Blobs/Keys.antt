-- ===== src/Tables/Blobs/Keys.antt =====
-- How `crud_get_all_blobs` finds the object of one key, and that a comma in a key defeats it.
use Prim.Native.Char.{Char, code}
use mathlib.Core.Path.{fun_ext}
use telezon_s.Prelude.{
  ℕ, ◌≡◌, refl, Bool, true, false, ◌&&◌, ◌||◌, Option, some, List, [], ◌∷◌, String, arith, ◌==◌,
  string_eq, nat_beq, eq_iff, find, any, select, head?, take, or_none, Option-cases, inl, inr,
  Bool-cases, ap, ◌∙◌, suc, zero, drop,
}
use telezon_s.Model.{Db, BlobRow, Blob, Bucket}
use telezon_s.Model.Lookup.{crud_get_bucket_by_name}
use telezon_s.Tables.Blobs.{
  before_pieces, close_commas, split_commas, names_in, admits, join_owner, joined,
  crud_get_all_blobs, at_key, is_at, crud_get_blob_in_bucket,
}

abbrev pub has_comma : String → Bool
has_comma String.[] = false
has_comma (String.◌∷◌ c s) = nat_beq (code c) b',' || has_comma s

close_commas-plain : (s : String) → has_comma s ≡ false → close_commas s ≡ s
unfolding close_commas
close_commas-plain String.[] h = refl
close_commas-plain (String.◌∷◌ c String.[]) h = refl
close_commas-plain (String.◌∷◌ c (String.◌∷◌ d s)) h =
    ground (arith, close_commas-plain (String.◌∷◌ d s))

split_commas-plain : (s : String) → has_comma s ≡ false → split_commas s ≡ s ∷ []
unfolding split_commas
split_commas-plain String.[] h = refl
split_commas-plain (String.◌∷◌ c s) h =
    rw (split_commas-plain s (ground arith), split_commas) (ground arith)

-- a name that is given, and that a filter can carry alone
pub record IsPlain (name : String) : Type 0 where
  pub given : (name == "") ≡ false
  pub no_comma : has_comma name ≡ false

admits-plain : (name value : String) → IsPlain name → admits name value ≡ (value == name)
unfolding admits
admits-plain name value p =
    rw (p.given, close_commas-plain name p.no_comma, split_commas-plain name p.no_comma)
      (ground arith)

abbrev AllPlain : List String → Type 0
AllPlain [] = Unit
AllPlain (s ∷ ss) = (has_comma s ≡ false) × AllPlain ss

before_pieces-AllPlain :
    (c : Char) (pieces : List String) → AllPlain pieces → AllPlain (before_pieces c pieces)
unfolding before_pieces
before_pieces-AllPlain c [] h = ground arith
before_pieces-AllPlain c (piece ∷ rest) h = ground arith

split_commas-AllPlain : (s : String) → AllPlain (split_commas s)
unfolding split_commas
split_commas-AllPlain String.[] = (refl, tt)
split_commas-AllPlain (String.◌∷◌ c s) =
    before_pieces-AllPlain c (split_commas s) (split_commas-AllPlain s)

any-AllPlain :
    (key : String) (names : List String)
    → has_comma key ≡ true
    → AllPlain names
    → any (λ name. key == name) names ≡ false
any-AllPlain key [] h p = refl
any-AllPlain key (n ∷ ns) h p = ground (arith, any-AllPlain key ns, eq_iff key n)

not_blank : (key : String) → has_comma key ≡ true → (key == "") ≡ false
not_blank key h = elim (Bool-cases (key == "")) [
  | inl e ↦ cc (ap has_comma ((eq_iff key "").0 e))
  | inr e ↦ e
]

-- a filter for a key with a comma does not admit that key
pub admits_comma : (key : String) → has_comma key ≡ true → admits key key ≡ false
unfolding admits
admits_comma key h =
    rw
      (
        not_blank key h,
        any-AllPlain key (names_in key) h
            (unfold names_in in split_commas-AllPlain (close_commas key)),
      )
      refl

module _ (db : Db) (bucket : String) (b : Bucket)
    (known : crud_get_bucket_by_name db bucket ≡ some b) where
  -- a row of the bucket, as the query returns it
  abbrev pub as_blob : BlobRow → Blob
  as_blob row = record {
    base = row.base;
    bucket = b.row;
    owner = b.owner;
    created_at = row.created_at;
    updated_at = row.updated_at;
  }

  join_owner-at :
      (row : BlobRow) → row.bucket_name ≡ bucket → join_owner db row ≡ some (as_blob row)
  unfolding join_owner
  join_owner-at row e = rw (e, known) refl

  abbrev found : Option BlobRow → Option Blob
  found o = or_none o (λ row. some (as_blob row))

  head-joined :
      (n : ℕ) (key : String) (rows : List BlobRow)
      → head? (
          take
            (suc n)
            (joined db (select (λ row. row.path == key && row.bucket_name == bucket) rows)))
        ≡ found (find (is_at bucket key) rows)
  unfolding joined
  head-joined n key [] = refl
  head-joined n key (row ∷ rows) =
      ground (arith, head-joined n key rows, join_owner-at row, eq_iff row.bucket_name bucket)

  -- In a bucket that exists, for a bucket name and a key that are not blank and have no comma: the
  -- first object of the query is the row of that bucket and key, and there is none if there is no
  -- such row.
  pub head-crud_get_all_blobs :
      (key : String)
      → IsPlain bucket
      → IsPlain key
      → head? (crud_get_all_blobs db (at_key bucket key))
        ≡ or_none (crud_get_blob_in_bucket db bucket key) (λ row. some (as_blob row))
  unfolding crud_get_all_blobs crud_get_blob_in_bucket
  head-crud_get_all_blobs key pb pk =
      ap (λ (p : BlobRow → Bool). head? (take 20 (joined db (select p db.blobs))))
        (fun_ext
          λ row. rw (admits-plain key row.path pk, admits-plain bucket row.bucket_name pb) refl)
      ∙ head-joined 19 key db.blobs

module _ (q : Blob → Bool) where
  any-take : (n : ℕ) (bs : List Blob) → any q bs ≡ false → any q (take n bs) ≡ false
  any-take zero bs h = refl
  any-take (suc n) [] h = refl
  any-take (suc n) (b ∷ bs) h = ground (arith, any-take n bs)

  any-drop : (n : ℕ) (bs : List Blob) → any q bs ≡ false → any q (drop n bs) ≡ false
  any-drop zero bs h = h
  any-drop (suc n) [] h = refl
  any-drop (suc n) (b ∷ bs) h = any-drop n bs (ground arith)

module _ (db : Db) (key : String) (comma : has_comma key ≡ true) where
  abbrev at_that_key : Blob → Bool
  at_that_key b = b.path == key

  path-join_owner : (row : BlobRow) (b : Blob) → join_owner db row ≡ some b → b.path ≡ row.path
  unfolding join_owner
  path-join_owner row b h = ground arith

  any-joined :
      (bucket : String) (rows : List BlobRow)
      → any at_that_key
          (joined db (select (λ row. admits key row.path && admits bucket row.bucket_name) rows))
        ≡ false
  unfolding joined
  any-joined bucket [] = refl
  any-joined bucket (row ∷ rows) = elim (Option-cases (join_owner db row)) [
    | inl e ↦ ground (arith, any-joined bucket rows)
    | inr (b, e) ↦ ground (
      arith,
      any-joined bucket rows,
      path-join_owner row b e,
      admits_comma key comma,
      eq_iff b.path key,
    )
  ]

  -- With a comma in the key, the query for it never returns an object of that key, whatever the
  -- table holds.
  pub comma_key_unseen :
      (bucket : String) → any at_that_key (crud_get_all_blobs db (at_key bucket key)) ≡ false
  unfolding crud_get_all_blobs
  comma_key_unseen bucket =
      any-take at_that_key 20 _ (any-drop at_that_key 0 _ (any-joined bucket db.blobs))
