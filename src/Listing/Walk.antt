-- ===== src/Listing/Walk.antt =====
-- A client that follows the continuation tokens sees the whole listing.
use mathlib.Core.Path.{subst, fun_ext}
use mathlib.Core.List.{append_assoc, append-nil}
use telezon_s.Prelude.{
  ℕ, zero, suc, ◌+◌, ◌<◌, ◌≡◌, refl, sym, ap, ◌∙◌, Bool, true, false, ◌&&◌, ◌||◌, none, some, List,
  [], ◌∷◌, ◌++◌, String, ◌==◌, string_eq, arith, select, take, drop, last, length, ltb,
  if◌then◌else◌, ltb→lt, take-drop, Bool-cases, inl, inr, take-over, length-take, length-drop,
  or_none,
}
use telezon_s.Model.{Collation, Db, BlobRow}
use telezon_s.Tables.Like.{prefix_pattern}
use telezon_s.Tables.Blobs.{sort_by_path, listed, crud_list_blobs_for_s3}
use telezon_s.Listing.Page.{list_page, plain_page, path_of}
use telezon_s.Listing.Order.{
  OrdersTexts, IsSorted, AllApart, sort_by_path-IsSorted, select-sort_by_path, select-behind,
}

-- the rows of a bucket under a prefix
abbrev pub under : Collation → String → String → BlobRow → Bool
under collation bucket prefix row =
    row.bucket_name == bucket && (prefix == "" || collation.like row.path (prefix_pattern prefix))

abbrev pub full_listing : Db → String → String → List BlobRow
full_listing db bucket prefix =
    sort_by_path db.collation.before (select (under db.collation bucket prefix) db.blobs)

-- the pages from `start` on, each from the token of the one before it
unfoldable pub all_pages : ℕ → Db → String → String → String → ℕ → List BlobRow
all_pages zero db bucket prefix start max_keys = []
all_pages (suc fuel) db bucket prefix start max_keys =
    let page = list_page db bucket prefix "" start max_keys in
    page.contents ++ elim page.next_token [
      | none ↦ []
      | some token ↦ all_pages fuel db bucket prefix token max_keys
    ]

abbrev behind_start : (String → String → Bool) → String → BlobRow → Bool
behind_start before start row = start == "" || before start row.path

-- no object has an empty key
abbrev pub AllNamed : List BlobRow → Type 0
AllNamed [] = Unit {0}
AllNamed (x ∷ xs) = ((x.base.path == "") ≡ false) × AllNamed xs

select-listed :
    (c : Collation) (bucket prefix start : String) (rows : List BlobRow)
    → select (listed c bucket prefix start) rows
      ≡ select (behind_start c.before start) (select (under c bucket prefix) rows)
select-listed c bucket prefix start [] = refl
select-listed c bucket prefix start (row ∷ rows) =
    ground (arith, select-listed c bucket prefix start rows)

upward_start :
    (before : String → String → Bool) (laws : OrdersTexts before) (start : String) (x y : BlobRow)
    → behind_start before start x ≡ true
    → behind_start before start y ≡ false
    → before y.base.path x.base.path ≡ true
upward_start before laws start x y h k = ground (arith, laws.across start y.base.path x.base.path)

-- the rows that a page is taken from
rows_behind :
    (db : Db) (laws : OrdersTexts db.collation.before) (bucket prefix start : String) (n : ℕ)
    → crud_list_blobs_for_s3 db bucket prefix start n
      ≡ take n (select (behind_start db.collation.before start) (full_listing db bucket prefix))
unfolding crud_list_blobs_for_s3
rows_behind db laws bucket prefix start n = ap (take n) (
    ap (sort_by_path db.collation.before) (select-listed db.collation bucket prefix start db.blobs)
    ∙ sym (
        select-sort_by_path db.collation.before laws (behind_start db.collation.before start)
          (upward_start db.collation.before laws start)
          (select (under db.collation bucket prefix) db.blobs)))

-- the last row of a page
module _ {ℓ} {A : Type ℓ} where
  last-append : (xs : List A) (x : A) → last (xs ++ x ∷ []) ≡ some x
  last-append [] x = refl
  last-append (y ∷ []) x = refl
  last-append (y ∷ z ∷ xs) x = last-append (z ∷ xs) x

  split_last :
      (n : ℕ) (xs : List A)
      → n < length xs
      → (ps : List A) × (t : A) × (take (suc n) xs ≡ ps ++ t ∷ [])
  split_last n [] h = absurd (omega (arith, h))
  split_last zero (x ∷ xs) h = ([], x, refl)
  split_last (suc n) (x ∷ xs) h =
      let (ps, t, e) = split_last n xs (omega (arith, h)) in (x ∷ ps, t, ap (x ∷◌) e)

  take-more : (n : ℕ) (xs : List A) → take n (take (suc n) xs) ≡ take n xs
  take-more zero xs = refl
  take-more (suc n) [] = refl
  take-more (suc n) (x ∷ xs) = ap (x ∷◌) (take-more n xs)

AllNamed-behind :
    (ps : List BlobRow) (t : BlobRow) (rest : List BlobRow)
    → AllNamed (ps ++ t ∷ rest)
    → (t.base.path == "") ≡ false
AllNamed-behind [] t rest a = a.0
AllNamed-behind (p ∷ ps) t rest a = AllNamed-behind ps t rest a.1

select_all :
    (before : String → String → Bool) (rows : List BlobRow)
    → select (behind_start before "") rows ≡ rows
select_all before [] = refl
select_all before (row ∷ rows) = ap (row ∷◌) (select_all before rows)

module _ (db : Db) (laws : OrdersTexts db.collation.before) (bucket prefix : String) where
  abbrev behind : String → List BlobRow
  behind start = select (behind_start db.collation.before start) (full_listing db bucket prefix)

  page_lem :
      (start : String) (n : ℕ)
      → ((list_page db bucket prefix "" start (suc n)).contents ≡ take (suc n) (behind start))
        × ((list_page db bucket prefix "" start (suc n)).next_token ≡ (
            if ltb (suc n) (length (behind start))
            then or_none (last (take (suc n) (behind start))) path_of
            else none))
  unfolding list_page plain_page
  page_lem start n =
      let one_more : suc n + 1 ≡ suc (suc n) = omega arith in
      let rows =
        rows_behind db laws bucket prefix start (suc n + 1)
        ∙ ap (λ k. take k (behind start)) one_more in
      let sizes = length-take (suc (suc n)) (behind start) in
      let same : ltb (suc n) (length (take (suc (suc n)) (behind start)))
          ≡ ltb (suc n) (length (behind start)) =
        ground (arith, sizes) in
      rw (rows, take-more (suc n) (behind start), same) (refl, refl)

  module _ (sorted : IsSorted db.collation.before laws (full_listing db bucket prefix))
      (named : AllNamed (full_listing db bucket prefix)) where
    behind_token :
        (ps rest : List BlobRow) (t : BlobRow)
        → full_listing db bucket prefix ≡ ps ++ t ∷ rest
        → behind t.base.path ≡ rest
    behind_token ps rest t e =
        let present = AllNamed-behind ps t rest (subst AllNamed e named) in
        let test : behind_start db.collation.before t.base.path
            ≡ (λ (r : BlobRow). db.collation.before t.base.path r.base.path) =
          fun_ext (λ row. ground (arith, present)) in
        ap (λ p. select p (full_listing db bucket prefix)) test
        ∙ ap (select (λ (r : BlobRow). db.collation.before t.base.path r.base.path)) e
        ∙ select-behind db.collation.before laws t ps rest
            (subst (IsSorted db.collation.before laws) e sorted)

    walk_lem :
        (fuel n : ℕ) (start : String) (seen rows : List BlobRow)
        → full_listing db bucket prefix ≡ seen ++ rows
        → behind start ≡ rows
        → length rows < fuel
        → all_pages fuel db bucket prefix start (suc n) ≡ rows
    unfolding all_pages
    walk_lem zero n start seen rows whole at h = absurd (omega (arith, h))
    walk_lem (suc fuel) n start seen rows whole at h =
        let (contents, token) = page_lem start n in
        elim (Bool-cases (ltb (suc n) (length rows))) [
          | inr e ↦
              rw (contents, token, at, e)
                (append-nil (take (suc n) rows) ∙ take-over (suc n) rows (ground arith))
          | inl e ↦
              let (ps, t, page) = split_last n rows (ground arith) in
              let rest = drop (suc n) rows in
              let parted = sym (take-drop (suc n) rows) ∙ ap (λ l. l ++ rest) page in
              let on : full_listing db bucket prefix ≡ (seen ++ (ps ++ t ∷ [])) ++ rest =
                whole ∙ ap (seen ++◌) parted ∙ sym (append_assoc seen (ps ++ t ∷ []) rest) in
              let split : full_listing db bucket prefix ≡ (seen ++ ps) ++ t ∷ rest =
                whole
                ∙ ap (seen ++◌) (parted ∙ append_assoc ps (t ∷ []) rest)
                ∙ sym (append_assoc seen ps (t ∷ rest)) in
              rw (contents, token, at, e, page, last-append ps t)
                (ap (ps ++ t ∷ [] ++◌) (
                    walk_lem fuel n t.base.path (seen ++ (ps ++ t ∷ [])) rest on
                      (behind_token (seen ++ ps) rest t split)
                      (omega (arith, length-drop (suc n) rows, h, ltb→lt (suc n) (length rows) e)))
                  ∙ ap (λ l. l ++ rest) (sym page)
                  ∙ take-drop (suc n) rows)
        ]

-- If the database puts texts in a strict order, in which some may tie, and whatever it takes to be
-- LIKE a prefix: where no two keys of the listing tie in that order and none is empty, and a page
-- holds at least one object, a client that lists a bucket under a prefix without a delimiter, and goes on from each page's
-- continuation token, sees after at most as many pages as there are objects, and one, every object
-- of the bucket whose key is LIKE the prefix, once, in the order of the keys.
pub all_pages_lem :
    (db : Db) (laws : OrdersTexts db.collation.before) (bucket prefix : String) (max_keys : ℕ)
    → AllApart db.collation.before laws (select (under db.collation bucket prefix) db.blobs)
    → AllNamed (full_listing db bucket prefix)
    → 0 < max_keys
    → all_pages (length (full_listing db bucket prefix) + 1) db bucket prefix "" max_keys
      ≡ full_listing db bucket prefix
all_pages_lem db laws bucket prefix zero apart named some_keys = absurd (omega (arith, some_keys))
all_pages_lem db laws bucket prefix (suc n) apart named some_keys =
    let whole = full_listing db bucket prefix in
    walk_lem db laws bucket prefix
      (sort_by_path-IsSorted db.collation.before laws
        (select (under db.collation bucket prefix) db.blobs) apart)
      named (length whole + 1) n "" [] whole refl (select_all db.collation.before whole)
      (omega arith)
