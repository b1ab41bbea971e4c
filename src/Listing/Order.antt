-- ===== src/Listing/Order.antt =====
-- The order of the keys, and the rows of a listing in it.
use telezon_s.Prelude.{
  ◌≡◌, refl, ap, ◌∙◌, Bool, true, false, ◌||◌, not, List, [], ◌∷◌, ◌++◌, String, string_eq, arith,
  any, select, if◌then◌else◌, text_lt, Bool-cases, inl, inr,
}
use telezon_s.Model.{BlobRow}
use telezon_s.Tables.Blobs.{insert_by_path, sort_by_path}

-- The order of a collation: a strict order, in which texts may tie.
pub record OrdersTexts (before : String → String → Bool) : Type 0 where
  pub asym : (s t : String) → before s t ≡ true → before t s ≡ false
  -- what is not behind `s` is before all that is
  pub across : (s t u : String) → before s t ≡ false → before s u ≡ true → before t u ≡ true

text_lt-asym : (s t : String) → text_lt s t ≡ true → text_lt t s ≡ false
unfolding text_lt
text_lt-asym String.[] String.[] h = refl
text_lt-asym String.[] (String.◌∷◌ d t) h = refl
text_lt-asym (String.◌∷◌ c s) String.[] h = absurd (ground arith)
text_lt-asym (String.◌∷◌ c s) (String.◌∷◌ d t) h = ground (arith, text_lt-asym s t)

text_lt-across : (s t u : String) → text_lt s t ≡ false → text_lt s u ≡ true → text_lt t u ≡ true
unfolding text_lt
text_lt-across String.[] String.[] u h k = k
text_lt-across String.[] (String.◌∷◌ d t) u h k = absurd (ground arith)
text_lt-across (String.◌∷◌ c s) t String.[] h k = absurd (ground arith)
text_lt-across (String.◌∷◌ c s) String.[] (String.◌∷◌ e u) h k = refl
text_lt-across (String.◌∷◌ c s) (String.◌∷◌ d t) (String.◌∷◌ e u) h k =
    ground (arith, text_lt-across s t u)

-- the order of code points, which SQLite's columns have
pub text_lt-OrdersTexts : OrdersTexts text_lt
text_lt-OrdersTexts = record { asym = text_lt-asym; across = text_lt-across }

module _ (before : String → String → Bool) (laws : OrdersTexts before) where
  before_irrefl : (s : String) → before s s ≡ false
  before_irrefl s = elim (Bool-cases (before s s)) [ inl e ↦ laws.asym s s e | inr e ↦ e ]

  before_trans : (s t u : String) → before s t ≡ true → before t u ≡ true → before s u ≡ true
  before_trans s t u h k = laws.across t s u (laws.asym s t h) k

  abbrev ties : BlobRow → BlobRow → Bool
  ties x y = not (before x.base.path y.base.path || before y.base.path x.base.path)

  abbrev AllBehind : String → List BlobRow → Type 0
  AllBehind path [] = Unit {0}
  AllBehind path (y ∷ ys) = (before path y.base.path ≡ true) × AllBehind path ys

  -- each row's path stands before those of the rows behind it
  abbrev pub IsSorted : List BlobRow → Type 0
  IsSorted [] = Unit {0}
  IsSorted (x ∷ xs) = AllBehind x.base.path xs × IsSorted xs

  -- no two rows have paths that tie
  abbrev pub AllApart : List BlobRow → Type 0
  AllApart [] = Unit {0}
  AllApart (x ∷ xs) = (any (ties x) xs ≡ false) × AllApart xs

  AllBehind-trans :
      (s t : String) (ys : List BlobRow) → before s t ≡ true → AllBehind t ys → AllBehind s ys
  AllBehind-trans s t [] h a = tt
  AllBehind-trans s t (y ∷ ys) h a =
      (before_trans s t y.base.path h a.0, AllBehind-trans s t ys h a.1)

  AllBehind-insert :
      (path : String) (x : BlobRow) (ys : List BlobRow)
      → before path x.base.path ≡ true
      → AllBehind path ys
      → AllBehind path (insert_by_path before x ys)
  unfolding insert_by_path
  AllBehind-insert path x [] h a = (h, tt)
  AllBehind-insert path x (y ∷ ys) h a = elim (Bool-cases (before y.base.path x.base.path)) [
    | inl e ↦ rw (e) (a.0, AllBehind-insert path x ys h a.1)
    | inr e ↦ rw (e) (h, a)
  ]

  -- of two paths that do not tie, one stands before the other
  before_other :
      (s t : String)
      → not (before s t || before t s) ≡ false
      → before t s ≡ false
      → before s t ≡ true
  before_other s t apart h = ground arith

  insert-IsSorted :
      (x : BlobRow) (ys : List BlobRow)
      → any (ties x) ys ≡ false
      → IsSorted ys
      → IsSorted (insert_by_path before x ys)
  unfolding insert_by_path
  insert-IsSorted x [] apart a = (tt, tt)
  insert-IsSorted x (y ∷ ys) apart a = elim (Bool-cases (before y.base.path x.base.path)) [
    | inl e ↦
        rw (e) (AllBehind-insert y.base.path x ys e a.0, insert-IsSorted x ys (ground arith) a.1)
    | inr e ↦
        let less = before_other x.base.path y.base.path (ground arith) e in
        rw (e) ((less, AllBehind-trans x.base.path y.base.path ys less a.0), a)
  ]

  any-insert_by_path :
      (p : BlobRow → Bool) (x : BlobRow) (ys : List BlobRow)
      → any p (insert_by_path before x ys) ≡ (p x || any p ys)
  unfolding insert_by_path
  any-insert_by_path p x [] = refl
  any-insert_by_path p x (y ∷ ys) = ground (arith, any-insert_by_path p x ys)

  any-sort_by_path :
      (p : BlobRow → Bool) (xs : List BlobRow) → any p (sort_by_path before xs) ≡ any p xs
  unfolding sort_by_path
  any-sort_by_path p [] = refl
  any-sort_by_path p (x ∷ xs) =
      any-insert_by_path p x (sort_by_path before xs) ∙ ap (λ b. p x || b) (any-sort_by_path p xs)

  pub sort_by_path-IsSorted : (xs : List BlobRow) → AllApart xs → IsSorted (sort_by_path before xs)
  unfolding sort_by_path
  sort_by_path-IsSorted [] d = tt
  sort_by_path-IsSorted (x ∷ xs) d =
      insert-IsSorted x (sort_by_path before xs) (any-sort_by_path (ties x) xs ∙ d.0)
        (sort_by_path-IsSorted xs d.1)

  -- a selection of the rows behind some point, before and behind the sorting
  module _ (q : BlobRow → Bool)
      (upward : (x y : BlobRow)
        → q x ≡ true
        → q y ≡ false
        → before y.base.path x.base.path ≡ true) where
    select-insert_by_path :
        (x : BlobRow) (ys : List BlobRow)
        → select q (insert_by_path before x ys)
          ≡ (if q x then insert_by_path before x (select q ys) else select q ys)
    unfolding insert_by_path
    select-insert_by_path x [] = ground arith
    select-insert_by_path x (y ∷ ys) = ground (arith, select-insert_by_path x ys, upward x y)

    pub select-sort_by_path :
        (xs : List BlobRow) → select q (sort_by_path before xs) ≡ sort_by_path before (select q xs)
    unfolding sort_by_path
    select-sort_by_path [] = refl
    select-sort_by_path (x ∷ xs) =
        ground (arith, select-insert_by_path x (sort_by_path before xs), select-sort_by_path xs)

  all_behind :
      (path : String) (rest : List BlobRow)
      → AllBehind path rest
      → select (λ (r : BlobRow). before path r.base.path) rest ≡ rest
  all_behind path [] a = refl
  all_behind path (r ∷ rs) a = ground (arith, all_behind path rs a.1)

  behind_head :
      (path : String) (t : BlobRow) (ps rest : List BlobRow)
      → AllBehind path (ps ++ t ∷ rest)
      → before path t.base.path ≡ true
  behind_head path t [] rest a = a.0
  behind_head path t (p ∷ ps) rest a = behind_head path t ps rest a.1

  -- the rows behind a row of a sorted list
  pub select-behind :
      (t : BlobRow) (ps rest : List BlobRow)
      → IsSorted (ps ++ t ∷ rest)
      → select (λ (r : BlobRow). before t.base.path r.base.path) (ps ++ t ∷ rest) ≡ rest
  select-behind t [] rest a =
      ground (arith, before_irrefl t.base.path, all_behind t.base.path rest a.0)
  select-behind t (p ∷ ps) rest a = ground (
    arith,
    select-behind t ps rest a.1,
    laws.asym p.base.path t.base.path (behind_head p.base.path t ps rest a.0),
  )
