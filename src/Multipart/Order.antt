-- ===== src/Multipart/Order.antt =====
-- The parts are sent and read in the order of their numbers.
use telezon_s.Prelude.{
  ℕ, ◌≤◌, ◌≡◌, refl, ap, true, List, [], ◌∷◌, ◌++◌, arith, length, ltb, leb, Bool-cases, inl, inr,
  sum_of, length-append,
}
use telezon_s.Model.{BlobPart, MultipartPartRow}
use telezon_s.Tables.Uploads.{sort_by_number, insert_by_number}
use telezon_s.BlobIo.{sort_parts, insert_part}
use telezon_s.BlobIo.Parts.{joined_content}
use telezon_s.Multipart.Complete.{size_of}
use telezon_s.Multipart.Kept.{numbered, numbers}

abbrev AtLeast : ℕ → List (ℕ × ℕ) → Type 0
AtLeast n [] = Unit {0}
AtLeast n ((m, size) ∷ more) = (n ≤ m) × AtLeast n more

abbrev pub IsAscending : List (ℕ × ℕ) → Type 0
IsAscending [] = Unit {0}
IsAscending ((n, size) ∷ more) = AtLeast n more × IsAscending more

AtLeast-mono : (n m : ℕ) (l : List (ℕ × ℕ)) → n ≤ m → AtLeast m l → AtLeast n l
AtLeast-mono n m [] h a = tt
AtLeast-mono n m ((k, size) ∷ more) h a = (omega (arith, a.0), AtLeast-mono n m more h a.1)

AtLeast-insert :
    (n : ℕ) (x : MultipartPartRow) (rows : List MultipartPartRow)
    → n ≤ x.part_number
    → AtLeast n (numbers rows)
    → AtLeast n (numbers (insert_by_number x rows))
unfolding insert_by_number
AtLeast-insert n x [] h a = (h, tt)
AtLeast-insert n x (y ∷ ys) h a = elim (Bool-cases (ltb y.part_number x.part_number)) [
  | inl e ↦ rw (e) (a.0, AtLeast-insert n x ys h a.1)
  | inr e ↦ rw (e) (h, a)
]

insert-IsAscending :
    (x : MultipartPartRow) (rows : List MultipartPartRow)
    → IsAscending (numbers rows)
    → IsAscending (numbers (insert_by_number x rows))
unfolding insert_by_number
insert-IsAscending x [] a = (tt, tt)
insert-IsAscending x (y ∷ ys) a = elim (Bool-cases (ltb y.part_number x.part_number)) [
  | inl e ↦
      rw (e) (AtLeast-insert y.part_number x ys (ground arith) a.0, insert-IsAscending x ys a.1)
  | inr e ↦
      rw (e) (
        (ground arith, AtLeast-mono x.part_number y.part_number (numbers ys) (ground arith) a.0),
        a,
      )
]

pub sort_by_number-IsAscending :
    (rows : List MultipartPartRow) → IsAscending (numbers (sort_by_number rows))
unfolding sort_by_number
sort_by_number-IsAscending [] = tt
sort_by_number-IsAscending (x ∷ xs) =
    insert-IsAscending x (sort_by_number xs) (sort_by_number-IsAscending xs)

pub sort_parts-same : (ps : List BlobPart) → IsAscending (numbered ps) → sort_parts ps ≡ ps
unfolding sort_parts insert_part
sort_parts-same [] a = refl
sort_parts-same (p ∷ []) a = refl
sort_parts-same (p ∷ q ∷ qs) a =
    let rest = sort_parts-same (q ∷ qs) a.1 in
    let first : leb p.part_number q.part_number ≡ true = ground arith in rw (rest) (rw (first) refl)

module _ (content_of : ℕ → List ℕ) where
  -- the contents of the parts with these numbers, joined
  abbrev pub contents : List (ℕ × ℕ) → List ℕ
  contents [] = []
  contents ((n, size) ∷ more) = content_of n ++ contents more

  -- each part's content has the size that is recorded for it
  abbrev pub AllSized : List (ℕ × ℕ) → Type 0
  AllSized [] = Unit {0}
  AllSized ((n, size) ∷ more) = (length (content_of n) ≡ size) × AllSized more

  insert-AllSized :
      (x : MultipartPartRow) (rows : List MultipartPartRow)
      → length (content_of x.part_number) ≡ x.size
      → AllSized (numbers rows)
      → AllSized (numbers (insert_by_number x rows))
  unfolding insert_by_number
  insert-AllSized x [] h a = (h, tt)
  insert-AllSized x (y ∷ ys) h a = elim (Bool-cases (ltb y.part_number x.part_number)) [
    | inl e ↦ rw (e) (a.0, insert-AllSized x ys h a.1)
    | inr e ↦ rw (e) (h, a)
  ]

  pub sort_by_number-AllSized :
      (rows : List MultipartPartRow)
      → AllSized (numbers rows)
      → AllSized (numbers (sort_by_number rows))
  unfolding sort_by_number
  sort_by_number-AllSized [] a = tt
  sort_by_number-AllSized (x ∷ xs) a =
      insert-AllSized x (sort_by_number xs) a.0 (sort_by_number-AllSized xs a.1)

  pub joined_content-numbered :
      (ps : List BlobPart)
      → joined_content (λ p. content_of p.part_number) ps ≡ contents (numbered ps)
  joined_content-numbered [] = refl
  joined_content-numbered (p ∷ ps) = ap (content_of p.part_number ++◌) (joined_content-numbered ps)

  pub sizes-contents :
      (ps : List BlobPart)
      → AllSized (numbered ps)
      → sum_of size_of ps ≡ length (contents (numbered ps))
  sizes-contents [] a = refl
  sizes-contents (p ∷ ps) a = omega (
    arith,
    a.0,
    sizes-contents ps a.1,
    length-append (content_of p.part_number) (contents (numbered ps)),
  )
