-- ===== src/BlobIo/Parts.antt =====
-- The loop over the parts of an object, over any stretch of them.
use mathlib.Core.List.{append_assoc, append-nil}
use telezon_s.Prelude.{
  ℕ, ◌+◌, ◌-◌, ◌≤◌, ◌<◌, ◌≡◌, refl, sym, ap, ◌∙◌, true, false, Option, List, [], ◌∷◌, ◌++◌, String,
  arith, length, slice, min, max, Bool-cases, inl, inr, slice-append, slice-behind, slice-before,
  slice-min, length-slice, ltb, leb, nat_beq, ◌||◌,
}
use telezon_s.Outcome.{Result, ok, err}
use telezon_s.Model.{BlobPart}
use telezon_s.Telegram.{Storage}
use telezon_s.BlobIo.{spans_from, sort_parts, insert_part, read_spans, read_span, append_piece}

module _ (content : BlobPart → List ℕ) where
  abbrev pub joined_content : List BlobPart → List ℕ
  joined_content [] = []
  joined_content (p ∷ ps) = content p ++ joined_content ps

-- While the storage is in good states, in which fetching a file leaves it.
module _ (S : Storage) (chat : Option String) (content : BlobPart → List ℕ)
    (Good : S.State → Type 0) where
  -- The storage answers each part's file with its content, which has the size that is recorded.
  pub data Served : List BlobPart → Type 0 where
    no_parts : Served []
    one_more :
        {p : BlobPart} {ps : List BlobPart}
        → ((s : S.State) → Good s → (S.get_file p.file_id chat p.message_id s).0 ≡ ok (content p))
        → length (content p) ≡ p.size
        → Served ps
        → Served (p ∷ ps)

  insert_part-Served :
      (p : BlobPart) (ps : List BlobPart)
      → ((s : S.State) → Good s → (S.get_file p.file_id chat p.message_id s).0 ≡ ok (content p))
      → length (content p) ≡ p.size
      → Served ps
      → Served (insert_part p ps)
  unfolding insert_part
  insert_part-Served p [] g n no_parts = one_more g n no_parts
  insert_part-Served p (q ∷ qs) g n (one_more gq nq rest) =
      elim (Bool-cases (leb p.part_number q.part_number)) [
        | inl e ↦ rw (e) (one_more g n (one_more gq nq rest))
        | inr e ↦ rw (e) (one_more gq nq (insert_part-Served p qs g n rest))
      ]

  pub sort_parts-Served : (ps : List BlobPart) → Served ps → Served (sort_parts ps)
  unfolding sort_parts
  sort_parts-Served [] no_parts = no_parts
  sort_parts-Served (p ∷ ps) (one_more g n rest) =
      insert_part-Served p (sort_parts ps) g n (sort_parts-Served ps rest)

  module _
      (lasts : (f : String) (m : Option ℕ) (s : S.State) → Good s → Good (S.get_file f chat m s).1)
      (start end : ℕ) (ordered : start ≤ end) where
    -- the bytes of the range that parts hold whose first byte stands at `offset`
    unfoldable pub wanted : ℕ → List ℕ → List ℕ
    wanted offset bs = slice (start - offset) (end + 1 - offset) bs

    wanted-append :
        (offset : ℕ) (xs ys : List ℕ)
        → wanted offset (xs ++ ys) ≡ wanted offset xs ++ wanted (offset + length xs) ys
    unfolding wanted
    wanted-append offset xs ys =
        rw (slice-append (start - offset) (end + 1 - offset) xs ys)
          (ap (slice (start - offset) (end + 1 - offset) xs ++◌) (ground arith))

    length-wanted :
        (offset : ℕ) (bs : List ℕ)
        → length (wanted offset bs)
          ≡ min (end + 1 - offset - (start - offset)) (length bs - (start - offset))
    unfolding wanted
    length-wanted offset bs = length-slice (start - offset) (end + 1 - offset) bs

    -- a part that the loop passes over holds none of the range
    wanted-passed :
        (p : BlobPart) (offset : ℕ)
        → length (content p) ≡ p.size
        → (ltb (offset + p.size - 1) start || ltb end offset) ≡ true
        → nat_beq p.size 0 ≡ false
        → wanted offset (content p) ≡ []
    unfolding wanted
    wanted-passed p offset n e z = elim (Bool-cases (ltb end offset)) [
      | inl b ↦ slice-before (start - offset) (end + 1 - offset) (content p) (ground arith)
      | inr b ↦ slice-behind (start - offset) (end + 1 - offset) (content p) (ground arith)
    ]

    -- and one behind the range as well
    wanted-over : (offset : ℕ) (bs : List ℕ) → end < offset → wanted offset bs ≡ []
    unfolding wanted
    wanted-over offset bs h = slice-before (start - offset) (end + 1 - offset) bs (omega (arith, h))

    -- the slice that the loop takes of a part
    wanted-piece :
        (p : BlobPart) (offset cursor : ℕ)
        → length (content p) ≡ p.size
        → nat_beq p.size 0 ≡ false
        → cursor ≡ max start offset
        → offset ≤ end
        → slice
            (max cursor offset - offset)
            (min end (offset + p.size - 1) - offset + 1)
            (content p)
          ≡ wanted offset (content p)
    unfolding wanted
    wanted-piece p offset cursor n z c h =
        let from : max cursor offset - offset ≡ start - offset = omega (arith, c, h) in
        let to : min end (offset + p.size - 1) - offset + 1
            ≡ min (end + 1 - offset) (length (content p)) =
          ground arith in
        rw (from, to) (slice-min (start - offset) (end + 1 - offset) (content p))

    unfoldable pub Reads : List BlobPart → ℕ → Type 0
    Reads ps offset =
        (cursor remaining : ℕ) (got : List ℕ) (s : S.State)
        → Good s
        → (offset ≤ end → cursor ≡ max start offset)
        → remaining ≡ end + 1 - cursor
        → (read_spans S chat start end (spans_from offset ps) cursor remaining got s).0
          ≡ ok (got ++ wanted offset (joined_content content ps))

    append_piece_lem :
        (p : BlobPart) (ps : List BlobPart) (offset : ℕ)
        → length (content p) ≡ p.size
        → nat_beq p.size 0 ≡ false
        → Reads ps (offset + p.size)
        → (cursor remaining : ℕ) (got piece : List ℕ) (s : S.State) → Good s
        → piece ≡ wanted offset (content p)
        → cursor ≡ max start offset
        → remaining ≡ end + 1 - cursor
        → start ≤ offset + p.size - 1
        → offset ≤ end
        → (append_piece S
            (min end (offset + p.size - 1) + 1)
            remaining
            got
            piece
            (read_spans S chat start end (spans_from (offset + p.size) ps))
            s).0
          ≡ ok (got ++ wanted offset (content p ++ joined_content content ps))
    unfolding append_piece Reads
    append_piece_lem p ps offset n z more cursor remaining got piece s good same c r u v =
        let size = length-wanted offset (content p) in
        let apart = wanted-append offset (content p) (joined_content content ps) in
        let W = wanted offset (content p) in
        let rest = wanted (offset + length (content p)) (joined_content content ps) in
        let long : length piece ≡ length W = ap length same in
        elim (Bool-cases (nat_beq (remaining - length piece) 0)) [
          | inl e ↦
              rw
                (
                  append_piece,
                  e,
                  apart,
                  wanted-over (offset + length (content p)) (joined_content content ps)
                      (ground (arith, size, long)),
                  append-nil W,
                )
                (ap (λ w. ok (got ++ w)) same)
          | inr e ↦
              rw (append_piece, e, apart, sym same, sym (append_assoc got piece rest), n)
                (more (min end (offset + p.size - 1) + 1) (remaining - length piece) (got ++ piece)
                  s good (ground (arith, size, long)) (ground (arith, size, long)))
        ]

    read_span_lem :
        (p : BlobPart) (ps : List BlobPart) (offset : ℕ)
        → length (content p) ≡ p.size
        → nat_beq p.size 0 ≡ false
        → Reads ps (offset + p.size)
        → (cursor remaining : ℕ) (got : List ℕ) → (reply : Result (List ℕ) × S.State) → Good reply.1
        → reply.0 ≡ ok (content p)
        → cursor ≡ max start offset
        → remaining ≡ end + 1 - cursor
        → start ≤ offset + p.size - 1
        → offset ≤ end
        → (read_span S end
            (record { first = offset; final = offset + p.size - 1; part = p })
            cursor
            remaining
            got
            (read_spans S chat start end (spans_from (offset + p.size) ps))
            reply).0
          ≡ ok (got ++ wanted offset (content p ++ joined_content content ps))
    unfolding read_span
    read_span_lem p ps offset n z more cursor remaining got (err e, s) good h c r u v =
        absurd (ground arith)
    read_span_lem p ps offset n z more cursor remaining got (ok bs, s) good h c r u v =
        let same : bs ≡ content p = ground arith in
        append_piece_lem p ps offset n z more cursor remaining got
          (slice (max cursor offset - offset) (min end (offset + p.size - 1) - offset + 1) bs) s
          good
          (ap (slice (max cursor offset - offset) (min end (offset + p.size - 1) - offset + 1)) same
            ∙ wanted-piece p offset cursor n z c v)
          c r u v

    pub read_spans_lem : (ps : List BlobPart) (offset : ℕ) → Served ps → Reads ps offset
    unfolding read_spans spans_from Reads wanted
    read_spans_lem [] offset no_parts cursor remaining got s good c r =
        let none_left : length {A = ℕ} [] ≤ start - offset = ground arith in
        rw (slice-behind (start - offset) (end + 1 - offset) [] none_left, append-nil got) refl
    read_spans_lem (p ∷ ps) offset (one_more g n rest) cursor remaining got s good c r =
        let more = read_spans_lem ps (offset + p.size) rest in
        let apart = wanted-append offset (content p) (joined_content content ps) in
        let same_offset : nat_beq p.size 0 ≡ true → offset + length (content p) ≡ offset =
          λ z. ground arith in
        elim (Bool-cases (nat_beq p.size 0)) [
          | inl z ↦
              rw
                (
                  z,
                  apart,
                  slice-behind (start - offset) (end + 1 - offset) (content p) (ground arith),
                  same_offset z,
                )
                (read_spans_lem ps offset rest cursor remaining got s good c r)
          | inr z ↦ elim (Bool-cases (ltb (offset + p.size - 1) start || ltb end offset)) [
            | inl e ↦
                rw (z, read_spans, e, apart, wanted-passed p offset n e z, n)
                  (more cursor remaining got s good (ground arith) r)
            | inr e ↦
                rw (z, read_spans, e)
                  (read_span_lem p ps offset n z more cursor remaining got
                    (S.get_file p.file_id chat p.message_id s) (lasts p.file_id p.message_id s good)
                    (g s good) (c (ground arith)) r (ground arith) (ground arith))
          ]
        ]
