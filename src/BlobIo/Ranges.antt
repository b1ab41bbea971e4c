-- ===== src/BlobIo/Ranges.antt =====
-- Reading an object in parts, whole or a range of it.
use telezon_s.Prelude.{
  ℕ, ◌+◌, ◌-◌, ◌≤◌, ◌<◌, ◌≡◌, refl, ap, ◌∙◌, false, Option, none, List, [], String, arith, length,
  slice, is_empty, take-over, ltb, nat_beq,
}
use telezon_s.Outcome.{ok}
use telezon_s.Model.{Config, BlobPart, Blob}
use telezon_s.Telegram.{Storage}
use telezon_s.Sse.{Crypto}
use telezon_s.BlobIo.{
  sort_parts, load_blob_byte_range, blob_telegram_chat_id, load_blob_bytes, total_of_parts,
  part_byte_spans,
}
use telezon_s.BlobIo.Parts.{
  Served, joined_content, sort_parts-Served, read_spans_lem, Reads, wanted,
}

module _ (S : Storage) (chat : Option String) (content : BlobPart → List ℕ)
    (Good : S.State → Type 0)
    (lasts : (f : String) (m : Option ℕ) (s : S.State)
      → Good s
      → Good (S.get_file f chat m s).1) where
  -- In good states, which fetching a file leaves good, a range of an object in parts, whose files
  -- the storage answers in such states with contents of the recorded sizes, is read as that
  -- slice of the contents joined in the order of the part numbers.
  pub load_blob_byte_range_lem :
      (c : Crypto) (cfg : Config) (blob : Blob) (start end : ℕ) (sse_key : Option String)
      (s : S.State)
      → Good s
      → blob_telegram_chat_id cfg blob ≡ chat
      → blob.base.encrypted ≡ false
      → is_empty blob.base.parts ≡ false
      → Served S chat content Good blob.base.parts
      → start ≤ end
      → (load_blob_byte_range S c cfg blob start end sse_key s).0
        ≡ ok (slice start (end + 1) (joined_content content (sort_parts blob.base.parts)))
  unfolding load_blob_byte_range part_byte_spans Reads wanted
  load_blob_byte_range_lem c cfg blob start end sse_key s good at plain kept served ordered =
      let whole = joined_content content (sort_parts blob.base.parts) in
      let read =
        read_spans_lem S chat content Good lasts start end ordered (sort_parts blob.base.parts) 0
          (sort_parts-Served S chat content Good blob.base.parts served) start (end + 1 - start) []
          s good (λ h. ground arith) refl in
      let from : start - 0 ≡ start = omega arith in
      let to : end + 1 - 0 ≡ end + 1 = omega arith in
      let in_order : ltb end start ≡ false = ground arith in
      rw (in_order, plain, kept, at)
        (read ∙ ap (λ (a, b). ok (slice a b whole)) (λ i. (from i, to i)))

  -- In such states an object in parts whose recorded size is that of its parts' contents, and not
  -- 0, is read as the contents joined in the order of the part numbers.
  pub load_blob_bytes_lem :
      (c : Crypto) (cfg : Config) (blob : Blob) (sse_key : Option String) (s : S.State)
      → Good s
      → blob_telegram_chat_id cfg blob ≡ chat
      → blob.base.encrypted ≡ false
      → is_empty blob.base.parts ≡ false
      → Served S chat content Good blob.base.parts
      → 0 < blob.base.size
      → blob.base.size ≡ length (joined_content content (sort_parts blob.base.parts))
      → (load_blob_bytes S c cfg blob sse_key s).0
        ≡ ok (joined_content content (sort_parts blob.base.parts))
  unfolding load_blob_bytes total_of_parts
  load_blob_bytes_lem c cfg blob sse_key s good at plain kept served some_bytes sizes =
      let whole = joined_content content (sort_parts blob.base.parts) in
      let ranged =
        load_blob_byte_range_lem c cfg blob 0 (blob.base.size - 1) none s good at plain kept served
          (omega (arith, some_bytes)) in
      let positive : nat_beq blob.base.size 0 ≡ false = ground arith in
      let all : slice 0 (blob.base.size - 1 + 1) whole ≡ whole =
        take-over (blob.base.size - 1 + 1 - 0) whole (ground arith) in
      simp (plain, kept, positive) (ranged ∙ ap ok all)
