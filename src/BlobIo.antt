-- ===== src/BlobIo.antt =====
-- app/s3/blob_io.py and app/storage/tg_context.py: reading an object, or a range of it, back from
-- the parts that Telegram keeps.
pub mod Parts
pub mod Ranges
use telezon_s.Prelude.{
  ℕ, zero, suc, ◌+◌, ◌-◌, ◌≤◌, Bool, true, false, ◌&&◌, ◌||◌, not, Option, none, some, List, [],
  ◌∷◌, ◌++◌, String, ◌<>◌, ◌==◌, string_eq, if◌then◌else◌, ltb, leb, nat_beq, min, max, slice,
  length, is_empty, last, codes, starts_with,
}
use telezon_s.Outcome.{Result, ok, err, Error, value_error}
use telezon_s.Model.{Config, BlobPart, BlobBase, Blob}
use telezon_s.Telegram.{Storage}
use telezon_s.Sse.{Crypto, decrypt_sse_c}
use telezon_s.Http.Text.{is_blank}
use telezon_s.Http.{or_blank}

abbrev pub text_or_none : Option String → Option String
text_or_none none = none
text_or_none (some v) = if is_blank v then none else some v

unfoldable pub resolve_telegram_chat_id : Config → Option String → Option String
resolve_telegram_chat_id cfg chat_id = elim (text_or_none chat_id) [
  | some v ↦ some v
  | none ↦ text_or_none cfg.cid
]

unfoldable pub blob_telegram_chat_id : Config → Blob → Option String
unfolding resolve_telegram_chat_id
blob_telegram_chat_id cfg blob = resolve_telegram_chat_id cfg blob.bucket.telegram_chat_id

-- `sorted(parts, key=lambda p: p.part_number)`, which is stable
unfoldable pub insert_part : BlobPart → List BlobPart → List BlobPart
insert_part p [] = p ∷ []
insert_part p (q ∷ qs) =
    let later = insert_part p qs in
    if leb p.part_number q.part_number then p ∷ q ∷ qs else q ∷ later

unfoldable pub sort_parts : List BlobPart → List BlobPart
unfolding insert_part
sort_parts [] = []
sort_parts (p ∷ ps) = insert_part p (sort_parts ps)

pub record Span : Type 0 where
  pub first : ℕ
  pub final : ℕ
  pub part : BlobPart

unfoldable pub spans_from : ℕ → List BlobPart → List Span
spans_from offset [] = []
spans_from offset (p ∷ ps) =
    let skipped = spans_from offset ps in
    let rest = spans_from (offset + p.size) ps in
    if nat_beq p.size 0
    then skipped
    else record { first = offset; final = offset + p.size - 1; part = p } ∷ rest

unfoldable pub part_byte_spans : List BlobPart → List Span
unfolding spans_from sort_parts
part_byte_spans parts = spans_from 0 (sort_parts parts)

-- the bytes that the objects of a bucket are bound to when they are encrypted
unfoldable pub sse_aad : String → String → List ℕ
sse_aad bucket_name path = codes (bucket_name <> "/" <> path)

module _ (S : Storage) where
  -- The slice of a part is appended, and the loop ends where no byte remains, or goes on with the
  -- new cursor, the bytes that remain to be read, and what was read so far.
  unfoldable pub append_piece :
      ℕ
      → ℕ
      → List ℕ
      → List ℕ
      → (ℕ → ℕ → List ℕ → S.State → Result (List ℕ) × S.State)
      → S.State
      → Result (List ℕ) × S.State
  append_piece cursor remaining got piece go_on s = elim (nat_beq (remaining - length piece) 0) [
    | true ↦ (ok (got ++ piece), s)
    | false ↦ go_on cursor (remaining - length piece) (got ++ piece) s
  ]

  unfoldable pub read_span :
      ℕ
      → Span
      → ℕ
      → ℕ
      → List ℕ
      → (ℕ → ℕ → List ℕ → S.State → Result (List ℕ) × S.State)
      → Result (List ℕ) × S.State
      → Result (List ℕ) × S.State
  read_span end span cursor remaining got go_on (err e, s) = (err e, s)
  read_span end span cursor remaining got go_on (ok content, s) =
      append_piece (min end span.final + 1) remaining got
        (slice (max cursor span.first - span.first) (min end span.final - span.first + 1) content)
        go_on s

  -- the loop over the spans
  unfoldable pub read_spans :
      Option String → ℕ → ℕ → List Span → ℕ → ℕ → List ℕ → S.State → Result (List ℕ) × S.State
  unfolding read_span
  read_spans chat start end [] cursor remaining got s = (ok got, s)
  read_spans chat start end (span ∷ spans) cursor remaining got s =
      elim (ltb span.final start || ltb end span.first) [
        | true ↦ read_spans chat start end spans cursor remaining got s
        | false ↦
            read_span end span cursor remaining got (read_spans chat start end spans)
              (S.get_file span.part.file_id chat span.part.message_id s)
      ]

  abbrev pub map_first {ℓ} :
      {A B : Type ℓ} → (A → Result B) → Result A × S.State → Result B × S.State
  map_first f (ok a, s) = (f a, s)
  map_first f (err e, s) = (err e, s)

  module _ (c : Crypto) (cfg : Config) where
    -- The body of an encrypted object is fetched without its chat, as `_read_single` does it there.
    unfoldable pub load_encrypted : Blob → Option String → S.State → Result (List ℕ) × S.State
    unfolding sse_aad
    load_encrypted blob sse_key s = elim (text_or_none sse_key) [
      | none ↦ (err value_error, s)
      | some key ↦
          map_first
            (λ raw.
              decrypt_sse_c c raw key (or_blank blob.base.sse_nonce) (or_blank blob.base.sse_tag)
                (sse_aad blob.bucket.name blob.base.path))
            (S.get_file blob.base.file none none s)
    ]

    -- the inclusive range from `start` to `end`
    unfoldable pub load_blob_byte_range :
        Blob → ℕ → ℕ → Option String → S.State → Result (List ℕ) × S.State
    unfolding load_encrypted part_byte_spans blob_telegram_chat_id
    load_blob_byte_range blob start end sse_key s =
        let chat = blob_telegram_chat_id cfg blob in
        let decrypted = load_encrypted blob sse_key s in
        let whole = S.get_file blob.base.file chat blob.base.message_id s in
        if ltb end start
        then (err value_error, s)
        else if blob.base.encrypted
        then map_first (λ raw. ok (slice start (end + 1) raw)) decrypted
        else if not (is_empty blob.base.parts)
        then read_spans chat start end (part_byte_spans blob.base.parts) start (end + 1 - start) []
            s
        else map_first (λ raw. ok (slice start (end + 1) raw)) whole

    -- `blob.size`, or where the last span ends
    unfoldable pub total_of_parts : Blob → ℕ
    unfolding part_byte_spans
    total_of_parts blob =
        if nat_beq blob.base.size 0
        then elim (last (part_byte_spans blob.base.parts)) [ none ↦ 0 | some span ↦ span.final + 1 ]
        else blob.base.size

    unfoldable pub load_blob_bytes : Blob → Option String → S.State → Result (List ℕ) × S.State
    load_blob_bytes blob sse_key s =
        let total = total_of_parts blob in
        let chat = blob_telegram_chat_id cfg blob in
        if blob.base.encrypted
        then load_encrypted blob sse_key s
        else if not (is_empty blob.base.parts)
        then if nat_beq total 0 then (ok [], s) else load_blob_byte_range blob 0 (total - 1) none s
        else if starts_with blob.base.file "multipart:"
        then (err value_error, s)
        else S.get_file blob.base.file chat blob.base.message_id s
