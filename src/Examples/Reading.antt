-- ===== src/Examples/Reading.antt =====
-- Reading objects: ranges, conditions, bodies and encryption.
use telezon_s.Prelude.{
  ℕ, ◌≡◌, ◌≤◌, ◌<◌, refl, true, Option, none, some, List, [], ◌∷◌, String, inl, inr, arith, ◌==◌,
  string_eq, if◌then◌else◌, codes,
}
use telezon_s.Outcome.{ok, err, throttle, ◌>>=◌}
use telezon_s.Model.{BlobPart, Blob}
use telezon_s.Range.{
  range, parse_bytes_range, parse_codes, evaluate_conditionals, ConditionHeaders, not_modified,
  proceed, int_of,
}
use telezon_s.Range.Bounds.{parse_bytes_range_bounds}
use telezon_s.Range.Spelled.{Spells, parse_codes_spelled}
use telezon_s.Range.Conditions.{etag_not_modified, etag_proceeds}
use telezon_s.Http.Body.{Decided, read_body_capped, read_body_capped-Decided}
use telezon_s.Sse.{encrypt_sse_c, decrypt_sse_c, key_from_header, decrypt-encrypt}
use telezon_s.BlobIo.{load_blob_byte_range, load_blob_bytes, blob_telegram_chat_id, sort_parts}
use telezon_s.BlobIo.Parts.{Served, no_parts, one_more}
use telezon_s.BlobIo.Ranges.{load_blob_byte_range_lem, load_blob_bytes_lem}
use telezon_s.Telegram.{Storage}
use telezon_s.Examples.Memory.{turning, turning_decodes}
use telezon_s.Examples.Data.{config, part, plain_base, live, request}

parse_bytes_range_bounds_example : (2 ≤ 4) × (4 < 5)
unfolding parse_bytes_range
parse_bytes_range_bounds_example = parse_bytes_range_bounds (some "bytes=2-9") 5 2 4 refl

Spells-two : Spells (b'2' ∷ []) 2
unfolding int_of
Spells-two = record { present = λ h. ground arith; read = refl }

Spells-nine : Spells (b'9' ∷ []) 9
unfolding int_of
Spells-nine = record { present = λ h. ground arith; read = refl }

parse_codes_spelled_example :
    (parse_codes (codes "bytes=2-9") 5 ≡ range 2 4)
    × (parse_codes (codes "bytes=2-") 5 ≡ range 2 4)
    × (parse_codes (codes "bytes=-9") 5 ≡ range 0 4)
parse_codes_spelled_example =
    parse_codes_spelled 5 (omega arith) (b'2' ∷ []) (b'9' ∷ []) 2 9 Spells-two Spells-nine
      (omega arith)

abbrev no_date : String → Option ℕ
no_date text = none

abbrev conditions : Option String → Option String → ConditionHeaders
conditions if_match if_none_match = record {
  if_match = if_match;
  if_none_match = if_none_match;
  if_modified_since = none;
  if_unmodified_since = none;
}

etag_not_modified_example :
    evaluate_conditionals no_date "\"f-3\"" (some 1) (conditions none (some "\"f-3\""))
    ≡ not_modified
etag_not_modified_example =
    etag_not_modified no_date "\"f-3\"" (record { present = refl; one_piece = refl }) (some 1)
      (conditions none (some "\"f-3\"")) (inl refl) refl

etag_proceeds_example :
    evaluate_conditionals no_date "\"f-3\"" (some 1) (conditions (some "\"f-3\"") none) ≡ proceed
etag_proceeds_example =
    etag_proceeds no_date "\"f-3\"" (record { present = refl; one_piece = refl }) (some 1)
      (conditions (some "\"f-3\"") none) (inr refl) refl refl refl

read_body_capped-Decided_example :
    Decided 4
      (1 ∷ 2 ∷ 3 ∷ 4 ∷ 5 ∷ [])
      (read_body_capped (request "PUT" [] ((1 ∷ 2 ∷ 3 ∷ []) ∷ (4 ∷ 5 ∷ []) ∷ [])) 4)
read_body_capped-Decided_example =
    read_body_capped-Decided (request "PUT" [] ((1 ∷ 2 ∷ 3 ∷ []) ∷ (4 ∷ 5 ∷ []) ∷ [])) 4

-- a key of 32 zero bytes
abbrev key_text : String
key_text = ";;;;;;;;;;;;;;;;;;;;;;;;;;;;;;;;"

decrypt-encrypt_example :
    (encrypt_sse_c turning (1 ∷ []) (4 ∷ 5 ∷ 6 ∷ []) key_text [] >>= λ (body, nonce, tag).
    decrypt_sse_c turning body key_text nonce tag [])
    ≡ ok (4 ∷ 5 ∷ 6 ∷ [])
unfolding key_from_header
decrypt-encrypt_example =
    decrypt-encrypt turning turning_decodes (1 ∷ []) (4 ∷ 5 ∷ 6 ∷ []) [] key_text

-- a storage with two files
abbrev shelf : Storage
shelf = record {
  State = Unit {0};
  put_file = λ content label chat topic s. (err throttle, s);
  get_file =
      λ file_id chat mid s. (ok (if file_id == "one" then 1 ∷ 2 ∷ [] else 3 ∷ 4 ∷ 5 ∷ []), s);
  delete_message = λ mid chat s. (ok true, s);
  send_media_group = λ items chat topic s. (ok [], s);
  forward_messages = λ from mid chat topic s. (ok [], s);
}

abbrev file_of : BlobPart → List ℕ
file_of p = if p.file_id == "one" then 1 ∷ 2 ∷ [] else 3 ∷ 4 ∷ 5 ∷ []

abbrev two_parts : List BlobPart
two_parts = part 2 "two" 3 ∷ part 1 "one" 2 ∷ []

abbrev in_parts : Blob
in_parts = live (plain_base "a" two_parts 5 none)

both-Served : Served shelf (some "home") file_of (λ s. Unit {0}) two_parts
both-Served = one_more (λ s good. refl) refl (one_more (λ s good. refl) refl no_parts)

load_blob_byte_range_lem_example :
    (load_blob_byte_range shelf turning config in_parts 1 3 none tt).0 ≡ ok (2 ∷ 3 ∷ 4 ∷ [])
unfolding sort_parts blob_telegram_chat_id
load_blob_byte_range_lem_example =
    load_blob_byte_range_lem shelf (some "home") file_of (λ s. Unit {0}) (λ f m s good. tt) turning
      config in_parts 1 3 none tt tt refl refl refl both-Served (omega arith)

load_blob_bytes_lem_example :
    (load_blob_bytes shelf turning config in_parts none tt).0 ≡ ok (1 ∷ 2 ∷ 3 ∷ 4 ∷ 5 ∷ [])
unfolding sort_parts blob_telegram_chat_id
load_blob_bytes_lem_example =
    load_blob_bytes_lem shelf (some "home") file_of (λ s. Unit {0}) (λ f m s good. tt) turning
      config in_parts none tt tt refl refl refl both-Served (omega arith) refl
