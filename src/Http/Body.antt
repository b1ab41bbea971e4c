-- ===== src/Http/Body.antt =====
-- app/s3/body.py: reading a body that must not grow past a limit.
use mathlib.Core.List.{append_assoc, append-nil}
use telezon_s.Prelude.{
  ℕ, ◌+◌, ◌≤◌, ◌<◌, Option, none, some, List, [], ◌∷◌, ◌++◌, ltb, if◌then◌else◌, length, is_empty,
  codes, not, length-append, arith, Bool-cases, inl, inr, sym,
}
use telezon_s.Range.{is_digits, int_of}
use telezon_s.Outcome.{value_error}
use telezon_s.Model.{Config}
use telezon_s.Http.{Request, Flow, next, reply, raise, header, s3_error_response}

-- the whole body, or the size at which it was refused
pub data Capped : Type 0 where
  fits : List ℕ → Capped
  too_large : ℕ → Capped

-- The loop of `read_body_capped` and of `stream_body_to_file`, with what was read so far.
unfoldable pub read_from : ℕ → List ℕ → List (List ℕ) → Capped
read_from max_bytes content [] = fits content
read_from max_bytes content (chunk ∷ chunks) =
    let more = read_from max_bytes (content ++ chunk) chunks in
    let skipped = read_from max_bytes content chunks in
    let total = length content + length chunk in
    if is_empty chunk then skipped else if ltb max_bytes total then too_large total else more

unfoldable pub read_body_capped : Request → ℕ → Capped
unfolding read_from
read_body_capped request max_bytes = read_from max_bytes [] request.chunks

unfoldable pub check_length : Config → Option ℕ → Flow (Unit {0})
check_length cfg none = raise value_error
check_length cfg (some declared) =
    if ltb cfg.max_upload_bytes declared
    then reply (s3_error_response 400 "EntityTooLarge")
    else next tt

unfoldable pub reject_oversized_content_length : Config → Request → Flow (Unit {0})
unfolding check_length is_digits int_of
reject_oversized_content_length cfg request = elim (header request "content-length") [
  | none ↦ reply (s3_error_response 411 "MissingContentLength")
  | some value ↦
      if not (is_digits (codes value))
      then reply (s3_error_response 400 "InvalidRequest")
      else check_length cfg (int_of (codes value))
]

abbrev pub body_of : List (List ℕ) → List ℕ
body_of [] = []
body_of (chunk ∷ chunks) = chunk ++ body_of chunks

-- the outcome that the body's size alone decides
pub data Decided (max_bytes : ℕ) (whole : List ℕ) : Capped → Type 0 where
  kept : length whole ≤ max_bytes → Decided max_bytes whole (fits whole)
  refused : (n : ℕ) → max_bytes < n → n ≤ length whole → Decided max_bytes whole (too_large n)

read_from-Decided :
    (max_bytes : ℕ) (content : List ℕ) (chunks : List (List ℕ))
    → length content ≤ max_bytes
    → Decided max_bytes (content ++ body_of chunks) (read_from max_bytes content chunks)
unfolding read_from
read_from-Decided max_bytes content [] h = rw (append-nil content) (kept h)
read_from-Decided max_bytes content ([] ∷ chunks) h = read_from-Decided max_bytes content chunks h
read_from-Decided max_bytes content ((c ∷ chunk) ∷ chunks) h =
    let sizes = length-append content (c ∷ chunk) in
    let rest = body_of chunks in
    elim (Bool-cases (ltb max_bytes (length content + length (c ∷ chunk)))) [
      | inl e ↦ rw (e) (
          refused (length content + length (c ∷ chunk)) (ground arith) (
            rw (length-append content (c ∷ chunk ++ rest), length-append (c ∷ chunk) rest)
              (ground arith)))
      | inr e ↦
          rw (e, sym (append_assoc content (c ∷ chunk) rest))
            (read_from-Decided max_bytes (content ++ c ∷ chunk) chunks (ground (arith, sizes)))
    ]

-- A body whose chunks amount to no more than the limit is read whole, and any other is refused, at
-- a size that is over the limit and no more than what was sent.
pub read_body_capped-Decided :
    (request : Request) (max_bytes : ℕ)
    → Decided max_bytes (body_of request.chunks) (read_body_capped request max_bytes)
unfolding read_body_capped
read_body_capped-Decided request max_bytes =
    read_from-Decided max_bytes [] request.chunks (ground arith)
