-- ===== src/Range.antt =====
-- app/s3/http_range.py: the Range header and the conditional headers of GET and HEAD.
-- Header values are read through their code points, which a server decodes as Latin-1.
mod Digits
pub mod Bounds
pub mod Spelled
pub mod Conditions
unfoldable pub use Digits.*
use mathlib.Core.Bool.{not}
use telezon_s.Prelude.{
  ℕ, zero, suc, ◌+◌, ◌-◌, min, Bool, true, false, ◌&&◌, ◌||◌, Option, none, some, List, [], ◌∷◌,
  map, String, codes, strip, lower, codes_eq, drop, any, is_empty, nat_beq, ltb, leb, if◌then◌else◌,
  is_some,
}

-- A range with both ends included, no Range header, an `InvalidRange`, or the `ValueError` of
-- `int`.
pub data RangeResult : Type 0 where
  no_range : RangeResult
  range : ℕ → ℕ → RangeResult
  invalid_range : RangeResult
  value_error : RangeResult

unfoldable pub starts_with_codes : List ℕ → List ℕ → Bool
starts_with_codes cs [] = true
starts_with_codes [] (p ∷ ps) = false
starts_with_codes (c ∷ cs) (p ∷ ps) = nat_beq c p && starts_with_codes cs ps

-- `spec.split("-", 1)`: the text before the first dash, and the text behind it
pub before_dash : List ℕ → List ℕ
before_dash [] = []
before_dash (c ∷ cs) = let rest = before_dash cs in if nat_beq c b'-' then [] else c ∷ rest

pub behind_dash : List ℕ → List ℕ
behind_dash [] = []
behind_dash (c ∷ cs) = let rest = behind_dash cs in if nat_beq c b'-' then cs else rest

-- the last lines of `parse_bytes_range`
pub clip : ℕ → ℕ → ℕ → RangeResult
clip start end size =
    if ltb end start || leb size start then invalid_range else range start (min end (size - 1))

pub suffix_range : Option ℕ → ℕ → RangeResult
unfolding clip
suffix_range none size = value_error
suffix_range (some length) size =
    if nat_beq length 0 then invalid_range else clip (size - length) (size - 1) size

pub open_range : Option ℕ → ℕ → RangeResult
unfolding clip
open_range none size = value_error
open_range (some start) size = clip start (size - 1) size

pub closed_range : Option ℕ → Option ℕ → ℕ → RangeResult
unfolding clip
closed_range (some start) (some end) size = clip start end size
closed_range none end size = value_error
closed_range (some start) none size = value_error

pub parse_spec : List ℕ → List ℕ → ℕ → RangeResult
unfolding suffix_range open_range closed_range
parse_spec start_s end_s size =
    if is_empty start_s
    then (if is_digits end_s then suffix_range (int_of end_s) size else invalid_range)
    else if is_empty end_s
    then (if is_digits start_s then open_range (int_of start_s) size else invalid_range)
    else if is_digits start_s && is_digits end_s
    then closed_range (int_of start_s) (int_of end_s) size
    else invalid_range

pub parse_value : List ℕ → ℕ → RangeResult
unfolding starts_with_codes before_dash behind_dash parse_spec strip lower
parse_value value size =
    if not (starts_with_codes (map lower value) (codes "bytes="))
    then invalid_range
    else let spec = strip (drop 6 value) in
      if any (nat_beq b',') spec
      then invalid_range
      else if not (any (nat_beq b'-') spec)
      then invalid_range
      else if nat_beq size 0
      then invalid_range
      else parse_spec (before_dash spec) (behind_dash spec) size

pub parse_codes : List ℕ → ℕ → RangeResult
unfolding parse_value
parse_codes header size = if is_empty header then no_range else parse_value (strip header) size

unfoldable pub parse_bytes_range : Option String → ℕ → RangeResult
unfolding parse_codes is_digits int_of
parse_bytes_range none size = no_range
parse_bytes_range (some header) size = parse_codes (codes header) size

-- the pieces of `header_value.split(",")`
pub split_commas : List ℕ → List (List ℕ)
split_commas [] = [] ∷ []
split_commas (c ∷ cs) = elim (split_commas cs) [
  | [] ↦ (c ∷ []) ∷ []
  | piece ∷ rest ↦ if nat_beq c b',' then [] ∷ piece ∷ rest else (c ∷ piece) ∷ rest
]

lstrip_quotes : List ℕ → List ℕ
lstrip_quotes [] = []
lstrip_quotes (c ∷ cs) = let rest = lstrip_quotes cs in if nat_beq c 34 then rest else c ∷ cs

-- `.strip('"')`
pub strip_quotes : List ℕ → List ℕ
unfolding lstrip_quotes
strip_quotes cs =
    mathlib.Core.List.reverse (lstrip_quotes (mathlib.Core.List.reverse (lstrip_quotes cs)))

pub token_matches : List ℕ → List ℕ → Bool
unfolding strip_quotes strip codes_eq
token_matches etag_norm part =
    let token = strip part in codes_eq token (b'*' ∷ []) || codes_eq (strip_quotes token) etag_norm

unfoldable pub etag_matches : Option String → String → Bool
unfolding split_commas token_matches
etag_matches none etag = false
etag_matches (some header) etag =
    let cs = codes header in
    if is_empty cs
    then false
    else any (token_matches (strip_quotes (strip (codes etag)))) (split_commas cs)

pub data Condition : Type 0 where
  proceed not_modified precondition_failed : Condition

pub record ConditionHeaders : Type 0 where
  pub if_match : Option String
  pub if_none_match : Option String
  pub if_modified_since : Option String
  pub if_unmodified_since : Option String

-- `email.utils.parsedate_to_datetime` is a parameter; `_parse_http_date` is its use here.
module _ (parsedate : String → Option ℕ) where
  pub parse_http_date : Option String → Option ℕ
  parse_http_date none = none
  parse_http_date (some value) = if is_empty (codes value) then none else parsedate value

  -- `test last_modified since`, where both dates are there
  pub when_dated : (ℕ → ℕ → Bool) → Option ℕ → Option ℕ → Bool
  when_dated test (some lm) (some since) = test lm since
  when_dated test none since = false
  when_dated test (some lm) none = false

  unfoldable pub evaluate_conditionals : String → Option ℕ → ConditionHeaders → Condition
  unfolding parse_http_date when_dated
  evaluate_conditionals etag last_modified h =
      if is_some h.if_match && not (etag_matches h.if_match etag)
      then precondition_failed
      else if is_some h.if_none_match && etag_matches h.if_none_match etag
      then not_modified
      else if when_dated (λ lm since. ltb since lm) last_modified
          (parse_http_date h.if_unmodified_since)
      then precondition_failed
      else if when_dated (λ lm since. leb lm since) last_modified
          (parse_http_date h.if_modified_since)
      then not_modified
      else proceed
