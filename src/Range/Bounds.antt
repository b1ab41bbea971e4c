-- ===== src/Range/Bounds.antt =====
-- What a range that `parse_bytes_range` returns satisfies.
use telezon_s.Prelude.{
  ℕ, ◌-◌, ◌≤◌, ◌<◌, ◌≡◌, Option, none, some, String, List, arith, codes, strip, drop,
}
use telezon_s.Range.{
  RangeResult, range, clip, suffix_range, open_range, closed_range, parse_spec, parse_value,
  parse_bytes_range, int_of, before_dash, behind_dash,
}

module _ (size s e : ℕ) where
  abbrev Within : RangeResult → Type 0
  Within r = r ≡ range s e → (s ≤ e) × (e < size)

  clip_bounds : (start end : ℕ) → Within (clip start end size)
  unfolding clip
  clip_bounds start end = ground arith

  suffix_range_bounds : (o : Option ℕ) → Within (suffix_range o size)
  unfolding suffix_range
  suffix_range_bounds none = ground arith
  suffix_range_bounds (some n) = ground (arith, clip_bounds (size - n) (size - 1))

  open_range_bounds : (o : Option ℕ) → Within (open_range o size)
  unfolding open_range
  open_range_bounds none = ground arith
  open_range_bounds (some n) = clip_bounds n (size - 1)

  closed_range_bounds : (o p : Option ℕ) → Within (closed_range o p size)
  unfolding closed_range
  closed_range_bounds none p = ground arith
  closed_range_bounds (some n) none = ground arith
  closed_range_bounds (some n) (some m) = clip_bounds n m

  parse_spec_bounds : (start_s end_s : List ℕ) → Within (parse_spec start_s end_s size)
  parse_spec_bounds start_s end_s =
      let suffix = suffix_range_bounds (int_of end_s) in
      let open_end = open_range_bounds (int_of start_s) in
      let closed = closed_range_bounds (int_of start_s) (int_of end_s) in
      unfold parse_spec in ground (arith, suffix, open_end, closed)

  parse_value_bounds : (value : List ℕ) → Within (parse_value value size)
  parse_value_bounds value =
      let spec = strip (drop 6 value) in
      let parsed = parse_spec_bounds (before_dash spec) (behind_dash spec) in
      unfold parse_value in ground (arith, parsed)

-- Whatever the header says, a range that is returned for an object of `size` bytes has its first
-- byte at or before its last, and its last byte inside the object.
pub parse_bytes_range_bounds :
    (header : Option String) (size s e : ℕ)
    → parse_bytes_range header size ≡ range s e
    → (s ≤ e) × (e < size)
unfolding parse_bytes_range
parse_bytes_range_bounds none size s e = ground arith
parse_bytes_range_bounds (some header) size s e =
    ground (arith, parse_value_bounds size s e (strip (codes header)))
