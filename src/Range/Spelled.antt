-- ===== src/Range/Spelled.antt =====
-- The three spellings of a range, with any decimal numbers, and what they are read as.
use mathlib.Core.List.{reverse-append, reverse-cons, reverse-reverse, append_assoc}
use telezon_s.Prelude.{
  ℕ, ◌-◌, ◌<◌, ◌≡◌, ◌≢◌, some, List, [], ◌∷◌, ◌++◌, arith, true, false, if◌then◌else◌, ltb, leb,
  nat_beq, codes, ◌||◌, is_empty, min, strip, lstrip, is_space, reverse, any, refl, ap, ◌∙◌, lower,
}
use telezon_s.Range.{
  range, invalid_range, clip, parse_spec, parse_codes, before_dash, behind_dash, is_digits, int_of,
  is_decimal, is_digit, all_of, starts_with_codes,
}

-- the text of a decimal number that `int` reads as `n`
pub record Spells (cs : List ℕ) (n : ℕ) : Type 0 where
  pub present : cs ≢ []
  pub read : int_of cs ≡ some n

lstrip_lem : (c : ℕ) (cs : List ℕ) → is_space c ≡ false → lstrip (c ∷ cs) ≡ c ∷ cs
unfolding lstrip
lstrip_lem c cs h = ground arith

strip_lem :
    (c d : ℕ) (cs : List ℕ)
    → is_space c ≡ false
    → is_space d ≡ false
    → strip (c ∷ (cs ++ d ∷ [])) ≡ c ∷ (cs ++ d ∷ [])
unfolding strip
strip_lem c d cs hc hd =
    rw
      (
        lstrip_lem c (cs ++ d ∷ []) hc,
        reverse-append (c ∷ cs) (d ∷ []),
        lstrip_lem d (reverse (c ∷ cs)) hd,
        reverse-cons,
        reverse-reverse,
      )
      refl

decimal_not_space : (c : ℕ) → is_decimal c ≡ true → is_space c ≡ false
unfolding is_decimal is_space
decimal_not_space c h = ground arith

decimal_is_digit : (cs : List ℕ) → all_of is_decimal cs ≡ true → all_of is_digit cs ≡ true
unfolding all_of is_digit
decimal_is_digit [] h = refl
decimal_is_digit (c ∷ cs) h = ground (arith, decimal_is_digit cs)

before_dash-append :
    (cs es : List ℕ) → all_of is_decimal cs ≡ true → before_dash (cs ++ b'-' ∷ es) ≡ cs
unfolding all_of is_decimal before_dash
before_dash-append [] es h = refl
before_dash-append (c ∷ cs) es h = ground (arith, before_dash-append cs es)

behind_dash-append :
    (cs es : List ℕ) → all_of is_decimal cs ≡ true → behind_dash (cs ++ b'-' ∷ es) ≡ es
unfolding all_of is_decimal behind_dash
behind_dash-append [] es h = refl
behind_dash-append (c ∷ cs) es h = ground (arith, behind_dash-append cs es)

any_comma :
    (cs es : List ℕ)
    → all_of is_decimal cs ≡ true
    → any (nat_beq b',') (cs ++ es) ≡ any (nat_beq b',') es
unfolding all_of is_decimal
any_comma [] es h = refl
any_comma (c ∷ cs) es h = ground (arith, any_comma cs es)

any_dash : (cs es : List ℕ) → any (nat_beq b'-') (cs ++ b'-' ∷ es) ≡ true
any_dash [] es = refl
any_dash (c ∷ cs) es = ground (arith, any_dash cs es)

snoc_of :
    (c : ℕ) (cs : List ℕ)
    → all_of is_decimal (c ∷ cs) ≡ true
    → (i : List ℕ) × (d : ℕ) × (c ∷ cs ≡ i ++ d ∷ []) × (is_decimal d ≡ true)
unfolding all_of
snoc_of c [] h = ([], c, refl, ground arith)
snoc_of c (e ∷ cs) h =
    let (i, d, eq, q) = snoc_of e cs (ground arith) in (c ∷ i, d, ap (λ l. c ∷ l) eq, q)

abbrev header_of : List ℕ → List ℕ
header_of spec = codes "bytes=" ++ spec

-- a text whose first and last characters `strip` keeps
pub record IsTrim (spec : List ℕ) : Type 0 where
  pub alone : strip spec ≡ spec
  pub behind : strip (header_of spec) ≡ header_of spec

IsTrim-ends :
    (c d : ℕ) (m : List ℕ) → is_space c ≡ false → is_space d ≡ false → IsTrim (c ∷ (m ++ d ∷ []))
IsTrim-ends c d m hc hd = record {
  alone = strip_lem c d m hc hd;
  behind = strip_lem b'b' d (codes "ytes=" ++ c ∷ m) (unfold is_space in refl) hd;
}

-- a specification with no comma and a dash, behind `bytes=`
parse_codes-header_of :
    (spec : List ℕ) (size : ℕ)
    → IsTrim spec
    → any (nat_beq b',') spec ≡ false
    → any (nat_beq b'-') spec ≡ true
    → 0 < size
    → parse_codes (header_of spec) size ≡ parse_spec (before_dash spec) (behind_dash spec) size
unfolding parse_codes starts_with_codes lower
parse_codes-header_of spec size t comma dash pos =
    rw t.behind (rw (t.alone, comma, dash) (ground arith))

is_decimal_of_int : (cs : List ℕ) (n : ℕ) → int_of cs ≡ some n → all_of is_decimal cs ≡ true
unfolding int_of
is_decimal_of_int cs n h = ground arith

is_digits_of_int :
    (cs : List ℕ) (n : ℕ) → is_empty cs ≡ false → int_of cs ≡ some n → is_digits cs ≡ true
unfolding is_digits
is_digits_of_int cs n p h = ground (arith, decimal_is_digit cs (is_decimal_of_int cs n h))

-- What `int` reads as `n`, with its first character named.
data Number : List ℕ → ℕ → Type 0 where
  number : (c : ℕ) (cs : List ℕ) {n : ℕ} → int_of (c ∷ cs) ≡ some n → Number (c ∷ cs) n

Number-of-Spells : (cs : List ℕ) (n : ℕ) → Spells cs n → Number cs n
Number-of-Spells [] n h = absurd (h.present refl)
Number-of-Spells (c ∷ cs) n h = number c cs h.read

head_decimal : (c : ℕ) (cs : List ℕ) → all_of is_decimal (c ∷ cs) ≡ true → is_decimal c ≡ true
unfolding all_of
head_decimal c cs h = ground arith

dash_not_space : is_space b'-' ≡ false
unfolding is_space
dash_not_space = refl

IsTrim-behind :
    (c : ℕ) (m es : List ℕ) (n : ℕ) → is_space c ≡ false → Number es n → IsTrim (c ∷ (m ++ es))
IsTrim-behind c m es n hc (number e rest h) =
    let (i, d, eq, q) = snoc_of e rest (is_decimal_of_int (e ∷ rest) n h) in
    rw eq (rw (← append_assoc m i (d ∷ [])) (IsTrim-ends c d (m ++ i) hc (decimal_not_space d q)))

no_comma : (cs : List ℕ) → all_of is_decimal cs ≡ true → any (nat_beq b',') cs ≡ false
unfolding all_of is_decimal
no_comma [] h = refl
no_comma (c ∷ cs) h = ground (arith, no_comma cs)

module _ (size : ℕ) (pos : 0 < size) where
  closed_of_Numbers :
      (ds es : List ℕ) (a b : ℕ)
      → Number ds a
      → Number es b
      → parse_codes (header_of (ds ++ b'-' ∷ es)) size ≡ clip a b size
  unfolding parse_spec
  closed_of_Numbers ds es a b (number c cs h) (number e rest k) =
      let hd = is_decimal_of_int (c ∷ cs) a h in
      let he = is_decimal_of_int (e ∷ rest) b k in
      parse_codes-header_of ((c ∷ cs) ++ b'-' ∷ (e ∷ rest)) size
        (rw (append_assoc cs (b'-' ∷ []) (e ∷ rest)) at (
          IsTrim-behind c (cs ++ b'-' ∷ []) (e ∷ rest) b
            (decimal_not_space c (head_decimal c cs hd)) (number e rest k)))
        (any_comma (c ∷ cs) (b'-' ∷ e ∷ rest) hd ∙ no_comma (e ∷ rest) he)
        (any_dash (c ∷ cs) (e ∷ rest)) pos
      ∙ rw
          (
            before_dash-append (c ∷ cs) (e ∷ rest) hd,
            behind_dash-append (c ∷ cs) (e ∷ rest) hd,
            is_digits_of_int (c ∷ cs) a refl h,
            is_digits_of_int (e ∷ rest) b refl k,
            h,
            k,
          )
          refl

  open_of_Number :
      (ds : List ℕ) (a : ℕ)
      → Number ds a
      → parse_codes (header_of (ds ++ b'-' ∷ [])) size ≡ clip a (size - 1) size
  unfolding parse_spec
  open_of_Number ds a (number c cs h) =
      let hd = is_decimal_of_int (c ∷ cs) a h in
      parse_codes-header_of ((c ∷ cs) ++ b'-' ∷ []) size
        (IsTrim-ends c b'-' cs (decimal_not_space c (head_decimal c cs hd)) dash_not_space)
        (any_comma (c ∷ cs) (b'-' ∷ []) hd) (any_dash (c ∷ cs) []) pos
      ∙ rw
          (
            before_dash-append (c ∷ cs) [] hd,
            behind_dash-append (c ∷ cs) [] hd,
            is_digits_of_int (c ∷ cs) a refl h,
            h,
          )
          refl

  suffix_of_Number :
      (es : List ℕ) (b : ℕ)
      → Number es b
      → 0 < b
      → parse_codes (header_of (b'-' ∷ es)) size ≡ clip (size - b) (size - 1) size
  unfolding parse_spec before_dash behind_dash
  suffix_of_Number es b (number e rest k) some_bytes =
      let he = is_decimal_of_int (e ∷ rest) b k in
      parse_codes-header_of (b'-' ∷ e ∷ rest) size
        (IsTrim-behind b'-' [] (e ∷ rest) b dash_not_space (number e rest k))
        (no_comma (e ∷ rest) he) refl pos
      ∙ rw (is_digits_of_int (e ∷ rest) b refl k, k) (ground arith)

  -- For an object of `size` > 0 bytes and decimal numbers a and b > 0 that `int` accepts:
  -- `bytes=a-b` is the range from a to the smaller of b and the last byte, or is invalid if b < a
  -- or a is not inside; `bytes=a-` runs from a to the last byte, or is invalid if a is not inside;
  -- `bytes=-b` is the last b bytes, all of them if there are fewer.
  pub parse_codes_spelled :
      (ds es : List ℕ) (a b : ℕ)
      → Spells ds a
      → Spells es b
      → 0 < b
      → (parse_codes (header_of (ds ++ b'-' ∷ es)) size
          ≡ (if ltb b a || leb size a then invalid_range else range a (min b (size - 1))))
        × (parse_codes (header_of (ds ++ b'-' ∷ [])) size
            ≡ (if leb size a then invalid_range else range a (size - 1)))
        × (parse_codes (header_of (b'-' ∷ es)) size ≡ range (size - b) (size - 1))
  unfolding clip
  parse_codes_spelled ds es a b hd he h = (
    closed_of_Numbers ds es a b (Number-of-Spells ds a hd) (Number-of-Spells es b he),
    open_of_Number ds a (Number-of-Spells ds a hd) ∙ ground arith,
    suffix_of_Number es b (Number-of-Spells es b he) h ∙ ground arith,
  )
