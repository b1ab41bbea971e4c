-- ===== src/Range/Digits.antt =====
-- `str.isdigit` and `int` below code point 256, where the superscripts are digits to the first
-- and an error to the second.
use telezon_s.Prelude.{
  ℕ, ◌+◌, ◌-◌, ◌*◌, Bool, true, ◌&&◌, ◌||◌, Option, none, some, List, [], ◌∷◌, leb, nat_beq, length,
  is_empty, if◌then◌else◌, not,
}

unfoldable pub is_decimal : ℕ → Bool
is_decimal c = leb b'0' c && leb c b'9'

unfoldable pub is_digit : ℕ → Bool
unfolding is_decimal
is_digit c = is_decimal c || nat_beq c 178 || nat_beq c 179 || nat_beq c 185

unfoldable pub all_of : (ℕ → Bool) → List ℕ → Bool
all_of p [] = true
all_of p (c ∷ cs) = p c && all_of p cs

-- `s.isdigit()`
unfoldable pub is_digits : List ℕ → Bool
unfolding all_of is_digit
is_digits cs = not (is_empty cs) && all_of is_digit cs

unfoldable pub value_from : ℕ → List ℕ → ℕ
value_from n [] = n
value_from n (c ∷ cs) = value_from (n * 10 + (c - b'0')) cs

-- the interpreter's default limit on the digits of an `int` literal
abbrev pub max_str_digits : ℕ
max_str_digits = 4300

-- `int(s)` of a text that passed `isdigit`; none is a `ValueError`
unfoldable pub int_of : List ℕ → Option ℕ
unfolding all_of is_decimal value_from
int_of cs =
    if all_of is_decimal cs && leb (length cs) max_str_digits then some (value_from 0 cs) else none
