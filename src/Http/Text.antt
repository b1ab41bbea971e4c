-- ===== src/Http/Text.antt =====
-- Python's string methods over `String`, for code points below 256.
use Prim.Native.Char.{code}
use telezon_s.Prelude.{
  ℕ, ◌+◌, ◌-◌, ◌*◌, Bool, true, false, ◌&&◌, not, Option, none, some, List, [], ◌∷◌, String,
  string_eq, nat_beq, leb, if◌then◌else◌, is_space, strip, codes, zero, suc, ltb, ◌<>◌, ◌/◌, ◌%◌,
}

abbrev pub is_blank : String → Bool
is_blank String.[] = true
is_blank (String.◌∷◌ c s) = false

unfoldable pub lstrip_text : String → String
unfolding is_space
lstrip_text String.[] = ""
lstrip_text (String.◌∷◌ c s) =
    let rest = lstrip_text s in if is_space (code c) then rest else String.◌∷◌ c s

unfoldable pub rstrip_text : String → String
unfolding is_space
rstrip_text String.[] = ""
rstrip_text (String.◌∷◌ c s) =
    let rest = rstrip_text s in if is_blank rest && is_space (code c) then "" else String.◌∷◌ c rest

-- `s.strip()`
unfoldable pub strip_text : String → String
unfolding lstrip_text rstrip_text
strip_text s = rstrip_text (lstrip_text s)

-- `s.split(sep, 1)[0]`, and what stands behind the first separator
unfoldable pub before_char : ℕ → String → String
before_char sep String.[] = ""
before_char sep (String.◌∷◌ c s) =
    let rest = before_char sep s in if nat_beq (code c) sep then "" else String.◌∷◌ c rest

unfoldable pub behind_char : ℕ → String → String
behind_char sep String.[] = ""
behind_char sep (String.◌∷◌ c s) =
    let rest = behind_char sep s in if nat_beq (code c) sep then s else rest

-- `s[len(prefix):]` of a text that starts with `prefix`
unfoldable pub skip : String → String → String
skip String.[] s = s
skip (String.◌∷◌ p ps) String.[] = ""
skip (String.◌∷◌ p ps) (String.◌∷◌ c s) = skip ps s

-- `int(s)`: a sign and decimal digits, with single underscores between digits, in white space.
pub data Integer : Type 0 where
  natural negative : ℕ → Integer
  not_a_number : Integer

-- the digits from `n` on; the flag says that a digit has to follow
unfoldable pub digits_from : ℕ → Bool → List ℕ → Option ℕ
digits_from n open_end [] = if open_end then none else some n
digits_from n open_end (c ∷ cs) =
    let later = digits_from (n * 10 + (c - b'0')) false cs in
    let behind = digits_from n true cs in
    if leb b'0' c && leb c b'9'
    then later
    else if nat_beq c b'_' && not open_end
    then behind
    else none

abbrev pub signed : (ℕ → Integer) → Option ℕ → Integer
signed f none = not_a_number
signed f (some n) = f n

unfoldable pub int_of_codes : List ℕ → Integer
unfolding digits_from
int_of_codes [] = not_a_number
int_of_codes (c ∷ cs) =
    if nat_beq c b'-'
    then signed negative (digits_from 0 true cs)
    else if nat_beq c b'+'
    then signed natural (digits_from 0 true cs)
    else signed natural (digits_from 0 true (c ∷ cs))

unfoldable pub int_of_text : String → Integer
unfolding int_of_codes strip
int_of_text s = int_of_codes (strip (codes s))

-- `str(n)` of a natural number: `n` steps are enough for its digits
abbrev pub digit_text : ℕ → String
digit_text n =
    if nat_beq n 0
    then "0"
    else if nat_beq n 1
    then "1"
    else if nat_beq n 2
    then "2"
    else if nat_beq n 3
    then "3"
    else if nat_beq n 4
    then "4"
    else if nat_beq n 5
    then "5"
    else if nat_beq n 6
    then "6"
    else if nat_beq n 7
    then "7"
    else if nat_beq n 8
    then "8"
    else "9"

unfoldable pub show_from : ℕ → ℕ → String
show_from zero n = ""
show_from (suc fuel) n =
    let high = show_from fuel (n / 10) in
    if ltb n 10 then digit_text n else high <> digit_text (n % 10)

unfoldable pub show_nat : ℕ → String
unfolding show_from
show_nat n = show_from (suc n) n

-- `xml.sax.saxutils.escape`
unfoldable pub escape : String → String
escape String.[] = ""
escape (String.◌∷◌ c s) =
    let rest = escape s in
    if nat_beq (code c) b'&'
    then "&amp;" <> rest
    else if nat_beq (code c) b'<'
    then "&lt;" <> rest
    else if nat_beq (code c) b'>'
    then "&gt;" <> rest
    else String.◌∷◌ c rest

-- `s.strip(sep)` for a single character
unfoldable pub lstrip_char : ℕ → String → String
lstrip_char sep String.[] = ""
lstrip_char sep (String.◌∷◌ c s) =
    let rest = lstrip_char sep s in if nat_beq (code c) sep then rest else String.◌∷◌ c s

unfoldable pub rstrip_char : ℕ → String → String
rstrip_char sep String.[] = ""
rstrip_char sep (String.◌∷◌ c s) =
    let rest = rstrip_char sep s in
    if is_blank rest && nat_beq (code c) sep then "" else String.◌∷◌ c rest

unfoldable pub strip_char : ℕ → String → String
unfolding lstrip_char rstrip_char
strip_char sep s = rstrip_char sep (lstrip_char sep s)

unfoldable pub has_char : ℕ → String → Bool
has_char sep String.[] = false
has_char sep (String.◌∷◌ c s) =
    let rest = has_char sep s in if nat_beq (code c) sep then true else rest
