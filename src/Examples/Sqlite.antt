-- ===== src/Examples/Sqlite.antt =====
-- How SQLite compares texts: LIKE ignores the case of ASCII letters, and columns are ordered by
-- code points.
use telezon_s.Prelude.{
  ℕ, ◌+◌, Bool, true, false, ◌&&◌, ◌||◌, not, List, [], ◌∷◌, leb, nat_beq, if◌then◌else◌, is_empty,
  codes, text_lt,
}
use telezon_s.Model.{Collation}

abbrev ascii_lower : ℕ → ℕ
ascii_lower c = if leb 65 c && leb c 90 then c + 32 else c

abbrev any_rest : (List ℕ → Bool) → List ℕ → Bool
any_rest f [] = f []
any_rest f (c ∷ cs) = f (c ∷ cs) || any_rest f cs

abbrev one_char : (ℕ → Bool) → (List ℕ → Bool) → List ℕ → Bool
one_char p f [] = false
one_char p f (c ∷ cs) = p c && f cs

-- the flag says that the next character of the pattern stands for itself
abbrev like_codes : Bool → List ℕ → List ℕ → Bool
like_codes escaped [] path = is_empty path
like_codes escaped (p ∷ ps) path =
    let rest = like_codes false ps in
    let literal = like_codes true ps path in
    if not escaped && nat_beq p b'\\'
    then literal
    else if not escaped && nat_beq p b'%'
    then any_rest rest path
    else one_char (λ c. not escaped && nat_beq p b'_' || nat_beq (ascii_lower c) (ascii_lower p))
        rest path

abbrev pub sqlite : Collation
sqlite = record {
  like = λ path pattern. like_codes false (codes pattern) (codes path);
  before = text_lt;
}
