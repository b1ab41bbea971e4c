-- ===== src/Prelude/Texts.antt =====
-- Text: Python's `str` as `String`, walked through its code points where the code walks it.
use Prim.Native.Char.{code}
use Prim.Native.Nat.{ℕ, ◌+◌}
use Prim.Native.String.{String}
use mathlib.Core.Bool.{Bool, true, false, ◌||◌, ◌&&◌, not}
use mathlib.Core.List.{List, [], ◌∷◌, reverse}
use telezon_s.Prelude.Tests.{ltb, leb, nat_beq, if◌then◌else◌}

abbrev pub codes : String → List ℕ
codes String.[] = []
codes (String.◌∷◌ c s) = code c ∷ codes s

-- `str.isspace` and what `str.strip` removes, below code point 256
unfoldable pub is_space : ℕ → Bool
is_space c = leb 9 c && leb c 13 || leb 28 c && leb c 32 || nat_beq c 133 || nat_beq c 160

unfoldable pub lstrip : List ℕ → List ℕ
lstrip [] = []
lstrip (c ∷ cs) = let rest = lstrip cs in if is_space c then rest else c ∷ cs

unfoldable pub strip : List ℕ → List ℕ
unfolding lstrip is_space
strip cs = reverse (lstrip (reverse (lstrip cs)))

-- `str.lower`, below code point 256
unfoldable pub lower : ℕ → ℕ
lower c =
    if leb 65 c && leb c 90 || leb 192 c && leb c 222 && not (nat_beq c 215) then c + 32 else c

unfoldable pub codes_eq : List ℕ → List ℕ → Bool
codes_eq [] [] = true
codes_eq (a ∷ as') (b ∷ bs) = nat_beq a b && codes_eq as' bs
codes_eq _ _ = false

-- the order of `str` and of the database's path column: lexicographic in the code points
unfoldable pub text_lt : String → String → Bool
text_lt String.[] String.[] = false
text_lt String.[] (String.◌∷◌ d t) = true
text_lt (String.◌∷◌ c s) String.[] = false
text_lt (String.◌∷◌ c s) (String.◌∷◌ d t) =
    ltb (code c) (code d) || nat_beq (code c) (code d) && text_lt s t
