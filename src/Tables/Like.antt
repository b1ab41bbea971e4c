-- ===== src/Tables/Like.antt =====
-- app/db/sql_like.py
use Prim.Native.Char.{code}
use telezon_s.Prelude.{◌||◌, String, ◌<>◌, nat_beq, if◌then◌else◌}

-- The three replacements in one pass: only the first adds what it replaces, and the others leave
-- that alone.
unfoldable pub escape_like_prefix : String → String
escape_like_prefix String.[] = ""
escape_like_prefix (String.◌∷◌ c s) =
    let rest = escape_like_prefix s in
    if nat_beq (code c) b'\\' || nat_beq (code c) b'%' || nat_beq (code c) b'_'
    then "\\" <> String.◌∷◌ c rest
    else String.◌∷◌ c rest

-- the pattern of a query by prefix
abbrev pub prefix_pattern : String → String
prefix_pattern prefix = escape_like_prefix prefix <> "%"
