-- ===== src/Cache.antt =====
-- app/storage/disk_cache.py: the disk cache of whole objects and its metadata file.
-- The file of an entry is named by a hash of the entry's key, and stands under the key itself
-- here. `partition` takes an entry's key apart and the deletion joins it again.
mod Entries
pub mod Accounting
pub mod Contents
use telezon_s.Prelude.{
  ℕ, zero, suc, ◌+◌, ◌-◌, Bool, true, false, ◌&&◌, not, Option, none, some, List, [], ◌∷◌, ◌++◌,
  String, ◌<>◌, ◌==◌, string_eq, if◌then◌else◌, ltb, length, is_empty,
}
use telezon_s.Model.{Config}

pub record Cache : Type 0 where
  pub files : List (String × List ℕ)
  pub entries : List (String × ℕ)
  pub total : ℕ

abbrev pub empty_cache : Cache
empty_cache = record { files = []; entries = []; total = 0 }

module _ {ℓ} {V : Type ℓ} where
  unfoldable pub lookup : String → List (String × V) → Option V
  lookup k [] = none
  lookup k ((j, v) ∷ m) = let rest = lookup k m in if j == k then some v else rest

  -- `d.pop(k, default)`, as the dict that is left
  unfoldable pub pop : String → List (String × V) → List (String × V)
  pop k [] = []
  pop k ((j, v) ∷ m) = let rest = pop k m in if j == k then rest else (j, v) ∷ rest

  -- `d[k] = v`, which keeps the place of a key that is there
  unfoldable pub assign : String → V → List (String × V) → List (String × V)
  assign k v [] = (k, v) ∷ []
  assign k v ((j, w) ∷ m) = let rest = assign k v m in if j == k then (k, v) ∷ m else (j, w) ∷ rest

unfoldable pub entry_key : String → String → String
entry_key bucket key = bucket <> "/" <> key

-- `entries.get(k, 0)`
unfoldable pub size_of : String → List (String × ℕ) → ℕ
size_of k [] = 0
size_of k ((j, n) ∷ m) = let rest = size_of k m in if j == k then n else rest

unfoldable pub cache_get : Config → Cache → String → String → Option (List ℕ)
unfolding lookup entry_key
cache_get cfg c bucket key =
    if cfg.cache_enabled then lookup (entry_key bucket key) c.files else none

-- `_cache_delete_unlocked`
unfoldable pub delete_entry : Cache → String → Cache
unfolding pop size_of
delete_entry c k = record {
  files = pop k c.files;
  entries = pop k c.entries;
  total = c.total - size_of k c.entries;
}

unfoldable pub cache_delete : Config → Cache → String → String → Cache
unfolding entry_key
cache_delete cfg c bucket key =
    if cfg.cache_enabled then delete_entry c (entry_key bucket key) else c

-- `total - old_size + len(data) > CACHE_MAX_BYTES`
unfoldable pub too_full : Config → Cache → String → ℕ → Bool
unfolding size_of
too_full cfg c k size = ltb (cfg.cache_max_bytes + size_of k c.entries) (c.total + size)

-- `next(iter(entries))`
unfoldable pub oldest : List (String × ℕ) → Option String
oldest [] = none
oldest ((k, n) ∷ m) = some k

-- The `while` of `cache_put`: each round deletes the oldest entry.
unfoldable pub evict : ℕ → Config → Cache → String → ℕ → Cache
evict zero cfg c k size = c
evict (suc fuel) cfg c k size = elim (oldest c.entries) [
  | none ↦ c
  | some victim ↦
      let next = evict fuel cfg (delete_entry c victim) k size in
      if too_full cfg c k size then next else c
]

-- `total - old_size` is not negative while the total is the sum of the entries.
unfoldable pub store_entry : Cache → String → List ℕ → Cache
unfolding assign size_of
store_entry c k content = record {
  files = assign k content c.files;
  entries = assign k (length content) c.entries;
  total = c.total - size_of k c.entries + length content;
}

unfoldable pub cache_put : Config → Cache → String → String → List ℕ → Cache
unfolding entry_key
cache_put cfg c bucket key content =
    if not cfg.cache_enabled
    then c
    else if ltb cfg.cache_max_bytes (length content)
    then c
    else let k = entry_key bucket key in
      let room = evict (length c.entries) cfg c k (length content) in
      if too_full cfg room k (length content) then room else store_entry room k content
