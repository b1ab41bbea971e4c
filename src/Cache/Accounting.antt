-- ===== src/Cache/Accounting.antt =====
-- The total that the metadata keeps is the sum of the entries, and stays within the limit.
use telezon_s.Prelude.{
  ℕ, zero, suc, ◌+◌, ◌≤◌, ◌≡◌, refl, false, List, [], ◌∷◌, String, arith, length, string_eq, eq_iff,
  none, Bool-cases, Option-cases, inl, inr,
}
use telezon_s.Model.{Config}
use telezon_s.Cache.{
  Cache, oldest, lookup, pop, assign, size_of, entry_key, delete_entry, cache_delete, too_full,
  evict, store_entry, cache_put,
}
use telezon_s.Cache.Entries.{lookup-pop, lookup-assign}

abbrev pub sum_sizes : List (String × ℕ) → ℕ
sum_sizes [] = 0
sum_sizes ((k, n) ∷ m) = n + sum_sizes m

-- a Python dict has each key once
abbrev pub KeysOnce : List (String × ℕ) → Type 0
KeysOnce [] = Unit
KeysOnce ((k, n) ∷ m) = (lookup k m ≡ none) × KeysOnce m

pub record IsAccounted (cfg : Config) (c : Cache) : Type 0 where
  pub keys_once : KeysOnce c.entries
  pub total_eq : c.total ≡ sum_sizes c.entries
  pub within : c.total ≤ cfg.cache_max_bytes

size_of-absent : (k : String) (m : List (String × ℕ)) → lookup k m ≡ none → size_of k m ≡ 0
unfolding lookup size_of
size_of-absent k [] h = refl
size_of-absent k ((i, n) ∷ m) h = ground (arith, size_of-absent k m)

pop-absent : (k : String) (m : List (String × ℕ)) → lookup k m ≡ none → pop k m ≡ m
unfolding lookup pop
pop-absent k [] h = refl
pop-absent k ((i, n) ∷ m) h = ground (arith, pop-absent k m)

sum_sizes-pop :
    (k : String) (m : List (String × ℕ))
    → KeysOnce m
    → sum_sizes (pop k m) + size_of k m ≡ sum_sizes m
unfolding pop size_of
sum_sizes-pop k [] h = refl
sum_sizes-pop k ((i, n) ∷ m) h =
    ground (arith, sum_sizes-pop k m, eq_iff i k, size_of-absent k m, pop-absent k m)

KeysOnce-pop : (k : String) (m : List (String × ℕ)) → KeysOnce m → KeysOnce (pop k m)
unfolding pop
KeysOnce-pop k [] h = tt
KeysOnce-pop k ((i, n) ∷ m) h = ground (arith, KeysOnce-pop k m, lookup-pop k i m, eq_iff k i)

sum_sizes-assign :
    (k : String) (v : ℕ) (m : List (String × ℕ))
    → KeysOnce m
    → sum_sizes (assign k v m) + size_of k m ≡ sum_sizes m + v
unfolding assign size_of
sum_sizes-assign k v [] h = ground arith
sum_sizes-assign k v ((i, n) ∷ m) h = ground (arith, sum_sizes-assign k v m)

KeysOnce-assign :
    (k : String) (v : ℕ) (m : List (String × ℕ)) → KeysOnce m → KeysOnce (assign k v m)
unfolding assign
KeysOnce-assign k v [] h = (unfold lookup in refl, tt)
KeysOnce-assign k v ((i, n) ∷ m) h =
    ground (arith, KeysOnce-assign k v m, lookup-assign k i v m, eq_iff k i, eq_iff i k)

module _ (cfg : Config) where
  pub delete_entry-IsAccounted :
      (c : Cache) (k : String) → IsAccounted cfg c → IsAccounted cfg (delete_entry c k)
  unfolding delete_entry
  delete_entry-IsAccounted c k v = record {
    keys_once = KeysOnce-pop k c.entries v.keys_once;
    total_eq = omega (arith, sum_sizes-pop k c.entries v.keys_once, v.total_eq);
    within = omega (arith, v.within);
  }

  pub evict-IsAccounted :
      (fuel : ℕ) (c : Cache) (k : String) (size : ℕ)
      → IsAccounted cfg c
      → IsAccounted cfg (evict fuel cfg c k size)
  unfolding evict
  evict-IsAccounted zero c k size v = v
  evict-IsAccounted (suc fuel) c k size v = elim (Option-cases (oldest c.entries)) [
    | inl e ↦ rw (e, evict) v
    | inr (victim, e) ↦
        let ih =
          evict-IsAccounted fuel (delete_entry c victim) k size
            (delete_entry-IsAccounted c victim v) in
        rw (e, evict)
          (elim (Bool-cases (too_full cfg c k size)) [ inl f ↦ rw f ih | inr f ↦ rw f v ])
  ]

  store_entry-IsAccounted :
      (c : Cache) (k : String) (content : List ℕ)
      → too_full cfg c k (length content) ≡ false
      → IsAccounted cfg c
      → IsAccounted cfg (store_entry c k content)
  unfolding store_entry too_full
  store_entry-IsAccounted c k content room v = record {
    keys_once = KeysOnce-assign k (length content) c.entries v.keys_once;
    total_eq = omega (
      arith,
      sum_sizes-assign k (length content) c.entries v.keys_once,
      sum_sizes-pop k c.entries v.keys_once,
      v.total_eq,
    );
    within = ground (arith, sum_sizes-pop k c.entries v.keys_once);
  }

  pub cache_put-IsAccounted :
      (c : Cache) (bucket key : String) (content : List ℕ)
      → IsAccounted cfg c
      → IsAccounted cfg (cache_put cfg c bucket key content)
  unfolding cache_put
  cache_put-IsAccounted c bucket key content v =
      let k = entry_key bucket key in
      let room = evict (length c.entries) cfg c k (length content) in
      let v' = evict-IsAccounted (length c.entries) c k (length content) v in
      ground (arith, v', store_entry-IsAccounted room k content)

  pub cache_delete-IsAccounted :
      (c : Cache) (bucket key : String)
      → IsAccounted cfg c
      → IsAccounted cfg (cache_delete cfg c bucket key)
  unfolding cache_delete
  cache_delete-IsAccounted c bucket key v =
      ground (arith, delete_entry-IsAccounted c (entry_key bucket key) v)
