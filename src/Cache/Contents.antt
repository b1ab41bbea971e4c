-- ===== src/Cache/Contents.antt =====
-- What a reader of the cache sees: the content that was put last, or nothing.
use telezon_s.Prelude.{
  ℕ, zero, suc, ◌≤◌, ◌<◌, ◌≡◌, refl, true, false, Option, none, some, List, [], ◌∷◌, String, arith,
  length, ltb, if◌then◌else◌, ◌==◌, string_eq, eq_iff, Bool-cases, Option-cases, inl, inr,
}
use telezon_s.Model.{Config}
use telezon_s.Cache.{
  Cache, empty_cache, oldest, lookup, pop, entry_key, cache_get, delete_entry, cache_delete,
  too_full, evict, store_entry, cache_put, size_of,
}
use telezon_s.Cache.Entries.{lookup-pop, lookup-assign}
use telezon_s.Cache.Accounting.{
  IsAccounted, sum_sizes, delete_entry-IsAccounted, cache_put-IsAccounted, cache_delete-IsAccounted,
}

-- the two writes of the cache
pub data Write : Type 0 where
  put : String → String → List ℕ → Write
  delete : String → String → Write

module _ (cfg : Config) where
  unfoldable pub apply : Cache → Write → Cache
  apply c (put bucket key content) = cache_put cfg c bucket key content
  apply c (delete bucket key) = cache_delete cfg c bucket key

  unfoldable pub run : Cache → List Write → Cache
  unfolding apply
  run c [] = c
  run c (w ∷ ws) = run (apply c w) ws

  abbrev pub View : Type 0
  View = String → Option (List ℕ)

  -- the content put last under an entry's key; a put over the limit is no put
  abbrev pub seen : View → Write → View
  seen v (put bucket key content) j =
      if ltb cfg.cache_max_bytes (length content)
      then v j
      else if entry_key bucket key == j
      then some content
      else v j
  seen v (delete bucket key) j = if entry_key bucket key == j then none else v j

  abbrev pub history : View → List Write → View
  history v [] = v
  history v (w ∷ ws) = history (seen v w) ws

  abbrev Agrees : Cache → View → Type 0
  Agrees c v =
      (j : String) (content : List ℕ) → lookup j c.files ≡ some content → v j ≡ some content

  delete_entry-Agrees :
      (c : Cache) (v : View) (k : String) → Agrees c v → Agrees (delete_entry c k) v
  unfolding delete_entry
  delete_entry-Agrees c v k h j content = ground (arith, lookup-pop k j c.files, h j content)

  evict-Agrees :
      (fuel : ℕ) (c : Cache) (v : View) (k : String) (size : ℕ)
      → Agrees c v
      → Agrees (evict fuel cfg c k size) v
  unfolding evict
  evict-Agrees zero c v k size h = h
  evict-Agrees (suc fuel) c v k size h = elim (Option-cases (oldest c.entries)) [
    | inl e ↦ rw (e, evict) h
    | inr (victim, e) ↦
        let ih =
          evict-Agrees fuel (delete_entry c victim) v k size (delete_entry-Agrees c v victim h) in
        rw (e, evict)
          (elim (Bool-cases (too_full cfg c k size)) [ inl f ↦ rw f ih | inr f ↦ rw f h ])
  ]

  length-pop : (m : List (String × ℕ)) (k : String) → length (pop k m) ≤ length m
  unfolding pop
  length-pop [] k = omega arith
  length-pop ((i, n) ∷ m) k = ground (arith, length-pop m k)

  length-pop-oldest :
      (m : List (String × ℕ)) (k : String) → oldest m ≡ some k → length (pop k m) < length m
  unfolding pop oldest
  length-pop-oldest [] k h = absurd (ground arith)
  length-pop-oldest ((i, n) ∷ m) k h = ground (arith, eq_iff i k, length-pop m k)

  oldest-nil : (m : List (String × ℕ)) → length m ≤ 0 → oldest m ≡ none
  unfolding oldest
  oldest-nil [] h = refl
  oldest-nil (e ∷ m) h = absurd (omega arith)

  sizes-oldest :
      (m : List (String × ℕ)) (k : String) → oldest m ≡ none → (sum_sizes m ≡ 0) × (size_of k m ≡ 0)
  unfolding oldest size_of
  sizes-oldest [] k h = (refl, refl)
  sizes-oldest ((i, n) ∷ m) k h = absurd (ground arith)

  -- with no entry left there is room for any content within the limit
  room_when_empty :
      (c : Cache) (k : String) (size : ℕ)
      → oldest c.entries ≡ none
      → size ≤ cfg.cache_max_bytes
      → IsAccounted cfg c
      → too_full cfg c k size ≡ false
  unfolding too_full
  room_when_empty c k size e fits acc =
      let none_left = sizes-oldest c.entries k e in let total = acc.total_eq in ground arith

  evict-room :
      (fuel : ℕ) (c : Cache) (k : String) (size : ℕ)
      → length c.entries ≤ fuel
      → size ≤ cfg.cache_max_bytes
      → IsAccounted cfg c
      → too_full cfg (evict fuel cfg c k size) k size ≡ false
  unfolding evict
  evict-room zero c k size few fits acc =
      room_when_empty c k size (oldest-nil c.entries few) fits acc
  evict-room (suc fuel) c k size few fits acc = elim (Option-cases (oldest c.entries)) [
    | inl e ↦ rw (e, evict) (room_when_empty c k size e fits acc)
    | inr (victim, e) ↦
        let ih =
          evict-room fuel (delete_entry c victim) k size
            (unfold delete_entry in omega (arith, length-pop-oldest c.entries victim e)) fits
            (delete_entry-IsAccounted cfg c victim acc) in
        rw (e, evict)
          (elim (Bool-cases (too_full cfg c k size)) [ inl f ↦ rw f ih | inr f ↦ rw f f ])
  ]

  module _ (on : cfg.cache_enabled ≡ true) (c : Cache) (acc : IsAccounted cfg c)
      (bucket key : String) where
    put_eq :
        (content : List ℕ)
        → cache_put cfg c bucket key content ≡ (
            if ltb cfg.cache_max_bytes (length content)
            then c
            else store_entry
                (evict (length c.entries) cfg c (entry_key bucket key) (length content))
                (entry_key bucket key)
                content)
    unfolding cache_put
    put_eq content =
        let k = entry_key bucket key in
        let room = evict-room (length c.entries) c k (length content) (omega arith) in
        ground (arith, room)

  apply-Agrees :
      cfg.cache_enabled ≡ true
      → (c : Cache) (v : View) (w : Write) → IsAccounted cfg c
      → Agrees c v
      → Agrees (apply c w) (seen v w)
  unfolding apply cache_delete delete_entry
  apply-Agrees on c v (delete bucket key) acc h j content =
      ground (arith, lookup-pop (entry_key bucket key) j c.files, h j content)
  apply-Agrees on c v (put bucket key content) acc h j d =
      rw (put_eq on c acc bucket key content)
        (elim (Bool-cases (ltb cfg.cache_max_bytes (length content))) [
          | inl big ↦ rw big (h j d)
          | inr fits ↦
              let room = evict (length c.entries) cfg c (entry_key bucket key) (length content) in
              let kept =
                evict-Agrees (length c.entries) c v (entry_key bucket key) (length content) h in
              rw fits (
                unfold store_entry in
                ground (arith, lookup-assign (entry_key bucket key) j content room.files, kept j d))
        ])

  apply-IsAccounted : (c : Cache) (w : Write) → IsAccounted cfg c → IsAccounted cfg (apply c w)
  unfolding apply
  apply-IsAccounted c (put bucket key content) acc =
      cache_put-IsAccounted cfg c bucket key content acc
  apply-IsAccounted c (delete bucket key) acc = cache_delete-IsAccounted cfg c bucket key acc

  run-IsAccounted : (c : Cache) (ws : List Write) → IsAccounted cfg c → IsAccounted cfg (run c ws)
  unfolding run
  run-IsAccounted c [] acc = acc
  run-IsAccounted c (w ∷ ws) acc = run-IsAccounted (apply c w) ws (apply-IsAccounted c w acc)

  run-Agrees :
      cfg.cache_enabled ≡ true
      → (c : Cache) (v : View) (ws : List Write) → IsAccounted cfg c
      → Agrees c v
      → Agrees (run c ws) (history v ws)
  unfolding run
  run-Agrees on c v [] acc h = h
  run-Agrees on c v (w ∷ ws) acc h =
      run-Agrees on (apply c w) (seen v w) ws (apply-IsAccounted c w acc)
        (apply-Agrees on c v w acc h)

  empty-IsAccounted : IsAccounted cfg empty_cache
  empty-IsAccounted = record { keys_once = tt; total_eq = refl; within = omega arith }

  -- From an empty cache, after any writes: the total is the sum of the entries' sizes and at most
  -- the limit.
  pub total-run :
      (ws : List Write)
      → ((run empty_cache ws).total ≡ sum_sizes (run empty_cache ws).entries)
        × ((run empty_cache ws).total ≤ cfg.cache_max_bytes)
  total-run ws =
      let acc = run-IsAccounted empty_cache ws empty-IsAccounted in (acc.total_eq, acc.within)

  -- With the cache on, after any writes from an empty cache: what a read returns is the content
  -- that was put last under that entry's key and not deleted since (puts over the limit left out).
  pub cache_get-run :
      cfg.cache_enabled ≡ true
      → (ws : List Write) (bucket key : String) (content : List ℕ)
      → cache_get cfg (run empty_cache ws) bucket key ≡ some content
      → history (λ _. none) ws (entry_key bucket key) ≡ some content
  unfolding cache_get
  cache_get-run on ws bucket key content h =
      run-Agrees on empty_cache (λ _. none) ws empty-IsAccounted (unfold lookup in λ j d e. e)
        (entry_key bucket key) content (ground arith)

  -- With the cache on, after any writes from an empty cache: content within the limit that is put is
  -- what the next read of its key returns.
  pub cache_get-cache_put :
      cfg.cache_enabled ≡ true
      → (ws : List Write) (bucket key : String) (content : List ℕ)
      → length content ≤ cfg.cache_max_bytes
      → cache_get cfg (cache_put cfg (run empty_cache ws) bucket key content) bucket key
        ≡ some content
  unfolding cache_get
  cache_get-cache_put on ws bucket key content fits =
      let acc = run-IsAccounted empty_cache ws empty-IsAccounted in
      let c = run empty_cache ws in
      let k = entry_key bucket key in
      let room = evict (length c.entries) cfg c k (length content) in
      rw (put_eq on c acc bucket key content)
        (unfold store_entry in ground (arith, lookup-assign k k content room.files, eq_iff k k))
