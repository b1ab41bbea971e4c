-- ===== src/Cache/Entries.antt =====
-- The laws of the dicts that the cache keeps.
use telezon_s.Prelude.{
  ◌≡◌, none, some, List, [], ◌∷◌, String, arith, if◌then◌else◌, ◌==◌, string_eq, eq_iff,
}
use telezon_s.Cache.{lookup, pop, assign}

module _ {ℓ} {V : Type ℓ} where
  pub lookup-pop :
      (k j : String) (m : List (String × V))
      → lookup j (pop k m) ≡ (if k == j then none else lookup j m)
  unfolding lookup pop
  lookup-pop k j [] = ground arith
  lookup-pop k j ((i, n) ∷ m) = ground (arith, lookup-pop k j m, eq_iff i k, eq_iff i j, eq_iff k j)

  pub lookup-assign :
      (k j : String) (v : V) (m : List (String × V))
      → lookup j (assign k v m) ≡ (if k == j then some v else lookup j m)
  unfolding lookup assign
  lookup-assign k j v [] = ground arith
  lookup-assign k j v ((i, n) ∷ m) =
      ground (arith, lookup-assign k j v m, eq_iff i k, eq_iff i j, eq_iff k j)
