-- ===== src/Multipart/Chunks.antt =====
-- The albums that the parts of an upload are sent in.
use telezon_s.Prelude.{
  ℕ, zero, suc, ◌≤◌, ◌<◌, ◌≡◌, refl, ap, ◌∙◌, List, [], ◌∷◌, ◌++◌, length, take, drop, arith,
  length-take, length-drop, take-drop,
}
use telezon_s.Multipart.Albums.{chunks_of}

module _ {ℓ} {A : Type ℓ} where
  abbrev pub flat : List (List A) → List A
  flat [] = []
  flat (x ∷ xs) = x ++ flat xs

  -- each of the lists has an element, and no more than `size`
  abbrev pub AllFilled : ℕ → List (List A) → Type 0
  AllFilled size [] = Unit {0}
  AllFilled size (x ∷ xs) = (0 < length x) × (length x ≤ size) × AllFilled size xs

  enough_fuel :
      (fuel size : ℕ) (xs : List A)
      → 0 < size
      → length xs ≤ fuel
      → (flat (chunks_of fuel size xs) ≡ xs) × AllFilled size (chunks_of fuel size xs)
  unfolding chunks_of
  enough_fuel zero size [] some_size h = (refl, tt)
  enough_fuel zero size (x ∷ xs) some_size h = absurd (omega (arith, h))
  enough_fuel (suc fuel) size [] some_size h = (refl, tt)
  enough_fuel (suc fuel) size (x ∷ xs) some_size h =
      let rest =
        enough_fuel fuel size (drop size (x ∷ xs)) some_size
          (omega (arith, length-drop size (x ∷ xs))) in
      (
        ap (take size (x ∷ xs) ++◌) rest.0 ∙ take-drop size (x ∷ xs),
        (
          omega (arith, length-take size (x ∷ xs)),
          omega (arith, length-take size (x ∷ xs)),
          rest.1,
        ),
      )

  -- For a positive album size the loop ends with every part in an album, in order: as much fuel as
  -- there are parts is enough, each album has a part, and none has more than the size.
  pub chunks_of_covers :
      (size : ℕ) (xs : List A)
      → 0 < size
      → (flat (chunks_of (length xs) size xs) ≡ xs) × AllFilled size (chunks_of (length xs) size xs)
  chunks_of_covers size xs some_size = enough_fuel (length xs) size xs some_size (omega arith)
