-- ===== src/Prelude/Lists.antt =====
-- Lists measured by native numbers, and searched by Boolean tests.
use Prim.Native.Nat.{ℕ, zero, suc, ◌+◌, ◌-◌, ◌≤◌, min}
use mathlib.Core.Path.{◌≡◌, refl, ap, sym, ◌∙◌}
use mathlib.Core.Bool.{Bool, true, false, ◌||◌}
use mathlib.Core.List.{List, [], ◌∷◌, ◌++◌}
use mathlib.Core.Option.{Option, none, some}
use native.Mathlib.Omega.{arith}
use telezon_s.Prelude.Tests.{if◌then◌else◌, leb, Bool-cases}
use mathlib.Core.Logic.{inl, inr}

module _ {ℓ} {A : Type ℓ} where
  abbrev pub length : List A → ℕ
  length [] = 0
  length (x ∷ xs) = suc (length xs)

  abbrev pub take : ℕ → List A → List A
  take zero xs = []
  take (suc n) [] = []
  take (suc n) (x ∷ xs) = x ∷ take n xs

  abbrev pub drop : ℕ → List A → List A
  drop zero xs = xs
  drop (suc n) [] = []
  drop (suc n) (x ∷ xs) = drop n xs

  -- `xs[a:b]`
  abbrev pub slice : ℕ → ℕ → List A → List A
  slice a b xs = take (b - a) (drop a xs)

  -- the rows of a table that a WHERE clause selects
  abbrev pub select : (A → Bool) → List A → List A
  select p [] = []
  select p (x ∷ xs) = let rest = select p xs in if p x then x ∷ rest else rest

  -- `next(x for x in xs if p(x))`, and `scalar_one_or_none` of a unique match
  abbrev pub find : (A → Bool) → List A → Option A
  find p [] = none
  find p (x ∷ xs) = let rest = find p xs in if p x then some x else rest

  abbrev pub any : (A → Bool) → List A → Bool
  any p [] = false
  any p (x ∷ xs) = p x || any p xs

  abbrev pub is_some : Option A → Bool
  is_some none = false
  is_some (some a) = true

  abbrev pub is_empty : List A → Bool
  is_empty [] = true
  is_empty (x ∷ xs) = false

  abbrev pub last : List A → Option A
  last [] = none
  last (x ∷ []) = some x
  last (x ∷ y ∷ xs) = last (y ∷ xs)

  abbrev pub head? : List A → Option A
  head? [] = none
  head? (x ∷ xs) = some x

  pub length-append : (xs ys : List A) → length (xs ++ ys) ≡ length xs + length ys
  length-append [] ys = omega arith
  length-append (x ∷ xs) ys = omega (arith, length-append xs ys)

  pub length-take : (n : ℕ) (xs : List A) → length (take n xs) ≡ min n (length xs)
  length-take zero xs = omega arith
  length-take (suc n) [] = omega arith
  length-take (suc n) (x ∷ xs) = omega (arith, length-take n xs)

  pub length-drop : (n : ℕ) (xs : List A) → length (drop n xs) ≡ length xs - n
  length-drop zero xs = omega arith
  length-drop (suc n) [] = omega arith
  length-drop (suc n) (x ∷ xs) = omega (arith, length-drop n xs)

  drop-append : (n : ℕ) (xs ys : List A) → drop n (xs ++ ys) ≡ drop n xs ++ drop (n - length xs) ys
  drop-append zero xs ys = ground arith
  drop-append (suc n) [] ys = ground arith
  drop-append (suc n) (x ∷ xs) ys = ground (arith, drop-append n xs ys)

  take-append : (n : ℕ) (xs ys : List A) → take n (xs ++ ys) ≡ take n xs ++ take (n - length xs) ys
  take-append zero xs ys = ground arith
  take-append (suc n) [] ys = ground arith
  take-append (suc n) (x ∷ xs) ys = ground (arith, take-append n xs ys)

  pub slice-append :
      (a b : ℕ) (xs ys : List A)
      → slice a b (xs ++ ys) ≡ slice a b xs ++ slice (a - length xs) (b - length xs) ys
  slice-append a b xs ys =
      rw
        (
          drop-append a xs ys,
          take-append (b - a) (drop a xs) (drop (a - length xs) ys),
          length-drop a xs,
        )
        (ground arith)

  pub take-over : (n : ℕ) (xs : List A) → length xs ≤ n → take n xs ≡ xs
  take-over zero [] h = refl
  take-over zero (x ∷ xs) h = absurd (omega (arith, h))
  take-over (suc n) [] h = refl
  take-over (suc n) (x ∷ xs) h = ap (x ∷◌) (take-over n xs (omega (arith, h)))

  pub drop-over : (n : ℕ) (xs : List A) → length xs ≤ n → drop n xs ≡ []
  drop-over zero [] h = refl
  drop-over zero (x ∷ xs) h = absurd (omega (arith, h))
  drop-over (suc n) [] h = refl
  drop-over (suc n) (x ∷ xs) h = drop-over n xs (omega (arith, h))

  pub take-drop : (n : ℕ) (xs : List A) → take n xs ++ drop n xs ≡ xs
  take-drop zero xs = refl
  take-drop (suc n) [] = refl
  take-drop (suc n) (x ∷ xs) = ap (x ∷◌) (take-drop n xs)

  pub slice-behind : (a b : ℕ) (xs : List A) → length xs ≤ a → slice a b xs ≡ []
  slice-behind a b xs h = rw (drop-over a xs h) (take-over (b - a) [] (omega arith))

  pub slice-before : (a b : ℕ) (xs : List A) → b ≤ a → slice a b xs ≡ []
  slice-before a b xs h = ground arith

  pub length-slice : (a b : ℕ) (xs : List A) → length (slice a b xs) ≡ min (b - a) (length xs - a)
  length-slice a b xs = ground (arith, length-take (b - a) (drop a xs), length-drop a xs)

  pub slice-min : (a b : ℕ) (xs : List A) → slice a (min b (length xs)) xs ≡ slice a b xs
  slice-min a b xs = elim (Bool-cases (leb b (length xs))) [
    | inl e ↦ ap (λ n. slice a n xs) (ground arith)
    | inr e ↦
        take-over (min b (length xs) - a) (drop a xs) (ground (arith, length-drop a xs))
        ∙ sym (take-over (b - a) (drop a xs) (ground (arith, length-drop a xs)))
  ]

module _ {ℓ κ} {A : Type ℓ} {B : Type κ} where
  abbrev pub or_none : Option A → (A → Option B) → Option B
  or_none none f = none
  or_none (some a) f = f a

module _ {ℓ} {A : Type ℓ} (f : A → ℕ) where
  abbrev pub sum_of : List A → ℕ
  sum_of [] = 0
  sum_of (x ∷ xs) = f x + sum_of xs
