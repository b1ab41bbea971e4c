-- ===== src/Listing/Pages.antt =====
-- A page of a listing holds no more entries than asked for, and no common prefix twice.
use telezon_s.Prelude.{
  ℕ, ◌+◌, ◌≤◌, ◌<◌, ◌≡◌, refl, false, ◌&&◌, not, Option, none, some, List, [], ◌∷◌, ◌++◌, String,
  ◌==◌, string_eq, any, length, arith, ◌⊎◌, inl, inr, Bool-cases, Option-cases, length-append,
  eq_iff, starts_with,
}
use telezon_s.Model.{BlobRow}
use telezon_s.Http.Text.{is_blank}
use telezon_s.Listing.{Rolled, folded, is_full, rollup_from, rollup_with_delimiter}

abbrev pub Distinct : List String → Type 0
Distinct [] = Unit
Distinct (s ∷ ss) = (any (λ seen. seen == s) ss ≡ false) × Distinct ss

any-append :
    (s t : String) (ss : List String)
    → any (λ seen. seen == s) ss ≡ false
    → (t == s) ≡ false
    → any (λ seen. seen == s) (ss ++ t ∷ []) ≡ false
any-append s t [] h k = ground arith
any-append s t (u ∷ ss) h k = ground (arith, any-append s t ss)

Distinct-append :
    (ss : List String) (t : String)
    → Distinct ss
    → any (λ seen. seen == t) ss ≡ false
    → Distinct (ss ++ t ∷ [])
Distinct-append [] t d h = (refl, tt)
Distinct-append (s ∷ ss) t (fresh, d) h = (
  any-append s t ss fresh (ground (arith, eq_iff s t, eq_iff t s)),
  Distinct-append ss t d (ground arith),
)

-- what a page keeps to
pub record IsPage (max_keys : ℕ) (r : Rolled) : Type 0 where
  pub within : length r.contents + length r.common_prefixes ≤ max_keys
  pub distinct : Distinct r.common_prefixes
  pub full_or_done :
      (r.truncated ≡ false) ⊎ (length r.contents + length r.common_prefixes ≡ max_keys)

module _ (prefix delimiter : String) (max_keys : ℕ) where
  rollup_from-IsPage :
      (contents : List BlobRow) (commons : List String) (last : Option String)
      (blobs : List BlobRow)
      → length contents + length commons < max_keys
      → Distinct commons
      → IsPage max_keys (rollup_from prefix delimiter max_keys contents commons last blobs)
  unfolding rollup_from folded
  rollup_from-IsPage contents commons last [] room d = record {
    within = omega (arith, room);
    distinct = d;
    full_or_done = inl refl;
  }
  rollup_from-IsPage contents commons last (blob ∷ blobs) room d =
      let key = blob.base.path in
      let more = length-append contents (blob ∷ []) in
      elim (Bool-cases (not (is_blank prefix) && not (starts_with key prefix))) [
        | inl e ↦ rw (rollup_from, e) (rollup_from-IsPage contents commons (some key) blobs room d)
        | inr e ↦ elim (Option-cases (folded prefix delimiter key)) [
          | inl f ↦
              elim (Bool-cases
                (is_full prefix delimiter max_keys (contents ++ blob ∷ []) commons)) [
                  | inl full ↦
                      rw (rollup_from, e, f, full)
                        (record {
                          within = ground (arith, more);
                          distinct = d;
                          full_or_done = inr (ground (arith, more));
                        })
                  | inr free ↦
                      rw (rollup_from, e, f, free)
                        (rollup_from-IsPage (contents ++ blob ∷ []) commons (some key) blobs
                          (ground (arith, more)) d)
                ]
          | inr (common, f) ↦
              let longer = length-append commons (common ∷ []) in
              elim (Bool-cases (any (λ seen. seen == common) commons)) [
                | inl old ↦
                    rw (rollup_from, e, f, old)
                      (rollup_from-IsPage contents commons (some key) blobs room d)
                | inr new ↦
                    elim (Bool-cases
                      (is_full prefix delimiter max_keys contents (commons ++ common ∷ []))) [
                        | inl full ↦
                            rw (rollup_from, e, f, new, full)
                              (record {
                                within = ground (arith, longer);
                                distinct = Distinct-append commons common d new;
                                full_or_done = inr (ground (arith, longer));
                              })
                        | inr free ↦
                            rw (rollup_from, e, f, new, free)
                              (rollup_from-IsPage contents (commons ++ common ∷ []) (some key) blobs
                                (ground (arith, longer)) (Distinct-append commons common d new))
                      ]
              ]
        ]
      ]

  -- For a page of at least one entry: the objects and the common prefixes together are no more than
  -- the page may hold, exactly as many if it is cut off, and no common prefix stands there twice.
  pub rollup_with_delimiter-IsPage :
      (blobs : List BlobRow)
      → 0 < max_keys
      → IsPage max_keys (rollup_with_delimiter prefix delimiter max_keys blobs)
  unfolding rollup_with_delimiter
  rollup_with_delimiter-IsPage blobs some_keys = rollup_from-IsPage [] [] none blobs some_keys tt
