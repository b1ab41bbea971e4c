-- ===== src/Range/Conditions.antt =====
-- A client that sends an object's own ETag back.
use telezon_s.Prelude.{
  ℕ, ◌≡◌, refl, Option, none, some, String, List, [], ◌∷◌, arith, Bool, true, false, codes,
  codes_eq, any, nat_beq, is_empty, ltb, leb, ◌⊎◌, strip,
}
use telezon_s.Range.{
  etag_matches, evaluate_conditionals, ConditionHeaders, not_modified, proceed, split_commas,
  token_matches, strip_quotes, when_dated,
}

codes_eq_refl : (cs : List ℕ) → codes_eq cs cs ≡ true
unfolding codes_eq
codes_eq_refl [] = refl
codes_eq_refl (c ∷ cs) = ground (arith, codes_eq_refl cs)

split_commas-alone : (cs : List ℕ) → any (nat_beq b',') cs ≡ false → split_commas cs ≡ cs ∷ []
unfolding split_commas
split_commas-alone [] h = refl
split_commas-alone (c ∷ cs) h =
    rw (split_commas-alone cs (ground arith), split_commas) (ground arith)

token_matches_self : (cs : List ℕ) → token_matches (strip_quotes (strip cs)) cs ≡ true
unfolding token_matches
token_matches_self cs = ground (arith, codes_eq_refl (strip_quotes (strip cs)))

-- a text that a header can carry as one ETag
pub record IsPlainTag (etag : String) : Type 0 where
  pub present : is_empty (codes etag) ≡ false
  pub one_piece : any (nat_beq b',') (codes etag) ≡ false

etag_matches_self : (etag : String) → IsPlainTag etag → etag_matches (some etag) etag ≡ true
unfolding etag_matches
etag_matches_self etag p =
    rw (p.present, split_commas-alone (codes etag) p.one_piece)
      (ground (arith, token_matches_self (codes etag)))

when_dated-none :
    (parsedate : String → Option ℕ) (test : ℕ → ℕ → Bool) (lm : Option ℕ)
    → when_dated parsedate test lm none ≡ false
unfolding when_dated
when_dated-none parsedate test none = refl
when_dated-none parsedate test (some t) = refl

module _ (parsedate : String → Option ℕ) (etag : String) (p : IsPlainTag etag) (lm : Option ℕ) where
  -- An ETag that is not empty and has no comma, sent back as If-None-Match, gives 304, whatever the
  -- two date headers say, if If-Match is absent or the ETag too.
  pub etag_not_modified :
      (h : ConditionHeaders)
      → ((h.if_match ≡ none) ⊎ (h.if_match ≡ some etag))
      → h.if_none_match ≡ some etag
      → evaluate_conditionals parsedate etag lm h ≡ not_modified
  unfolding evaluate_conditionals
  etag_not_modified h m sent = let own = etag_matches_self etag p in ground (arith, own)

  -- An ETag that is not empty and has no comma, sent back as If-Match or with no If-Match, and with
  -- no other conditional header: the request proceeds.
  pub etag_proceeds :
      (h : ConditionHeaders)
      → ((h.if_match ≡ none) ⊎ (h.if_match ≡ some etag))
      → h.if_none_match ≡ none
      → h.if_modified_since ≡ none
      → h.if_unmodified_since ≡ none
      → evaluate_conditionals parsedate etag lm h ≡ proceed
  unfolding evaluate_conditionals
  etag_proceeds h m e f g =
      let own = etag_matches_self etag p in
      let undated = when_dated-none parsedate (λ lm' since. ltb since lm') lm in
      let undated' = when_dated-none parsedate (λ lm' since. leb lm' since) lm in
      rw (e, f, g, undated, undated') (ground (arith, own))
