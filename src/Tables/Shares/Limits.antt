-- ===== src/Tables/Shares/Limits.antt =====
-- No link is downloaded more often than it allows.
use telezon_s.Prelude.{
  ℕ, suc, ◌-◌, ◌≤◌, ◌≡◌, Bool, true, Option, none, some, List, [], ◌∷◌, ◌++◌, String, arith,
  Bool-cases, inl, inr, select, ltb, ◌==◌, string_eq, not, ◌&&◌,
}
use telezon_s.Model.{Db, ShareRow}
use telezon_s.Tables.Shares.{
  ShareInCreate, crud_create_share, crud_delete_share, crud_delete_expired_shares, below_limit,
  usable, update_share, crud_claim_share_download, crud_release_share_download,
}

-- the writes to the table, each with the time or the identifiers it works with
pub data ShareWrite : Type 0 where
  create : ℕ → String → ShareInCreate → String → ShareWrite
  revoke claim_at : String → ℕ → ShareWrite
  release : String → ShareWrite
  expire : ℕ → ShareWrite

unfoldable pub write_share : (String → String) → Db → ShareWrite → Db
write_share hashpw db (create now token payload owner) =
    (crud_create_share hashpw now token db payload owner).1
write_share hashpw db (revoke token now) = (crud_delete_share db token).1
write_share hashpw db (claim_at token now) = (crud_claim_share_download now db token).1
write_share hashpw db (release token) = (crud_release_share_download db token).1
write_share hashpw db (expire now) = (crud_delete_expired_shares db now).1

unfoldable pub write_shares : (String → String) → Db → List ShareWrite → Db
unfolding write_share
write_shares hashpw db [] = db
write_shares hashpw db (w ∷ ws) = write_shares hashpw (write_share hashpw db w) ws

abbrev pub WithinLimit : Option ℕ → ℕ → Type 0
WithinLimit none count = Unit
WithinLimit (some limit) count = count ≤ limit

-- no link of the table has been downloaded more often than it allows
abbrev pub AllWithin : List ShareRow → Type 0
AllWithin [] = Unit
AllWithin (s ∷ rows) = WithinLimit s.max_downloads s.download_count × AllWithin rows

AllWithin-select :
    (p : ShareRow → Bool) (rows : List ShareRow) → AllWithin rows → AllWithin (select p rows)
AllWithin-select p [] h = tt
AllWithin-select p (s ∷ rows) (h, rest) = elim (Bool-cases (p s)) [
  | inl e ↦ rw (e) (h, AllWithin-select p rows rest)
  | inr e ↦ rw (e) (AllWithin-select p rows rest)
]

AllWithin-append :
    (rows : List ShareRow) (s : ShareRow)
    → AllWithin rows
    → WithinLimit s.max_downloads s.download_count
    → AllWithin (rows ++ s ∷ [])
AllWithin-append [] s h fresh = (fresh, tt)
AllWithin-append (r ∷ rows) s (h, rest) fresh = (h, AllWithin-append rows s rest fresh)

update_share-AllWithin :
    (p : ShareRow → Bool) (f : ShareRow → ShareRow) (rows : List ShareRow)
    → ((s : ShareRow)
        → p s ≡ true
        → WithinLimit s.max_downloads s.download_count
        → WithinLimit (f s).max_downloads (f s).download_count)
    → AllWithin rows
    → AllWithin (update_share p f rows).1
unfolding update_share
update_share-AllWithin p f [] keeps h = tt
update_share-AllWithin p f (s ∷ rows) keeps (h, rest) = elim (Bool-cases (p s)) [
  | inl e ↦ rw (e) (keeps s e h, rest)
  | inr e ↦ rw (e) (h, update_share-AllWithin p f rows keeps rest)
]

zero_within : (limit : Option ℕ) → WithinLimit limit 0
zero_within none = tt
zero_within (some limit) = ground arith

claim_within :
    (limit : Option ℕ) (count : ℕ) → below_limit limit count ≡ true → WithinLimit limit (suc count)
claim_within none count h = tt
claim_within (some limit) count h = ground arith

release_within :
    (limit : Option ℕ) (count : ℕ) → WithinLimit limit count → WithinLimit limit (count - 1)
release_within none count h = tt
release_within (some limit) count h = ground arith

usable-below_limit :
    (now : ℕ) (token : String) (s : ShareRow)
    → usable now token s ≡ true
    → below_limit s.max_downloads s.download_count ≡ true
unfolding usable
usable-below_limit now token s h = ground arith

write_share-AllWithin :
    (hashpw : String → String) (db : Db) (w : ShareWrite)
    → AllWithin db.shares
    → AllWithin (write_share hashpw db w).shares
unfolding write_share crud_create_share crud_delete_share crud_delete_expired_shares
    crud_claim_share_download crud_release_share_download
write_share-AllWithin hashpw db (create now token payload owner) h =
    AllWithin-append db.shares (crud_create_share hashpw now token db payload owner).0 h
      (zero_within payload.max_downloads)
write_share-AllWithin hashpw db (revoke token now) h =
    AllWithin-select (λ s. not (s.token == token)) db.shares h
write_share-AllWithin hashpw db (claim_at token now) h =
    update_share-AllWithin (usable now token)
      (λ s. record s { download_count = suc s.download_count }) db.shares
      (λ s e within.
        claim_within s.max_downloads s.download_count (usable-below_limit now token s e))
      h
write_share-AllWithin hashpw db (release token) h =
    update_share-AllWithin (λ s. s.token == token && ltb 0 s.download_count)
      (λ s. record s { download_count = s.download_count - 1 }) db.shares
      (λ s e within. release_within s.max_downloads s.download_count within) h
write_share-AllWithin hashpw db (expire now) h =
    AllWithin-select (λ s. not (ltb s.expires_at now)) db.shares h

-- Whatever writes are made to the links, at whatever times and in whatever order, from a table in
-- which no link is over its number of downloads, none is over it afterwards.
pub write_shares-AllWithin :
    (hashpw : String → String) (db : Db) (ws : List ShareWrite)
    → AllWithin db.shares
    → AllWithin (write_shares hashpw db ws).shares
unfolding write_shares
write_shares-AllWithin hashpw db [] h = h
write_shares-AllWithin hashpw db (w ∷ ws) h =
    write_shares-AllWithin hashpw (write_share hashpw db w) ws (write_share-AllWithin hashpw db w h)
