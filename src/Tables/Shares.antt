-- ===== src/Tables/Shares.antt =====
-- app/crud/share.py and app/crud/share_lockout.py: public links with an expiry and a number of
-- downloads, and the counts of wrong passwords. bcrypt is a parameter.
pub mod Limits
use telezon_s.Prelude.{
  ℕ, suc, ◌+◌, ◌-◌, Bool, true, false, ◌&&◌, not, Option, none, some, List, [], ◌∷◌, ◌++◌, String,
  ◌<>◌, ◌==◌, string_eq, if◌then◌else◌, ltb, leb, nat_beq, find, select, is_some, length,
}
use telezon_s.Model.{Config, Db, ShareRow, ShareLockoutRow}
use telezon_s.Http.Text.{is_blank}

pub record ShareInCreate : Type 0 where
  pub bucket : String
  pub key : String
  pub password : Option String
  pub expires_in : ℕ
  pub max_downloads : Option ℕ

abbrev pub given_text : Option String → Option String
given_text none = none
given_text (some v) = if is_blank v then none else some v

abbrev hashed_or_none : (String → String) → Option String → Option String
hashed_or_none hashpw none = none
hashed_or_none hashpw (some password) = some (hashpw password)

-- the token is `secrets.token_urlsafe`
unfoldable pub crud_create_share :
    (String → String) → ℕ → String → Db → ShareInCreate → String → ShareRow × Db
crud_create_share hashpw now token db payload owner_username =
    let share : ShareRow = record {
      token = token;
      bucket = payload.bucket;
      key = payload.key;
      password_hash = hashed_or_none hashpw (given_text payload.password);
      expires_at = now + payload.expires_in;
      max_downloads = payload.max_downloads;
      download_count = 0;
      owner_username = owner_username;
    } in
    (share, record db { shares = db.shares ++ share ∷ [] })

unfoldable pub crud_get_share : Db → String → Option ShareRow
crud_get_share db token = find (λ s. s.token == token) db.shares

unfoldable pub crud_delete_share : Db → String → Bool × Db
crud_delete_share db token = (
  is_some (find (λ s. s.token == token) db.shares),
  record db { shares = select (λ s. not (s.token == token)) db.shares },
)

unfoldable pub crud_delete_expired_shares : Db → ℕ → ℕ × Db
crud_delete_expired_shares db now = (
  length (select (λ s. ltb s.expires_at now) db.shares),
  record db { shares = select (λ s. not (ltb s.expires_at now)) db.shares },
)

-- `max_downloads IS NULL OR download_count < max_downloads`
abbrev pub below_limit : Option ℕ → ℕ → Bool
below_limit none count = true
below_limit (some limit) count = ltb count limit

unfoldable pub usable : ℕ → String → ShareRow → Bool
usable now token s =
    s.token == token && ltb now s.expires_at && below_limit s.max_downloads s.download_count

-- UPDATE ... WHERE ... RETURNING; the token is the primary key, so one row at most matches
unfoldable pub update_share :
    (ShareRow → Bool) → (ShareRow → ShareRow) → List ShareRow → Option ShareRow × List ShareRow
update_share p f [] = (none, [])
update_share p f (s ∷ rows) =
    let (found, rest) = update_share p f rows in
    if p s then (some (f s), f s ∷ rows) else (found, s ∷ rest)

unfoldable pub crud_claim_share_download : ℕ → Db → String → Option ShareRow × Db
unfolding update_share usable
crud_claim_share_download now db token =
    let (claimed, rows) =
      update_share (usable now token) (λ s. record s { download_count = suc s.download_count })
        db.shares in
    (claimed, record db { shares = rows })

unfoldable pub crud_release_share_download : Db → String → Bool × Db
unfolding update_share
crud_release_share_download db token =
    let (released, rows) =
      update_share (λ s. s.token == token && ltb 0 s.download_count)
        (λ s. record s { download_count = s.download_count - 1 }) db.shares in
    (is_some released, record db { shares = rows })

unfoldable pub share_is_usable : ℕ → ShareRow → Bool
share_is_usable now share =
    if ltb share.expires_at now then false else below_limit share.max_downloads share.download_count

-- `checkpw` answers false where it raises ValueError.
unfoldable pub share_password_ok : (String → String → Bool) → ShareRow → Option String → Bool
share_password_ok checkpw share password = elim (given_text share.password_hash) [
  | none ↦ true
  | some stored ↦ elim (given_text password) [ none ↦ false | some sent ↦ checkpw sent stored ]
]

abbrev pub lock_key : String → String → String
lock_key token client_ip = token <> ":" <> (if is_blank client_ip then "unknown" else client_ip)

abbrev locked_after : Option ℕ → ℕ → Bool
locked_after none now = false
locked_after (some until) now = ltb now until

unfoldable pub share_is_locked : ℕ → Db → String → String → Bool
share_is_locked now db token client_ip =
    elim (find (λ r. r.key == lock_key token client_ip) db.lockouts) [
      | none ↦ false
      | some row ↦ locked_after row.locked_until now
    ]

-- the row after one more failure
unfoldable pub failed_once : Config → ℕ → ShareLockoutRow → ShareLockoutRow
failed_once cfg now row =
    if leb cfg.share_max_failed_attempts (suc row.failures)
    then record row {
      failures = suc row.failures;
      locked_until = some (now + cfg.share_lockout_seconds);
    }
    else record row { failures = suc row.failures }

unfoldable pub set_lockout : ShareLockoutRow → List ShareLockoutRow → List ShareLockoutRow
set_lockout row [] = row ∷ []
set_lockout row (r ∷ rows) =
    let rest = set_lockout row rows in if r.key == row.key then row ∷ rows else r ∷ rest

unfoldable pub share_record_password_failure : Config → ℕ → Db → String → String → Bool × Db
unfolding failed_once set_lockout
share_record_password_failure cfg now db token client_ip =
    let key = lock_key token client_ip in
    let row : ShareLockoutRow = elim (find (λ r. r.key == key) db.lockouts) [
      | none ↦ failed_once cfg now (record { key = key; failures = 0; locked_until = none })
      | some row ↦ failed_once cfg now row
    ] in
    (
      leb cfg.share_max_failed_attempts row.failures,
      record db { lockouts = set_lockout row db.lockouts },
    )

unfoldable pub share_clear_password_failures : Db → String → String → Db
share_clear_password_failures db token client_ip = record db {
  lockouts = select (λ r. not (r.key == lock_key token client_ip)) db.lockouts;
}
