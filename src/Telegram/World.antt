-- ===== src/Telegram/World.antt =====
-- The state that a request works on: the database session, the storage service, the disk cache,
-- the staged parts, the clock and the random identifiers that are still to be drawn.
use telezon_s.Prelude.{ℕ, suc, String, List}
use telezon_s.Model.{Db}
use telezon_s.Cache.{Cache}
use telezon_s.Telegram.{Storage}

pub record World (S : Storage) : Type 0 where
  pub db : Db
  pub tg : S.State
  pub cache : Cache
  pub staged : List (String × ℕ × List ℕ)
  pub now : ℕ
  pub ids : ℕ → String
  pub drawn : ℕ

-- `uuid4().hex` and `secrets.token_urlsafe`
abbrev pub next_id : {S : Storage} → World S → String
next_id w = w.ids w.drawn

abbrev pub draw : {S : Storage} → World S → World S
draw w = record w { drawn = suc w.drawn }
