-- ===== src/Service.antt =====
-- What a handler works with that is not code of the repository or is not modelled in detail, and
-- how a handler answers. A request's database session commits when the handler returns and rolls
-- back when it raises (`get_database` of app/db/session.py).
use telezon_s.Prelude.{ℕ, Option, List, [], String, string_eq}
use telezon_s.Outcome.{Result, ok, err, Error, throttle, unavailable, http}
use telezon_s.Telegram.{Storage}
use telezon_s.Telegram.World.{World}
use telezon_s.Sse.{Crypto}
use telezon_s.Auth.{Verifier}
use telezon_s.Http.{Response, Flow, next, reply, raise, plain, s3_error_response}

-- `strptime` is `datetime.strptime` with the format of X-Amz-Date, `parsedate` and `format_date`
-- are `parsedate_to_datetime` and `format_datetime` of email.utils, `iso` is `strftime` with the
-- format of ISO 8601, `sha256` is the hexadecimal
-- digest of hashlib and `md5_hex` its MD5 digest, and `nonce` stands for `os.urandom(12)`;
-- `unquote` is that of urllib.parse. `xml_parts` decodes a body as UTF-8, parses it
-- as XML, and finds the texts of PartNumber and ETag in each Part; `xml_delete` finds the text of
-- Quiet, and of Key in each Object; `none` is a ParseError or a
-- UnicodeDecodeError.
pub record Service : Type 1 where
  pub storage : Storage
  pub crypto : Crypto
  pub verifier : Verifier
  pub strptime : String → Option ℕ
  pub parsedate : String → Option ℕ
  pub format_date : ℕ → String
  pub iso : ℕ → String
  pub sha256 : List ℕ → String
  pub md5_hex : List ℕ → String
  pub xml_delete : List ℕ → Option (Option String × List (Option String))
  pub xml_parts : List ℕ → Option (List (Option String × Option String))
  pub nonce : String → List ℕ
  pub unquote : String → String

abbrev pub Answer : Storage → Type 0
Answer S = Result Response × World S

-- the handler goes on behind its guards
abbrev pub after : {S : Storage} {A : Type 0} → Flow A → World S → (A → Answer S) → Answer S
after (next a) w go_on = go_on a
after (reply r) w go_on = (ok r, w)
after (raise e) w go_on = (err e, w)

-- `except StorageThrottleError` and `except StorageUnavailableError`
abbrev pub storage_error : Error → Result Response
storage_error throttle = ok (s3_error_response 503 "SlowDown")
storage_error unavailable = ok (s3_error_response 503 "ServiceUnavailable")
storage_error e = err e

abbrev pub status_of : Error → ℕ
status_of (http status) = status
status_of e = 500

-- `get_database` around a handler that ran from the world `w`
unfoldable pub serve : {S : Storage} → World S → Answer S → Response × World S
serve w (ok r, after_run) = (r, after_run)
serve w (err e, after_run) = (plain (status_of e) [], record after_run { db = w.db })
