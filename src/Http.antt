-- ===== src/Http.antt =====
-- Requests and responses, app/s3/errors.py, app/s3/body.py and app/s3/subresources.py.
pub mod Text
pub mod Body
pub mod Subresources
use telezon_s.Prelude.{
  ℕ, Bool, true, false, Option, none, some, List, [], ◌∷◌, String, ◌==◌, string_eq, if◌then◌else◌,
  find, is_some, ◌≡◌, refl, ap, sym,
}
use mathlib.Core.Bool.{true≢false}
use telezon_s.Outcome.{Error}

-- Header names are lower case and methods upper case. The body arrives in chunks.
pub record Request : Type 0 where
  pub method : String
  pub headers : List (String × String)
  pub query : List (String × String)
  pub chunks : List (List ℕ)

abbrev pub entry : String → List (String × String) → Option String
entry name [] = none
entry name ((k, v) ∷ rest) = let later = entry name rest in if k == name then some v else later

-- `request.headers.get(name)` and `request.query_params.get(name)`
abbrev pub header : Request → String → Option String
header r name = entry name r.headers

abbrev pub param : Request → String → Option String
param r name = entry name r.query

abbrev pub has_param : Request → String → Bool
has_param r name = is_some (param r name)

-- `value or ""`, `if value`
abbrev pub or_blank : Option String → String
or_blank none = ""
or_blank (some v) = v

-- What a response carries, as far as the modelled code computes it: an S3 error's code stands for
-- the XML document that `s3_error_response` builds around it; `xml` is a document that a handler
-- builds itself.
pub data Content : Type 0 where
  nothing : Content
  s3_error : String → Content
  bytes : List ℕ → Content
  xml : String → Content

pub record Response : Type 0 where
  pub status : ℕ
  pub headers : List (String × String)
  pub content : Content

abbrev pub s3_error_response : ℕ → String → Response
s3_error_response status code = record { status = status; headers = []; content = s3_error code }

abbrev pub plain : ℕ → List (String × String) → Response
plain status headers = record { status = status; headers = headers; content = nothing }

-- `Response(content=body, media_type="application/xml")`
abbrev pub xml_response : String → Response
xml_response body = record { status = 200; headers = []; content = xml body }

-- A handler goes on with a value, or has returned a response, or has raised.
pub data Flow {ℓ} (A : Type ℓ) : Type ℓ where
  next : A → Flow A
  reply : Response → Flow A
  raise : Error → Flow A

infixl 10 ◌>>=◌ ◌>>◌
abbrev pub ◌>>=◌ {ℓ κ} : {A : Type ℓ} {B : Type κ} → Flow A → (A → Flow B) → Flow B
next a >>= f = f a
reply r >>= f = reply r
raise e >>= f = raise e

abbrev pub ◌>>◌ {ℓ} : {B : Type ℓ} → Flow (Unit {0}) → Flow B → Flow B
m >> k = m >>= λ _. k

-- `if test: return response`
abbrev pub return_if : Bool → Response → Flow (Unit {0})
return_if true r = reply r
return_if false r = next tt

-- `if not value: return response`, and the value
abbrev pub some_or {ℓ} : {A : Type ℓ} → Option A → Response → Flow A
some_or none r = reply r
some_or (some a) r = next a

abbrev went_on {ℓ} : {A : Type ℓ} → Flow A → Bool
went_on (next a) = true
went_on (reply r) = false
went_on (raise e) = false

-- What goes on to the end has gone on at every step.
pub bind-next {ℓ κ} :
    {A : Type ℓ} {B : Type κ} (m : Flow A) {f : A → Flow B} {b : B}
    → (m >>= f) ≡ next b
    → (a : A) × (m ≡ next a) × (f a ≡ next b)
bind-next (next a) h = (a, refl, h)
bind-next (reply r) h = absurd (true≢false (sym (ap went_on h)))
bind-next (raise e) h = absurd (true≢false (sym (ap went_on h)))

abbrev reached {ℓ} : {A : Type ℓ} → A → Flow A → A
reached b (next a) = a
reached b (reply r) = b
reached b (raise e) = b

pub some_or-next {ℓ} :
    {A : Type ℓ} (o : Option A) (r : Response) {a : A} → some_or o r ≡ next a → o ≡ some a
some_or-next none r h = absurd (true≢false (sym (ap went_on h)))
some_or-next (some b) r h = ap (λ m. some (reached b m)) h

pub return_if-next :
    (test : Bool) (r : Response) {u : Unit {0}} → return_if test r ≡ next u → test ≡ false
return_if-next true r h = absurd (true≢false (sym (ap went_on h)))
return_if-next false r h = refl
