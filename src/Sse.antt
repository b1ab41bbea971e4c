-- ===== src/Sse.antt =====
-- app/s3/sse.py: server-side encryption with a customer's key. AES-GCM, MD5 and Base64 belong to
-- other packages and are parameters.
use telezon_s.Prelude.{
  ℕ, ◌-◌, ◌≡◌, refl, Option, none, some, List, ◌++◌, String, nat_beq, if◌then◌else◌, length, take,
  drop, inl, inr, take-drop,
}
use telezon_s.Outcome.{Result, ok, err, Result-cases, ◌>>=◌, sse_error, other}

pub record Crypto : Type 0 where
  pub b64decode : String → Option (List ℕ)
  pub b64encode : List ℕ → String
  pub md5 : List ℕ → List ℕ
  -- `AESGCM(key).encrypt(nonce, data, aad)` and `.decrypt`
  pub aes_encrypt : List ℕ → List ℕ → List ℕ → List ℕ → List ℕ
  pub aes_decrypt : List ℕ → List ℕ → List ℕ → List ℕ → Option (List ℕ)

-- What the two packages promise: each decodes what it has encoded.
pub record Decodes (c : Crypto) : Type 0 where
  pub decode_encode : (bs : List ℕ) → c.b64decode (c.b64encode bs) ≡ some bs
  pub decrypt_encrypt :
      (key nonce text aad : List ℕ)
      → c.aes_decrypt key nonce (c.aes_encrypt key nonce text aad) aad ≡ some text

module _ (c : Crypto) where
  unfoldable pub check_key : Option (List ℕ) → Result (List ℕ)
  check_key none = err sse_error
  check_key (some key) = if nat_beq (length key) 32 then ok key else err sse_error

  unfoldable pub key_from_header : String → Result (List ℕ)
  unfolding check_key
  key_from_header b64_key = check_key (c.b64decode b64_key)

  unfoldable pub sse_key_md5_b64 : String → Result String
  sse_key_md5_b64 b64_key = do key ← key_from_header b64_key; ok (c.b64encode (c.md5 key))

  -- the nonce is `os.urandom(12)`
  unfoldable pub encrypt_sse_c :
      List ℕ → List ℕ → String → List ℕ → Result (List ℕ × String × String)
  encrypt_sse_c nonce plaintext b64_key aad = do
    key ← key_from_header b64_key
    let ciphertext = c.aes_encrypt key nonce plaintext aad
    let cut = length ciphertext - 16
    ok (take cut ciphertext, c.b64encode nonce, c.b64encode (drop cut ciphertext))

  abbrev pub or_raise {ℓ} : {A : Type ℓ} → Option A → Result A
  or_raise none = err other
  or_raise (some a) = ok a

  unfoldable pub decrypt_sse_c : List ℕ → String → String → String → List ℕ → Result (List ℕ)
  decrypt_sse_c ciphertext b64_key b64_nonce b64_tag aad = do
    key ← key_from_header b64_key
    nonce ← or_raise (c.b64decode b64_nonce)
    tag ← or_raise (c.b64decode b64_tag)
    or_raise (c.aes_decrypt key nonce (ciphertext ++ tag) aad)

-- If Base64 and AES-GCM decode what they have encoded: what a customer's key encrypted is decrypted to the same bytes with that key, the stored nonce and
-- tag, and the same associated data; a header that is no key is refused.
pub decrypt-encrypt :
    (c : Crypto) (laws : Decodes c) (nonce plaintext aad : List ℕ) (b64_key : String)
    → (encrypt_sse_c c nonce plaintext b64_key aad >>= λ (body, b64_nonce, b64_tag).
        decrypt_sse_c c body b64_key b64_nonce b64_tag aad)
      ≡ (key_from_header c b64_key >>= λ key. ok plaintext)
unfolding encrypt_sse_c decrypt_sse_c
decrypt-encrypt c laws nonce plaintext aad b64_key =
    elim (Result-cases (key_from_header c b64_key)) [
      | inl (key, e) ↦
          let sealed = c.aes_encrypt key nonce plaintext aad in
          simp
            (
              e,
              laws.decode_encode nonce,
              laws.decode_encode (drop (length sealed - 16) sealed),
              take-drop (length sealed - 16) sealed,
              laws.decrypt_encrypt key nonce plaintext aad,
            )
            refl
      | inr (x, e) ↦ simp (e) refl
    ]
