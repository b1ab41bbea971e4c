-- ===== src/Examples/Memory.antt =====
-- A storage that keeps its files and message numbers in memory, and a service over it.
use Prim.Native.Char.{code, char}
use mathlib.Core.List.{reverse-reverse}
use telezon_s.Prelude.{
  ℕ, zero, suc, ◌+◌, ◌≡◌, ◌≢◌, refl, true, false, not, none, some, List, [], ◌∷◌, String, arith,
  nat_beq, Bool, Option, ◌==◌, string_eq, eq_iff, any, select, reverse, ap, ◌∙◌, if◌then◌else◌,
}
use telezon_s.Outcome.{Result, ok, err, object_gone}
use telezon_s.Telegram.{Storage, PutFileResult, DeletesOne, chat_of}
use telezon_s.Objects.Recorded.{Keeps}
use telezon_s.Sse.{Crypto, Decodes}
use telezon_s.Service.{Service}

-- the files with their chats, the newest first, and the messages that are there
pub record Memory : Type 0 where
  pub files : List (Option String × List ℕ)
  pub messages : List ℕ

abbrev same_chat : Option String → Option String → Bool
same_chat none none = true
same_chat (some c) (some d) = c == d
same_chat none (some d) = false
same_chat (some c) none = false

-- the newest file of a chat
abbrev newest : Option String → List (Option String × List ℕ) → Result (List ℕ)
newest chat [] = err object_gone
newest chat ((c, content) ∷ files) =
    let older = newest chat files in if same_chat chat c then ok content else older

-- the chat of this installation
abbrev pub home : Option String
home = some "home"

abbrev pub accepted : PutFileResult
accepted = record { file_id = "file"; message_id = some 7; grouped_id = none }

abbrev pub memory : Storage
memory = record {
  State = Memory;
  put_file = λ content label chat topic s. (
    ok accepted,
    record { files = (chat_of home chat, content) ∷ s.files; messages = 7 ∷ s.messages },
  );
  get_file = λ file_id chat mid s. (newest chat s.files, s);
  delete_message =
      λ mid chat s. (ok true, record s { messages = select (λ m. not (nat_beq m mid)) s.messages });
  send_media_group = λ items chat topic s. (ok [], s);
  forward_messages = λ from mid chat topic s. (ok [], s);
}

same_chat_refl : (c : Option String) → same_chat c c ≡ true
same_chat_refl none = refl
same_chat_refl (some c) = ground (arith, eq_iff c c)

pub newest-put :
    (chat : Option String) (content : List ℕ) (files : List (Option String × List ℕ))
    → newest chat ((chat, content) ∷ files) ≡ ok content
newest-put chat content files = rw (same_chat_refl chat) refl

abbrev pub memory_keeps : Keeps memory home
memory_keeps = record {
  put_get = λ content label chat topic s r h. newest-put (chat_of home chat) content s.files;
}

pub spares_message :
    (mid m : ℕ) (ms : List ℕ)
    → m ≢ mid
    → any (nat_beq m) (select (λ n. not (nat_beq n mid)) ms) ≡ any (nat_beq m) ms
spares_message mid m [] apart = refl
spares_message mid m (n ∷ ms) apart = ground (arith, spares_message mid m ms)

pub deletes_message :
    (mid : ℕ) (ms : List ℕ) → any (nat_beq mid) (select (λ n. not (nat_beq n mid)) ms) ≡ false
deletes_message mid [] = refl
deletes_message mid (n ∷ ms) = ground (arith, deletes_message mid ms)

pub gone_stays :
    (mid m : ℕ) (ms : List ℕ)
    → any (nat_beq m) ms ≡ false
    → any (nat_beq m) (select (λ n. not (nat_beq n mid)) ms) ≡ false
gone_stays mid m [] gone = refl
gone_stays mid m (n ∷ ms) gone = ground (arith, gone_stays mid m ms)

abbrev pub memory_deletes : DeletesOne memory
memory_deletes = record {
  holds = λ s chat m. any (nat_beq m) s.messages;
  spares = λ s mid chat c m apart. spares_message mid m s.messages apart;
  deletes = λ s mid chat answered. deletes_message mid s.messages;
  never_revives = λ s mid chat c m gone. gone_stays mid m s.messages gone;
}

-- Base64 is replaced by a unary notation, and AES-GCM by turning the text around.
abbrev pub unary : ℕ → String → String
unary zero s = String.◌∷◌ (char 59 tt) s
unary (suc n) s = String.◌∷◌ (char 49 tt) (unary n s)

abbrev pub encoded : List ℕ → String
encoded [] = ""
encoded (b ∷ bs) = unary b (encoded bs)

abbrev pub decoded : ℕ → String → List ℕ
decoded n String.[] = []
decoded n (String.◌∷◌ c s) =
    let next_number = decoded 0 s in
    let same_number = decoded (suc n) s in
    if nat_beq (code c) b';' then n ∷ next_number else same_number

pub decoded-unary : (m n : ℕ) (s : String) → decoded m (unary n s) ≡ (m + n) ∷ decoded 0 s
decoded-unary m zero s = ground arith
decoded-unary m (suc n) s = ground (arith, decoded-unary (suc m) n s)

pub decoded-encoded : (bs : List ℕ) → decoded 0 (encoded bs) ≡ bs
decoded-encoded [] = refl
decoded-encoded (b ∷ bs) = decoded-unary 0 b (encoded bs) ∙ ground (arith, decoded-encoded bs)

abbrev pub turning : Crypto
turning = record {
  b64decode = λ text. some (decoded 0 text);
  b64encode = encoded;
  md5 = λ bs. 1 ∷ [];
  aes_encrypt = λ key nonce text aad. reverse text;
  aes_decrypt = λ key nonce text aad. some (reverse text);
}

abbrev pub turning_decodes : Decodes turning
turning_decodes = record {
  decode_encode = λ bs. ap some (decoded-encoded bs);
  decrypt_encrypt = λ key nonce text aad. ap some (reverse-reverse text);
}

-- every signature verifies, and no date is read
abbrev pub service : Service
service = record {
  storage = memory;
  crypto = turning;
  verifier = λ request payload key secret timed. true;
  strptime = λ text. none;
  parsedate = λ text. none;
  format_date = λ t. "";
  iso = λ t. "";
  xml_delete = λ raw. some (none, some "a" ∷ some "" ∷ none ∷ []);
  sha256 = λ bs. "";
  md5_hex = λ bs. "md5";
  unquote = λ s. s;
  xml_parts = λ raw. some ((some "1", some "md5") ∷ (some "2", none) ∷ []);
  nonce = λ id. [];
}
