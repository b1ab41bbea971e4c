-- ===== src/Telegram.antt =====
-- app/storage/backend.py: the storage interface, over which the handlers are modelled. Telegram
-- itself, and the client library that talks to it, are not part of the repository.
pub mod World
pub mod Deletes
use telezon_s.Prelude.{ℕ, ◌≡◌, ◌≢◌, Bool, true, false, Option, none, some, List, String}
use telezon_s.Outcome.{Result, ok}

pub record PutFileResult : Type 0 where
  pub file_id : String
  pub message_id : Option ℕ
  pub grouped_id : Option ℕ

-- Each call may raise; the state is what the service holds.
pub record Storage : Type 1 where
  pub State : Type 0
  pub put_file : List ℕ → String → Option String → Option ℕ → State → Result PutFileResult × State
  pub get_file : String → Option String → Option ℕ → State → Result (List ℕ) × State
  pub delete_message : ℕ → Option String → State → Result Bool × State
  pub send_media_group :
      List (List ℕ × String)
      → Option String
      → Option ℕ
      → State
      → Result (List PutFileResult) × State
  pub forward_messages :
      String → ℕ → Option String → Option ℕ → State → Result (List PutFileResult) × State

-- What the program relies on when it deletes: a message is a chat and a number, a call that
-- deletes one message touches no other number, and one that answers true has deleted it.
pub record DeletesOne (S : Storage) : Type 0 where
  pub holds : S.State → Option String → ℕ → Bool
  pub spares :
      (s : S.State) (mid : ℕ) (chat : Option String) (c : Option String) (m : ℕ)
      → m ≢ mid
      → holds (S.delete_message mid chat s).1 c m ≡ holds s c m
  pub deletes :
      (s : S.State) (mid : ℕ) (chat : Option String)
      → (S.delete_message mid chat s).0 ≡ ok true
      → holds (S.delete_message mid chat s).1 chat mid ≡ false
  pub never_revives :
      (s : S.State) (mid : ℕ) (chat : Option String) (c : Option String) (m : ℕ)
      → holds s c m ≡ false
      → holds (S.delete_message mid chat s).1 c m ≡ false

-- a setting that is missing or blank names no chat
abbrev pub named : Option String → Option String
named none = none
named (some String.[]) = none
named (some (String.◌∷◌ c s)) = some (String.◌∷◌ c s)

-- The chat that a file is put into: the one that is named, or else the installation's.
abbrev pub chat_of : Option String → Option String → Option String
chat_of home none = named home
chat_of home (some String.[]) = named home
chat_of home (some (String.◌∷◌ c s)) = some (String.◌∷◌ c s)
