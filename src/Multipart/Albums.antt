-- ===== src/Multipart/Albums.antt =====
-- app/s3/handlers/multipart.py: how `complete_multipart_upload` sends the staged parts as albums.
use telezon_s.Prelude.{
  ℕ, zero, suc, true, false, not, Option, none, some, List, [], ◌∷◌, ◌++◌, String, ◌==◌, string_eq,
  nat_eq, nat_beq, if◌then◌else◌, length, take, drop, any, is_some, or_none, head?,
}
use telezon_s.Outcome.{Result, ok, err, Error, unavailable, ◌>>=◌}
use telezon_s.Model.{BlobPart, TelegramAlbumMeta, MultipartPartRow}
use telezon_s.Telegram.{Storage, PutFileResult}
use telezon_s.Telegram.World.{World}
use telezon_s.Telegram.Deletes.{safe_delete_tg_message}
use telezon_s.Multipart.{StagedFiles}
use telezon_s.Multipart.Staging.{part_tg_upload_path, tg_document_label}

-- `sorted_nums[offset : offset + size] for offset in range(0, len(sorted_nums), size)`, with as much
-- fuel as there are parts
unfoldable pub chunks_of {ℓ} : {A : Type ℓ} → ℕ → ℕ → List A → List (List A)
chunks_of zero size xs = []
chunks_of (suc fuel) size [] = []
chunks_of (suc fuel) size (x ∷ xs) = take size (x ∷ xs) ∷ chunks_of fuel size (drop size (x ∷ xs))

-- What has been sent so far. The index of the next album is the number of albums.
pub record Sent : Type 0 where
  pub parts : List BlobPart
  pub albums : List TelegramAlbumMeta
  pub grouped_id : Option ℕ

abbrev pub nothing_sent : Sent
nothing_sent = record { parts = []; albums = []; grouped_id = none }

-- `chunk_nums[0]` and `chunk_nums[-1]` of a chunk, which is not empty
abbrev pub first_number : List MultipartPartRow → ℕ
first_number [] = 0
first_number (p ∷ ps) = p.part_number

abbrev pub last_number : List MultipartPartRow → ℕ
last_number [] = 0
last_number (p ∷ []) = p.part_number
last_number (p ∷ q ∷ ps) = last_number (q ∷ ps)

-- `int(gid or 0)`
abbrev pub or_zero : Option ℕ → ℕ
or_zero none = 0
or_zero (some n) = n

unfoldable pub sent_parts : ℕ → List MultipartPartRow → List PutFileResult → List BlobPart
sent_parts album [] results = []
sent_parts album (p ∷ ps) [] = []
sent_parts album (p ∷ ps) (r ∷ rs) =
    record {
      part_number = p.part_number;
      file_id = r.file_id;
      size = p.size;
      message_id = r.message_id;
      etag = p.etag;
      album_index = some album;
    }
    ∷ sent_parts album ps rs

abbrev pub first_grouped : List PutFileResult → Option ℕ
first_grouped results = or_none (head? results) λ r. r.grouped_id

unfoldable pub add_album : Sent → List MultipartPartRow → List PutFileResult → Sent
unfolding sent_parts
add_album sent chunk results = record {
  parts = sent.parts ++ sent_parts (length sent.albums) chunk results;
  albums =
      sent.albums
      ++ record {
        grouped_id = or_zero (first_grouped results);
        part_start = first_number chunk;
        part_end = last_number chunk;
      }
        ∷ [];
  grouped_id = if is_some sent.grouped_id then sent.grouped_id else first_grouped results;
}

unfoldable pub album_docs :
    String → String → StagedFiles → List MultipartPartRow → Result (List (List ℕ × String))
album_docs upload_id storage_id files [] = ok []
album_docs upload_id storage_id files (p ∷ ps) =
    part_tg_upload_path upload_id p.part_number files >>= λ content.
    album_docs upload_id storage_id files ps >>= λ docs.
    ok ((content, tg_document_label storage_id p.part_number) ∷ docs)

module _ (S : Storage) where
  -- how the loop stands: with an exception, or without
  abbrev pub Sending : Type 0
  Sending = Option Error × Sent × World S

  unfoldable pub receive_album :
      Sent → List MultipartPartRow → World S → Result (List PutFileResult) × S.State → Sending
  unfolding add_album
  receive_album sent chunk w (err e, s) = (some e, sent, record w { tg = s })
  receive_album sent chunk w (ok results, s) =
      if not (nat_beq (length results) (length chunk))
      then (some unavailable, sent, record w { tg = s })
      else (none, add_album sent chunk results, record w { tg = s })

  unfoldable pub send_docs :
      Option String
      → Option ℕ
      → Sent
      → List MultipartPartRow
      → World S
      → Result (List (List ℕ × String))
      → Sending
  unfolding receive_album
  send_docs chat topic sent chunk w (err e) = (some e, sent, w)
  send_docs chat topic sent chunk w (ok docs) =
      receive_album sent chunk w (S.send_media_group docs chat topic w.tg)

  abbrev pub then_send : Sending → (Sent → World S → Sending) → Sending
  then_send (some e, sent, w) go_on = (some e, sent, w)
  then_send (none, sent, w) go_on = go_on sent w

  module _ (chat : Option String) (topic : Option ℕ) (upload_id storage_id : String) where
    -- one round of the loop
    unfoldable pub send_album : Sent → List MultipartPartRow → World S → Sending
    unfolding send_docs album_docs
    send_album sent chunk w =
        send_docs chat topic sent chunk w (album_docs upload_id storage_id w.staged chunk)

    unfoldable pub send_albums : Sent → List (List MultipartPartRow) → World S → Sending
    unfolding send_album
    send_albums sent [] w = (none, sent, w)
    send_albums sent (chunk ∷ chunks) w =
        then_send (send_album sent chunk w) λ sent' w'. send_albums sent' chunks w'

  -- `_rollback_sent_parts`, with the messages that were seen
  unfoldable pub rollback_sent_parts : Option String → List BlobPart → List ℕ → World S → World S
  rollback_sent_parts chat [] seen w = w
  rollback_sent_parts chat (p ∷ ps) seen w = elim p.message_id [
    | none ↦ rollback_sent_parts chat ps seen w
    | some mid ↦ elim (any (λ m. m == mid) seen) [
      | true ↦ rollback_sent_parts chat ps seen w
      | false ↦
          rollback_sent_parts chat ps (mid ∷ seen)
            (safe_delete_tg_message S w true (some mid) chat "multipart_complete_rollback").1
    ]
  ]
