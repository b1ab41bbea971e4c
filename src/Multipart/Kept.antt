-- ===== src/Multipart/Kept.antt =====
-- What is known of the parts that were sent as albums.
use mathlib.Core.Path.{subst}
use mathlib.Core.List.{append-nil, append_assoc}
use telezon_s.Prelude.{
  ℕ, ◌≡◌, refl, sym, ap, ◌∙◌, Option, none, some, List, [], ◌∷◌, ◌++◌, String, arith, length,
  nat_beq, Bool-cases, inl, inr,
}
use telezon_s.Outcome.{Result, ok, err, Result-cases}
use telezon_s.Model.{BlobPart, MultipartPartRow}
use telezon_s.Telegram.{Storage, PutFileResult, chat_of}
use telezon_s.Telegram.World.{World}
use telezon_s.Multipart.{StagedFiles}
use telezon_s.Multipart.Staging.{staged_part, part_tg_upload_path, tg_document_label}
use telezon_s.Multipart.Chunks.{flat}
use telezon_s.Multipart.Albums.{
  Sent, Sending, sent_parts, add_album, album_docs, receive_album, send_docs, send_album,
  send_albums, then_send,
}

abbrev pub AllHeld :
    {State : Type 0}
    → (State → String → Option ℕ → List ℕ → Type 0)
    → State
    → List (List ℕ × String)
    → List PutFileResult
    → Type 0
AllHeld holds s [] results = Unit {0}
AllHeld holds s (doc ∷ docs) [] = Unit {0}
AllHeld holds s ((content, label) ∷ docs) (r ∷ rs) =
    holds s r.file_id r.message_id content × AllHeld holds s docs rs

-- What the storage promises of albums: each file of an album that it has answered for is held with
-- the content that was sent, in the chat that the album was sent to, which is `home` if none was
-- named; a file that is held is read back by who names that chat; and it stays held when other files
-- are read and other albums are sent.
pub record KeepsAlbums (S : Storage) (home : Option String) : Type 1 where
  pub holds : S.State → Option String → String → Option ℕ → List ℕ → Type 0
  pub reads :
      (s : S.State) (c : Option String) (f : String) (m : Option ℕ) (content : List ℕ)
      → holds s c f m content
      → (S.get_file f c m s).0 ≡ ok content
  pub lasts_get :
      (s : S.State) (c : Option String) (f : String) (m : Option ℕ) (content : List ℕ) (f' : String)
      (m' : Option ℕ) (c' : Option String)
      → holds s c f m content
      → holds (S.get_file f' c' m' s).1 c f m content
  pub lasts_send :
      (s : S.State) (c : Option String) (f : String) (m : Option ℕ) (content : List ℕ)
      (docs : List (List ℕ × String)) (chat : Option String) (topic : Option ℕ)
      → holds s c f m content
      → holds (S.send_media_group docs chat topic s).1 c f m content
  pub sends :
      (s : S.State) (docs : List (List ℕ × String)) (chat : Option String) (topic : Option ℕ)
      (results : List PutFileResult)
      → (S.send_media_group docs chat topic s).0 ≡ ok results
      → AllHeld
          (λ t. holds t (chat_of home chat))
          (S.send_media_group docs chat topic s).1
          docs
          results

abbrev pub or_empty : Option (List ℕ) → List ℕ
or_empty none = []
or_empty (some content) = content

abbrev pub numbered : List BlobPart → List (ℕ × ℕ)
numbered [] = []
numbered (p ∷ ps) = (p.part_number, p.size) ∷ numbered ps

abbrev pub numbers : List MultipartPartRow → List (ℕ × ℕ)
numbers [] = []
numbers (p ∷ ps) = (p.part_number, p.size) ∷ numbers ps

numbered-append : (ps qs : List BlobPart) → numbered (ps ++ qs) ≡ numbered ps ++ numbered qs
numbered-append [] qs = refl
numbered-append (p ∷ ps) qs = ap ((p.part_number, p.size) ∷◌) (numbered-append ps qs)

numbers-append : (ps qs : List MultipartPartRow) → numbers (ps ++ qs) ≡ numbers ps ++ numbers qs
numbers-append [] qs = refl
numbers-append (p ∷ ps) qs = ap ((p.part_number, p.size) ∷◌) (numbers-append ps qs)

module _ (upload_id : String) (files : StagedFiles) where
  -- the staged content of a part
  abbrev pub content_of : ℕ → List ℕ
  content_of n = or_empty (staged_part upload_id n files)

  path_content :
      (n : ℕ) (content : List ℕ)
      → part_tg_upload_path upload_id n files ≡ ok content
      → content ≡ content_of n
  unfolding part_tg_upload_path
  path_content n content h = ground (arith, h)

  module _ (S : Storage) (home : Option String) (laws : KeepsAlbums S home)
      (chat : Option String) where
    abbrev Holds : S.State → String → Option ℕ → List ℕ → Type 0
    Holds s = laws.holds s (chat_of home chat)

    -- the parts are held in the chat that the albums are sent to
    abbrev pub PartsHeld : S.State → List BlobPart → Type 0
    PartsHeld s [] = Unit {0}
    PartsHeld s (p ∷ ps) =
        Holds s p.file_id p.message_id (content_of p.part_number) × PartsHeld s ps

    PartsHeld-append :
        (s : S.State) (ps qs : List BlobPart)
        → PartsHeld s ps
        → PartsHeld s qs
        → PartsHeld s (ps ++ qs)
    PartsHeld-append s [] qs h k = k
    PartsHeld-append s (p ∷ ps) qs h k = (h.0, PartsHeld-append s ps qs h.1 k)

    PartsHeld-send :
        (s : S.State) (docs : List (List ℕ × String)) (topic : Option ℕ) (ps : List BlobPart)
        → PartsHeld s ps
        → PartsHeld (S.send_media_group docs chat topic s).1 ps
    PartsHeld-send s docs topic [] h = tt
    PartsHeld-send s docs topic (p ∷ ps) h = (
      laws.lasts_send s (chat_of home chat) p.file_id p.message_id (content_of p.part_number) docs
          chat topic h.0,
      PartsHeld-send s docs topic ps h.1,
    )

    docs_held :
        (s : S.State) (album : ℕ) (storage_id : String) (rows : List MultipartPartRow)
        (docs : List (List ℕ × String)) (results : List PutFileResult)
        → album_docs upload_id storage_id files rows ≡ ok docs
        → AllHeld Holds s docs results
        → length results ≡ length rows
        → PartsHeld s (sent_parts album rows results)
          × (numbered (sent_parts album rows results) ≡ numbers rows)
    unfolding album_docs sent_parts
    docs_held s album storage_id [] docs results h held n = (tt, refl)
    docs_held s album storage_id (p ∷ ps) docs [] h held n = absurd (omega (arith, n))
    docs_held s album storage_id (p ∷ ps) docs (r ∷ rs) h held n =
        elim (Result-cases (part_tg_upload_path upload_id p.part_number files)) [
          | inr (e, refused) ↦ absurd (ground arith)
          | inl (content, found) ↦ elim (Result-cases (album_docs upload_id storage_id files ps)) [
            | inr (e, refused) ↦ absurd (ground arith)
            | inl (rest, more) ↦
                let label = tg_document_label storage_id p.part_number in
                let same : docs ≡ (content, label) ∷ rest = ground arith in
                let held' : AllHeld Holds s ((content, label) ∷ rest) (r ∷ rs) = rw same at held in
                let (kept, equal) =
                  docs_held s album storage_id ps rest rs more held'.1 (omega (arith, n)) in
                (
                  (
                    subst (Holds s r.file_id r.message_id)
                        (path_content p.part_number content found) held'.0,
                    kept,
                  ),
                  ap ((p.part_number, p.size) ∷◌) equal,
                )
          ]
        ]

    -- The state of the loop that started at the world `w`: behind an exception nothing is said;
    -- else the storage holds what was sent, which is `sent`, and nothing but it has changed.
    abbrev pub Delivered : World S → List (ℕ × ℕ) → Sending S → Type 0
    Delivered w sent (some e, sent', w') = Unit {0}
    Delivered w sent (none, sent', w') =
        PartsHeld w'.tg sent'.parts × (numbered sent'.parts ≡ sent) × (w' ≡ record w { tg = w'.tg })

    receive_album-Delivered :
        (w : World S) (sent : Sent) (rows : List MultipartPartRow) (storage_id : String)
        (docs : List (List ℕ × String)) (topic : Option ℕ)
        (answer : Result (List PutFileResult) × S.State)
        → PartsHeld w.tg sent.parts
        → album_docs upload_id storage_id files rows ≡ ok docs
        → S.send_media_group docs chat topic w.tg ≡ answer
        → Delivered w (numbered sent.parts ++ numbers rows) (receive_album S sent rows w answer)
    unfolding receive_album add_album
    receive_album-Delivered w sent rows storage_id docs topic (err e, s) held made sends = tt
    receive_album-Delivered w sent rows storage_id docs topic (ok results, s) held made sends =
        elim (Bool-cases (nat_beq (length results) (length rows))) [
          | inr e ↦ rw (e) tt
          | inl e ↦
              let (kept, equal) =
                docs_held s (length sent.albums) storage_id rows docs results made
                  (rw sends at (laws.sends w.tg docs chat topic results (ap (λ a. a.0) sends)))
                  (ground arith) in
              rw (e) (
                PartsHeld-append s sent.parts _
                    (rw sends at (PartsHeld-send w.tg docs topic sent.parts held)) kept,
                numbered-append sent.parts _ ∙ ap (numbered sent.parts ++◌) equal,
                refl,
              )
        ]

    module _ (topic : Option ℕ) (storage_id : String) where
      send_docs-Delivered :
          (w : World S) (sent : Sent) (rows : List MultipartPartRow)
          (docs : Result (List (List ℕ × String)))
          → PartsHeld w.tg sent.parts
          → album_docs upload_id storage_id files rows ≡ docs
          → Delivered w
              (numbered sent.parts ++ numbers rows)
              (send_docs S chat topic sent rows w docs)
      unfolding send_docs
      send_docs-Delivered w sent rows (err e) held made = tt
      send_docs-Delivered w sent rows (ok docs) held made =
          receive_album-Delivered w sent rows storage_id docs topic
            (S.send_media_group docs chat topic w.tg) held made refl

      send_album-Delivered :
          (w : World S) (sent : Sent) (rows : List MultipartPartRow)
          → w.staged ≡ files
          → PartsHeld w.tg sent.parts
          → Delivered w
              (numbered sent.parts ++ numbers rows)
              (send_album S chat topic upload_id storage_id sent rows w)
      unfolding send_album
      send_album-Delivered w sent rows there held =
          send_docs-Delivered w sent rows (album_docs upload_id storage_id w.staged rows) held
            (ap (λ f. album_docs upload_id storage_id f rows) (sym there))

      Delivered-from :
          (w w' : World S) (sent all : List (ℕ × ℕ)) (sending : Sending S)
          → w' ≡ record w { tg = w'.tg }
          → sent ≡ all
          → Delivered w' sent sending
          → Delivered w all sending
      Delivered-from w w' sent all (some e, sent', v) only equal d = tt
      Delivered-from w w' sent all (none, sent', v) only equal (held, parts, changed) =
          (held, parts ∙ equal, changed ∙ ap (λ (u : World S). record u { tg = v.tg }) only)

      then_send-Delivered :
          (w : World S) (sent : List (ℕ × ℕ)) (rows : List MultipartPartRow)
          (chunks : List (List MultipartPartRow)) (sending : Sending S)
          → w.staged ≡ files
          → Delivered w (sent ++ numbers rows) sending
          → ((w' : World S) (sent' : Sent)
              → w'.staged ≡ files
              → PartsHeld w'.tg sent'.parts
              → Delivered w'
                  (numbered sent'.parts ++ numbers (flat chunks))
                  (send_albums S chat topic upload_id storage_id sent' chunks w'))
          → Delivered w (sent ++ (numbers rows ++ numbers (flat chunks))) (
              then_send S sending
                λ sent' w'. send_albums S chat topic upload_id storage_id sent' chunks w')
      then_send-Delivered w sent rows chunks (some e, sent', w') there d rest = tt
      then_send-Delivered w sent rows chunks (none, sent', w') there (held, equal, only) rest =
          Delivered-from w w' (numbered sent'.parts ++ numbers (flat chunks)) _
            (send_albums S chat topic upload_id storage_id sent' chunks w') only
            (ap (λ l. l ++ numbers (flat chunks)) equal
              ∙ append_assoc sent (numbers rows) (numbers (flat chunks)))
            (rest w' sent' (ap (λ (u : World S). u.staged) only ∙ there) held)

      -- The loop over the albums, from a state in which what was sent before is held.
      pub send_albums-Delivered :
          (chunks : List (List MultipartPartRow)) (w : World S) (sent : Sent)
          → w.staged ≡ files
          → PartsHeld w.tg sent.parts
          → Delivered w
              (numbered sent.parts ++ numbers (flat chunks))
              (send_albums S chat topic upload_id storage_id sent chunks w)
      unfolding send_albums
      send_albums-Delivered [] w sent there held =
          (held, sym (append-nil (numbered sent.parts)), refl)
      send_albums-Delivered (rows ∷ chunks) w sent there held =
          rw (numbers-append rows (flat chunks)) (
            then_send-Delivered w (numbered sent.parts) rows chunks
              (send_album S chat topic upload_id storage_id sent rows w) there
              (send_album-Delivered w sent rows there held) (send_albums-Delivered chunks))
