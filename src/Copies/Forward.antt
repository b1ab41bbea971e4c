-- ===== src/Copies/Forward.antt =====
-- app/s3/copy_forward.py: a copy into another bucket by forwarding the messages of the source.
use telezon_s.Prelude.{
  ℕ, zero, suc, ◌+◌, ◌-◌, Bool, true, false, ◌&&◌, ◌||◌, not, Option, none, some, List, [], ◌∷◌,
  ◌++◌, String, ◌==◌, nat_eq, nat_beq, ltb, if◌then◌else◌, length, map, any, is_some, is_empty,
  or_none, find,
}
use telezon_s.Outcome.{Result, ok, err, throttle, other, ◌>>=◌}
use telezon_s.Model.{Config, BlobBase, BlobPart, TelegramAlbumMeta}
use telezon_s.Telegram.{Storage, PutFileResult}
use telezon_s.Telegram.World.{World}
use telezon_s.Telegram.Deletes.{safe_delete_tg_message}
use telezon_s.BlobIo.{sort_parts, text_or_none}
use telezon_s.Multipart.Albums.{chunks_of, or_zero}

abbrev pub first_part_number : List BlobPart → ℕ
first_part_number [] = 0
first_part_number (p ∷ ps) = p.part_number

abbrev pub last_part_number : List BlobPart → ℕ
last_part_number [] = 0
last_part_number (p ∷ []) = p.part_number
last_part_number (p ∷ q ∷ ps) = last_part_number (q ∷ ps)

unfoldable pub album_slices : Config → BlobBase → List (ℕ × ℕ)
unfolding sort_parts chunks_of
album_slices cfg blob =
    if not (is_empty blob.telegram_albums)
    then map (λ m. (m.part_start, m.part_end)) blob.telegram_albums
    else let parts = sort_parts blob.parts in
      map (λ chunk. (first_part_number chunk, last_part_number chunk))
        (chunks_of (length parts) cfg.tg_album_max_items parts)

unfoldable pub uses_album_forward : BlobBase → Bool
uses_album_forward blob =
    not (is_empty blob.telegram_albums) || any (λ p. is_some p.album_index) blob.parts

unfoldable pub message_id_for_part : List BlobPart → ℕ → Option ℕ
message_id_for_part parts part_number =
    or_none (find (λ p. p.part_number == part_number) parts) λ p. p.message_id

-- `{p.part_number: p for p in parts}.get(n)`: the last part of that number
unfoldable pub part_by_num : List BlobPart → ℕ → Option BlobPart
part_by_num [] n = none
part_by_num (p ∷ ps) n = elim (part_by_num ps n) [
  | some q ↦ some q
  | none ↦ if p.part_number == n then some p else none
]

-- the loop over the parts of an album: a part that the object does not have is a KeyError
unfoldable pub forwarded_parts :
    List BlobPart → ℕ → ℕ → ℕ → List PutFileResult → Result (List BlobPart)
unfolding part_by_num
forwarded_parts parts album_index n zero results = ok []
forwarded_parts parts album_index n (suc count) [] = err other
forwarded_parts parts album_index n (suc count) (res ∷ results) = elim (part_by_num parts n) [
  | none ↦ err other
  | some old ↦ forwarded_parts parts album_index (suc n) count results >>= λ rest. ok (
      record {
        part_number = n;
        file_id = res.file_id;
        size = old.size;
        message_id = res.message_id;
        etag = old.etag;
        album_index = some album_index;
      }
      ∷ rest)
]

-- What has been forwarded so far. The index of the next album is the number of albums.
pub record Forwarded : Type 0 where
  pub parts : List BlobPart
  pub albums : List TelegramAlbumMeta
  pub grouped_id : Option ℕ

abbrev pub nothing_forwarded : Forwarded
nothing_forwarded = record { parts = []; albums = []; grouped_id = none }

abbrev pub add_forwarded : Forwarded → PutFileResult → ℕ → ℕ → List BlobPart → Forwarded
add_forwarded so_far first part_start part_end parts = record {
  parts = so_far.parts ++ parts;
  albums =
      so_far.albums
      ++ record {
        grouped_id = or_zero first.grouped_id;
        part_start = part_start;
        part_end = part_end;
      }
        ∷ [];
  grouped_id = if is_some so_far.grouped_id then so_far.grouped_id else first.grouped_id;
}

-- `a or b` for numbers, of which 0 counts as none
abbrev pub or_number : Option ℕ → Option ℕ → Option ℕ
or_number none b = b
or_number (some n) b = if nat_beq n 0 then b else some n

abbrev pub is_number : Option ℕ → Bool
is_number none = false
is_number (some n) = not (nat_beq n 0)

module _ (S : Storage) where
  -- `_rollback_forwarded_parts`, with the messages that were seen; there is no database session
  unfoldable pub rollback_forwarded_parts : String → List BlobPart → List ℕ → World S → World S
  rollback_forwarded_parts chat [] seen w = w
  rollback_forwarded_parts chat (p ∷ ps) seen w = elim p.message_id [
    | none ↦ rollback_forwarded_parts chat ps seen w
    | some mid ↦ elim (any (λ m. m == mid) seen) [
      | true ↦ rollback_forwarded_parts chat ps seen w
      | false ↦
          rollback_forwarded_parts chat ps (mid ∷ seen)
            (safe_delete_tg_message S w false (some mid) (some chat) "copy_forward_rollback").1
    ]
  ]

  -- a value, or None, or an exception
  abbrev pub Attempt : Type 0 → Type 0
  Attempt A = Result (Option A) × World S

  abbrev pub and_then : {A B : Type 0} → Attempt A → (A → World S → Attempt B) → Attempt B
  and_then (ok (some a), w) go_on = go_on a w
  and_then (ok none, w) go_on = (ok none, w)
  and_then (err e, w) go_on = (err e, w)

  -- `if not forwarded: return None`, and the first result
  unfoldable pub first_forwarded :
      World S → Result (List PutFileResult) × S.State → Attempt PutFileResult
  first_forwarded w (err e, s) = (err e, record w { tg = s })
  first_forwarded w (ok [], s) = (ok none, record w { tg = s })
  first_forwarded w (ok (res ∷ results), s) = (ok (some res), record w { tg = s })

  -- an album whose messages are all there, of which the first is looked at before the parts
  unfoldable pub take_album :
      List BlobPart → ℕ → ℕ → Forwarded → List PutFileResult → Result (Option Forwarded)
  unfolding forwarded_parts
  take_album parts part_start part_end so_far [] = err other
  take_album parts part_start part_end so_far (first ∷ results) =
      forwarded_parts parts (length so_far.albums) part_start (part_end + 1 - part_start)
        (first ∷ results)
      >>= λ new_parts. ok (some (add_forwarded so_far first part_start part_end new_parts))

  unfoldable pub receive_forwarded :
      String
      → List BlobPart
      → ℕ
      → ℕ
      → Forwarded
      → World S
      → Result (List PutFileResult) × S.State
      → Attempt Forwarded
  unfolding rollback_forwarded_parts take_album
  receive_forwarded dest parts part_start part_end so_far w (err e, s) =
      (err e, record w { tg = s })
  receive_forwarded dest parts part_start part_end so_far w (ok results, s) =
      if ltb (length results) (part_end + 1 - part_start)
      then (ok none, rollback_forwarded_parts dest so_far.parts [] (record w { tg = s }))
      else (take_album parts part_start part_end so_far results, record w { tg = s })

  module _ (source dest : String) (topic : Option ℕ) where
    unfoldable pub forward_album : List BlobPart → ℕ × ℕ → Forwarded → World S → Attempt Forwarded
    unfolding message_id_for_part rollback_forwarded_parts receive_forwarded
    forward_album parts (part_start, part_end) so_far w =
        elim (message_id_for_part parts part_start) [
          | none ↦ (ok none, rollback_forwarded_parts dest so_far.parts [] w)
          | some anchor ↦
              receive_forwarded dest parts part_start part_end so_far w
                (S.forward_messages source anchor (some dest) topic w.tg)
        ]

    unfoldable pub forward_albums :
        List BlobPart → List (ℕ × ℕ) → Forwarded → World S → Attempt Forwarded
    unfolding forward_album
    forward_albums parts [] so_far w = (ok (some so_far), w)
    forward_albums parts (slice ∷ slices) so_far w =
        and_then (forward_album parts slice so_far w) (forward_albums parts slices)

    -- the parts one by one, with no rollback
    unfoldable pub forward_each : List BlobPart → Forwarded → World S → Attempt Forwarded
    unfolding first_forwarded
    forward_each [] so_far w = (ok (some so_far), w)
    forward_each (p ∷ ps) so_far w = elim p.message_id [
      | none ↦ (ok none, w)
      | some mid ↦
          and_then (first_forwarded w (S.forward_messages source mid (some dest) topic w.tg)) λ res.
            forward_each ps (record so_far {
              parts =
                  so_far.parts
                  ++ record {
                    part_number = p.part_number;
                    file_id = res.file_id;
                    size = p.size;
                    message_id = res.message_id;
                    etag = p.etag;
                    album_index = none;
                  }
                    ∷ [];
            })
    ]

    module _ (src_blob : BlobBase) (dest_key content_type : String) where
      unfoldable pub forward_single : World S → Attempt BlobBase
      unfolding first_forwarded
      forward_single w = elim src_blob.message_id [
        | none ↦ (ok none, w)
        | some mid ↦
            and_then (first_forwarded w (S.forward_messages source mid (some dest) topic w.tg))
              λ res w'. (
                ok (
                    some (record src_blob {
                      path = dest_key;
                      telegram_grouped_id = or_number res.grouped_id src_blob.telegram_grouped_id;
                      file = res.file_id;
                      content_type = content_type;
                      message_id = res.message_id;
                      parts = [];
                    })),
                w',
              )
      ]

      unfoldable pub forward_multipart : Config → World S → Attempt BlobBase
      unfolding album_slices uses_album_forward forward_albums forward_each sort_parts
      forward_multipart cfg w =
          let parts = sort_parts src_blob.parts in
          let forwarded =
            if uses_album_forward src_blob
            then forward_albums parts (album_slices cfg src_blob) nothing_forwarded w
            else forward_each parts nothing_forwarded w in
          and_then forwarded λ all w'. (
            ok (
                some (record src_blob {
                  path = dest_key;
                  telegram_grouped_id = all.grouped_id;
                  telegram_albums = all.albums;
                  content_type = content_type;
                  message_id = none;
                  parts = all.parts;
                })),
            w',
          )

  -- every exception but a throttle counts as None
  abbrev pub or_unavailable : {A : Type 0} → Attempt A → Attempt A
  or_unavailable (ok o, w) = (ok o, w)
  or_unavailable (err throttle, w) = (err throttle, w)
  or_unavailable (err e, w) = (ok none, w)

  unfoldable pub try_build_cross_bucket_blob_via_forward :
      Config
      → BlobBase
      → String
      → String
      → Option String
      → Option String
      → Option ℕ
      → World S
      → Attempt BlobBase
  unfolding forward_single forward_multipart
  try_build_cross_bucket_blob_via_forward cfg src_blob dest_key content_type source_chat dest_chat
        topic w =
      elim (text_or_none source_chat) [
        | none ↦ (ok none, w)
        | some source ↦ elim (text_or_none dest_chat) [
          | none ↦ (ok none, w)
          | some dest ↦
              if not (is_number src_blob.message_id) && is_empty src_blob.parts
              then (ok none, w)
              else if is_empty src_blob.parts
              then or_unavailable
                  (forward_single source dest topic src_blob dest_key content_type w)
              else or_unavailable
                  (forward_multipart source dest topic src_blob dest_key content_type cfg w)
        ]
      ]
