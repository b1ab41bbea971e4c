-- ===== src/Copies/Unwritten.antt =====
-- Forwarding the messages of an object writes nothing to the database.
use telezon_s.Prelude.{
  ℕ, ◌≡◌, refl, ◌∙◌, false, Option, none, some, List, [], ◌∷◌, String, any, nat_eq, ◌==◌, string_eq,
  Bool-cases, Option-cases, inl, inr, ltb, length, ◌+◌, ◌-◌, is_empty,
}
use telezon_s.Outcome.{
  Result, ok, err, throttle, unavailable, object_gone, os_error, value_error, integrity_error,
  no_result, not_supported, sse_error, other, http,
}
use telezon_s.Model.{Config, BlobBase, BlobPart}
use telezon_s.Telegram.{Storage, PutFileResult}
use telezon_s.Telegram.World.{World}
use telezon_s.Telegram.Deletes.{safe_delete_tg_message, granted, delete_unreferenced}
use telezon_s.BlobIo.{sort_parts, text_or_none}
use telezon_s.Copies.Forward.{
  rollback_forwarded_parts, Attempt, and_then, first_forwarded, receive_forwarded, Forwarded,
  forward_album, forward_albums, forward_each, forward_single, forward_multipart, or_unavailable,
  try_build_cross_bucket_blob_via_forward, message_id_for_part, is_number, uses_album_forward,
  album_slices, nothing_forwarded,
}

module _ (S : Storage) (start : World S) where
  -- nothing has been written
  abbrev pub Unwritten : {A : Type 0} → Attempt S A → Type 0
  Unwritten a = a.1.db ≡ start.db

  and_then_db :
      {A B : Type 0} (a : Attempt S A) (go_on : A → World S → Attempt S B)
      → Unwritten a
      → ((x : A) (w : World S) → w.db ≡ start.db → Unwritten (go_on x w))
      → Unwritten (and_then S a go_on)
  and_then_db (ok (some a), w) go_on same rest = rest a w same
  and_then_db (ok none, w) go_on same rest = same
  and_then_db (err e, w) go_on same rest = same

  delete_without_session :
      (w : World S) (mid : ℕ) (chat : Option String) (reason : String)
      → (safe_delete_tg_message S w false (some mid) chat reason).1.db ≡ w.db
  unfolding safe_delete_tg_message delete_unreferenced
  delete_without_session w mid chat reason =
      elim (Bool-cases (granted S (S.delete_message mid chat w.tg).0)) [
        | inl e ↦ rw e refl
        | inr e ↦ rw e refl
      ]

  rollback_db :
      (chat : String) (parts : List BlobPart) (seen : List ℕ) (w : World S)
      → (rollback_forwarded_parts S chat parts seen w).db ≡ w.db
  unfolding rollback_forwarded_parts
  rollback_db chat [] seen w = refl
  rollback_db chat (p ∷ ps) seen w = elim (Option-cases p.message_id) [
    | inl e ↦ rw (e, rollback_forwarded_parts) (rollback_db chat ps seen w)
    | inr (mid, e) ↦ elim (Bool-cases (any (λ m. m == mid) seen)) [
      | inl s ↦ rw (e, s, rollback_forwarded_parts) (rollback_db chat ps seen w)
      | inr s ↦
          rw (e, s, rollback_forwarded_parts)
            (rollback_db chat ps (mid ∷ seen)
                (safe_delete_tg_message S w false (some mid) (some chat) "copy_forward_rollback").1
              ∙ delete_without_session w mid (some chat) "copy_forward_rollback")
    ]
  ]

  first_forwarded_db :
      (w : World S) (got : Result (List PutFileResult) × S.State)
      → w.db ≡ start.db
      → Unwritten (first_forwarded S w got)
  unfolding first_forwarded
  first_forwarded_db w (err e, s) same = same
  first_forwarded_db w (ok [], s) same = same
  first_forwarded_db w (ok (r ∷ rs), s) same = same

  receive_forwarded_db :
      (dest : String) (parts : List BlobPart) (part_start part_end : ℕ) (so_far : Forwarded)
      (w : World S) (got : Result (List PutFileResult) × S.State)
      → w.db ≡ start.db
      → Unwritten (receive_forwarded S dest parts part_start part_end so_far w got)
  unfolding receive_forwarded
  receive_forwarded_db dest parts part_start part_end so_far w (err e, s) same = same
  receive_forwarded_db dest parts part_start part_end so_far w (ok results, s) same =
      elim (Bool-cases (ltb (length results) (part_end + 1 - part_start))) [
        | inl e ↦ rw e (rollback_db dest so_far.parts [] (record w { tg = s }) ∙ same)
        | inr e ↦ rw e same
      ]

  module _ (source dest : String) (topic : Option ℕ) where
    forward_album_db :
        (parts : List BlobPart) (slice : ℕ × ℕ) (so_far : Forwarded) (w : World S)
        → w.db ≡ start.db
        → Unwritten (forward_album S source dest topic parts slice so_far w)
    unfolding forward_album
    forward_album_db parts (part_start, part_end) so_far w same =
        elim (Option-cases (message_id_for_part parts part_start)) [
          | inl e ↦ rw (e, forward_album) (rollback_db dest so_far.parts [] w ∙ same)
          | inr (anchor, e) ↦
              rw (e, forward_album)
                (receive_forwarded_db dest parts part_start part_end so_far w
                  (S.forward_messages source anchor (some dest) topic w.tg) same)
        ]

    forward_albums_db :
        (parts : List BlobPart) (slices : List (ℕ × ℕ)) (so_far : Forwarded) (w : World S)
        → w.db ≡ start.db
        → Unwritten (forward_albums S source dest topic parts slices so_far w)
    unfolding forward_albums
    forward_albums_db parts [] so_far w same = same
    forward_albums_db parts (slice ∷ slices) so_far w same =
        and_then_db (forward_album S source dest topic parts slice so_far w)
          (forward_albums S source dest topic parts slices)
          (forward_album_db parts slice so_far w same) (forward_albums_db parts slices)

    forward_each_db :
        (parts : List BlobPart) (so_far : Forwarded) (w : World S)
        → w.db ≡ start.db
        → Unwritten (forward_each S source dest topic parts so_far w)
    unfolding forward_each
    forward_each_db [] so_far w same = same
    forward_each_db (p ∷ ps) so_far w same = elim (Option-cases p.message_id) [
      | inl e ↦ rw (e, forward_each) same
      | inr (mid, e) ↦
          rw (e, forward_each)
            (and_then_db
              (first_forwarded S w (S.forward_messages source mid (some dest) topic w.tg)) _
              (first_forwarded_db w (S.forward_messages source mid (some dest) topic w.tg) same)
              λ res w' same'. forward_each_db ps _ w' same')
    ]

    module _ (src : BlobBase) (key content_type : String) (w : World S)
        (same : w.db ≡ start.db) where
      forward_single_db : Unwritten (forward_single S source dest topic src key content_type w)
      unfolding forward_single
      forward_single_db = elim (Option-cases src.message_id) [
        | inl e ↦ rw (e, forward_single) same
        | inr (mid, e) ↦
            rw (e, forward_single)
              (and_then_db
                (first_forwarded S w (S.forward_messages source mid (some dest) topic w.tg)) _
                (first_forwarded_db w (S.forward_messages source mid (some dest) topic w.tg) same)
                λ res w' same'. same')
      ]

      forward_multipart_db :
          (cfg : Config)
          → Unwritten (forward_multipart S source dest topic src key content_type cfg w)
      unfolding forward_multipart
      forward_multipart_db cfg =
          let parts = sort_parts src.parts in
          elim (Bool-cases (uses_album_forward src)) [
            | inl e ↦ rw (e) (
                and_then_db _ _
                  (forward_albums_db parts (album_slices cfg src) nothing_forwarded w same)
                  λ all w' same'. same')
            | inr e ↦ rw (e) (
                and_then_db _ _ (forward_each_db parts nothing_forwarded w same)
                  λ all w' same'. same')
          ]

  or_unavailable_db : {A : Type 0} (a : Attempt S A) → Unwritten a → Unwritten (or_unavailable S a)
  or_unavailable_db (ok o, w) same = same
  or_unavailable_db (err throttle, w) same = same
  or_unavailable_db (err unavailable, w) same = same
  or_unavailable_db (err object_gone, w) same = same
  or_unavailable_db (err os_error, w) same = same
  or_unavailable_db (err value_error, w) same = same
  or_unavailable_db (err integrity_error, w) same = same
  or_unavailable_db (err no_result, w) same = same
  or_unavailable_db (err not_supported, w) same = same
  or_unavailable_db (err sse_error, w) same = same
  or_unavailable_db (err other, w) same = same
  or_unavailable_db (err (http status), w) same = same

  pub forwarding_writes_nothing :
      (cfg : Config) (src : BlobBase) (key content_type : String) (source dest : Option String)
      (topic : Option ℕ) (w : World S)
      → w.db ≡ start.db
      → Unwritten
          (try_build_cross_bucket_blob_via_forward S cfg src key content_type source dest topic w)
  unfolding try_build_cross_bucket_blob_via_forward
  forwarding_writes_nothing cfg src key content_type source dest topic w same =
      elim (Option-cases (text_or_none source)) [
        | inl e ↦ rw (e, try_build_cross_bucket_blob_via_forward) same
        | inr (s, e) ↦ elim (Option-cases (text_or_none dest)) [
          | inl d ↦ rw (e, d, try_build_cross_bucket_blob_via_forward) same
          | inr (chat, d) ↦ elim (Bool-cases (is_empty src.parts)) [
            | inl p ↦ elim (Bool-cases (is_number src.message_id)) [
              | inl n ↦
                  rw (e, d, p, n, try_build_cross_bucket_blob_via_forward)
                    (or_unavailable_db _
                      (forward_single_db s chat topic src key content_type w same))
              | inr n ↦ rw (e, d, p, n, try_build_cross_bucket_blob_via_forward) same
            ]
            | inr p ↦ elim (Bool-cases (is_number src.message_id)) [
              | inl n ↦
                  rw (e, d, p, n, try_build_cross_bucket_blob_via_forward)
                    (or_unavailable_db _
                      (forward_multipart_db s chat topic src key content_type w same cfg))
              | inr n ↦
                  rw (e, d, p, n, try_build_cross_bucket_blob_via_forward)
                    (or_unavailable_db _
                      (forward_multipart_db s chat topic src key content_type w same cfg))
            ]
          ]
        ]
      ]
