-- ===== src/Multipart/Assembled.antt =====
-- An object whose parts the storage holds is read as their contents.
use telezon_s.Prelude.{
  ℕ, ◌<◌, ◌≡◌, refl, sym, ap, ◌∙◌, false, Option, none, List, [], ◌∷◌, String, arith, length,
  is_empty, sum_of,
}
use telezon_s.Outcome.{ok}
use telezon_s.Model.{Config, BlobPart, Blob}
use telezon_s.Telegram.World.{World}
use telezon_s.BlobIo.{load_blob_bytes}
use telezon_s.Telegram.{chat_of}
use telezon_s.Objects.Recorded.{blob_chat_lem}
use telezon_s.BlobIo.Parts.{Served, no_parts, one_more, joined_content}
use telezon_s.BlobIo.Ranges.{load_blob_bytes_lem}
use telezon_s.Service.{Service}
use telezon_s.Objects.Get.{load_object_bytes}
use telezon_s.Multipart.{StagedFiles}
use telezon_s.Multipart.Complete.{size_of}
use telezon_s.Multipart.Kept.{KeepsAlbums, PartsHeld, content_of, numbered}
use telezon_s.Multipart.Order.{
  IsAscending, AllSized, contents, sort_parts-same, joined_content-numbered, sizes-contents,
}

module _ (E : Service) (cfg : Config) (laws : KeepsAlbums E.storage cfg.cid) (place : Option String)
    (upload_id : String) (files : StagedFiles) where
  abbrev Held : E.storage.State → List BlobPart → Type 0
  Held s ps = PartsHeld upload_id files E.storage cfg.cid laws place s ps

  Held-get :
      (f : String) (m : Option ℕ) (c : Option String) (s : E.storage.State) (ps : List BlobPart)
      → Held s ps
      → Held (E.storage.get_file f c m s).1 ps
  Held-get f m c s [] h = tt
  Held-get f m c s (p ∷ ps) h = (
    laws.lasts_get s (chat_of cfg.cid place) p.file_id p.message_id
        (content_of upload_id files p.part_number) f m c h.0,
    Held-get f m c s ps h.1,
  )

  Held-Served :
      (all ps : List BlobPart)
      → ((s : E.storage.State) → Held s all → Held s ps)
      → AllSized (content_of upload_id files) (numbered ps)
      → Served E.storage
          (chat_of cfg.cid place)
          (λ p. content_of upload_id files p.part_number)
          (λ s. Held s all)
          ps
  Held-Served all [] below sized = no_parts
  Held-Served all (p ∷ ps) below sized =
      one_more
        (λ s good.
          laws.reads s (chat_of cfg.cid place) p.file_id p.message_id
            (content_of upload_id files p.part_number) (below s good).0)
        sized.0 (Held-Served all ps (λ s good. (below s good).1) sized.1)

  some_part : (ps : List BlobPart) (n : ℕ) → n ≡ sum_of size_of ps → 0 < n → is_empty ps ≡ false
  some_part [] n h k = absurd (omega (arith, h, k))
  some_part (p ∷ ps) n h k = refl

  bytes_loaded :
      (s : E.storage.State) (blob : Blob)
      → blob.bucket.telegram_chat_id ≡ place
      → Held s blob.base.parts
      → IsAscending (numbered blob.base.parts)
      → AllSized (content_of upload_id files) (numbered blob.base.parts)
      → blob.base.encrypted ≡ false
      → blob.base.size ≡ sum_of size_of blob.base.parts
      → 0 < blob.base.size
      → (load_blob_bytes E.storage E.crypto cfg blob none s).0
        ≡ ok (contents (content_of upload_id files) (numbered blob.base.parts))
  bytes_loaded s blob here held ascending sized plain size positive =
      let content : BlobPart → List ℕ = λ p. content_of upload_id files p.part_number in
      let chat = chat_of cfg.cid place in
      let in_order =
        ap (joined_content content) (sort_parts-same blob.base.parts ascending)
        ∙ joined_content-numbered (content_of upload_id files) blob.base.parts in
      let whole =
        size
        ∙ sizes-contents (content_of upload_id files) blob.base.parts sized
        ∙ ap length (sym in_order) in
      load_blob_bytes_lem E.storage chat content (λ s'. Held s' blob.base.parts)
        (λ f m s'. Held-get f m chat s' blob.base.parts) E.crypto cfg blob none s held
        (blob_chat_lem cfg blob ∙ ap (chat_of cfg.cid) here) plain
        (some_part blob.base.parts blob.base.size size positive)
        (Held-Served blob.base.parts blob.base.parts (λ s' good. good) sized) positive whole
      ∙ ap ok in_order

  pub object_loaded :
      (w : World E.storage) (blob : Blob) (bucket key : String)
      → blob.bucket.telegram_chat_id ≡ place
      → Held w.tg blob.base.parts
      → IsAscending (numbered blob.base.parts)
      → AllSized (content_of upload_id files) (numbered blob.base.parts)
      → blob.base.encrypted ≡ false
      → blob.base.size ≡ sum_of size_of blob.base.parts
      → 0 < blob.base.size
      → (load_object_bytes E cfg w blob bucket key none none).0
        ≡ ok (contents (content_of upload_id files) (numbered blob.base.parts), false)
  unfolding load_object_bytes
  object_loaded w blob bucket key here held ascending sized plain size positive =
      simp
        (
          some_part blob.base.parts blob.base.size size positive,
          bytes_loaded w.tg blob here held ascending sized plain size positive,
        )
        refl
