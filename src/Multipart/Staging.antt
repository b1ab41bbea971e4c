-- ===== src/Multipart/Staging.antt =====
-- app/storage/mpu_staging.py and app/storage/tg_label.py: the staged parts of an upload. A path is
-- the pair of the upload's name and the part's number.
use telezon_s.Prelude.{
  ℕ, ◌≡◌, ◌&&◌, Option, none, some, List, [], ◌∷◌, String, ◌<>◌, ◌==◌, string_eq, nat_eq,
  if◌then◌else◌, arith, eq_iff,
}
use telezon_s.Outcome.{Result, ok, err, os_error}
use telezon_s.Http.Text.{show_nat}
use telezon_s.Multipart.{StagedFiles}

unfoldable pub tg_document_label : String → ℕ → String
unfolding show_nat
tg_document_label storage_id part_number = storage_id <> ".part" <> show_nat part_number

-- the content of the file at `part_staging_path(upload_id, number)`
unfoldable pub staged_part : String → ℕ → StagedFiles → Option (List ℕ)
staged_part upload_id number [] = none
staged_part upload_id number ((u, n, content) ∷ files) =
    let rest = staged_part upload_id number files in
    if u == upload_id && n == number then some content else rest

-- `path.unlink(missing_ok=True)`
unfoldable pub unlink_part : String → ℕ → StagedFiles → StagedFiles
unlink_part upload_id number [] = []
unlink_part upload_id number ((u, n, content) ∷ files) =
    let rest = unlink_part upload_id number files in
    if u == upload_id && n == number then rest else (u, n, content) ∷ rest

-- what `stream_body_to_file` leaves at the path of a body that it has received
unfoldable pub write_part : String → ℕ → List ℕ → StagedFiles → StagedFiles
unfolding unlink_part
write_part upload_id number content files =
    (upload_id, number, content) ∷ unlink_part upload_id number files

-- `part_tg_upload_path`: the link that it makes has the content of the staged part.
unfoldable pub part_tg_upload_path : String → ℕ → StagedFiles → Result (List ℕ)
unfolding staged_part
part_tg_upload_path upload_id number files = elim (staged_part upload_id number files) [
  | none ↦ err os_error
  | some content ↦ ok content
]

staged_part-unlink_part :
    (upload_id u : String) (number n : ℕ) (files : StagedFiles)
    → staged_part u n (unlink_part upload_id number files)
      ≡ (if upload_id == u && number == n then none else staged_part u n files)
unfolding staged_part unlink_part
staged_part-unlink_part upload_id u number n [] = ground arith
staged_part-unlink_part upload_id u number n ((v, m, content) ∷ files) = ground (
  arith,
  eq_iff upload_id u,
  eq_iff v u,
  eq_iff v upload_id,
  staged_part-unlink_part upload_id u number n files,
)

-- what stands at each path once a part is written
pub staged_part-write_part :
    (upload_id u : String) (number n : ℕ) (content : List ℕ) (files : StagedFiles)
    → staged_part u n (write_part upload_id number content files)
      ≡ (if upload_id == u && number == n then some content else staged_part u n files)
unfolding staged_part write_part
staged_part-write_part upload_id u number n content files =
    ground (arith, eq_iff upload_id u, staged_part-unlink_part upload_id u number n files)
