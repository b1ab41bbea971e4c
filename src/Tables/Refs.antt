-- ===== src/Tables/Refs.antt =====
-- app/crud/tg_refs.py: how many rows refer to a Telegram message.
use telezon_s.Prelude.{ℕ, ◌+◌, Option, none, some, List, [], ◌∷◌, ◌==◌, nat_eq, if◌then◌else◌}
use telezon_s.Model.{Db, BlobBase, BlobPart, BlobRow, TrashItem, MultipartPartRow}

unfoldable pub is_mid : Option ℕ → ℕ → ℕ
is_mid none mid = 0
is_mid (some m) mid = if m == mid then 1 else 0

unfoldable pub count_mid_in_parts : List BlobPart → ℕ → ℕ
unfolding is_mid
count_mid_in_parts [] mid = 0
count_mid_in_parts (p ∷ ps) mid = is_mid p.message_id mid + count_mid_in_parts ps mid

-- one object's references, in its own column and in its parts
unfoldable pub count_in_base : BlobBase → ℕ → ℕ
unfolding is_mid count_mid_in_parts
count_in_base b mid = is_mid b.message_id mid + count_mid_in_parts b.parts mid

unfoldable pub count_in_blobs : List BlobRow → ℕ → ℕ
count_in_blobs [] mid = 0
count_in_blobs (b ∷ bs) mid = count_in_base b.base mid + count_in_blobs bs mid

unfoldable pub count_in_trash : List TrashItem → ℕ → ℕ
count_in_trash [] mid = 0
count_in_trash (t ∷ ts) mid = count_in_base t.base mid + count_in_trash ts mid

unfoldable pub count_in_uploads : List MultipartPartRow → ℕ → ℕ
count_in_uploads [] mid = 0
count_in_uploads (p ∷ ps) mid = is_mid p.message_id mid + count_in_uploads ps mid

unfoldable pub count_message_id_refs : Db → ℕ → ℕ
unfolding count_in_base count_in_blobs count_in_trash count_in_uploads
count_message_id_refs db mid =
    count_in_blobs db.blobs mid + count_in_trash db.trash mid + count_in_uploads db.parts mid
