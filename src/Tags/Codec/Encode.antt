-- ===== src/Tags/Codec/Encode.antt =====
-- The encoder of tags/tag_set_codec.go, and the bytes that it produces.
use instrumentation_go.Base.{
  ℕ, ◌≡◌, refl, sym, ap, [], ◌∷◌, ◌++◌, Option, some, Bytes, length, replicate, append-nil, arith,
  le→leb,
}
use instrumentation_go.Base.Panic.{◌>>=◌}
use instrumentation_go.Base.GoMap.{GoMap}
use instrumentation_go.Tags.Key.{Key, name_of}
use instrumentation_go.Tags.TagSet.{TagSet}
use instrumentation_go.Tags.Buffer.{Buffer, write_byte, write_bytes_with_varint_len, bytes}
use instrumentation_go.Tags.Buffer.Appends.{
  IsBuffer, written, Appends-trans, Appends, encoded, write_byte-Appends, write_bytes-Appends,
}

abbrev pub key_type_string : ℕ
key_type_string = 0

abbrev pub tags_version_id : ℕ
tags_version_id = 0

-- The loop over the entries of the map.
unfoldable pub encode_tags : GoMap Key Bytes → Buffer → Option Buffer
encode_tags [] b = some b
encode_tags ((k, v) ∷ m) b = do
  b₁ ← write_byte key_type_string b
  b₂ ← write_bytes_with_varint_len (name_of k) b₁
  b₃ ← write_bytes_with_varint_len v b₂
  encode_tags m b₃

unfoldable pub encode_to_full_signature : TagSet → Option Bytes
unfolding encode_tags
encode_to_full_signature ts = do
  let b : Buffer = record { buf = replicate (length ts.m) 0; write_idx = 0; read_idx = 0 }
  b₁ ← write_byte tags_version_id b
  b₂ ← encode_tags ts.m b₁
  bytes b₂

-- The bytes of the entries, one after the other: a type byte, the key's name and the value, the last
-- two behind their lengths.
unfoldable pub signature : GoMap Key Bytes → Bytes
signature [] = []
signature ((k, v) ∷ m) = key_type_string ∷ (encoded (name_of k) ++ (encoded v ++ signature m))

encode_tags-Appends :
    (m : GoMap Key Bytes) (b : Buffer)
    → IsBuffer b
    → (b' : Buffer) × (encode_tags m b ≡ some b') × Appends b (signature m) b'
unfolding encode_tags signature
encode_tags-Appends [] b h =
    (b, refl, record { valid = h; content = sym (append-nil (written b)); same_read = refl })
encode_tags-Appends ((k, v) ∷ m) b h =
    let (b₁, e₁, a₁) = write_byte-Appends key_type_string b h in
    let (b₂, e₂, a₂) = write_bytes-Appends (name_of k) b₁ a₁.valid in
    let (b₃, e₃, a₃) = write_bytes-Appends v b₂ a₂.valid in
    let (b₄, e₄, a₄) = encode_tags-Appends m b₃ a₃.valid in
    let tail = Appends-trans (encoded v) (signature m) a₃ a₄ in
    let named = Appends-trans (encoded (name_of k)) (encoded v ++ signature m) a₂ tail in
    (b₄, rw (e₁, e₂, e₃) e₄, Appends-trans (key_type_string ∷ []) _ a₁ named)

-- Encoding never panics, whatever the tags, and writes the version byte and then the entries.
pub encode-signature :
    (ts : TagSet) → encode_to_full_signature ts ≡ some (tags_version_id ∷ signature ts.m)
unfolding encode_to_full_signature bytes
encode-signature ts =
    let b : Buffer = record { buf = replicate (length ts.m) 0; write_idx = 0; read_idx = 0 } in
    let (b₁, e₁, a₁) = write_byte-Appends tags_version_id b (omega arith) in
    let (b₂, e₂, a₂) = encode_tags-Appends ts.m b₁ a₁.valid in
    let all = Appends-trans (tags_version_id ∷ []) (signature ts.m) a₁ a₂ in
    rw (e₁, e₂, le→leb _ _ a₂.valid) (ap some all.content)
