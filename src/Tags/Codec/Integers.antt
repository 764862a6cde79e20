-- ===== src/Tags/Codec/Integers.antt =====
-- The writers and readers of tags/tag_set_codec.go for integers of a fixed width, and the writers of single
-- tags of every type. `binary.LittleEndian` panics where there are fewer bytes than the width.
pub mod Laws
use instrumentation_go.Base.{
  ℕ, zero, suc, ◌+◌, ◌*◌, ◌/◌, ◌%◌, ◌^◌, ◌<◌, ◌≤◌, ◌≡◌, refl, sym, ap, ◌∙◌, [], ◌∷◌, ◌++◌, Option,
  none, some, Bytes, length, take, drop, leb, le→leb, if◌then◌else◌, Result, ok, panics, arith,
  take-append, length-append, length-drop, drop-add, All,
}
use instrumentation_go.Base.Panic.{◌>>=◌}
use instrumentation_go.Tags.Varint.Laws.{Writes}
use instrumentation_go.Tags.Buffer.{
  Buffer, grow_if_required, copy_from, copy_at, write_byte, write_bytes_with_varint_len,
}
use instrumentation_go.Tags.Buffer.Appends.{
  IsBuffer, written, Appends, Appends-trans, encoded, grow_if_required_lem, copy_from-Writes,
  write_byte-Appends, write_bytes-Appends,
}
use instrumentation_go.Tags.Codec.Encode.{key_type_string}
use instrumentation_go.Tags.Codec.Reader.{Error}
use instrumentation_go.Tags.Codec.RoundTrip.{pending, Leaves}

abbrev pub key_type_int64 : ℕ
key_type_int64 = 1

abbrev pub key_type_true : ℕ
key_type_true = 2

abbrev pub key_type_false : ℕ
key_type_false = 3

-- The bytes of a number, the low ones first, and back.
abbrev pub little_endian : ℕ → ℕ → Bytes
little_endian zero i = []
little_endian (suc n) i = i % 256 ∷ little_endian n (i / 256)

abbrev pub of_little_endian : Bytes → ℕ
of_little_endian [] = 0
of_little_endian (x ∷ xs) = x + 256 * of_little_endian xs

-- `writeUint32` and `writeUint64` differ in the number of bytes, 4 or 8.
unfoldable pub write_fixed : ℕ → ℕ → Buffer → Option Buffer
unfolding grow_if_required copy_from
write_fixed n i b = do
  let g = grow_if_required n b
  buf ←
      (if leb (g.write_idx + n) (length g.buf)
        then copy_from g.buf g.write_idx (little_endian n i)
        else none)
  some (record g { buf = buf; write_idx = g.write_idx + n })

unfoldable pub write_uint32 : ℕ → Buffer → Option Buffer
unfolding write_fixed
write_uint32 = write_fixed 4

unfoldable pub write_uint64 : ℕ → Buffer → Option Buffer
unfolding write_fixed
write_uint64 = write_fixed 8

unfoldable pub read_fixed : ℕ → Buffer → Result Error (ℕ × Buffer)
read_fixed n b =
    if leb (b.read_idx + n) (length b.buf)
    then ok
        (of_little_endian (take n (drop b.read_idx b.buf)), record b { read_idx = b.read_idx + n })
    else panics

unfoldable pub read_uint32 : Buffer → Result Error (ℕ × Buffer)
unfolding read_fixed
read_uint32 = read_fixed 4

unfoldable pub read_uint64 : Buffer → Result Error (ℕ × Buffer)
unfolding read_fixed
read_uint64 = read_fixed 8

unfoldable pub write_tag_string : Bytes → Bytes → Buffer → Option Buffer
unfolding write_byte write_bytes_with_varint_len
write_tag_string k v b = do
  b₁ ← write_byte key_type_string b
  b₂ ← write_bytes_with_varint_len k b₁
  write_bytes_with_varint_len v b₂

unfoldable pub write_tag_uint64 : Bytes → ℕ → Buffer → Option Buffer
unfolding write_byte write_bytes_with_varint_len write_uint64
write_tag_uint64 k i b = do
  b₁ ← write_byte key_type_int64 b
  b₂ ← write_bytes_with_varint_len k b₁
  write_uint64 i b₂

-- `writeTagTrue` and `writeTagFalse`.
unfoldable pub write_tag_true : Bytes → Buffer → Option Buffer
unfolding write_byte write_bytes_with_varint_len
write_tag_true k b = do b₁ ← write_byte key_type_true b; write_bytes_with_varint_len k b₁

unfoldable pub write_tag_false : Bytes → Buffer → Option Buffer
unfolding write_byte write_bytes_with_varint_len
write_tag_false k b = do b₁ ← write_byte key_type_false b; write_bytes_with_varint_len k b₁
