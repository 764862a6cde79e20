-- ===== src/Tags/Buffer.antt =====
-- The growing buffer of package tags: `encoderGRPC` of tags/tag_set_codec.go and `valuesBytes` of
-- tags/values_bytes.go, two structs with the same fields and the same method `growIfRequired`.
pub mod Appends
use instrumentation_go.Base.{
  ℕ, zero, suc, ◌+◌, ◌*◌, ◌/◌, ◌%◌, ◌^◌, List, [], ◌∷◌, Option, none, some, Bytes, length, set,
  take, replicate, ltb, leb, if◌then◌else◌,
}
use instrumentation_go.Base.Panic.{◌>>=◌}
use instrumentation_go.Tags.Varint.{store_at, put_uvarint}

pub record Buffer : Type 0 where
  pub buf : Bytes
  pub write_idx : ℕ
  pub read_idx : ℕ

-- `copy(dst[i:], src)`, which copies as much as there is room for. The slice expression panics where
-- `i` lies behind the end.
unfoldable pub copy_at : Bytes → ℕ → Bytes → Bytes
copy_at [] i src = []
copy_at (x ∷ xs) zero [] = x ∷ xs
copy_at (x ∷ xs) zero (s ∷ src) = s ∷ copy_at xs zero src
copy_at (x ∷ xs) (suc i) src = x ∷ copy_at xs i src

unfoldable pub copy_from : Bytes → ℕ → Bytes → Option Bytes
unfolding copy_at
copy_from dst i src = if leb i (length dst) then some (copy_at dst i src) else none

-- `len(buf) - writeIdx < expected`, written without the subtraction.
unfoldable pub grow_if_required : ℕ → Buffer → Buffer
unfolding copy_at
grow_if_required expected b =
    if ltb (length b.buf) (b.write_idx + expected)
    then record b { buf = copy_at (replicate (2 * (length b.buf + 1) + expected) 0) 0 b.buf }
    else b

unfoldable pub write_byte : ℕ → Buffer → Option Buffer
unfolding grow_if_required store_at
write_byte v b = do
  let g = grow_if_required 1 b
  buf ← store_at g.buf g.write_idx v
  some (record g { buf = buf; write_idx = g.write_idx + 1 })

abbrev pub max_varint_len64 : ℕ
max_varint_len64 = 10

-- `writeStringWithVarintLen` and `writeBytesWithVarintLen` have one body.
unfoldable pub write_bytes_with_varint_len : Bytes → Buffer → Option Buffer
unfolding grow_if_required put_uvarint copy_from
write_bytes_with_varint_len bytes b = do
  let g = grow_if_required (max_varint_len64 + length bytes) b
  (buf, i) ← put_uvarint g.buf g.write_idx (length bytes)
  buf' ← copy_from buf i bytes
  some (record g { buf = buf'; write_idx = i + length bytes })

-- `buf[:writeIdx]`, within the capacity of the slice.
unfoldable pub bytes : Buffer → Option Bytes
bytes b = if leb b.write_idx (length b.buf) then some (take b.write_idx b.buf) else none
