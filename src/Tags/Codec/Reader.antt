-- ===== src/Tags/Codec/Reader.antt =====
-- The reading half of `encoderGRPC` in tags/tag_set_codec.go.
use instrumentation_go.Base.{
  ℕ, ◌+◌, ◌-◌, ◌%◌, ◌^◌, Bool, not, ◌&&◌, ◌||◌, none, some, Bytes, length, take, drop, get_elem?,
  ltb, leb, if◌then◌else◌, Result, ok, err, panics, ◌>>=◌,
}
use instrumentation_go.Tags.Varint.{read, short, overflow, uvarint}
use instrumentation_go.Tags.Buffer.{Buffer}

pub data Error : Type 0 where
  unexpected_end malformed_encoding : Error
  unsupported_version invalid_key_type : ℕ → Error

unfoldable pub read_ended : Buffer → Bool
read_ended b = leb (length b.buf) b.read_idx

unfoldable pub read_byte : Buffer → Result Error (ℕ × Buffer)
read_byte b = elim (get_elem? b.buf b.read_idx) [
  | none ↦ panics
  | some v ↦ ok (v, record b { read_idx = b.read_idx + 1 })
]

-- A Go int as its 64-bit pattern: below 2 ^ 63 it is itself, and from there on negative.
abbrev pub is_negative : ℕ → Bool
is_negative w = leb (2 ^ 63) w

-- `buf[lo:hi]` for a nonnegative `lo`.
unfoldable pub slice : ℕ → ℕ → Bytes → Result Error Bytes
slice lo hi buf =
    if is_negative hi || (ltb hi lo || ltb (length buf) hi)
    then panics
    else ok (take (hi - lo) (drop lo buf))

-- The part of `readBytesWithVarintLen` behind the length. `length < 0` never holds of a uint64.
unfoldable pub read_value : Buffer → ℕ → ℕ → Result Error (Bytes × Buffer)
unfolding slice
read_value b len start =
    let value_end = (start + len) % 2 ^ 64 in
    if not (is_negative value_end) && ltb (length b.buf) value_end
    then err malformed_encoding
    else (do v ← slice start value_end b.buf; ok (v, record b { read_idx = value_end }))

unfoldable pub read_bytes_with_varint_len : Buffer → Result Error (Bytes × Buffer)
unfolding read_ended read_value
read_bytes_with_varint_len b =
    if read_ended b then err unexpected_end else (elim (uvarint (drop b.read_idx b.buf)) [
      | read len n ↦ read_value b len (n + b.read_idx)
      | short ↦ err unexpected_end
      | overflow ↦ err unexpected_end
    ])
