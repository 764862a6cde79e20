-- ===== src/Tags/Examples/Integers.antt =====
-- A tag of tags/tag_set_codec.go of type uint64, written and read back.
use instrumentation_go.Base.{◌≡◌, refl, [], ◌∷◌, ◌++◌, some, codes, ok, arith}
use instrumentation_go.Tags.Buffer.{Buffer}
use instrumentation_go.Tags.Buffer.Appends.{Appends, encoded}
use instrumentation_go.Tags.Varint.Laws.{groups}
use instrumentation_go.Tags.Codec.Reader.{read_byte, read_bytes_with_varint_len}
use instrumentation_go.Tags.Codec.RoundTrip.{pending}
use instrumentation_go.Tags.Codec.Integers.{key_type_int64, read_uint64, write_tag_uint64}
use instrumentation_go.Tags.Codec.Integers.Laws.{uint64_tag, write_tag_uint64-read}

abbrev empty_buffer : Buffer
empty_buffer = record { buf = []; write_idx = 0; read_idx = 0 }

-- The tag `n` with the value 300, and a byte behind it.
abbrev filled_buffer : Buffer
filled_buffer = record {
  buf = 1 ∷ 1 ∷ 110 ∷ 44 ∷ 1 ∷ 0 ∷ 0 ∷ 0 ∷ 0 ∷ 0 ∷ 0 ∷ 7 ∷ [];
  write_idx = 12;
  read_idx = 0;
}

filled_buffer-pending : pending filled_buffer ≡ uint64_tag (codes "n") 300 ++ 7 ∷ []
unfolding encoded groups
filled_buffer-pending = refl

write_tag_uint64-read_example :
    ((b' : Buffer) × (write_tag_uint64 (codes "n") 300 empty_buffer ≡ some b')
      × Appends empty_buffer (uint64_tag (codes "n") 300) b')
    × ((r₁ r₂ r₃ : Buffer) × (read_byte filled_buffer ≡ ok (key_type_int64, r₁))
        × (read_bytes_with_varint_len r₁ ≡ ok (codes "n", r₂))
        × (read_uint64 r₂ ≡ ok (300, r₃))
        × (pending r₃ ≡ 7 ∷ []))
write_tag_uint64-read_example =
    write_tag_uint64-read (codes "n") 300 empty_buffer filled_buffer (7 ∷ []) (omega arith)
      (omega arith) filled_buffer-pending (omega arith)
