-- ===== src/Tags/Codec/Integers/Laws.antt =====
-- What the writers of tags/tag_set_codec.go for integers leave, its readers find.
use instrumentation_go.Base.{
  ℕ, zero, suc, ◌+◌, ◌*◌, ◌/◌, ◌^◌, ◌<◌, ◌≤◌, ◌≡◌, refl, sym, ap, ◌∙◌, [], ◌∷◌, ◌++◌, some, Bytes,
  length, take, drop, le→leb, ok, arith, take-append, length-append, length-drop, drop-add,
  append_assoc,
}
use instrumentation_go.Tags.Buffer.{Buffer, grow_if_required, copy_at}
use instrumentation_go.Tags.Buffer.Appends.{
  IsBuffer, Appends, Appends-trans, encoded, grow_if_required_lem, copy_from-Writes,
  write_byte-Appends, write_bytes-Appends,
}
use instrumentation_go.Tags.Codec.Reader.{read_byte, read_bytes_with_varint_len}
use instrumentation_go.Tags.Codec.RoundTrip.{pending, Leaves, read_byte-Leaves, read_bytes-Leaves}
use instrumentation_go.Tags.Codec.Integers.{
  key_type_int64, little_endian, of_little_endian, write_fixed, write_uint64, read_fixed,
  read_uint64, write_tag_uint64,
}

-- The numbers of n bytes are those below this.
abbrev limit : ℕ → ℕ
limit zero = 1
limit (suc n) = 256 * limit n

length-little_endian : (n i : ℕ) → length (little_endian n i) ≡ n
length-little_endian zero i = refl
length-little_endian (suc n) i = ap suc (length-little_endian n (i / 256))

of_little_endian-little_endian : (n i : ℕ) → i < limit n → of_little_endian (little_endian n i) ≡ i
of_little_endian-little_endian zero i h = omega arith
of_little_endian-little_endian (suc n) i h =
    omega (arith, of_little_endian-little_endian n (i / 256) (omega arith))

write_fixed-Appends :
    (n i : ℕ) (b : Buffer)
    → IsBuffer b
    → (b' : Buffer) × (write_fixed n i b ≡ some b') × Appends b (little_endian n i) b'
unfolding write_fixed
write_fixed-Appends n i b h =
    let g = grow_if_required n b in
    let (room, same, read, content) = grow_if_required_lem n b h in
    let size = length-little_endian n i in
    let (e, w) = copy_from-Writes g.buf g.write_idx (little_endian n i) (omega (arith, size)) in
    (
      record g { buf = copy_at g.buf g.write_idx (little_endian n i); write_idx = g.write_idx + n },
      rw (le→leb (g.write_idx + n) (length g.buf) (omega arith), e) refl,
      record {
        valid = omega (arith, w.same_length);
        content =
            ap (λ j. take j (copy_at g.buf g.write_idx (little_endian n i)))
              (ap (λ j. g.write_idx + j) (sym size))
            ∙ (w.prefix ∙ ap (λ t. t ++ little_endian n i) content);
        same_read = read;
      },
    )

read_fixed-Leaves :
    (n i : ℕ) (b : Buffer) (rest : Bytes)
    → i < limit n
    → 1 ≤ n
    → pending b ≡ little_endian n i ++ rest
    → (b' : Buffer) × (read_fixed n b ≡ ok (i, b')) × Leaves b rest b'
unfolding read_fixed
read_fixed-Leaves n i b rest h k e =
    let size = length-little_endian n i in
    let room : b.read_idx + n ≤ length b.buf = omega (
      arith,
      size,
      ap length e,
      length-append (little_endian n i) rest,
      length-drop b.read_idx b.buf,
    ) in
    let value : of_little_endian (take n (drop b.read_idx b.buf)) ≡ i =
      ap (λ t. of_little_endian (take n t)) e
      ∙ (ap (λ j. of_little_endian (take j (little_endian n i ++ rest))) (sym size)
          ∙ (ap of_little_endian (take-append (little_endian n i) rest)
              ∙ of_little_endian-little_endian n i h)) in
    (
      record b { read_idx = b.read_idx + n },
      rw (le→leb (b.read_idx + n) (length b.buf) room)
          (ap (λ x. ok (x, record b { read_idx = b.read_idx + n })) value),
      record {
        left =
            drop-add b.buf b.read_idx (b.read_idx + n) (little_endian n i) rest
              (omega (arith, size)) e;
        same_buf = refl;
      },
    )

-- The bytes of a tag of type uint64: its type, the name behind its length, and eight bytes.
abbrev pub uint64_tag : Bytes → ℕ → Bytes
uint64_tag k i = key_type_int64 ∷ (encoded k ++ little_endian 8 i)

-- Writing a tag of type uint64 to any buffer does not panic and only appends its bytes. Where a reader has
-- these bytes before it, in a buffer of less than 2 ^ 63 bytes, it reads back the type, the name and the
-- number, in this order, and has the rest before it.
pub write_tag_uint64-read :
    (k : Bytes) (i : ℕ) (b r : Buffer) (rest : Bytes)
    → IsBuffer b
    → i < 2 ^ 64
    → pending r ≡ uint64_tag k i ++ rest
    → length r.buf < 2 ^ 63
    → ((b' : Buffer) × (write_tag_uint64 k i b ≡ some b') × Appends b (uint64_tag k i) b')
      × ((r₁ r₂ r₃ : Buffer) × (read_byte r ≡ ok (key_type_int64, r₁))
          × (read_bytes_with_varint_len r₁ ≡ ok (k, r₂))
          × (read_uint64 r₂ ≡ ok (i, r₃))
          × (pending r₃ ≡ rest))
unfolding write_tag_uint64 write_uint64 read_uint64
write_tag_uint64-read k i b r rest h small e short =
    let (b₁, w₁, a₁) = write_byte-Appends key_type_int64 b h in
    let (b₂, w₂, a₂) = write_bytes-Appends k b₁ a₁.valid in
    let (b₃, w₃, a₃) = write_fixed-Appends 8 i b₂ a₂.valid in
    let (r₁, e₁, l₁) =
      read_byte-Leaves r key_type_int64 ((encoded k ++ little_endian 8 i) ++ rest) e in
    let (r₂, e₂, l₂) =
      read_bytes-Leaves r₁ k (little_endian 8 i ++ rest)
        (l₁.left ∙ append_assoc (encoded k) (little_endian 8 i) rest)
        (omega (arith, ap length l₁.same_buf)) in
    let (r₃, e₃, l₃) = read_fixed-Leaves 8 i r₂ rest (omega arith) (omega arith) l₂.left in
    (
      (
        b₃,
        rw (w₁, w₂) w₃,
        Appends-trans (key_type_int64 ∷ []) (encoded k ++ little_endian 8 i) a₁
            (Appends-trans (encoded k) (little_endian 8 i) a₂ a₃),
      ),
      (r₁, r₂, r₃, e₁, e₂, e₃, l₃.left),
    )
