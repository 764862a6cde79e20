-- ===== src/Tags/Buffer/Appends.antt =====
-- The growing buffer of tags/tag_set_codec.go as a list of bytes that is only appended to.
use instrumentation_go.Base.{
  ℕ, zero, suc, ◌+◌, ◌*◌, ◌≤◌, ◌≡◌, refl, ap, ◌∙◌, [], ◌∷◌, ◌++◌, some, Bytes, length, set, take,
  replicate, arith, length-replicate, append_assoc,
}
use instrumentation_go.Tags.Varint.Laws.{
  groups, length-groups, Writes, Writes-trans, put_uvarint_loop-Writes, store_at-Writes,
}
use instrumentation_go.Tags.Buffer.{
  Buffer, copy_at, copy_from, grow_if_required, write_byte, write_bytes_with_varint_len,
}

pub length-copy_at : (dst : Bytes) (i : ℕ) (src : Bytes) → length (copy_at dst i src) ≡ length dst
unfolding copy_at
length-copy_at [] i src = refl
length-copy_at (x ∷ xs) zero [] = refl
length-copy_at (x ∷ xs) zero (s ∷ src) = ap suc (length-copy_at xs zero src)
length-copy_at (x ∷ xs) (suc i) src = ap suc (length-copy_at xs i src)

take-copy_at :
    (dst : Bytes) (i j : ℕ) (src : Bytes)
    → j ≡ i + length src
    → j ≤ length dst
    → take j (copy_at dst i src) ≡ take i dst ++ src
unfolding copy_at
take-copy_at dst zero zero [] e h = refl
take-copy_at dst zero zero (s ∷ src) e h = absurd (omega arith)
take-copy_at dst (suc i) zero src e h = absurd (omega arith)
take-copy_at [] i (suc j) src e h = absurd (omega arith)
take-copy_at (x ∷ xs) zero (suc j) [] e h = absurd (omega arith)
take-copy_at (x ∷ xs) zero (suc j) (s ∷ src) e h =
    ap (λ t. s ∷ t) (take-copy_at xs zero j src (omega arith) (omega arith))
take-copy_at (x ∷ xs) (suc i) (suc j) src e h =
    ap (λ t. x ∷ t) (take-copy_at xs i j src (omega arith) (omega arith))

pub copy_from-Writes :
    (dst : Bytes) (i : ℕ) (src : Bytes)
    → i + length src ≤ length dst
    → (copy_from dst i src ≡ some (copy_at dst i src))
      × Writes dst i src (copy_at dst i src) (i + length src)
unfolding copy_from
copy_from-Writes dst i src h = (
  ground arith,
  record {
    prefix = take-copy_at dst i (i + length src) src refl h;
    same_length = length-copy_at dst i src;
    end = refl;
  },
)

take-copy_at_zero :
    (dst src : Bytes) (n : ℕ)
    → n ≤ length src
    → n ≤ length dst
    → take n (copy_at dst 0 src) ≡ take n src
unfolding copy_at
take-copy_at_zero dst src zero h k = refl
take-copy_at_zero [] src (suc n) h k = absurd (omega arith)
take-copy_at_zero (x ∷ xs) [] (suc n) h k = absurd (omega arith)
take-copy_at_zero (x ∷ xs) (s ∷ src) (suc n) h k =
    ap (λ t. s ∷ t) (take-copy_at_zero xs src n (omega arith) (omega arith))

-- A buffer whose write index lies within it.
abbrev pub IsBuffer : Buffer → Type 0
IsBuffer b = b.write_idx ≤ length b.buf

abbrev pub written : Buffer → Bytes
written b = take b.write_idx b.buf

-- What was written stays, the bytes `xs` follow it, and the reader has not moved.
pub record Appends (b : Buffer) (xs : Bytes) (b' : Buffer) : Type 0 where
  pub valid : IsBuffer b'
  pub content : written b' ≡ written b ++ xs
  pub same_read : b'.read_idx ≡ b.read_idx

pub Appends-trans :
    {a b c : Buffer} (xs ys : Bytes) → Appends a xs b → Appends b ys c → Appends a (xs ++ ys) c
Appends-trans {a} xs ys p q = record {
  valid = q.valid;
  content = q.content ∙ ap (λ t. t ++ ys) p.content ∙ append_assoc (written a) xs ys;
  same_read = q.same_read ∙ p.same_read;
}

-- After growing there is room for what is expected, and the written bytes are the same.
pub grow_if_required_lem :
    (n : ℕ) (b : Buffer)
    → IsBuffer b
    → let g = grow_if_required n b in
      (b.write_idx + n ≤ length g.buf)
      × (g.write_idx ≡ b.write_idx)
      × (g.read_idx ≡ b.read_idx)
      × (written g ≡ written b)
unfolding grow_if_required
grow_if_required_lem n b h =
    let room : ℕ = 2 * (length b.buf + 1) + n in
    let l : length (copy_at (replicate room 0) 0 b.buf) ≡ room =
      length-copy_at _ 0 b.buf ∙ length-replicate {A = ℕ} room 0 in
    ground (
      arith,
      l,
      length-replicate {A = ℕ} room 0,
      take-copy_at_zero (replicate room 0) b.buf b.write_idx,
    )

-- Writing a byte to a buffer, however full, does not panic and appends the byte to what was written.
pub write_byte-Appends :
    (v : ℕ) (b : Buffer)
    → IsBuffer b
    → (b' : Buffer) × (write_byte v b ≡ some b') × Appends b (v ∷ []) b'
unfolding write_byte
write_byte-Appends v b h =
    let g = grow_if_required 1 b in
    let (room, same, read, content) = grow_if_required_lem 1 b h in
    let (e, w) = store_at-Writes g.buf g.write_idx v (omega arith) in
    (
      record g { buf = set g.buf g.write_idx v; write_idx = g.write_idx + 1 },
      rw e,
      record {
        valid = omega (arith, w.same_length);
        content = w.prefix ∙ ap (λ t. t ++ v ∷ []) content;
        same_read = read;
      },
    )

-- The bytes behind their length.
unfoldable pub encoded : Bytes → Bytes
encoded xs = groups 9 (length xs) ++ xs

-- Writing bytes to a buffer, however full, does not panic: it appends their length as a varint and then
-- the bytes, keeps what was written before, and does not move the reader.
pub write_bytes-Appends :
    (xs : Bytes) (b : Buffer)
    → IsBuffer b
    → (b' : Buffer) × (write_bytes_with_varint_len xs b ≡ some b') × Appends b (encoded xs) b'
unfolding write_bytes_with_varint_len encoded
write_bytes-Appends xs b h =
    let g = grow_if_required (10 + length xs) b in
    let (room, same, read, content) = grow_if_required_lem (10 + length xs) b h in
    let (buf, i, e, w) = put_uvarint_loop-Writes 9 g.buf g.write_idx (length xs) (omega arith) in
    let (e', w') =
      copy_from-Writes buf i xs
        (omega (arith, w.end, w.same_length, length-groups 9 (length xs))) in
    let all = Writes-trans (groups 9 (length xs)) xs w w' in
    (
      record g { buf = copy_at buf i xs; write_idx = i + length xs },
      rw (e, e'),
      record {
        valid = omega (arith, all.same_length, w.end, length-groups 9 (length xs));
        content = all.prefix ∙ ap (λ t. t ++ (groups 9 (length xs) ++ xs)) content;
        same_read = read;
      },
    )
