-- ===== src/Tags/Values/Written.antt =====
-- The bytes that tags/values_bytes.go writes for a tag set.
use instrumentation_go.Base.{
  ℕ, ◌+◌, ◌/◌, ◌%◌, ◌≤◌, ◌≡◌, refl, sym, ap, subst, ◌∙◌, true, List, [], ◌∷◌, ◌++◌, some, Bytes,
  length, set, replicate, eqb, le→leb, arith, inl, inr, Bool-cases, append-nil,
}
use instrumentation_go.Tags.Key.{Key, key_eq}
use instrumentation_go.Tags.TagSet.{TagSet}
use instrumentation_go.Tags.Varint.Laws.{Writes, Writes-trans, store_at-Writes}
use instrumentation_go.Tags.Buffer.{Buffer, grow_if_required, copy_at, bytes}
use instrumentation_go.Tags.Buffer.Appends.{
  IsBuffer, written, Appends, Appends-trans, grow_if_required_lem, copy_from-Writes,
}
use instrumentation_go.Tags.Values.{
  store_value, write_value, value_or_nil, write_values, to_values_string,
}

-- A value behind the two low bytes of its length.
unfoldable pub sized : Bytes → Bytes
sized v = (length v % 256) ∷ ((length v / 256 % 256) ∷ v)

abbrev pub all_sized : TagSet → List Key → Bytes
all_sized ts [] = []
all_sized ts (k ∷ ks) = sized (value_or_nil k ts) ++ all_sized ts ks

pub length-sized : (v : Bytes) → length (sized v) ≡ 2 + length v
unfolding sized
length-sized v = omega arith

nil_of_empty : (v : Bytes) → eqb (length v) 0 ≡ true → v ≡ []
nil_of_empty [] h = refl
nil_of_empty (x ∷ xs) h = absurd (ground arith)

store_value-Writes :
    (v : Bytes) (b : Buffer)
    → b.write_idx + (2 + length v) ≤ length b.buf
    → (buf : Bytes) × (w : ℕ) × (store_value v b ≡ some (record b { buf = buf; write_idx = w }))
      × Writes b.buf b.write_idx (sized v) buf w
unfolding store_value sized
store_value-Writes v b room =
    let lo = length v % 256 in
    let hi = length v / 256 % 256 in
    let (e₁, p₁) = store_at-Writes b.buf b.write_idx lo (omega arith) in
    let buf₁ = set b.buf b.write_idx lo in
    let (e₂, p₂) = store_at-Writes buf₁ (b.write_idx + 1) hi (omega (arith, p₁.same_length)) in
    let buf₂ = set buf₁ (b.write_idx + 1) hi in
    let w = b.write_idx + 1 + 1 in
    let header = Writes-trans (lo ∷ []) (hi ∷ []) p₁ p₂ in
    elim (Bool-cases (eqb (length v) 0)) [
      | inl empty ↦ (
        buf₂,
        w,
        rw (e₁, e₂, empty),
        subst (λ t. Writes b.buf b.write_idx (lo ∷ (hi ∷ t)) buf₂ w) (sym (nil_of_empty v empty))
            header,
      )
      | inr full ↦
          let (e₃, p₃) = copy_from-Writes buf₂ w v (omega (arith, header.same_length)) in
          (
            copy_at buf₂ w v,
            w + length v,
            rw (e₁, e₂, full, e₃),
            Writes-trans (lo ∷ (hi ∷ [])) v header p₃,
          )
    ]

write_value-Appends :
    (v : Bytes) (b : Buffer)
    → IsBuffer b
    → (b' : Buffer) × (write_value v b ≡ some b') × Appends b (sized v) b'
unfolding write_value
write_value-Appends v b h =
    let g = grow_if_required (2 + length v) b in
    let (room, same, read, content) = grow_if_required_lem (2 + length v) b h in
    let (buf, w, e, p) = store_value-Writes v g (omega arith) in
    (
      record g { buf = buf; write_idx = w },
      e,
      record {
        valid = omega (arith, p.same_length, p.end, length-sized v);
        content = p.prefix ∙ ap (λ t. t ++ sized v) content;
        same_read = read;
      },
    )

write_values-Appends :
    (ts : TagSet) (ks : List Key) (b : Buffer)
    → IsBuffer b
    → (b' : Buffer) × (write_values ts ks b ≡ some b') × Appends b (all_sized ts ks) b'
unfolding write_values
write_values-Appends ts [] b h =
    (b, refl, record { valid = h; content = sym (append-nil (written b)); same_read = refl })
write_values-Appends ts (k ∷ ks) b h =
    let v = value_or_nil k ts in
    let (b₁, e₁, a₁) = write_value-Appends v b h in
    let (b₂, e₂, a₂) = write_values-Appends ts ks b₁ a₁.valid in
    (b₂, rw e₁ e₂, Appends-trans (sized v) (all_sized ts ks) a₁ a₂)

-- The values string of any tag set for any keys is written without a panic: the values in the order of
-- the keys, nothing for a missing key, each behind the two low bytes of its length.
pub to_values_string-sized :
    (ts : TagSet) (ks : List Key) → to_values_string ts ks ≡ some (all_sized ts ks)
unfolding to_values_string bytes
to_values_string-sized ts ks =
    let b : Buffer = record { buf = replicate (length ks) 0; write_idx = 0; read_idx = 0 } in
    let (b', e, a) = write_values-Appends ts ks b (omega arith) in
    rw (e, le→leb _ _ a.valid) (ap some a.content)
