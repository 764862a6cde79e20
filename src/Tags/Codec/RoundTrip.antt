-- ===== src/Tags/Codec/RoundTrip.antt =====
-- The decoder of tags/tag_set_codec.go on what the encoder wrote.
use native.Mathlib.Numerals.{towards_suc}
use instrumentation_go.Base.{
  ℕ, zero, suc, ◌+◌, ◌-◌, ◌%◌, ◌^◌, ◌<◌, ◌≤◌, ◌≡◌, refl, sym, ap, ◌∙◌, true, false, [], ◌∷◌, ◌++◌,
  some, Bytes, bytes_eq, lt→leb, le→leb, length, drop, eqb, ok, All, arith, length-append,
  length-drop, get_elem?-drop, drop-add, take-append, append_assoc,
}
use instrumentation_go.Base.GoMap.{GoMap, lookup, HasDistinctKeys}
use instrumentation_go.Tags.Key.{KeyString, Key, key_string, foreign, name_of, key_eq}
use instrumentation_go.Tags.KeysManager.{KeysManager, create_key_string, validate_key_name}
use instrumentation_go.Tags.TagSet.{TagSet, new_tag_set, upsert_bytes, upsert_all}
use instrumentation_go.Tags.TagSet.Laws.{upsert_all_append}
use instrumentation_go.Tags.Varint.{uvarint, read}
use instrumentation_go.Tags.Varint.Laws.{groups, length-groups, uvarint-groups}
use instrumentation_go.Tags.Buffer.{Buffer}
use instrumentation_go.Tags.Buffer.Appends.{encoded}
use instrumentation_go.Tags.Codec.Encode.{
  key_type_string, tags_version_id, signature, encode_to_full_signature, encode-signature,
}
use instrumentation_go.Tags.Codec.Reader.{read_byte, slice, read_value, read_bytes_with_varint_len}
use instrumentation_go.Tags.Codec.Decode.{
  read_tag, upsert_created, decode_loop, decode_from_full_signature,
}

-- What a buffer has still to be read.
abbrev pub pending : Buffer → Bytes
pending b = drop b.read_idx b.buf

-- Reading `v` off the front of the buffer leaves `rest`.
pub record Leaves (b : Buffer) (rest : Bytes) (b' : Buffer) : Type 0 where
  pub left : pending b' ≡ rest
  pub same_buf : b'.buf ≡ b.buf

slice-middle :
    (buf : Bytes) (lo hi : ℕ) (v rest : Bytes)
    → drop lo buf ≡ v ++ rest
    → hi ≡ lo + length v
    → hi ≤ length buf
    → length buf < 2 ^ 63
    → slice lo hi buf ≡ ok v
unfolding slice
slice-middle buf lo hi v rest e h l m =
    let n : hi - lo ≡ length v = omega arith in ground (arith, n, take-append v rest)

pub read_byte-Leaves :
    (b : Buffer) (x : ℕ) (rest : Bytes)
    → pending b ≡ x ∷ rest
    → (b' : Buffer) × (read_byte b ≡ ok (x, b')) × Leaves b rest b'
unfolding read_byte
read_byte-Leaves b x rest e =
    let (found, later) = get_elem?-drop b.buf b.read_idx x rest e in
    (
      record b { read_idx = b.read_idx + 1 },
      ground arith,
      record { left = simp towards_suc later; same_buf = refl },
    )

read_value-Leaves :
    (b : Buffer) (start : ℕ) (v rest : Bytes)
    → drop start b.buf ≡ v ++ rest
    → start ≤ length b.buf
    → length b.buf < 2 ^ 63
    → (b' : Buffer) × (read_value b (length v) start ≡ ok (v, b')) × Leaves b rest b'
unfolding read_value
read_value-Leaves b start v rest e l h =
    let size : length v + length rest ≡ length b.buf - start =
      sym (length-append v rest) ∙ ap length (sym e) ∙ length-drop start b.buf in
    let end : (start + length v) % 2 ^ 64 ≡ start + length v = omega arith in
    let sliced = slice-middle b.buf start (start + length v) v rest e refl (omega arith) h in
    (
      record b { read_idx = start + length v },
      rw (end, sliced) (ground arith),
      record { left = drop-add b.buf start (start + length v) v rest refl e; same_buf = refl },
    )

pub read_bytes_counted :
    (b : Buffer) (len n : ℕ)
    → b.read_idx < length b.buf
    → uvarint (pending b) ≡ read len n
    → read_bytes_with_varint_len b ≡ read_value b len (n + b.read_idx)
unfolding read_bytes_with_varint_len
read_bytes_counted b len n h e = rw (lt→leb (length b.buf) b.read_idx h, e)

pub read_bytes-Leaves :
    (b : Buffer) (v rest : Bytes)
    → pending b ≡ encoded v ++ rest
    → length b.buf < 2 ^ 63
    → (b' : Buffer) × (read_bytes_with_varint_len b ≡ ok (v, b')) × Leaves b rest b'
unfolding encoded
read_bytes-Leaves b v rest e h =
    let g = groups 9 (length v) in
    let e₁ : drop b.read_idx b.buf ≡ g ++ (v ++ rest) = e ∙ append_assoc g v rest in
    let size : length g + (length v + length rest) ≡ length b.buf - b.read_idx = omega (
      arith,
      length-append g (v ++ rest),
      length-append v rest,
      ap length e₁,
      length-drop b.read_idx b.buf,
    ) in
    let more : 1 ≤ length g = (length-groups 9 (length v)).0 in
    let start : ℕ = length g + b.read_idx in
    let e₂ : drop start b.buf ≡ v ++ rest =
      drop-add b.buf b.read_idx start g (v ++ rest) (omega arith) e₁ in
    let (b', r, l) = read_value-Leaves b start v rest e₂ (omega arith) h in
    let counted = ap uvarint e₁ ∙ uvarint-groups (length v) (v ++ rest) (omega arith) in
    (b', read_bytes_counted b _ _ (omega arith) counted ∙ r, l)

read_tag-Leaves :
    (b : Buffer) (k v rest : Bytes)
    → pending b ≡ key_type_string ∷ (encoded k ++ (encoded v ++ rest))
    → length b.buf < 2 ^ 63
    → (b' : Buffer) × (read_tag b ≡ ok (k, v, b')) × Leaves b rest b'
unfolding read_tag
read_tag-Leaves b k v rest e h =
    let (b₁, e₁, l₁) = read_byte-Leaves b _ _ e in
    let (b₂, e₂, l₂) =
      read_bytes-Leaves b₁ k (encoded v ++ rest) l₁.left (omega (arith, ap length l₁.same_buf)) in
    let same = l₂.same_buf ∙ l₁.same_buf in
    let (b₃, e₃, l₃) = read_bytes-Leaves b₂ v rest l₂.left (omega (arith, ap length same)) in
    (b₃, rw (e₁, e₂, e₃), record { left = l₃.left; same_buf = l₃.same_buf ∙ same })

-- A string key that the registry holds under its name, which is valid.
abbrev pub IsRegistered : KeysManager → Key × Bytes → Type 0
IsRegistered km (key_string k, v) =
    (validate_key_name k.name ≡ true) × (lookup k.name km.keys ≡ some (key_string k))
IsRegistered km (foreign k, v) = ⊥

create_key_string-registered :
    (k : KeyString) (km : KeysManager) (v : Bytes)
    → IsRegistered km (key_string k, v)
    → create_key_string k.name km ≡ (km, ok k)
unfolding create_key_string
create_key_string-registered k km v (valid, found) = rw (valid, found)

decode_loop_ended :
    (fuel : ℕ) (km : KeysManager) (ts : TagSet) (b : Buffer)
    → pending b ≡ []
    → decode_loop fuel km ts b ≡ (km, ok ts)
unfolding decode_loop
decode_loop_ended zero km ts b e =
    rw (le→leb (length b.buf) b.read_idx (omega (arith, ap length e, length-drop b.read_idx b.buf)))
decode_loop_ended (suc fuel) km ts b e =
    rw (le→leb (length b.buf) b.read_idx (omega (arith, ap length e, length-drop b.read_idx b.buf)))

decode_loop_step :
    (fuel : ℕ) (km : KeysManager) (ts : TagSet) (b : Buffer) {k v : Bytes} {b' : Buffer}
    → b.read_idx < length b.buf
    → read_tag b ≡ ok (k, v, b')
    → decode_loop (suc fuel) km ts b ≡ (
        let (km', created) = create_key_string k km in
        decode_loop fuel km' (upsert_created created v ts) b')
unfolding decode_loop
decode_loop_step fuel km ts b h e = rw (lt→leb (length b.buf) b.read_idx h, e)

decode_loop-signature :
    (m : GoMap Key Bytes) (fuel : ℕ) (km : KeysManager) (ts : TagSet) (b : Buffer)
    → length m ≤ fuel
    → pending b ≡ signature m
    → length b.buf < 2 ^ 63
    → All (IsRegistered km) m
    → decode_loop fuel km ts b ≡ (km, ok (upsert_all m ts))
unfolding signature upsert_all upsert_created
decode_loop-signature [] fuel km ts b f e h r = decode_loop_ended fuel km ts b e
decode_loop-signature ((foreign k, v) ∷ m) fuel km ts b f e h (r, rs) = absurd r
decode_loop-signature ((key_string k, v) ∷ m) zero km ts b f e h r = absurd (omega arith)
decode_loop-signature ((key_string k, v) ∷ m) (suc fuel) km ts b f e h (r, rs) =
    let (b', e', l) = read_tag-Leaves b k.name v (signature m) e h in
    let unread : b.read_idx < length b.buf =
      omega (arith, ap length e, length-drop b.read_idx b.buf) in
    let ih =
      decode_loop-signature m fuel km (upsert_bytes (key_string k) v ts) b' (omega arith) l.left
        (omega (arith, ap length l.same_buf)) rs in
    decode_loop_step fuel km ts b unread e'
    ∙ rw (create_key_string-registered k km v r, upsert_created) ih

length-signature : (m : GoMap Key Bytes) → length m ≤ length (signature m)
unfolding signature
length-signature [] = omega arith
length-signature ((k, v) ∷ m) = omega (
  arith,
  length-append (encoded (name_of k)) (encoded v ++ signature m),
  length-append (encoded v) (signature m),
  length-signature m,
)

decode-signature :
    (m : GoMap Key Bytes) (km : KeysManager)
    → suc (length (signature m)) < 2 ^ 63
    → All (IsRegistered km) m
    → decode_from_full_signature (tags_version_id ∷ signature m) km
      ≡ (km, ok (upsert_all m new_tag_set))
unfolding decode_from_full_signature read_byte
decode-signature m km h r =
    let nonempty : eqb (suc (length (signature m))) 0 ≡ false = ground arith in
    rw nonempty (
      decode_loop-signature m (suc (length (signature m))) km new_tag_set
        (record { buf = tags_version_id ∷ signature m; write_idx = 0; read_idx = 1 })
        (omega (arith, length-signature m)) refl h r)

-- Decoding what was encoded gives back the tag set and leaves the registry as it was, if the keys of
-- the tag set are distinct and registered, and the encoding is shorter than 2 ^ 63 bytes, as any slice is.
pub decode-encode :
    (ts : TagSet) (km : KeysManager) (bytes : Bytes)
    → encode_to_full_signature ts ≡ some bytes
    → length bytes < 2 ^ 63
    → HasDistinctKeys ts.m
    → All (IsRegistered km) ts.m
    → decode_from_full_signature bytes km ≡ (km, ok ts)
unfolding new_tag_set
decode-encode ts km bytes e h d r =
    let same : bytes ≡ tags_version_id ∷ signature ts.m = cc (encode-signature ts) in
    rw same (
      decode-signature ts.m km (omega (arith, ap length same)) r
      ∙ rw (upsert_all_append ts.m new_tag_set d))
