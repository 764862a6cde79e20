-- ===== src/Tags/Codec/Safety.antt =====
-- The decoder of tags/tag_set_codec.go on arbitrary bytes.
use instrumentation_go.Base.{
  ℕ, zero, suc, ◌+◌, ◌^◌, ◌<◌, ◌≤◌, ◌≡◌, refl, ap, ◌∙◌, Bool, true, false, le→leb, Bytes, length,
  drop, eqb, if◌then◌else◌, Result, ok, err, panics, out_of_fuel, ◌>>=◌, arith, ◌≢◌, ◌↔◌, ◌⊎◌, inl,
  inr, Bool-cases, length-drop,
}
use instrumentation_go.Tags.KeysManager.{KeysManager}
use instrumentation_go.Tags.TagSet.{TagSet, new_tag_set}
use instrumentation_go.Tags.Varint.{Uvarint, read, short, overflow, uvarint}
use instrumentation_go.Tags.Varint.Laws.{uvarint_count}
use instrumentation_go.Tags.Buffer.{Buffer}
use instrumentation_go.Tags.Codec.Encode.{key_type_string}
use instrumentation_go.Tags.Codec.Reader.{
  Error, invalid_key_type, read_ended, read_byte, read_value, read_bytes_with_varint_len,
}
use instrumentation_go.Tags.Codec.Decode.{
  read_name_and_value, read_tag, upsert_tag, decode_loop, decode_tags, decode_from_full_signature,
}
use instrumentation_go.Tags.Codec.RoundTrip.{pending, read_bytes_counted}

read_value_panics :
    (b : Buffer) (len start : ℕ)
    → start ≤ length b.buf
    → length b.buf < 2 ^ 62
    → len < 2 ^ 64
    → (read_value b len start ≡ panics) ↔ (2 ^ 63 ≤ start + len)
unfolding read_value
read_value_panics b len start l h u = ground arith

-- Where a buffer of less than 2 ^ 62 bytes still has bytes to read and a length is read from them, reading
-- the value behind it panics exactly if the index of the value's end does not fit into a Go int.
pub read_bytes_panics :
    (b : Buffer) (len n : ℕ)
    → b.read_idx < length b.buf
    → length b.buf < 2 ^ 62
    → uvarint (pending b) ≡ read len n
    → (read_bytes_with_varint_len b ≡ panics) ↔ (2 ^ 63 ≤ n + b.read_idx + len)
read_bytes_panics b len n h s e =
    let (positive, within, fits) = uvarint_count (pending b) len n e in
    rw (read_bytes_counted b len n h e) (
      read_value_panics b len (n + b.read_idx) (omega (arith, length-drop b.read_idx b.buf)) s fits)

-- A reading that succeeds moves the read index on by at least `k`, within the same bytes.
abbrev Takes : {R : Type 0} → (R → Buffer) → Buffer → ℕ → Result Error R → Type 0
Takes buffer b k (ok r) = ((buffer r).buf ≡ b.buf) × (b.read_idx + k ≤ (buffer r).read_idx)
Takes buffer b k (err e) = Unit {0}
Takes buffer b k panics = Unit {0}
Takes buffer b k out_of_fuel = ⊥

read_byte-Takes : (b : Buffer) → Takes (λ r. r.1) b 1 (read_byte b)
unfolding read_byte
read_byte-Takes b = ground arith

read_value-Takes :
    (b : Buffer) (len start : ℕ)
    → b.read_idx ≤ start
    → Takes (λ r. r.1) b 0 (read_value b len start)
unfolding read_value
read_value-Takes b len start h = ground arith

Uvarint-cases : (u : Uvarint) → ((len n : ℕ) × (u ≡ read len n)) ⊎ ((u ≡ short) ⊎ (u ≡ overflow))
Uvarint-cases (read len n) = inl (len, n, refl)
Uvarint-cases short = inr (inl refl)
Uvarint-cases overflow = inr (inr refl)

read_bytes-Takes : (b : Buffer) → Takes (λ r. r.1) b 0 (read_bytes_with_varint_len b)
unfolding read_bytes_with_varint_len
read_bytes-Takes b = elim (Uvarint-cases (uvarint (drop b.read_idx b.buf))) [
  | inl (len, n, e) ↦
      rw (e, read_bytes_with_varint_len) (ground (arith, read_value-Takes b len (n + b.read_idx)))
  | inr e ↦ ground arith
]

-- A reading that goes on from the buffer of another.
Takes-bind :
    {R S : Type 0} (at_r : R → Buffer) (at_s : S → Buffer) (b : Buffer) (j k : ℕ)
    (m : Result Error R) (f : R → Result Error S)
    → k ≤ j
    → Takes at_r b j m
    → ((r : R) → Takes at_s (at_r r) 0 (f r))
    → Takes at_s b k (m >>= f)
Takes-bind {S = S} at_r at_s b j k (ok r) f h t g = go (f r) (g r)
  where
    go : (x : Result Error S) → Takes at_s (at_r r) 0 x → Takes at_s b k x
    go (ok s) u = (u.0 ∙ t.0, omega arith)
    go (err e) u = tt
    go panics u = tt
    go out_of_fuel u = u
Takes-bind at_r at_s b j k (err e) f h t g = tt
Takes-bind at_r at_s b j k panics f h t g = tt
Takes-bind at_r at_s b j k out_of_fuel f h t g = t

read_name_and_value-Takes : (b : Buffer) → Takes (λ r. r.2) b 0 (read_name_and_value b)
unfolding read_name_and_value
read_name_and_value-Takes b =
    Takes-bind (λ r. r.1) (λ r. r.2) b 0 0 (read_bytes_with_varint_len b) _ (omega arith)
      (read_bytes-Takes b)
      λ r.
        Takes-bind (λ q. q.1) (λ q. q.2) r.1 0 0 (read_bytes_with_varint_len r.1) _ (omega arith)
          (read_bytes-Takes r.1) λ q. (refl, omega arith)

read_tag-Takes : (b : Buffer) → Takes (λ r. r.2) b 1 (read_tag b)
unfolding read_tag
read_tag-Takes b =
    Takes-bind (λ r. r.1) (λ r. r.2) b 1 1 (read_byte b) _ (omega arith) (read_byte-Takes b)
      λ r. go (eqb r.0 key_type_string) r
  where
    go :
        (t : Bool) (r : ℕ × Buffer)
        → Takes (λ r. r.2) r.1 0 (if t then read_name_and_value r.1 else err (invalid_key_type r.0))
    go true r = read_name_and_value-Takes r.1
    go false r = tt

decode_loop-ne-out_of_fuel :
    (fuel : ℕ) (km : KeysManager) (ts : TagSet) (b : Buffer)
    → length b.buf ≤ fuel + b.read_idx
    → (decode_loop fuel km ts b).1 ≢ out_of_fuel
unfolding decode_loop
decode_loop-ne-out_of_fuel zero km ts b h =
    rw (le→leb (length b.buf) b.read_idx (omega arith)) λ e. cc
decode_loop-ne-out_of_fuel (suc fuel) km ts b h = elim (Bool-cases (read_ended b)) [
  | inl ended ↦ rw ended λ e. cc
  | inr more ↦ rw more (go (read_tag b) (read_tag-Takes b) (decode_loop-ne-out_of_fuel fuel))
]
  where
    go :
        (r : Result Error (Bytes × Bytes × Buffer))
        → Takes (λ r. r.2) b 1 r
        → ((km : KeysManager) (ts : TagSet) (b : Buffer)
            → length b.buf ≤ fuel + b.read_idx
            → (decode_loop fuel km ts b).1 ≢ out_of_fuel)
        → (upsert_tag (decode_loop fuel) km ts r).1 ≢ out_of_fuel
    go (ok (k, v, b')) t ih = ih _ _ b' (omega (arith, ap length t.0))
    go (err x) t ih = λ e. cc
    go panics t ih = λ e. cc
    go out_of_fuel t ih = absurd t

-- Decoding ends on every input: no input keeps the loop going for more rounds than it has bytes.
pub decode-ne-out_of_fuel :
    (bytes : Bytes) (km : KeysManager) → (decode_from_full_signature bytes km).1 ≢ out_of_fuel
unfolding decode_from_full_signature
decode-ne-out_of_fuel bytes km = elim (Bool-cases (eqb (length bytes) 0)) [
  | inl empty ↦ rw empty λ e. cc
  | inr full ↦ rw full (go (read_byte b) (read_byte-Takes b))
]
  where
    b : Buffer
    b = record { buf = bytes; write_idx = 0; read_idx = 0 }

    go :
        (r : Result Error (ℕ × Buffer))
        → Takes (λ r. r.1) b 1 r
        → (decode_tags km (length bytes) r).1 ≢ out_of_fuel
    go (ok (version, b')) t =
        ground (arith, ap length t.0, decode_loop-ne-out_of_fuel (length bytes) km new_tag_set b')
    go (err x) t = λ e. cc
    go panics t = λ e. cc
    go out_of_fuel t = absurd t
