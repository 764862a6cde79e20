-- ===== src/Tags/Values/RoundTrip.antt =====
-- Reading the values string of tags/values_bytes.go back.
use mathlib.Core.List.{Perm}
use native.Mathlib.Numerals.{towards_suc}
use instrumentation_go.Base.{
  ℕ, suc, ◌+◌, ◌-◌, ◌*◌, ◌/◌, ◌%◌, ◌<◌, ◌≤◌, ◌≡◌, ◌≢◌, refl, sym, ap, ◌∙◌, List, [], ◌∷◌, ◌++◌,
  Option, none, some, Bytes, length, take, drop, get_elem?, All, arith, length-append, length-drop,
  length-take, get_elem?-drop, drop-add, take-append,
}
use instrumentation_go.Tags.Key.{Key, key_eq}
use instrumentation_go.Tags.TagSet.{TagSet, Tag}
use instrumentation_go.Tags.Buffer.{Buffer}
use instrumentation_go.Tags.Values.Sort.{
  sort_by_name, IsSorted, sort_by_name-IsSorted, sort_by_name-perm,
}
use instrumentation_go.Tags.Values.{
  read_sized, read_value, add_tag, read_tags, value_or_nil, to_values_string, to_ordered_tags_slice,
}
use instrumentation_go.Tags.Values.Written.{sized, all_sized, to_values_string-sized}

-- What a buffer has still to be read.
abbrev pending : Buffer → Bytes
pending b = drop b.read_idx b.buf

-- An empty value is read as nil.
abbrev nil_or_value : Bytes → Option Bytes
nil_or_value [] = none
nil_or_value (x ∷ xs) = some (x ∷ xs)

-- The tags that a tag set has for some keys, in the order of the keys; an empty value counts as none.
unfoldable pub project : TagSet → List Key → List Tag
project ts [] = []
project ts (k ∷ ks) = add_tag k (nil_or_value (value_or_nil k ts)) (project ts ks)

read_sized_lem :
    (v rest : Bytes) (b : Buffer)
    → pending b ≡ v ++ rest
    → b.read_idx ≤ length b.buf
    → (b' : Buffer) × (read_sized (length v) b ≡ some (nil_or_value v, b'))
      × (pending b' ≡ rest)
      × (b'.read_idx ≤ length b'.buf)
unfolding read_sized
read_sized_lem [] rest b e h = (b, refl, e, h)
read_sized_lem (x ∷ xs) rest b e h =
    let v = x ∷ xs in
    let size : length v + length rest ≡ length b.buf - b.read_idx =
      sym (length-append v rest) ∙ ap length (sym e) ∙ length-drop b.read_idx b.buf in
    let taken : take (length v) (drop b.read_idx b.buf) ≡ v =
      ap (take (length v)) e ∙ take-append v rest in
    (
      record b { read_idx = b.read_idx + length v },
      ground (arith, taken),
      drop-add b.buf b.read_idx (b.read_idx + length v) v rest refl e,
      omega arith,
    )

read_value-sized :
    (v rest : Bytes) (b : Buffer)
    → pending b ≡ sized v ++ rest
    → length v < 65536
    → (b' : Buffer) × (read_value b ≡ some (nil_or_value v, b')) × (pending b' ≡ rest)
unfolding read_value sized
read_value-sized v rest b e h =
    let (lo, e₁) = get_elem?-drop b.buf b.read_idx _ _ e in
    let (hi, e₂) = get_elem?-drop b.buf (suc b.read_idx) _ _ e₁ in
    let size = ap length e₁ ∙ length-append {A = ℕ} ((length v / 256 % 256) ∷ v) rest in
    let len : length v % 256 + 256 * (length v / 256 % 256) ≡ length v = omega arith in
    let (b', r, l, _) =
      read_sized_lem v rest (record b { read_idx = b.read_idx + 2 }) (simp towards_suc e₂)
        (omega (arith, size, length-drop (suc b.read_idx) b.buf)) in
    let hi' : get_elem? b.buf (b.read_idx + 1) ≡ some (length v / 256 % 256) =
      simp towards_suc hi in
    (b', rw (lo, hi', len) r, l)

read_tags-project :
    (ts : TagSet) (ks : List Key) (b : Buffer)
    → pending b ≡ all_sized ts ks
    → All (λ k. length (value_or_nil k ts) < 65536) ks
    → (b' : Buffer) × (read_tags ks b ≡ some (project ts ks, b'))
unfolding read_tags project
read_tags-project ts [] b e h = (b, refl)
read_tags-project ts (k ∷ ks) b e (h, hs) =
    let (b₁, e₁, l) = read_value-sized (value_or_nil k ts) (all_sized ts ks) b e h in
    let (b₂, e₂) = read_tags-project ts ks b₁ l hs in (b₂, rw (e₁, e₂))

-- Reading the values string of a tag set back, for the keys that it was written for, gives the tags that
-- the tag set has for those keys, in the order of their names, if no value has 65536 bytes or more; a tag
-- with an empty value is left out.
pub to_ordered_tags_slice-project :
    (ts : TagSet) (ks : List Key) (s : Bytes)
    → to_values_string ts ks ≡ some s
    → All (λ k. length (value_or_nil k ts) < 65536) ks
    → (tags : List Tag) × (to_ordered_tags_slice s ks ≡ some tags)
      × IsSorted tags
      × Perm tags (project ts ks)
unfolding to_ordered_tags_slice
to_ordered_tags_slice-project ts ks s e h =
    let same : s ≡ all_sized ts ks = cc (to_values_string-sized ts ks) in
    let (b, r) = read_tags-project ts ks (record { buf = s; write_idx = 0; read_idx = 0 }) same h in
    (
      sort_by_name (project ts ks),
      rw r,
      sort_by_name-IsSorted (project ts ks),
      sort_by_name-perm (project ts ks),
    )

read_sized-length :
    (len : ℕ) (b b' : Buffer) (u : Bytes) → read_sized len b ≡ some (some u, b') → length u ≡ len
unfolding read_sized
read_sized-length len b b' u e =
    ground (arith, length-take len (drop b.read_idx b.buf), length-drop b.read_idx b.buf)

-- A value of 65536 bytes or more is never read back: whatever is read where it was written is not it,
-- since the two bytes in front of it hold its length modulo 65536.
pub read_value_long :
    (v rest : Bytes) (b b' : Buffer) (w : Option Bytes)
    → 65536 ≤ length v
    → pending b ≡ sized v ++ rest
    → read_value b ≡ some (w, b')
    → w ≢ some v
unfolding read_value sized
read_value_long v rest b b' w h e r same =
    let (lo, e₁) = get_elem?-drop b.buf b.read_idx _ _ e in
    let (hi, e₂) = get_elem?-drop b.buf (suc b.read_idx) _ _ e₁ in
    let hi' : get_elem? b.buf (b.read_idx + 1) ≡ some (length v / 256 % 256) =
      simp towards_suc hi in
    let r' = rw (lo, hi', same) at r in
    absurd (
      omega (
        arith,
        read_sized-length (length v % 256 + 256 * (length v / 256 % 256))
            (record b { read_idx = b.read_idx + 2 }) b' v r',
      ))
