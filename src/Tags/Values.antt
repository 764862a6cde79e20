-- ===== src/Tags/Values.antt =====
-- tags/values_bytes.go: the values of a tag set for given keys as one string, which the views use as
-- the signature of a row. Lengths are copied through an unsafe pointer: two bytes, the low one first,
-- as on a little-endian machine. A read behind the end of the slice is counted as a panic.
pub mod Sort
pub mod Written
pub mod RoundTrip
use instrumentation_go.Base.{
  ℕ, zero, suc, ◌+◌, ◌-◌, ◌*◌, ◌/◌, ◌%◌, ◌^◌, Bool, true, false, List, [], ◌∷◌, Option, none, some,
  Bytes, length, take, drop, replicate, get_elem?, leb, eqb, if◌then◌else◌,
}
use instrumentation_go.Base.Panic.{◌>>=◌}
use instrumentation_go.Base.GoMap.{GoMap, lookup, insert}
use instrumentation_go.Tags.Key.{Key, key_eq}
use instrumentation_go.Tags.TagSet.{TagSet, Tag}
use instrumentation_go.Tags.Varint.{store_at}
use instrumentation_go.Tags.Buffer.{Buffer, grow_if_required, copy_from, bytes}
use Sort.{sort_by_name}

abbrev pub size_of_uint16 : ℕ
size_of_uint16 = 2

-- The part of `writeValue` behind the growing of the buffer.
unfoldable pub store_value : Bytes → Buffer → Option Buffer
store_value v b = do
  let w₁ = b.write_idx + 1
  let w₂ = w₁ + 1
  buf₁ ← store_at b.buf b.write_idx (length v % 256)
  buf₂ ← store_at buf₁ w₁ (length v / 256 % 256)
  let stored : Option Buffer =
      (copy_from buf₂ w₂ v >>= λ buf₃. some (record b { buf = buf₃; write_idx = w₂ + length v }))
  if eqb (length v) 0 then some (record b { buf = buf₂; write_idx = w₂ }) else stored

unfoldable pub write_value : Bytes → Buffer → Option Buffer
write_value v b = store_value v (grow_if_required (size_of_uint16 + length v) b)

-- The value behind a length; `none` inside the result is a nil slice.
unfoldable pub read_sized : ℕ → Buffer → Option (Option Bytes × Buffer)
read_sized len b =
    if eqb len 0
    then some (none, b)
    else (if leb (b.read_idx + len) (length b.buf)
        then some
            (some (take len (drop b.read_idx b.buf)), record b { read_idx = b.read_idx + len })
        else none)

unfoldable pub read_value : Buffer → Option (Option Bytes × Buffer)
read_value b = do
  lo ← get_elem? b.buf b.read_idx
  hi ← get_elem? b.buf (b.read_idx + 1)
  read_sized (lo + 256 * hi) (record b { read_idx = b.read_idx + size_of_uint16 })

abbrev pub add_tag : Key → Option Bytes → List Tag → List Tag
add_tag k none tags = tags
add_tag k (some v) tags = record { key = k; value = v } ∷ tags

-- The loop of `toSlice`, which appends each tag to those before it.
unfoldable pub read_tags : List Key → Buffer → Option (List Tag × Buffer)
read_tags [] b = some ([], b)
read_tags (k ∷ ks) b = do
  (v, b₁) ← read_value b
  (tags, b₂) ← read_tags ks b₁
  some (add_tag k v tags, b₂)

unfoldable pub to_slice : List Key → Buffer → Option (List Tag × Buffer)
unfolding read_tags
to_slice ks b = do (tags, b₁) ← read_tags ks b; some (tags, record b₁ { read_idx = 0 })

-- The loop of `toMap`.
unfoldable pub read_map : List Key → GoMap Key Bytes → Buffer → Option (GoMap Key Bytes × Buffer)
read_map [] m b = some (m, b)
read_map (k ∷ ks) m b = do
  (v, b₁) ← read_value b
  read_map ks (elim v [ none ↦ m | some v' ↦ insert k v' m ]) b₁

unfoldable pub to_map : List Key → Buffer → Option (GoMap Key Bytes × Buffer)
unfolding read_map
to_map ks b = do (m, b₁) ← read_map ks [] b; some (m, record b₁ { read_idx = 0 })

-- `ts.m[k]`, which is nil where there is no entry.
abbrev pub value_or_nil : Key → TagSet → Bytes
value_or_nil k ts = elim (lookup k ts.m) [ none ↦ [] | some v ↦ v ]

unfoldable pub write_values : TagSet → List Key → Buffer → Option Buffer
unfolding write_value
write_values ts [] b = some b
write_values ts (k ∷ ks) b = do b₁ ← write_value (value_or_nil k ts) b; write_values ts ks b₁

unfoldable pub to_values_bytes : TagSet → List Key → Option Buffer
unfolding write_values
to_values_bytes ts ks =
    write_values ts ks (record { buf = replicate (length ks) 0; write_idx = 0; read_idx = 0 })

unfoldable pub to_values_string : TagSet → List Key → Option Bytes
unfolding write_values
to_values_string ts ks = do
  b ← write_values ts ks (record { buf = replicate (length ks) 0; write_idx = 0; read_idx = 0 })
  bytes b

unfoldable pub to_ordered_tags_slice : Bytes → List Key → Option (List Tag)
unfolding to_slice sort_by_name
to_ordered_tags_slice s ks = do
  (tags, b) ← to_slice ks (record { buf = s; write_idx = 0; read_idx = 0 })
  some (sort_by_name tags)
