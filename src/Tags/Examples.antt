-- ===== src/Tags/Examples.antt =====
-- The theorems about package tags at concrete inputs, and runs of its code.
mod Integers
use instrumentation_go.Base.{
  ℕ, ◌≡◌, ◌≢◌, ◌↔◌, ◌≤◌, ◌<◌, ◌+◌, ◌^◌, ◌++◌, ◌==◌, ◌&&◌, refl, true, List, [], ◌∷◌, none, some,
  Bytes, bytes_eq, length, All, replicate, ok, panics, out_of_fuel, if◌then◌else◌, arith, bytes_beq,
  length-replicate,
}
use instrumentation_go.Base.GoMap.{HasDistinctKeys, lookup, contains}
use instrumentation_go.Tags.Key.{KeyString, Key, key_string, key_eq}
use instrumentation_go.Tags.KeysManager.{
  KeysManager, new_keys_manager, validate_key_name, create_key_string, max_key_length,
}
use instrumentation_go.Tags.KeysManager.Registry.{
  IsRegistry, IsNameByte, new_keys_manager-IsRegistry, create_key_string-IsRegistry,
  create_key_string_valid, create_key_string_iff,
}
use instrumentation_go.Tags.TagSet.{
  TagSet, insert_string, update_string, upsert_string, delete_key, Tag,
}
use instrumentation_go.Tags.TagSet.Laws.{builder_values, value_at, or_else}
use instrumentation_go.Tags.Varint.{read, store_at, uvarint}
use instrumentation_go.Tags.Buffer.{
  Buffer, grow_if_required, copy_from, write_byte, bytes, write_bytes_with_varint_len,
}
use instrumentation_go.Tags.Buffer.Appends.{Appends, encoded, write_bytes-Appends}
use instrumentation_go.Tags.Codec.Encode.{
  encode_to_full_signature, signature, encode-signature, tags_version_id,
}
use instrumentation_go.Tags.Codec.Reader.{read_bytes_with_varint_len}
use instrumentation_go.Tags.Codec.Decode.{decode_from_full_signature}
use instrumentation_go.Tags.Codec.RoundTrip.{IsRegistered, pending, decode-encode}
use instrumentation_go.Tags.Codec.Safety.{read_bytes_panics, decode-ne-out_of_fuel}
use instrumentation_go.Tags.Values.{value_or_nil, to_values_string, to_ordered_tags_slice}
use instrumentation_go.Tags.Values as Values
use instrumentation_go.Tags.Values.Written.{sized, all_sized, to_values_string-sized}
use instrumentation_go.Tags.Values.RoundTrip.{
  project, to_ordered_tags_slice-project, read_value_long,
}
use instrumentation_go.Tags.Values.Sort.{IsSorted}
use mathlib.Core.List.{Perm}

abbrev a_key : KeyString
a_key = record { addr = 0; name = 97 ∷ []; id = 0 }

abbrev b_key : KeyString
b_key = record { addr = 1; name = 98 ∷ []; id = 1 }

abbrev two_keys : KeysManager
two_keys = record {
  keys = ((97 ∷ []), key_string a_key) ∷ ((98 ∷ []), key_string b_key) ∷ [];
  next_key_id = 2;
  allocated = 2;
}

abbrev two_tags : TagSet
two_tags = record { m = (key_string b_key, 120 ∷ []) ∷ (key_string a_key, 121 ∷ 122 ∷ []) ∷ [] }

abbrev two_tags_bytes : Bytes
two_tags_bytes = tags_version_id ∷ 0 ∷ 1 ∷ 98 ∷ 1 ∷ 120 ∷ 0 ∷ 1 ∷ 97 ∷ 2 ∷ 121 ∷ 122 ∷ []

two_tags-encoded : encode_to_full_signature two_tags ≡ some two_tags_bytes
unfolding encode_to_full_signature write_byte write_bytes_with_varint_len bytes
two_tags-encoded = refl

two_tags-distinct : HasDistinctKeys two_tags.m
unfolding lookup contains
two_tags-distinct = (refl, (refl, tt))

two_tags-IsRegistered : All (IsRegistered two_keys) two_tags.m
unfolding lookup validate_key_name
two_tags-IsRegistered = ((refl, refl), ((refl, refl), tt))

decode-encode_example : decode_from_full_signature two_tags_bytes two_keys ≡ (two_keys, ok two_tags)
decode-encode_example =
    decode-encode two_tags two_keys two_tags_bytes two_tags-encoded (omega arith) two_tags-distinct
      two_tags-IsRegistered

decode-ne-out_of_fuel_example :
    (decode_from_full_signature (0 ∷ 0 ∷ 1 ∷ 98 ∷ 5 ∷ []) two_keys).1 ≢ out_of_fuel
decode-ne-out_of_fuel_example = decode-ne-out_of_fuel (0 ∷ 0 ∷ 1 ∷ 98 ∷ 5 ∷ []) two_keys

encode-signature_example :
    encode_to_full_signature two_tags ≡ some (tags_version_id ∷ signature two_tags.m)
encode-signature_example = encode-signature two_tags

-- Ten bytes that say that 2 ^ 64 - 1 bytes follow.
abbrev huge : Buffer
huge = record {
  buf = 255 ∷ 255 ∷ 255 ∷ 255 ∷ 255 ∷ 255 ∷ 255 ∷ 255 ∷ 255 ∷ 1 ∷ [];
  write_idx = 0;
  read_idx = 0;
}

huge-uvarint : uvarint (pending huge) ≡ read 18446744073709551615 10
unfolding uvarint
huge-uvarint = refl

read_bytes_panics_example :
    (read_bytes_with_varint_len huge ≡ panics) ↔ (2 ^ 63 ≤ 10 + 0 + 18446744073709551615)
read_bytes_panics_example =
    read_bytes_panics huge 18446744073709551615 10 (omega arith) (omega arith) huge-uvarint

abbrev two_keys_asked : List Key
two_keys_asked = key_string b_key ∷ key_string a_key ∷ []

abbrev two_values : Bytes
two_values = 1 ∷ 0 ∷ 120 ∷ 2 ∷ 0 ∷ 121 ∷ 122 ∷ []

two_values-written : to_values_string two_tags two_keys_asked ≡ some two_values
unfolding to_values_string lookup Values.store_value store_at grow_if_required copy_from bytes
two_values-written = refl

two_values-short : All (λ k. length (value_or_nil k two_tags) < 65536) two_keys_asked
unfolding lookup
two_values-short = (omega arith, (omega arith, tt))

to_ordered_tags_slice-project_example :
    (tags : List Tag) × (to_ordered_tags_slice two_values two_keys_asked ≡ some tags)
    × IsSorted tags
    × Perm tags (project two_tags two_keys_asked)
to_ordered_tags_slice-project_example =
    to_ordered_tags_slice-project two_tags two_keys_asked two_values two_values-written
      two_values-short

long_value_read :
    (v : Bytes)
    → length v ≡ 65536
    → Values.read_value (record { buf = sized v ++ []; write_idx = 0; read_idx = 0 })
      ≡ some (none, record { buf = sized v ++ []; write_idx = 0; read_idx = 2 })
unfolding Values.read_value Values.read_sized sized
long_value_read v h = rw h

abbrev long_value : Bytes
long_value = replicate 65536 7

read_value_long_example : none ≢ some long_value
read_value_long_example =
    read_value_long long_value []
      (record { buf = sized long_value ++ []; write_idx = 0; read_idx = 0 })
      (record { buf = sized long_value ++ []; write_idx = 0; read_idx = 2 }) none
      (omega (arith, length-replicate {A = ℕ} 65536 7)) refl
      (long_value_read long_value (length-replicate {A = ℕ} 65536 7))

one_key-IsRegistry : IsRegistry (create_key_string (97 ∷ []) (new_keys_manager 0)).0
one_key-IsRegistry =
    create_key_string-IsRegistry (97 ∷ []) (new_keys_manager 0) (new_keys_manager-IsRegistry 0)

b_name-valid : validate_key_name (98 ∷ []) ≡ true
unfolding validate_key_name
b_name-valid = refl

abbrev one_key : KeysManager
one_key = (create_key_string (97 ∷ []) (new_keys_manager 0)).0

create_key_string_valid_example :
    (k : KeyString) × ((create_key_string (98 ∷ []) one_key).1 ≡ ok k)
    × (k.name ≡ 98 ∷ [])
    × ((n : Bytes)
        → lookup n (create_key_string (98 ∷ []) one_key).0.keys
          ≡ (if bytes_beq (98 ∷ []) n then some (key_string k) else lookup n one_key.keys))
create_key_string_valid_example =
    create_key_string_valid (98 ∷ []) one_key one_key-IsRegistry b_name-valid

create_key_string-IsRegistry_example : IsRegistry (create_key_string (98 ∷ []) one_key).0
create_key_string-IsRegistry_example =
    create_key_string-IsRegistry (98 ∷ []) one_key one_key-IsRegistry

abbrev odd_name : Bytes
odd_name = 31 ∷ []

create_key_string_iff_example :
    ((k : KeyString) × ((create_key_string odd_name one_key).1 ≡ ok k) × (k.name ≡ odd_name))
    ↔ ((length odd_name < 16383) × All IsNameByte odd_name)
create_key_string_iff_example = create_key_string_iff odd_name one_key one_key-IsRegistry

builder_values_example :
    (value_at (key_string a_key) (insert_string b_key (5 ∷ []) (some two_tags)) ≡ (
      if key_string b_key == key_string a_key
      then or_else (lookup (key_string a_key) two_tags.m) (5 ∷ [])
      else lookup (key_string a_key) two_tags.m))
    × (value_at (key_string a_key) (update_string b_key (5 ∷ []) (some two_tags)) ≡ (
        if key_string b_key == key_string a_key && contains (key_string a_key) two_tags.m
        then some (5 ∷ [])
        else lookup (key_string a_key) two_tags.m))
    × (value_at (key_string a_key) (upsert_string b_key (5 ∷ []) (some two_tags)) ≡ (
        if key_string b_key == key_string a_key
        then some (5 ∷ [])
        else lookup (key_string a_key) two_tags.m))
    × (value_at (key_string a_key) (delete_key (key_string b_key) (some two_tags)) ≡ (
        if key_string b_key == key_string a_key
        then none
        else lookup (key_string a_key) two_tags.m))
builder_values_example = builder_values b_key (5 ∷ []) two_tags (key_string a_key)
