-- ===== src/Tags/Codec/Decode.antt =====
-- `DecodeFromFullSignature` of tags/tag_set_codec.go. The registry of keys is passed through.
use instrumentation_go.Base.{
  ℕ, zero, suc, Bytes, length, ltb, eqb, if◌then◌else◌, Result, ok, err, panics, out_of_fuel, ◌>>=◌,
}
use instrumentation_go.Tags.Key.{KeyString, key_string}
use instrumentation_go.Tags.KeysManager.{KeysManager, create_key_string}
use instrumentation_go.Tags.KeysManager as Keys
use instrumentation_go.Tags.TagSet.{TagSet, new_tag_set, upsert_bytes}
use instrumentation_go.Tags.Buffer.{Buffer}
use instrumentation_go.Tags.Codec.Encode.{key_type_string, tags_version_id}
use instrumentation_go.Tags.Codec.Reader.{
  Error, unsupported_version, invalid_key_type, read_ended, read_byte, read_bytes_with_varint_len,
}

-- The name and the value of one tag.
unfoldable pub read_name_and_value : Buffer → Result Error (Bytes × Bytes × Buffer)
read_name_and_value b = do
  (k, b₁) ← read_bytes_with_varint_len b
  (v, b₂) ← read_bytes_with_varint_len b₁
  ok (k, v, b₂)

-- One tag: the type byte, the key's name, the value.
unfoldable pub read_tag : Buffer → Result Error (Bytes × Bytes × Buffer)
unfolding read_name_and_value
read_tag b = do
  (typ, b₁) ← read_byte b
  if eqb typ key_type_string then read_name_and_value b₁ else err (invalid_key_type typ)

-- A tag whose name is not that of a key is ignored.
unfoldable pub upsert_created : Result Keys.Error KeyString → Bytes → TagSet → TagSet
upsert_created (ok k) v ts = upsert_bytes (key_string k) v ts
upsert_created (err e) v ts = ts
upsert_created panics v ts = ts
upsert_created out_of_fuel v ts = ts

-- The rest of a round, once the tag has been read; `next` is the next round.
unfoldable pub upsert_tag :
    (KeysManager → TagSet → Buffer → KeysManager × Result Error TagSet)
    → KeysManager
    → TagSet
    → Result Error (Bytes × Bytes × Buffer)
    → KeysManager × Result Error TagSet
unfolding upsert_created
upsert_tag next km ts (ok (k, v, b)) =
    let (km', created) = create_key_string k km in next km' (upsert_created created v ts) b
upsert_tag next km ts (err e) = (km, err e)
upsert_tag next km ts panics = (km, panics)
upsert_tag next km ts out_of_fuel = (km, out_of_fuel)

-- The loop, with a round of fuel for each tag still to be read.
unfoldable pub decode_loop : ℕ → KeysManager → TagSet → Buffer → KeysManager × Result Error TagSet
unfolding read_ended read_tag upsert_tag
decode_loop zero km ts b = if read_ended b then (km, ok ts) else (km, out_of_fuel)
decode_loop (suc fuel) km ts b =
    let more = upsert_tag (decode_loop fuel) km ts (read_tag b) in
    if read_ended b then (km, ok ts) else more

-- The version check, once the version byte has been read, and the tags.
unfoldable pub decode_tags :
    KeysManager → ℕ → Result Error (ℕ × Buffer) → KeysManager × Result Error TagSet
unfolding decode_loop new_tag_set
decode_tags km fuel (ok (version, b)) =
    if ltb tags_version_id version
    then (km, err (unsupported_version version))
    else decode_loop fuel km new_tag_set b
decode_tags km fuel (err e) = (km, err e)
decode_tags km fuel panics = (km, panics)
decode_tags km fuel out_of_fuel = (km, out_of_fuel)

-- Each tag takes a byte at least, so the length of the input is fuel enough.
unfoldable pub decode_from_full_signature : Bytes → KeysManager → KeysManager × Result Error TagSet
unfolding decode_tags
decode_from_full_signature bytes km =
    if eqb (length bytes) 0
    then (km, ok new_tag_set)
    else decode_tags km (length bytes)
        (read_byte (record { buf = bytes; write_idx = 0; read_idx = 0 }))
