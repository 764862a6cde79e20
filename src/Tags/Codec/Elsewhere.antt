-- ===== src/Tags/Codec/Elsewhere.antt =====
-- tags/tag_set_codec.go between two processes, each with its own registry of keys.
use instrumentation_go.Base.{
  ◌≡◌, ◌<◌, ◌^◌, refl, sym, ap, ◌∙◌, List, [], ◌∷◌, ◌++◌, map, some, Bytes, length, All, ok,
}
use instrumentation_go.Base.GoMap.{GoMap, HasDistinctKeys}
use instrumentation_go.Tags.Key.{Key, name_of, key_eq}
use instrumentation_go.Tags.KeysManager.{KeysManager}
use instrumentation_go.Tags.TagSet.{TagSet}
use instrumentation_go.Tags.Buffer.Appends.{encoded}
use instrumentation_go.Tags.Codec.Encode.{
  key_type_string, tags_version_id, signature, encode_to_full_signature, encode-signature,
}
use instrumentation_go.Tags.Codec.Decode.{decode_from_full_signature}
use instrumentation_go.Tags.Codec.RoundTrip.{IsRegistered, decode-encode}

-- The names and the values of tags, which are what is written of them.
abbrev pub names_and_values : GoMap Key Bytes → List (Bytes × Bytes)
names_and_values = map (λ (k, v). (name_of k, v))

signature_of_names : List (Bytes × Bytes) → Bytes
signature_of_names [] = []
signature_of_names ((n, v) ∷ m) =
    key_type_string ∷ (encoded n ++ (encoded v ++ signature_of_names m))

signature-names_and_values :
    (m : GoMap Key Bytes) → signature m ≡ signature_of_names (names_and_values m)
unfolding signature signature_of_names
signature-names_and_values [] = refl
signature-names_and_values ((k, v) ∷ m) =
    ap (λ s. key_type_string ∷ (encoded (name_of k) ++ (encoded v ++ s)))
      (signature-names_and_values m)

-- Decoding elsewhere what was encoded here gives the tag set with the keys of that registry, if it has a
-- key for each name, those keys are distinct, and the encoding is shorter than 2 ^ 63 bytes.
pub decode-encode_elsewhere :
    (ts there : TagSet) (km : KeysManager) (bytes : Bytes)
    → encode_to_full_signature ts ≡ some bytes
    → length bytes < 2 ^ 63
    → names_and_values ts.m ≡ names_and_values there.m
    → HasDistinctKeys there.m
    → All (IsRegistered km) there.m
    → decode_from_full_signature bytes km ≡ (km, ok there)
decode-encode_elsewhere ts there km bytes e h same d r =
    let written : signature ts.m ≡ signature there.m =
      signature-names_and_values ts.m
      ∙ (ap signature_of_names same ∙ sym (signature-names_and_values there.m)) in
    decode-encode there km bytes
      (encode-signature there
        ∙ (ap (λ s. some (tags_version_id ∷ s)) (sym written) ∙ (sym (encode-signature ts) ∙ e)))
      h d r
