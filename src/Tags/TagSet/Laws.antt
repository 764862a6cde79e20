-- ===== src/Tags/TagSet/Laws.antt =====
-- The builder of tags/tag_set_builder.go as a finite map from keys to values.
use instrumentation_go.Base.{
  ◌≡◌, ◌&&◌, [], ◌∷◌, ◌++◌, Option, none, some, Bytes, Result, ok, err, panics, out_of_fuel,
  if◌then◌else◌, arith, append-nil, ◌∙◌, ◌==◌,
}
use instrumentation_go.Base.GoMap.{
  GoMap, lookup, insert, contains, lookup-insert, lookup-delete, HasDistinctKeys, insert-next,
}
use instrumentation_go.Tags.Key.{KeyString, Key, key_string, key_eq, key_beq_iff}
use instrumentation_go.Tags.TagSet.{
  TagSet, TagSetBuilder, Error, new_tag_set, upsert_bytes, upsert_all, new_tag_set_builder,
  insert_string, update_string, upsert_string, delete_key,
}

-- The value that a tag set, if it is there, holds for a key.
abbrev pub value_at : Key → Result Error TagSetBuilder → Option Bytes
value_at k (ok none) = none
value_at k (ok (some ts)) = lookup k ts.m
value_at k (err e) = none
value_at k panics = none
value_at k out_of_fuel = none

abbrev pub or_else : Option Bytes → Bytes → Option Bytes
or_else none b = some b
or_else (some a) b = some a

-- What each operation of a builder that has not been built makes of the value of each key: an insert
-- sets its key where it has no value, an update where it has one, an upsert always, and a delete
-- removes it; the values of all other keys stay.
pub builder_values :
    (k : KeyString) (s : Bytes) (ts : TagSet) (j : Key)
    → (value_at j (insert_string k s (some ts))
        ≡ (if key_string k == j then or_else (lookup j ts.m) s else lookup j ts.m))
      × (value_at j (update_string k s (some ts))
          ≡ (if key_string k == j && contains j ts.m then some s else lookup j ts.m))
      × (value_at j (upsert_string k s (some ts))
          ≡ (if key_string k == j then some s else lookup j ts.m))
      × (value_at j (delete_key (key_string k) (some ts))
          ≡ (if key_string k == j then none else lookup j ts.m))
unfolding insert_string update_string upsert_string delete_key contains
builder_values k s ts j = (
  ground (arith, lookup-insert (key_string k) j s ts.m, key_beq_iff (key_string k) j),
  ground (arith, lookup-insert (key_string k) j s ts.m, key_beq_iff (key_string k) j),
  ground (arith, lookup-insert (key_string k) j s ts.m),
  ground (arith, lookup-delete (key_string k) j ts.m),
)

-- Upserting keys that are not there yet appends them.
pub upsert_all_append :
    (m : GoMap Key Bytes) (ts : TagSet)
    → HasDistinctKeys (ts.m ++ m)
    → upsert_all m ts ≡ record { m = ts.m ++ m }
unfolding upsert_all
upsert_all_append [] ts h = ground (arith, append-nil ts.m)
upsert_all_append ((k, b) ∷ m) ts h =
    let e : insert k b ts.m ++ m ≡ ts.m ++ (k, b) ∷ m = insert-next k b ts.m m h in
    upsert_all_append m (upsert_bytes k b ts) (rw e h) ∙ rw e

-- A builder starts as a copy of the tag set that it is given, whose keys are distinct as in every map.
pub new_tag_set_builder_copy :
    (ts : TagSet) → HasDistinctKeys ts.m → new_tag_set_builder (some ts) ≡ some ts
unfolding new_tag_set_builder
new_tag_set_builder_copy ts h = rw (upsert_all_append ts.m new_tag_set h)
