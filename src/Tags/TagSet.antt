-- ===== src/Tags/TagSet.antt =====
-- tags/tag_set.go and tags/tag_set_builder.go: tag sets and their builder. A tag set is its map; a
-- builder is its field `ts`, which is `none` (nil) once `Build` has been called.
pub mod Laws
use instrumentation_go.Base.{
  Bool, true, false, List, [], ◌∷◌, Option, none, some, Bytes, if◌then◌else◌, Result, ok, err,
  panics, ◌>>=◌,
}
use instrumentation_go.Base.GoMap.{GoMap, lookup, insert, delete, contains}
use instrumentation_go.Tags.Key.{KeyString, Key, key_string, foreign, key_eq}

pub record TagSet : Type 0 where
  pub m : GoMap Key Bytes

-- A tag of a slice of tags.
pub record Tag : Type 0 where
  pub key : Key
  pub value : Bytes

pub data Error : Type 0 where
  not_a_string_key no_value : Key → Error

unfoldable pub new_tag_set : TagSet
new_tag_set = record { m = [] }

unfoldable pub value_of : Key → TagSet → Result Error Bytes
value_of k ts = elim (lookup k ts.m) [ none ↦ err (no_value k) | some b ↦ ok b ]

unfoldable pub value_as_string : Key → TagSet → Result Error Bytes
unfolding value_of
value_as_string (key_string k) ts = value_of (key_string k) ts
value_as_string (foreign k) ts = err (not_a_string_key (foreign k))

unfoldable pub upsert_bytes : Key → Bytes → TagSet → TagSet
upsert_bytes k b ts = record { m = insert k b ts.m }

unfoldable pub insert_bytes : Key → Bytes → TagSet → TagSet × Bool
unfolding contains
insert_bytes k b ts =
    if contains k ts.m then (ts, false) else (record { m = insert k b ts.m }, true)

unfoldable pub update_bytes : Key → Bytes → TagSet → TagSet × Bool
unfolding contains
update_bytes k b ts =
    if contains k ts.m then (record { m = insert k b ts.m }, true) else (ts, false)

unfoldable pub delete_tag : Key → TagSet → TagSet
delete_tag k ts = record { m = delete k ts.m }

-- The builder. A method called after `Build` dereferences the nil `ts`.
abbrev pub TagSetBuilder : Type 0
TagSetBuilder = Option TagSet

unfoldable pub upsert_all : GoMap Key Bytes → TagSet → TagSet
unfolding upsert_bytes
upsert_all [] ts = ts
upsert_all ((k, b) ∷ rest) ts = upsert_all rest (upsert_bytes k b ts)

unfoldable pub new_tag_set_builder : Option TagSet → TagSetBuilder
unfolding upsert_all new_tag_set
new_tag_set_builder none = some new_tag_set
new_tag_set_builder (some ts) = some (upsert_all ts.m new_tag_set)

abbrev on_builder : TagSetBuilder → (TagSet → TagSet) → Result Error TagSetBuilder
on_builder none f = panics
on_builder (some ts) f = ok (some (f ts))

unfoldable pub insert_string : KeyString → Bytes → TagSetBuilder → Result Error TagSetBuilder
unfolding insert_bytes
insert_string k s tb = on_builder tb (λ ts. (insert_bytes (key_string k) s ts).0)

unfoldable pub update_string : KeyString → Bytes → TagSetBuilder → Result Error TagSetBuilder
unfolding update_bytes
update_string k s tb = on_builder tb (λ ts. (update_bytes (key_string k) s ts).0)

unfoldable pub upsert_string : KeyString → Bytes → TagSetBuilder → Result Error TagSetBuilder
unfolding upsert_bytes
upsert_string k s tb = on_builder tb (upsert_bytes (key_string k) s)

unfoldable pub delete_key : Key → TagSetBuilder → Result Error TagSetBuilder
unfolding delete_tag
delete_key k tb = on_builder tb (delete_tag k)

unfoldable pub build : TagSetBuilder → TagSetBuilder × Option TagSet
build tb = (none, tb)
