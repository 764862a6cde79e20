-- ===== src/Tags/KeysManager.antt =====
-- tags/keys_manager.go: the registry of keys. Each method holds the mutex from its first read to its
-- last write, so a method is one step. `allocated` counts the objects that the process has allocated
-- and gives the address of the next one.
pub mod Registry
use instrumentation_go.Base.{
  ℕ, ◌+◌, ◌-◌, ◌%◌, ◌^◌, Bool, true, false, ◌||◌, List, [], ◌∷◌, Option, none, some, Bytes, length,
  ltb, leb, if◌then◌else◌, Result, ok, err, bytes_eq,
}
use instrumentation_go.Base.GoMap.{GoMap, lookup, insert}
use instrumentation_go.Tags.Key.{KeyString, Key, key_string, foreign}

pub data Error : Type 0 where
  invalid_key_name : Bytes → Error
  wrong_key_type : Bytes → Error

pub record KeysManager : Type 0 where
  pub keys : GoMap Bytes Key
  pub next_key_id : ℕ
  pub allocated : ℕ

unfoldable pub new_keys_manager : ℕ → KeysManager
new_keys_manager allocated = record { keys = []; next_key_id = 0; allocated = allocated }

abbrev pub max_key_length : ℕ
max_key_length = 2 ^ 14 - 1

abbrev pub valid_keys_min : ℕ
valid_keys_min = 0x20

abbrev pub valid_keys_max : ℕ
valid_keys_max = 0x7e

-- `range` over a string decodes UTF-8: a byte below 0x80 is its own rune, and any other byte starts a
-- rune of at least 0x80, so a name has a rune above 0x7e where it has such a byte.
unfoldable pub all_valid : Bytes → Bool
all_valid [] = true
all_valid (c ∷ cs) = if ltb c valid_keys_min || ltb valid_keys_max c then false else all_valid cs

unfoldable pub validate_key_name : Bytes → Bool
unfolding all_valid
validate_key_name name = if leb max_key_length (length name) then false else all_valid name

-- The branch of a name that is not registered: a new object, the next id, and its entry in the map.
unfoldable pub register_key : Bytes → KeysManager → KeysManager × Result Error KeyString
register_key name km =
    let ks : KeyString = record { addr = km.allocated; name = name; id = km.next_key_id } in
    (
      record {
        keys = insert name (key_string ks) km.keys;
        next_key_id = (km.next_key_id + 1) % 2 ^ 16;
        allocated = km.allocated + 1;
      },
      ok ks,
    )

-- The type assertion `k.(*KeyString)` on a registered key.
unfoldable pub as_key_string : Bytes → Key → Result Error KeyString
as_key_string name (key_string ks) = ok ks
as_key_string name (foreign k) = err (wrong_key_type name)

unfoldable pub create_key_string : Bytes → KeysManager → KeysManager × Result Error KeyString
unfolding validate_key_name register_key as_key_string
create_key_string name km =
    if validate_key_name name
    then (elim (lookup name km.keys) [
      | some k ↦ (km, as_key_string name k)
      | none ↦ register_key name km
    ])
    else (km, err (invalid_key_name name))

unfoldable pub count : KeysManager → ℕ
count km = length km.keys

unfoldable pub clear : KeysManager → KeysManager
clear km = record km { keys = [] }
