-- ===== src/Tags/KeysManager/Registry.antt =====
-- What the registry of tags/keys_manager.go promises.
use instrumentation_go.Base.{
  sym, ◌∙◌, ℕ, ◌<◌, ◌≤◌, ◌≡◌, refl, ◌↔◌, inl, inr, ap, true, false, [], ◌∷◌, none, some, Bytes, ok,
  err, Bool-cases, Option-cases, if◌then◌else◌, arith, length, All, bytes_beq_iff, bytes_eq,
  bytes_beq,
}
use mathlib.Core.Bool.{false≢true}
use instrumentation_go.Base.GoMap.{lookup, lookup-insert}
use instrumentation_go.Tags.Key.{KeyString, Key, key_string, foreign}
use instrumentation_go.Tags.KeysManager.{
  KeysManager, invalid_key_name, new_keys_manager, validate_key_name, register_key,
  create_key_string, all_valid,
}

-- A stored key is a string key filed under its own name, allocated before now.
abbrev pub IsFiled : KeysManager → Bytes → Key → Type 0
IsFiled km n (key_string k) = (k.name ≡ n) × (k.addr < km.allocated)
IsFiled km n (foreign k) = ⊥

pub record IsRegistry (km : KeysManager) : Type 0 where
  pub filed : (n : Bytes) (k : Key) → lookup n km.keys ≡ some k → IsFiled km n k
  pub distinct :
      (m n : Bytes) (j k : KeyString)
      → lookup m km.keys ≡ some (key_string j)
      → lookup n km.keys ≡ some (key_string k)
      → j.addr ≡ k.addr
      → m ≡ n

pub new_keys_manager-IsRegistry : (allocated : ℕ) → IsRegistry (new_keys_manager allocated)
unfolding new_keys_manager lookup
new_keys_manager-IsRegistry allocated = record {
  filed = λ n k h. cc;
  distinct = λ m n j k h g e. cc;
}

-- Where a key was created, creating it again gives the same key and changes nothing.
pub create_key_string_again :
    (name : Bytes) (km : KeysManager) (k : KeyString)
    → (create_key_string name km).1 ≡ ok k
    → create_key_string name (create_key_string name km).0 ≡ ((create_key_string name km).0, ok k)
unfolding create_key_string
create_key_string_again name km k h =
    ground (arith, lookup-insert name name (key_string k) km.keys, bytes_beq_iff name name)

register_key-IsRegistry :
    (name : Bytes) (km : KeysManager)
    → lookup name km.keys ≡ none
    → IsRegistry km
    → IsRegistry (register_key name km).0
unfolding register_key
register_key-IsRegistry name km e r = record { filed = filed; distinct = distinct }
  where
    new : KeyString
    new = record { addr = km.allocated; name = name; id = km.next_key_id }

    filed :
        (n : Bytes) (k : Key)
        → lookup n (register_key name km).0.keys ≡ some k
        → IsFiled (register_key name km).0 n k
    filed n (key_string k) h = ground (
      arith,
      lookup-insert name n (key_string new) km.keys,
      r.filed n (key_string k),
      bytes_beq_iff name n,
    )
    filed n (foreign k) h = ground (
      arith,
      lookup-insert name n (key_string new) km.keys,
      r.filed n (foreign k),
      bytes_beq_iff name n,
    )

    distinct :
        (m n : Bytes) (j k : KeyString)
        → lookup m (register_key name km).0.keys ≡ some (key_string j)
        → lookup n (register_key name km).0.keys ≡ some (key_string k)
        → j.addr ≡ k.addr
        → m ≡ n
    distinct m n j k hm hn ea = ground (
      arith,
      lookup-insert name n (key_string new) km.keys,
      lookup-insert name m (key_string new) km.keys,
      r.filed n (key_string k),
      r.filed m (key_string j),
      r.distinct m n j k,
      bytes_beq_iff name n,
      bytes_beq_iff name m,
    )

-- Creating a key, with any outcome, keeps the registry consistent: every entry is a string key filed
-- under its own name, and two names never share a key.
pub create_key_string-IsRegistry :
    (name : Bytes) (km : KeysManager) → IsRegistry km → IsRegistry (create_key_string name km).0
unfolding create_key_string
create_key_string-IsRegistry name km r = elim (Bool-cases (validate_key_name name)) [
  | inl v ↦ elim (Option-cases (lookup name km.keys)) [
    | inl e ↦ rw (v, e, create_key_string) (register_key-IsRegistry name km e r)
    | inr (k, e) ↦ rw (v, e, create_key_string) r
  ]
  | inr v ↦ rw (v, create_key_string) r
]

register_key_files :
    (name : Bytes) (km : KeysManager) (n : Bytes)
    → lookup n (register_key name km).0.keys ≡ (
        if bytes_beq name n
        then some (key_string (record { addr = km.allocated; name = name; id = km.next_key_id }))
        else lookup n km.keys)
unfolding register_key
register_key_files name km n = lookup-insert name n _ km.keys

-- In a consistent registry a valid name always yields a key of that name, the registry holds that key
-- under the name, and the entry of no other name changes.
pub create_key_string_valid :
    (name : Bytes) (km : KeysManager)
    → IsRegistry km
    → validate_key_name name ≡ true
    → (k : KeyString) × ((create_key_string name km).1 ≡ ok k)
      × (k.name ≡ name)
      × ((n : Bytes)
          → lookup n (create_key_string name km).0.keys
            ≡ (if bytes_beq name n then some (key_string k) else lookup n km.keys))
unfolding create_key_string
create_key_string_valid name km r v = elim (Option-cases (lookup name km.keys)) [
  | inl e ↦ (
    record { addr = km.allocated; name = name; id = km.next_key_id },
    ground arith,
    refl,
    λ n. ground (arith, register_key_files name km n),
  )
  | inr (key_string k, e) ↦ (
    k,
    ground arith,
    (r.filed name (key_string k) e).0,
    λ n. ground (arith, bytes_beq_iff name n, ap (λ (t : Bytes). lookup t km.keys)),
  )
  | inr (foreign k, e) ↦ absurd (r.filed name (foreign k) e)
]

-- An invalid name is refused, and nothing changes.
pub create_key_string_invalid :
    (name : Bytes) (km : KeysManager)
    → validate_key_name name ≡ false
    → create_key_string name km ≡ (km, err (invalid_key_name name))
unfolding create_key_string
create_key_string_invalid name km v = rw v

-- A printable character of US-ASCII.
abbrev pub IsNameByte : ℕ → Type 0
IsNameByte c = (0x20 ≤ c) × (c ≤ 0x7e)

all_valid_iff : (cs : Bytes) → (all_valid cs ≡ true) ↔ All IsNameByte cs
unfolding all_valid
all_valid_iff [] = (λ _. tt, λ _. refl)
all_valid_iff (c ∷ cs) = ground (arith, all_valid_iff cs)

-- Fewer than 2 ^ 14 - 1 bytes, each of them printable US-ASCII.
abbrev pub IsName : Bytes → Type 0
IsName name = (length name < 16383) × All IsNameByte name

validate_key_name_iff : (name : Bytes) → (validate_key_name name ≡ true) ↔ IsName name
unfolding validate_key_name
validate_key_name_iff name = ground (arith, all_valid_iff name)

-- In a consistent registry a name yields a key, of that name, exactly if it has fewer than 16383 bytes, each
-- between 0x20 and 0x7e; any other name is refused and leaves the registry as it is.
pub create_key_string_iff :
    (name : Bytes) (km : KeysManager)
    → IsRegistry km
    → ((k : KeyString) × ((create_key_string name km).1 ≡ ok k) × (k.name ≡ name))
      ↔ ((length name < 16383) × All IsNameByte name)
create_key_string_iff name km r = elim (Bool-cases (validate_key_name name)) [
  | inl v ↦
      let (k, e, same, others) = create_key_string_valid name km r v in
      (λ _. (validate_key_name_iff name).0 v, λ _. (k, e, same))
  | inr v ↦ (
    λ (k, e, same). absurd (ground (arith, ap (λ p. p.1) (create_key_string_invalid name km v))),
    λ h. absurd (false≢true (sym v ∙ (validate_key_name_iff name).1 h)),
  )
]
