-- ===== src/Tags/Key.antt =====
-- tags/key.go: the keys of tags. A `*KeyString` is the immutable object that it points to together
-- with its address; `foreign` is a value of the interface `Key` of any other dynamic type.
use instrumentation_go.Base.{
  ℕ, ◌≡◌, ◌↔◌, Bool, true, false, ◌&&◌, Bytes, MapKey, eqb, eqb_iff, bytes_beq, bytes_beq_iff,
  arith,
}

pub record KeyString : Type 0 where
  pub addr : ℕ
  pub name : Bytes
  pub id : ℕ

pub data Key : Type 0 where
  key_string : KeyString → Key
  foreign : KeyString → Key

-- The methods `Name` and `ID`.
abbrev pub name_of : Key → Bytes
name_of (key_string k) = k.name
name_of (foreign k) = k.name

abbrev pub id_of : Key → ℕ
id_of (key_string k) = k.id
id_of (foreign k) = k.id

-- Equality of pointers: one address holds one object, so the fields agree as well.
abbrev pub key_string_beq : KeyString → KeyString → Bool
key_string_beq a b = eqb a.addr b.addr && (bytes_beq a.name b.name && eqb a.id b.id)

pub key_string_beq_iff : (a b : KeyString) → (key_string_beq a b ≡ true) ↔ (a ≡ b)
key_string_beq_iff a b =
    ground (arith, eqb_iff a.addr b.addr, bytes_beq_iff a.name b.name, eqb_iff a.id b.id)

instance abbrev pub key_string_eq : MapKey KeyString
key_string_eq = record { same = key_string_beq; same_iff = key_string_beq_iff }

abbrev pub key_beq : Key → Key → Bool
key_beq (key_string a) (key_string b) = key_string_beq a b
key_beq (key_string a) (foreign b) = false
key_beq (foreign a) (key_string b) = false
key_beq (foreign a) (foreign b) = key_string_beq a b

pub key_beq_iff : (a b : Key) → (key_beq a b ≡ true) ↔ (a ≡ b)
key_beq_iff (key_string a) (key_string b) = ground (arith, key_string_beq_iff a b)
key_beq_iff (key_string a) (foreign b) = ground arith
key_beq_iff (foreign a) (key_string b) = ground arith
key_beq_iff (foreign a) (foreign b) = ground (arith, key_string_beq_iff a b)

instance abbrev pub key_eq : MapKey Key
key_eq = record { same = key_beq; same_iff = key_beq_iff }
