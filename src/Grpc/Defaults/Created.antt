-- ===== src/Grpc/Defaults/Created.antt =====
-- The default keys of plugins/grpc/stats/types.go.
use instrumentation_go.Base.{
  ◌≡◌, ◌∙◌, refl, Bytes, codes, Option, some, bytes_beq, bytes_eq, Bool, true, false, if◌then◌else◌,
  Result, ok, ap,
}
use instrumentation_go.Base.GoMap.{lookup}
use instrumentation_go.Tags.Key.{KeyString, Key, key_string}
use instrumentation_go.Tags.KeysManager.{KeysManager, create_key_string, validate_key_name}
use instrumentation_go.Tags.KeysManager as Keys
use instrumentation_go.Tags.KeysManager.Registry.{
  IsRegistry, create_key_string_valid, create_key_string-IsRegistry,
}
use instrumentation_go.Stats.Outcome.{Returns, Returns-bind, Returns-map}
use instrumentation_go.Grpc.Defaults.{DefaultKeys, or_fatal, create_default_keys, init_keys}

or_fatal-ok :
    (P : KeysManager × KeyString → Type 0) (p : KeysManager × Result Keys.Error KeyString)
    (k : KeyString)
    → p.1 ≡ ok k
    → P (p.0, k)
    → Returns P (or_fatal p)
or_fatal-ok P p k e h = rw (ap (λ r. or_fatal (p.0, r)) e) h

-- A key that is created is filed under its name, and nothing else changes.
abbrev Files : Bytes → KeysManager → KeysManager × KeyString → Type 0
Files name km r =
    IsRegistry r.0
    × ((n : Bytes)
        → lookup n r.0.keys
          ≡ (if bytes_beq name n then some (key_string r.1) else lookup n km.keys))

create-Files :
    (name : Bytes) (km : KeysManager)
    → validate_key_name name ≡ true
    → IsRegistry km
    → Returns (Files name km) (or_fatal (create_key_string name km))
create-Files name km valid r =
    let (k, e, named, files) = create_key_string_valid name km r valid in
    or_fatal-ok (Files name km) (create_key_string name km) k e
      (create_key_string-IsRegistry name km r, files)

-- What is filed under a name once the default keys have been created.
abbrev pub filed_default : DefaultKeys → Option Key → Bytes → Option Key
filed_default keys old n =
    if bytes_beq (codes "grpc.opstatus") n
    then some (key_string keys.op_status)
    else (if bytes_beq (codes "grpc.method") n
        then some (key_string keys.method)
        else (if bytes_beq (codes "grpc.service") n then some (key_string keys.service) else old))

-- The registry is consistent, and has the default keys and otherwise what it had.
abbrev pub HasDefaults : KeysManager → KeysManager × DefaultKeys → Type 0
HasDefaults km r =
    IsRegistry r.0 × ((n : Bytes) → lookup n r.0.keys ≡ filed_default r.1 (lookup n km.keys) n)

create_default_keys-HasDefaults :
    (km : KeysManager) → IsRegistry km → Returns (HasDefaults km) (create_default_keys km)
unfolding create_default_keys validate_key_name
create_default_keys-HasDefaults km r =
    Returns-bind (Files (codes "grpc.service") km) (HasDefaults km)
      (or_fatal (create_key_string (codes "grpc.service") km)) _
      (create-Files (codes "grpc.service") km refl r)
      λ (km₁, service) (r₁, f₁).
        Returns-bind (Files (codes "grpc.method") km₁) (HasDefaults km)
          (or_fatal (create_key_string (codes "grpc.method") km₁)) _
          (create-Files (codes "grpc.method") km₁ refl r₁)
          λ (km₂, method) (r₂, f₂).
            Returns-bind (Files (codes "grpc.opstatus") km₂) (HasDefaults km)
              (or_fatal (create_key_string (codes "grpc.opstatus") km₂)) _
              (create-Files (codes "grpc.opstatus") km₂ refl r₂)
              λ (km₃, op_status) (r₃, f₃). (r₃, λ n. f₃ n ∙ rw (f₂ n, f₁ n) refl)

overridden :
    {A : Type 0} (a b c : Bool) (x y z x' y' z' old : A)
    → (if a
        then x'
        else (if b
            then y'
            else (if c then z' else (if a then x else (if b then y else (if c then z else old))))))
      ≡ (if a then x' else (if b then y' else (if c then z' else old)))
overridden true b c x y z x' y' z' old = refl
overridden false true c x y z x' y' z' old = refl
overridden false false true x y z x' y' z' old = refl
overridden false false false x y z x' y' z' old = refl

filed_default_twice :
    (keys keys' : DefaultKeys) (old : Option Key) (n : Bytes)
    → filed_default keys' (filed_default keys old n) n ≡ filed_default keys' old n
filed_default_twice keys keys' old n =
    overridden (bytes_beq (codes "grpc.opstatus") n) (bytes_beq (codes "grpc.method") n)
      (bytes_beq (codes "grpc.service") n) _ _ _ _ _ _ old

-- In a consistent registry, whatever keys the application has created before, `init` creates the default
-- keys twice without ending the process; the registry is consistent again, files the three keys
-- under their names, and has what it had under every other name.
pub init_keys-HasDefaults :
    (km : KeysManager) → IsRegistry km → Returns (HasDefaults km) (init_keys km)
unfolding init_keys
init_keys-HasDefaults km r =
    Returns-bind (HasDefaults km) (HasDefaults km) (create_default_keys km) _
      (create_default_keys-HasDefaults km r)
      λ (km₁, keys) (r₁, f₁).
        Returns-map (HasDefaults km₁) (HasDefaults km) (create_default_keys km₁)
          (create_default_keys-HasDefaults km₁ r₁)
          λ (km₂, keys') (r₂, f₂). (
            r₂,
            λ n.
                f₂ n
                ∙ (ap (λ x. filed_default keys' x n) (f₁ n)
                    ∙ filed_default_twice keys keys' (lookup n km.keys) n),
          )
