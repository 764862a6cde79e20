-- ===== src/Base/GoMap.antt =====
-- A Go map as an association list. Reading, storing and deleting follow the language; the order of
-- the list stands for the order in which `range` visits the entries, which Go leaves open.
use mathlib.Core.Path.{◌≡◌, refl}
use mathlib.Core.Bool.{Bool, true, false}
use mathlib.Core.List.{List, [], ◌∷◌, ◌++◌, append_assoc}
use mathlib.Core.Option.{Option, none, some}
use native.Mathlib.Omega.{arith}
use instrumentation_go.Base.Tests.{if◌then◌else◌}
use Prim.Native.Nat.{◌≤◌}
use instrumentation_go.Base.Lists.{length}
use instrumentation_go.Base.Equality.{MapKey, ◌==◌}

abbrev pub GoMap {ℓ} : Type ℓ → Type ℓ → Type ℓ
GoMap K V = List (K × V)

module _ {ℓ} {K V : Type ℓ} ⦃e : MapKey K⦄ where
  unfoldable pub lookup : K → GoMap K V → Option V
  lookup key [] = none
  lookup key ((x, value) ∷ rest) =
      let behind = lookup key rest in if x == key then some value else behind

  -- A key that is there keeps its place.
  unfoldable pub insert : K → V → GoMap K V → GoMap K V
  insert key value [] = (key, value) ∷ []
  insert key value ((x, old) ∷ rest) =
      let behind = insert key value rest in
      if x == key then (key, value) ∷ rest else (x, old) ∷ behind

  unfoldable pub delete : K → GoMap K V → GoMap K V
  delete k [] = []
  delete k ((j, w) ∷ m) = if j == k then delete k m else (j, w) ∷ delete k m

  unfoldable pub contains : K → GoMap K V → Bool
  contains k m = elim (lookup k m) [ none ↦ false | some v ↦ true ]

  pub lookup-insert :
      (key asked : K) (value : V) (entries : GoMap K V)
      → lookup asked (insert key value entries)
        ≡ (if key == asked then some value else lookup asked entries)
  unfolding lookup insert
  lookup-insert key asked value [] = refl
  lookup-insert key asked value ((x, old) ∷ rest) = ground (
    arith,
    e.same_iff key asked,
    e.same_iff x key,
    e.same_iff x asked,
    lookup-insert key asked value rest,
  )

  pub lookup-delete :
      (k j : K) (m : GoMap K V) → lookup j (delete k m) ≡ (if k == j then none else lookup j m)
  unfolding lookup delete
  lookup-delete k j [] = ground arith
  lookup-delete k j ((i, w) ∷ m) =
      ground (arith, e.same_iff k j, e.same_iff i k, e.same_iff i j, lookup-delete k j m)

  -- A Go map holds a key once.
  abbrev pub HasDistinctKeys : GoMap K V → Type ℓ
  HasDistinctKeys [] = Unit {ℓ}
  HasDistinctKeys ((k, v) ∷ m) = (lookup k m ≡ none) × HasDistinctKeys m

  pub insert-HasDistinctKeys :
      (k : K) (v : V) (m : GoMap K V) → HasDistinctKeys m → HasDistinctKeys (insert k v m)
  unfolding lookup insert
  insert-HasDistinctKeys k v [] h = (refl, tt)
  insert-HasDistinctKeys k v ((j, w) ∷ m) h = ground (
    arith,
    e.same_iff j k,
    e.same_iff k j,
    insert-HasDistinctKeys k v m h.1,
    lookup-insert k j v m,
  )

  pub delete-HasDistinctKeys :
      (k : K) (m : GoMap K V) → HasDistinctKeys m → HasDistinctKeys (delete k m)
  unfolding lookup delete
  delete-HasDistinctKeys k [] h = tt
  delete-HasDistinctKeys k ((j, w) ∷ m) h =
      ground (arith, delete-HasDistinctKeys k m h.1, lookup-delete k j m)

  insert-append :
      (k : K) (v : V) (m : GoMap K V) → lookup k m ≡ none → insert k v m ≡ m ++ (k, v) ∷ []
  unfolding lookup insert
  insert-append k v [] h = refl
  insert-append k v ((j, w) ∷ m) h = ground (arith, insert-append k v m)

  lookup-append_none :
      (k : K) (m n : GoMap K V)
      → lookup k (m ++ n) ≡ none
      → (lookup k m ≡ none) × (lookup k n ≡ none)
  unfolding lookup
  lookup-append_none k [] n h = (refl, h)
  lookup-append_none k ((j, w) ∷ m) n h = ground (arith, lookup-append_none k m n)

  lookup-middle :
      (k : K) (v : V) (m n : GoMap K V) → HasDistinctKeys (m ++ (k, v) ∷ n) → lookup k m ≡ none
  unfolding lookup
  lookup-middle k v [] n h = refl
  lookup-middle k v ((j, w) ∷ m) n h = ground (
    arith,
    e.same_iff j k,
    e.same_iff k j,
    lookup-middle k v m n h.1,
    lookup-append_none j m ((k, v) ∷ n) h.0,
  )

  -- Storing an entry that a map with distinct keys has next puts it at the end.
  pub insert-next :
      (k : K) (v : V) (m n : GoMap K V)
      → HasDistinctKeys (m ++ (k, v) ∷ n)
      → insert k v m ++ n ≡ m ++ (k, v) ∷ n
  insert-next k v m n h =
      rw (insert-append k v m (lookup-middle k v m n h)) (append_assoc m ((k, v) ∷ []) n)

  pub contains-insert :
      (k j : K) (v : V) (m : GoMap K V)
      → contains j (insert k v m) ≡ (if k == j then true else contains j m)
  unfolding contains
  contains-insert k j v m = ground (arith, lookup-insert k j v m)

  pub contains-delete :
      (k j : K) (m : GoMap K V) → contains j (delete k m) ≡ (if k == j then false else contains j m)
  unfolding contains
  contains-delete k j m = ground (arith, lookup-delete k j m)

  pub length-insert : (k : K) (v : V) (m : GoMap K V) → 1 ≤ length (insert k v m)
  unfolding insert
  length-insert k v [] = omega arith
  length-insert k v ((j, w) ∷ m) = ground arith

  pub length-delete : (k : K) (m : GoMap K V) → length (delete k m) ≤ length m
  unfolding delete
  length-delete k [] = omega arith
  length-delete k ((j, w) ∷ m) = ground (arith, length-delete k m)
