-- ===== src/Base/Lists.antt =====
-- Lists measured and cut by native numbers, under the library's names, and byte strings.
use Prim.Native.Nat.{ℕ, zero, suc, ◌+◌, ◌-◌, ◌≤◌, ◌<◌}
use mathlib.Core.Path.{◌≡◌, refl, ap}
use mathlib.Core.List.{List, [], ◌∷◌, ◌++◌}
use mathlib.Core.Logic.{◌≢◌}
use mathlib.Core.Option.{Option, none, some}
use native.Mathlib.Omega.{arith}

module _ {ℓ} {A : Type ℓ} where
  abbrev pub length : List A → ℕ
  length [] = 0
  length (x ∷ xs) = suc (length xs)

  abbrev pub get_elem? : List A → ℕ → Option A
  get_elem? [] i = none
  get_elem? (x ∷ xs) zero = some x
  get_elem? (x ∷ xs) (suc i) = get_elem? xs i

  abbrev pub set : List A → ℕ → A → List A
  set [] i v = []
  set (x ∷ xs) zero v = v ∷ xs
  set (x ∷ xs) (suc i) v = x ∷ set xs i v

  abbrev pub take : ℕ → List A → List A
  take zero xs = []
  take (suc n) [] = []
  take (suc n) (x ∷ xs) = x ∷ take n xs

  abbrev pub drop : ℕ → List A → List A
  drop zero xs = xs
  drop (suc n) [] = []
  drop (suc n) (x ∷ xs) = drop n xs

  abbrev pub replicate : ℕ → A → List A
  replicate zero a = []
  replicate (suc n) a = a ∷ replicate n a

  abbrev pub All {κ} : (A → Type κ) → List A → Type κ
  All P [] = Unit {κ}
  All P (x ∷ xs) = P x × All P xs

  pub length-append : (xs ys : List A) → length (xs ++ ys) ≡ length xs + length ys
  length-append [] ys = omega arith
  length-append (x ∷ xs) ys = omega (arith, length-append xs ys)

  pub length-set : (xs : List A) (i : ℕ) (v : A) → length (set xs i v) ≡ length xs
  length-set [] i v = refl
  length-set (x ∷ xs) zero v = refl
  length-set (x ∷ xs) (suc i) v = ap suc (length-set xs i v)

  pub length-replicate : (n : ℕ) (a : A) → length (replicate n a) ≡ n
  length-replicate zero a = refl
  length-replicate (suc n) a = ap suc (length-replicate n a)

  pub length-take : (n : ℕ) (xs : List A) → n ≤ length xs → length (take n xs) ≡ n
  length-take zero xs h = refl
  length-take (suc n) [] h = absurd (omega arith)
  length-take (suc n) (x ∷ xs) h = ap suc (length-take n xs (omega arith))

  pub take-append : (xs ys : List A) → take (length xs) (xs ++ ys) ≡ xs
  take-append [] ys = refl
  take-append (x ∷ xs) ys = ap (λ t. x ∷ t) (take-append xs ys)

  pub drop-append : (xs ys : List A) → drop (length xs) (xs ++ ys) ≡ ys
  drop-append [] ys = refl
  drop-append (x ∷ xs) ys = drop-append xs ys

-- A byte slice or a Go string: a list of bytes, each below 256.
abbrev pub Bytes : Type 0
Bytes = List ℕ

module _ {ℓ} {A : Type ℓ} where
  pub length-drop : (i : ℕ) (xs : List A) → length (drop i xs) ≡ length xs - i
  length-drop zero xs = omega arith
  length-drop (suc i) [] = omega arith
  length-drop (suc i) (x ∷ xs) = omega (arith, length-drop i xs)

  -- The element at an index, by the list from that index on.
  pub get_elem?-drop :
      (xs : List A) (i : ℕ) (y : A) (ys : List A)
      → drop i xs ≡ y ∷ ys
      → (get_elem? xs i ≡ some y) × (drop (suc i) xs ≡ ys)
  get_elem?-drop [] zero y ys e = cc
  get_elem?-drop [] (suc i) y ys e = cc
  get_elem?-drop (x ∷ xs) zero y ys e = ground arith
  get_elem?-drop (x ∷ xs) (suc i) y ys e = get_elem?-drop xs i y ys e

  pub get_elem?_bound : (xs : List A) (i : ℕ) → i < length xs → (x : A) × (get_elem? xs i ≡ some x)
  get_elem?_bound [] i h = absurd (omega arith)
  get_elem?_bound (x ∷ xs) zero h = (x, refl)
  get_elem?_bound (x ∷ xs) (suc i) h = get_elem?_bound xs i (omega arith)

  -- What follows a front part of the list from an index on.
  pub drop-add :
      (xs : List A) (i j : ℕ) (ys zs : List A)
      → j ≡ i + length ys
      → drop i xs ≡ ys ++ zs
      → drop j xs ≡ zs
  drop-add xs i j [] zs h e = let k : j ≡ i = omega arith in rw k e
  drop-add xs i zero (y ∷ ys) zs h e = absurd (omega arith)
  drop-add xs i (suc j) (y ∷ ys) zs h e =
      drop-add xs (suc i) (suc j) ys zs (omega arith) (get_elem?-drop xs i y (ys ++ zs) e).1

pub get_elem?-set_same :
    {A : Type 0} (xs : List A) (i : ℕ) (y : A) → i < length xs → get_elem? (set xs i y) i ≡ some y
get_elem?-set_same [] i y h = absurd (omega arith)
get_elem?-set_same (x ∷ xs) zero y h = refl
get_elem?-set_same (x ∷ xs) (suc i) y h = get_elem?-set_same xs i y (omega arith)

pub get_elem?-set_other :
    {A : Type 0} (xs : List A) (i j : ℕ) (y : A) → i ≢ j → get_elem? (set xs i y) j ≡ get_elem? xs j
get_elem?-set_other [] i j y h = refl
get_elem?-set_other (x ∷ xs) zero zero y h = absurd (h refl)
get_elem?-set_other (x ∷ xs) zero (suc j) y h = refl
get_elem?-set_other (x ∷ xs) (suc i) zero y h = refl
get_elem?-set_other (x ∷ xs) (suc i) (suc j) y h = get_elem?-set_other xs i j y λ e. h (ap suc e)

pub get_elem?_within :
    {A : Type 0} (xs : List A) (i : ℕ) (x : A) → get_elem? xs i ≡ some x → i < length xs
get_elem?_within [] zero x h = cc
get_elem?_within [] (suc i) x h = cc
get_elem?_within (y ∷ xs) zero x h = omega arith
get_elem?_within (y ∷ xs) (suc i) x h = omega (arith, get_elem?_within xs i x h)

pub All-get :
    {A : Type 0} (P : A → Type 0) (xs : List A) (i : ℕ)
    → All P xs
    → i < length xs
    → (x : A) × (get_elem? xs i ≡ some x) × P x
All-get P [] i h l = absurd (omega arith)
All-get P (x ∷ xs) zero h l = (x, refl, h.0)
All-get P (x ∷ xs) (suc i) h l = All-get P xs i h.1 (omega arith)

pub All-set :
    {A : Type 0} (P : A → Type 0) (xs : List A) (i : ℕ) (x : A)
    → All P xs
    → P x
    → All P (set xs i x)
All-set P [] i x h k = tt
All-set P (y ∷ xs) zero x h k = (k, h.1)
All-set P (y ∷ xs) (suc i) x h k = (h.0, All-set P xs i x h.1 k)
