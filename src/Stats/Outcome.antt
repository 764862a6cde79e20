-- ===== src/Stats/Outcome.antt =====
-- How a function of package stats that returns no error ends: with a value or with a panic. A loop of
-- the model that used up its fuel stands for one that does not end.
use instrumentation_go.Base.{Result, ok, err, panics, out_of_fuel, ◌>>=◌}

abbrev pub Outcome : Type 0 → Type 0
Outcome A = Result ⊥ A

-- What holds of a value, if there is one.
abbrev pub Ensures : {A : Type 0} → (A → Type 0) → Outcome A → Type 0
Ensures P (ok a) = P a
Ensures P (err e) = Unit {0}
Ensures P panics = Unit {0}
Ensures P out_of_fuel = Unit {0}

pub Ensures-bind :
    {A B : Type 0} (P : A → Type 0) (Q : B → Type 0) (m : Outcome A) (k : A → Outcome B)
    → Ensures P m
    → ((a : A) → P a → Ensures Q (k a))
    → Ensures Q (m >>= k)
Ensures-bind P Q (ok a) k h g = g a h
Ensures-bind P Q (err e) k h g = tt
Ensures-bind P Q panics k h g = tt
Ensures-bind P Q out_of_fuel k h g = tt

pub Ensures-all : {A : Type 0} (P : A → Type 0) (m : Outcome A) → ((a : A) → P a) → Ensures P m
Ensures-all P (ok a) h = h a
Ensures-all P (err e) h = tt
Ensures-all P panics h = tt
Ensures-all P out_of_fuel h = tt

-- For a part of which nothing has to be known.
pub Ensures-skip :
    {A B : Type 0} (Q : B → Type 0) (m : Outcome A) (k : A → Outcome B)
    → ((a : A) → Ensures Q (k a))
    → Ensures Q (m >>= k)
Ensures-skip Q m k g =
    Ensures-bind (λ _. Unit {0}) Q m k (Ensures-all (λ _. Unit {0}) m (λ _. tt)) (λ a _. g a)

-- There is a value, and the predicate holds of it.
abbrev pub Returns : {A : Type 0} → (A → Type 0) → Outcome A → Type 0
Returns P (ok a) = P a
Returns P (err e) = ⊥
Returns P panics = ⊥
Returns P out_of_fuel = ⊥

pub Returns-bind :
    {A B : Type 0} (P : A → Type 0) (Q : B → Type 0) (m : Outcome A) (k : A → Outcome B)
    → Returns P m
    → ((a : A) → P a → Returns Q (k a))
    → Returns Q (m >>= k)
Returns-bind P Q (ok a) k h g = g a h
Returns-bind P Q (err e) k h g = absurd h
Returns-bind P Q panics k h g = absurd h
Returns-bind P Q out_of_fuel k h g = absurd h

pub Returns-map :
    {A : Type 0} (P Q : A → Type 0) (m : Outcome A)
    → Returns P m
    → ((a : A) → P a → Q a)
    → Returns Q m
Returns-map P Q (ok a) h g = g a h
Returns-map P Q (err e) h g = absurd h
Returns-map P Q panics h g = absurd h
Returns-map P Q out_of_fuel h g = absurd h

pub Ensures-map :
    {A : Type 0} (P Q : A → Type 0) (m : Outcome A)
    → Ensures P m
    → ((a : A) → P a → Q a)
    → Ensures Q m
Ensures-map P Q (ok a) h g = g a h
Ensures-map P Q (err e) h g = tt
Ensures-map P Q panics h g = tt
Ensures-map P Q out_of_fuel h g = tt

-- What is known of the value, should there be one, holds of the value that there is.
pub Returns-both :
    {A : Type 0} (P Q : A → Type 0) (m : Outcome A)
    → Returns P m
    → Ensures Q m
    → Returns (λ a. P a × Q a) m
Returns-both P Q (ok a) h k = (h, k)
Returns-both P Q (err e) h k = absurd h
Returns-both P Q panics h k = absurd h
Returns-both P Q out_of_fuel h k = absurd h

pub Returns-Ensures : {A : Type 0} (P : A → Type 0) (m : Outcome A) → Returns P m → Ensures P m
Returns-Ensures P (ok a) h = h
Returns-Ensures P (err e) h = tt
Returns-Ensures P panics h = tt
Returns-Ensures P out_of_fuel h = tt
