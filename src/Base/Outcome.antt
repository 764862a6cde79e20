-- ===== src/Base/Outcome.antt =====
-- The ways out of a Go function: a value, a value of type error, or a run-time panic. `out_of_fuel` is
-- no Go outcome: a loop of the model has used up its fuel.

pub data Result {ℓ} (E : Type ℓ) (A : Type ℓ) : Type ℓ where
  ok : A → Result E A
  err : E → Result E A
  panics : Result E A
  out_of_fuel : Result E A

infixl 5 ◌>>=◌
abbrev pub ◌>>=◌ {ℓ} : {E A B : Type ℓ} → Result E A → (A → Result E B) → Result E B
ok a >>= f = f a
err e >>= f = err e
panics >>= f = panics
out_of_fuel >>= f = out_of_fuel
