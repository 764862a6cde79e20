-- ===== src/Stats/Ring/Fitting.antt =====
-- The circular slices of the aggregators of package stats, whose entries all have values of one aggregation.
use instrumentation_go.Base.{All-get, ℕ, zero, suc, ◌<◌, ◌+◌, List, [], ◌∷◌, All, length}
use native.Mathlib.Nat.{mod-lt}
use instrumentation_go.Stats.Outcome.{Ensures, Returns, Returns-bind}
use instrumentation_go.Stats.Float64.{Float64}
use instrumentation_go.Stats.Ring.{at_index, at_index-some, next_index, add_values}
use instrumentation_go.Stats.Aggregation.{AggregationValue, Aggregation, add_to_it}
use instrumentation_go.Stats.Aggregation.Shapes.{Fits, add_to_it-Fits}

pub at_index-All :
    {A : Type 0} (P : A → Type 0) (xs : List A) (i : ℕ) → All P xs → Ensures P (at_index xs i)
unfolding at_index
at_index-All P [] i h = tt
at_index-All P (x ∷ xs) zero (h, hs) = h
at_index-All P (x ∷ xs) (suc i) (h, hs) = at_index-All P xs i hs

pub at_index-Returns :
    {A : Type 0} (P : A → Type 0) (xs : List A) (i : ℕ)
    → All P xs
    → i < length xs
    → Returns P (at_index xs i)
at_index-Returns P xs i h l = let (x, e, p) = All-get P xs i h l in rw (at_index-some xs i x e) p

module _ {R : Type 0} ⦃f : Float64 R⦄ (g : Aggregation R) where
  -- Adding up entries of a ring never fails.
  pub add_values-Fits :
      (n : ℕ) (avs : List (AggregationValue R)) (oldest : ℕ) (ret : AggregationValue R)
      → 0 < length avs
      → All (Fits g) avs
      → Fits g ret
      → Returns (Fits g) (add_values n avs oldest ret)
  unfolding add_values
  add_values-Fits zero avs oldest ret l h k = k
  add_values-Fits (suc n) avs oldest ret l h k =
      Returns-bind (Fits g) (Fits g) (at_index avs (next_index avs oldest)) _
        (at_index-Returns (Fits g) avs (next_index avs oldest) h (mod-lt (oldest + 1) l))
        λ av m.
          Returns-bind (Fits g) (Fits g) (add_to_it ret av) _ (add_to_it-Fits g ret av k m)
            λ ret' r. add_values-Fits n avs (next_index avs oldest) ret' l h r
