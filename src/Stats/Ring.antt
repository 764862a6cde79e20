-- ===== src/Stats/Ring.antt =====
-- The circular slices of entries that both sliding aggregators of package stats keep.
pub mod Fitting
use instrumentation_go.Base.{
  ℕ, ◌≡◌, refl, zero, suc, ◌+◌, ◌%◌, List, none, some, length, get_elem?, ok, panics, ◌>>=◌,
}
use instrumentation_go.Stats.Outcome.{Outcome}
use instrumentation_go.Stats.Float64.{Float64}
use instrumentation_go.Stats.Aggregation.{AggregationValue, add_to_it}

-- `a[i]`
unfoldable pub at_index : {A : Type 0} → List A → ℕ → Outcome A
at_index xs i = elim (get_elem? xs i) [ none ↦ panics | some x ↦ ok x ]

pub at_index-some :
    {A : Type 0} (xs : List A) (i : ℕ) (x : A) → get_elem? xs i ≡ some x → at_index xs i ≡ ok x
unfolding at_index
at_index-some xs i x h = rw (h, at_index) refl

-- `(i + 1) % len(a)`
abbrev pub next_index : {A : Type 0} → List A → ℕ → ℕ
next_index xs i = (i + 1) % length xs

-- The loop of both `retrieveCollected`s: `n` entries from the one behind `oldest` on are added.
unfoldable pub add_values :
    {R : Type 0} ⦃f : Float64 R⦄
    → ℕ
    → List (AggregationValue R)
    → ℕ
    → AggregationValue R
    → Outcome (AggregationValue R)
unfolding at_index
add_values zero avs oldest ret = ok ret
add_values (suc n) avs oldest ret = do
  av ← at_index avs (next_index avs oldest)
  ret' ← add_to_it ret av
  add_values n avs (next_index avs oldest) ret'
