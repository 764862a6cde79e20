-- ===== src/Stats/Examples/Windows.antt =====
-- The theorems about the aggregators of package stats at concrete inputs.
use instrumentation_go.Base.{
  subst, out_of_fuel, ℕ, ◌≡◌, ◌+◌, ◌/◌, ◌⊎◌, refl, true, false, List, [], ◌∷◌, some, bytes_eq,
  nat_eq, length, get_elem?, take, All, ltb, arith, ok, ◌>>=◌,
}
use instrumentation_go.Stats.Outcome.{Outcome, Returns}
use instrumentation_go.Stats.Aggregation.{
  int64, Distribution, count_value, aggregation_count, new_distribution, new_value, add_sample,
  clear_value, bucket_index, add_sample_distribution, merge_distribution,
}
use instrumentation_go.Stats.Aggregation.Buckets.{
  IsDistribution, new_distribution-IsDistribution, bucket_index_lem, add_sample-IsDistribution,
  merge_distribution-IsDistribution, add_floats, add_floats-new_distribution-max,
}
use instrumentation_go.Stats.Ring.{next_index}
use instrumentation_go.Stats.SlidingTime.{
  SlidingTime, turns, new_sliding_time, move_to_current_entry, add_sliding_time,
}
use instrumentation_go.Stats.SlidingTime.Row.{IsRow}
use instrumentation_go.Stats.SlidingTime.Moves.{
  IsCurrent, move_to_current_entry_lem, add_sliding_time_lem,
}
use instrumentation_go.Stats.SlidingTime.Starts.{
  new_sliding_time-IsRow, move_to_current_entry-stalls,
}
use instrumentation_go.Stats.SlidingCount.{SlidingCount, new_sliding_count, add_sliding_count}
use instrumentation_go.Stats.SlidingCount.Stuck.{add_all, add_all-stays}
use instrumentation_go.Base.{false}
use instrumentation_go.Stats.Examples.{naturals}

abbrev bounds : List ℕ
bounds = 10 ∷ 20 ∷ []

bucket_index_lem_example :
    All (λ b. ltb 15 b ≡ false) (take (bucket_index bounds 15) bounds)
    × ((bucket_index bounds 15 ≡ length bounds)
        ⊎ ((b : ℕ) × (get_elem? bounds (bucket_index bounds 15) ≡ some b) × (ltb 15 b ≡ true)))
bucket_index_lem_example = bucket_index_lem bounds 15

add_sample-IsDistribution_example :
    Returns IsDistribution (add_sample_distribution (int64 15) (new_distribution bounds))
add_sample-IsDistribution_example =
    add_sample-IsDistribution (int64 15) (new_distribution bounds)
      (new_distribution-IsDistribution bounds)

-- Two samples, in the first two buckets.
abbrev two_samples : Distribution ℕ
two_samples = record {
  count = 2;
  min = 5;
  max = 15;
  mean = 10;
  sum_of_squared_dev = 50;
  count_per_bucket = 1 ∷ 1 ∷ 0 ∷ [];
  bounds = bounds;
}

two_samples-IsDistribution : IsDistribution two_samples
two_samples-IsDistribution = record { bucketed = omega arith; counted = omega arith }

merge_distribution-IsDistribution_example :
    Returns IsDistribution (merge_distribution two_samples two_samples)
merge_distribution-IsDistribution_example =
    merge_distribution-IsDistribution two_samples two_samples refl two_samples-IsDistribution
      two_samples-IsDistribution

add_floats-new_distribution-max_example :
    Returns (λ d. d.max ≡ 1) (add_floats (0 ∷ 0 ∷ []) (new_distribution bounds))
add_floats-new_distribution-max_example =
    add_floats-new_distribution-max bounds (0 ∷ 0 ∷ []) (refl, (refl, tt))

-- Two subsets of one sample each, both full: the state after two samples.
abbrev full_window : SlidingCount ℕ
full_window = record {
  desired_count = 1;
  items_per_bucket = 1;
  entries =
      record { count = 1; av = count_value 1 } ∷ record { count = 1; av = count_value 1 } ∷ [];
  idx = 1;
}

abbrev full : Outcome (SlidingCount ℕ)
full = ok full_window

full_window-reached :
    (new_sliding_count 1 1 aggregation_count >>= add_all (int64 3 ∷ int64 4 ∷ [])) ≡ full
unfolding new_sliding_count add_sliding_count add_sample new_value clear_value
full_window-reached = refl

add_all-stays_example :
    Returns
      (λ a. a.idx ≡ next_index full_window.entries 1)
      (add_all (int64 3 ∷ int64 4 ∷ []) full_window)
add_all-stays_example =
    add_all-stays (int64 3) (int64 4 ∷ []) full_window
      (record { av = count_value 1; entry = refl; whole = tt })
      (record { av = count_value 1; entry = refl; whole = tt }) (omega arith)

-- A window of ten nanoseconds in two subintervals, made at the time 100.
abbrev window : SlidingTime ℕ
window = record {
  kept_duration = 15;
  desired_duration = 10;
  sub_duration = 5;
  entries =
      record { end_time = 95; av = count_value 0 }
      ∷ record { end_time = 100; av = count_value 0 }
      ∷ record { end_time = 105; av = count_value 0 }
      ∷ [];
  idx = 2;
}

window-new : new_sliding_time 100 10 2 aggregation_count ≡ ok window
unfolding new_sliding_time new_value
window-new = refl

new_sliding_time-IsRow_example :
    Returns (λ a. IsRow {R = ℕ} a (100 + 10 / 2)) (new_sliding_time 100 10 2 aggregation_count)
new_sliding_time-IsRow_example =
    new_sliding_time-IsRow 100 10 2 aggregation_count (omega arith) (omega arith) (omega arith)
      (omega arith)

window-IsRow : IsRow window 105
window-IsRow = subst (Returns (λ a. IsRow a 105)) window-new (
    new_sliding_time-IsRow 100 10 2 aggregation_count (omega arith) (omega arith) (omega arith)
      (omega arith))

-- Two subintervals on.
move_to_current_entry_lem_example :
    Returns (IsCurrent 112 105 5) (move_to_current_entry (turns 112) 112 window)
move_to_current_entry_lem_example = move_to_current_entry_lem 112 105 window window-IsRow

add_sliding_time_lem_example : Returns (IsCurrent 112 105 5) (add_sliding_time (int64 3) 112 window)
add_sliding_time_lem_example = add_sliding_time_lem (int64 3) 112 105 window window-IsRow

-- The window of one nanosecond in two subintervals, made at the time 100.
abbrev empty_subintervals : SlidingTime ℕ
empty_subintervals = record {
  kept_duration = 0;
  desired_duration = 0;
  sub_duration = 0;
  entries =
      record { end_time = 100; av = count_value 0 }
      ∷ record { end_time = 100; av = count_value 0 }
      ∷ record { end_time = 100; av = count_value 0 }
      ∷ [];
  idx = 2;
}

empty_subintervals-new : new_sliding_time 100 1 2 aggregation_count ≡ ok empty_subintervals
unfolding new_sliding_time new_value
empty_subintervals-new = refl

move_to_current_entry-stalls_example :
    move_to_current_entry (turns 100) 100 empty_subintervals ≡ out_of_fuel
move_to_current_entry-stalls_example =
    move_to_current_entry-stalls (turns 100) 100 empty_subintervals refl (omega arith)
      (omega arith, (omega arith, (omega arith, tt)))
