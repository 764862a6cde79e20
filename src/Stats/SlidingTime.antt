-- ===== src/Stats/SlidingTime.antt =====
-- stats/aggregator_slidingtime.go. Times and durations are counted in nanoseconds, times from an origin
-- before the start of every window. The duration of a window is not negative; the multiples of a duration
-- that are computed wrap around, and are 64-bit patterns of signed numbers.
pub mod Row
pub mod Moves
pub mod Starts
pub mod Fitting
use instrumentation_go.Base.{
  ℕ, zero, suc, ◌+◌, ◌-◌, ◌*◌, ◌/◌, ◌%◌, ◌^◌, List, [], ◌∷◌, length, set, map, ltb, eqb,
  if◌then◌else◌, ok, panics, out_of_fuel, ◌>>=◌,
}
use instrumentation_go.Stats.Outcome.{Outcome}
use instrumentation_go.Stats.Float64.{Float64}
use instrumentation_go.Stats.Ring.{at_index, next_index, add_values}
use instrumentation_go.Stats.Aggregation.{
  Sample, AggregationValue, Aggregation, new_value, add_sample, multiply_by_fraction, clear_value,
}

pub record TimeSerieEntry (R : Type 0) : Type 0 where
  pub end_time : ℕ
  pub av : AggregationValue R

pub record SlidingTime (R : Type 0) : Type 0 where
  pub kept_duration : ℕ
  pub desired_duration : ℕ
  pub sub_duration : ℕ
  pub entries : List (TimeSerieEntry R)
  pub idx : ℕ

-- A turn moves the current end on by a nanosecond at least, if the subintervals are not empty.
abbrev pub turns : ℕ → ℕ
turns now = suc now

-- `Add` of a time, for a signed duration.
abbrev pub add_duration : ℕ → ℕ → ℕ
add_duration t d = if ltb d (2 ^ 63) then t + d else t - (2 ^ 64 - d)

abbrev pub values_of : {R : Type 0} → List (TimeSerieEntry R) → List (AggregationValue R)
values_of = map (λ e. e.av)

module _ {R : Type 0} ⦃f : Float64 R⦄ where
  unfoldable pub new_time_entries : ℕ → ℕ → ℕ → Aggregation R → List (TimeSerieEntry R)
  new_time_entries zero start sub_duration a = []
  new_time_entries (suc n) start sub_duration a =
      record { end_time = start + sub_duration; av = new_value a }
      ∷ new_time_entries n (start + sub_duration) sub_duration a

  -- The division by the number of subintervals panics where that is 0.
  unfoldable pub new_sliding_time : ℕ → ℕ → ℕ → Aggregation R → Outcome (SlidingTime R)
  unfolding new_time_entries
  new_sliding_time now d n a =
      let sub_duration = d / n in
      let entries = new_time_entries (n + 1) (now - sub_duration * n) sub_duration a in
      if eqb n 0
      then panics
      else ok (record {
        kept_duration = sub_duration * length entries % 2 ^ 64;
        desired_duration = sub_duration * (length entries - 1) % 2 ^ 64;
        sub_duration = sub_duration;
        entries = entries;
        idx = n;
      })

  -- One turn of the loop of `moveToCurrentEntry`: the next entry is reused.
  unfoldable pub reuse_next : SlidingTime R → Outcome (SlidingTime R)
  unfolding at_index
  reuse_next a = do
    e ← at_index a.entries (next_index a.entries a.idx)
    ok (record a {
      idx = next_index a.entries a.idx;
      entries =
          set a.entries (next_index a.entries a.idx)
            (record { end_time = add_duration e.end_time a.kept_duration; av = clear_value e.av });
    })

  unfoldable pub move_to_current_entry : ℕ → ℕ → SlidingTime R → Outcome (SlidingTime R)
  unfolding reuse_next
  move_to_current_entry zero now a = out_of_fuel
  move_to_current_entry (suc fuel) now a =
      let more = reuse_next a >>= move_to_current_entry fuel now in
      at_index a.entries a.idx >>= λ e. if ltb now e.end_time then ok a else more

  unfoldable pub add_sliding_time : Sample R → ℕ → SlidingTime R → Outcome (SlidingTime R)
  unfolding move_to_current_entry
  add_sliding_time v now a = do
    a' ← move_to_current_entry (turns now) now a
    e ← at_index a'.entries a'.idx
    av ← add_sample v e.av
    ok (record a' { entries = set a'.entries a'.idx (record { end_time = e.end_time; av = av }) })

  -- `float64(e.endTime.Sub(now)) / float64(a.subDuration)` of the current entry scales the oldest one.
  unfoldable pub retrieve_sliding_time :
      ℕ → SlidingTime R → Outcome (SlidingTime R × AggregationValue R)
  unfolding move_to_current_entry add_values
  retrieve_sliding_time now a = do
    a' ← move_to_current_entry (turns now) now a
    e ← at_index a'.entries a'.idx
    let remaining = f.div (f.of_int64 (e.end_time - now)) (f.of_int64 a'.sub_duration)
    oldest ← at_index a'.entries (next_index a'.entries a'.idx)
    ret ←
        add_values (length a'.entries - 1) (values_of a'.entries) (next_index a'.entries a'.idx)
          (multiply_by_fraction remaining oldest.av)
    ok (a', ret)
