-- ===== src/Stats/SlidingCount.antt =====
-- stats/aggregator_slidingcount.go.
pub mod Stuck
pub mod Fitting
use Prim.Native.Nat.{min}
use instrumentation_go.Base.{
  ℕ, zero, suc, ◌+◌, ◌-◌, ◌*◌, ◌/◌, ◌%◌, ◌^◌, List, [], ◌∷◌, length, set, map, replicate, ltb, eqb,
  if◌then◌else◌, ok, panics, out_of_fuel, ◌>>=◌,
}
use instrumentation_go.Stats.Outcome.{Outcome}
use instrumentation_go.Stats.Float64.{Float64}
use instrumentation_go.Stats.Ring.{at_index, next_index, add_values}
use instrumentation_go.Stats.Aggregation.{
  Sample, AggregationValue, Aggregation, new_value, add_sample, multiply_by_fraction, clear_value,
}

pub record SubBucketEntry (R : Type 0) : Type 0 where
  pub count : ℕ
  pub av : AggregationValue R

pub record SlidingCount (R : Type 0) : Type 0 where
  pub desired_count : ℕ
  pub items_per_bucket : ℕ
  pub entries : List (SubBucketEntry R)
  pub idx : ℕ

-- uint64 subtraction.
abbrev pub sub64 : ℕ → ℕ → ℕ
sub64 a b = (a + 2 ^ 64 - b) % 2 ^ 64

module _ {R : Type 0} ⦃f : Float64 R⦄ where
  -- `math.Min` of the two numbers as floats is exact below 2 ^ 53; the division panics where it is 0.
  unfoldable pub new_sliding_count : ℕ → ℕ → Aggregation R → Outcome (SlidingCount R)
  new_sliding_count desired buckets a =
      if eqb (min desired buckets) 0
      then panics
      else ok (record {
        desired_count = desired;
        items_per_bucket = desired / min desired buckets;
        entries = replicate (buckets + 1) (record { count = 0; av = new_value a });
        idx = 0;
      })

  -- `e.count++` and `e.av.addSample(v)` on the current entry.
  unfoldable pub add_to_entry :
      Sample R → SlidingCount R → SubBucketEntry R → Outcome (SlidingCount R)
  add_to_entry v a e = do
    av ← add_sample v e.av
    ok (record a {
      entries = set a.entries a.idx (record { count = (e.count + 1) % 2 ^ 64; av = av });
    })

  -- The step to the next entry once the current one is full. The entry's count is left as it is.
  unfoldable pub to_next_entry : SlidingCount R → Outcome (SlidingCount R × SubBucketEntry R)
  unfolding at_index
  to_next_entry a = do
    e ← at_index a.entries (next_index a.entries a.idx)
    ok (
      record a { idx = next_index a.entries a.idx },
      record { count = e.count; av = clear_value e.av },
    )

  unfoldable pub add_sliding_count : Sample R → SlidingCount R → Outcome (SlidingCount R)
  unfolding add_to_entry to_next_entry
  add_sliding_count v a =
      let moved = to_next_entry a >>= λ (a', e'). add_to_entry v a' e' in
      at_index a.entries a.idx >>= λ e.
      if eqb e.count a.items_per_bucket then moved else add_to_entry v a e

  unfoldable pub retrieve_sliding_count : SlidingCount R → Outcome (AggregationValue R)
  unfolding at_index add_values
  retrieve_sliding_count a = do
    e ← at_index a.entries a.idx
    let remaining =
        f.div (f.of_uint64 (sub64 a.items_per_bucket e.count)) (f.of_uint64 a.items_per_bucket)
    oldest ← at_index a.entries (next_index a.entries a.idx)
    add_values (length a.entries - 1) (map (λ x. x.av) a.entries) (next_index a.entries a.idx)
        (multiply_by_fraction remaining oldest.av)
