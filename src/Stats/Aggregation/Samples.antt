-- ===== src/Stats/Aggregation/Samples.antt =====
-- The interface `AggregationValue` of stats/aggregation_value.go, on whole distributions.
use instrumentation_go.Base.{◌∙◌, refl}
use instrumentation_go.Stats.Outcome.{Returns, Returns-bind}
use instrumentation_go.Stats.Float64.{Float64}
use instrumentation_go.Stats.Aggregation.{
  Sample, AggregationValue, count_value, distribution_value, add_sample, clear_value,
  add_sample_distribution,
}
use instrumentation_go.Stats.Aggregation.Buckets.{
  IsDistribution, add_sample-IsDistribution, length-zeros, total-zeros,
}

abbrev pub IsValue : {R : Type 0} → AggregationValue R → Type 0
IsValue (count_value n) = Unit {0}
IsValue (distribution_value d) = IsDistribution d

module _ {R : Type 0} ⦃f : Float64 R⦄ where
  -- A sample never fails on a count or on a whole distribution, and leaves it whole.
  pub add_sample-IsValue :
      (v : Sample R) (a : AggregationValue R) → IsValue a → Returns IsValue (add_sample v a)
  unfolding add_sample
  add_sample-IsValue v (count_value n) h = tt
  add_sample-IsValue v (distribution_value d) h =
      Returns-bind IsDistribution IsValue (add_sample_distribution v d) _
        (add_sample-IsDistribution v d h) λ d' k. k

  pub clear_value-IsValue : (a : AggregationValue R) → IsValue a → IsValue (clear_value a)
  unfolding clear_value
  clear_value-IsValue (count_value n) h = tt
  clear_value-IsValue (distribution_value d) h = record {
    bucketed = length-zeros d.count_per_bucket ∙ h.bucketed;
    counted = rw (total-zeros d.count_per_bucket) refl;
  }
