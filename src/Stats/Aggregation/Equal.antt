-- ===== src/Stats/Aggregation/Equal.antt =====
-- The comparison of the values of stats/aggregation_value.go.
use instrumentation_go.Base.{
  ℕ, ◌-◌, ◌^◌, Bool, true, false, ◌&&◌, ◌||◌, List, [], ◌∷◌, eqb, leb, if◌then◌else◌,
}
use instrumentation_go.Stats.Float64.{Float64}
use instrumentation_go.Stats.Aggregation.{
  Distribution, AggregationValue, count_value, distribution_value,
}

-- The comparison of the lengths with the loop over the buckets.
unfoldable pub equal_buckets : List ℕ → List ℕ → Bool
equal_buckets [] [] = true
equal_buckets [] (d ∷ ds) = false
equal_buckets (c ∷ cs) [] = false
equal_buckets (c ∷ cs) (d ∷ ds) = eqb c d && equal_buckets cs ds

module _ {R : Type 0} ⦃f : Float64 R⦄ where
  -- `a.count <= 1` and `a.count - 1` of an int64.
  unfoldable pub variance : Distribution R → R
  variance d =
      if leb d.count 1 || leb (2 ^ 63) d.count
      then f.zero_float
      else f.div d.sum_of_squared_dev (f.of_int64 (d.count - 1))

  -- `math.Pow(x-y, 2) < epsilon`, where epsilon is `math.Pow10(-9)`.
  unfoldable pub is_near : R → R → Bool
  is_near x y = f.lt (f.pow (f.sub x y) f.two) (f.pow10 (2 ^ 64 - 9))

  -- The bounds are not compared.
  unfoldable pub equal_distribution : Distribution R → Distribution R → Bool
  unfolding equal_buckets variance is_near
  equal_distribution a b =
      equal_buckets a.count_per_bucket b.count_per_bucket
      && eqb a.count b.count
      && f.eq a.min b.min
      && f.eq a.max b.max
      && is_near a.mean b.mean
      && is_near (variance a) (variance b)

  -- A value is never nil.
  unfoldable pub equal_value : AggregationValue R → AggregationValue R → Bool
  unfolding equal_distribution
  equal_value (count_value m) (count_value n) = eqb m n
  equal_value (count_value m) (distribution_value b) = false
  equal_value (distribution_value a) (count_value n) = false
  equal_value (distribution_value a) (distribution_value b) = equal_distribution a b
