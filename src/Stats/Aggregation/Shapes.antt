-- ===== src/Stats/Aggregation/Shapes.antt =====
-- The values of stats/aggregation_value.go that belong to one aggregation: counts, or distributions over
-- as many bounds.
use instrumentation_go.Base.{◌≡◌, ◌∙◌, refl, sym, eqb, length, inl, inr, Bool-cases}
use instrumentation_go.Stats.Outcome.{
  Ensures, Ensures-bind, Ensures-skip, Returns, Returns-bind, Returns-both,
}
use instrumentation_go.Stats.Float64.{Float64}
use instrumentation_go.Stats.Aggregation.{
  Sample, int64, float64, other, Distribution, AggregationValue, count_value, distribution_value,
  Aggregation, aggregation_count, aggregation_distribution, new_value, new_distribution, add_sample,
  add_sample_distribution, add_float, increment_bucket_count, update_mean, multiply_by_fraction,
  merge_distribution, add_to_it, clear_value, add_buckets, increment_at, bucket_index,
}
use instrumentation_go.Stats.Aggregation.Buckets.{
  IsDistribution, new_distribution-IsDistribution, add_sample-IsDistribution,
  merge_distribution-IsDistribution,
}
use instrumentation_go.Stats.Aggregation.Samples.{clear_value-IsValue}

-- The value is whole, and of the kind and with the bounds of the aggregation.
abbrev pub Fits : {R : Type 0} → Aggregation R → AggregationValue R → Type 0
Fits aggregation_count (count_value n) = Unit {0}
Fits aggregation_count (distribution_value d) = ⊥
Fits (aggregation_distribution bs) (count_value n) = ⊥
Fits (aggregation_distribution bs) (distribution_value d) =
    IsDistribution d × (length d.bounds ≡ length bs)

module _ {R : Type 0} ⦃f : Float64 R⦄ where
  pub new_value-Fits : (g : Aggregation R) → Fits g (new_value g)
  unfolding new_value new_distribution
  new_value-Fits aggregation_count = tt
  new_value-Fits (aggregation_distribution bs) = (new_distribution-IsDistribution bs, refl)

  -- The bounds of a distribution never change.
  abbrev KeepsBounds : Distribution R → Distribution R → Type 0
  KeepsBounds d d' = d'.bounds ≡ d.bounds

  update_mean-bounds : (x : R) (d : Distribution R) → KeepsBounds d (update_mean x d)
  unfolding update_mean
  update_mean-bounds x d = elim (Bool-cases (eqb d.count 1)) [
    | inl one ↦ rw one refl
    | inr more ↦ rw more refl
  ]

  add_float-bounds : (x : R) (d : Distribution R) → Ensures (KeepsBounds d) (add_float x d)
  unfolding add_float increment_bucket_count
  add_float-bounds x d =
      Ensures-bind (KeepsBounds d) (KeepsBounds d) (increment_bucket_count x _) _
        (Ensures-skip (KeepsBounds d) (increment_at d.count_per_bucket (bucket_index d.bounds x)) _
          λ cs. refl)
        λ d' h. update_mean-bounds x d' ∙ h

  add_sample_distribution-bounds :
      (v : Sample R) (d : Distribution R) → Ensures (KeepsBounds d) (add_sample_distribution v d)
  unfolding add_sample_distribution
  add_sample_distribution-bounds (int64 n) d = add_float-bounds _ d
  add_sample_distribution-bounds (float64 x) d = add_float-bounds x d
  add_sample_distribution-bounds other d = refl

  pub add_sample-Fits :
      (g : Aggregation R) (v : Sample R) (a : AggregationValue R)
      → Fits g a
      → Returns (Fits g) (add_sample v a)
  unfolding add_sample
  add_sample-Fits aggregation_count v (count_value n) h = tt
  add_sample-Fits aggregation_count v (distribution_value d) h = absurd h
  add_sample-Fits (aggregation_distribution bs) v (count_value n) h = absurd h
  add_sample-Fits (aggregation_distribution bs) v (distribution_value d) (h, l) =
      Returns-bind (λ d'. IsDistribution d' × KeepsBounds d d') (Fits (aggregation_distribution bs))
        (add_sample_distribution v d) _
        (Returns-both IsDistribution (KeepsBounds d) (add_sample_distribution v d)
          (add_sample-IsDistribution v d h) (add_sample_distribution-bounds v d))
        λ d' (k, b). (k, rw b l)

  pub clear_value-Fits :
      (g : Aggregation R) (a : AggregationValue R) → Fits g a → Fits g (clear_value a)
  unfolding clear_value
  clear_value-Fits aggregation_count (count_value n) h = tt
  clear_value-Fits aggregation_count (distribution_value d) h = absurd h
  clear_value-Fits (aggregation_distribution bs) (count_value n) h = absurd h
  clear_value-Fits (aggregation_distribution bs) (distribution_value d) (h, l) =
      (clear_value-IsValue (distribution_value d) h, l)

  pub multiply_by_fraction-Fits :
      (g : Aggregation R) (x : R) (a : AggregationValue R)
      → Fits g a
      → Fits g (multiply_by_fraction x a)
  unfolding multiply_by_fraction
  multiply_by_fraction-Fits aggregation_count x (count_value n) h = tt
  multiply_by_fraction-Fits aggregation_count x (distribution_value d) h = absurd h
  multiply_by_fraction-Fits (aggregation_distribution bs) x (count_value n) h = absurd h
  multiply_by_fraction-Fits (aggregation_distribution bs) x (distribution_value d) h = h

  merge_distribution-bounds :
      (d o : Distribution R) → Ensures (KeepsBounds d) (merge_distribution d o)
  unfolding merge_distribution
  merge_distribution-bounds d o = elim (Bool-cases (eqb o.count 0)) [
    | inl empty ↦ rw empty refl
    | inr full ↦ rw full (
        Ensures-skip (KeepsBounds d) (add_buckets d.count_per_bucket o.count_per_bucket) _
          λ cs. refl)
  ]

  pub add_to_it-Fits :
      (g : Aggregation R) (a b : AggregationValue R)
      → Fits g a
      → Fits g b
      → Returns (Fits g) (add_to_it a b)
  unfolding add_to_it
  add_to_it-Fits aggregation_count (count_value n) (count_value m) h k = tt
  add_to_it-Fits aggregation_count (count_value n) (distribution_value o) h k = tt
  add_to_it-Fits aggregation_count (distribution_value d) b h k = absurd h
  add_to_it-Fits (aggregation_distribution bs) (count_value n) b h k = absurd h
  add_to_it-Fits (aggregation_distribution bs) (distribution_value d) (count_value m) h k = absurd k
  add_to_it-Fits (aggregation_distribution bs) (distribution_value d) (distribution_value o) (h, l)
        (k, m) =
      Returns-bind (λ d'. IsDistribution d' × KeepsBounds d d') (Fits (aggregation_distribution bs))
        (merge_distribution d o) _
        (Returns-both IsDistribution (KeepsBounds d) (merge_distribution d o)
          (merge_distribution-IsDistribution d o (m ∙ sym l) h k) (merge_distribution-bounds d o))
        λ d' (k, b). (k, rw b l)
