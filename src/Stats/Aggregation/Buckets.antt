-- ===== src/Stats/Aggregation/Buckets.antt =====
-- The buckets of a distribution of stats/aggregation_value.go, with its count and its maximum.
use instrumentation_go.Base.{
  ℕ, zero, suc, ◌≡◌, ◌≤◌, ◌<◌, ◌+◌, ◌%◌, ◌^◌, ◌⊎◌, inl, inr, refl, ap, ◌∙◌, true, false, List, [],
  ◌∷◌, some, map, replicate, length, length-replicate, get_elem?, take, All, eqb, if◌then◌else◌, ok,
  arith, Bool-cases, ◌>>=◌,
}
use instrumentation_go.Stats.Outcome.{Outcome, Returns, Returns-bind, Returns-map}
use instrumentation_go.Stats.Float64.{Float64}
use instrumentation_go.Stats.Aggregation.{
  Sample, int64, float64, other, Distribution, add64, increment_at, add_buckets, new_distribution,
  bucket_index, increment_bucket_count, update_mean, add_float, add_sample_distribution,
  merge_distribution,
}

abbrev pub total : List ℕ → ℕ
total [] = 0
total (c ∷ cs) = c + total cs

abbrev pub zeros : List ℕ → List ℕ
zeros cs = map (λ _. 0) cs

total-replicate : (n : ℕ) → total (replicate n 0) ≡ 0
total-replicate zero = refl
total-replicate (suc n) = omega (arith, total-replicate n)

pub length-zeros : (cs : List ℕ) → length (zeros cs) ≡ length cs
length-zeros [] = refl
length-zeros (c ∷ cs) = ap suc (length-zeros cs)

pub total-zeros : (cs : List ℕ) → total (zeros cs) ≡ 0
total-zeros [] = refl
total-zeros (c ∷ cs) = omega (arith, total-zeros cs)

-- Increments `counts[i]`, and nothing else.
increment_at_lem :
    (cs : List ℕ) (i : ℕ)
    → i < length cs
    → Returns
        (λ cs'. (length cs' ≡ length cs) × (total cs' % 2 ^ 64 ≡ (total cs + 1) % 2 ^ 64))
        (increment_at cs i)
unfolding increment_at
increment_at_lem [] i h = absurd (omega arith)
increment_at_lem (c ∷ cs) zero h = (refl, omega arith)
increment_at_lem (c ∷ cs) (suc i) h =
    Returns-bind (λ cs'. (length cs' ≡ length cs) × (total cs' % 2 ^ 64 ≡ (total cs + 1) % 2 ^ 64))
      _ (increment_at cs i) _ (increment_at_lem cs i (omega arith))
      λ cs' e. (ap suc e.0, omega (arith, e.1))

add_buckets_lem :
    (cs os : List ℕ)
    → length os ≤ length cs
    → Returns
        (λ cs'. (length cs' ≡ length cs) × (total cs' % 2 ^ 64 ≡ (total cs + total os) % 2 ^ 64))
        (add_buckets cs os)
unfolding add_buckets
add_buckets_lem cs [] h = (refl, omega arith)
add_buckets_lem [] (x ∷ os) h = absurd (omega arith)
add_buckets_lem (c ∷ cs) (x ∷ os) h =
    Returns-bind
      (λ cs'. (length cs' ≡ length cs) × (total cs' % 2 ^ 64 ≡ (total cs + total os) % 2 ^ 64)) _
      (add_buckets cs os) _ (add_buckets_lem cs os (omega arith))
      λ cs' e. (ap suc e.0, omega (arith, e.1))

-- There is a bucket for each bound and one more, and together they count what `count` does.
pub record IsDistribution {R : Type 0} (d : Distribution R) : Type 0 where
  pub bucketed : length d.count_per_bucket ≡ length d.bounds + 1
  pub counted : total d.count_per_bucket % 2 ^ 64 ≡ d.count % 2 ^ 64

module _ {R : Type 0} ⦃f : Float64 R⦄ where
  bucket_index-le : (bs : List R) (x : R) → bucket_index bs x ≤ length bs
  unfolding bucket_index
  bucket_index-le [] x = omega arith
  bucket_index-le (b ∷ bs) x = ground (arith, bucket_index-le bs x)

  -- The bucket of a sample: the sample is below none of the bounds before it, and it is below the bound
  -- at the bucket's index, if there is one.
  pub bucket_index_lem :
      (bs : List R) (x : R)
      → All (λ b. f.lt x b ≡ false) (take (bucket_index bs x) bs)
        × ((bucket_index bs x ≡ length bs)
            ⊎ ((b : R) × (get_elem? bs (bucket_index bs x) ≡ some b) × (f.lt x b ≡ true)))
  unfolding bucket_index
  bucket_index_lem [] x = (tt, inl refl)
  bucket_index_lem (b ∷ bs) x = elim (Bool-cases (f.lt x b)) [
    | inl below ↦ rw below (tt, inr (b, refl, below))
    | inr above ↦ rw above (
      (above, (bucket_index_lem bs x).0),
      elim (bucket_index_lem bs x).1 [ inl e ↦ inl (ap suc e) | inr p ↦ inr p ],
    )
  ]

  pub new_distribution-IsDistribution : (bs : List R) → IsDistribution (new_distribution bs)
  unfolding new_distribution
  new_distribution-IsDistribution bs = record {
    bucketed = length-replicate (length bs + 1) 0;
    counted = ap (λ n. n % 2 ^ 64) (total-replicate (length bs + 1));
  }

  -- A distribution with the given maximum.
  abbrev HasMax : R → Distribution R → Type 0
  HasMax m d = IsDistribution d × (d.max ≡ m)

  update_mean-HasMax : (x m : R) (d : Distribution R) → HasMax m d → HasMax m (update_mean x d)
  unfolding update_mean
  update_mean-HasMax x m d (h, e) = elim (Bool-cases (eqb d.count 1)) [
    | inl one ↦ rw one (record { bucketed = h.bucketed; counted = h.counted }, e)
    | inr more ↦ rw more (record { bucketed = h.bucketed; counted = h.counted }, e)
  ]

  add_float-HasMax :
      (x : R) (d : Distribution R)
      → IsDistribution d
      → Returns (HasMax (if f.lt d.max x then x else d.max)) (add_float x d)
  unfolding add_float increment_bucket_count
  add_float-HasMax x d h =
      Returns-bind (HasMax (if f.lt d.max x then x else d.max)) _
        (increment_bucket_count x (record d {
          min = if f.lt x d.min then x else d.min;
          max = if f.lt d.max x then x else d.max;
          count = add64 d.count 1;
        }))
        _
        (Returns-bind
          (λ cs.
            (length cs ≡ length d.count_per_bucket)
            × (total cs % 2 ^ 64 ≡ (total d.count_per_bucket + 1) % 2 ^ 64))
          _ (increment_at d.count_per_bucket (bucket_index d.bounds x)) _
          (increment_at_lem d.count_per_bucket (bucket_index d.bounds x)
            (omega (arith, bucket_index-le d.bounds x, h.bucketed)))
          λ cs e.
            (record { bucketed = e.0 ∙ h.bucketed; counted = omega (arith, e.1, h.counted) }, refl))
        λ d' k. update_mean-HasMax x _ d' k

  add_float-IsDistribution :
      (x : R) (d : Distribution R) → IsDistribution d → Returns IsDistribution (add_float x d)
  add_float-IsDistribution x d h =
      Returns-map _ IsDistribution (add_float x d) (add_float-HasMax x d h) λ d' k. k.0

  -- A sample of any type leaves a distribution with a bucket for each bound and one more, whose counts
  -- add up to its count (both modulo 2 ^ 64), and never fails.
  pub add_sample-IsDistribution :
      (v : Sample R) (d : Distribution R)
      → IsDistribution d
      → Returns IsDistribution (add_sample_distribution v d)
  unfolding add_sample_distribution
  add_sample-IsDistribution (int64 n) d h = add_float-IsDistribution _ d h
  add_sample-IsDistribution (float64 x) d h = add_float-IsDistribution x d h
  add_sample-IsDistribution other d h = h

  -- Adding a distribution with as many bounds to another never fails, and leaves a bucket for each bound and
  -- one more, whose counts add up to the count (both modulo 2 ^ 64).
  pub merge_distribution-IsDistribution :
      (d o : Distribution R)
      → length o.bounds ≡ length d.bounds
      → IsDistribution d
      → IsDistribution o
      → Returns IsDistribution (merge_distribution d o)
  unfolding merge_distribution
  merge_distribution-IsDistribution d o e h k = elim (Bool-cases (eqb o.count 0)) [
    | inl empty ↦ rw empty h
    | inr full ↦ rw full (
        Returns-bind
          (λ cs.
            (length cs ≡ length d.count_per_bucket)
            × (total cs % 2 ^ 64 ≡ (total d.count_per_bucket + total o.count_per_bucket) % 2 ^ 64))
          _ (add_buckets d.count_per_bucket o.count_per_bucket) _
          (add_buckets_lem d.count_per_bucket o.count_per_bucket
            (omega (arith, e, h.bucketed, k.bucketed)))
          λ cs c. record {
            bucketed = c.0 ∙ h.bucketed;
            counted = omega (arith, c.1, h.counted, k.counted);
          })
  ]

  -- The samples one after the other.
  abbrev pub add_floats : List R → Distribution R → Outcome (Distribution R)
  add_floats [] d = ok d
  add_floats (x ∷ xs) d = add_float x d >>= add_floats xs

  add_float-max :
      (x : R) (d : Distribution R)
      → HasMax f.smallest_nonzero_float64 d
      → f.lt f.smallest_nonzero_float64 x ≡ false
      → Returns (HasMax f.smallest_nonzero_float64) (add_float x d)
  add_float-max x d (h, m) e =
      Returns-map _ (HasMax f.smallest_nonzero_float64) (add_float x d) (add_float-HasMax x d h)
        λ d' k. (k.0, k.1 ∙ rw (m, e) refl)

  add_floats-max :
      (xs : List R) (d : Distribution R)
      → HasMax f.smallest_nonzero_float64 d
      → All (λ x. f.lt f.smallest_nonzero_float64 x ≡ false) xs
      → Returns (λ d'. d'.max ≡ f.smallest_nonzero_float64) (add_floats xs d)
  add_floats-max [] d h e = h.1
  add_floats-max (x ∷ xs) d h e =
      Returns-bind (HasMax f.smallest_nonzero_float64) _ (add_float x d) _ (add_float-max x d h e.0)
        λ d' k. add_floats-max xs d' k e.1

  -- However many samples a new distribution gets, if none of them is above the smallest positive float,
  -- as where all are negative, its maximum is that smallest positive float.
  pub add_floats-new_distribution-max :
      (bs xs : List R)
      → All (λ x. f.lt f.smallest_nonzero_float64 x ≡ false) xs
      → Returns (λ d. d.max ≡ f.smallest_nonzero_float64) (add_floats xs (new_distribution bs))
  unfolding new_distribution
  add_floats-new_distribution-max bs xs e =
      add_floats-max xs (new_distribution bs) (new_distribution-IsDistribution bs, refl) e
