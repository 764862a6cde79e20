-- ===== src/Stats/Aggregation.antt =====
-- stats/aggregation_value.go and stats/aggregation.go: the aggregated data of a row.
pub mod Buckets
pub mod Samples
pub mod Shapes
pub mod Equal
use instrumentation_go.Base.{
  ℕ, zero, suc, ◌+◌, ◌*◌, ◌%◌, ◌^◌, Bool, true, false, List, [], ◌∷◌, length, replicate, map, ltb,
  eqb, if◌then◌else◌, ok, panics, ◌>>=◌,
}
use instrumentation_go.Stats.Outcome.{Outcome}
use instrumentation_go.Stats.Float64.{Float64}

-- A recorded value, of the dynamic type int64, float64 or any other.
pub data Sample (R : Type 0) : Type 0 where
  int64 : ℕ → Sample R
  float64 : R → Sample R
  other : Sample R

pub record Distribution (R : Type 0) : Type 0 where
  pub count : ℕ
  pub min : R
  pub max : R
  pub mean : R
  pub sum_of_squared_dev : R
  pub count_per_bucket : List ℕ
  pub bounds : List R

pub data AggregationValue (R : Type 0) : Type 0 where
  count_value : ℕ → AggregationValue R
  distribution_value : Distribution R → AggregationValue R

pub data Aggregation (R : Type 0) : Type 0 where
  aggregation_count : Aggregation R
  aggregation_distribution : List R → Aggregation R

-- Addition and multiplication of int64, on 64-bit patterns.
abbrev pub add64 : ℕ → ℕ → ℕ
add64 a b = (a + b) % 2 ^ 64

abbrev pub mul64 : ℕ → ℕ → ℕ
mul64 a b = a * b % 2 ^ 64

-- `counts[i]++`
unfoldable pub increment_at : List ℕ → ℕ → Outcome (List ℕ)
increment_at [] i = panics
increment_at (c ∷ cs) zero = ok (add64 c 1 ∷ cs)
increment_at (c ∷ cs) (suc i) = do cs' ← increment_at cs i; ok (c ∷ cs')

-- `a[i] = a[i] + other[i]` for every index of `other`.
unfoldable pub add_buckets : List ℕ → List ℕ → Outcome (List ℕ)
add_buckets cs [] = ok cs
add_buckets [] (o ∷ os) = panics
add_buckets (c ∷ cs) (o ∷ os) = do cs' ← add_buckets cs os; ok (add64 c o ∷ cs')

module _ {R : Type 0} ⦃f : Float64 R⦄ where
  unfoldable pub new_distribution : List R → Distribution R
  new_distribution bounds = record {
    count = 0;
    min = f.max_float64;
    max = f.smallest_nonzero_float64;
    mean = f.zero_float;
    sum_of_squared_dev = f.zero_float;
    count_per_bucket = replicate (length bounds + 1) 0;
    bounds = bounds;
  }

  unfoldable pub new_value : Aggregation R → AggregationValue R
  unfolding new_distribution
  new_value aggregation_count = count_value 0
  new_value (aggregation_distribution bounds) = distribution_value (new_distribution bounds)

  -- The loop of `incrementBucketCount`: the first bound above the value, or the number of bounds.
  unfoldable pub bucket_index : List R → R → ℕ
  bucket_index [] x = 0
  bucket_index (b ∷ bs) x = let rest = bucket_index bs x in if f.lt x b then 0 else suc rest

  unfoldable pub increment_bucket_count : R → Distribution R → Outcome (Distribution R)
  unfolding increment_at bucket_index
  increment_bucket_count x d = do
    cs ← increment_at d.count_per_bucket (bucket_index d.bounds x)
    ok (record d { count_per_bucket = cs })

  -- The part of `addSample` behind the bucket count.
  unfoldable pub update_mean : R → Distribution R → Distribution R
  update_mean x d =
      let mean = f.add d.mean (f.div (f.sub x d.mean) (f.of_int64 d.count)) in
      if eqb d.count 1 then record d { mean = x } else record d {
        mean = mean;
        sum_of_squared_dev = f.add d.sum_of_squared_dev (f.mul (f.sub x d.mean) (f.sub x mean));
      }

  unfoldable pub add_float : R → Distribution R → Outcome (Distribution R)
  unfolding increment_bucket_count update_mean
  add_float x d = do
    d' ← increment_bucket_count x (record d {
      min = if f.lt x d.min then x else d.min;
      max = if f.lt d.max x then x else d.max;
      count = add64 d.count 1;
    })
    ok (update_mean x d')

  unfoldable pub add_sample_distribution : Sample R → Distribution R → Outcome (Distribution R)
  unfolding add_float
  add_sample_distribution (int64 n) d = add_float (f.of_int64 n) d
  add_sample_distribution (float64 x) d = add_float x d
  add_sample_distribution other d = ok d

  unfoldable pub add_sample : Sample R → AggregationValue R → Outcome (AggregationValue R)
  unfolding add_sample_distribution
  add_sample v (count_value n) = ok (count_value (add64 n 1))
  add_sample v (distribution_value d) = do
    d' ← add_sample_distribution v d
    ok (distribution_value d')

  -- A count is scaled and rounded; a distribution is copied whole.
  unfoldable pub multiply_by_fraction : R → AggregationValue R → AggregationValue R
  multiply_by_fraction fraction (count_value n) =
      count_value (f.to_int64 (f.add (f.mul (f.of_int64 n) fraction) f.half))
  multiply_by_fraction fraction (distribution_value d) = distribution_value d

  abbrev sum : Distribution R → R
  sum d = f.mul d.mean (f.of_int64 d.count)

  unfoldable pub merge_distribution : Distribution R → Distribution R → Outcome (Distribution R)
  unfolding add_buckets
  merge_distribution d o =
      let delta = f.sub o.mean d.mean in
      let both = f.of_int64 (add64 d.count o.count) in
      let merged = (do
        cs ← add_buckets d.count_per_bucket o.count_per_bucket
        ok (record d {
          min = if f.lt o.min d.min then o.min else d.min;
          max = if f.lt d.max o.max then o.max else d.max;
          sum_of_squared_dev =
              f.add (f.add d.sum_of_squared_dev o.sum_of_squared_dev)
                (f.div (f.mul (f.pow delta f.two) (f.of_int64 (mul64 d.count o.count))) both);
          mean = f.div (f.add (sum d) (sum o)) both;
          count = add64 d.count o.count;
          count_per_bucket = cs;
        })) in
      if eqb o.count 0 then ok d else merged

  unfoldable pub add_to_it : AggregationValue R → AggregationValue R → Outcome (AggregationValue R)
  unfolding merge_distribution
  add_to_it (count_value n) (count_value m) = ok (count_value (add64 n m))
  add_to_it (count_value n) (distribution_value o) = ok (count_value n)
  add_to_it (distribution_value d) (count_value m) = ok (distribution_value d)
  add_to_it (distribution_value d) (distribution_value o) = do
    d' ← merge_distribution d o
    ok (distribution_value d')

  unfoldable pub clear_value : AggregationValue R → AggregationValue R
  clear_value (count_value n) = count_value 0
  clear_value (distribution_value d) = distribution_value (record d {
    count = 0;
    min = f.max_float64;
    max = f.smallest_nonzero_float64;
    mean = f.zero_float;
    sum_of_squared_dev = f.zero_float;
    count_per_bucket = map (λ _. 0) d.count_per_bucket;
  })
