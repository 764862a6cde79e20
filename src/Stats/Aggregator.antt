-- ===== src/Stats/Aggregator.antt =====
-- The interface `aggregator` of stats/aggregator.go with its implementations, and stats/window.go.
pub mod Fitting
use instrumentation_go.Base.{ℕ, ok, ◌>>=◌}
use instrumentation_go.Stats.Outcome.{Outcome}
use instrumentation_go.Stats.Float64.{Float64}
use instrumentation_go.Stats.Aggregation.{
  Sample, AggregationValue, Aggregation, new_value, add_sample,
}
use instrumentation_go.Stats.SlidingTime.{
  SlidingTime, new_sliding_time, add_sliding_time, retrieve_sliding_time,
}
use instrumentation_go.Stats.SlidingCount.{
  SlidingCount, new_sliding_count, add_sliding_count, retrieve_sliding_count,
}

pub record Cumulative (R : Type 0) : Type 0 where
  pub started : ℕ
  pub av : AggregationValue R

pub data Aggregator (R : Type 0) : Type 0 where
  cumulative : Cumulative R → Aggregator R
  sliding_time : SlidingTime R → Aggregator R
  sliding_count : SlidingCount R → Aggregator R

pub data Window : Type 0 where
  window_cumulative : Window
  window_sliding_time : ℕ → ℕ → Window
  window_sliding_count : ℕ → ℕ → Window

module _ {R : Type 0} ⦃f : Float64 R⦄ where
  unfoldable pub new_aggregator : Window → ℕ → Aggregation R → Outcome (Aggregator R)
  unfolding new_sliding_time new_sliding_count
  new_aggregator window_cumulative now a =
      ok (cumulative (record { started = now; av = new_value a }))
  new_aggregator (window_sliding_time duration sub_intervals) now a = do
    t ← new_sliding_time now duration sub_intervals a
    ok (sliding_time t)
  new_aggregator (window_sliding_count n sub_sets) now a = do
    c ← new_sliding_count n sub_sets a
    ok (sliding_count c)

  unfoldable pub add_to_aggregator : Sample R → ℕ → Aggregator R → Outcome (Aggregator R)
  unfolding add_sliding_time add_sliding_count
  add_to_aggregator v now (cumulative c) = do
    av ← add_sample v c.av
    ok (cumulative (record c { av = av }))
  add_to_aggregator v now (sliding_time t) = do t' ← add_sliding_time v now t; ok (sliding_time t')
  add_to_aggregator v now (sliding_count c) = do c' ← add_sliding_count v c; ok (sliding_count c')

  -- A retrieval may move a window of time on, so it returns the aggregator too. Go returns the object that a
  -- cumulative aggregator goes on changing; here it is the value of the moment.
  unfoldable pub retrieve_collected : ℕ → Aggregator R → Outcome (Aggregator R × AggregationValue R)
  unfolding retrieve_sliding_time retrieve_sliding_count
  retrieve_collected now (cumulative c) = ok (cumulative c, c.av)
  retrieve_collected now (sliding_time t) = do
    (t', av) ← retrieve_sliding_time now t
    ok (sliding_time t', av)
  retrieve_collected now (sliding_count c) = do
    av ← retrieve_sliding_count c
    ok (sliding_count c, av)
