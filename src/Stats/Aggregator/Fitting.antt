-- ===== src/Stats/Aggregator/Fitting.antt =====
-- The aggregators of package stats that never fail: the cumulative ones, those of a window of time with
-- as many nanoseconds as subintervals at least, and those of a window of some samples in some subsets.
use instrumentation_go.Base.{ℕ, ◌+◌, ◌*◌, ◌/◌, ◌^◌, ◌<◌, ◌≤◌, arith}
use instrumentation_go.Stats.Outcome.{Returns, Returns-bind}
use instrumentation_go.Stats.Float64.{Float64}
use instrumentation_go.Stats.Aggregation.{Sample, Aggregation, add_sample}
use instrumentation_go.Stats.Aggregation.Shapes.{Fits, new_value-Fits, add_sample-Fits}
use instrumentation_go.Stats.SlidingTime.{new_sliding_time, add_sliding_time, retrieve_sliding_time}
use instrumentation_go.Stats.SlidingTime.Fitting.{
  IsWindow, new_sliding_time-IsWindow, add_sliding_time-IsWindow, retrieve_sliding_time-IsWindow,
}
use instrumentation_go.Stats.SlidingCount.{
  new_sliding_count, add_sliding_count, retrieve_sliding_count,
}
use instrumentation_go.Stats.SlidingCount.Fitting.{
  IsCounting, new_sliding_count-IsCounting, add_sliding_count-IsCounting,
  retrieve_sliding_count-Fits,
}
use instrumentation_go.Stats.Aggregator.{
  Aggregator, cumulative, sliding_time, sliding_count, Window, window_cumulative,
  window_sliding_time, window_sliding_count, new_aggregator, add_to_aggregator, retrieve_collected,
}

-- A window that is cumulative; a window of time which is not longer than the time `earliest` since the
-- origin of times, not shorter in nanoseconds than the number of its subintervals, and with one more
-- subinterval still an int64; or a window of one
-- sample at least in one subset at least.
abbrev pub IsRegular : ℕ → Window → Type 0
IsRegular earliest window_cumulative = Unit {0}
IsRegular earliest (window_sliding_time d n) =
    (0 < n) × (n ≤ d) × (d ≤ earliest) × (d / n * (n + 1) < 2 ^ 63)
IsRegular earliest (window_sliding_count n k) = (0 < n) × (0 < k)

module _ {R : Type 0} ⦃f : Float64 R⦄ (g : Aggregation R) where
  abbrev pub IsAggregator : Aggregator R → Type 0
  IsAggregator (cumulative c) = Fits g c.av
  IsAggregator (sliding_time t) = IsWindow g t
  IsAggregator (sliding_count c) = IsCounting g c

  pub new_aggregator-IsAggregator :
      (earliest now : ℕ) (w : Window)
      → IsRegular earliest w
      → earliest ≤ now
      → Returns IsAggregator (new_aggregator w now g)
  unfolding new_aggregator
  new_aggregator-IsAggregator earliest now window_cumulative h l = new_value-Fits g
  new_aggregator-IsAggregator earliest now (window_sliding_time d n) (p, s, b, e) l =
      Returns-bind (IsWindow g) IsAggregator (new_sliding_time now d n g) _
        (new_sliding_time-IsWindow g now d n p s (omega arith) e) λ t h. h
  new_aggregator-IsAggregator earliest now (window_sliding_count n k) (p, q) l =
      Returns-bind (IsCounting g) IsAggregator (new_sliding_count n k g) _
        (new_sliding_count-IsCounting g n k p q) λ c h. h

  pub add_to_aggregator-IsAggregator :
      (v : Sample R) (now : ℕ) (a : Aggregator R)
      → IsAggregator a
      → Returns IsAggregator (add_to_aggregator v now a)
  unfolding add_to_aggregator
  add_to_aggregator-IsAggregator v now (cumulative c) h =
      Returns-bind (Fits g) IsAggregator (add_sample v c.av) _ (add_sample-Fits g v c.av h)
        λ av k. k
  add_to_aggregator-IsAggregator v now (sliding_time t) h =
      Returns-bind (IsWindow g) IsAggregator (add_sliding_time v now t) _
        (add_sliding_time-IsWindow g v now t h) λ t' k. k
  add_to_aggregator-IsAggregator v now (sliding_count c) h =
      Returns-bind (IsCounting g) IsAggregator (add_sliding_count v c) _
        (add_sliding_count-IsCounting g v c h) λ c' k. k

  pub retrieve_collected-IsAggregator :
      (now : ℕ) (a : Aggregator R)
      → IsAggregator a
      → Returns (λ p. IsAggregator p.0 × Fits g p.1) (retrieve_collected now a)
  unfolding retrieve_collected
  retrieve_collected-IsAggregator now (cumulative c) h = (h, h)
  retrieve_collected-IsAggregator now (sliding_time t) h =
      Returns-bind (λ p. IsWindow g p.0 × Fits g p.1) (λ p. IsAggregator p.0 × Fits g p.1)
        (retrieve_sliding_time now t) _ (retrieve_sliding_time-IsWindow g now t h) λ p k. k
  retrieve_collected-IsAggregator now (sliding_count c) h =
      Returns-bind (Fits g) (λ p. IsAggregator p.0 × Fits g p.1) (retrieve_sliding_count c) _
        (retrieve_sliding_count-Fits g c h) λ av k. (h, k)
