-- ===== src/Stats/SlidingTime/Starts.antt =====
-- A new window of stats/aggregator_slidingtime.go, and the one whose subintervals are empty.
use instrumentation_go.Base.{
  All-get, All-set, ℕ, zero, suc, ◌≡◌, ◌≤◌, ◌<◌, ◌+◌, ◌-◌, ◌*◌, ◌/◌, ◌%◌, ◌^◌, refl, sym, ap, ◌∙◌,
  false, some, length, length-set, set, eqb, ltb, le→ltb, All, out_of_fuel, arith,
}
use native.Mathlib.Nat.{mod-eq_of_lt, mod-lt, add-mod_right, div-mul-le_self, le-div_iff_mul-le}
use instrumentation_go.Stats.Outcome.{Returns}
use instrumentation_go.Stats.Float64.{Float64}
use instrumentation_go.Stats.Ring.{at_index-some, next_index}
use instrumentation_go.Stats.Aggregation.{
  Aggregation, aggregation_count, aggregation_distribution, new_value, clear_value,
}
use instrumentation_go.Stats.Aggregation.Buckets.{new_distribution-IsDistribution}
use instrumentation_go.Stats.Aggregation.Samples.{IsValue}
use instrumentation_go.Stats.SlidingTime.{
  TimeSerieEntry, SlidingTime, add_duration, new_time_entries, new_sliding_time, reuse_next,
  move_to_current_entry,
}
use instrumentation_go.Stats.SlidingTime.Row.{add_duration_short, EndsAt, EndsAt-at, IsRow}

module _ {R : Type 0} ⦃f : Float64 R⦄ where
  new_value-IsValue : (g : Aggregation R) → IsValue (new_value g)
  unfolding new_value
  new_value-IsValue aggregation_count = tt
  new_value-IsValue (aggregation_distribution bs) = new_distribution-IsDistribution bs

  length-new_time_entries :
      (m start s : ℕ) (g : Aggregation R) → length (new_time_entries m start s g) ≡ m
  unfolding new_time_entries
  length-new_time_entries zero start s g = refl
  length-new_time_entries (suc m) start s g = ap suc (length-new_time_entries m (start + s) s g)

  new_time_entries-EndsAt :
      (m start s i t : ℕ) (g : Aggregation R)
      → i < m
      → t ≡ start + s + i * s
      → EndsAt (new_time_entries m start s g) i t
  unfolding new_time_entries
  new_time_entries-EndsAt zero start s i t g l e = absurd (omega arith)
  new_time_entries-EndsAt (suc m) start s zero t g l e =
      let same : start + s ≡ t = omega arith in
      record {
        av = new_value g;
        entry = ap (λ (x : ℕ). some (record { end_time = x; av = new_value g })) same;
        whole = new_value-IsValue g;
      }
  new_time_entries-EndsAt (suc m) start s (suc i) t g l e =
      let h = new_time_entries-EndsAt m (start + s) s i t g (omega arith) (omega arith) in
      record { av = h.av; entry = h.entry; whole = h.whole }

  -- A new window of a duration of at least as many nanoseconds as it has subintervals has its entries in a
  -- row, and the current one ends one subinterval after now, if the duration of all its entries, of which there
  -- is one more than subintervals, is an int64. (Times are counted from long before now.)
  pub new_sliding_time-IsRow :
      (now d n : ℕ) (g : Aggregation R)
      → 0 < n
      → n ≤ d
      → d ≤ now
      → d / n * (n + 1) < 2 ^ 63
      → Returns (λ a. IsRow a (now + d / n)) (new_sliding_time now d n g)
  unfolding new_sliding_time
  new_sliding_time-IsRow now d n g p l m b =
      let nonzero : eqb n 0 ≡ false = ground arith in
      rw nonzero (record {
        current = omega (arith, size);
        kept = kept;
        short = omega (arith, kept, all-size);
        positive = (s-positive, omega (arith, s-positive));
        behind = λ j k h e. behind j k h (e ∙ size);
      })
    where
      s : ℕ
      s = d / n

      start : ℕ
      start = now - s * n

      s-positive : 0 < s
      s-positive = (le-div_iff_mul-le p).1 (omega arith)

      size : length (new_time_entries (n + 1) start s g) ≡ n + 1
      size = length-new_time_entries (n + 1) start s g

      all-size : s * length (new_time_entries (n + 1) start s g) ≡ s * (n + 1)
      all-size = ap (λ (x : ℕ). s * x) size

      kept :
          s * length (new_time_entries (n + 1) start s g) % 2 ^ 64
          ≡ s * length (new_time_entries (n + 1) start s g)
      kept = mod-eq_of_lt (omega (arith, all-size))

      behind :
          (j k : ℕ)
          → 1 ≤ j
          → k + j ≡ n + 1
          → (t : ℕ) × (t + k * s ≡ now + s)
            × EndsAt
                (new_time_entries (n + 1) start s g)
                ((n + j) % length (new_time_entries (n + 1) start s g))
                t
      behind zero k h e = absurd (omega arith)
      behind (suc i) k h e =
          let fits = div-mul-le_self d n in
          let parts : n ≡ i + k = omega arith in
          let all : s * n ≡ i * s + k * s = ap (λ (x : ℕ). s * x) parts ∙ omega arith in
          let place : i ≡ (n + suc i) % length (new_time_entries (n + 1) start s g) =
            sym (mod-eq_of_lt (omega arith))
            ∙ sym (add-mod_right i (n + 1))
            ∙ ap (λ (x : ℕ). x % (n + 1)) (omega arith)
            ∙ ap (λ (x : ℕ). (n + suc i) % x) (sym size) in
          (
            start + s + i * s,
            omega (arith, fits, all),
            EndsAt-at place (
                new_time_entries-EndsAt (n + 1) start s i (start + s + i * s) g (omega arith) refl),
          )

  -- Where the kept duration is zero, as with fewer nanoseconds than subintervals, and all entries have
  -- ended, no number of rounds brings the loop to its end.
  pub move_to_current_entry-stalls :
      (fuel now : ℕ) (a : SlidingTime R)
      → a.kept_duration ≡ 0
      → a.idx < length a.entries
      → All (λ e. e.end_time ≤ now) a.entries
      → move_to_current_entry fuel now a ≡ out_of_fuel
  unfolding move_to_current_entry reuse_next
  move_to_current_entry-stalls zero now a z l h = refl
  move_to_current_entry-stalls (suc fuel) now a z l h =
      let next = next_index a.entries a.idx in
      let next-lt : next < length a.entries = mod-lt (a.idx + 1) (omega (arith, l)) in
      let (e, there, ended) = All-get (λ e. e.end_time ≤ now) a.entries a.idx h l in
      let (o, there', ended') = All-get (λ e. e.end_time ≤ now) a.entries next h next-lt in
      let new : TimeSerieEntry R = record {
        end_time = add_duration o.end_time a.kept_duration;
        av = clear_value o.av;
      } in
      let passed : ltb now e.end_time ≡ false = le→ltb now e.end_time ended in
      rw (at_index-some a.entries a.idx e there, passed, at_index-some a.entries next o there')
        (move_to_current_entry-stalls fuel now
          (record a { idx = next; entries = set a.entries next new }) z
          (omega (arith, next-lt, length-set a.entries next new))
          (All-set (λ e. e.end_time ≤ now) a.entries next new h
            (omega
              (arith, add_duration_short o.end_time a.kept_duration (omega arith), z, ended'))))
