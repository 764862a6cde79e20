-- ===== src/Stats/SlidingTime/Fitting.antt =====
-- The values in the window of stats/aggregator_slidingtime.go, and what is collected from them.
use instrumentation_go.Base.{
  All-set, ℕ, zero, suc, ◌≡◌, ◌<◌, ◌≤◌, ◌+◌, ◌-◌, ◌/◌, ◌*◌, ◌^◌, List, [], ◌∷◌, All, length, set,
  ltb, eqb, inl, inr, Bool-cases, arith, refl, ap,
}
use native.Mathlib.Nat.{mod-lt}
use instrumentation_go.Stats.Outcome.{
  Ensures, Ensures-bind, Ensures-skip, Returns, Returns-bind, Returns-map, Returns-both,
  Returns-Ensures,
}
use instrumentation_go.Stats.Float64.{Float64}
use instrumentation_go.Stats.Ring.{at_index, next_index, add_values}
use instrumentation_go.Stats.Ring.Fitting.{at_index-All, at_index-Returns, add_values-Fits}
use instrumentation_go.Stats.Aggregation.{
  Sample, AggregationValue, Aggregation, add_sample, multiply_by_fraction,
}
use instrumentation_go.Stats.Aggregation.Shapes.{
  Fits, new_value-Fits, add_sample-Fits, clear_value-Fits, multiply_by_fraction-Fits,
}
use instrumentation_go.Stats.SlidingTime.{
  TimeSerieEntry, SlidingTime, turns, values_of, new_time_entries, new_sliding_time, reuse_next,
  move_to_current_entry, add_sliding_time, retrieve_sliding_time,
}
use instrumentation_go.Stats.SlidingTime.Row.{IsRow}
use instrumentation_go.Stats.SlidingTime.Moves.{
  IsCurrent, move_to_current_entry_lem, add_sliding_time_lem,
}
use instrumentation_go.Stats.SlidingTime.Starts.{new_sliding_time-IsRow}

module _ {R : Type 0} ⦃f : Float64 R⦄ (g : Aggregation R) where
  -- Every entry has a value of the aggregation.
  abbrev pub IsFitting : SlidingTime R → Type 0
  IsFitting a = All (λ e. Fits g e.av) a.entries

  reuse_next-IsFitting : (a : SlidingTime R) → IsFitting a → Ensures IsFitting (reuse_next a)
  unfolding reuse_next
  reuse_next-IsFitting a h =
      Ensures-bind (λ e. Fits g e.av) IsFitting (at_index a.entries (next_index a.entries a.idx)) _
        (at_index-All (λ e. Fits g e.av) a.entries (next_index a.entries a.idx) h)
        λ e k.
          All-set (λ e. Fits g e.av) a.entries (next_index a.entries a.idx) _ h
            (clear_value-Fits g e.av k)

  move_to_current_entry-IsFitting :
      (fuel now : ℕ) (a : SlidingTime R)
      → IsFitting a
      → Ensures IsFitting (move_to_current_entry fuel now a)
  unfolding move_to_current_entry
  move_to_current_entry-IsFitting zero now a h = tt
  move_to_current_entry-IsFitting (suc fuel) now a h =
      Ensures-skip IsFitting (at_index a.entries a.idx) _ λ e.
        elim (Bool-cases (ltb now e.end_time)) [
          | inl there ↦ rw there h
          | inr passed ↦ rw passed (
              Ensures-bind IsFitting IsFitting (reuse_next a) (move_to_current_entry fuel now)
                (reuse_next-IsFitting a h) (move_to_current_entry-IsFitting fuel now))
        ]

  store_current-IsFitting :
      (a : SlidingTime R) (i end : ℕ) (av : AggregationValue R)
      → Fits g av
      → IsFitting a
      → IsFitting (record a { entries = set a.entries i (record { end_time = end; av = av }) })
  store_current-IsFitting a i end av k h = All-set (λ e. Fits g e.av) a.entries i _ h k

  add_sliding_time-IsFitting :
      (v : Sample R) (now : ℕ) (a : SlidingTime R)
      → IsFitting a
      → Ensures IsFitting (add_sliding_time v now a)
  unfolding add_sliding_time
  add_sliding_time-IsFitting v now a h =
      Ensures-bind IsFitting IsFitting (move_to_current_entry (turns now) now a) _
        (move_to_current_entry-IsFitting (turns now) now a h)
        λ a' k.
          Ensures-bind (λ e. Fits g e.av) IsFitting (at_index a'.entries a'.idx) _
            (at_index-All (λ e. Fits g e.av) a'.entries a'.idx k)
            λ e m.
              Ensures-bind (Fits g) IsFitting (add_sample v e.av) _
                (Returns-Ensures (Fits g) (add_sample v e.av) (add_sample-Fits g v e.av m))
                λ av n. store_current-IsFitting a' a'.idx e.end_time av n k

  new_time_entries-IsFitting :
      (n start s : ℕ) → All (λ e. Fits g e.av) (new_time_entries n start s g)
  unfolding new_time_entries
  new_time_entries-IsFitting zero start s = tt
  new_time_entries-IsFitting (suc n) start s =
      (new_value-Fits g, new_time_entries-IsFitting n (start + s) s)

  new_sliding_time-IsFitting : (now d n : ℕ) → Ensures IsFitting (new_sliding_time now d n g)
  unfolding new_sliding_time
  new_sliding_time-IsFitting now d n = elim (Bool-cases (eqb n 0)) [
    | inl none_there ↦ rw none_there tt
    | inr some_there ↦ rw some_there (new_time_entries-IsFitting (n + 1) _ (d / n))
  ]

  All-values_of :
      (es : List (TimeSerieEntry R)) → All (λ e. Fits g e.av) es → All (Fits g) (values_of es)
  All-values_of [] h = tt
  All-values_of (e ∷ es) (h, hs) = (h, All-values_of es hs)

  length-values_of : (es : List (TimeSerieEntry R)) → length (values_of es) ≡ length es
  length-values_of [] = refl
  length-values_of (e ∷ es) = ap suc (length-values_of es)

  -- The entries are in a row, and have values of the aggregation.
  abbrev pub IsWindow : SlidingTime R → Type 0
  IsWindow a = ((end : ℕ) × IsRow a end) × IsFitting a

  pub new_sliding_time-IsWindow :
      (now d n : ℕ)
      → 0 < n
      → n ≤ d
      → d ≤ now
      → d / n * (n + 1) < 2 ^ 63
      → Returns IsWindow (new_sliding_time now d n g)
  new_sliding_time-IsWindow now d n p l m b =
      Returns-map (λ a. IsRow a (now + d / n) × IsFitting a) IsWindow (new_sliding_time now d n g)
        (Returns-both (λ a. IsRow a (now + d / n)) IsFitting (new_sliding_time now d n g)
          (new_sliding_time-IsRow now d n g p l m b) (new_sliding_time-IsFitting now d n))
        λ a (r, h). ((now + d / n, r), h)

  pub add_sliding_time-IsWindow :
      (v : Sample R) (now : ℕ) (a : SlidingTime R)
      → IsWindow a
      → Returns IsWindow (add_sliding_time v now a)
  add_sliding_time-IsWindow v now a ((end, r), h) =
      Returns-map (λ b. IsCurrent now end a.sub_duration b × IsFitting b) IsWindow
        (add_sliding_time v now a)
        (Returns-both (IsCurrent now end a.sub_duration) IsFitting (add_sliding_time v now a)
          (add_sliding_time_lem v now end a r) (add_sliding_time-IsFitting v now a h))
        λ b (k, h). ((k.new_end, k.row), h)

  move-IsWindow :
      (now : ℕ) (a : SlidingTime R)
      → IsWindow a
      → Returns IsWindow (move_to_current_entry (turns now) now a)
  move-IsWindow now a ((end, r), h) =
      Returns-map (λ b. IsCurrent now end a.sub_duration b × IsFitting b) IsWindow
        (move_to_current_entry (turns now) now a)
        (Returns-both (IsCurrent now end a.sub_duration) IsFitting
          (move_to_current_entry (turns now) now a) (move_to_current_entry_lem now end a r)
          (move_to_current_entry-IsFitting (turns now) now a h))
        λ b (k, h). ((k.new_end, k.row), h)

  -- Collecting a window at any time ends and does not fail, moves it on, and gives a value of the aggregation.
  pub retrieve_sliding_time-IsWindow :
      (now : ℕ) (a : SlidingTime R)
      → IsWindow a
      → Returns (λ p. IsWindow p.0 × Fits g p.1) (retrieve_sliding_time now a)
  unfolding retrieve_sliding_time
  retrieve_sliding_time-IsWindow now a h =
      Returns-bind IsWindow (λ p. IsWindow p.0 × Fits g p.1)
        (move_to_current_entry (turns now) now a) _ (move-IsWindow now a h)
        λ b ((end, r), k).
          let some_entries : 0 < length b.entries = omega (arith, r.current) in
          Returns-bind (λ e. Fits g e.av) (λ p. IsWindow p.0 × Fits g p.1)
            (at_index b.entries b.idx) _
            (at_index-Returns (λ e. Fits g e.av) b.entries b.idx k r.current)
            λ e m.
              Returns-bind (λ e. Fits g e.av) (λ p. IsWindow p.0 × Fits g p.1)
                (at_index b.entries (next_index b.entries b.idx)) _
                (at_index-Returns (λ e. Fits g e.av) b.entries (next_index b.entries b.idx) k
                  (mod-lt (b.idx + 1) some_entries))
                λ oldest o.
                  Returns-bind (Fits g) (λ p. IsWindow p.0 × Fits g p.1)
                    (add_values (length b.entries - 1) (values_of b.entries)
                      (next_index b.entries b.idx) (multiply_by_fraction _ oldest.av))
                    _
                    (add_values-Fits g (length b.entries - 1) (values_of b.entries)
                      (next_index b.entries b.idx) (multiply_by_fraction _ oldest.av)
                      (omega (arith, some_entries, length-values_of b.entries))
                      (All-values_of b.entries k) (multiply_by_fraction-Fits g _ oldest.av o))
                    λ ret n. (((end, r), k), n)
