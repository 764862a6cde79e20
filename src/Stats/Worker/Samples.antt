-- ===== src/Stats/Worker/Samples.antt =====
-- The handlers of stats/worker_commands.go that record and retrieve, and the soundness of the worker.
use instrumentation_go.Base.{ℕ, Bool, List, [], ◌∷◌, nat_eq, bytes_eq, inl, inr, Bool-cases}
use instrumentation_go.Base.GoMap.{GoMap, contains}
use instrumentation_go.Tags.TagSet.{TagSet}
use instrumentation_go.Stats.Outcome.{Ensures, Ensures-bind}
use instrumentation_go.Stats.Float64.{Float64}
use instrumentation_go.Stats.Aggregation.{Sample}
use instrumentation_go.Stats.View.{is_collecting, add_view_sample, collected_rows}
use instrumentation_go.Stats.Registry.{is_nil}
use instrumentation_go.Stats.Commands.{
  Measurement, measurement_float64, measurement_int64, foreign_measurement, Objects, Worker,
}
use instrumentation_go.Stats.Handlers.{
  update_state, handle_retrieve, record_in, handle_record, record_measurement, record_measurements,
}
use instrumentation_go.Stats.Worker.Sound.{
  IsSound, SameUse, add_view_sample-SameUse, collected_rows-SameUse, SameUse-IsSound,
}

module _ {R : Type 0} ⦃f : Float64 R⦄ (o : Objects R) where
  pub retrieve-IsSound :
      (now v : ℕ) (w : Worker R)
      → IsSound o w
      → Ensures (λ p. IsSound o p.0) (handle_retrieve o now v w)
  unfolding handle_retrieve
  retrieve-IsSound now v w h = elim (Bool-cases (contains v w.registry.views)) [
    | inl known ↦ elim (Bool-cases (is_collecting (w.view_states v))) [
      | inl busy ↦
          rw (known, busy)
            (Ensures-bind (λ p. SameUse (w.view_states v) p.0) (λ p. IsSound o p.0)
              (collected_rows (o.view_at v) now (w.view_states v)) _
              (collected_rows-SameUse (o.view_at v) now (w.view_states v))
              λ p u. SameUse-IsSound o v p.0 w u h)
      | inr idle ↦ rw (known, idle) h
    ]
    | inr unknown ↦ rw unknown h
  ]

  record_in-IsSound :
      (vs : GoMap ℕ Bool) (ts : TagSet) (x : Sample R) (now : ℕ) (w : Worker R)
      → IsSound o w
      → Ensures (IsSound o) (record_in o vs ts x now w)
  unfolding record_in
  record_in-IsSound [] ts x now w h = h
  record_in-IsSound ((v, b) ∷ vs) ts x now w h =
      Ensures-bind (SameUse (w.view_states v)) (IsSound o)
        (add_view_sample (o.view_at v) ts x now (w.view_states v)) _
        (add_view_sample-SameUse (o.view_at v) ts x now (w.view_states v))
        λ s u. record_in-IsSound vs ts x now (update_state v s w) (SameUse-IsSound o v s w u h)

  pub record-IsSound :
      (now : ℕ) (ts : TagSet) (m : ℕ) (x : Sample R) (w : Worker R)
      → IsSound o w
      → Ensures (λ p. IsSound o p.0) (handle_record o now ts m x w)
  unfolding handle_record
  record-IsSound now ts m x w h = elim (Bool-cases (contains m w.registry.measures)) [
    | inl known ↦ rw known (
        Ensures-bind (IsSound o) (λ p. IsSound o p.0)
          (record_in o (w.registry.measure_views m) ts x now w) _
          (record_in-IsSound (w.registry.measure_views m) ts x now w h) λ w' c. c)
    | inr unknown ↦ rw unknown h
  ]

  record_measurement-IsSound :
      (now : ℕ) (ts : TagSet) (x : Measurement R) (w : Worker R)
      → IsSound o w
      → Ensures (IsSound o) (record_measurement o now ts x w)
  unfolding record_measurement
  record_measurement-IsSound now ts (measurement_float64 m x) w h = elim (Bool-cases (is_nil m)) [
    | inl nil_there ↦ rw nil_there tt
    | inr real ↦ rw real (record_in-IsSound (w.registry.measure_views m) ts _ now w h)
  ]
  record_measurement-IsSound now ts (measurement_int64 m n) w h = elim (Bool-cases (is_nil m)) [
    | inl nil_there ↦ rw nil_there tt
    | inr real ↦ rw real (record_in-IsSound (w.registry.measure_views m) ts _ now w h)
  ]
  record_measurement-IsSound now ts foreign_measurement w h = h

  pub record_measurements-IsSound :
      (now : ℕ) (ts : TagSet) (xs : List (Measurement R)) (w : Worker R)
      → IsSound o w
      → Ensures (IsSound o) (record_measurements o now ts xs w)
  unfolding record_measurements
  record_measurements-IsSound now ts [] w h = h
  record_measurements-IsSound now ts (x ∷ xs) w h =
      Ensures-bind (IsSound o) (IsSound o) (record_measurement o now ts x w) _
        (record_measurement-IsSound now ts x w h) λ w' c. record_measurements-IsSound now ts xs w' c
