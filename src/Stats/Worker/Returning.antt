-- ===== src/Stats/Worker/Returning.antt =====
-- The worker of stats/worker.go never panics, where all windows are regular and all values are short.
use instrumentation_go.Base.{
  false, eqb_iff, arith, refl, ◌≡◌, ◌≢◌, ◌⊎◌, ℕ, ◌≤◌, Bool, List, [], ◌∷◌, none, some, nat_eq, eqb,
  All, inl, inr, Option-cases, Bool-cases,
}
use instrumentation_go.Base.GoMap.{GoMap, contains}
use instrumentation_go.Tags.TagSet.{TagSet}
use instrumentation_go.Stats.Outcome.{Returns, Returns-bind, Returns-both}
use instrumentation_go.Stats.Float64.{Float64}
use instrumentation_go.Stats.Aggregation.{Sample}
use instrumentation_go.Stats.Aggregator.Fitting.{IsRegular}
use instrumentation_go.Stats.View.{
  Subscription, is_collecting, subscriptions_count, add_view_sample, collected_rows, new_view_state,
}
use instrumentation_go.Stats.View.Filled.{
  IsShort, IsFilled, add_view_sample-IsFilled, collected_rows-IsFilled,
}
use instrumentation_go.Stats.Registry.{is_nil}
use instrumentation_go.Stats.Commands.{
  Measurement, measurement_float64, measurement_int64, foreign_measurement, Objects, Worker,
  Command, new_worker,
}
use instrumentation_go.Stats.Handlers.{
  update_state, handle_retrieve, record_in, handle_record, record_measurement, record_measurements,
  handle_command,
}
use instrumentation_go.Stats.Worker.{
  Event, receives, ticks, quits, start, report_usage, report_views, after_report, first_ready,
  Channel, takes, blocks, closed,
}
use instrumentation_go.Stats.Worker.Full.{
  IsFull, update_state-IsFull, after_report-IsFilled, register_measure-IsFull,
  delete_measure-IsFull, register_view-IsFull, unregister_view-IsFull, subscribe-IsFull,
  unsubscribe-IsFull, start_forced-IsFull, stop_forced-IsFull, get_measure-IsFull, get_view-IsFull,
  set_reporting_period-IsFull,
}
use instrumentation_go.Stats.Worker.Sound.{IsSound}
use instrumentation_go.Stats.Worker.History.{start-new_worker-IsSound}

Channel-cases : (c : Channel) → (c ≡ takes) ⊎ ((c ≡ blocks) ⊎ (c ≡ closed))
Channel-cases takes = inl refl
Channel-cases blocks = inr (inl refl)
Channel-cases closed = inr (inr refl)

-- The measure of the measurement is not nil.
abbrev pub IsReal : {R : Type 0} → Measurement R → Type 0
IsReal (measurement_float64 m x) = m ≢ 0
IsReal (measurement_int64 m n) = m ≢ 0
IsReal foreign_measurement = Unit {0}

-- A sample is taken at `earliest` or later, its tags have short values, and a measure is not nil.
abbrev pub IsTimely : {R : Type 0} → ℕ → Command R → Type 0
IsTimely earliest (Command.record_float64 now ts m x) = (earliest ≤ now) × IsShort ts
IsTimely earliest (Command.record_int64 now ts m n) = (earliest ≤ now) × IsShort ts
IsTimely earliest (Command.record_all now ts ms) = (earliest ≤ now) × IsShort ts × All IsReal ms
IsTimely earliest (Command.get_measure_by_name name) = Unit {0}
IsTimely earliest (Command.register_measure m) = Unit {0}
IsTimely earliest (Command.delete_measure m) = m ≢ 0
IsTimely earliest (Command.get_view_by_name name) = Unit {0}
IsTimely earliest (Command.register_view v) = Unit {0}
IsTimely earliest (Command.unregister_view v) = Unit {0}
IsTimely earliest (Command.subscribe_to_view v c) = Unit {0}
IsTimely earliest (Command.unsubscribe_from_view v c) = Unit {0}
IsTimely earliest (Command.start_forced_collection v) = Unit {0}
IsTimely earliest (Command.stop_forced_collection v) = Unit {0}
IsTimely earliest (Command.retrieve_data now v) = Unit {0}
IsTimely earliest (Command.set_reporting_period d) = Unit {0}

-- No channel is closed.
abbrev pub IsOpen : (ℕ → Channel) → Type 0
IsOpen ready = (c : ℕ) → ready c ≢ closed

first_ready-Returns :
    (ready : ℕ → Channel) (m : GoMap ℕ Subscription)
    → IsOpen ready
    → Returns (λ found. Unit {0}) (first_ready ready m)
unfolding first_ready
first_ready-Returns ready [] h = tt
first_ready-Returns ready ((c, s) ∷ m) h = elim (Channel-cases (ready c)) [
  | inl e ↦ rw (first_ready, e) tt
  | inr (inl e) ↦ rw (first_ready, e) (first_ready-Returns ready m h)
  | inr (inr e) ↦ absurd (h c e)
]

abbrev pub IsTimelyEvent : {R : Type 0} → ℕ → Event R → Type 0
IsTimelyEvent earliest (receives none) = Unit {0}
IsTimelyEvent earliest (receives (some c)) = IsTimely earliest c
IsTimelyEvent earliest (ticks ready now) = IsOpen ready
IsTimelyEvent earliest quits = Unit {0}

-- Every view has a measure and a regular window.
abbrev pub HasUsableViews : {R : Type 0} → ℕ → Objects R → Type 0
HasUsableViews earliest o =
    (v : ℕ) → IsRegular earliest (o.view_at v).window × ((o.view_at v).m ≢ 0)

module _ {R : Type 0} ⦃f : Float64 R⦄ (o : Objects R) where
  retrieve-IsFull :
      (now v : ℕ) (w : Worker R)
      → IsFull o w
      → Returns (λ p. IsFull o p.0) (handle_retrieve o now v w)
  unfolding handle_retrieve
  retrieve-IsFull now v w h = elim (Bool-cases (contains v w.registry.views)) [
    | inl known ↦ elim (Bool-cases (is_collecting (w.view_states v))) [
      | inl busy ↦
          rw (known, busy)
            (Returns-bind (λ p. IsFilled (o.view_at v) p.0.signatures) (λ p. IsFull o p.0)
              (collected_rows (o.view_at v) now (w.view_states v)) _
              (collected_rows-IsFilled (o.view_at v) now (w.view_states v) (h v))
              λ p k. update_state-IsFull o v p.0 w k h)
      | inr idle ↦ rw (known, idle) h
    ]
    | inr unknown ↦ rw unknown h
  ]

  report_views-IsFull :
      (ready : ℕ → Channel) (now : ℕ) (vs : GoMap ℕ Bool) (w : Worker R)
      → IsOpen ready
      → IsFull o w
      → Returns (λ p. IsFull o p.0) (report_views o ready now vs w)
  unfolding report_views
  report_views-IsFull ready now [] w unclosed h = h
  report_views-IsFull ready now ((v, b) ∷ vs) w unclosed h =
      elim (Bool-cases (eqb (subscriptions_count (w.view_states v)) 0)) [
        | inl none_there ↦ rw none_there (report_views-IsFull ready now vs w unclosed h)
        | inr some_there ↦ rw some_there (
            Returns-bind (λ p. IsFilled (o.view_at v) p.0.signatures) (λ p. IsFull o p.0)
              (collected_rows (o.view_at v) now (w.view_states v)) _
              (collected_rows-IsFilled (o.view_at v) now (w.view_states v) (h v))
              λ p k.
                Returns-bind (λ found. Unit {0}) (λ p. IsFull o p.0)
                  (first_ready ready p.0.subscriptions) _
                  (first_ready-Returns ready p.0.subscriptions unclosed)
                  λ found _. elim (Option-cases found) [
                    | inl e ↦ rw e (
                        report_views-IsFull ready now vs
                          (update_state v (after_report (o.view_at v).window p.0) w) unclosed
                          (update_state-IsFull o v (after_report (o.view_at v).window p.0) w
                            (after_report-IsFilled o v (o.view_at v).window p.0 k) h))
                    | inr (c, e) ↦ rw e (update_state-IsFull o v p.0 w k h)
                  ])
      ]

  module _ (earliest : ℕ) (regular : HasUsableViews earliest o) where
    module _ (now : ℕ) (l : earliest ≤ now) (ts : TagSet) (short : IsShort ts) where
      record_in-IsFull :
          (vs : GoMap ℕ Bool) (x : Sample R) (w : Worker R)
          → IsFull o w
          → Returns (IsFull o) (record_in o vs ts x now w)
      unfolding record_in
      record_in-IsFull [] x w h = h
      record_in-IsFull ((v, b) ∷ vs) x w h =
          Returns-bind (λ s. IsFilled (o.view_at v) s.signatures) (IsFull o)
            (add_view_sample (o.view_at v) ts x now (w.view_states v)) _
            (add_view_sample-IsFilled (o.view_at v) earliest now ts x (w.view_states v)
              (regular v).0 l short (h v))
            λ s k. record_in-IsFull vs x (update_state v s w) (update_state-IsFull o v s w k h)

      record-IsFull :
          (m : ℕ) (x : Sample R) (w : Worker R)
          → IsFull o w
          → Returns (λ p. IsFull o p.0) (handle_record o now ts m x w)
      unfolding handle_record
      record-IsFull m x w h = elim (Bool-cases (contains m w.registry.measures)) [
        | inl known ↦ rw known (
            Returns-bind (IsFull o) (λ p. IsFull o p.0)
              (record_in o (w.registry.measure_views m) ts x now w) _
              (record_in-IsFull (w.registry.measure_views m) x w h) λ w' c. c)
        | inr unknown ↦ rw unknown h
      ]

      record_measurement-IsFull :
          (x : Measurement R) (w : Worker R)
          → IsReal x
          → IsFull o w
          → Returns (IsFull o) (record_measurement o now ts x w)
      unfolding record_measurement
      record_measurement-IsFull (measurement_float64 m x) w real h =
          let there : is_nil m ≡ false = ground (arith, eqb_iff m 0) in
          rw there (record_in-IsFull (w.registry.measure_views m) _ w h)
      record_measurement-IsFull (measurement_int64 m n) w real h =
          let there : is_nil m ≡ false = ground (arith, eqb_iff m 0) in
          rw there (record_in-IsFull (w.registry.measure_views m) _ w h)
      record_measurement-IsFull foreign_measurement w real h = h

      record_measurements-IsFull :
          (xs : List (Measurement R)) (w : Worker R)
          → All IsReal xs
          → IsFull o w
          → Returns (IsFull o) (record_measurements o now ts xs w)
      unfolding record_measurements
      record_measurements-IsFull [] w real h = h
      record_measurements-IsFull (x ∷ xs) w (real, rest) h =
          Returns-bind (IsFull o) (IsFull o) (record_measurement o now ts x w) _
            (record_measurement-IsFull x w real h) λ w' c. record_measurements-IsFull xs w' rest c

    pub handle_command-IsFull :
        (c : Command R) (w : Worker R)
        → IsTimely earliest c
        → IsFull o w
        → Returns (λ p. IsFull o p.0) (handle_command o c w)
    unfolding handle_command
    handle_command-IsFull (Command.get_measure_by_name name) w t h = get_measure-IsFull o name w h
    handle_command-IsFull (Command.register_measure m) w t h = register_measure-IsFull o m w h
    handle_command-IsFull (Command.delete_measure m) w t h = delete_measure-IsFull o m w t h
    handle_command-IsFull (Command.get_view_by_name name) w t h = get_view-IsFull o name w h
    handle_command-IsFull (Command.register_view v) w t h =
        register_view-IsFull o v w (regular v).1 h
    handle_command-IsFull (Command.unregister_view v) w t h = unregister_view-IsFull o v w h
    handle_command-IsFull (Command.subscribe_to_view v c) w t h =
        subscribe-IsFull o v c w (regular v).1 h
    handle_command-IsFull (Command.unsubscribe_from_view v c) w t h = unsubscribe-IsFull o v c w h
    handle_command-IsFull (Command.start_forced_collection v) w t h =
        start_forced-IsFull o v w (regular v).1 h
    handle_command-IsFull (Command.stop_forced_collection v) w t h = stop_forced-IsFull o v w h
    handle_command-IsFull (Command.retrieve_data now v) w t h = retrieve-IsFull now v w h
    handle_command-IsFull (Command.record_float64 now ts m x) w (l, short) h =
        record-IsFull now l ts short m _ w h
    handle_command-IsFull (Command.record_int64 now ts m n) w (l, short) h =
        record-IsFull now l ts short m _ w h
    handle_command-IsFull (Command.record_all now ts ms) w (l, short, real) h =
        Returns-bind (IsFull o) (λ p. IsFull o p.0) (record_measurements o now ts ms w) _
          (record_measurements-IsFull now l ts short ms w real h) λ w' c. c
    handle_command-IsFull (Command.set_reporting_period d) w t h =
        set_reporting_period-IsFull o d w h

    start-IsFull :
        (es : List (Event R)) (w : Worker R)
        → All (IsTimelyEvent earliest) es
        → IsFull o w
        → Returns (IsFull o) (start o es w)
    unfolding start report_usage
    start-IsFull [] w ts h = h
    start-IsFull (receives none ∷ es) w (t, ts) h = start-IsFull es w ts h
    start-IsFull (receives (some c) ∷ es) w (t, ts) h =
        Returns-bind (λ p. IsFull o p.0) (IsFull o) (handle_command o c w) _
          (handle_command-IsFull c w t h) λ p k. start-IsFull es p.0 ts k
    start-IsFull (ticks ready now ∷ es) w (t, ts) h =
        Returns-bind (λ p. IsFull o p.0) (IsFull o) (report_usage o ready now w) _
          (report_views-IsFull ready now w.registry.views w t h) λ p k. start-IsFull es p.0 ts k
    start-IsFull (quits ∷ es) w ts h = h

  pub new_worker-IsFull : IsFull o new_worker
  unfolding new_worker new_view_state
  new_worker-IsFull v = tt

  -- Where every view has a measure that is not nil, and a window that is cumulative, or a window of time that
  -- has a subinterval, no more subintervals than nanoseconds, at most `earliest` nanoseconds and with one
  -- more subinterval still an int64, or one of at least one sample in at least one subset; where every sample
  -- received is recorded at `earliest` or later under tags with values below 65536 bytes; and where no request
  -- deletes a nil measure or records a measurement of one, and no tick finds a channel closed: whatever events
  -- a new worker receives, the loop ends without a panic, the worker is sound, and every row of every view is
  -- filed under a values string for the tag keys of the view, with an aggregator that fits the aggregation of
  -- the view.
  pub start-new_worker-Returns :
      (earliest : ℕ) (es : List (Event R))
      → HasUsableViews earliest o
      → All (IsTimelyEvent earliest) es
      → Returns (λ w. IsFull o w × IsSound o w) (start o es new_worker)
  start-new_worker-Returns earliest es regular timely =
      Returns-both (IsFull o) (IsSound o) (start o es new_worker)
        (start-IsFull earliest regular es new_worker timely new_worker-IsFull)
        (start-new_worker-IsSound o es)
