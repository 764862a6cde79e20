-- ===== src/Stats/Worker/Full.antt =====
-- The handlers of stats/worker_commands.go that neither record nor retrieve, and the rows of the views.
use instrumentation_go.Base.{
  ◌≢◌, false, arith, ℕ, ◌≡◌, refl, Option, none, some, Bytes, bytes_eq, nat_eq, eqb, inl, inr,
  Option-cases, Bool-cases, subst, eqb_iff,
}
use instrumentation_go.Base.GoMap.{lookup}
use instrumentation_go.Stats.Float64.{Float64}
use instrumentation_go.Stats.Registry.{
  Names, Registry, try_register_measure, try_register_measured, is_nil, drop_view,
}
use instrumentation_go.Stats.Registry.Consistent.{measured_lem}
use instrumentation_go.Stats.Outcome.{Returns}
use instrumentation_go.Stats.Registry as Registering
use instrumentation_go.Stats.Aggregator.{
  Window, window_cumulative, window_sliding_time, window_sliding_count,
}
use instrumentation_go.Stats.View.{
  ViewState, add_subscription, delete_subscription, subscription_exists, is_collecting, clear_rows,
}
use instrumentation_go.Stats.View as Views
use instrumentation_go.Stats.View.Filled.{IsFilled}
use instrumentation_go.Stats.Commands.{
  Error, cannot_subscribe, cannot_force, Objects, names, Worker,
}
use instrumentation_go.Stats.Handlers.{
  update_state, is_not_positive, handle_get_measure, handle_get_view, handle_set_reporting_period,
  handle_register_measure, handle_delete_measure, handle_register_view, handle_unregister_view,
  handle_subscribe, handle_unsubscribe, handle_start_forced, handle_stop_forced, answer_registering,
  after_registering, clear_if_idle,
}
use instrumentation_go.Stats.Worker.{after_report}

module _ {R : Type 0} ⦃f : Float64 R⦄ (o : Objects R) where
  -- The rows of every view are those of its tag keys and its aggregation.
  abbrev pub IsFull : Worker R → Type 0
  IsFull w = (v : ℕ) → IsFilled (o.view_at v) (w.view_states v).signatures

  pub update_state-IsFull :
      (v : ℕ) (s : ViewState R) (w : Worker R)
      → IsFilled (o.view_at v) s.signatures
      → IsFull w
      → IsFull (update_state v s w)
  update_state-IsFull v s w h c u = elim (Bool-cases (eqb v u)) [
    | inl same ↦ rw same (subst (λ x. IsFilled (o.view_at x) s.signatures) ((eqb_iff v u).0 same) h)
    | inr other ↦ rw other (c u)
  ]

  -- A state with the rows of the old one, or with none.
  kept-IsFull :
      (v : ℕ) (s : ViewState R) (w : Worker R)
      → s.signatures ≡ (w.view_states v).signatures
      → IsFull w
      → IsFull (update_state v s w)
  kept-IsFull v s w e c = update_state-IsFull v s w (rw e (c v)) c

  pub after_report-IsFilled :
      (v : ℕ) (w : Window) (s : ViewState R)
      → IsFilled (o.view_at v) s.signatures
      → IsFilled (o.view_at v) (after_report w s).signatures
  unfolding after_report clear_rows
  after_report-IsFilled v window_cumulative s h = h
  after_report-IsFilled v (window_sliding_time d n) s h = tt
  after_report-IsFilled v (window_sliding_count n k) s h = tt

  answered-IsFull :
      (w : Worker R) (p : Registry × Option Registering.Error)
      → IsFull w
      → IsFull (answer_registering o w p).0
  answered-IsFull w (r, none) h = h
  answered-IsFull w (r, some e) h = h

  after_registering-IsFull :
      (v : ℕ) (wrap : Registering.Error → Error) (change : ViewState R → ViewState R) (w : Worker R)
      (p : Registry × Option Registering.Error)
      → (change (w.view_states v)).signatures ≡ (w.view_states v).signatures
      → IsFull w
      → IsFull (after_registering o v wrap change w p).0
  after_registering-IsFull v wrap change w (r, some e) k h = h
  after_registering-IsFull v wrap change w (r, none) k h =
      kept-IsFull v (change (w.view_states v)) (record w { registry = r }) k h

  cleared-IsFull :
      (v : ℕ) (s : ViewState R) (w : Worker R)
      → s.signatures ≡ (w.view_states v).signatures
      → IsFull w
      → IsFull (update_state v (clear_if_idle o s) w)
  unfolding clear_rows
  cleared-IsFull v s w e h = elim (Bool-cases (is_collecting s)) [
    | inl busy ↦ rw busy (kept-IsFull v s w e h)
    | inr idle ↦ rw idle (update_state-IsFull v (clear_rows s) w tt h)
  ]

  pub register_measure-IsFull :
      (m : ℕ) (w : Worker R) → IsFull w → IsFull (handle_register_measure o m w).0
  unfolding handle_register_measure
  register_measure-IsFull m w h = answered-IsFull w (try_register_measure (names o) m w.registry) h

  pub delete_measure-IsFull :
      (m : ℕ) (w : Worker R)
      → m ≢ 0
      → IsFull w
      → Returns (λ p. IsFull p.0) (handle_delete_measure o m w)
  unfolding handle_delete_measure
  delete_measure-IsFull m w real h =
      let there : is_nil m ≡ false = ground (arith, eqb_iff m 0) in
      rw there (answered-IsFull w (Registering.delete_measure (names o) m w.registry) h)

  pub register_view-IsFull :
      (v : ℕ) (w : Worker R)
      → (o.view_at v).m ≢ 0
      → IsFull w
      → Returns (λ p. IsFull p.0) (handle_register_view o v w)
  unfolding handle_register_view
  register_view-IsFull v w measured h =
      rw (measured_lem (names o) v w.registry measured)
        (answered-IsFull w (try_register_measured (names o) v w.registry) h)

  pub unregister_view-IsFull :
      (v : ℕ) (w : Worker R) → IsFull w → IsFull (handle_unregister_view o v w).0
  unfolding handle_unregister_view
  unregister_view-IsFull v w h =
      elim (Option-cases (lookup (o.view_at v).name w.registry.views_by_name)) [
        | inl e ↦ rw (e, handle_unregister_view) h
        | inr (x, e) ↦ elim (Bool-cases (eqb x v)) [
          | inl same ↦ elim (Bool-cases (is_collecting (w.view_states x))) [
            | inl busy ↦ rw (e, same, busy, handle_unregister_view) h
            | inr idle ↦ rw (e, same, idle, handle_unregister_view) h
          ]
          | inr differ ↦ rw (e, differ, handle_unregister_view) h
        ]
      ]

  pub subscribe-IsFull :
      (v c : ℕ) (w : Worker R)
      → (o.view_at v).m ≢ 0
      → IsFull w
      → Returns (λ p. IsFull p.0) (handle_subscribe o v c w)
  unfolding handle_subscribe add_subscription
  subscribe-IsFull v c w measured h = elim (Bool-cases (subscription_exists c (w.view_states v))) [
    | inl old ↦ rw old h
    | inr new ↦
        rw (new, measured_lem (names o) v w.registry measured)
          (after_registering-IsFull v cannot_subscribe (add_subscription c) w
            (try_register_measured (names o) v w.registry) refl h)
  ]

  pub unsubscribe-IsFull :
      (v c : ℕ) (w : Worker R) → IsFull w → IsFull (handle_unsubscribe o v c w).0
  unfolding handle_unsubscribe delete_subscription
  unsubscribe-IsFull v c w h = cleared-IsFull v (delete_subscription c (w.view_states v)) w refl h

  pub start_forced-IsFull :
      (v : ℕ) (w : Worker R)
      → (o.view_at v).m ≢ 0
      → IsFull w
      → Returns (λ p. IsFull p.0) (handle_start_forced o v w)
  unfolding handle_start_forced Views.start_forced_collection
  start_forced-IsFull v w measured h = rw (measured_lem (names o) v w.registry measured) (
      after_registering-IsFull v cannot_force Views.start_forced_collection w
        (try_register_measured (names o) v w.registry) refl h)

  pub stop_forced-IsFull : (v : ℕ) (w : Worker R) → IsFull w → IsFull (handle_stop_forced o v w).0
  unfolding handle_stop_forced Views.stop_forced_collection
  stop_forced-IsFull v w h =
      cleared-IsFull v (Views.stop_forced_collection (w.view_states v)) w refl h

  pub get_measure-IsFull :
      (name : Bytes) (w : Worker R) → IsFull w → IsFull (handle_get_measure o name w).0
  unfolding handle_get_measure
  get_measure-IsFull name w h = elim (Option-cases (lookup name w.registry.measures_by_name)) [
    | inl e ↦ rw (e, handle_get_measure) h
    | inr (m, e) ↦ rw (e, handle_get_measure) h
  ]

  pub get_view-IsFull :
      (name : Bytes) (w : Worker R) → IsFull w → IsFull (handle_get_view o name w).0
  unfolding handle_get_view
  get_view-IsFull name w h = elim (Option-cases (lookup name w.registry.views_by_name)) [
    | inl e ↦ rw (e, handle_get_view) h
    | inr (v, e) ↦ rw (e, handle_get_view) h
  ]

  pub set_reporting_period-IsFull :
      (d : ℕ) (w : Worker R) → IsFull w → IsFull (handle_set_reporting_period o d w).0
  unfolding handle_set_reporting_period
  set_reporting_period-IsFull d w h = elim (Bool-cases (is_not_positive d)) [
    | inl e ↦ rw e h
    | inr e ↦ rw e h
  ]
