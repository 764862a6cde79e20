-- ===== src/Stats/Worker/Preserve.antt =====
-- The handlers of stats/worker_commands.go and the soundness of the worker.
use instrumentation_go.Base.{
  ℕ, ◌≡◌, refl, sym, ap, ◌∙◌, true, false, [], Option, none, some, Bytes, nat_eq, bytes_eq, eqb,
  eqb_iff, arith, inl, inr, Option-cases, Bool-cases,
}
use instrumentation_go.Base.GoMap.{lookup, contains, length-insert, length-delete}
use mathlib.Core.Bool.{false≢true}
use instrumentation_go.Stats.Outcome.{Ensures, Ensures-bind}
use instrumentation_go.Stats.Float64.{Float64}
use instrumentation_go.Stats.Registry.{
  is_nil, Names, Registry, try_register_measure, try_register_measured, try_register_view,
  drop_view,
}
use instrumentation_go.Stats.Registry as Registering
use instrumentation_go.Stats.Registry.Consistent.{
  try_register_measure-IsConsistent, try_register_measure-same_views, delete_measure-IsConsistent,
  delete_measure-same_views, try_register_measured-IsConsistent, try_register_view-Ensures,
  try_register_measured-contains, try_register_measured-keeps, drop_view-IsConsistent,
  drop_view-contains,
}
use instrumentation_go.Stats.View.{
  ViewState, add_subscription, delete_subscription, subscription_exists, is_collecting, clear_rows,
  start_forced_collection, stop_forced_collection,
}
use instrumentation_go.Stats.Commands.{
  Error, cannot_subscribe, cannot_force, Objects, names, Worker, Command,
  default_reporting_duration,
}
use instrumentation_go.Stats.Handlers.{
  update_state, is_not_positive, handle_get_measure, handle_get_view, handle_set_reporting_period,
  handle_command, handle_register_measure, handle_delete_measure, handle_register_view,
  handle_unregister_view, handle_subscribe, handle_unsubscribe, handle_start_forced,
  handle_stop_forced, record_measurements, answer_registering, after_registering, clear_if_idle,
}
use instrumentation_go.Stats.Worker.Sound.{IsSound, update_state-IsSound, grow-IsSound}
use instrumentation_go.Stats.Worker.Samples.{
  retrieve-IsSound, record-IsSound, record_measurements-IsSound,
}

module _ {R : Type 0} where
  clear_rows-is_collecting : (s : ViewState R) → is_collecting (clear_rows s) ≡ is_collecting s
  unfolding is_collecting clear_rows
  clear_rows-is_collecting s = refl

  clear_rows-empty : (s : ViewState R) → (clear_rows s).signatures ≡ []
  unfolding clear_rows
  clear_rows-empty s = refl

  unsubscribed-is_collecting :
      (c : ℕ) (s : ViewState R)
      → is_collecting (delete_subscription c s) ≡ true
      → is_collecting s ≡ true
  unfolding is_collecting delete_subscription
  unsubscribed-is_collecting c s h = ground (arith, length-delete c s.subscriptions)

  stopped-is_collecting :
      (s : ViewState R) → is_collecting (stop_forced_collection s) ≡ true → is_collecting s ≡ true
  unfolding is_collecting stop_forced_collection
  stopped-is_collecting s h = ground arith

module _ {R : Type 0} ⦃f : Float64 R⦄ (o : Objects R) where
  answered-IsSound :
      (w : Worker R) (p : Registry × Option Registering.Error)
      → IsSound o (record w { registry = p.0 })
      → IsSound o (answer_registering o w p).0
  answered-IsSound w (r, none) h = h
  answered-IsSound w (r, some e) h = h

  register_measure-IsSound :
      (m : ℕ) (w : Worker R) → IsSound o w → IsSound o (handle_register_measure o m w).0
  unfolding handle_register_measure
  register_measure-IsSound m w c =
      answered-IsSound w (try_register_measure (names o) m w.registry) (
        grow-IsSound o (try_register_measure (names o) m w.registry).0 w
          (try_register_measure-IsConsistent (names o) m w.registry c.consistent)
          (λ u h. rw (try_register_measure-same_views (names o) m w.registry) h) c)

  delete_measure-IsSound :
      (m : ℕ) (w : Worker R)
      → IsSound o w
      → Ensures (λ p. IsSound o p.0) (handle_delete_measure o m w)
  unfolding handle_delete_measure
  delete_measure-IsSound m w c = elim (Bool-cases (is_nil m)) [
    | inl nil_there ↦ rw nil_there tt
    | inr real ↦ rw real (
        answered-IsSound w (Registering.delete_measure (names o) m w.registry) (
          grow-IsSound o (Registering.delete_measure (names o) m w.registry).0 w
            (delete_measure-IsConsistent (names o) m w.registry c.consistent)
            (λ u h. rw (delete_measure-same_views (names o) m w.registry) h) c))
  ]

  registered-IsSound :
      (v : ℕ) (w : Worker R)
      → IsSound o w
      → IsSound o (record w { registry = (try_register_measured (names o) v w.registry).0 })
  registered-IsSound v w c =
      grow-IsSound o (try_register_measured (names o) v w.registry).0 w
        (try_register_measured-IsConsistent (names o) v w.registry c.consistent)
        (λ u. try_register_measured-keeps (names o) v u w.registry) c

  register_view-IsSound :
      (v : ℕ) (w : Worker R)
      → IsSound o w
      → Ensures (λ p. IsSound o p.0) (handle_register_view o v w)
  unfolding handle_register_view
  register_view-IsSound v w c =
      Ensures-bind (λ p. IsSound o (record w { registry = p.0 })) (λ p. IsSound o p.0)
        (try_register_view (names o) v w.registry) _
        (try_register_view-Ensures (names o) (λ p. IsSound o (record w { registry = p.0 })) v
          w.registry (registered-IsSound v w c))
        (answered-IsSound w)

  dropped-IsSound :
      (v : ℕ) (w : Worker R)
      → lookup (o.view_at v).name w.registry.views_by_name ≡ some v
      → is_collecting (w.view_states v) ≡ false
      → IsSound o w
      → IsSound o (record w { registry = drop_view (names o) v w.registry })
  dropped-IsSound v w h k c = record {
    consistent = drop_view-IsConsistent (names o) v w.registry h c.consistent;
    collecting = λ u e. ground (
      arith,
      drop_view-contains (names o) v u w.registry,
      c.collecting u e,
      eqb_iff v u,
      ap (λ (x : ℕ). is_collecting (w.view_states x)),
    );
    idle = c.idle;
  }

  unregister_view-IsSound :
      (v : ℕ) (w : Worker R) → IsSound o w → IsSound o (handle_unregister_view o v w).0
  unfolding handle_unregister_view
  unregister_view-IsSound v w c =
      elim (Option-cases (lookup (o.view_at v).name w.registry.views_by_name)) [
        | inl e ↦ rw (e, handle_unregister_view) c
        | inr (x, e) ↦ elim (Bool-cases (eqb x v)) [
          | inl same ↦ elim (Bool-cases (is_collecting (w.view_states x))) [
            | inl busy ↦ rw (e, same, busy, handle_unregister_view) c
            | inr idle ↦
                let same_view = (eqb_iff x v).0 same in
                rw (e, same, idle, handle_unregister_view)
                  (dropped-IsSound v w (e ∙ ap some same_view)
                    (ap (λ t. is_collecting (w.view_states t)) (sym same_view) ∙ idle) c)
          ]
          | inr differ ↦ rw (e, differ, handle_unregister_view) c
        ]
      ]

  after_registering-IsSound :
      (v : ℕ) (wrap : Registering.Error → Error) (change : ViewState R → ViewState R) (w : Worker R)
      (p : Registry × Option Registering.Error)
      → (p.1 ≡ none → contains v p.0.views ≡ true)
      → (is_collecting (change (w.view_states v)) ≡ true)
      → IsSound o (record w { registry = p.0 })
      → IsSound o (after_registering o v wrap change w p).0
  after_registering-IsSound v wrap change w (r, some e) h k c = c
  after_registering-IsSound v wrap change w (r, none) h k c =
      update_state-IsSound o v (change (w.view_states v)) (record w { registry = r }) (λ _. h refl)
        (λ e. absurd (false≢true (sym e ∙ k))) c

  subscribed-is_collecting : (c : ℕ) (s : ViewState R) → is_collecting (add_subscription c s) ≡ true
  unfolding is_collecting add_subscription
  subscribed-is_collecting c s =
      ground (arith, length-insert c (record { dropped_view_data = 0 }) s.subscriptions)

  forced-is_collecting : (s : ViewState R) → is_collecting (start_forced_collection s) ≡ true
  unfolding is_collecting start_forced_collection
  forced-is_collecting s = ground arith

  -- The registry is sound, and has the view if there is no error.
  abbrev HasView : ℕ → Worker R → Registry × Option Registering.Error → Type 0
  HasView v w p =
      IsSound o (record w { registry = p.0 }) × (p.1 ≡ none → contains v p.0.views ≡ true)

  try_register_view-HasView :
      (v : ℕ) (w : Worker R)
      → IsSound o w
      → Ensures (HasView v w) (try_register_view (names o) v w.registry)
  try_register_view-HasView v w h =
      try_register_view-Ensures (names o) (HasView v w) v w.registry (
        registered-IsSound v w h,
        try_register_measured-contains (names o) v w.registry h.consistent,
      )

  subscribe-IsSound :
      (v c : ℕ) (w : Worker R)
      → IsSound o w
      → Ensures (λ p. IsSound o p.0) (handle_subscribe o v c w)
  unfolding handle_subscribe
  subscribe-IsSound v c w h = elim (Bool-cases (subscription_exists c (w.view_states v))) [
    | inl old ↦ rw old h
    | inr new ↦ rw new (
        Ensures-bind (HasView v w) (λ p. IsSound o p.0) (try_register_view (names o) v w.registry) _
          (try_register_view-HasView v w h)
          λ p k.
            after_registering-IsSound v cannot_subscribe (add_subscription c) w p k.1
              (subscribed-is_collecting c (w.view_states v)) k.0)
  ]

  start_forced-IsSound :
      (v : ℕ) (w : Worker R)
      → IsSound o w
      → Ensures (λ p. IsSound o p.0) (handle_start_forced o v w)
  unfolding handle_start_forced
  start_forced-IsSound v w h =
      Ensures-bind (HasView v w) (λ p. IsSound o p.0) (try_register_view (names o) v w.registry) _
        (try_register_view-HasView v w h)
        λ p k.
          after_registering-IsSound v cannot_force start_forced_collection w p k.1
            (forced-is_collecting (w.view_states v)) k.0

  -- Where an idle view loses its rows.
  cleared-IsSound :
      (v : ℕ) (s : ViewState R) (w : Worker R)
      → (is_collecting s ≡ true → is_collecting (w.view_states v) ≡ true)
      → IsSound o w
      → IsSound o (update_state v (clear_if_idle o s) w)
  cleared-IsSound v s w h c = elim (Bool-cases (is_collecting s)) [
    | inl busy ↦ rw busy (
        update_state-IsSound o v s w (λ _. c.collecting v (h busy))
          (λ e. absurd (false≢true (sym e ∙ busy))) c)
    | inr idle ↦ rw idle (
        update_state-IsSound o v (clear_rows s) w
          (λ e. absurd (false≢true (sym idle ∙ sym (clear_rows-is_collecting s) ∙ e)))
          (λ _. clear_rows-empty s) c)
  ]

  unsubscribe-IsSound :
      (v c : ℕ) (w : Worker R) → IsSound o w → IsSound o (handle_unsubscribe o v c w).0
  unfolding handle_unsubscribe
  unsubscribe-IsSound v c w h =
      cleared-IsSound v (delete_subscription c (w.view_states v)) w
        (unsubscribed-is_collecting c (w.view_states v)) h

  stop_forced-IsSound :
      (v : ℕ) (w : Worker R) → IsSound o w → IsSound o (handle_stop_forced o v w).0
  unfolding handle_stop_forced
  stop_forced-IsSound v w h =
      cleared-IsSound v (stop_forced_collection (w.view_states v)) w
        (stopped-is_collecting (w.view_states v)) h

  get_measure-IsSound :
      (name : Bytes) (w : Worker R) → IsSound o w → IsSound o (handle_get_measure o name w).0
  unfolding handle_get_measure
  get_measure-IsSound name w h = elim (Option-cases (lookup name w.registry.measures_by_name)) [
    | inl e ↦ rw (e, handle_get_measure) h
    | inr (m, e) ↦ rw (e, handle_get_measure) h
  ]

  get_view-IsSound :
      (name : Bytes) (w : Worker R) → IsSound o w → IsSound o (handle_get_view o name w).0
  unfolding handle_get_view
  get_view-IsSound name w h = elim (Option-cases (lookup name w.registry.views_by_name)) [
    | inl e ↦ rw (e, handle_get_view) h
    | inr (v, e) ↦ rw (e, handle_get_view) h
  ]

  timed-IsSound : (d : ℕ) (w : Worker R) → IsSound o w → IsSound o (record w { timer = d })
  timed-IsSound d w h = record {
    consistent = h.consistent;
    collecting = h.collecting;
    idle = h.idle;
  }

  set_reporting_period-IsSound :
      (d : ℕ) (w : Worker R) → IsSound o w → IsSound o (handle_set_reporting_period o d w).0
  unfolding handle_set_reporting_period
  set_reporting_period-IsSound d w h = elim (Bool-cases (is_not_positive d)) [
    | inl e ↦ rw e (timed-IsSound default_reporting_duration w h)
    | inr e ↦ rw e (timed-IsSound d w h)
  ]

  pub handle_command-IsSound :
      (c : Command R) (w : Worker R)
      → IsSound o w
      → Ensures (λ p. IsSound o p.0) (handle_command o c w)
  unfolding handle_command
  handle_command-IsSound (Command.get_measure_by_name name) w h = get_measure-IsSound name w h
  handle_command-IsSound (Command.register_measure m) w h = register_measure-IsSound m w h
  handle_command-IsSound (Command.delete_measure m) w h = delete_measure-IsSound m w h
  handle_command-IsSound (Command.get_view_by_name name) w h = get_view-IsSound name w h
  handle_command-IsSound (Command.register_view v) w h = register_view-IsSound v w h
  handle_command-IsSound (Command.unregister_view v) w h = unregister_view-IsSound v w h
  handle_command-IsSound (Command.subscribe_to_view v c) w h = subscribe-IsSound v c w h
  handle_command-IsSound (Command.unsubscribe_from_view v c) w h = unsubscribe-IsSound v c w h
  handle_command-IsSound (Command.start_forced_collection v) w h = start_forced-IsSound v w h
  handle_command-IsSound (Command.stop_forced_collection v) w h = stop_forced-IsSound v w h
  handle_command-IsSound (Command.retrieve_data now v) w h = retrieve-IsSound o now v w h
  handle_command-IsSound (Command.record_float64 now ts m x) w h = record-IsSound o now ts m _ w h
  handle_command-IsSound (Command.record_int64 now ts m n) w h = record-IsSound o now ts m _ w h
  handle_command-IsSound (Command.record_all now ts ms) w h =
      Ensures-bind (IsSound o) (λ p. IsSound o p.0) (record_measurements o now ts ms w) _
        (record_measurements-IsSound o now ts ms w h) λ w' c. c
  handle_command-IsSound (Command.set_reporting_period d) w h = set_reporting_period-IsSound d w h
