-- ===== src/Stats/Handlers.antt =====
-- The handlers of stats/worker_commands.go. A command is handled whole before the next one.
use instrumentation_go.Base.{
  ℕ, ◌^◌, Bool, not, ◌||◌, List, [], ◌∷◌, Option, none, some, Bytes, bytes_eq, nat_eq, eqb, leb,
  if◌then◌else◌, ok, panics, ◌>>=◌,
}
use instrumentation_go.Base.GoMap.{GoMap, lookup, contains}
use instrumentation_go.Tags.TagSet.{TagSet}
use instrumentation_go.Stats.Outcome.{Outcome}
use instrumentation_go.Stats.Float64.{Float64}
use instrumentation_go.Stats.Aggregation.{Sample, int64, float64}
use instrumentation_go.Stats.Registry.{
  is_nil, Names, Registry, try_register_measure, try_register_view, drop_view,
}
use instrumentation_go.Stats.Registry as Registering
use instrumentation_go.Stats.View.{
  View, ViewState, Row, add_subscription, delete_subscription, subscription_exists, is_collecting,
  clear_rows, add_view_sample, collected_rows,
}
use instrumentation_go.Stats.View as Views
use instrumentation_go.Stats.Commands.{
  Objects, names, Worker, default_reporting_duration, Measurement, measurement_float64,
  measurement_int64, foreign_measurement, Command, Error, no_measure_named, no_view_named,
  registering, view_collecting, cannot_subscribe, cannot_force, view_not_registered,
  view_not_collecting, Answer, nothing, sends_error, sends_measure, sends_view, sends_rows,
  sends_true,
}

abbrev pub update_state : {R : Type 0} → ℕ → ViewState R → Worker R → Worker R
update_state v s w = record w { view_states = λ u. if eqb v u then s else w.view_states u }

-- `d <= 0` for a Go duration, as a 64-bit pattern.
abbrev pub is_not_positive : ℕ → Bool
is_not_positive d = eqb d 0 || leb (2 ^ 63) d

module _ {R : Type 0} ⦃f : Float64 R⦄ (o : Objects R) where
  -- The new registry and, unless it is nil, the error.
  abbrev pub answer_registering :
      Worker R → Registry × Option Registering.Error → Worker R × Answer R
  answer_registering w (r, none) = (record w { registry = r }, sends_error none)
  answer_registering w (r, some e) = (record w { registry = r }, sends_error (some (registering e)))

  unfoldable pub handle_get_measure : Bytes → Worker R → Worker R × Answer R
  handle_get_measure name w = elim (lookup name w.registry.measures_by_name) [
    | some m ↦ (w, sends_measure m)
    | none ↦ (w, sends_error (some (no_measure_named name)))
  ]

  unfoldable pub handle_register_measure : ℕ → Worker R → Worker R × Answer R
  handle_register_measure m w = answer_registering w (try_register_measure (names o) m w.registry)

  unfoldable pub handle_delete_measure : ℕ → Worker R → Outcome (Worker R × Answer R)
  handle_delete_measure m w =
      if is_nil m
      then panics
      else ok (answer_registering w (Registering.delete_measure (names o) m w.registry))

  unfoldable pub handle_get_view : Bytes → Worker R → Worker R × Answer R
  handle_get_view name w = elim (lookup name w.registry.views_by_name) [
    | some v ↦ (w, sends_view v)
    | none ↦ (w, sends_error (some (no_view_named name)))
  ]

  unfoldable pub handle_register_view : ℕ → Worker R → Outcome (Worker R × Answer R)
  handle_register_view v w = do
    p ← try_register_view (names o) v w.registry
    ok (answer_registering w p)

  unfoldable pub handle_unregister_view : ℕ → Worker R → Worker R × Answer R
  unfolding is_collecting
  handle_unregister_view v w = elim (lookup (o.view_at v).name w.registry.views_by_name) [
    | none ↦ (w, sends_error none)
    | some x ↦
        if not (eqb x v)
        then (w, sends_error none)
        else (if is_collecting (w.view_states x)
            then (w, sends_error (some (view_collecting v)))
            else (record w { registry = drop_view (names o) v w.registry }, sends_error none))
  ]

  -- The view is registered first; `change` is what the request does to it then.
  abbrev pub after_registering :
      ℕ
      → (Registering.Error → Error)
      → (ViewState R → ViewState R)
      → Worker R
      → Registry × Option Registering.Error
      → Worker R × Answer R
  after_registering v wrap change w (r, some e) =
      (record w { registry = r }, sends_error (some (wrap e)))
  after_registering v wrap change w (r, none) =
      (update_state v (change (w.view_states v)) (record w { registry = r }), sends_error none)

  unfoldable pub handle_subscribe : ℕ → ℕ → Worker R → Outcome (Worker R × Answer R)
  unfolding subscription_exists add_subscription
  handle_subscribe v c w =
      let subscribed : Outcome (Worker R × Answer R) = (do
        p ← try_register_view (names o) v w.registry
        ok (after_registering v cannot_subscribe (add_subscription c) w p)) in
      if subscription_exists c (w.view_states v) then ok (w, sends_error none) else subscribed

  -- Data that nothing collects any more is dropped.
  abbrev pub clear_if_idle : ViewState R → ViewState R
  clear_if_idle s = if not (is_collecting s) then clear_rows s else s

  unfoldable pub handle_unsubscribe : ℕ → ℕ → Worker R → Worker R × Answer R
  unfolding delete_subscription is_collecting clear_rows
  handle_unsubscribe v c w =
      (update_state v (clear_if_idle (delete_subscription c (w.view_states v))) w, sends_error none)

  unfoldable pub handle_start_forced : ℕ → Worker R → Outcome (Worker R × Answer R)
  handle_start_forced v w = do
    p ← try_register_view (names o) v w.registry
    ok (after_registering v cannot_force Views.start_forced_collection w p)

  unfoldable pub handle_stop_forced : ℕ → Worker R → Worker R × Answer R
  unfolding is_collecting clear_rows
  handle_stop_forced v w = (
    update_state v (clear_if_idle (Views.stop_forced_collection (w.view_states v))) w,
    sends_error none,
  )

  unfoldable pub handle_retrieve : ℕ → ℕ → Worker R → Outcome (Worker R × Answer R)
  unfolding is_collecting
  handle_retrieve now v w =
      let retrieved : Outcome (Worker R × Answer R) = (do
        (s, rows) ← collected_rows (o.view_at v) now (w.view_states v)
        ok (update_state v s w, sends_rows rows)) in
      if not (contains v w.registry.views)
      then ok (w, sends_error (some (view_not_registered v)))
      else (if not (is_collecting (w.view_states v))
          then ok (w, sends_error (some (view_not_collecting v)))
          else retrieved)

  -- The loop over the views of a measure.
  unfoldable pub record_in : GoMap ℕ Bool → TagSet → Sample R → ℕ → Worker R → Outcome (Worker R)
  unfolding add_view_sample
  record_in [] ts x now w = ok w
  record_in ((v, _) ∷ vs) ts x now w = do
    s ← add_view_sample (o.view_at v) ts x now (w.view_states v)
    record_in vs ts x now (update_state v s w)

  -- `recordFloat64Req` and `recordInt64Req` differ in the type of the sample.
  unfoldable pub handle_record :
      ℕ → TagSet → ℕ → Sample R → Worker R → Outcome (Worker R × Answer R)
  unfolding record_in
  handle_record now ts m x w =
      let recorded : Outcome (Worker R × Answer R) = (do
        w' ← record_in (w.registry.measure_views m) ts x now w
        ok (w', nothing)) in
      if not (contains m w.registry.measures) then ok (w, nothing) else recorded

  -- The views of a nil measure cannot be read.
  unfoldable pub record_measurement : ℕ → TagSet → Measurement R → Worker R → Outcome (Worker R)
  unfolding record_in
  record_measurement now ts (measurement_float64 m x) w =
      let recorded = record_in (w.registry.measure_views m) ts (float64 x) now w in
      if is_nil m then panics else recorded
  record_measurement now ts (measurement_int64 m n) w =
      let recorded = record_in (w.registry.measure_views m) ts (int64 n) now w in
      if is_nil m then panics else recorded
  record_measurement now ts foreign_measurement w = ok w

  unfoldable pub record_measurements :
      ℕ → TagSet → List (Measurement R) → Worker R → Outcome (Worker R)
  unfolding record_measurement
  record_measurements now ts [] w = ok w
  record_measurements now ts (x ∷ xs) w = do
    w' ← record_measurement now ts x w
    record_measurements now ts xs w'

  -- A duration that is not positive is answered by nothing.
  unfoldable pub handle_set_reporting_period : ℕ → Worker R → Worker R × Answer R
  handle_set_reporting_period d w =
      if is_not_positive d
      then (record w { timer = default_reporting_duration }, nothing)
      else (record w { timer = d }, sends_true)

  unfoldable pub handle_command : Command R → Worker R → Outcome (Worker R × Answer R)
  handle_command (Command.get_measure_by_name name) w = ok (handle_get_measure name w)
  handle_command (Command.register_measure m) w = ok (handle_register_measure m w)
  handle_command (Command.delete_measure m) w = handle_delete_measure m w
  handle_command (Command.get_view_by_name name) w = ok (handle_get_view name w)
  handle_command (Command.register_view v) w = handle_register_view v w
  handle_command (Command.unregister_view v) w = ok (handle_unregister_view v w)
  handle_command (Command.subscribe_to_view v c) w = handle_subscribe v c w
  handle_command (Command.unsubscribe_from_view v c) w = ok (handle_unsubscribe v c w)
  handle_command (Command.start_forced_collection v) w = handle_start_forced v w
  handle_command (Command.stop_forced_collection v) w = ok (handle_stop_forced v w)
  handle_command (Command.retrieve_data now v) w = handle_retrieve now v w
  handle_command (Command.record_float64 now ts m x) w = handle_record now ts m (float64 x) w
  handle_command (Command.record_int64 now ts m n) w = handle_record now ts m (int64 n) w
  handle_command (Command.record_all now ts ms) w = do
    w' ← record_measurements now ts ms w
    ok (w', nothing)
  handle_command (Command.set_reporting_period d) w = ok (handle_set_reporting_period d w)
