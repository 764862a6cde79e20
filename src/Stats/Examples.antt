-- ===== src/Stats/Examples.antt =====
-- The theorems about package stats at concrete inputs, with natural numbers in place of floats.
pub mod Windows
pub mod Returning
pub mod Rows
pub mod Counting
use instrumentation_go.Base.{
  subst, out_of_fuel, ℕ, ◌≡◌, ◌≤◌, ◌+◌, ◌-◌, ◌*◌, ◌/◌, ◌^◌, ◌↔◌, ◌⊎◌, refl, true, false, List, [],
  ◌∷◌, none, some, bytes_eq, nat_eq, length, get_elem?, take, All, ltb, arith, ok, ◌>>=◌,
}
use instrumentation_go.Base.GoMap.{lookup, insert}
use instrumentation_go.Tags.Key.{Key, key_string}
use instrumentation_go.Tags.TagSet.{TagSet}
use instrumentation_go.Stats.Handlers.{
  handle_command, handle_record, handle_start_forced, handle_subscribe, handle_delete_measure,
  handle_unregister_view, handle_unsubscribe,
}
use instrumentation_go.Base.GoMap.{contains, delete}
use instrumentation_go.Tags.Values.{to_values_string, to_ordered_tags_slice}
use instrumentation_go.Tags.Varint.{store_at}
use instrumentation_go.Tags.Buffer.{copy_from, grow_if_required, bytes}
use instrumentation_go.Stats.Aggregator.{new_aggregator, add_to_aggregator, retrieve_collected}
use instrumentation_go.Tags.Values.Sort.{sort_by_name}
use instrumentation_go.Stats.View.{
  subscription_exists, add_subscription, is_collecting, collect, find_aggregator, clear_rows,
  delete_subscription, new_view_state, add_view_sample,
}
use instrumentation_go.Stats.Aggregation.{
  increment_at, add_float, update_mean, increment_bucket_count,
}
use instrumentation_go.Stats.Registry.{remove_view}
use instrumentation_go.Tags.Values as Values
use instrumentation_go.Stats.View as Views
use instrumentation_go.Base.{Bool, err, panics}
use instrumentation_go.Stats.Float64.{Float64}
use instrumentation_go.Stats.Outcome.{Outcome, Ensures, Returns}
use instrumentation_go.Stats.Aggregation.{
  int64, Distribution, count_value, aggregation_count, aggregation_distribution, new_distribution,
  new_value, add_sample, clear_value, bucket_index, add_sample_distribution, merge_distribution,
}
use instrumentation_go.Stats.Aggregation.Buckets.{
  IsDistribution, new_distribution-IsDistribution, bucket_index_lem, add_sample-IsDistribution,
  merge_distribution-IsDistribution, add_floats, add_floats-new_distribution-max,
}
use instrumentation_go.Stats.Ring.{next_index}
use instrumentation_go.Stats.SlidingTime.{
  SlidingTime, turns, new_sliding_time, move_to_current_entry, add_sliding_time,
}
use instrumentation_go.Stats.SlidingTime.Row.{IsRow}
use instrumentation_go.Stats.SlidingTime.Moves.{
  IsCurrent, move_to_current_entry_lem, add_sliding_time_lem,
}
use instrumentation_go.Stats.SlidingTime.Starts.{
  new_sliding_time-IsRow, move_to_current_entry-stalls,
}
use instrumentation_go.Stats.SlidingCount.{SlidingCount, new_sliding_count, add_sliding_count}
use instrumentation_go.Stats.SlidingCount.Stuck.{add_all, add_all-stays}
use instrumentation_go.Stats.Aggregator.{window_cumulative}
use instrumentation_go.Stats.Registry.{
  Registry, empty_registry, try_register_view, try_register_measured, register_new_view,
  try_register_measure, file_view, add_view, file_measure, delete_measure, drop_view,
}
use instrumentation_go.Stats.Registry.Consistent.{
  IsConsistent, empty_registry-IsConsistent, try_register_view-IsConsistent,
  try_register_measured-IsConsistent, delete_measure-IsConsistent, drop_view-IsConsistent,
}
use instrumentation_go.Stats.View.{collected_rows}
use instrumentation_go.Stats.Commands.{Objects, names, Worker, Command, new_worker, nothing}
use instrumentation_go.Stats.Handlers.{update_state, handle_set_reporting_period}
use instrumentation_go.Stats.Worker.{
  Channel, takes, closed, first_ready, Event, receives, ticks, start, report_usage,
}
use instrumentation_go.Stats.Worker.{restart_worker}
use instrumentation_go.Stats.Worker.Restarts.{restart_worker-loses_views}
use instrumentation_go.Stats.Worker.Sound.{IsSound}
use instrumentation_go.Stats.Worker.History.{new_worker-IsSound, start-new_worker-IsSound}
use instrumentation_go.Stats.Worker.Effects.{
  handle_unsubscribe_lem, handle_subscribe_lem, handle_record_others,
}
use instrumentation_go.Stats.Commands.{sends_error}
use instrumentation_go.Base.{if◌then◌else◌, eqb, false}
use instrumentation_go.Stats.Api.{never_returns, ask, ask_for_view}
use instrumentation_go.Base.{◌≢◌}
use instrumentation_go.Stats.Worker.Reports.{report_usage_sends}

-- The smallest positive number is 1 here, and powers of ten with a negative exponent are 1 too.
instance abbrev pub naturals : Float64 ℕ
naturals = record {
  lt = ltb;
  eq = eqb;
  add = λ a b. a + b;
  sub = λ a b. a - b;
  mul = λ a b. a * b;
  div = λ a b. a / b;
  pow = λ a b. a ^ b;
  pow10 = λ n. if ltb n (2 ^ 63) then 10 ^ n else 1;
  of_int64 = λ n. n;
  of_uint64 = λ n. n;
  to_int64 = λ n. n;
  zero_float = 0;
  half = 0;
  two = 2;
  max_float64 = 1_000_000;
  smallest_nonzero_float64 = 1;
}

abbrev pub a_key : Key
a_key = key_string (record { addr = 0; name = 97 ∷ []; id = 0 })

-- Every address is a view of the measure at address 5, under the name of its address.
abbrev objects : Objects ℕ
objects = record {
  view_at = λ v. record {
    name = v ∷ [];
    description = [];
    tag_keys = a_key ∷ [];
    m = 5;
    aggregation = aggregation_distribution (10 ∷ 20 ∷ []);
    window = window_cumulative;
  };
  measure_name = λ m. m ∷ [];
}

abbrev pub tagged : TagSet
tagged = record { m = (a_key, 120 ∷ []) ∷ [] }

-- Views are registered and subscribed to, samples are recorded, the data is reported, and all is undone.
abbrev pub history : List (Event ℕ)
history =
    receives (some (Command.subscribe_to_view 1 9))
    ∷ receives (some (Command.start_forced_collection 2))
    ∷ receives (some (Command.record_int64 100 tagged 5 15))
    ∷ receives none
    ∷ ticks (λ c. takes) 200
    ∷ receives (some (Command.delete_measure 5))
    ∷ receives (some (Command.unregister_view 1))
    ∷ receives (some (Command.unsubscribe_from_view 1 9))
    ∷ receives (some (Command.unregister_view 1))
    ∷ []

start-new_worker-IsSound_example : Ensures (IsSound objects) (start objects history new_worker)
start-new_worker-IsSound_example = start-new_worker-IsSound objects history

-- Two views with one subscriber each, which have seen no data.
abbrev two_subscribers : Worker ℕ
two_subscribers = record {
  registry = record {
    measures_by_name = (5 ∷ [], 5) ∷ [];
    measures = (5, true) ∷ [];
    views_by_name = (1 ∷ [], 1) ∷ (2 ∷ [], 2) ∷ [];
    views = (1, true) ∷ (2, true) ∷ [];
    measure_views = λ m. (1, true) ∷ (2, true) ∷ [];
  };
  view_states = λ v. record {
    subscriptions = (9 + v, record { dropped_view_data = 0 }) ∷ [];
    is_forced_collection = false;
    signatures = [];
  };
  timer = 10_000_000_000;
}

report_usage_sends_example :
    Ensures (λ p. length p.1 ≤ 1) (report_usage objects (λ c. takes) 200 two_subscribers)
report_usage_sends_example = report_usage_sends objects (λ c. takes) 200 two_subscribers

-- Both are ready, and the first one is served alone.
two_subscribers-sends :
    report_usage objects (λ c. takes) 200 two_subscribers
    ≡ ok (
      update_state 1 (two_subscribers.view_states 1) two_subscribers,
      record { channel = 10; view = 1; rows = [] } ∷ [],
    )
unfolding report_usage first_ready collected_rows
two_subscribers-sends = refl

-- A closed channel makes the report panic.
two_subscribers-closed : report_usage objects (λ c. closed) 200 two_subscribers ≡ panics
unfolding report_usage first_ready collected_rows
two_subscribers-closed = refl

abbrev one_view : Registry
one_view = (try_register_measured (names objects) 1 empty_registry).0

try_register_view-IsConsistent_example :
    Returns
      (λ p. IsConsistent (names objects) p.0)
      (try_register_view (names objects) 1 empty_registry)
    ⊎ ((try_register_view (names objects) 1 empty_registry ≡ panics)
        × ((names objects).measure_of 1 ≡ 0)
        × (lookup ((names objects).view_name 1) empty_registry.views_by_name ≡ none))
try_register_view-IsConsistent_example =
    try_register_view-IsConsistent (names objects) 1 empty_registry
      (empty_registry-IsConsistent (names objects))

one_view-IsConsistent : IsConsistent (names objects) one_view
one_view-IsConsistent =
    try_register_measured-IsConsistent (names objects) 1 empty_registry
      (empty_registry-IsConsistent (names objects))

delete_measure-IsConsistent_example :
    IsConsistent (names objects) (delete_measure (names objects) 5 one_view).0
delete_measure-IsConsistent_example =
    delete_measure-IsConsistent (names objects) 5 one_view one_view-IsConsistent

one_view-named : lookup (1 ∷ []) one_view.views_by_name ≡ some 1
unfolding lookup insert try_register_measured register_new_view try_register_measure file_view
    add_view file_measure empty_registry
one_view-named = refl

drop_view-IsConsistent_example : IsConsistent (names objects) (drop_view (names objects) 1 one_view)
drop_view-IsConsistent_example =
    drop_view-IsConsistent (names objects) 1 one_view one_view-named one_view-IsConsistent

-- The history above ends, without a panic.
abbrev is_ok : {A : Type 0} → Outcome A → Bool
is_ok (ok a) = true
is_ok (err e) = false
is_ok panics = false
is_ok out_of_fuel = false

history-ends : is_ok (start objects history new_worker) ≡ true
unfolding start first_ready handle_command handle_record contains lookup handle_start_forced
    try_register_view try_register_measured handle_subscribe new_worker register_new_view
    try_register_measure file_view add_view insert file_measure to_values_string Values.store_value
    store_at copy_from grow_if_required bytes new_aggregator new_value add_to_aggregator add_sample
    collected_rows to_ordered_tags_slice Values.read_value Values.read_sized sort_by_name
    retrieve_collected subscription_exists add_subscription is_collecting collect find_aggregator
    increment_at add_float update_mean increment_bucket_count new_distribution handle_delete_measure
    delete_measure handle_unregister_view handle_unsubscribe delete clear_rows delete_subscription
    drop_view remove_view empty_registry new_view_state add_view_sample
    Views.start_forced_collection
history-ends = refl

handle_unsubscribe_lem_example :
    ((handle_unsubscribe objects 1 10 two_subscribers).1 ≡ sends_error none)
    × (subscription_exists 10 ((handle_unsubscribe objects 1 10 two_subscribers).0.view_states 1)
        ≡ false)
    × ((handle_unsubscribe objects 1 10 two_subscribers).0.registry ≡ two_subscribers.registry)
    × ((u : ℕ)
        → (handle_unsubscribe objects 1 10 two_subscribers).0.view_states u ≡ (
            if eqb 1 u
            then (handle_unsubscribe objects 1 10 two_subscribers).0.view_states 1
            else two_subscribers.view_states u))
handle_unsubscribe_lem_example = handle_unsubscribe_lem objects 1 10 two_subscribers

-- A new worker with one view, which channel 9 is subscribed to.
abbrev subscribed : Worker ℕ
subscribed =
    let fresh : Worker ℕ = new_worker in
    update_state 1 (add_subscription 9 (fresh.view_states 1)) (record fresh { registry = one_view })

subscribed-reached : handle_subscribe objects 1 9 new_worker ≡ ok (subscribed, sends_error none)
unfolding handle_subscribe subscription_exists contains lookup new_worker try_register_view
    try_register_measured register_new_view try_register_measure empty_registry new_view_state
subscribed-reached = refl

handle_subscribe_lem_example :
    (contains 1 subscribed.registry.views ≡ true)
    × (subscription_exists 9 (subscribed.view_states 1) ≡ true)
handle_subscribe_lem_example =
    handle_subscribe_lem objects 1 9 new_worker subscribed (new_worker-IsSound objects)
      subscribed-reached

view_three-detached : contains 3 (two_subscribers.registry.measure_views 5) ≡ false
unfolding contains lookup
view_three-detached = refl

handle_record_others_example :
    Ensures
      (λ p.
        (p.0.view_states 3 ≡ two_subscribers.view_states 3)
        × (p.0.registry ≡ two_subscribers.registry))
      (handle_record objects 100 tagged 5 (int64 15) two_subscribers)
handle_record_others_example =
    handle_record_others objects 100 3 5 tagged (int64 15) two_subscribers view_three-detached

ten-subscribed : subscription_exists 10 (two_subscribers.view_states 1) ≡ true
unfolding subscription_exists contains lookup
ten-subscribed = refl

restart_worker-loses_views_example :
    Returns
      (λ w.
        (handle_subscribe objects 1 10 w ≡ ok (w, sends_error none))
        × (contains 1 w.registry.views ≡ false))
      (restart_worker objects two_subscribers)
restart_worker-loses_views_example =
    restart_worker-loses_views objects 1 10 two_subscribers ten-subscribed
