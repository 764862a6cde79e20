-- ===== src/Stats/Commands.antt =====
-- The state of the worker of stats/worker.go, and the requests and answers of stats/worker_commands.go.
-- `Objects` gives the fields of views and measures that never change; an object's address is its identity,
-- and nil is the address 0.
use instrumentation_go.Base.{ℕ, List, Option, Bytes}
use instrumentation_go.Tags.TagSet.{TagSet}
use instrumentation_go.Stats.Registry.{Names, Registry, empty_registry}
use instrumentation_go.Stats.Registry as Registering
use instrumentation_go.Stats.View.{View, ViewState, Row, new_view_state}

pub record Objects (R : Type 0) : Type 0 where
  pub view_at : ℕ → View R
  pub measure_name : ℕ → Bytes

abbrev pub names : {R : Type 0} → Objects R → Names
names o = record {
  measure_name = o.measure_name;
  view_name = λ v. (o.view_at v).name;
  measure_of = λ v. (o.view_at v).m;
}

-- `timer` is the period of the ticker, in nanoseconds.
pub record Worker (R : Type 0) : Type 0 where
  pub registry : Registry
  pub view_states : ℕ → ViewState R
  pub timer : ℕ

abbrev pub default_reporting_duration : ℕ
default_reporting_duration = 10_000_000_000

unfoldable pub new_worker : {R : Type 0} → Worker R
unfolding empty_registry new_view_state
new_worker = record {
  registry = empty_registry;
  view_states = λ v. new_view_state;
  timer = default_reporting_duration;
}

-- A recorded measurement, of type `measurementFloat64` or `measurementInt64`, or of any other type.
pub data Measurement (R : Type 0) : Type 0 where
  measurement_float64 : ℕ → R → Measurement R
  measurement_int64 : ℕ → ℕ → Measurement R
  foreign_measurement : Measurement R

pub data Command (R : Type 0) : Type 0 where
  get_measure_by_name : Bytes → Command R
  register_measure : ℕ → Command R
  delete_measure : ℕ → Command R
  get_view_by_name : Bytes → Command R
  register_view : ℕ → Command R
  unregister_view : ℕ → Command R
  subscribe_to_view : ℕ → ℕ → Command R
  unsubscribe_from_view : ℕ → ℕ → Command R
  start_forced_collection : ℕ → Command R
  stop_forced_collection : ℕ → Command R
  retrieve_data : ℕ → ℕ → Command R
  record_float64 : ℕ → TagSet → ℕ → R → Command R
  record_int64 : ℕ → TagSet → ℕ → ℕ → Command R
  record_all : ℕ → TagSet → List (Measurement R) → Command R
  set_reporting_period : ℕ → Command R

pub data Error : Type 0 where
  registering : Registering.Error → Error
  no_measure_named no_view_named : Bytes → Error
  view_collecting : ℕ → Error
  cannot_subscribe cannot_force : Registering.Error → Error
  view_not_registered view_not_collecting : ℕ → Error

-- What a handler sends on the channel of its request. `nothing` is sent by the requests that have no
-- channel, and where a handler returns without sending.
pub data Answer (R : Type 0) : Type 0 where
  nothing : Answer R
  sends_error : Option Error → Answer R
  sends_measure sends_view : ℕ → Answer R
  sends_rows : List (Row R) → Answer R
  sends_true : Answer R
