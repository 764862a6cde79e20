-- ===== src/Stats/Api.antt =====
-- The exported functions of stats/worker.go: each sends one request to the worker and, where the request
-- has a channel, waits for what the handler sends on it. A nil view is `none`.
pub mod Returns
use instrumentation_go.Base.{ℕ, List, Option, none, some, Bytes, ok, ◌>>=◌}
use instrumentation_go.Tags.TagSet.{TagSet}
use instrumentation_go.Stats.Outcome.{Outcome}
use instrumentation_go.Stats.Float64.{Float64}
use instrumentation_go.Stats.Commands.{Objects, Worker, Measurement, Command, Answer, nothing}
use instrumentation_go.Stats.Handlers.{handle_command}

-- What the caller sees: an error for a nil view, the answer, a wait without an end, or, for a function
-- that does not wait, nothing.
pub data Reply (R : Type 0) : Type 0 where
  refuses_nil : Reply R
  replies : Answer R → Reply R
  never_returns : Reply R
  returns_at_once : Reply R

module _ {R : Type 0} ⦃f : Float64 R⦄ (o : Objects R) where
  abbrev pub Call : Type 0
  Call = Worker R → Outcome (Worker R × Reply R)

  -- Receiving on a channel on which nothing is sent.
  abbrev pub await : Answer R → Reply R
  await nothing = never_returns
  await a = replies a

  unfoldable pub ask : Command R → Call
  ask c w = do (w', a) ← handle_command o c w; ok (w', await a)

  unfoldable pub post : Command R → Call
  post c w = do (w', a) ← handle_command o c w; ok (w', returns_at_once)

  unfoldable pub ask_for_view : Option ℕ → (ℕ → Command R) → Call
  unfolding ask
  ask_for_view none c w = ok (w, refuses_nil)
  ask_for_view (some v) c w = ask (c v) w

  -- The new measure is the object at the given address.
  abbrev pub new_measure_float64 : ℕ → Call
  new_measure_float64 m = ask (Command.register_measure m)

  abbrev pub new_measure_int64 : ℕ → Call
  new_measure_int64 m = ask (Command.register_measure m)

  abbrev pub get_measure_by_name : Bytes → Call
  get_measure_by_name name = ask (Command.get_measure_by_name name)

  abbrev pub delete_measure : ℕ → Call
  delete_measure m = ask (Command.delete_measure m)

  abbrev pub get_view_by_name : Bytes → Call
  get_view_by_name name = ask (Command.get_view_by_name name)

  abbrev pub register_view : Option ℕ → Call
  register_view v = ask_for_view v Command.register_view

  abbrev pub unregister_view : Option ℕ → Call
  unregister_view v = ask_for_view v Command.unregister_view

  abbrev pub subscribe_to_view : Option ℕ → ℕ → Call
  subscribe_to_view v c = ask_for_view v (λ u. Command.subscribe_to_view u c)

  abbrev pub unsubscribe_from_view : Option ℕ → ℕ → Call
  unsubscribe_from_view v c = ask_for_view v (λ u. Command.unsubscribe_from_view u c)

  abbrev pub force_collection : Option ℕ → Call
  force_collection v = ask_for_view v Command.start_forced_collection

  abbrev pub stop_forced_collection : Option ℕ → Call
  stop_forced_collection v = ask_for_view v Command.stop_forced_collection

  abbrev pub retrieve_data : ℕ → Option ℕ → Call
  retrieve_data now v = ask_for_view v (Command.retrieve_data now)

  -- The tag set is the one of the context.
  abbrev pub record_float64 : ℕ → TagSet → ℕ → R → Call
  record_float64 now ts m x = post (Command.record_float64 now ts m x)

  abbrev pub record_int64 : ℕ → TagSet → ℕ → ℕ → Call
  record_int64 now ts m n = post (Command.record_int64 now ts m n)

  abbrev pub record_all : ℕ → TagSet → List (Measurement R) → Call
  record_all now ts ms = post (Command.record_all now ts ms)

  abbrev pub set_reporting_period : ℕ → Call
  set_reporting_period d = ask (Command.set_reporting_period d)
