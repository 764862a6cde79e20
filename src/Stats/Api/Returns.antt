-- ===== src/Stats/Api/Returns.antt =====
-- Which calls of the exported functions of stats/worker.go come back.
use instrumentation_go.Base.{
  refl, ◌↔◌, ◌⊎◌, ◌≤◌, ◌^◌, ℕ, ◌≡◌, ◌≢◌, Bool, true, false, not, bytes_eq, nat_eq, inl, inr, arith,
  Bool-cases,
}
use instrumentation_go.Base.GoMap.{contains}
use instrumentation_go.Stats.Outcome.{
  Outcome, Ensures, Ensures-map, Ensures-skip, Returns, Returns-bind, Returns-both,
}
use instrumentation_go.Stats.Float64.{Float64}
use instrumentation_go.Stats.View.{is_collecting, collected_rows}
use instrumentation_go.Stats.Commands.{Objects, Worker, Command, Answer, nothing}
use instrumentation_go.Stats.Handlers.{
  is_not_positive, handle_get_measure, handle_register_measure, handle_delete_measure,
  handle_get_view, handle_register_view, handle_unregister_view, handle_subscribe,
  handle_unsubscribe, handle_start_forced, handle_stop_forced, handle_retrieve,
  handle_set_reporting_period, handle_command,
}
use mathlib.Core.Bool.{false≢true}
use instrumentation_go.Stats.Worker.Full.{IsFull}
use instrumentation_go.Stats.Worker.Returning.{HasUsableViews, IsTimely, handle_command-IsFull}
use instrumentation_go.Stats.Api.{never_returns, await, ask}

-- The requests that are answered: those with a channel, but for a period that is not positive.
abbrev is_answered : {R : Type 0} → Command R → Bool
is_answered (Command.record_float64 now ts m x) = false
is_answered (Command.record_int64 now ts m n) = false
is_answered (Command.record_all now ts ms) = false
is_answered (Command.set_reporting_period d) = not (is_not_positive d)
is_answered c = true

-- The requests whose caller waits.
abbrev pub has_channel : {R : Type 0} → Command R → Bool
has_channel (Command.record_float64 now ts m x) = false
has_channel (Command.record_int64 now ts m n) = false
has_channel (Command.record_all now ts ms) = false
has_channel c = true

-- A period that is not positive, as a 64-bit pattern.
abbrev pub IsUnanswered : {R : Type 0} → Command R → Type 0
IsUnanswered (Command.set_reporting_period d) = (d ≡ 0) ⊎ (2 ^ 63 ≤ d)
IsUnanswered c = ⊥

module _ {R : Type 0} ⦃f : Float64 R⦄ (o : Objects R) where
  handle_command-answers :
      (c : Command R) (w : Worker R)
      → is_answered c ≡ true
      → Ensures (λ p. p.1 ≢ nothing) (handle_command o c w)
  unfolding handle_command handle_get_measure handle_register_measure handle_delete_measure
      handle_get_view handle_register_view handle_unregister_view handle_subscribe
      handle_unsubscribe handle_start_forced handle_stop_forced handle_retrieve
      handle_set_reporting_period
  handle_command-answers (Command.get_measure_by_name name) w h = ground arith
  handle_command-answers (Command.register_measure m) w h = ground arith
  handle_command-answers (Command.delete_measure m) w h = ground arith
  handle_command-answers (Command.get_view_by_name name) w h = ground arith
  handle_command-answers (Command.register_view v) w h = ground arith
  handle_command-answers (Command.unregister_view v) w h = ground arith
  handle_command-answers (Command.subscribe_to_view v c) w h = ground arith
  handle_command-answers (Command.unsubscribe_from_view v c) w h = ground arith
  handle_command-answers (Command.start_forced_collection v) w h = ground arith
  handle_command-answers (Command.stop_forced_collection v) w h = ground arith
  handle_command-answers (Command.retrieve_data now v) w h =
      elim (Bool-cases (contains v w.registry.views)) [
        | inl known ↦ elim (Bool-cases (is_collecting (w.view_states v))) [
          | inl busy ↦
              rw (handle_retrieve, known, busy)
                (Ensures-skip (λ p. p.1 ≢ nothing)
                  (collected_rows (o.view_at v) now (w.view_states v)) _ λ p e. cc)
          | inr idle ↦ rw (handle_retrieve, known, idle) (λ e. cc)
        ]
        | inr unknown ↦ rw (handle_retrieve, unknown) (λ e. cc)
      ]
  handle_command-answers (Command.record_float64 now ts m x) w h = absurd (ground arith)
  handle_command-answers (Command.record_int64 now ts m n) w h = absurd (ground arith)
  handle_command-answers (Command.record_all now ts ms) w h = absurd (ground arith)
  handle_command-answers (Command.set_reporting_period d) w h = ground arith

  set_reporting_period-IsMissing :
      (d : ℕ) (w : Worker R)
      → ((handle_set_reporting_period o d w).1 ≡ nothing) ↔ ((d ≡ 0) ⊎ (2 ^ 63 ≤ d))
  unfolding handle_set_reporting_period
  set_reporting_period-IsMissing d w = ground arith

  -- The answer is missing for the given reason only.
  abbrev IsMissing : Type 0 → Worker R × Answer R → Type 0
  IsMissing reason p = (p.1 ≡ nothing) ↔ reason

  there :
      (m : Outcome (Worker R × Answer R)) → Ensures (λ p. p.1 ≢ nothing) m → Ensures (IsMissing ⊥) m
  there m h = Ensures-map (λ p. p.1 ≢ nothing) (IsMissing ⊥) m h (λ p k. (λ e. k e, λ e. absurd e))

  answered :
      (c : Command R) (w : Worker R)
      → is_answered c ≡ true
      → IsUnanswered c ≡ ⊥
      → Ensures (IsMissing (IsUnanswered c)) (handle_command o c w)
  answered c w h e = rw e (there (handle_command o c w) (handle_command-answers c w h))

  handle_command-answer :
      (c : Command R) (w : Worker R)
      → has_channel c ≡ true
      → Ensures (IsMissing (IsUnanswered c)) (handle_command o c w)
  unfolding handle_command
  handle_command-answer (Command.get_measure_by_name name) w h =
      answered (Command.get_measure_by_name name) w refl refl
  handle_command-answer (Command.register_measure m) w h =
      answered (Command.register_measure m) w refl refl
  handle_command-answer (Command.delete_measure m) w h =
      answered (Command.delete_measure m) w refl refl
  handle_command-answer (Command.get_view_by_name name) w h =
      answered (Command.get_view_by_name name) w refl refl
  handle_command-answer (Command.register_view v) w h =
      answered (Command.register_view v) w refl refl
  handle_command-answer (Command.unregister_view v) w h =
      answered (Command.unregister_view v) w refl refl
  handle_command-answer (Command.subscribe_to_view v c) w h =
      answered (Command.subscribe_to_view v c) w refl refl
  handle_command-answer (Command.unsubscribe_from_view v c) w h =
      answered (Command.unsubscribe_from_view v c) w refl refl
  handle_command-answer (Command.start_forced_collection v) w h =
      answered (Command.start_forced_collection v) w refl refl
  handle_command-answer (Command.stop_forced_collection v) w h =
      answered (Command.stop_forced_collection v) w refl refl
  handle_command-answer (Command.retrieve_data now v) w h =
      answered (Command.retrieve_data now v) w refl refl
  handle_command-answer (Command.record_float64 now ts m x) w h = absurd (false≢true h)
  handle_command-answer (Command.record_int64 now ts m n) w h = absurd (false≢true h)
  handle_command-answer (Command.record_all now ts ms) w h = absurd (false≢true h)
  handle_command-answer (Command.set_reporting_period d) w h = set_reporting_period-IsMissing d w

  await_iff : (a : Answer R) → (await o a ≡ never_returns) ↔ (a ≡ nothing)
  await_iff a = ground arith

  -- Where every view has a measure and a regular window, every row is one of its view, and the request has a
  -- channel and is timely: the handler ends without a panic and keeps the rows so, and the caller waits for
  -- ever exactly if the request is for a reporting period that is zero or, as a signed number, negative.
  pub ask-Returns :
      (earliest : ℕ) (c : Command R) (w : Worker R)
      → HasUsableViews earliest o
      → IsFull o w
      → IsTimely earliest c
      → has_channel c ≡ true
      → Returns (λ p. IsFull o p.0 × ((p.1 ≡ never_returns) ↔ IsUnanswered c)) (ask o c w)
  unfolding ask
  ask-Returns earliest c w usable full timely h =
      Returns-bind (λ p. IsFull o p.0 × IsMissing (IsUnanswered c) p) _ (handle_command o c w) _
        (Returns-both (λ p. IsFull o p.0) (IsMissing (IsUnanswered c)) (handle_command o c w)
          (handle_command-IsFull o earliest usable c w timely full) (handle_command-answer c w h))
        λ p (k, missing).
          (k, (λ e. missing.0 ((await_iff p.1).0 e), λ e. (await_iff p.1).1 (missing.1 e)))
