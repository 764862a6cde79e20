-- ===== src/Stats/Examples/Returning.antt =====
-- A worker with windows of time and of counts, over one history.
use instrumentation_go.Base.{
  refl, ◌≡◌, ◌↔◌, ◌⊎◌, ◌≤◌, ◌^◌, ◌≢◌, eqb, if◌then◌else◌, ℕ, [], ◌∷◌, bytes_eq, nat_eq, arith, inl,
  inr, Bool-cases, ◌==◌,
}
use instrumentation_go.Base.GoMap.{lookup}
use instrumentation_go.Tags.Key.{key_eq}
use instrumentation_go.Stats.Outcome.{Returns}
use instrumentation_go.Stats.Aggregation.{aggregation_distribution}
use instrumentation_go.Stats.Aggregator.{window_sliding_time, window_sliding_count}
use instrumentation_go.Stats.View.Filled.{IsShort}
use instrumentation_go.Stats.Commands.{Objects, Command, new_worker}
use instrumentation_go.Stats.Worker.{start, takes, closed}
use instrumentation_go.Stats.Worker.Sound.{IsSound}
use instrumentation_go.Stats.Worker.Full.{IsFull}
use instrumentation_go.Stats.Worker.Returning.{
  HasUsableViews, new_worker-IsFull, start-new_worker-Returns,
}
use instrumentation_go.Stats.Api.{never_returns, ask}
use instrumentation_go.Stats.Api.Returns.{ask-Returns}
use instrumentation_go.Stats.Examples.{naturals, a_key, tagged, history}

-- View 1 has a window of ten nanoseconds in five subintervals, all others one of six samples in three subsets.
abbrev timed_objects : Objects ℕ
timed_objects = record {
  view_at = λ v. record {
    name = v ∷ [];
    description = [];
    tag_keys = a_key ∷ [];
    m = 5;
    aggregation = aggregation_distribution (10 ∷ 20 ∷ []);
    window = if eqb v 1 then window_sliding_time 10 5 else window_sliding_count 6 3;
  };
  measure_name = λ m. m ∷ [];
}

tagged-IsShort : IsShort tagged
unfolding lookup
tagged-IsShort k = elim (Bool-cases (a_key == k)) [
  | inl same ↦ rw same (omega arith)
  | inr other ↦ rw other (omega arith)
]

takes≢closed : takes ≢ closed
takes≢closed e = cc

timed_objects-HasUsableViews : HasUsableViews 100 timed_objects
timed_objects-HasUsableViews v = (
  elim (Bool-cases (eqb v 1)) [
    | inl first ↦ rw first (omega arith, omega arith, omega arith, omega arith)
    | inr other ↦ rw other (omega arith, omega arith)
  ],
  omega arith,
)

start-new_worker-Returns_example :
    Returns
      (λ w. IsFull timed_objects w × IsSound timed_objects w)
      (start timed_objects history new_worker)
start-new_worker-Returns_example =
    start-new_worker-Returns timed_objects 100 history timed_objects-HasUsableViews (
      tt,
      (
        tt,
        (
          (omega arith, tagged-IsShort),
          (tt, ((λ c e. takes≢closed e), (omega arith, (tt, (tt, (tt, tt)))))),
        ),
      ),
    )

-- -1 as a duration.
abbrev minus_one : ℕ
minus_one = 18446744073709551615

ask-Returns_example :
    Returns
      (λ p.
        IsFull timed_objects p.0
        × ((p.1 ≡ never_returns) ↔ ((minus_one ≡ 0) ⊎ (2 ^ 63 ≤ minus_one))))
      (ask timed_objects (Command.set_reporting_period minus_one) new_worker)
ask-Returns_example =
    ask-Returns timed_objects 100 (Command.set_reporting_period minus_one) new_worker
      timed_objects-HasUsableViews (new_worker-IsFull timed_objects) tt refl
