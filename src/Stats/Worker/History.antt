-- ===== src/Stats/Worker/History.antt =====
-- The reports and the loop of stats/worker.go, and the soundness of the worker.
use instrumentation_go.Base.{
  ℕ, refl, Bool, List, [], ◌∷◌, none, some, nat_eq, eqb, inl, inr, Option-cases, Bool-cases,
}
use instrumentation_go.Base.GoMap.{GoMap}
use mathlib.Core.Bool.{false≢true}
use instrumentation_go.Stats.Outcome.{Ensures, Ensures-bind, Ensures-skip}
use instrumentation_go.Stats.Float64.{Float64}
use instrumentation_go.Stats.Registry.Consistent.{empty_registry-IsConsistent}
use instrumentation_go.Stats.View.{is_collecting, subscriptions_count, collected_rows}
use instrumentation_go.Stats.Commands.{Objects, names, Worker, new_worker}
use instrumentation_go.Stats.Handlers.{update_state, handle_command}
use instrumentation_go.Stats.Worker.{
  Event, receives, ticks, quits, start, report_usage, report_views, after_report, first_ready,
  Channel,
}
use instrumentation_go.Stats.Worker.Sound.{
  IsSound, SameUse, after_report-SameUse, collected_rows-SameUse, SameUse-IsSound, SameUse-trans,
}
use instrumentation_go.Stats.Worker.Preserve.{handle_command-IsSound}

module _ {R : Type 0} ⦃f : Float64 R⦄ (o : Objects R) where
  report_views-IsSound :
      (ready : ℕ → Channel) (now : ℕ) (vs : GoMap ℕ Bool) (w : Worker R)
      → IsSound o w
      → Ensures (λ p. IsSound o p.0) (report_views o ready now vs w)
  unfolding report_views
  report_views-IsSound ready now [] w h = h
  report_views-IsSound ready now ((v, b) ∷ vs) w h =
      elim (Bool-cases (eqb (subscriptions_count (w.view_states v)) 0)) [
        | inl none_there ↦ rw none_there (report_views-IsSound ready now vs w h)
        | inr some_there ↦ rw some_there (
            Ensures-bind (λ p. SameUse (w.view_states v) p.0) (λ p. IsSound o p.0)
              (collected_rows (o.view_at v) now (w.view_states v)) _
              (collected_rows-SameUse (o.view_at v) now (w.view_states v))
              λ p u.
                Ensures-skip (λ p. IsSound o p.0) (first_ready ready p.0.subscriptions) _
                  λ found. elim (Option-cases found) [
                    | inl e ↦ rw e (
                        report_views-IsSound ready now vs
                          (update_state v (after_report (o.view_at v).window p.0) w)
                          (SameUse-IsSound o v (after_report (o.view_at v).window p.0) w
                            (SameUse-trans (w.view_states v) p.0
                              (after_report (o.view_at v).window p.0) u
                              (after_report-SameUse (o.view_at v).window p.0))
                            h))
                    | inr (c, e) ↦ rw e (SameUse-IsSound o v p.0 w u h)
                  ])
      ]

  start-IsSound :
      (es : List (Event R)) (w : Worker R) → IsSound o w → Ensures (IsSound o) (start o es w)
  unfolding start report_usage
  start-IsSound [] w h = h
  start-IsSound (receives none ∷ es) w h = start-IsSound es w h
  start-IsSound (receives (some c) ∷ es) w h =
      Ensures-bind (λ p. IsSound o p.0) (IsSound o) (handle_command o c w) _
        (handle_command-IsSound o c w h) λ p k. start-IsSound es p.0 k
  start-IsSound (ticks ready now ∷ es) w h =
      Ensures-bind (λ p. IsSound o p.0) (IsSound o) (report_usage o ready now w) _
        (report_views-IsSound ready now w.registry.views w h) λ p k. start-IsSound es p.0 k
  start-IsSound (quits ∷ es) w h = h

  pub new_worker-IsSound : IsSound o new_worker
  unfolding new_worker is_collecting
  new_worker-IsSound = record {
    consistent = empty_registry-IsConsistent (names o);
    collecting = λ v e. absurd (false≢true e);
    idle = λ v e. refl;
  }

  -- Whatever commands and ticks a new worker receives, in whatever order: if the loop has come to its end
  -- without a panic, the maps of the registry agree, every view that collects is registered, and a view
  -- that does not collect holds no rows.
  pub start-new_worker-IsSound : (es : List (Event R)) → Ensures (IsSound o) (start o es new_worker)
  start-new_worker-IsSound es = start-IsSound es new_worker new_worker-IsSound
