-- ===== src/Stats/Worker/Reports.antt =====
-- What one report of stats/worker.go sends.
use instrumentation_go.Base.{
  ℕ, ◌≤◌, Bool, [], ◌∷◌, nat_eq, eqb, length, inl, inr, Option-cases, Bool-cases, arith,
}
use instrumentation_go.Base.GoMap.{GoMap}
use instrumentation_go.Stats.Outcome.{Ensures, Ensures-skip}
use instrumentation_go.Stats.Float64.{Float64}
use instrumentation_go.Stats.View.{subscriptions_count, collected_rows}
use instrumentation_go.Stats.Commands.{Objects, Worker}
use instrumentation_go.Stats.Handlers.{update_state}
use instrumentation_go.Stats.Worker.{report_usage, report_views, after_report, first_ready, Channel}

module _ {R : Type 0} ⦃f : Float64 R⦄ (o : Objects R) where
  report_views_sends :
      (ready : ℕ → Channel) (now : ℕ) (vs : GoMap ℕ Bool) (w : Worker R)
      → Ensures (λ p. length p.1 ≤ 1) (report_views o ready now vs w)
  unfolding report_views
  report_views_sends ready now [] w = omega arith
  report_views_sends ready now ((v, b) ∷ vs) w =
      elim (Bool-cases (eqb (subscriptions_count (w.view_states v)) 0)) [
        | inl none_there ↦ rw none_there (report_views_sends ready now vs w)
        | inr some_there ↦ rw some_there (
            Ensures-skip (λ p. length p.1 ≤ 1) (collected_rows (o.view_at v) now (w.view_states v))
              _
              λ p.
                Ensures-skip (λ p. length p.1 ≤ 1) (first_ready ready p.0.subscriptions) _
                  λ found. elim (Option-cases found) [
                    | inl e ↦ rw e (
                        report_views_sends ready now vs
                          (update_state v (after_report (o.view_at v).window p.0) w))
                    | inr (c, e) ↦ rw e (omega arith)
                  ])
      ]

  -- One report that does not panic sends the data of at most one view, to one subscriber, however many views have
  -- subscribers that are ready.
  pub report_usage_sends :
      (ready : ℕ → Channel) (now : ℕ) (w : Worker R)
      → Ensures (λ p. length p.1 ≤ 1) (report_usage o ready now w)
  unfolding report_usage
  report_usage_sends ready now w = report_views_sends ready now w.registry.views w
