-- ===== src/Stats/Worker.antt =====
-- The loop of the worker of stats/worker.go, and its periodic report. Which channels can take a value at
-- once, and which are closed, is up to their owners: `ready` says so for one report.
pub mod Sound
pub mod Samples
pub mod Preserve
pub mod History
pub mod Reports
pub mod Effects
pub mod Full
pub mod Returning
pub mod Restarts
use instrumentation_go.Base.{
  ℕ, Bool, List, [], ◌∷◌, Option, none, some, eqb, if◌then◌else◌, ok, panics, ◌>>=◌,
}
use instrumentation_go.Base.GoMap.{GoMap}
use instrumentation_go.Stats.Outcome.{Outcome}
use instrumentation_go.Stats.Float64.{Float64}
use instrumentation_go.Stats.Aggregator.{
  Window, window_cumulative, window_sliding_time, window_sliding_count,
}
use instrumentation_go.Stats.View.{
  View, ViewState, Subscription, Row, subscriptions_count, clear_rows, collected_rows,
}
use instrumentation_go.Stats.Commands.{Objects, Worker, Command, Answer, new_worker}
use instrumentation_go.Stats.Handlers.{update_state, handle_command}

-- The data of a view, and the channel that it is sent on.
pub record Send (R : Type 0) : Type 0 where
  pub channel : ℕ
  pub view : ℕ
  pub rows : List (Row R)

-- What a channel is to the `select` with a default: it takes the value, or has no receiver and no room, or is
-- closed, which makes the send panic.
pub data Channel : Type 0 where
  takes : Channel
  blocks : Channel
  closed : Channel

-- The loop over the subscriptions: the first channel that can take the data. The count of dropped data
-- is raised in a copy of the subscription, which is then forgotten.
unfoldable pub first_ready : (ℕ → Channel) → GoMap ℕ Subscription → Outcome (Option ℕ)
first_ready ready [] = ok none
first_ready ready ((c, s) ∷ m) =
    let rest = first_ready ready m in
    elim (ready c) [ takes ↦ ok (some c) | blocks ↦ rest | closed ↦ panics ]

-- Only the rows of a cumulative view survive a report that nobody took.
unfoldable pub after_report : {R : Type 0} → Window → ViewState R → ViewState R
after_report window_cumulative s = s
after_report (window_sliding_time d n) s = clear_rows s
after_report (window_sliding_count n k) s = clear_rows s

module _ {R : Type 0} ⦃f : Float64 R⦄ (o : Objects R) (ready : ℕ → Channel) (now : ℕ) where
  -- The loop over the views. The `return` behind a successful send leaves the whole method.
  unfoldable pub report_views : GoMap ℕ Bool → Worker R → Outcome (Worker R × List (Send R))
  unfolding subscriptions_count first_ready after_report
  report_views [] w = ok (w, [])
  report_views ((v, _) ∷ vs) w =
      let skipped = report_views vs w in
      let reported : Outcome (Worker R × List (Send R)) =
        (collected_rows (o.view_at v) now (w.view_states v) >>= λ (s, rows).
        first_ready ready s.subscriptions >>= λ found. elim found [
          | some c ↦ ok (update_state v s w, record { channel = c; view = v; rows = rows } ∷ [])
          | none ↦ report_views vs (update_state v (after_report (o.view_at v).window s) w)
        ]) in
      if eqb (subscriptions_count (w.view_states v)) 0 then skipped else reported

  unfoldable pub report_usage : Worker R → Outcome (Worker R × List (Send R))
  unfolding report_views
  report_usage w = report_views w.registry.views w

-- What the `select` of the loop receives: a command, which may be nil, a tick, or the order to quit.
pub data Event (R : Type 0) : Type 0 where
  receives : Option (Command R) → Event R
  ticks : (ℕ → Channel) → ℕ → Event R
  quits : Event R

module _ {R : Type 0} ⦃f : Float64 R⦄ (o : Objects R) where
  -- The loop over the events in their order, until the order to quit.
  unfoldable pub start : List (Event R) → Worker R → Outcome (Worker R)
  unfolding report_usage
  start [] w = ok w
  start (receives none ∷ es) w = start es w
  start (receives (some c) ∷ es) w = do (w', answer) ← handle_command o c w; start es w'
  start (ticks ready now ∷ es) w = do (w', sends) ← report_usage o ready now w; start es w'
  start (quits ∷ es) w = ok w

  unfoldable pub stop : Worker R → Outcome (Worker R)
  unfolding start
  stop w = start (quits ∷ []) w

  -- The new worker has maps of its own. What the views and the measures hold themselves, their subscriptions,
  -- rows and attached views, stays as it is.
  unfoldable pub restart_worker : Worker R → Outcome (Worker R)
  unfolding stop new_worker
  restart_worker w = do
    w' ← stop w
    let fresh : Worker R = new_worker
    ok (record fresh {
      registry = record (fresh.registry) { measure_views = w'.registry.measure_views };
      view_states = w'.view_states;
    })
