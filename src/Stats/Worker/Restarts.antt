-- ===== src/Stats/Worker/Restarts.antt =====
-- What a restart of the worker of stats/worker.go leaves behind.
use instrumentation_go.Base.{ok, ℕ, ◌≡◌, refl, true, false, none, nat_eq}
use instrumentation_go.Base.GoMap.{contains, lookup}
use instrumentation_go.Stats.Outcome.{Returns}
use instrumentation_go.Stats.Float64.{Float64}
use instrumentation_go.Stats.Registry.{empty_registry}
use instrumentation_go.Stats.View.{subscription_exists}
use instrumentation_go.Stats.Commands.{Objects, Worker, new_worker, sends_error}
use instrumentation_go.Stats.Handlers.{handle_subscribe}
use instrumentation_go.Stats.Worker.{start, stop, restart_worker}

module _ {R : Type 0} ⦃f : Float64 R⦄ (o : Objects R) where
  -- Where a channel was subscribed to a view before a restart, the restart does not panic, subscribing the
  -- channel again is answered with nil and changes nothing, and the view is not registered with the new worker.
  pub restart_worker-loses_views :
      (v c : ℕ) (w : Worker R)
      → subscription_exists c (w.view_states v) ≡ true
      → Returns
          (λ w'.
            (handle_subscribe o v c w' ≡ ok (w', sends_error none))
            × (contains v w'.registry.views ≡ false))
          (restart_worker o w)
  unfolding restart_worker stop start handle_subscribe contains lookup new_worker empty_registry
  restart_worker-loses_views v c w h = rw h (refl, refl)
