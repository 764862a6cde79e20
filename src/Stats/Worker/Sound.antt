-- ===== src/Stats/Worker/Sound.antt =====
-- What it is for the worker of stats/worker.go to be sound.
use instrumentation_go.Base.{
  ℕ, ◌≡◌, refl, sym, ◌∙◌, true, false, List, [], ◌∷◌, Bytes, nat_eq, eqb_iff, arith, inl, inr,
  Bool-cases,
}
use instrumentation_go.Base.GoMap.{GoMap, contains}
use mathlib.Core.Bool.{false≢true}
use instrumentation_go.Tags.Key.{Key}
use instrumentation_go.Tags.TagSet.{TagSet}
use instrumentation_go.Tags.Values.{to_values_string}
use instrumentation_go.Stats.Aggregator.{
  Aggregator, Window, window_cumulative, window_sliding_time, window_sliding_count,
}
use instrumentation_go.Stats.Outcome.{Ensures, Ensures-bind, Ensures-all, Ensures-skip}
use instrumentation_go.Stats.Float64.{Float64}
use instrumentation_go.Stats.Aggregation.{Sample}
use instrumentation_go.Stats.Registry.{Registry}
use instrumentation_go.Stats.Registry.Consistent.{IsConsistent}
use instrumentation_go.Stats.View.{
  View, ViewState, is_collecting, clear_rows, add_view_sample, collected_rows, or_panic, collect,
  collect_rows,
}
use instrumentation_go.Stats.Commands.{Objects, names, Worker}
use instrumentation_go.Stats.Handlers.{update_state}
use instrumentation_go.Stats.Worker.{after_report}

-- Whoever collects is registered, and whoever does not holds no rows.
pub record IsSound {R : Type 0} (o : Objects R) (w : Worker R) : Type 0 where
  pub consistent : IsConsistent (names o) w.registry
  pub collecting :
      (v : ℕ) → is_collecting (w.view_states v) ≡ true → contains v w.registry.views ≡ true
  pub idle : (v : ℕ) → is_collecting (w.view_states v) ≡ false → (w.view_states v).signatures ≡ []

-- The subscriptions and the forced collection are as they were, and an idle view still has no rows.
pub record SameUse {R : Type 0} (s s' : ViewState R) : Type 0 where
  pub subscriptions : s'.subscriptions ≡ s.subscriptions
  pub forced : s'.is_forced_collection ≡ s.is_forced_collection
  pub empty : s.signatures ≡ [] → is_collecting s ≡ false → s'.signatures ≡ []

module _ {R : Type 0} where
  SameUse-collecting : (s s' : ViewState R) → SameUse s s' → is_collecting s' ≡ is_collecting s
  unfolding is_collecting
  SameUse-collecting s s' u = ground arith

  pub after_report-SameUse : (w : Window) (s : ViewState R) → SameUse s (after_report w s)
  unfolding after_report clear_rows
  after_report-SameUse window_cumulative s = record {
    subscriptions = refl;
    forced = refl;
    empty = λ h k. h;
  }
  after_report-SameUse (window_sliding_time d n) s = record {
    subscriptions = refl;
    forced = refl;
    empty = λ h k. refl;
  }
  after_report-SameUse (window_sliding_count d n) s = record {
    subscriptions = refl;
    forced = refl;
    empty = λ h k. refl;
  }

  pub SameUse-trans : (r s t : ViewState R) → SameUse r s → SameUse s t → SameUse r t
  SameUse-trans r s t p q = record {
    subscriptions = q.subscriptions ∙ p.subscriptions;
    forced = q.forced ∙ p.forced;
    empty = λ h k. q.empty (p.empty h k) (SameUse-collecting r s p ∙ k);
  }

module _ {R : Type 0} ⦃f : Float64 R⦄ where
  pub add_view_sample-SameUse :
      (v : View R) (ts : TagSet) (x : Sample R) (now : ℕ) (s : ViewState R)
      → Ensures (SameUse s) (add_view_sample v ts x now s)
  unfolding add_view_sample
  add_view_sample-SameUse v ts x now s = elim (Bool-cases (is_collecting s)) [
    | inl busy ↦ rw busy (
        Ensures-skip (SameUse s) (or_panic (to_values_string ts v.tag_keys)) _ λ sig.
          Ensures-skip (SameUse s) (collect v sig x now s.signatures) _ λ m. record {
            subscriptions = refl;
            forced = refl;
            empty = λ h k. absurd (false≢true (sym k ∙ busy));
          })
    | inr idle ↦ rw idle (record { subscriptions = refl; forced = refl; empty = λ h k. h })
  ]

  collect_rows-empty :
      (keys : List Key) (now : ℕ) (m : GoMap Bytes (Aggregator R))
      → Ensures (λ p. m ≡ [] → p.0 ≡ []) (collect_rows keys now m)
  unfolding collect_rows
  collect_rows-empty keys now [] = λ h. refl
  collect_rows-empty keys now ((sig, a) ∷ m) =
      Ensures-all (λ p. (sig, a) ∷ m ≡ [] → p.0 ≡ []) (collect_rows keys now ((sig, a) ∷ m))
        (λ p h. cc)

  pub collected_rows-SameUse :
      (v : View R) (now : ℕ) (s : ViewState R)
      → Ensures (λ p. SameUse s p.0) (collected_rows v now s)
  unfolding collected_rows
  collected_rows-SameUse v now s =
      Ensures-bind (λ p. s.signatures ≡ [] → p.0 ≡ []) (λ p. SameUse s p.0)
        (collect_rows v.tag_keys now s.signatures) _
        (collect_rows-empty v.tag_keys now s.signatures)
        λ p h. record { subscriptions = refl; forced = refl; empty = λ e _. h e }

module _ {R : Type 0} (o : Objects R) where
  -- A change of one view's state.
  pub update_state-IsSound :
      (v : ℕ) (s : ViewState R) (w : Worker R)
      → (is_collecting s ≡ true → contains v w.registry.views ≡ true)
      → (is_collecting s ≡ false → s.signatures ≡ [])
      → IsSound o w
      → IsSound o (update_state v s w)
  update_state-IsSound v s w h k c = record {
    consistent = c.consistent;
    collecting = λ u. ground (arith, eqb_iff v u, c.collecting u);
    idle = λ u. ground (arith, eqb_iff v u, c.idle u);
  }

  -- A change of the registry that keeps the registered views.
  pub grow-IsSound :
      (r : Registry) (w : Worker R)
      → IsConsistent (names o) r
      → ((u : ℕ) → contains u w.registry.views ≡ true → contains u r.views ≡ true)
      → IsSound o w
      → IsSound o (record w { registry = r })
  grow-IsSound r w h k c = record {
    consistent = h;
    collecting = λ u e. k u (c.collecting u e);
    idle = c.idle;
  }

  pub SameUse-IsSound :
      (v : ℕ) (s : ViewState R) (w : Worker R)
      → SameUse (w.view_states v) s
      → IsSound o w
      → IsSound o (update_state v s w)
  SameUse-IsSound v s w u c =
      let same = SameUse-collecting (w.view_states v) s u in
      update_state-IsSound v s w (λ h. c.collecting v (sym same ∙ h))
        (λ h. u.empty (c.idle v (sym same ∙ h)) (sym same ∙ h)) c
