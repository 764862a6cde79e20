-- ===== src/Stats/Worker/Effects.antt =====
-- What single requests of stats/worker_commands.go bring about, and what they leave alone.
use instrumentation_go.Base.{
  ok, subst, ℕ, ◌≡◌, ◌<◌, length, refl, ◌∙◌, if◌then◌else◌, Bool, true, false, [], ◌∷◌, Option,
  none, some, nat_eq, eqb, arith, inl, inr, Bool-cases,
}
use instrumentation_go.Base.GoMap.{GoMap, lookup, contains, contains-insert, contains-delete}
use instrumentation_go.Tags.TagSet.{TagSet}
use instrumentation_go.Stats.Outcome.{Ensures, Ensures-bind, Ensures-map, Ensures-skip}
use instrumentation_go.Stats.Float64.{Float64}
use instrumentation_go.Stats.Aggregation.{Sample}
use instrumentation_go.Stats.Registry.{Registry, try_register_view}
use instrumentation_go.Stats.Registry as Registering
use instrumentation_go.Stats.Registry.Consistent.{
  try_register_measured-contains, try_register_view-Ensures,
}
use instrumentation_go.Stats.View.{
  ViewState, Subscription, add_subscription, delete_subscription, subscription_exists,
  is_collecting, clear_rows, add_view_sample,
}
use instrumentation_go.Stats.Commands.{Objects, names, Worker, sends_error, cannot_subscribe}
use instrumentation_go.Stats.Handlers.{
  update_state, after_registering, clear_if_idle, handle_subscribe, handle_unsubscribe,
  handle_record, record_in,
}
use instrumentation_go.Stats.Worker.Sound.{IsSound}

present-length : (c : ℕ) (m : GoMap ℕ Subscription) → contains c m ≡ true → 0 < length m
unfolding contains lookup
present-length c [] h = cc
present-length c (p ∷ m) h = omega arith

module _ {R : Type 0} where
  existing-is_collecting :
      (c : ℕ) (s : ViewState R) → subscription_exists c s ≡ true → is_collecting s ≡ true
  unfolding subscription_exists is_collecting
  existing-is_collecting c s h = ground (arith, present-length c s.subscriptions h)

  added-exists : (c : ℕ) (s : ViewState R) → subscription_exists c (add_subscription c s) ≡ true
  unfolding subscription_exists add_subscription
  added-exists c s =
      ground (arith, contains-insert c c (record { dropped_view_data = 0 }) s.subscriptions)

  deleted-exists :
      (c : ℕ) (s : ViewState R) → subscription_exists c (delete_subscription c s) ≡ false
  unfolding subscription_exists delete_subscription
  deleted-exists c s = ground (arith, contains-delete c c s.subscriptions)

module _ {R : Type 0} ⦃f : Float64 R⦄ (o : Objects R) where
  cleared-exists :
      (c : ℕ) (s : ViewState R)
      → subscription_exists c (clear_if_idle o (delete_subscription c s)) ≡ false
  unfolding clear_rows subscription_exists
  cleared-exists c s = elim (Bool-cases (is_collecting (delete_subscription c s))) [
    | inl busy ↦ rw busy (deleted-exists c s)
    | inr idle ↦ rw idle (deleted-exists c s)
  ]

  -- After unsubscribing a channel from a view, with the answer nil, the channel is not subscribed to it any
  -- more, every other view is as it was, and so is the registry.
  pub handle_unsubscribe_lem :
      (v c : ℕ) (w : Worker R)
      → ((handle_unsubscribe o v c w).1 ≡ sends_error none)
        × (subscription_exists c ((handle_unsubscribe o v c w).0.view_states v) ≡ false)
        × ((handle_unsubscribe o v c w).0.registry ≡ w.registry)
        × ((u : ℕ)
            → (handle_unsubscribe o v c w).0.view_states u
              ≡ (if eqb v u then (handle_unsubscribe o v c w).0.view_states v else w.view_states u))
  unfolding handle_unsubscribe
  handle_unsubscribe_lem v c w =
      (refl, ground (arith, cleared-exists c (w.view_states v)), refl, λ u. ground arith)

  registered_lem :
      (v c : ℕ) (w : Worker R) (p : Registry × Option Registering.Error)
      → (p.1 ≡ none → contains v p.0.views ≡ true)
      → (after_registering o v cannot_subscribe (add_subscription c) w p).1 ≡ sends_error none
      → (contains v
            (after_registering o v cannot_subscribe (add_subscription c) w p).0.registry.views
          ≡ true)
        × (subscription_exists c
              ((after_registering o v cannot_subscribe (add_subscription c) w p).0.view_states v)
            ≡ true)
  registered_lem v c w (r, none) h e = (h refl, ground (arith, added-exists c (w.view_states v)))
  registered_lem v c w (r, some x) h e = absurd (ground arith)

  -- The view is registered and the channel subscribed to it.
  abbrev IsSubscribed : ℕ → ℕ → Worker R → Type 0
  IsSubscribed v c w =
      (contains v w.registry.views ≡ true) × (subscription_exists c (w.view_states v) ≡ true)

  subscribe-IsSubscribed :
      (v c : ℕ) (w : Worker R)
      → IsSound o w
      → Ensures (λ p. p.1 ≡ sends_error none → IsSubscribed v c p.0) (handle_subscribe o v c w)
  unfolding handle_subscribe
  subscribe-IsSubscribed v c w h = elim (Bool-cases (subscription_exists c (w.view_states v))) [
    | inl old ↦
        rw (handle_subscribe, old)
          (λ _. (h.collecting v (existing-is_collecting c (w.view_states v) old), old))
    | inr new ↦
        rw (handle_subscribe, new)
          (Ensures-bind (λ p. p.1 ≡ none → contains v p.0.views ≡ true)
            (λ p. p.1 ≡ sends_error none → IsSubscribed v c p.0)
            (try_register_view (names o) v w.registry) _
            (try_register_view-Ensures (names o) (λ p. p.1 ≡ none → contains v p.0.views ≡ true) v
              w.registry (try_register_measured-contains (names o) v w.registry h.consistent))
            (registered_lem v c w))
  ]

  -- Where a worker is sound and subscribing a channel to a view is answered with nil, the view is
  -- registered and the channel is subscribed to it.
  pub handle_subscribe_lem :
      (v c : ℕ) (w w' : Worker R)
      → IsSound o w
      → handle_subscribe o v c w ≡ ok (w', sends_error none)
      → (contains v w'.registry.views ≡ true) × (subscription_exists c (w'.view_states v) ≡ true)
  handle_subscribe_lem v c w w' h e =
      subst (Ensures (λ p. p.1 ≡ sends_error none → IsSubscribed v c p.0)) e
        (subscribe-IsSubscribed v c w h) refl

  -- The state of one view and the registry are as they were.
  abbrev Same : ℕ → Worker R → Worker R → Type 0
  Same u w w' = (w'.view_states u ≡ w.view_states u) × (w'.registry ≡ w.registry)

  not_behind :
      (u v : ℕ) (b : Bool) (vs : GoMap ℕ Bool)
      → contains u ((v, b) ∷ vs) ≡ false
      → (eqb v u ≡ false) × (contains u vs ≡ false)
  unfolding contains lookup
  not_behind u v b vs h = ground arith

  record_in_others :
      (vs : GoMap ℕ Bool) (ts : TagSet) (x : Sample R) (now u : ℕ) (w : Worker R)
      → contains u vs ≡ false
      → Ensures (Same u w) (record_in o vs ts x now w)
  unfolding record_in
  record_in_others [] ts x now u w h = (refl, refl)
  record_in_others ((v, b) ∷ vs) ts x now u w h =
      Ensures-skip (Same u w) (add_view_sample (o.view_at v) ts x now (w.view_states v)) _ λ s.
        Ensures-map (Same u (update_state v s w)) (Same u w)
          (record_in o vs ts x now (update_state v s w))
          (record_in_others vs ts x now u (update_state v s w) (not_behind u v b vs h).1)
          λ w' c. (c.0 ∙ rw (not_behind u v b vs h).0 refl, c.1)

  -- Recording a sample of a measure, if it ends without a panic, leaves each view alone that is not
  -- attached to the measure, and the registry.
  pub handle_record_others :
      (now u m : ℕ) (ts : TagSet) (x : Sample R) (w : Worker R)
      → contains u (w.registry.measure_views m) ≡ false
      → Ensures
          (λ p. (p.0.view_states u ≡ w.view_states u) × (p.0.registry ≡ w.registry))
          (handle_record o now ts m x w)
  unfolding handle_record
  handle_record_others now u m ts x w h = elim (Bool-cases (contains m w.registry.measures)) [
    | inl known ↦ rw known (
        Ensures-bind (Same u w) (λ p. Same u w p.0)
          (record_in o (w.registry.measure_views m) ts x now w) _
          (record_in_others (w.registry.measure_views m) ts x now u w h) λ w' c. c)
    | inr unknown ↦ rw unknown (refl, refl)
  ]
