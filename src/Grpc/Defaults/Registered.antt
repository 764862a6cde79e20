-- ===== src/Grpc/Defaults/Registered.antt =====
-- That registering the default views of plugins/grpc/stats succeeds.
use instrumentation_go.Base.{
  ◌≢◌, ℕ, ◌≡◌, ◌∙◌, refl, ap, true, false, List, [], ◌∷◌, map, none, some, Bytes, bytes_beq_iff,
  bytes_beq, bytes_eq, nat_eq, eqb_iff, All, ok, arith,
}
use instrumentation_go.Base.GoMap.{lookup, contains, lookup-insert, contains-insert}
use instrumentation_go.Stats.Outcome.{Returns, Returns-map}
use instrumentation_go.Stats.Float64.{Float64}
use instrumentation_go.Stats.Registry.{
  try_register_measure, try_register_measured, register_new_view, file_view, add_view,
}
use instrumentation_go.Stats.Registry.Consistent.{measured_lem}
use instrumentation_go.Stats.View.{is_collecting, start_forced_collection}
use instrumentation_go.Stats.Commands.{Objects, names, Worker, sends_error}
use instrumentation_go.Stats.Handlers.{
  update_state, handle_command, handle_register_view, handle_start_forced,
}
use instrumentation_go.Stats.Api.{replies, ask, ask_for_view, register_view, force_collection}
use instrumentation_go.Grpc.Defaults.Measured.{
  is_among, is_distinct, not_among, distinct_parts, bytes_beq_swap, IsNewView, IsCreated,
}
use instrumentation_go.Grpc.Defaults.{register_views}

module _ {R : Type 0} ⦃f : Float64 R⦄ (o : Objects R) where
  -- The view is registered, filed under its name and attached to its measure, and collects.
  pub record Collects (w : Worker R) (v : ℕ) : Type 0 where
    pub registered : contains v w.registry.views ≡ true
    pub named : lookup (o.view_at v).name w.registry.views_by_name ≡ some v
    pub attached : contains v (w.registry.measure_views (o.view_at v).m) ≡ true
    pub collecting : is_collecting (w.view_states v) ≡ true

  try_register_measure-created :
      (v : ℕ) (w : Worker R)
      → IsCreated o w (o.view_at v).m
      → try_register_measure (names o) (o.view_at v).m w.registry ≡ (w.registry, none)
  unfolding try_register_measure
  try_register_measure-created v w k =
      rw (try_register_measure, k, (eqb_iff (o.view_at v).m (o.view_at v).m).1 refl) refl

  try_register_measured-new :
      (v : ℕ) (w : Worker R)
      → IsNewView o w v
      → IsCreated o w (o.view_at v).m
      → try_register_measured (names o) v w.registry ≡ (file_view (names o) v w.registry, none)
  unfolding try_register_measured register_new_view try_register_measure
  try_register_measured-new v w h k =
      rw
        (
          try_register_measured,
          h,
          register_new_view,
          try_register_measure,
          k,
          (eqb_iff (o.view_at v).m (o.view_at v).m).1 refl,
        )
        (ap (λ p. (file_view (names o) v p.0, none)) (try_register_measure-created v w k))

  filed : ℕ → Worker R → Worker R
  filed v w = record w { registry = file_view (names o) v w.registry }

  register_step :
      (v : ℕ) (w : Worker R)
      → IsNewView o w v
      → IsCreated o w (o.view_at v).m
      → (o.view_at v).m ≢ 0
      → register_view o (some v) w ≡ ok (filed v w, replies (sends_error none))
  unfolding ask ask_for_view handle_command handle_register_view filed
  register_step v w h k real =
      rw (measured_lem (names o) v w.registry real, try_register_measured-new v w h k) refl

  force_step :
      (v : ℕ) (w : Worker R)
      → lookup (o.view_at v).name w.registry.views_by_name ≡ some v
      → (o.view_at v).m ≢ 0
      → force_collection o (some v) w
        ≡ ok (
          update_state v (start_forced_collection (w.view_states v)) w,
          replies (sends_error none),
        )
  unfolding ask ask_for_view handle_command handle_start_forced try_register_measured
  force_step v w h real =
      rw (measured_lem (names o) v w.registry real, try_register_measured, h, (eqb_iff v v).1 refl)
        refl

  -- The view names of the registry and the states after one round of the loop over the views.
  collecting : ℕ → Worker R → Worker R
  collecting v w = update_state v (start_forced_collection (w.view_states v)) (filed v w)

  -- The views are registered and collect, and what was registered or collecting stays so.
  pub record Registers (vs : List ℕ) (w w' : Worker R) : Type 0 where
    pub collects : All (Collects w') vs
    pub keeps : (v : ℕ) → Collects w v → Collects w' v
    pub same_filed : w'.registry.measures ≡ w.registry.measures
    pub same_measures : w'.registry.measures_by_name ≡ w.registry.measures_by_name
    pub others :
        (n : Bytes)
        → is_among n (map (λ u. (o.view_at u).name) vs) ≡ false
        → lookup n w'.registry.views_by_name ≡ lookup n w.registry.views_by_name

  named_itself :
      (v : ℕ) (w : Worker R) → lookup (o.view_at v).name (filed v w).registry.views_by_name ≡ some v
  unfolding filed file_view add_view
  named_itself v w =
      lookup-insert (o.view_at v).name (o.view_at v).name v w.registry.views_by_name
      ∙ rw ((bytes_beq_iff (o.view_at v).name (o.view_at v).name).1 refl) refl

  collecting-Collects : (v : ℕ) (w : Worker R) → Collects (collecting v w) v
  unfolding collecting filed file_view add_view start_forced_collection is_collecting
  collecting-Collects v w = record {
    registered = contains-insert v v true w.registry.views ∙ rw ((eqb_iff v v).1 refl) refl;
    named = named_itself v w;
    attached = rw ((eqb_iff (o.view_at v).m (o.view_at v).m).1 refl) (
        contains-insert v v true (w.registry.measure_views (o.view_at v).m)
        ∙ rw ((eqb_iff v v).1 refl) refl);
    collecting = ground (arith, eqb_iff v v);
  }

  collecting-keeps :
      (v u : ℕ) (w : Worker R) → IsNewView o w v → Collects w u → Collects (collecting v w) u
  unfolding collecting filed file_view add_view start_forced_collection is_collecting
  collecting-keeps v u w new c =
      let apart : bytes_beq (o.view_at v).name (o.view_at u).name ≡ false = ground (
        arith,
        bytes_beq_iff (o.view_at v).name (o.view_at u).name,
        ap (λ (n : Bytes). lookup n w.registry.views_by_name),
        c.named,
      ) in
      record {
        registered = contains-insert v u true w.registry.views ∙ ground (arith, c.registered);
        named =
            lookup-insert (o.view_at v).name (o.view_at u).name v w.registry.views_by_name
            ∙ rw apart c.named;
        attached = ground (
          arith,
          contains-insert v u true (w.registry.measure_views (o.view_at v).m),
          eqb_iff (o.view_at v).m (o.view_at u).m,
          ap (λ (m : ℕ). contains u (w.registry.measure_views m)),
          c.attached,
        );
        collecting = ground (arith, eqb_iff v u, c.collecting);
      }

  still_new_views :
      (v : ℕ) (vs : List ℕ) (w : Worker R)
      → is_among (o.view_at v).name (map (λ u. (o.view_at u).name) vs) ≡ false
      → All (IsNewView o w) vs
      → All (IsNewView o (collecting v w)) vs
  unfolding collecting filed file_view add_view
  still_new_views v [] w h n = tt
  still_new_views v (x ∷ vs) w h (n, ns) =
      let (differs, apart) =
        not_among (o.view_at v).name (o.view_at x).name (map (λ u. (o.view_at u).name) vs) h in
      (
        lookup-insert (o.view_at v).name (o.view_at x).name v w.registry.views_by_name
            ∙ rw differs n,
        still_new_views v vs w apart ns,
      )

  still-IsCreated :
      (v : ℕ) (vs : List ℕ) (w : Worker R)
      → All (λ u. IsCreated o w (o.view_at u).m) vs
      → All (λ u. IsCreated o (collecting v w) (o.view_at u).m) vs
  unfolding collecting filed file_view add_view
  still-IsCreated v [] w h = tt
  still-IsCreated v (x ∷ vs) w (h, hs) = (h, still-IsCreated v vs w hs)

  pub register_views-Registers :
      (vs : List ℕ) (w : Worker R)
      → is_distinct (map (λ u. (o.view_at u).name) vs) ≡ true
      → All (IsNewView o w) vs
      → All (λ u. IsCreated o w (o.view_at u).m) vs
      → All (λ u. (o.view_at u).m ≢ 0) vs
      → Returns (Registers vs w) (register_views o vs w)
  unfolding register_views collecting filed file_view add_view
  register_views-Registers [] w d h k real = record {
    collects = tt;
    keeps = λ v c. c;
    same_filed = refl;
    same_measures = refl;
    others = λ n a. refl;
  }
  register_views-Registers (v ∷ vs) w d (h, hs) (k, ks) (real, reals) =
      let (apart, distinct) =
        distinct_parts (o.view_at v).name (map (λ u. (o.view_at u).name) vs) d in
      rw (register_step v w h k real, force_step v (filed v w) (named_itself v w) real)
        (Returns-map (Registers vs (collecting v w)) (Registers (v ∷ vs) w)
          (register_views o vs (collecting v w))
          (register_views-Registers vs (collecting v w) distinct (still_new_views v vs w apart hs)
            (still-IsCreated v vs w ks) reals)
          λ w' c. record {
            collects = (c.keeps v (collecting-Collects v w), c.collects);
            keeps = λ u e. c.keeps u (collecting-keeps v u w h e);
            same_filed = c.same_filed;
            same_measures = c.same_measures;
            others = λ n a.
                let (differs, absent) =
                  not_among n (o.view_at v).name (map (λ u. (o.view_at u).name) vs) a in
                c.others n absent
                ∙ (lookup-insert (o.view_at v).name n v w.registry.views_by_name
                    ∙ rw (bytes_beq_swap n (o.view_at v).name differs) refl);
          })
