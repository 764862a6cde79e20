-- ===== src/Grpc/Defaults/Measured.antt =====
-- That creating the default measures of plugins/grpc/stats succeeds.
use instrumentation_go.Base.{
  ap, eqb_iff, ℕ, ◌≡◌, ◌∙◌, refl, Bool, true, false, not, ◌&&◌, ◌||◌, List, [], ◌∷◌, map, none,
  some, Bytes, bytes_beq, bytes_beq_iff, bytes_eq, nat_eq, All, ok, arith,
}
use instrumentation_go.Base.GoMap.{lookup, contains, lookup-insert, contains-insert}
use instrumentation_go.Stats.Outcome.{Returns, Returns-map}
use instrumentation_go.Stats.Float64.{Float64}
use instrumentation_go.Stats.Registry.{try_register_measure, file_measure}
use instrumentation_go.Stats.Commands.{Objects, names, Worker, sends_error}
use instrumentation_go.Stats.Handlers.{handle_command, handle_register_measure}
use instrumentation_go.Stats.Api.{replies, ask, new_measure_int64}
use instrumentation_go.Grpc.Defaults.{create_measures}

abbrev pub is_among : Bytes → List Bytes → Bool
is_among n [] = false
is_among n (x ∷ xs) = bytes_beq n x || is_among n xs

abbrev pub is_distinct : List Bytes → Bool
is_distinct [] = true
is_distinct (x ∷ xs) = not (is_among x xs) && is_distinct xs

pub not_among :
    (n x : Bytes) (xs : List Bytes)
    → is_among n (x ∷ xs) ≡ false
    → (bytes_beq n x ≡ false) × (is_among n xs ≡ false)
not_among n x xs h = ground arith

pub bytes_beq_swap : (m n : Bytes) → bytes_beq m n ≡ false → bytes_beq n m ≡ false
bytes_beq_swap m n h = ground (arith, bytes_beq_iff m n, bytes_beq_iff n m)

pub distinct_parts :
    (x : Bytes) (xs : List Bytes)
    → is_distinct (x ∷ xs) ≡ true
    → (is_among x xs ≡ false) × (is_distinct xs ≡ true)
distinct_parts x xs h = ground arith

module _ {R : Type 0} ⦃f : Float64 R⦄ (o : Objects R) where
  -- The objects whose name nothing is filed under yet.
  abbrev pub IsNewMeasure : Worker R → ℕ → Type 0
  IsNewMeasure w m = lookup (o.measure_name m) w.registry.measures_by_name ≡ none

  abbrev pub IsNewView : Worker R → ℕ → Type 0
  IsNewView w v = lookup (o.view_at v).name w.registry.views_by_name ≡ none

  abbrev pub IsCreated : Worker R → ℕ → Type 0
  IsCreated w m = lookup (o.measure_name m) w.registry.measures_by_name ≡ some m

  -- The measure is filed under its name, and among the measures.
  abbrev pub IsFiled : Worker R → ℕ → Type 0
  IsFiled w m = IsCreated w m × (contains m w.registry.measures ≡ true)

  create_step :
      (m : ℕ) (w : Worker R)
      → IsNewMeasure w m
      → new_measure_int64 o m w
        ≡ ok (
          record w { registry = file_measure (names o) m w.registry },
          replies (sends_error none),
        )
  unfolding ask handle_command handle_register_measure try_register_measure
  create_step m w h = rw (try_register_measure, h) refl

  -- The measures are filed, what is filed under other names stays, and so do the views.
  pub record Creates (ms : List ℕ) (w w' : Worker R) : Type 0 where
    pub created : All (IsFiled w') ms
    pub keeps : (m : ℕ) → IsFiled w m → IsFiled w' m
    pub others :
        (n : Bytes)
        → is_among n (map o.measure_name ms) ≡ false
        → lookup n w'.registry.measures_by_name ≡ lookup n w.registry.measures_by_name
    pub same_views : w'.registry.views_by_name ≡ w.registry.views_by_name
    pub same_registered : w'.registry.views ≡ w.registry.views
    pub same_attached : w'.registry.measure_views ≡ w.registry.measure_views
    pub same_states : w'.view_states ≡ w.view_states

  still_new :
      (m : ℕ) (ms : List ℕ) (w : Worker R)
      → is_among (o.measure_name m) (map o.measure_name ms) ≡ false
      → All (IsNewMeasure w) ms
      → All (IsNewMeasure (record w { registry = file_measure (names o) m w.registry })) ms
  unfolding file_measure
  still_new m [] w h n = tt
  still_new m (x ∷ ms) w h (n, ns) =
      let (differs, apart) =
        not_among (o.measure_name m) (o.measure_name x) (map o.measure_name ms) h in
      (
        lookup-insert (o.measure_name m) (o.measure_name x) m w.registry.measures_by_name
            ∙ rw differs n,
        still_new m ms w apart ns,
      )

  filed_step :
      (m : ℕ) (w : Worker R)
      → IsFiled (record w { registry = file_measure (names o) m w.registry }) m
  unfolding file_measure
  filed_step m w = (
    lookup-insert (o.measure_name m) (o.measure_name m) m w.registry.measures_by_name
        ∙ rw ((bytes_beq_iff (o.measure_name m) (o.measure_name m)).1 refl) refl,
    contains-insert m m true w.registry.measures ∙ rw ((eqb_iff m m).1 refl) refl,
  )

  filed_keeps :
      (m u : ℕ) (w : Worker R)
      → IsNewMeasure w m
      → IsFiled w u
      → IsFiled (record w { registry = file_measure (names o) m w.registry }) u
  unfolding file_measure
  filed_keeps m u w new (named, there) =
      let apart : bytes_beq (o.measure_name m) (o.measure_name u) ≡ false = ground (
        arith,
        bytes_beq_iff (o.measure_name m) (o.measure_name u),
        ap (λ (n : Bytes). lookup n w.registry.measures_by_name),
      ) in
      (
        lookup-insert (o.measure_name m) (o.measure_name u) m w.registry.measures_by_name
            ∙ rw apart named,
        contains-insert m u true w.registry.measures ∙ ground arith,
      )

  pub create_measures-Creates :
      (ms : List ℕ) (w : Worker R)
      → is_distinct (map o.measure_name ms) ≡ true
      → All (IsNewMeasure w) ms
      → Returns (Creates ms w) (create_measures o ms w)
  unfolding create_measures file_measure
  create_measures-Creates [] w d h = record {
    created = tt;
    keeps = λ m k. k;
    others = λ n a. refl;
    same_views = refl;
    same_registered = refl;
    same_attached = refl;
    same_states = refl;
  }
  create_measures-Creates (m ∷ ms) w d (h, hs) =
      let (apart, distinct) = distinct_parts (o.measure_name m) (map o.measure_name ms) d in
      let w₁ : Worker R = record w { registry = file_measure (names o) m w.registry } in
      rw (create_step m w h) (
        Returns-map (Creates ms w₁) (Creates (m ∷ ms) w) (create_measures o ms w₁)
          (create_measures-Creates ms w₁ distinct (still_new m ms w apart hs))
          λ w' c. record {
            created = (c.keeps m (filed_step m w), c.created);
            keeps = λ u k. c.keeps u (filed_keeps m u w h k);
            others = λ n a.
                let (differs, absent) = not_among n (o.measure_name m) (map o.measure_name ms) a in
                c.others n absent
                ∙ (lookup-insert (o.measure_name m) n m w.registry.measures_by_name
                    ∙ rw (bytes_beq_swap n (o.measure_name m) differs) refl);
            same_views = c.same_views;
            same_registered = c.same_registered;
            same_attached = c.same_attached;
            same_states = c.same_states;
          })
