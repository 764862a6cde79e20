-- ===== src/Stats/Registry/Consistent.antt =====
-- How the maps of the worker of stats/worker.go and the sets of views of its measures belong together.
use instrumentation_go.Base.{
  ℕ, ◌≡◌, ◌≢◌, ◌⊎◌, inl, inr, Bool-cases, Option, ok, panics, eqb_iff, refl, ap, Bool, true, false,
  [], ◌∷◌, none, some, Bytes, bytes_eq, bytes_beq_iff, nat_eq, length, eqb, if◌then◌else◌, arith,
}
use instrumentation_go.Base.GoMap.{
  GoMap, lookup, contains, lookup-insert, lookup-delete, contains-insert, contains-delete,
}
use instrumentation_go.Stats.Outcome.{Ensures, Returns}
use instrumentation_go.Stats.Registry.{
  Error, Names, Registry, empty_registry, add_view, remove_view, try_register_measure,
  register_new_view, try_register_measured, try_register_view, lacks_measure, delete_measure,
  drop_view, file_measure, file_view, drop_measure,
}

module _ (names : Names) where
  open names use {measure_name, view_name, measure_of}

  -- The two maps of measures hold the same measures, each under its name; so do the two maps of views;
  -- the measure of a registered view is registered; and a measure's set holds just its registered views.
  pub record IsConsistent (r : Registry) : Type 0 where
    pub measure_named :
        (n : Bytes) (m : ℕ)
        → lookup n r.measures_by_name ≡ some m
        → (measure_name m ≡ n) × (contains m r.measures ≡ true)
    pub measure_listed :
        (m : ℕ) → contains m r.measures ≡ true → lookup (measure_name m) r.measures_by_name ≡ some m
    pub view_named :
        (n : Bytes) (v : ℕ)
        → lookup n r.views_by_name ≡ some v
        → (view_name v ≡ n) × (contains v r.views ≡ true)
    pub view_listed :
        (v : ℕ)
        → contains v r.views ≡ true
        → (lookup (view_name v) r.views_by_name ≡ some v)
          × (contains (measure_of v) r.measures ≡ true)
          × (contains v (r.measure_views (measure_of v)) ≡ true)
    pub attached :
        (m v : ℕ)
        → contains v (r.measure_views m) ≡ true
        → (measure_of v ≡ m) × (contains v r.views ≡ true)

  pub empty_registry-IsConsistent : IsConsistent empty_registry
  unfolding empty_registry lookup contains
  empty_registry-IsConsistent = record {
    measure_named = λ n m h. cc;
    measure_listed = λ m h. cc;
    view_named = λ n v h. cc;
    view_listed = λ v h. cc;
    attached = λ m v h. cc;
  }

  file_measure-IsConsistent :
      (m : ℕ) (r : Registry)
      → lookup (measure_name m) r.measures_by_name ≡ none
      → IsConsistent r
      → IsConsistent (file_measure names m r)
  unfolding file_measure
  file_measure-IsConsistent m r new c = record {
    measure_named = λ n x h. ground (
      arith,
      lookup-insert (measure_name m) n m r.measures_by_name,
      contains-insert m x true r.measures,
      c.measure_named n x,
      bytes_beq_iff (measure_name m) n,
    );
    measure_listed = λ x h. ground (
      arith,
      lookup-insert (measure_name m) (measure_name x) m r.measures_by_name,
      contains-insert m x true r.measures,
      c.measure_listed x,
      bytes_beq_iff (measure_name m) (measure_name x),
    );
    view_named = c.view_named;
    view_listed =
        λ v h. ground (arith, c.view_listed v h, contains-insert m (measure_of v) true r.measures);
    attached = c.attached;
  }

  file_view-IsConsistent :
      (v : ℕ) (r : Registry)
      → lookup (view_name v) r.views_by_name ≡ none
      → contains (measure_of v) r.measures ≡ true
      → IsConsistent r
      → IsConsistent (file_view names v r)
  unfolding file_view add_view
  file_view-IsConsistent v r new known c = record {
    measure_named = c.measure_named;
    measure_listed = c.measure_listed;
    view_named = λ n x h. ground (
      arith,
      lookup-insert (view_name v) n v r.views_by_name,
      contains-insert v x true r.views,
      c.view_named n x,
      bytes_beq_iff (view_name v) n,
    );
    view_listed = λ x h. ground (
      arith,
      lookup-insert (view_name v) (view_name x) v r.views_by_name,
      contains-insert v x true r.views,
      c.view_listed x,
      bytes_beq_iff (view_name v) (view_name x),
      contains-insert v x true (r.measure_views (measure_of v)),
      ap r.measure_views,
    );
    attached = λ m x h. ground (
      arith,
      contains-insert v x true r.views,
      contains-insert v x true (r.measure_views (measure_of v)),
      c.attached m x,
      c.attached (measure_of v) x,
    );
  }

  no_members : (k : ℕ) (s : GoMap ℕ Bool) → length s ≡ 0 → contains k s ≡ false
  unfolding contains lookup
  no_members k [] h = refl
  no_members k (p ∷ s) h = absurd (omega arith)

  drop_measure-IsConsistent :
      (m : ℕ) (r : Registry)
      → lookup (measure_name m) r.measures_by_name ≡ some m
      → length (r.measure_views m) ≡ 0
      → IsConsistent r
      → IsConsistent (drop_measure names m r)
  unfolding drop_measure
  drop_measure-IsConsistent m r old empty c = record {
    measure_named = λ n x h. ground (
      arith,
      lookup-delete (measure_name m) n r.measures_by_name,
      contains-delete m x r.measures,
      c.measure_named n x,
      c.measure_named (measure_name m) m,
      bytes_beq_iff (measure_name m) n,
    );
    measure_listed = λ x h. ground (
      arith,
      lookup-delete (measure_name m) (measure_name x) r.measures_by_name,
      contains-delete m x r.measures,
      c.measure_listed x,
      bytes_beq_iff (measure_name m) (measure_name x),
    );
    view_named = c.view_named;
    view_listed = λ v h. ground (
      arith,
      c.view_listed v h,
      contains-delete m (measure_of v) r.measures,
      no_members v (r.measure_views m) empty,
    );
    attached = c.attached;
  }

  -- Removing a view that is registered under its name keeps the registry consistent.
  pub drop_view-IsConsistent :
      (v : ℕ) (r : Registry)
      → lookup (view_name v) r.views_by_name ≡ some v
      → IsConsistent r
      → IsConsistent (drop_view names v r)
  unfolding drop_view remove_view
  drop_view-IsConsistent v r old c = record {
    measure_named = c.measure_named;
    measure_listed = c.measure_listed;
    view_named = λ n x h. ground (
      arith,
      lookup-delete (view_name v) n r.views_by_name,
      contains-delete v x r.views,
      c.view_named n x,
      bytes_beq_iff (view_name v) n,
    );
    view_listed = λ x h. ground (
      arith,
      lookup-delete (view_name v) (view_name x) r.views_by_name,
      contains-delete v x r.views,
      c.view_listed x,
      bytes_beq_iff (view_name v) (view_name x),
      contains-delete v x (r.measure_views (measure_of v)),
    );
    attached = λ m x h. ground (
      arith,
      contains-delete v x r.views,
      contains-delete v x (r.measure_views (measure_of v)),
      c.attached m x,
      c.attached (measure_of v) x,
    );
  }

  pub try_register_measure-IsConsistent :
      (m : ℕ) (r : Registry) → IsConsistent r → IsConsistent (try_register_measure names m r).0
  unfolding try_register_measure
  try_register_measure-IsConsistent m r c = ground (arith, file_measure-IsConsistent m r)

  -- A measure that was registered without an error is one of the registered measures, and the views are as before.
  try_register_measure-contains :
      (m : ℕ) (r : Registry)
      → IsConsistent r
      → (try_register_measure names m r).1 ≡ none
      → contains m (try_register_measure names m r).0.measures ≡ true
  unfolding try_register_measure file_measure
  try_register_measure-contains m r c e =
      ground (arith, c.measure_named (measure_name m) m, contains-insert m m true r.measures)

  try_register_measure-views :
      (m : ℕ) (r : Registry) → (try_register_measure names m r).0.views_by_name ≡ r.views_by_name
  unfolding try_register_measure file_measure
  try_register_measure-views m r = ground arith

  -- Registering a view, with whatever outcome, keeps the registry consistent.
  pub try_register_measured-IsConsistent :
      (v : ℕ) (r : Registry) → IsConsistent r → IsConsistent (try_register_measured names v r).0
  unfolding try_register_measured register_new_view
  try_register_measured-IsConsistent v r c = ground (
    arith,
    try_register_measure-contains (measure_of v) r c,
    try_register_measure-views (measure_of v) r,
    try_register_measure-IsConsistent (measure_of v) r c,
    file_view-IsConsistent v (try_register_measure names (measure_of v) r).0,
  )

  -- A view that was registered without an error is registered, and so are all that were before.
  pub try_register_measured-contains :
      (v : ℕ) (r : Registry)
      → IsConsistent r
      → (try_register_measured names v r).1 ≡ none
      → contains v (try_register_measured names v r).0.views ≡ true
  unfolding try_register_measured register_new_view file_view add_view
  try_register_measured-contains v r c e = ground (
    arith,
    c.view_named (view_name v) v,
    contains-insert v v true (try_register_measure names (measure_of v) r).0.views,
  )

  pub try_register_measure-same_views :
      (m : ℕ) (r : Registry) → (try_register_measure names m r).0.views ≡ r.views
  unfolding try_register_measure file_measure
  try_register_measure-same_views m r = ground arith

  pub try_register_measured-keeps :
      (v u : ℕ) (r : Registry)
      → contains u r.views ≡ true
      → contains u (try_register_measured names v r).0.views ≡ true
  unfolding try_register_measured register_new_view file_view add_view
  try_register_measured-keeps v u r h = ground (
    arith,
    contains-insert v u true (try_register_measure names (measure_of v) r).0.views,
    try_register_measure-same_views (measure_of v) r,
  )

  pub delete_measure-same_views :
      (m : ℕ) (r : Registry) → (delete_measure names m r).0.views ≡ r.views
  unfolding delete_measure drop_measure
  delete_measure-same_views m r = ground arith

  -- Deleting a measure, with whatever outcome, keeps the registry consistent: in particular no registered
  -- view is left without its measure.
  pub delete_measure-IsConsistent :
      (m : ℕ) (r : Registry) → IsConsistent r → IsConsistent (delete_measure names m r).0
  unfolding delete_measure
  delete_measure-IsConsistent m r c = ground (arith, drop_measure-IsConsistent m r)

  pub drop_view-contains :
      (v u : ℕ) (r : Registry)
      → contains u (drop_view names v r).views ≡ (if eqb v u then false else contains u r.views)
  unfolding drop_view remove_view
  drop_view-contains v u r = contains-delete v u r.views

  -- What holds of registering a view with a measure holds where registering a view does not panic.
  pub try_register_view-Ensures :
      (P : Registry × Option Error → Type 0) (v : ℕ) (r : Registry)
      → P (try_register_measured names v r)
      → Ensures P (try_register_view names v r)
  unfolding try_register_view
  try_register_view-Ensures P v r h = elim (Bool-cases (lacks_measure names v r)) [
    | inl lacks ↦ rw lacks tt
    | inr measured ↦ rw measured h
  ]

  pub measured_lem :
      (v : ℕ) (r : Registry)
      → measure_of v ≢ 0
      → try_register_view names v r ≡ ok (try_register_measured names v r)
  unfolding try_register_view
  measured_lem v r h =
      let measured : lacks_measure names v r ≡ false = ground (arith, eqb_iff (measure_of v) 0) in
      rw measured refl

  -- Registering a view, with or without an error, keeps the registry consistent; or it panics, and then the
  -- view has no measure and nothing is registered under its name.
  pub try_register_view-IsConsistent :
      (v : ℕ) (r : Registry)
      → IsConsistent r
      → Returns (λ p. IsConsistent p.0) (try_register_view names v r)
        ⊎ ((try_register_view names v r ≡ panics)
            × (measure_of v ≡ 0)
            × (lookup (view_name v) r.views_by_name ≡ none))
  unfolding try_register_view contains
  try_register_view-IsConsistent v r c = elim (Bool-cases (lacks_measure names v r)) [
    | inl lacks ↦ inr (rw lacks refl, (eqb_iff (measure_of v) 0).0 (ground arith), ground arith)
    | inr measured ↦ inl (rw measured (try_register_measured-IsConsistent v r c))
  ]
