-- ===== src/Stats/Registry.antt =====
-- The registry of measures and views that the worker of stats/worker.go keeps, with the sets of views
-- that the measures keep (stats/measure_int64.go, stats/measure_float64.go). Measures and views are
-- addresses, and nil is the address 0; the fields of theirs that never change are given by `Names`.
pub mod Consistent
use instrumentation_go.Base.{
  ℕ, Bool, true, false, not, List, [], ◌∷◌, Option, none, some, Bytes, bytes_eq, nat_eq, length,
  eqb, if◌then◌else◌, ◌&&◌, ok, panics,
}
use instrumentation_go.Stats.Outcome.{Outcome}
use instrumentation_go.Base.GoMap.{GoMap, lookup, insert, delete, contains}

pub record Names : Type 0 where
  pub measure_name : ℕ → Bytes
  pub view_name : ℕ → Bytes
  pub measure_of : ℕ → ℕ

pub record Registry : Type 0 where
  pub measures_by_name : GoMap Bytes ℕ
  pub measures : GoMap ℕ Bool
  pub views_by_name : GoMap Bytes ℕ
  pub views : GoMap ℕ Bool
  pub measure_views : ℕ → GoMap ℕ Bool

pub data Error : Type 0 where
  measure_name_taken : ℕ → Error
  view_name_taken : ℕ → Error
  cannot_register_view : Error → ℕ → Error
  measure_in_use : ℕ → Error

abbrev pub is_nil : ℕ → Bool
is_nil a = eqb a 0

unfoldable pub empty_registry : Registry
empty_registry = record {
  measures_by_name = [];
  measures = [];
  views_by_name = [];
  views = [];
  measure_views = λ m. [];
}

-- The views of one measure are replaced.
abbrev pub update_views : (ℕ → GoMap ℕ Bool) → ℕ → GoMap ℕ Bool → ℕ → GoMap ℕ Bool
update_views all m vs n = if eqb m n then vs else all n

unfoldable pub add_view : ℕ → ℕ → Registry → Registry
add_view m v r = record r {
  measure_views = update_views r.measure_views m (insert v true (r.measure_views m));
}

unfoldable pub remove_view : ℕ → ℕ → Registry → Registry
remove_view m v r = record r {
  measure_views = update_views r.measure_views m (delete v (r.measure_views m));
}

unfoldable pub views_count : ℕ → Registry → ℕ
views_count m r = length (r.measure_views m)

module _ (names : Names) where
  open names use {measure_name, view_name, measure_of}

  unfoldable pub file_measure : ℕ → Registry → Registry
  file_measure m r = record r {
    measures_by_name = insert (measure_name m) m r.measures_by_name;
    measures = insert m true r.measures;
  }

  -- `none` is a nil error.
  unfoldable pub try_register_measure : ℕ → Registry → Registry × Option Error
  try_register_measure m r = elim (lookup (measure_name m) r.measures_by_name) [
    | some x ↦ if eqb x m then (r, none) else (r, some (measure_name_taken m))
    | none ↦ (file_measure m r, none)
  ]

  unfoldable pub file_view : ℕ → Registry → Registry
  file_view v r = add_view (measure_of v) v (record r {
    views_by_name = insert (view_name v) v r.views_by_name;
    views = insert v true r.views;
  })

  -- The branch of a view that is not registered yet.
  unfoldable pub register_new_view : ℕ → Registry → Registry × Option Error
  register_new_view v r =
      let (r₁, e) = try_register_measure (measure_of v) r in
      elim e [ some x ↦ (r₁, some (cannot_register_view x v)) | none ↦ (file_view v r₁, none) ]

  -- For a view that has a measure, or whose name is taken.
  unfoldable pub try_register_measured : ℕ → Registry → Registry × Option Error
  try_register_measured v r = elim (lookup (view_name v) r.views_by_name) [
    | some x ↦ if eqb x v then (r, none) else (r, some (view_name_taken v))
    | none ↦ register_new_view v r
  ]

  -- A new view without a measure: the name of nil is asked for, which panics before anything is changed.
  abbrev pub lacks_measure : ℕ → Registry → Bool
  lacks_measure v r = is_nil (measure_of v) && not (contains (view_name v) r.views_by_name)

  unfoldable pub try_register_view : ℕ → Registry → Outcome (Registry × Option Error)
  try_register_view v r = if lacks_measure v r then panics else ok (try_register_measured v r)

  unfoldable pub drop_measure : ℕ → Registry → Registry
  drop_measure m r = record r {
    measures_by_name = delete (measure_name m) r.measures_by_name;
    measures = delete m r.measures;
  }

  -- The handler of `deleteMeasureReq`, for a measure that is not nil.
  unfoldable pub delete_measure : ℕ → Registry → Registry × Option Error
  unfolding views_count
  delete_measure m r = elim (lookup (measure_name m) r.measures_by_name) [
    | none ↦ (r, none)
    | some x ↦
        if not (eqb x m)
        then (r, none)
        else (if not (eqb (views_count x r) 0)
            then (r, some (measure_in_use m))
            else (drop_measure m r, none))
  ]

  -- The last part of the handler of `unregisterViewReq`, for a view that is registered, and so
  -- has a measure, and is idle.
  unfoldable pub drop_view : ℕ → Registry → Registry
  drop_view v r =
      remove_view (measure_of v) v (record r {
        views_by_name = delete (view_name v) r.views_by_name;
        views = delete v r.views;
      })
