-- ===== src/Stats/View/Rows.antt =====
-- The comparisons of rows of stats/view.go. A pointer to a row is its address with the row, and `deep_equal`
-- is `reflect.DeepEqual` on slices of tags, which tells a nil value from an empty one as the model does not.
pub mod Orders
use instrumentation_go.Base.{
  ℕ, Bool, true, false, ◌||◌, ◌&&◌, List, [], ◌∷◌, Option, none, some, length, eqb, not,
  if◌then◌else◌,
}
use instrumentation_go.Tags.TagSet.{Tag}
use instrumentation_go.Stats.Float64.{Float64}
use instrumentation_go.Stats.Aggregation.Equal.{equal_value}
use instrumentation_go.Stats.View.{Row}

abbrev pub RowPointer : Type 0 → Type 0
RowPointer R = ℕ × Row R

-- What the string next to the answer false says.
pub data Difference (R : Type 0) : Type 0 where
  lengths_differ : ℕ → ℕ → Difference R
  unexpected_row : RowPointer R → Difference R

module _ {R : Type 0} ⦃f : Float64 R⦄ (deep_equal : List Tag → List Tag → Bool) where
  -- The second row is not nil.
  unfoldable pub equal_row : RowPointer R → RowPointer R → Bool
  equal_row (a, r) (b, s) =
      if eqb a b then true else deep_equal r.tags s.tags && equal_value r.value s.value

  unfoldable pub contains_row : List (RowPointer R) → RowPointer R → Bool
  unfolding equal_row
  contains_row [] r = false
  contains_row (x ∷ rows) r = let rest = contains_row rows r in if equal_row r x then true else rest

  -- The loop of `EqualRows`.
  unfoldable pub first_unexpected :
      List (RowPointer R) → List (RowPointer R) → Option (RowPointer R)
  unfolding contains_row
  first_unexpected [] rows2 = none
  first_unexpected (r ∷ rows1) rows2 =
      let rest = first_unexpected rows1 rows2 in if not (contains_row rows2 r) then some r else rest

  -- `none` is the answer true, and a difference the answer false with its text.
  unfoldable pub equal_rows : List (RowPointer R) → List (RowPointer R) → Option (Difference R)
  unfolding first_unexpected
  equal_rows rows1 rows2 =
      if not (eqb (length rows1) (length rows2))
      then some (lengths_differ (length rows1) (length rows2))
      else elim (first_unexpected rows1 rows2) [ none ↦ none | some r ↦ some (unexpected_row r) ]
