-- ===== src/Stats/Examples/Rows.antt =====
-- The comparisons of rows of stats/view.go on some rows.
use mathlib.Core.List.Perm
use instrumentation_go.Base.{
  ℕ, ◌≡◌, refl, Bool, List, [], ◌∷◌, none, some, eqb, bytes_eq, nat_eq, length,
}
use instrumentation_go.Tags.TagSet.{Tag}
use instrumentation_go.Stats.Aggregation.{count_value}
use instrumentation_go.Stats.Aggregation.Equal.{equal_value}
use instrumentation_go.Stats.View.Rows.{
  RowPointer, unexpected_row, equal_row, contains_row, first_unexpected, equal_rows,
}
use instrumentation_go.Stats.View.Rows.Orders.{equal_rows-Perm}
use instrumentation_go.Stats.Examples.{naturals, a_key}

-- Whether there are as many tags, which is enough for the rows below.
abbrev as_many : List Tag → List Tag → Bool
as_many ts us = eqb (length ts) (length us)

abbrev first_row : RowPointer ℕ
first_row = (1, record { tags = []; value = count_value 3 })

abbrev second_row : RowPointer ℕ
second_row =
    (2, record { tags = record { key = a_key; value = 120 ∷ [] } ∷ []; value = count_value 3 })

equal_rows-Perm_example :
    equal_rows as_many (first_row ∷ second_row ∷ []) (second_row ∷ first_row ∷ []) ≡ none
equal_rows-Perm_example =
    equal_rows-Perm as_many (first_row ∷ second_row ∷ []) (second_row ∷ first_row ∷ [])
      (Perm.swap second_row first_row [])

-- A row that is there twice hides that another one is missing, but not the other way round.
twice : equal_rows as_many (first_row ∷ first_row ∷ []) (first_row ∷ second_row ∷ []) ≡ none
unfolding equal_rows first_unexpected contains_row equal_row equal_value
twice = refl

once :
    equal_rows as_many (first_row ∷ second_row ∷ []) (first_row ∷ first_row ∷ [])
    ≡ some (unexpected_row second_row)
unfolding equal_rows first_unexpected contains_row equal_row equal_value
once = refl
