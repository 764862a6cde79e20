-- ===== src/Stats/View/Rows/Orders.antt =====
-- The order of the rows in the comparison of stats/view.go.
use mathlib.Core.Bool.{Bool-set}
use mathlib.Core.List.{Perm, Permᴰ}
use mathlib.Core.Logic.{∥∥₁_elim}
use native.Mathlib.Nat.{ℕ_set}
use instrumentation_go.Base.{
  ◌≡◌, refl, sym, ◌∙◌, ap, Bool, true, List, [], ◌∷◌, none, length, suc, eqb_iff, All, arith,
}
use instrumentation_go.Tags.TagSet.{Tag}
use instrumentation_go.Stats.Float64.{Float64}
use instrumentation_go.Stats.View.Rows.{
  RowPointer, equal_row, contains_row, first_unexpected, equal_rows,
}

module _ {R : Type 0} ⦃f : Float64 R⦄ (deep_equal : List Tag → List Tag → Bool) where
  equal_row_refl : (r : RowPointer R) → equal_row deep_equal r r ≡ true
  unfolding equal_row
  equal_row_refl (a, r) = rw ((eqb_iff a a).1 refl) refl

  contains_row-head :
      (r : RowPointer R) (rows : List (RowPointer R)) → contains_row deep_equal (r ∷ rows) r ≡ true
  unfolding contains_row
  contains_row-head r rows = rw (equal_row_refl r) refl

  contains_row-tail :
      (x r : RowPointer R) (rows : List (RowPointer R))
      → contains_row deep_equal rows r ≡ true
      → contains_row deep_equal (x ∷ rows) r ≡ true
  unfolding contains_row
  contains_row-tail x r rows h = ground arith

  contains_row-exchange :
      (r : RowPointer R) {xs ys : List (RowPointer R)}
      → Permᴰ xs ys
      → contains_row deep_equal xs r ≡ contains_row deep_equal ys r
  unfolding contains_row
  contains_row-exchange r Permᴰ.nil = refl
  contains_row-exchange r (Permᴰ.cons e p) = rw (e, contains_row-exchange r p) refl
  contains_row-exchange r (Permᴰ.swap e e') = rw (e, e') (ground arith)
  contains_row-exchange r (Permᴰ.trans p q) = contains_row-exchange r p ∙ contains_row-exchange r q

  length-exchange : {xs ys : List (RowPointer R)} → Permᴰ xs ys → length xs ≡ length ys
  length-exchange Permᴰ.nil = refl
  length-exchange (Permᴰ.cons e p) = ap suc (length-exchange p)
  length-exchange (Permᴰ.swap e e') = refl
  length-exchange (Permᴰ.trans p q) = length-exchange p ∙ length-exchange q

  -- The rows are all among `rows2`, which has them among others.
  first_unexpected-none :
      (rows1 rows2 : List (RowPointer R))
      → All (λ r. contains_row deep_equal rows2 r ≡ true) rows1
      → first_unexpected deep_equal rows1 rows2 ≡ none
  unfolding first_unexpected
  first_unexpected-none [] rows2 h = refl
  first_unexpected-none (r ∷ rows1) rows2 (h, hs) = rw h (first_unexpected-none rows1 rows2 hs)

  All-contains_row :
      (rows rows1 rows2 : List (RowPointer R))
      → ((r : RowPointer R)
          → contains_row deep_equal rows r ≡ true
          → contains_row deep_equal rows2 r ≡ true)
      → All (λ r. contains_row deep_equal rows r ≡ true) rows1
      → All (λ r. contains_row deep_equal rows2 r ≡ true) rows1
  All-contains_row rows [] rows2 g h = tt
  All-contains_row rows (r ∷ rows1) rows2 g (h, hs) =
      (g r h, All-contains_row rows rows1 rows2 g hs)

  All-contained :
      (rows : List (RowPointer R)) → All (λ r. contains_row deep_equal rows r ≡ true) rows
  All-contained [] = tt
  All-contained (r ∷ rows) = (
    contains_row-head r rows,
    All-contains_row rows rows (r ∷ rows) (λ x. contains_row-tail r x rows) (All-contained rows),
  )

  -- Rows compare as equal to the same rows in any other order: the position in the slice does not count.
  pub equal_rows-Perm :
      (rows1 rows2 : List (RowPointer R))
      → Perm rows1 rows2
      → equal_rows deep_equal rows1 rows2 ≡ none
  unfolding equal_rows
  equal_rows-Perm rows1 rows2 p =
      let same_length = ∥∥₁_elim p (ℕ_set (length rows1) (length rows2)) length-exchange in
      let moved : (r : RowPointer R)
          → contains_row deep_equal rows1 r ≡ contains_row deep_equal rows2 r =
        λ r. ∥∥₁_elim p (Bool-set _ _) (contains_row-exchange r) in
      rw
        (
          (eqb_iff (length rows1) (length rows2)).1 same_length,
          first_unexpected-none rows1 rows2
              (All-contains_row rows1 rows1 rows2 (λ r h. sym (moved r) ∙ h) (All-contained rows1)),
        )
        refl
