-- ===== src/Stats/SlidingCount/Fitting.antt =====
-- The aggregator of stats/aggregator_slidingcount.go never fails: its entries have values of one aggregation.
use Prim.Native.Nat.{min}
use instrumentation_go.Base.{
  All-set, ℕ, zero, suc, ◌≡◌, ◌<◌, ◌+◌, ◌-◌, List, [], ◌∷◌, All, length, length-set, map, replicate,
  eqb, inl, inr, Bool-cases, arith, refl, ap,
}
use native.Mathlib.Nat.{mod-lt}
use instrumentation_go.Stats.Outcome.{Returns, Returns-bind}
use instrumentation_go.Stats.Float64.{Float64}
use instrumentation_go.Stats.Ring.{at_index, next_index}
use instrumentation_go.Stats.Ring.Fitting.{at_index-Returns, add_values-Fits}
use instrumentation_go.Stats.Aggregation.{
  Sample, Aggregation, new_value, add_sample, multiply_by_fraction,
}
use instrumentation_go.Stats.Aggregation.Shapes.{
  Fits, new_value-Fits, add_sample-Fits, clear_value-Fits, multiply_by_fraction-Fits,
}
use instrumentation_go.Stats.SlidingCount.{
  SubBucketEntry, SlidingCount, new_sliding_count, add_to_entry, to_next_entry, add_sliding_count,
  retrieve_sliding_count,
}

module _ {R : Type 0} ⦃f : Float64 R⦄ (g : Aggregation R) where
  -- The index is that of an entry, and every entry has a value of the aggregation.
  abbrev pub IsCounting : SlidingCount R → Type 0
  IsCounting a = (a.idx < length a.entries) × All (λ e. Fits g e.av) a.entries

  All-replicate :
      (n : ℕ) (e : SubBucketEntry R) → Fits g e.av → All (λ e. Fits g e.av) (replicate n e)
  All-replicate zero e h = tt
  All-replicate (suc n) e h = (h, All-replicate n e h)

  length-replicate : (n : ℕ) (e : SubBucketEntry R) → length (replicate n e) ≡ n
  length-replicate zero e = refl
  length-replicate (suc n) e = ap suc (length-replicate n e)

  pub new_sliding_count-IsCounting :
      (desired buckets : ℕ)
      → 0 < desired
      → 0 < buckets
      → Returns IsCounting (new_sliding_count desired buckets g)
  unfolding new_sliding_count
  new_sliding_count-IsCounting desired buckets p q =
      elim (Bool-cases (eqb (min desired buckets) 0)) [
        | inl zero_there ↦ absurd (ground arith)
        | inr some_there ↦ rw some_there (
          omega (arith, length-replicate (buckets + 1) (record { count = 0; av = new_value g })),
          All-replicate (buckets + 1) (record { count = 0; av = new_value g }) (new_value-Fits g),
        )
      ]

  add_to_entry-IsCounting :
      (v : Sample R) (a : SlidingCount R) (e : SubBucketEntry R)
      → Fits g e.av
      → IsCounting a
      → Returns IsCounting (add_to_entry v a e)
  unfolding add_to_entry
  add_to_entry-IsCounting v a e k (l, h) =
      Returns-bind (Fits g) IsCounting (add_sample v e.av) _ (add_sample-Fits g v e.av k) λ av m.
        (rw (length-set a.entries a.idx _) l, All-set (λ e. Fits g e.av) a.entries a.idx _ h m)

  to_next_entry-IsCounting :
      (a : SlidingCount R)
      → IsCounting a
      → Returns (λ p. IsCounting p.0 × Fits g p.1.av) (to_next_entry a)
  unfolding to_next_entry
  to_next_entry-IsCounting a (l, h) =
      let in_range : next_index a.entries a.idx < length a.entries =
        mod-lt (a.idx + 1) (omega arith) in
      Returns-bind (λ e. Fits g e.av) (λ p. IsCounting p.0 × Fits g p.1.av)
        (at_index a.entries (next_index a.entries a.idx)) _
        (at_index-Returns (λ e. Fits g e.av) a.entries (next_index a.entries a.idx) h in_range)
        λ e k. ((in_range, h), clear_value-Fits g e.av k)

  pub add_sliding_count-IsCounting :
      (v : Sample R) (a : SlidingCount R)
      → IsCounting a
      → Returns IsCounting (add_sliding_count v a)
  unfolding add_sliding_count
  add_sliding_count-IsCounting v a (l, h) =
      Returns-bind (λ e. Fits g e.av) IsCounting (at_index a.entries a.idx) _
        (at_index-Returns (λ e. Fits g e.av) a.entries a.idx h l)
        λ e k. elim (Bool-cases (eqb e.count a.items_per_bucket)) [
          | inl full ↦ rw full (
              Returns-bind (λ p. IsCounting p.0 × Fits g p.1.av) IsCounting (to_next_entry a) _
                (to_next_entry-IsCounting a (l, h))
                λ p m. add_to_entry-IsCounting v p.0 p.1 m.1 m.0)
          | inr free ↦ rw free (add_to_entry-IsCounting v a e k (l, h))
        ]

  All-values :
      (es : List (SubBucketEntry R)) → All (λ e. Fits g e.av) es → All (Fits g) (map (λ x. x.av) es)
  All-values [] h = tt
  All-values (e ∷ es) (h, hs) = (h, All-values es hs)

  length-values : (es : List (SubBucketEntry R)) → length (map (λ x. x.av) es) ≡ length es
  length-values [] = refl
  length-values (e ∷ es) = ap suc (length-values es)

  pub retrieve_sliding_count-Fits :
      (a : SlidingCount R) → IsCounting a → Returns (Fits g) (retrieve_sliding_count a)
  unfolding retrieve_sliding_count
  retrieve_sliding_count-Fits a (l, h) =
      let some_entries : 0 < length a.entries = omega arith in
      Returns-bind (λ e. Fits g e.av) (Fits g) (at_index a.entries a.idx) _
        (at_index-Returns (λ e. Fits g e.av) a.entries a.idx h l)
        λ e k.
          Returns-bind (λ e. Fits g e.av) (Fits g) (at_index a.entries (next_index a.entries a.idx))
            _
            (at_index-Returns (λ e. Fits g e.av) a.entries (next_index a.entries a.idx) h
              (mod-lt (a.idx + 1) some_entries))
            λ oldest o.
              add_values-Fits g (length a.entries - 1) (map (λ x. x.av) a.entries)
                (next_index a.entries a.idx) (multiply_by_fraction _ oldest.av)
                (omega (arith, some_entries, length-values a.entries)) (All-values a.entries h)
                (multiply_by_fraction-Fits g _ oldest.av o)
