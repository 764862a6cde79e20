-- ===== src/Stats/SlidingCount/Stuck.antt =====
-- What becomes of a sliding count of stats/aggregator_slidingcount.go once its entries are reused.
use instrumentation_go.Base.{
  ℕ, ◌≡◌, ◌<◌, ◌+◌, ◌%◌, ◌^◌, refl, subst, ◌∙◌, true, false, List, [], ◌∷◌, some, length, get_elem?,
  get_elem?-set_same, get_elem?_within, eqb, ok, arith, ◌>>=◌,
}
use instrumentation_go.Stats.Outcome.{Outcome, Returns, Returns-bind, Returns-map}
use instrumentation_go.Stats.Float64.{Float64}
use instrumentation_go.Stats.Ring.{at_index-some, next_index}
use instrumentation_go.Stats.Aggregation.{Sample, AggregationValue, add_sample, clear_value}
use instrumentation_go.Stats.Aggregation.Samples.{IsValue, add_sample-IsValue, clear_value-IsValue}
use instrumentation_go.Stats.SlidingCount.{
  SubBucketEntry, SlidingCount, add_to_entry, to_next_entry, add_sliding_count,
}

module _ {R : Type 0} where
  -- The entry at the index has the given count, and holds a whole value.
  pub record HasCount (a : SlidingCount R) (i n : ℕ) : Type 0 where
    pub av : AggregationValue R
    pub entry : get_elem? a.entries i ≡ some (record { count = n; av = av })
    pub whole : IsValue av

  -- The current entry is the one at the index `i`, and its count is `n`.
  abbrev IsAt : ℕ → ℕ → ℕ → SlidingCount R → Type 0
  IsAt i k n a = (a.idx ≡ i) × (a.items_per_bucket ≡ k) × HasCount a a.idx n

module _ {R : Type 0} ⦃f : Float64 R⦄ where
  add_to_entry-IsAt :
      (v : Sample R) (a : SlidingCount R) (n : ℕ) (e : SubBucketEntry R)
      → HasCount a a.idx n
      → IsValue e.av
      → Returns (IsAt a.idx a.items_per_bucket ((e.count + 1) % 2 ^ 64)) (add_to_entry v a e)
  unfolding add_to_entry
  add_to_entry-IsAt v a n e h k =
      Returns-bind IsValue _ (add_sample v e.av) _ (add_sample-IsValue v e.av k) λ av w. (
        refl,
        refl,
        record {
          av = av;
          entry = get_elem?-set_same a.entries a.idx _ (get_elem?_within a.entries a.idx _ h.entry);
          whole = w;
        },
      )

  -- A count that has passed the size of an entry goes on growing in the same entry.
  add_sliding_count-past :
      (v : Sample R) (a : SlidingCount R) (i k n : ℕ)
      → IsAt i k n a
      → k < n
      → n + 1 < 2 ^ 64
      → Returns (IsAt i k (n + 1)) (add_sliding_count v a)
  unfolding add_sliding_count
  add_sliding_count-past v a i k n (p, q, h) l b =
      let other : eqb n a.items_per_bucket ≡ false = ground arith in
      rw (at_index-some a.entries a.idx _ h.entry, other)
        (Returns-map _ (IsAt i k (n + 1)) (add_to_entry v a (record { count = n; av = h.av }))
          (add_to_entry-IsAt v a n _ h h.whole)
          λ a' r. (r.0 ∙ p, r.1 ∙ q, subst (HasCount a' a'.idx) (omega arith) r.2))

  -- The samples one after the other.
  abbrev pub add_all : List (Sample R) → SlidingCount R → Outcome (SlidingCount R)
  add_all [] a = ok a
  add_all (v ∷ vs) a = add_sliding_count v a >>= add_all vs

  add_all-past :
      (vs : List (Sample R)) (a : SlidingCount R) (i k n : ℕ)
      → IsAt i k n a
      → k < n
      → n + length vs < 2 ^ 64
      → Returns (λ a'. a'.idx ≡ i) (add_all vs a)
  add_all-past [] a i k n h l b = h.0
  add_all-past (v ∷ vs) a i k n h l b =
      Returns-bind (IsAt i k (n + 1)) (λ a'. a'.idx ≡ i) (add_sliding_count v a) _
        (add_sliding_count-past v a i k n h l (omega arith))
        λ a' h'. add_all-past vs a' i k (n + 1) h' (omega arith) (omega arith)

  -- The step from a full entry to the next one: the count of that one is raised, not started anew.
  add_sliding_count-reused :
      (v : Sample R) (a : SlidingCount R) (n : ℕ)
      → HasCount a a.idx a.items_per_bucket
      → HasCount a (next_index a.entries a.idx) n
      → Returns
          (IsAt (next_index a.entries a.idx) a.items_per_bucket ((n + 1) % 2 ^ 64))
          (add_sliding_count v a)
  unfolding add_sliding_count to_next_entry
  add_sliding_count-reused v a n h k =
      let same : eqb a.items_per_bucket a.items_per_bucket ≡ true = ground arith in
      rw
        (
          at_index-some a.entries a.idx _ h.entry,
          same,
          at_index-some a.entries (next_index a.entries a.idx) _ k.entry,
        )
        (add_to_entry-IsAt v (record a { idx = next_index a.entries a.idx }) n
          (record { count = n; av = clear_value k.av })
          (record { av = k.av; entry = k.entry; whole = k.whole })
          (clear_value-IsValue k.av k.whole))

  -- Where the current entry and the one behind it are both full, as when the entries come round, the next
  -- sample steps to that entry, and no further samples (fewer than 2 ^ 64 with those counted) leave it again.
  pub add_all-stays :
      (v : Sample R) (vs : List (Sample R)) (a : SlidingCount R)
      → HasCount a a.idx a.items_per_bucket
      → HasCount a (next_index a.entries a.idx) a.items_per_bucket
      → a.items_per_bucket + 1 + length vs < 2 ^ 64
      → Returns (λ a'. a'.idx ≡ next_index a.entries a.idx) (add_all (v ∷ vs) a)
  add_all-stays v vs a h k b =
      Returns-bind
        (IsAt (next_index a.entries a.idx) a.items_per_bucket ((a.items_per_bucket + 1) % 2 ^ 64))
        (λ a'. a'.idx ≡ next_index a.entries a.idx) (add_sliding_count v a) _
        (add_sliding_count-reused v a a.items_per_bucket h k)
        λ a' r.
          add_all-past vs a' (next_index a.entries a.idx) a.items_per_bucket
            ((a.items_per_bucket + 1) % 2 ^ 64) r (omega arith) (omega arith)
