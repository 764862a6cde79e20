-- ===== src/Stats/SlidingTime/Row.antt =====
-- The entries of the window of stats/aggregator_slidingtime.go in a row around their ring.
use instrumentation_go.Base.{
  ℕ, ◌≡◌, ◌≢◌, ◌≤◌, ◌<◌, ◌+◌, ◌-◌, ◌*◌, ◌%◌, ◌^◌, ◌⊎◌, inl, inr, subst, ◌∙◌, List, some, length,
  get_elem?-set_other, get_elem?, set, ltb, lt→ltb, refl, ltb→lt, ltb→le, arith, Bool-cases,
}
use native.Mathlib.Nat.{mod-eq_of_lt, mod-eq-sub-mod}
use instrumentation_go.Stats.Aggregation.{AggregationValue}
use instrumentation_go.Stats.Aggregation.Samples.{IsValue}
use instrumentation_go.Stats.SlidingTime.{TimeSerieEntry, SlidingTime, add_duration}

-- A remainder of a number below twice the divisor.
pub wrapped : (k n : ℕ) → k < n + n → ((k < n) × (k % n ≡ k)) ⊎ ((n ≤ k) × (k % n + n ≡ k))
wrapped k n h = elim (Bool-cases (ltb k n)) [
  | inl below ↦ inl (ltb→lt k n below, mod-eq_of_lt (ltb→lt k n below))
  | inr above ↦
      let le = ltb→le k n above in
      inr (le, omega (arith, mod-eq-sub-mod le, mod-eq_of_lt {n = k - n} {m = n} (omega arith)))
]

-- Two places of a ring, `j` and one step behind a place, differ where `j` is no whole round.
pub apart : (i j n : ℕ) → i < n → 1 ≤ j → j < n → (i + 1) % n ≢ (i + (j + 1)) % n
apart i j n h l b e = elim (wrapped (i + 1) n (omega arith)) [
  | inl x ↦ elim (wrapped (i + (j + 1)) n (omega arith)) [
    | inl y ↦ omega arith
    | inr y ↦ omega arith
  ]
  | inr x ↦ elim (wrapped (i + (j + 1)) n (omega arith)) [
    | inl y ↦ omega arith
    | inr y ↦ omega arith
  ]
]

pub times_next : (s p n : ℕ) → n ≡ p + 1 → s * n ≡ p * s + s
times_next s p n e = rw e (omega arith)

pub add_duration_short : (t d : ℕ) → d < 2 ^ 63 → add_duration t d ≡ t + d
add_duration_short t d h = rw (lt→ltb d (2 ^ 63) h) refl

module _ {R : Type 0} where
  -- The entry at an index, with its end, and a whole value.
  pub record EndsAt (xs : List (TimeSerieEntry R)) (i end : ℕ) : Type 0 where
    pub av : AggregationValue R
    pub entry : get_elem? xs i ≡ some (record { end_time = end; av = av })
    pub whole : IsValue av

  -- The current entry ends at `end`, and each entry behind it, the oldest one first, ends one subinterval
  -- after the one before. The duration kept is that of all entries, and a positive int64.
  pub record IsRow (a : SlidingTime R) (end : ℕ) : Type 0 where
    pub current : a.idx < length a.entries
    pub kept : a.kept_duration ≡ a.sub_duration * length a.entries
    pub short : a.kept_duration < 2 ^ 63
    pub positive : (0 < a.sub_duration) × (0 < end)
    pub behind :
        (j k : ℕ)
        → 1 ≤ j
        → k + j ≡ length a.entries
        → (t : ℕ) × (t + k * a.sub_duration ≡ end)
          × EndsAt a.entries ((a.idx + j) % length a.entries) t

  pub EndsAt-at : {xs : List (TimeSerieEntry R)} {i j t : ℕ} → i ≡ j → EndsAt xs i t → EndsAt xs j t
  EndsAt-at {xs} {t = t} e h = subst (λ i. EndsAt xs i t) e h

  -- Storing an entry does not change the others.
  pub EndsAt-set_other :
      {xs : List (TimeSerieEntry R)} {i j t : ℕ} (e : TimeSerieEntry R)
      → i ≢ j
      → EndsAt xs j t
      → EndsAt (set xs i e) j t
  EndsAt-set_other {xs} {i} {j} e d h = record {
    av = h.av;
    entry = get_elem?-set_other xs i j e d ∙ h.entry;
    whole = h.whole;
  }
