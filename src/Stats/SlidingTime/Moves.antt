-- ===== src/Stats/SlidingTime/Moves.antt =====
-- How the window of stats/aggregator_slidingtime.go moves on, and where a sample goes.
use instrumentation_go.Base.{
  ℕ, zero, suc, ◌≡◌, ◌≢◌, ◌≤◌, ◌<◌, ◌+◌, ◌-◌, ◌*◌, ◌%◌, ◌⊎◌, inl, inr, refl, sym, ap, subst, ◌∙◌,
  true, length, length-set, get_elem?-set_same, set, ltb, lt→ltb, ltb→lt, ltb→le, arith, Bool-cases,
}
use native.Mathlib.Nat.{mod-eq_of_lt, mod-add-mod, add-mod_right, mod-lt}
use instrumentation_go.Stats.Outcome.{Returns, Returns-bind, Returns-map}
use instrumentation_go.Stats.Float64.{Float64}
use instrumentation_go.Stats.Ring.{at_index-some, next_index}
use instrumentation_go.Stats.Aggregation.{Sample, AggregationValue, add_sample, clear_value}
use instrumentation_go.Stats.Aggregation.Samples.{IsValue, add_sample-IsValue, clear_value-IsValue}
use instrumentation_go.Stats.SlidingTime.{
  TimeSerieEntry, SlidingTime, add_duration, turns, reuse_next, move_to_current_entry,
  add_sliding_time,
}
use instrumentation_go.Stats.SlidingTime.Row.{
  add_duration_short, wrapped, apart, times_next, EndsAt, EndsAt-at, EndsAt-set_other, IsRow,
}

module _ {R : Type 0} ⦃f : Float64 R⦄ where
  -- One turn of the loop: the oldest entry becomes the newest, and the row goes on by a subinterval.
  reuse_next-IsRow :
      (a : SlidingTime R) (end : ℕ)
      → IsRow a end
      → Returns
          (λ a'. IsRow a' (end + a.sub_duration) × (a'.sub_duration ≡ a.sub_duration))
          (reuse_next a)
  unfolding reuse_next
  reuse_next-IsRow a end h = rw (at_index-some a.entries next _ oldest.entry) (
    record {
      current = omega (arith, length-set a.entries next new, next-lt);
      kept = h.kept ∙ ap (λ m. a.sub_duration * m) (sym (length-set a.entries next new));
      short = h.short;
      positive = (h.positive.0, omega (arith, h.positive.1));
      behind = λ j k l e.
          rw (length-set a.entries next new) (behind j k l (e ∙ length-set a.entries next new));
    },
    refl,
  )
    where
      n : ℕ
      n = length a.entries

      next : ℕ
      next = next_index a.entries a.idx

      next-lt : next < n
      next-lt = mod-lt (a.idx + 1) (omega (arith, h.current))

      first : (t : ℕ) × (t + (n - 1) * a.sub_duration ≡ end) × EndsAt a.entries next t
      first = h.behind 1 (n - 1) (omega arith) (omega (arith, h.current))

      oldest : EndsAt a.entries next first.0
      oldest = first.2

      new : TimeSerieEntry R
      new = record { end_time = add_duration first.0 a.kept_duration; av = clear_value oldest.av }

      added : add_duration first.0 a.kept_duration ≡ first.0 + a.kept_duration
      added = add_duration_short first.0 a.kept_duration h.short

      whole_round : (j : ℕ) → 0 + j ≡ n → n ≡ j
      whole_round j e = omega arith

      behind :
          (j k : ℕ)
          → 1 ≤ j
          → k + j ≡ n
          → (t : ℕ) × (t + k * a.sub_duration ≡ end + a.sub_duration)
            × EndsAt (set a.entries next new) ((next + j) % n) t
      behind j zero l e = (
        add_duration first.0 a.kept_duration,
        omega (arith, added, first.1, h.kept, times_next a.sub_duration (n - 1) n (omega arith)),
        EndsAt-at
            (sym (mod-eq_of_lt next-lt)
              ∙ sym (add-mod_right next n)
              ∙ ap (λ (m : ℕ). (next + m) % n) (whole_round j e))
            (record {
              av = clear_value oldest.av;
              entry = get_elem?-set_same a.entries next new next-lt;
              whole = clear_value-IsValue oldest.av oldest.whole;
            }),
      )
      behind j (suc k) l e =
          let (t, s, there) = h.behind (j + 1) k (omega arith) (omega arith) in
          let place : (a.idx + (j + 1)) % n ≡ (next + j) % n =
            ap (λ (m : ℕ). m % n) (omega arith) ∙ sym (mod-add-mod (a.idx + 1) n j) in
          (
            t,
            omega (arith, s),
            EndsAt-at place
                (EndsAt-set_other new (apart a.idx j n h.current l (omega arith)) there),
          )

  current_entry : (a : SlidingTime R) (end : ℕ) → IsRow a end → EndsAt a.entries a.idx end
  current_entry a end h =
      let n = length a.entries in
      let (t, s, there) = h.behind n 0 (omega (arith, h.current)) (omega arith) in
      let same : t ≡ end = omega arith in
      subst (EndsAt a.entries a.idx) same
        (EndsAt-at (add-mod_right a.idx n ∙ mod-eq_of_lt h.current) there)

  -- The current entry is the first one that ends after the time, from the one that ended at `end` on.
  pub record IsCurrent (now end sub_duration : ℕ) (a : SlidingTime R) : Type 0 where
    pub new_end : ℕ
    pub row : IsRow a new_end
    pub after : now < new_end
    pub same_length : a.sub_duration ≡ sub_duration
    pub first : (new_end ≡ end) ⊎ (new_end ≤ now + sub_duration)

  IsCurrent-stays :
      (now end : ℕ) (a : SlidingTime R)
      → IsRow a end
      → now < end
      → IsCurrent now end a.sub_duration a
  IsCurrent-stays now end a h l = record {
    new_end = end;
    row = h;
    after = l;
    same_length = refl;
    first = inl refl;
  }

  IsCurrent-next :
      (now end : ℕ) (a b c : SlidingTime R)
      → end ≤ now
      → b.sub_duration ≡ a.sub_duration
      → IsCurrent now (end + a.sub_duration) b.sub_duration c
      → IsCurrent now end a.sub_duration c
  IsCurrent-next now end a b c l same h = record {
    new_end = h.new_end;
    row = h.row;
    after = h.after;
    same_length = h.same_length ∙ same;
    first = inr (elim h.first [ inl e ↦ omega arith | inr e ↦ omega arith ]);
  }

  move_to_current_entry_fuel :
      (fuel now end : ℕ) (a : SlidingTime R)
      → IsRow a end
      → now < end + fuel
      → Returns (IsCurrent now end a.sub_duration) (move_to_current_entry (suc fuel) now a)
  unfolding move_to_current_entry
  move_to_current_entry_fuel zero now end a h b =
      let before : ltb now end ≡ true = lt→ltb now end (omega arith) in
      rw (at_index-some a.entries a.idx _ (current_entry a end h).entry, before)
        (IsCurrent-stays now end a h (omega arith))
  move_to_current_entry_fuel (suc fuel) now end a h b = elim (Bool-cases (ltb now end)) [
    | inl before ↦
        rw (at_index-some a.entries a.idx _ (current_entry a end h).entry, before)
          (IsCurrent-stays now end a h (ltb→lt now end before))
    | inr reached ↦
        rw (at_index-some a.entries a.idx _ (current_entry a end h).entry, reached)
          (Returns-bind (λ a'. IsRow a' (end + a.sub_duration) × (a'.sub_duration ≡ a.sub_duration))
            _ (reuse_next a) _ (reuse_next-IsRow a end h)
            λ a' p.
              Returns-map _ _ (move_to_current_entry (suc fuel) now a')
                (move_to_current_entry_fuel fuel now (end + a.sub_duration) a' p.0
                  (omega (arith, h.positive.0)))
                λ a'' c. IsCurrent-next now end a a' a'' (ltb→le now end reached) p.1 c)
  ]

  -- Whenever the entries of a window of time are in a row, and their duration is kept and is a positive int64,
  -- moving it on ends, for every time: the entries
  -- are in a row again, and the current entry is the first that ends after that time.
  pub move_to_current_entry_lem :
      (now end : ℕ) (a : SlidingTime R)
      → IsRow a end
      → Returns (IsCurrent now end a.sub_duration) (move_to_current_entry (turns now) now a)
  move_to_current_entry_lem now end a h =
      move_to_current_entry_fuel now now end a h (omega (arith, h.positive.1))

  -- Replacing the value of the current entry by another whole one keeps the row.
  store_current-IsRow :
      (a : SlidingTime R) (end : ℕ) (av : AggregationValue R)
      → IsValue av
      → IsRow a end
      → IsRow (record a { entries = set a.entries a.idx (record { end_time = end; av = av }) }) end
  store_current-IsRow a end av w h = record {
    current = omega (arith, h.current, same_length);
    kept = h.kept ∙ ap (λ (m : ℕ). a.sub_duration * m) (sym same_length);
    short = h.short;
    positive = h.positive;
    behind = λ j k l e. rw same_length (behind j k l (e ∙ same_length));
  }
    where
      new : TimeSerieEntry R
      new = record { end_time = end; av = av }

      n : ℕ
      n = length a.entries

      same_length : length (set a.entries a.idx new) ≡ n
      same_length = length-set a.entries a.idx new

      behind :
          (j k : ℕ)
          → 1 ≤ j
          → k + j ≡ n
          → (t : ℕ) × (t + k * a.sub_duration ≡ end)
            × EndsAt (set a.entries a.idx new) ((a.idx + j) % n) t
      behind j zero l e = (
        end,
        omega arith,
        EndsAt-at
            (sym (mod-eq_of_lt h.current)
              ∙ sym (add-mod_right a.idx n)
              ∙ ap (λ (m : ℕ). (a.idx + m) % n) (omega arith))
            (record {
              av = av;
              entry = get_elem?-set_same a.entries a.idx new h.current;
              whole = w;
            }),
      )
      behind j (suc k) l e =
          let (t, s, there) = h.behind j (suc k) l e in
          (t, s, EndsAt-set_other new (elsewhere j k l e) there)
        where
          elsewhere : (j k : ℕ) → 1 ≤ j → suc k + j ≡ n → a.idx ≢ (a.idx + j) % n
          elsewhere j k l e x = elim (wrapped (a.idx + j) n (omega (arith, h.current))) [
            | inl y ↦ omega arith
            | inr y ↦ omega arith
          ]

  -- Where the entries of a window of time are in a row, and their duration is kept and is a positive int64,
  -- adding a sample at any time ends and does not fail;
  -- the entries are in a row again, and the current one is the first that ends after that time.
  pub add_sliding_time_lem :
      (v : Sample R) (now end : ℕ) (a : SlidingTime R)
      → IsRow a end
      → Returns (IsCurrent now end a.sub_duration) (add_sliding_time v now a)
  unfolding add_sliding_time
  add_sliding_time_lem v now end a h =
      Returns-bind (IsCurrent now end a.sub_duration) _ (move_to_current_entry (turns now) now a) _
        (move_to_current_entry_lem now end a h)
        λ a' c.
          let here = current_entry a' c.new_end c.row in
          rw (at_index-some a'.entries a'.idx _ here.entry) (
            Returns-bind IsValue _ (add_sample v here.av) _
              (add_sample-IsValue v here.av here.whole)
              λ av w. record {
                new_end = c.new_end;
                row = store_current-IsRow a' c.new_end av w c.row;
                after = c.after;
                same_length = c.same_length;
                first = c.first;
              })
