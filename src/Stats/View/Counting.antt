-- ===== src/Stats/View/Counting.antt =====
-- What a view of stats/view.go with a cumulative count makes of the samples it is given.
use instrumentation_go.Base.{
  ℕ, ◌≡◌, ◌<◌, ◌+◌, ◌%◌, ◌^◌, ◌==◌, refl, sym, true, List, [], ◌∷◌, Option, none, some, Bytes,
  bytes_eq, if◌then◌else◌, inl, inr, Bool-cases, Option-cases, ok, ◌>>=◌, ap, subst, arith,
}
use instrumentation_go.Base.GoMap.{GoMap, lookup, lookup-insert}
use instrumentation_go.Tags.Key.{Key}
use instrumentation_go.Tags.TagSet.{TagSet}
use instrumentation_go.Tags.Values.Written.{all_sized, to_values_string-sized}
use instrumentation_go.Stats.Outcome.{Outcome, Returns, Returns-bind}
use instrumentation_go.Stats.Float64.{Float64}
use instrumentation_go.Stats.Aggregation.{
  Sample, count_value, aggregation_count, new_value, add_sample,
}
use instrumentation_go.Stats.Aggregator.{
  Aggregator, cumulative, sliding_time, sliding_count, window_cumulative, new_aggregator,
  add_to_aggregator,
}
use instrumentation_go.Stats.View.{
  View, ViewState, is_collecting, find_aggregator, collect, add_view_sample,
}

-- A sample with its tags and its time.
abbrev pub Tagged : Type 0 → Type 0
Tagged R = TagSet × Sample R × ℕ

-- How many of the samples have this values string for the keys.
abbrev pub occurrences : {R : Type 0} → List Key → Bytes → List (Tagged R) → ℕ
occurrences keys sig [] = 0
occurrences keys sig ((ts, x, now) ∷ xs) =
    let rest = occurrences keys sig xs in if all_sized ts keys == sig then rest + 1 else rest

abbrev raise : Bytes → (Bytes → ℕ) → Bytes → ℕ
raise sig c s = if sig == s then c s + 1 else c s

-- The samples are given to the view one after the other.
unfoldable pub add_view_samples :
    {R : Type 0} ⦃f : Float64 R⦄ → View R → List (Tagged R) → ViewState R → Outcome (ViewState R)
unfolding add_view_sample
add_view_samples v [] s = ok s
add_view_samples v ((ts, x, now) ∷ xs) s = do
  s' ← add_view_sample v ts x now s
  add_view_samples v xs s'

module _ {R : Type 0} where
  abbrev Counted : ℕ → Aggregator R → Type 0
  Counted n (cumulative a) = a.av ≡ count_value (n % 2 ^ 64)
  Counted n (sliding_time a) = ⊥
  Counted n (sliding_count a) = ⊥

  -- There is an aggregator if there was a sample, and it has counted all of them.
  abbrev pub IsCounted : ℕ → Option (Aggregator R) → Type 0
  IsCounted n none = n ≡ 0
  IsCounted n (some a) = (0 < n) × Counted n a

  -- Under each values string the number of samples is counted.
  abbrev pub HasCounts : (Bytes → ℕ) → GoMap Bytes (Aggregator R) → Type 0
  HasCounts c m = (sig : Bytes) → IsCounted (c sig) (lookup sig m)

module _ {R : Type 0} ⦃f : Float64 R⦄ where
  add_to_aggregator-Counted :
      (n : ℕ) (x : Sample R) (now : ℕ) (a : Aggregator R)
      → Counted n a
      → Returns (Counted (n + 1)) (add_to_aggregator x now a)
  unfolding add_to_aggregator add_sample
  add_to_aggregator-Counted n x now (cumulative a) h =
      let step : add_sample x a.av ≡ ok (count_value ((n + 1) % 2 ^ 64)) =
        rw h (ap (λ (k : ℕ). ok (count_value k)) (omega arith)) in
      rw step refl
  add_to_aggregator-Counted n x now (sliding_time a) h = absurd h
  add_to_aggregator-Counted n x now (sliding_count a) h = absurd h

  module _ (v : View R) (w : v.window ≡ window_cumulative)
      (g : v.aggregation ≡ aggregation_count) where
    find_aggregator-Counted :
        (n now : ℕ) (sig : Bytes) (m : GoMap Bytes (Aggregator R))
        → IsCounted n (lookup sig m)
        → Returns (Counted n) (find_aggregator v sig now m)
    unfolding find_aggregator new_aggregator new_value
    find_aggregator-Counted n now sig m h = elim (Option-cases (lookup sig m)) [
      | inl new ↦
          let none_yet : n ≡ 0 = subst (IsCounted n) new h in
          rw (find_aggregator, new, w, g, none_yet) refl
      | inr (a, old) ↦
          let counted : IsCounted n (some a) = subst (IsCounted n) old h in
          rw (find_aggregator, old) counted.1
    ]

    collect-HasCounts :
        (c : Bytes → ℕ) (sig : Bytes) (x : Sample R) (now : ℕ) (m : GoMap Bytes (Aggregator R))
        → HasCounts c m
        → Returns (HasCounts (raise sig c)) (collect v sig x now m)
    unfolding collect
    collect-HasCounts c sig x now m h =
        Returns-bind (Counted (c sig)) _ (find_aggregator v sig now m) _
          (find_aggregator-Counted (c sig) now sig m (h sig))
          λ a k.
            Returns-bind (Counted (c sig + 1)) _ (add_to_aggregator x now a) _
              (add_to_aggregator-Counted (c sig) x now a k)
              λ a' k' s.
                subst (IsCounted (raise sig c s)) (sym (lookup-insert sig s a' m))
                  (elim (Bool-cases (sig == s)) [
                    | inl same ↦ rw same (
                      omega arith,
                      subst (λ t. Counted (c t + 1) a') (((bytes_eq).same_iff sig s).0 same) k',
                    )
                    | inr other ↦ rw other (h s)
                  ])

    -- A view that collects goes on doing so.
    add_view_sample-HasCounts :
        (c : Bytes → ℕ) (ts : TagSet) (x : Sample R) (now : ℕ) (s : ViewState R)
        → is_collecting s ≡ true
        → HasCounts c s.signatures
        → Returns
            (λ s'.
              (is_collecting s' ≡ true)
              × HasCounts (raise (all_sized ts v.tag_keys) c) s'.signatures)
            (add_view_sample v ts x now s)
    unfolding add_view_sample is_collecting
    add_view_sample-HasCounts c ts x now s b h =
        rw (b, to_values_string-sized ts v.tag_keys)
          (Returns-bind (HasCounts (raise (all_sized ts v.tag_keys) c)) _
            (collect v (all_sized ts v.tag_keys) x now s.signatures) _
            (collect-HasCounts c (all_sized ts v.tag_keys) x now s.signatures h) λ m k. (b, k))

    add_view_samples-HasCounts_from :
        (xs : List (Tagged R)) (c d : Bytes → ℕ) (s : ViewState R)
        → ((sig : Bytes) → d sig ≡ c sig + occurrences v.tag_keys sig xs)
        → is_collecting s ≡ true
        → HasCounts c s.signatures
        → Returns (λ s'. HasCounts d s'.signatures) (add_view_samples v xs s)
    unfolding add_view_samples
    add_view_samples-HasCounts_from [] c d s e b h = λ sig.
        let same : c sig ≡ d sig = omega (arith, e sig) in
        subst (λ n. IsCounted n (lookup sig s.signatures)) same (h sig)
    add_view_samples-HasCounts_from ((ts, x, now) ∷ xs) c d s e b h =
        Returns-bind _ _ (add_view_sample v ts x now s) (add_view_samples v xs)
          (add_view_sample-HasCounts c ts x now s b h)
          λ s' p.
            add_view_samples-HasCounts_from xs (raise (all_sized ts v.tag_keys) c) d s'
              (λ sig. ground (arith, e sig)) p.0 p.1

    -- Where the window of a view is cumulative and its aggregation a count, and the view collects and holds
    -- no rows yet: giving it any samples does not panic, and then there is an aggregator under a values
    -- string exactly if there was a sample with tags of that values string, and its value is the number of
    -- these samples modulo 2 ^ 64.
    pub add_view_samples-HasCounts :
        (xs : List (Tagged R)) (s : ViewState R)
        → is_collecting s ≡ true
        → s.signatures ≡ []
        → Returns
            (λ s'. HasCounts (λ sig. occurrences v.tag_keys sig xs) s'.signatures)
            (add_view_samples v xs s)
    unfolding lookup
    add_view_samples-HasCounts xs s b e =
        add_view_samples-HasCounts_from xs (λ sig. 0) (λ sig. occurrences v.tag_keys sig xs) s
          (λ sig. omega arith) b (λ sig. rw e refl)
