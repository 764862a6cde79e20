-- ===== src/Stats/View/Filled.antt =====
-- The views of stats/view.go whose data can always be added to and collected.
use instrumentation_go.Base.{
  ℕ, ◌≡◌, ◌<◌, ◌≤◌, List, [], ◌∷◌, some, Bytes, bytes_eq, length, All, inl, inr, Bool-cases,
  Option-cases, subst, bytes_beq, arith,
}
use instrumentation_go.Base.GoMap.{GoMap, lookup, insert}
use instrumentation_go.Tags.Key.{Key, key_eq}
use instrumentation_go.Tags.TagSet.{TagSet}
use instrumentation_go.Tags.Values.{value_or_nil, to_values_string}
use instrumentation_go.Tags.Values.Written.{all_sized, to_values_string-sized}
use instrumentation_go.Tags.Values.RoundTrip.{to_ordered_tags_slice-project}
use instrumentation_go.Stats.Outcome.{Returns, Returns-bind}
use instrumentation_go.Stats.Float64.{Float64}
use instrumentation_go.Stats.Aggregation.{Sample}
use instrumentation_go.Stats.Aggregation.Shapes.{Fits}
use instrumentation_go.Stats.Aggregator.{Aggregator, add_to_aggregator, retrieve_collected}
use instrumentation_go.Stats.Aggregator.Fitting.{
  IsRegular, IsAggregator, new_aggregator-IsAggregator, add_to_aggregator-IsAggregator,
  retrieve_collected-IsAggregator,
}
use instrumentation_go.Stats.View.{
  View, ViewState, is_collecting, find_aggregator, collect, add_view_sample, collect_rows,
  collected_rows,
}

-- No value of the tag set has 65536 bytes or more.
abbrev pub IsShort : TagSet → Type 0
IsShort ts = (k : Key) → length (value_or_nil k ts) < 65536

-- The values string of such a tag set.
abbrev pub IsSignature : List Key → Bytes → Type 0
IsSignature keys sig = (ts : TagSet) × IsShort ts × (to_values_string ts keys ≡ some sig)

All-insert :
    {A : Type 0} (P : Bytes × A → Type 0) (k : Bytes) (a : A) (m : GoMap Bytes A)
    → P (k, a)
    → All P m
    → All P (insert k a m)
unfolding insert
All-insert P k a [] p h = (p, tt)
All-insert P k a ((j, b) ∷ m) p (h, hs) = elim (Bool-cases (bytes_beq j k)) [
  | inl same ↦ rw same (p, hs)
  | inr differs ↦ rw differs (h, All-insert P k a m p hs)
]

All-lookup :
    {A : Type 0} (Q : A → Type 0) (P : Bytes → Type 0) (k : Bytes) (a : A) (m : GoMap Bytes A)
    → lookup k m ≡ some a
    → All (λ (p : Bytes × A). P p.0 × Q p.1) m
    → Q a
unfolding lookup
All-lookup Q P k a [] e h = cc
All-lookup Q P k a ((j, b) ∷ m) e (h, hs) = elim (Bool-cases (bytes_beq j k)) [
  | inl same ↦ let e' : b ≡ a = ground arith in subst Q e' h.1
  | inr differs ↦ All-lookup Q P k a m (ground arith) hs
]

All-short :
    (ts : TagSet) (ks : List Key) → IsShort ts → All (λ k. length (value_or_nil k ts) < 65536) ks
All-short ts [] h = tt
All-short ts (k ∷ ks) h = (h k, All-short ts ks h)

module _ {R : Type 0} ⦃f : Float64 R⦄ (v : View R) where
  -- Each row has a signature of the view and an aggregator of its aggregation.
  abbrev pub IsFilled : GoMap Bytes (Aggregator R) → Type 0
  IsFilled = All (λ p. IsSignature v.tag_keys p.0 × IsAggregator v.aggregation p.1)

  find_aggregator-IsAggregator :
      (earliest now : ℕ) (sig : Bytes) (m : GoMap Bytes (Aggregator R))
      → IsRegular earliest v.window
      → earliest ≤ now
      → IsFilled m
      → Returns (IsAggregator v.aggregation) (find_aggregator v sig now m)
  unfolding find_aggregator
  find_aggregator-IsAggregator earliest now sig m r l h = elim (Option-cases (lookup sig m)) [
    | inl new ↦
        rw (find_aggregator, new)
          (new_aggregator-IsAggregator v.aggregation earliest now v.window r l)
    | inr (a, old) ↦
        rw (find_aggregator, old)
          (All-lookup (IsAggregator v.aggregation) (IsSignature v.tag_keys) sig a m old h)
  ]

  collect-IsFilled :
      (earliest now : ℕ) (sig : Bytes) (x : Sample R) (m : GoMap Bytes (Aggregator R))
      → IsRegular earliest v.window
      → earliest ≤ now
      → IsSignature v.tag_keys sig
      → IsFilled m
      → Returns IsFilled (collect v sig x now m)
  unfolding collect
  collect-IsFilled earliest now sig x m r l s h =
      Returns-bind (IsAggregator v.aggregation) IsFilled (find_aggregator v sig now m) _
        (find_aggregator-IsAggregator earliest now sig m r l h)
        λ a k.
          Returns-bind (IsAggregator v.aggregation) IsFilled (add_to_aggregator x now a) _
            (add_to_aggregator-IsAggregator v.aggregation x now a k)
            λ a' k'.
              All-insert (λ p. IsSignature v.tag_keys p.0 × IsAggregator v.aggregation p.1) sig a' m
                (s, k') h

  pub add_view_sample-IsFilled :
      (earliest now : ℕ) (ts : TagSet) (x : Sample R) (s : ViewState R)
      → IsRegular earliest v.window
      → earliest ≤ now
      → IsShort ts
      → IsFilled s.signatures
      → Returns (λ s'. IsFilled s'.signatures) (add_view_sample v ts x now s)
  unfolding add_view_sample
  add_view_sample-IsFilled earliest now ts x s r l short h = elim (Bool-cases (is_collecting s)) [
    | inr idle ↦ rw idle h
    | inl busy ↦
        let e = to_values_string-sized ts v.tag_keys in
        rw (busy, e)
          (Returns-bind IsFilled (λ s'. IsFilled s'.signatures)
            (collect v (all_sized ts v.tag_keys) x now s.signatures) _
            (collect-IsFilled earliest now (all_sized ts v.tag_keys) x s.signatures r l
              (ts, short, e) h)
            λ m k. k)
  ]

  collect_rows-IsFilled :
      (now : ℕ) (m : GoMap Bytes (Aggregator R))
      → IsFilled m
      → Returns (λ p. IsFilled p.0) (collect_rows v.tag_keys now m)
  unfolding collect_rows
  collect_rows-IsFilled now [] h = tt
  collect_rows-IsFilled now ((sig, a) ∷ m) (((ts, short, e), k), hs) =
      let (tags, r, _, _) =
        to_ordered_tags_slice-project ts v.tag_keys sig e (All-short ts v.tag_keys short) in
      rw r (
        Returns-bind (λ p. IsAggregator v.aggregation p.0 × Fits v.aggregation p.1)
          (λ p. IsFilled p.0) (retrieve_collected now a) _
          (retrieve_collected-IsAggregator v.aggregation now a k)
          λ p q.
            Returns-bind (λ p. IsFilled p.0) (λ p. IsFilled p.0) (collect_rows v.tag_keys now m) _
              (collect_rows-IsFilled now m hs) λ p' q'. (((ts, short, e), q.0), q'))

  pub collected_rows-IsFilled :
      (now : ℕ) (s : ViewState R)
      → IsFilled s.signatures
      → Returns (λ p. IsFilled p.0.signatures) (collected_rows v now s)
  unfolding collected_rows
  collected_rows-IsFilled now s h =
      Returns-bind (λ p. IsFilled p.0) (λ p. IsFilled p.0.signatures)
        (collect_rows v.tag_keys now s.signatures) _ (collect_rows-IsFilled now s.signatures h)
        λ p k. k
