-- ===== src/Stats/View.antt =====
-- stats/view.go and stats/collector.go. The fields of a view that never change are a `View`; those that
-- do are its `ViewState`. Channels are addresses.
pub mod Filled
pub mod Rows
pub mod Counting
use instrumentation_go.Base.{
  ℕ, Bool, true, false, not, ◌||◌, List, [], ◌∷◌, Option, none, some, Bytes, bytes_eq, nat_eq,
  length, ltb, if◌then◌else◌, ok, panics, ◌>>=◌,
}
use instrumentation_go.Base.GoMap.{GoMap, lookup, insert, delete, contains}
use instrumentation_go.Tags.Key.{Key}
use instrumentation_go.Tags.TagSet.{TagSet, Tag}
use instrumentation_go.Tags.Values.{to_values_string, to_ordered_tags_slice}
use instrumentation_go.Stats.Outcome.{Outcome}
use instrumentation_go.Stats.Float64.{Float64}
use instrumentation_go.Stats.Aggregation.{Sample, AggregationValue, Aggregation}
use instrumentation_go.Stats.Aggregator.{
  Aggregator, Window, new_aggregator, add_to_aggregator, retrieve_collected,
}

pub record View (R : Type 0) : Type 0 where
  pub name : Bytes
  pub description : Bytes
  pub tag_keys : List Key
  pub m : ℕ
  pub aggregation : Aggregation R
  pub window : Window

pub record Subscription : Type 0 where
  pub dropped_view_data : ℕ

pub record ViewState (R : Type 0) : Type 0 where
  pub subscriptions : GoMap ℕ Subscription
  pub is_forced_collection : Bool
  pub signatures : GoMap Bytes (Aggregator R)

pub record Row (R : Type 0) : Type 0 where
  pub tags : List Tag
  pub value : AggregationValue R

abbrev pub new_view : {R : Type 0} → Bytes → Bytes → List Key → ℕ → Aggregation R → Window → View R
new_view name description tag_keys m aggregation window = record {
  name = name;
  description = description;
  tag_keys = tag_keys;
  m = m;
  aggregation = aggregation;
  window = window;
}

-- A call into package tags that returns no error.
abbrev pub or_panic : {A : Type 0} → Option A → Outcome A
or_panic none = panics
or_panic (some a) = ok a

module _ {R : Type 0} where
  unfoldable pub new_view_state : ViewState R
  new_view_state = record { subscriptions = []; is_forced_collection = false; signatures = [] }

  unfoldable pub add_subscription : ℕ → ViewState R → ViewState R
  add_subscription c s = record s {
    subscriptions = insert c (record { dropped_view_data = 0 }) s.subscriptions;
  }

  unfoldable pub delete_subscription : ℕ → ViewState R → ViewState R
  delete_subscription c s = record s { subscriptions = delete c s.subscriptions }

  unfoldable pub subscription_exists : ℕ → ViewState R → Bool
  subscription_exists c s = contains c s.subscriptions

  unfoldable pub subscriptions_count : ViewState R → ℕ
  subscriptions_count s = length s.subscriptions

  unfoldable pub start_forced_collection : ViewState R → ViewState R
  start_forced_collection s = record s { is_forced_collection = true }

  unfoldable pub stop_forced_collection : ViewState R → ViewState R
  stop_forced_collection s = record s { is_forced_collection = false }

  unfoldable pub is_collecting : ViewState R → Bool
  unfolding subscriptions_count
  is_collecting s = ltb 0 (subscriptions_count s) || s.is_forced_collection

  unfoldable pub clear_rows : ViewState R → ViewState R
  clear_rows s = record s { signatures = [] }

module _ {R : Type 0} ⦃f : Float64 R⦄ where
  -- The aggregator of a signature, which is made on its first sample.
  unfoldable pub find_aggregator :
      View R → Bytes → ℕ → GoMap Bytes (Aggregator R) → Outcome (Aggregator R)
  find_aggregator v sig now signatures = elim (lookup sig signatures) [
    | some a ↦ ok a
    | none ↦ new_aggregator v.window now v.aggregation
  ]

  -- `addSample` of the collector.
  unfoldable pub collect :
      View R
      → Bytes
      → Sample R
      → ℕ
      → GoMap Bytes (Aggregator R)
      → Outcome (GoMap Bytes (Aggregator R))
  unfolding find_aggregator
  collect v sig x now signatures = do
    a ← find_aggregator v sig now signatures
    a' ← add_to_aggregator x now a
    ok (insert sig a' signatures)

  unfoldable pub add_view_sample :
      View R → TagSet → Sample R → ℕ → ViewState R → Outcome (ViewState R)
  unfolding is_collecting collect
  add_view_sample v ts x now s =
      let collected : Outcome (ViewState R) = (do
        sig ← or_panic (to_values_string ts v.tag_keys)
        signatures ← collect v sig x now s.signatures
        ok (record s { signatures = signatures })) in
      if not (is_collecting s) then ok s else collected

  -- The loop of `collectedRows`; the aggregators may move on in time.
  unfoldable pub collect_rows :
      List Key
      → ℕ
      → GoMap Bytes (Aggregator R)
      → Outcome (GoMap Bytes (Aggregator R) × List (Row R))
  collect_rows keys now [] = ok ([], [])
  collect_rows keys now ((sig, a) ∷ m) = do
    ts ← or_panic (to_ordered_tags_slice sig keys)
    (a', value) ← retrieve_collected now a
    (m', rows) ← collect_rows keys now m
    ok ((sig, a') ∷ m', record { tags = ts; value = value } ∷ rows)

  unfoldable pub collected_rows : View R → ℕ → ViewState R → Outcome (ViewState R × List (Row R))
  unfolding collect_rows
  collected_rows v now s = do
    (signatures, rows) ← collect_rows v.tag_keys now s.signatures
    ok (record s { signatures = signatures }, rows)
