-- ===== src/Stats/Examples/Counting.antt =====
-- A view with a cumulative count, which is given three samples under two values strings.
use instrumentation_go.Base.{ℕ, ◌≡◌, refl, true, List, [], ◌∷◌, bytes_eq, nat_eq}
use instrumentation_go.Tags.Key.{key_eq}
use instrumentation_go.Stats.Outcome.{Returns}
use instrumentation_go.Stats.Aggregation.{int64, other, aggregation_count}
use instrumentation_go.Stats.Aggregator.{window_cumulative}
use instrumentation_go.Stats.View.{View, ViewState, is_collecting}
use instrumentation_go.Stats.View.Counting.{
  Tagged, occurrences, HasCounts, add_view_samples, add_view_samples-HasCounts,
}
use instrumentation_go.Stats.Examples.{naturals, a_key, tagged}

abbrev counting_view : View ℕ
counting_view = record {
  name = 1 ∷ [];
  description = [];
  tag_keys = a_key ∷ [];
  m = 5;
  aggregation = aggregation_count;
  window = window_cumulative;
}

abbrev forced : ViewState ℕ
forced = record { subscriptions = []; is_forced_collection = true; signatures = [] }

abbrev three_samples : List (Tagged ℕ)
three_samples =
    (tagged, int64 15, 100) ∷ (record { m = [] }, int64 7, 110) ∷ (tagged, other, 120) ∷ []

forced-is_collecting : is_collecting forced ≡ true
unfolding is_collecting
forced-is_collecting = refl

add_view_samples-HasCounts_example :
    Returns
      (λ s. HasCounts (λ sig. occurrences counting_view.tag_keys sig three_samples) s.signatures)
      (add_view_samples counting_view three_samples forced)
add_view_samples-HasCounts_example =
    add_view_samples-HasCounts counting_view refl refl three_samples forced forced-is_collecting
      refl
