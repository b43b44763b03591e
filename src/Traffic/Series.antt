-- ===== src/Traffic/Series.antt =====
-- The traffic of a window of time: TrafficSeries of internal/control/traffic.go.
use mathlib.Core.List.{Perm}
use frp_cluster.Base.{
  ℕ, ◌+◌, ap, subst, ltb, inl, inr, Bool-cases, ◌≡◌, refl, Bool, not, ◌||◌, Option, none, some,
  List, [], ◌∷◌, ℤ, pos, pos_part, int_le, int_lt, add64, filter, if◌then◌else◌, arith,
}
use frp_cluster.Sort.{IsWeakOrder, IsSorted, sort_by, sort_by-perm, sort_by-IsSorted}
use frp_cluster.Text.{Text, text_lt}
use frp_cluster.Dict.{Dict, get, put, values}
use frp_cluster.Types.{
  Instant, elapsed_more, TrafficCounters, TrafficSample, ServerNode, ClusterState,
}
use frp_cluster.Selection.Preference.{text_lt-IsWeakOrder}
use frp_cluster.Traffic.{traffic_retention, normalize_traffic_counters, sample_less}

pub record TrafficTotals : Type 0 where
  pub total_in_bytes : ℤ
  pub total_out_bytes : ℤ
  pub delta_in_bytes : ℤ
  pub delta_out_bytes : ℤ

pub record NodeTraffic : Type 0 where
  pub node_id : Text
  pub totals : TrafficTotals

pub record TrafficSeries : Type 0 where
  pub samples : List TrafficSample
  pub totals : TrafficTotals
  pub nodes : List NodeTraffic

abbrev pub no_totals : TrafficTotals
no_totals = record {
  total_in_bytes = pos 0;
  total_out_bytes = pos 0;
  delta_in_bytes = pos 0;
  delta_out_bytes = pos 0;
}

-- a window that is not positive, or longer than the retention, gives way to a day
unfoldable pub window_or_day : ℤ → ℤ
window_or_day window =
    if int_le window (pos 0) || int_lt (pos traffic_retention) window
    then pos 86_400_000_000_000
    else window

-- not before the window
unfoldable pub in_window : ℤ → Instant → TrafficSample → Bool
in_window window now sample = not (elapsed_more now sample.at (pos_part window))

unfoldable pub totals_or_none : Option NodeTraffic → TrafficTotals
totals_or_none none = no_totals
totals_or_none (some entry) = entry.totals

unfoldable pub with_node : Text → Option TrafficCounters → Dict NodeTraffic → Dict NodeTraffic
unfolding totals_or_none
with_node id none m = m
with_node id (some traffic) m =
    put id
      (record {
        node_id = id;
        totals = record (totals_or_none (get id m)) {
          total_in_bytes = traffic.total_in_bytes;
          total_out_bytes = traffic.total_out_bytes;
        };
      })
      m

-- the loop over the nodes
unfoldable pub node_totals : List ServerNode → Instant → Dict NodeTraffic → Dict NodeTraffic
node_totals [] now m = m
node_totals (node ∷ nodes) now m =
    node_totals nodes now (with_node node.id (normalize_traffic_counters node.traffic now) m)

abbrev larger : ℤ → ℤ → ℤ
larger a b = if int_lt a b then b else a

unfoldable pub add_to_totals : TrafficSample → TrafficTotals → TrafficTotals
add_to_totals sample t = record {
  total_in_bytes = larger t.total_in_bytes sample.total_in_bytes;
  total_out_bytes = larger t.total_out_bytes sample.total_out_bytes;
  delta_in_bytes = add64 t.delta_in_bytes sample.delta_in_bytes;
  delta_out_bytes = add64 t.delta_out_bytes sample.delta_out_bytes;
}

-- the loop over the samples, as it adds up
unfoldable pub sample_totals : List TrafficSample → Dict NodeTraffic → Dict NodeTraffic
unfolding totals_or_none
sample_totals [] m = m
sample_totals (sample ∷ samples) m = sample_totals samples (
    put sample.node_id
      (record {
        node_id = sample.node_id;
        totals = add_to_totals sample (totals_or_none (get sample.node_id m));
      })
      m)

unfoldable pub sum_totals : List NodeTraffic → TrafficTotals → TrafficTotals
sum_totals [] sum = sum
sum_totals (entry ∷ entries) sum = sum_totals entries (record {
  total_in_bytes = add64 sum.total_in_bytes entry.totals.total_in_bytes;
  total_out_bytes = add64 sum.total_out_bytes entry.totals.total_out_bytes;
  delta_in_bytes = add64 sum.delta_in_bytes entry.totals.delta_in_bytes;
  delta_out_bytes = add64 sum.delta_out_bytes entry.totals.delta_out_bytes;
})

unfoldable pub by_node : NodeTraffic → NodeTraffic → Bool
by_node a b = text_lt a.node_id b.node_id

unfoldable pub traffic_series : ℤ → Instant → ClusterState → TrafficSeries
traffic_series window now state =
    let recent = filter (in_window (window_or_day window) now) state.traffic_samples in
    let entries = values (sample_totals recent (node_totals (values state.nodes) now [])) in
    record {
      samples = sort_by sample_less recent;
      totals = sum_totals entries no_totals;
      nodes = sort_by by_node entries;
    }

sample_less-IsWeakOrder : IsWeakOrder sample_less
unfolding sample_less
sample_less-IsWeakOrder = record {
  asymm = λ a b h. ground (arith, h, text_lt-IsWeakOrder.asymm a.node_id b.node_id);
  trans =
      λ a b c h k. ground (arith, h, k, text_lt-IsWeakOrder.trans a.node_id b.node_id c.node_id);
}

by_node-IsWeakOrder : IsWeakOrder by_node
unfolding by_node
by_node-IsWeakOrder = record {
  asymm = λ a b. text_lt-IsWeakOrder.asymm a.node_id b.node_id;
  trans = λ a b c. text_lt-IsWeakOrder.trans a.node_id b.node_id c.node_id;
}

-- the length of the window in nanoseconds: one day, if it is not positive or above seven days
abbrev pub length_of : ℤ → ℕ
length_of window =
    if int_le window (pos 0) || int_lt (pos 604_800_000_000_000) window
    then 86_400_000_000_000
    else pos_part window

length_of-window : (window : ℤ) → pos_part (window_or_day window) ≡ length_of window
unfolding window_or_day
length_of-window window =
    elim (Bool-cases (int_le window (pos 0) || int_lt (pos traffic_retention) window)) [
      | inl outside ↦ rw outside refl
      | inr inside ↦ rw inside refl
    ]

-- the samples that are not older than the window
abbrev pub recent : ℤ → Instant → List TrafficSample → List TrafficSample
recent window now samples =
    filter (λ (sample : TrafficSample). not (ltb (sample.at + length_of window) now)) samples

pub recent_samples :
    (window : ℤ) (now : Instant) (samples : List TrafficSample)
    → filter (in_window (window_or_day window) now) samples ≡ recent window now samples
unfolding in_window
recent_samples window now samples =
    ap (λ n. filter (λ (sample : TrafficSample). not (ltb (sample.at + n) now)) samples)
      (length_of-window window)

-- the samples and the nodes of a report are ordered
pub traffic_series_order :
    (window : ℤ) (now : Instant) (state : ClusterState)
    → Perm (traffic_series window now state).samples (recent window now state.traffic_samples)
      × IsSorted sample_less (traffic_series window now state).samples
      × IsSorted by_node (traffic_series window now state).nodes
unfolding traffic_series
traffic_series_order window now state = (
  subst
      (Perm
        (sort_by sample_less (filter (in_window (window_or_day window) now) state.traffic_samples)))
      (recent_samples window now state.traffic_samples) (sort_by-perm sample_less _),
  sort_by-IsSorted sample_less sample_less-IsWeakOrder _,
  sort_by-IsSorted by_node by_node-IsWeakOrder _,
)
