-- ===== src/Examples/Traffic.antt =====
-- Traffic samples in the small cluster, and months.
use frp_cluster.Base.{inl}
use frp_cluster.Base.{List, ◌∷◌}
use frp_cluster.Traffic.Record.{report_each}
use frp_cluster.Base.{All}
use frp_cluster.Traffic.Record.{IsEarly, IsRecent, IsTotal, expected_sample}
use frp_cluster.Types.{TrafficSample}
use frp_cluster.Base.{[], arith, int_eq, int_lt, length, pos, refl, some, ◌≡◌, ◌≤◌}
use frp_cluster.Dict.{get}
use frp_cluster.Events.{month_text}
use frp_cluster.Examples.{b_id, b_node, cluster, noon}
use frp_cluster.Network.{non_negative}
use frp_cluster.Sort.{sort_by}
use frp_cluster.Text.{str, text_eq}
use frp_cluster.Traffic.{
  has_no_traffic, last_traffic_sample_for_node, normalize_traffic_counters, record_traffic,
}
use frp_cluster.Traffic.Record.{IsDue, one_sample_a_minute, record_traffic_lem}
use frp_cluster.Types.{ClusterState, Instant, TrafficCounters}

-- what the second node reports at noon, and half a minute later
abbrev counters : TrafficCounters
counters = record {
  total_in_bytes = pos 1_000;
  total_out_bytes = pos 2_000;
  current_connections = pos 1;
  proxies = [];
  measured_at = noon;
}

abbrev later_counters : TrafficCounters
later_counters = record counters { total_in_bytes = pos 3_000 }

abbrev half_past : Instant
half_past = 63_900_000_030_000_000_000

in_cluster : get b_id cluster.nodes ≡ some b_node
unfolding get text_eq
in_cluster = refl

taken : normalize_traffic_counters counters noon ≡ some counters
unfolding normalize_traffic_counters has_no_traffic non_negative int_lt sort_by int_eq
taken = refl

due : IsDue noon (last_traffic_sample_for_node cluster.traffic_samples b_id)
unfolding last_traffic_sample_for_node
due = inl refl

-- the log test values
month_test : month_text 63_087_379_200_000_000_000 ≡ str "2000-02"
unfolding month_text str
month_test = refl

month_test_next : month_text 63_087_465_600_000_000_000 ≡ str "2000-03"
unfolding month_text str
month_test_next = refl

month_test_year : month_text 63_902_822_399_000_000_000 ≡ str "2025-12"
unfolding month_text str
month_test_year = refl

new_totals : IsTotal counters.total_in_bytes × IsTotal counters.total_out_bytes
new_totals = ((_, refl, omega arith), (_, refl, omega arith))

old_totals :
    IsTotal (last_traffic_sample_for_node cluster.traffic_samples b_id).total_in_bytes
    × IsTotal (last_traffic_sample_for_node cluster.traffic_samples b_id).total_out_bytes
unfolding last_traffic_sample_for_node
old_totals = ((_, refl, omega arith), (_, refl, omega arith))

record_traffic_lem_example :
    let last = last_traffic_sample_for_node cluster.traffic_samples b_id in
    let after = record_traffic b_id counters noon cluster in
    (get b_id after.nodes ≡ some (record b_node { traffic = counters }))
    × (IsEarly noon last → after.traffic_samples ≡ cluster.traffic_samples)
    × (IsDue noon last
        → All (λ (sample : TrafficSample). IsRecent noon sample.at) after.traffic_samples
          × (length after.traffic_samples ≤ 100_000)
          × (IsRecent noon counters.measured_at
              → last_traffic_sample_for_node after.traffic_samples b_id
                ≡ expected_sample b_id counters last))
record_traffic_lem_example =
    record_traffic_lem b_id counters counters b_node noon cluster in_cluster taken new_totals
      old_totals

-- two more heartbeats within the minute
abbrev reports : List (TrafficCounters × Instant)
reports = (later_counters, half_past) ∷ (counters, half_past) ∷ []

one_sample_a_minute_example :
    (report_each b_id reports (record_traffic b_id counters noon cluster)).traffic_samples
    ≡ (record_traffic b_id counters noon cluster).traffic_samples
one_sample_a_minute_example =
    one_sample_a_minute b_id counters counters b_node noon cluster reports in_cluster taken due
      (λ e. cc e, omega arith) (omega arith, (omega arith, tt))

-- a sample of the last day, and one that is older
abbrev new_sample : TrafficSample
new_sample = record {
  node_id = b_id;
  at = 63_899_999_000_000_000_000;
  total_in_bytes = pos 1_000;
  total_out_bytes = pos 2_000;
  delta_in_bytes = pos 100;
  delta_out_bytes = pos 200;
  current_connections = pos 1;
}

abbrev old_sample : TrafficSample
old_sample = record new_sample { at = 63_800_000_000_000_000_000 }

abbrev sampled : ClusterState
sampled = record cluster { traffic_samples = old_sample ∷ new_sample ∷ [] }
