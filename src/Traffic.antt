-- ===== src/Traffic.antt =====
-- Traffic counters and their samples: internal/control/traffic.go.
pub mod Reported
pub mod Series
pub mod Totals
pub mod Record
pub mod Samples
use frp_cluster.Base.{
  ℕ, ◌+◌, ◌/◌, Bool, true, false, not, ◌&&◌, ◌||◌, Option, none, some, List, [], ◌∷◌, ◌++◌, map, ℤ,
  pos, sub_ℕ, int_eq, int_lt, int_le, sub64, add64, ltb, ◌==◌, filter, if◌then◌else◌,
}
use frp_cluster.Sort.{sort_by}
use frp_cluster.Text.{Text, text_eq, text_lt, to_lower, trim_space, int_text}
use frp_cluster.Dict.{Dict, get, put, adjust, values}
use frp_cluster.Types.{
  Instant, is_zero, elapsed_more, ProxyTraffic, TrafficCounters, TrafficSample, ServerNode,
  ClusterState,
}
use frp_cluster.Network.{non_negative}
use frp_cluster.Events.{last_n, unix_epoch}

-- a minute, seven days and the longest list of samples
abbrev pub traffic_sample_interval : ℕ
traffic_sample_interval = 60_000_000_000

abbrev pub traffic_retention : ℕ
traffic_retention = 604_800_000_000_000

abbrev pub max_traffic_samples : ℕ
max_traffic_samples = 100_000

unfoldable is_empty : List ProxyTraffic → Bool
is_empty [] = true
is_empty (p ∷ ps) = false

unfoldable pub normalize_proxy_traffic : ProxyTraffic → ProxyTraffic
normalize_proxy_traffic p = record {
  name = trim_space p.name;
  type = trim_space (to_lower p.type);
  client_id = trim_space p.client_id;
  total_in_bytes = non_negative p.total_in_bytes;
  total_out_bytes = non_negative p.total_out_bytes;
  current_connections = non_negative p.current_connections;
  status = trim_space p.status;
}

-- by type, then by name
unfoldable pub proxy_traffic_less : ProxyTraffic → ProxyTraffic → Bool
proxy_traffic_less a b =
    if not (text_eq a.type b.type) then text_lt a.type b.type else text_lt a.name b.name

unfoldable pub has_no_traffic : TrafficCounters → Bool
unfolding is_empty
has_no_traffic t =
    is_zero t.measured_at
    && int_eq t.total_in_bytes (pos 0)
    && int_eq t.total_out_bytes (pos 0)
    && int_eq t.current_connections (pos 0)
    && is_empty t.proxies

-- `none` where the counters hold nothing
unfoldable pub normalize_traffic_counters : TrafficCounters → Instant → Option TrafficCounters
normalize_traffic_counters t now =
    if has_no_traffic t
    then none
    else some (record {
      total_in_bytes = non_negative t.total_in_bytes;
      total_out_bytes = non_negative t.total_out_bytes;
      current_connections = non_negative t.current_connections;
      proxies = sort_by proxy_traffic_less (map normalize_proxy_traffic t.proxies);
      measured_at = if is_zero t.measured_at then now else t.measured_at;
    })

abbrev pub no_sample : TrafficSample
no_sample = record {
  node_id = [];
  at = 0;
  total_in_bytes = pos 0;
  total_out_bytes = pos 0;
  delta_in_bytes = pos 0;
  delta_out_bytes = pos 0;
  current_connections = pos 0;
}

-- the last sample of the node in the list, or the zero sample
unfoldable last_from : TrafficSample → List TrafficSample → Text → TrafficSample
last_from found [] node_id = found
last_from found (sample ∷ samples) node_id =
    last_from (if text_eq sample.node_id node_id then sample else found) samples node_id

unfoldable pub last_traffic_sample_for_node : List TrafficSample → Text → TrafficSample
unfolding last_from
last_traffic_sample_for_node samples node_id = last_from no_sample samples node_id

unfoldable pub positive_delta : ℤ → ℤ → ℤ
positive_delta previous current = if int_le current previous then pos 0 else sub64 current previous

-- dated, and not older than the retention
unfoldable pub is_kept : Instant → TrafficSample → Bool
is_kept now sample = not (is_zero sample.at || elapsed_more now sample.at traffic_retention)

unfoldable pub prune_traffic_samples : Instant → List TrafficSample → List TrafficSample
prune_traffic_samples now samples = last_n max_traffic_samples (filter (is_kept now) samples)

unfoldable pub new_sample : Text → TrafficCounters → TrafficSample → TrafficSample
new_sample node_id traffic previous = record {
  node_id = node_id;
  at = traffic.measured_at;
  total_in_bytes = traffic.total_in_bytes;
  total_out_bytes = traffic.total_out_bytes;
  delta_in_bytes =
      if is_zero previous.at
      then pos 0
      else positive_delta previous.total_in_bytes traffic.total_in_bytes;
  delta_out_bytes =
      if is_zero previous.at
      then pos 0
      else positive_delta previous.total_out_bytes traffic.total_out_bytes;
  current_connections = traffic.current_connections;
}

-- `!previous.At.IsZero() && now.Sub(previous.At) < trafficSampleInterval`
unfoldable pub is_too_early : Instant → TrafficSample → Bool
is_too_early now previous =
    not (is_zero previous.at) && ltb now (previous.at + traffic_sample_interval)

unfoldable pub add_sample :
    Text → TrafficCounters → Instant → List TrafficSample → List TrafficSample
add_sample node_id traffic now samples =
    let previous = last_traffic_sample_for_node samples node_id in
    if is_too_early now previous
    then samples
    else prune_traffic_samples now (samples ++ new_sample node_id traffic previous ∷ [])

unfoldable pub set_traffic : TrafficCounters → ServerNode → ServerNode
set_traffic traffic node = record node { traffic = traffic }

unfoldable pub record_normalized :
    Text → Option TrafficCounters → Option ServerNode → Instant → ClusterState → ClusterState
record_normalized node_id none _ now state = state
record_normalized node_id (some traffic) none now state = state
record_normalized node_id (some traffic) (some node) now state = record state {
  nodes = adjust node_id (set_traffic traffic) state.nodes;
  traffic_samples = add_sample node_id traffic now state.traffic_samples;
}

unfoldable pub record_traffic : Text → TrafficCounters → Instant → ClusterState → ClusterState
unfolding record_normalized
record_traffic node_id traffic now state =
    record_normalized node_id (normalize_traffic_counters traffic now) (get node_id state.nodes) now
      state

-- `sample.At.Unix()`
unfoldable pub unix_seconds : Instant → ℤ
unix_seconds t = sub_ℕ (t / 1_000_000_000) (unix_epoch / 1_000_000_000)

-- a sample's key: its node and its second
unfoldable pub sample_key : TrafficSample → Text
sample_key sample = sample.node_id ++ 0 ∷ int_text (unix_seconds sample.at)

is_newer : TrafficSample → Option TrafficSample → Bool
is_newer sample none = true
is_newer sample (some existing) = ltb existing.at sample.at

-- the loop that gathers the samples by key
unfoldable pub samples_by_key :
    Instant → List TrafficSample → Dict TrafficSample → Dict TrafficSample
unfolding is_newer
samples_by_key now [] m = m
samples_by_key now (sample ∷ samples) m = samples_by_key now samples (
    if text_eq sample.node_id [] || not (is_kept now sample)
    then m
    else if is_newer sample (get (sample_key sample) m)
    then put (sample_key sample) sample m
    else m)

-- by time, then by node
unfoldable pub sample_less : TrafficSample → TrafficSample → Bool
sample_less a b = if a.at == b.at then text_lt a.node_id b.node_id else ltb a.at b.at

unfoldable pub merge_traffic_samples :
    List TrafficSample → List TrafficSample → Instant → List TrafficSample
merge_traffic_samples local remote now =
    last_n max_traffic_samples
      (sort_by sample_less (values (samples_by_key now (local ++ remote) [])))
