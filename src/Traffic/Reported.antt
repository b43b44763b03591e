-- ===== src/Traffic/Reported.antt =====
-- What recordTrafficLocked does to the nodes and to the rest of the state.
use mathlib.Core.Option
use frp_cluster.Base.{◌≡◌, refl, ap, sym, Option, none, some, Bool-cases, inl, inr, if◌then◌else◌}
use frp_cluster.Text.{Text, text_eq, text_eq_iff}
use frp_cluster.Dict.{get, get-adjust}
use frp_cluster.Types.{Instant, TrafficCounters, ServerNode, ClusterState}
use frp_cluster.Traffic.{normalize_traffic_counters, set_traffic, record_normalized, record_traffic}

-- the counters that a node reports, if it reports any
abbrev pub with_traffic : Option TrafficCounters → ServerNode → ServerNode
with_traffic none node = node
with_traffic (some traffic) node = set_traffic traffic node

get-record_normalized :
    (node_id j : Text) (t : Option TrafficCounters) (node : ServerNode) (now : Instant)
    (state : ClusterState)
    → get node_id state.nodes ≡ some node
    → get j (record_normalized node_id t (get node_id state.nodes) now state).nodes
      ≡ (if text_eq node_id j then some (with_traffic t node) else get j state.nodes)
unfolding record_normalized
get-record_normalized node_id j none node now state found = elim (Bool-cases (text_eq node_id j)) [
  | inl e ↦ rw (e, sym ((text_eq_iff node_id j).0 e)) found
  | inr e ↦ rw e refl
]
get-record_normalized node_id j (some t) node now state found =
    elim (Bool-cases (text_eq node_id j)) [
      | inl e ↦
          rw (found, get-adjust, e, sym ((text_eq_iff node_id j).0 e))
            (ap (Option.map (set_traffic t)) found)
      | inr e ↦ rw (found, get-adjust, e) refl
    ]

-- The nodes after recordTrafficLocked: the node's own entry carries the counters that it reported.
pub get-record_traffic :
    (node_id j : Text) (traffic : TrafficCounters) (node : ServerNode) (now : Instant)
    (state : ClusterState)
    → get node_id state.nodes ≡ some node
    → get j (record_traffic node_id traffic now state).nodes ≡ (
        if text_eq node_id j
        then some (with_traffic (normalize_traffic_counters traffic now) node)
        else get j state.nodes)
unfolding record_traffic
get-record_traffic node_id j traffic node now state found =
    get-record_normalized node_id j (normalize_traffic_counters traffic now) node now state found

-- A heartbeat's traffic concerns the nodes and the samples only.
pub record SameBesides (a b : ClusterState) : Type 0 where
  pub clients : a.clients ≡ b.clients
  pub proxies : a.proxies ≡ b.proxies
  pub tokens : a.tokens ≡ b.tokens
  pub events : a.events ≡ b.events
  pub config : a.config ≡ b.config

record_normalized-SameBesides :
    (node_id : Text) (t : Option TrafficCounters) (o : Option ServerNode) (now : Instant)
    (state : ClusterState)
    → SameBesides (record_normalized node_id t o now state) state
unfolding record_normalized
record_normalized-SameBesides node_id none o now state = record {
  clients = refl;
  proxies = refl;
  tokens = refl;
  events = refl;
  config = refl;
}
record_normalized-SameBesides node_id (some t) none now state = record {
  clients = refl;
  proxies = refl;
  tokens = refl;
  events = refl;
  config = refl;
}
record_normalized-SameBesides node_id (some t) (some node) now state = record {
  clients = refl;
  proxies = refl;
  tokens = refl;
  events = refl;
  config = refl;
}

pub record_traffic-SameBesides :
    (node_id : Text) (traffic : TrafficCounters) (now : Instant) (state : ClusterState)
    → SameBesides (record_traffic node_id traffic now state) state
unfolding record_traffic
record_traffic-SameBesides node_id traffic now state =
    record_normalized-SameBesides node_id (normalize_traffic_counters traffic now)
      (get node_id state.nodes) now state
