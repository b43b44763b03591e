-- ===== src/Run/Bounds.antt =====
-- The log and the samples stay within their limits.
use frp_cluster.Base.{
  ◌≤◌, not, Option, none, some, List, [], ◌∷◌, ◌++◌, ℤ, length, inl, inr, Bool-cases, ◌||◌,
}
use frp_cluster.Text.{Text, text_eq}
use frp_cluster.Dict.{Dict, get}
use frp_cluster.Types.{
  Instant, TrafficCounters, TrafficSample, ServerNode, Client, Event, ClusterState,
  client_status_online,
}
use frp_cluster.Events.{max_events, append_event, add_event}
use frp_cluster.Events.Log.{length-last_n}
use frp_cluster.Selection.{online_nodes, sort_nodes_by_preference}
use frp_cluster.Migrations.{
  auto_migration_off, online_by_id, score_gap_or_default, advise, migrate_client, migrate_clients,
  migrate_to_best, should_migrate, is_new_advice, migration_reason, apply_migration_recommendations,
}
use frp_cluster.Migrations.Pass.{apply_when_on, apply_when_off}
use frp_cluster.Traffic.{
  max_traffic_samples, last_traffic_sample_for_node, is_too_early, new_sample, add_sample,
  record_normalized, normalize_traffic_counters, record_traffic,
}
use frp_cluster.Traffic.Samples.{prune_traffic_samples_lem}

abbrev pub EventsBounded : List Event → Type 0
EventsBounded events = length events ≤ max_events

abbrev pub SamplesBounded : List TrafficSample → Type 0
SamplesBounded samples = length samples ≤ max_traffic_samples

pub add_event-bounded :
    (t message n c p : Text) (metadata : Dict Text) (now : Instant) (state : ClusterState)
    → EventsBounded (add_event t message n c p metadata now state).events
unfolding add_event append_event
add_event-bounded t message n c p metadata now state = length-last_n max_events _

module _ (best : ServerNode) (online : Dict ServerNode) (gap : ℤ) (now : Instant) where
  advise-bounded :
      (current : Option ServerNode) (c : Client) (events : List Event)
      → EventsBounded events
      → EventsBounded (advise best current gap now c events).1
  unfolding advise append_event
  advise-bounded current c events h = elim (Bool-cases (should_migrate best current gap)) [
    | inl move ↦
        elim (Bool-cases (is_new_advice best (migration_reason best current c.node_id) c)) [
          | inl new ↦ rw (move, new) (length-last_n max_events _)
          | inr old ↦ rw (move, old) h
        ]
    | inr stay ↦ rw stay h
  ]

  migrate_client-bounded :
      (c : Client) (events : List Event)
      → EventsBounded events
      → EventsBounded (migrate_client best online gap now c events).1
  unfolding migrate_client
  migrate_client-bounded c events h =
      elim (Bool-cases (not (text_eq c.status client_status_online) || text_eq c.node_id [])) [
        | inl skip ↦ rw skip h
        | inr active ↦ rw active (advise-bounded (get c.node_id online) c events h)
      ]

  migrate_clients-bounded :
      (clients : Dict Client) (events : List Event)
      → EventsBounded events
      → EventsBounded (migrate_clients best online gap now clients events).1
  unfolding migrate_clients
  migrate_clients-bounded [] events h = h
  migrate_clients-bounded ((id, c) ∷ m) events h =
      migrate_clients-bounded m (migrate_client best online gap now c events).1
        (migrate_client-bounded c events h)

migrate_to_best-bounded :
    (nodes : List ServerNode) (now : Instant) (state : ClusterState)
    → EventsBounded state.events
    → EventsBounded (migrate_to_best nodes now state).events
unfolding migrate_to_best
migrate_to_best-bounded [] now state h = h
migrate_to_best-bounded (best ∷ nodes) now state h =
    migrate_clients-bounded best (online_by_id (best ∷ nodes) [])
      (score_gap_or_default state.config.migration_score_gap) now state.clients state.events h

pub apply-bounded :
    (now : Instant) (state : ClusterState)
    → EventsBounded state.events
    → EventsBounded (apply_migration_recommendations now state).events
apply-bounded now state h = elim (Bool-cases (auto_migration_off state.config)) [
  | inl off ↦ rw (apply_when_off now state off) h
  | inr on ↦ rw (apply_when_on now state on) (
      migrate_to_best-bounded (sort_nodes_by_preference (online_nodes state.nodes now)) now state h)
]

add_sample-bounded :
    (id : Text) (t : TrafficCounters) (now : Instant) (samples : List TrafficSample)
    → SamplesBounded samples
    → SamplesBounded (add_sample id t now samples)
unfolding add_sample
add_sample-bounded id t now samples h =
    let last = last_traffic_sample_for_node samples id in
    elim (Bool-cases (is_too_early now last)) [
      | inl early ↦ rw early h
      | inr due ↦ rw due (prune_traffic_samples_lem now (samples ++ new_sample id t last ∷ [])).1
    ]

pub samples-record_normalized :
    (id : Text) (t : Option TrafficCounters) (o : Option ServerNode) (now : Instant)
    (state : ClusterState)
    → SamplesBounded state.traffic_samples
    → SamplesBounded (record_normalized id t o now state).traffic_samples
unfolding record_normalized
samples-record_normalized id none o now state h = h
samples-record_normalized id (some t) none now state h = h
samples-record_normalized id (some t) (some node) now state h =
    add_sample-bounded id t now state.traffic_samples h

pub samples-record_traffic :
    (id : Text) (traffic : TrafficCounters) (now : Instant) (state : ClusterState)
    → SamplesBounded state.traffic_samples
    → SamplesBounded (record_traffic id traffic now state).traffic_samples
unfolding record_traffic
samples-record_traffic id traffic now state h =
    samples-record_normalized id (normalize_traffic_counters traffic now) (get id state.nodes) now
      state h
