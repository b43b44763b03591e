-- ===== src/Run/Sound.antt =====
-- A sound state, and what every operation ends with.

use frp_cluster.Text.{Text}
use frp_cluster.Dict.{Dict}
use frp_cluster.Types.{Instant, ClusterState}
use frp_cluster.Events.{add_event}
use frp_cluster.Store.{Env, Store, commit}
use frp_cluster.Store.Saving.{state-commit}
use frp_cluster.Counts.{recompute_node_counts}
use frp_cluster.Migrations.{apply_migration_recommendations}
use frp_cluster.Migrations.Keeps.{apply-SameMaps}
use frp_cluster.Run.Keys.{IsKeyed, recompute-IsKeyed, apply-IsKeyed}
use frp_cluster.Run.Bounds.{EventsBounded, SamplesBounded, add_event-bounded, apply-bounded}

-- every map is keyed by identifier, and the log and the samples are within their limits
pub record IsSound (state : ClusterState) : Type 0 where
  pub keyed : IsKeyed state
  pub events : EventsBounded state.events
  pub samples : SamplesBounded state.traffic_samples

-- An operation's new state is sound, saved or not.
pub commit-IsSound :
    {A : Type 0} (a : A) (state : ClusterState) (env : Env) (s : Store)
    → IsSound state
    → IsSound (commit a state env s).1.state
commit-IsSound a state env s h = rw (state-commit a state env s) h

-- what each operation ends with: the counts, the migrations and the event
pub settle-IsSound :
    (now : Instant) (state : ClusterState)
    → IsSound state
    → IsSound (apply_migration_recommendations now (recompute_node_counts state))
unfolding recompute_node_counts
settle-IsSound now state h =
    let counted = recompute_node_counts state in
    record {
      keyed = apply-IsKeyed now counted (recompute-IsKeyed state h.keyed);
      events = apply-bounded now counted h.events;
      samples = rw ((apply-SameMaps now counted).traffic_samples) h.samples;
    }

pub add_event-IsSound :
    (t message n c p : Text) (metadata : Dict Text) (now : Instant) (state : ClusterState)
    → IsKeyed state
    → SamplesBounded state.traffic_samples
    → IsSound (add_event t message n c p metadata now state)
unfolding add_event
add_event-IsSound t message n c p metadata now state keyed samples = record {
  keyed = record { nodes = keyed.nodes; clients = keyed.clients; proxies = keyed.proxies };
  events = add_event-bounded t message n c p metadata now state;
  samples = samples;
}
