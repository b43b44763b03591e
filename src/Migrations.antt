-- ===== src/Migrations.antt =====
-- applyMigrationRecommendationsLocked of internal/control/service.go: which clients should move
-- to the best node.
pub mod Condition
pub mod Advice
pub mod Pass
pub mod Keeps
use frp_cluster.Base.{
  ℕ, Bool, true, false, not, ◌&&◌, ◌||◌, Option, none, some, List, [], ◌∷◌, ◌++◌, ℤ, pos, ◌-ℤ◌,
  int_le, if◌then◌else◌,
}
use frp_cluster.Text.{Text, str, text_eq, int_text}
use frp_cluster.Dict.{Dict, get, put}
use frp_cluster.Types.{
  Instant, ServerNode, Client, Event, ClusterConfig, ClusterState, client_status_online,
  migration_state_pending,
}
use frp_cluster.Selection.{online_nodes, sort_nodes_by_preference}
use frp_cluster.Events.{append_event, new_event}

-- `s.state.Config.AutoMigration != nil && !*s.state.Config.AutoMigration`
is_off : Option Bool → Bool
is_off none = false
is_off (some enabled) = not enabled

unfoldable pub auto_migration_off : ClusterConfig → Bool
unfolding is_off
auto_migration_off config = is_off config.auto_migration

-- the map from identifiers to the online nodes
unfoldable pub online_by_id : List ServerNode → Dict ServerNode → Dict ServerNode
online_by_id [] m = m
online_by_id (node ∷ nodes) m = online_by_id nodes (put node.id node m)

unfoldable pub score_gap_or_default : ℤ → ℤ
score_gap_or_default gap = if int_le gap (pos 0) then pos 15 else gap

-- `!currentOnline || (best.ID != current.ID && best.Score-current.Score >= scoreGap)`
unfoldable pub should_migrate : ServerNode → Option ServerNode → ℤ → Bool
should_migrate best none gap = true
should_migrate best (some current) gap =
    not (text_eq best.id current.id) && int_le gap (best.network.score -ℤ current.network.score)

unfoldable pub migration_reason : ServerNode → Option ServerNode → Text → Text
migration_reason best none node_id =
    str "prefer node " ++ best.id ++ str " because current node " ++ node_id ++ str " is offline"
migration_reason best (some current) node_id =
    str "prefer node "
    ++ best.id
    ++ str " score="
    ++ int_text best.network.score
    ++ str " over "
    ++ node_id
    ++ str " score="
    ++ int_text current.network.score

unfoldable pub recommend : ServerNode → Text → Instant → Client → Client
recommend best reason now client = record client {
  preferred_node_id = best.id;
  migration_state = migration_state_pending;
  migration_reason = reason;
  migration_updated_at = now;
  updated_at = now;
}

-- the recommendation is not there yet
unfoldable pub is_new_advice : ServerNode → Text → Client → Bool
is_new_advice best reason client =
    not (text_eq client.preferred_node_id best.id)
    || not (text_eq client.migration_state migration_state_pending)
    || not (text_eq client.migration_reason reason)

unfoldable pub has_advice : Client → Bool
has_advice client =
    not (text_eq client.preferred_node_id [])
    || not (text_eq client.migration_state [])
    || not (text_eq client.migration_reason [])

unfoldable pub withdraw : Instant → Client → Client
withdraw now client = record client {
  preferred_node_id = [];
  migration_state = [];
  migration_reason = [];
  migration_updated_at = 0;
  updated_at = now;
}

unfoldable pub recommended_event : ServerNode → Text → Instant → Client → Event
unfolding new_event
recommended_event best reason now client =
    new_event (str "client.migration_recommended")
      (str "client " ++ client.id ++ str " should migrate to " ++ best.id) best.id client.id []
      ((str "from_node", client.node_id) ∷ (str "to_node", best.id) ∷ (str "reason", reason) ∷ [])
      now

-- the part of the loop's body after its first test
unfoldable pub advise :
    ServerNode → Option ServerNode → ℤ → Instant → Client → List Event → Client × List Event
advise best current gap now client events =
    let reason = migration_reason best current client.node_id in
    if should_migrate best current gap
    then if is_new_advice best reason client
      then (
        recommend best reason now client,
        append_event events (recommended_event best reason now client),
      )
      else (client, events)
    else (if has_advice client then withdraw now client else client, events)

-- the body of the loop over the clients
unfoldable pub migrate_client :
    ServerNode → Dict ServerNode → ℤ → Instant → Client → List Event → Client × List Event
migrate_client best online gap now client events =
    if not (text_eq client.status client_status_online) || text_eq client.node_id []
    then (client, events)
    else advise best (get client.node_id online) gap now client events

unfoldable pub migrate_clients :
    ServerNode → Dict ServerNode → ℤ → Instant → Dict Client → List Event → Dict Client × List Event
migrate_clients best online gap now [] events = ([], events)
migrate_clients best online gap now ((id, client) ∷ clients) events =
    let (client', events') = migrate_client best online gap now client events in
    let (clients', events'') = migrate_clients best online gap now clients events' in
    ((id, client') ∷ clients', events'')

-- what happens once the online nodes are sorted
unfoldable pub migrate_to_best : List ServerNode → Instant → ClusterState → ClusterState
migrate_to_best [] now state = state
migrate_to_best (best ∷ nodes) now state =
    let gap = score_gap_or_default state.config.migration_score_gap in
    let (clients, events) =
      migrate_clients best (online_by_id (best ∷ nodes) []) gap now state.clients state.events in
    record state { clients = clients; events = events }

unfoldable pub apply_migration_recommendations : Instant → ClusterState → ClusterState
unfolding auto_migration_off
apply_migration_recommendations now state =
    if auto_migration_off state.config
    then state
    else migrate_to_best (sort_nodes_by_preference (online_nodes state.nodes now)) now state
