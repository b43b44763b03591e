-- ===== src/Nodes.antt =====
-- What a node asks of the control plane: HeartbeatNode, HeartbeatNodeWithRequest,
-- LeaveNode, AdminLeaveNode, leaveNode and validateNodeToken of internal/control/service.go.
pub mod Joining
pub mod Guards
pub mod Heartbeat
pub mod Offline
pub mod Leave
pub mod Join
use frp_cluster.Base.{
  Bool, true, false, not, ◌||◌, Option, none, some, List, [], ◌∷◌, ◌++◌, ℤ, pos, int_eq,
  if◌then◌else◌,
}
use frp_cluster.Text.{Text, str, text_eq, trim_space}
use frp_cluster.Dict.{Dict, get, put, adjust, map_values}
use frp_cluster.Ids.{
  sanitize_id, clean_list, normalize_control_url, merge_peer_urls, remove_peer_url,
}
use frp_cluster.Types.{
  Instant, is_zero, NetworkStatus, TrafficCounters, ClusterConfig, ServerNode, Client, Proxy,
  ClusterState, node_status_online, node_status_offline, client_status_offline, proxy_status_closed,
}
use frp_cluster.Requests.{
  JoinRequest, HeartbeatRequest, JoinResponse, Result, ok, err, node_not_found, node_token_required,
  node_token_mismatch, invalid_join_request, random_failed,
}
use frp_cluster.Network.{normalize_heartbeat_network, network_event_metadata}
use frp_cluster.Events.{add_event}
use frp_cluster.Store.{Env, Store, Exec, commit}
use frp_cluster.Counts.{recompute_node_counts}
use frp_cluster.Migrations.{apply_migration_recommendations}
use frp_cluster.Tokens.{new_random_token, consume_join_token}
use frp_cluster.Traffic.{record_traffic}

-- the zero values of `NetworkStatus` and `TrafficCounters`
abbrev pub no_network : NetworkStatus
no_network = record {
  latency_ms = pos 0;
  download_bandwidth_bps = pos 0;
  upload_bandwidth_bps = pos 0;
  observed_rx_bps = pos 0;
  observed_tx_bps = pos 0;
  bandwidth_bps = pos 0;
  score = pos 0;
  measured_at = 0;
  stale = false;
}

abbrev pub no_traffic : TrafficCounters
no_traffic = record {
  total_in_bytes = pos 0;
  total_out_bytes = pos 0;
  current_connections = pos 0;
  proxies = [];
  measured_at = 0;
}

unfoldable pub validate_node_token : ServerNode → Text → Result (Unit {0})
validate_node_token node token =
    if text_eq token []
    then err node_token_required
    else if not (text_eq node.node_token token)
    then err node_token_mismatch
    else ok tt

unfoldable pub touch_node : Text → Instant → ServerNode → ServerNode
touch_node status now node = record node { status = status; last_seen_at = now; updated_at = now }

-- a heartbeat without a measurement leaves the node's network as it is
unfoldable pub set_network : HeartbeatRequest → Instant → ServerNode → ServerNode
set_network r now node =
    let (network, measured) = normalize_heartbeat_network r node.network now in
    if measured then record node { network = network } else node

found_or : ServerNode → Option ServerNode → ServerNode
found_or node none = node
found_or node (some current) = current

-- the value behind the pointer that was read from the map before the state changed
unfoldable pub node_now : Text → ServerNode → ClusterState → ServerNode
unfolding found_or
node_now node_id node state = found_or node (get node_id state.nodes)

-- the node as it reports itself, and its sample
unfoldable pub heartbeat_reported : Text → HeartbeatRequest → Instant → ClusterState → ClusterState
heartbeat_reported node_id r now state = record_traffic node_id r.traffic now (record state {
  nodes =
      adjust node_id (λ node. set_network r now (touch_node node_status_online now node))
        state.nodes;
})

-- the state before the event
unfoldable pub heartbeat_state : Text → HeartbeatRequest → Instant → ClusterState → ClusterState
heartbeat_state node_id r now state =
    apply_migration_recommendations now
      (recompute_node_counts (heartbeat_reported node_id r now state))

unfoldable pub heartbeat_event : Text → ServerNode → Instant → ClusterState → ClusterState
heartbeat_event node_id node now state =
    add_event (str "node.heartbeat") (str "node " ++ node_id ++ str " heartbeat") node_id [] []
      (network_event_metadata (node_now node_id node state).network) now state

unfoldable pub heartbeat_valid :
    Result (Unit {0}) → ServerNode → Text → HeartbeatRequest → Exec ServerNode
heartbeat_valid (err e) node node_id r env s = (err e, s)
heartbeat_valid (ok _) node node_id r env s =
    let state = heartbeat_state node_id r env.now s.state in
    commit (node_now node_id node state) (heartbeat_event node_id node env.now state) env s

unfoldable pub heartbeat_found : Option ServerNode → Text → HeartbeatRequest → Exec ServerNode
heartbeat_found none node_id r env s = (err node_not_found, s)
heartbeat_found (some node) node_id r env s =
    heartbeat_valid (validate_node_token node r.node_token) node node_id r env s

unfoldable pub heartbeat_node_with_request : Text → HeartbeatRequest → Exec ServerNode
unfolding heartbeat_valid heartbeat_found
heartbeat_node_with_request id r env s =
    let node_id = sanitize_id id in heartbeat_found (get node_id s.state.nodes) node_id r env s

-- only a client of the node changes, and only a proxy on it
unfoldable pub take_offline : Text → Instant → Client → Client
take_offline node_id now client =
    if text_eq client.node_id node_id
    then record client { status = client_status_offline; updated_at = now }
    else client

unfoldable pub close_proxy : Text → Instant → Proxy → Proxy
close_proxy node_id now proxy =
    if text_eq proxy.node_id node_id
    then record proxy { status = proxy_status_closed; updated_at = now }
    else proxy

unfoldable pub leave_state : Text → Instant → ClusterState → ClusterState
leave_state node_id now state = apply_migration_recommendations now (
    recompute_node_counts (record state {
      nodes = adjust node_id (touch_node node_status_offline now) state.nodes;
      clients = map_values (take_offline node_id now) state.clients;
      proxies = map_values (close_proxy node_id now) state.proxies;
    }))

unfoldable pub leave_event : Text → Instant → ClusterState → ClusterState
leave_event node_id now state =
    add_event (str "node.left") (str "node " ++ node_id ++ str " left") node_id [] [] [] now state

-- an administrator's request has no token, and none is asked for
unfoldable pub check_leave : Bool → ServerNode → Text → Result (Unit {0})
check_leave require_token node token =
    if require_token || not (text_eq token []) then validate_node_token node token else ok tt

unfoldable pub leave_valid : Result (Unit {0}) → ServerNode → Text → Exec ServerNode
leave_valid (err e) node node_id env s = (err e, s)
leave_valid (ok _) node node_id env s =
    let state = leave_state node_id env.now s.state in
    commit (node_now node_id node state) (leave_event node_id env.now state) env s

unfoldable pub leave_found : Option ServerNode → Text → Text → Bool → Exec ServerNode
leave_found none node_id token require_token env s = (err node_not_found, s)
leave_found (some node) node_id token require_token env s =
    leave_valid (check_leave require_token node token) node node_id env s

unfoldable pub leave : Text → Text → Bool → Exec ServerNode
unfolding leave_valid leave_found
leave id token require_token env s =
    let node_id = sanitize_id id in
    leave_found (get node_id s.state.nodes) node_id token require_token env s

unfoldable pub leave_node : Text → Text → Exec ServerNode
unfolding leave
leave_node id token env s = leave id token true env s

unfoldable pub admin_leave_node : Text → Exec ServerNode
unfolding leave
admin_leave_node id env s = leave id [] false env s

-- `HeartbeatRequest{NodeToken: nodeToken}`, with the first of the networks if there is one
unfoldable pub token_request : Text → List NetworkStatus → HeartbeatRequest
token_request node_token networks = record {
  node_token = node_token;
  network = elim networks [ [] ↦ no_network | network ∷ _ ↦ network ];
  traffic = no_traffic;
  latency_ms = pos 0;
  download_bandwidth_bps = pos 0;
  upload_bandwidth_bps = pos 0;
  observed_rx_bps = pos 0;
  observed_tx_bps = pos 0;
  bandwidth_bps = pos 0;
}

unfoldable pub heartbeat_node : Text → Text → List NetworkStatus → Exec ServerNode
unfolding heartbeat_node_with_request token_request
heartbeat_node id node_token networks env s =
    heartbeat_node_with_request id (token_request node_token networks) env s
