-- ===== src/Nodes/Joining.antt =====
-- Joining: JoinNode of internal/control/service.go.
use frp_cluster.Base.{◌||◌, Option, none, some, [], ◌∷◌, ◌++◌, pos, int_eq, if◌then◌else◌}
use frp_cluster.Text.{Text, str, text_eq, trim_space}
use frp_cluster.Dict.{get, put}
use frp_cluster.Ids.{
  sanitize_id, clean_list, normalize_control_url, merge_peer_urls, remove_peer_url,
}
use frp_cluster.Types.{
  Instant, is_zero, ClusterConfig, ServerNode, ClusterState, node_status_online,
}
use frp_cluster.Requests.{
  JoinRequest, JoinResponse, Result, ok, err, invalid_join_request, random_failed,
}
use frp_cluster.Events.{add_event}
use frp_cluster.Store.{Exec, commit}
use frp_cluster.Tokens.{new_random_token, consume_join_token}
use frp_cluster.Nodes.{no_traffic, no_network}

-- the request's identifiers and addresses, before they are tested
unfoldable pub clean_join_request : JoinRequest → JoinRequest
clean_join_request r = record r {
  node_id = sanitize_id r.node_id;
  name = trim_space r.name;
  public_addr = trim_space r.public_addr;
  control_url = normalize_control_url r.control_url;
}

-- what the request leaves out
unfoldable pub fill_join_request : JoinRequest → JoinRequest
fill_join_request r = record r {
  bind_port = if int_eq r.bind_port (pos 0) then pos 7000 else r.bind_port;
  name = if text_eq r.name [] then r.node_id else r.name;
}

unfoldable pub new_node : JoinRequest → Text → Instant → ServerNode
new_node r node_token now = record {
  id = r.node_id;
  name = r.name;
  public_addr = r.public_addr;
  control_url = r.control_url;
  bind_port = r.bind_port;
  vhost_http_port = r.vhost_http_port;
  vhost_https_port = r.vhost_https_port;
  region = trim_space r.region;
  tags = clean_list r.tags;
  status = node_status_online;
  node_token = node_token;
  client_count = pos 0;
  proxy_count = pos 0;
  network = no_network;
  traffic = no_traffic;
  joined_at = now;
  last_seen_at = now;
  updated_at = now;
}

-- what a node that joins again keeps
unfoldable pub keep_existing : Option ServerNode → ServerNode → ServerNode
keep_existing none node = node
keep_existing (some existing) node = record node {
  client_count = existing.client_count;
  proxy_count = existing.proxy_count;
  joined_at = if is_zero existing.joined_at then node.joined_at else existing.joined_at;
}

unfoldable pub add_peer : Text → ClusterConfig → ClusterConfig
add_peer control_url config = if text_eq control_url [] then config else record config {
  peer_urls =
      remove_peer_url (merge_peer_urls config.peer_urls (control_url ∷ []))
        config.public_control_url;
}

unfoldable pub joined_node : JoinRequest → Text → Instant → ClusterState → ServerNode
joined_node r node_token now state =
    keep_existing (get r.node_id state.nodes) (new_node r node_token now)

-- the state after the node is let in
unfoldable pub let_in : JoinRequest → Text → Instant → ClusterState → ClusterState
let_in r node_token now state =
    add_event (str "node.joined") (str "node " ++ r.node_id ++ str " joined") r.node_id [] [] [] now
      (record state {
        nodes = put r.node_id (joined_node r node_token now state) state.nodes;
        config = add_peer r.control_url state.config;
      })

unfoldable pub join_response : JoinRequest → Text → ServerNode → JoinResponse
join_response r node_token node = record {
  node = node;
  node_token = node_token;
  frps_config_url = str "/api/v1/config/frps?node_id=" ++ r.node_id;
}

-- after the join token was taken, or refused
unfoldable pub join_admitted :
    JoinRequest → Text → Result (Unit {0}) × ClusterState → Exec JoinResponse
join_admitted r node_token (err e, state) env s = (err e, record s { state = state })
join_admitted r node_token (ok _, state) env s =
    commit (join_response r node_token (joined_node r node_token env.now state))
      (let_in r node_token env.now state) env s

unfoldable pub join_with : JoinRequest → Option Text → Exec JoinResponse
join_with r none env s = (err random_failed, s)
join_with r (some node_token) env s =
    join_admitted r node_token (consume_join_token r.token r.node_id env.now s.state) env s

unfoldable pub join_node : JoinRequest → Exec JoinResponse
unfolding join_admitted join_with
join_node request env s =
    let r = clean_join_request request in
    if text_eq r.node_id [] || text_eq r.public_addr []
    then (err invalid_join_request, s)
    else join_with (fill_join_request r) (new_random_token (str "node") env.random) env s
