-- ===== src/Examples.antt =====
-- A small cluster, on which the theorems are applied: two nodes, a client with a proxy and a join
-- token.
mod Network
mod Selection
mod Nodes
mod Clients
mod Traffic
mod Config
mod Files
mod Api
use frp_cluster.Base.{true, false, none, some, List, [], ◌∷◌, ℤ, pos}
use frp_cluster.Text.{Text, str}
use frp_cluster.Types.{
  Instant, NetworkStatus, ServerNode, Client, Proxy, JoinToken, TrafficCounters, ClusterState,
  ClusterConfig, node_status_online, client_status_online, proxy_status_online,
}
use frp_cluster.Requests.{JoinRequest, HeartbeatRequest}
use frp_cluster.Store.{Env, Store, saved, empty_disk}
use frp_cluster.Nodes.{no_network, no_traffic}

-- the names of the nodes, the client, the token, the secret and a new node
abbrev pub a_id : Text
a_id = b'a' ∷ []

abbrev pub b_id : Text
b_id = b'b' ∷ []

abbrev pub c_id : Text
c_id = b'c' ∷ []

abbrev pub t_id : Text
t_id = b't' ∷ []

abbrev pub s_id : Text
s_id = b's' ∷ []

abbrev pub d_id : Text
d_id = b'd' ∷ []

abbrev pub noon : Instant
noon = 63_900_000_000_000_000_000

-- a link of 10 ms and 200 Mbps, measured at noon
abbrev pub fast_link : NetworkStatus
fast_link = record {
  latency_ms = pos 10;
  download_bandwidth_bps = pos 200_000_000;
  upload_bandwidth_bps = pos 300_000_000;
  observed_rx_bps = pos 0;
  observed_tx_bps = pos 0;
  bandwidth_bps = pos 200_000_000;
  score = pos 92;
  measured_at = noon;
  stale = false;
}

abbrev pub with_link : ℤ → ℤ → NetworkStatus
with_link latency bandwidth = record {
  latency_ms = latency;
  download_bandwidth_bps = pos 0;
  upload_bandwidth_bps = pos 0;
  observed_rx_bps = pos 0;
  observed_tx_bps = pos 0;
  bandwidth_bps = bandwidth;
  score = pos 0;
  measured_at = noon;
  stale = false;
}

abbrev pub a_node : ServerNode
a_node = record {
  id = a_id;
  name = a_id;
  public_addr = a_id;
  control_url = [];
  bind_port = pos 7000;
  vhost_http_port = pos 0;
  vhost_https_port = pos 0;
  region = [];
  tags = [];
  status = node_status_online;
  node_token = s_id;
  client_count = pos 1;
  proxy_count = pos 1;
  network = no_network;
  traffic = no_traffic;
  joined_at = noon;
  last_seen_at = noon;
  updated_at = noon;
}

abbrev pub b_node : ServerNode
b_node = record a_node {
  id = b_id;
  name = b_id;
  client_count = pos 0;
  proxy_count = pos 0;
  network = fast_link;
}

abbrev pub c_client : Client
c_client = record {
  id = c_id;
  user = c_id;
  status = client_status_online;
  node_id = a_id;
  preferred_node_id = [];
  migration_state = [];
  migration_reason = [];
  migration_updated_at = 0;
  remote_addr = [];
  proxy_count = pos 1;
  first_seen_at = noon;
  last_seen_at = noon;
  updated_at = noon;
}

abbrev pub p_proxy : Proxy
p_proxy = record {
  id = d_id;
  name = d_id;
  type = d_id;
  client_id = c_id;
  user = c_id;
  node_id = a_id;
  status = proxy_status_online;
  remote_port = pos 6000;
  created_at = noon;
  updated_at = noon;
}

abbrev pub t_token : JoinToken
t_token = record {
  token = t_id;
  uses_left = pos 1;
  expires_at = 63_900_000_000_000_000_001;
  created_at = noon;
  used_by = [];
}

abbrev pub config : ClusterConfig
config = record {
  name = a_id;
  auth_token = s_id;
  dashboard_port = pos 7500;
  plugin_path = [];
  plugin_ops = [];
  auto_migration = some true;
  migration_score_gap = pos 15;
  public_entry_host = [];
  dns_update_hook = [];
  public_control_url = [];
  peer_urls = [];
}

abbrev pub cluster : ClusterState
cluster = record {
  config = config;
  nodes = (a_id, a_node) ∷ (b_id, b_node) ∷ [];
  clients = (c_id, c_client) ∷ [];
  proxies = (d_id, p_proxy) ∷ [];
  tokens = (t_id, t_token) ∷ [];
  events = [];
  switch_metrics = [];
  traffic_samples = [];
}

abbrev pub env : Env
env = record { now = noon; random = some s_id; saving = saved }

abbrev pub store : Store
store = record { path = d_id; state = cluster; disk = empty_disk }

abbrev pub beat : HeartbeatRequest
beat = record {
  node_token = s_id;
  network = fast_link;
  traffic = no_traffic;
  latency_ms = pos 0;
  download_bandwidth_bps = pos 0;
  upload_bandwidth_bps = pos 0;
  observed_rx_bps = pos 0;
  observed_tx_bps = pos 0;
  bandwidth_bps = pos 0;
}

abbrev pub join_request : JoinRequest
join_request = record {
  token = t_id;
  node_id = d_id;
  name = [];
  public_addr = d_id;
  control_url = [];
  bind_port = pos 0;
  vhost_http_port = pos 0;
  vhost_https_port = pos 0;
  region = [];
  tags = [];
}
