-- ===== src/Snapshot.antt =====
-- The view of the state for the interface: Snapshot and PeerURLs of internal/control/store.go.
-- RawState stands with the merge of peers, whose normalisation it applies.
pub mod Hides
use frp_cluster.Base.{
  ℕ, suc, ◌+◌, Bool, true, false, not, ◌&&◌, Option, none, some, List, [], ◌∷◌, ◌++◌, map, ℤ, pos,
  int_lt, ltb, length, take, filter, count_if, if◌then◌else◌,
}
use frp_cluster.Sort.{sort_by}
use frp_cluster.Text.{Text, text_eq, text_lt}
use frp_cluster.Dict.{Dict, get, put, values}
use frp_cluster.Types.{
  Instant, elapsed_more, ServerNode, Client, Proxy, JoinToken, Event, MonthlySwitch, ClusterConfig,
  ClusterState, node_status_online, node_status_offline, client_status_online,
  client_status_offline, proxy_status_online, proxy_status_closed,
}
use frp_cluster.Network.{refresh_network_status}
use frp_cluster.Selection.{node_timeout}
use frp_cluster.Events.{current_month}

pub record ClusterSummary : Type 0 where
  pub online_nodes : ℤ
  pub offline_nodes : ℤ
  pub online_clients : ℤ
  pub online_proxies : ℤ
  pub available_ports : ℤ
  pub switches_this_month : ℤ

pub record ClientView : Type 0 where
  pub client : Client
  pub proxies : List Proxy

pub record ClusterSnapshot : Type 0 where
  pub config : ClusterConfig
  pub nodes : List ServerNode
  pub clients : List ClientView
  pub proxies : List Proxy
  pub tokens : List JoinToken
  pub events : List Event
  pub summary : ClusterSummary
  pub switch_metrics : List MonthlySwitch

unfoldable pub is_online : ServerNode → Bool
is_online node = text_eq node.status node_status_online

-- A node that was not seen lately is shown as offline, and none with its token.
unfoldable pub view_node : Instant → ServerNode → ServerNode
unfolding is_online
view_node now node = record node {
  status =
      if is_online node && elapsed_more now node.last_seen_at node_timeout
      then node_status_offline
      else node.status;
  network = refresh_network_status node.network now;
  node_token = [];
}

unfoldable pub mark_online : List ServerNode → Dict Bool → Dict Bool
unfolding is_online
mark_online [] online = online
mark_online (node ∷ nodes) online = mark_online nodes (put node.id (is_online node) online)

-- `nodeOnline[id]`
unfoldable or_false : Option Bool → Bool
or_false none = false
or_false (some b) = b

unfoldable pub node_online : Text → Dict Bool → Bool
unfolding or_false
node_online node_id online = or_false (get node_id online)

unfoldable pub view_proxy : Dict Bool → Proxy → Proxy
unfolding node_online
view_proxy online proxy = record proxy {
  status = if node_online proxy.node_id online then proxy.status else proxy_status_closed;
}

unfoldable pub proxy_less : Proxy → Proxy → Bool
proxy_less a b =
    if not (text_eq a.node_id b.node_id) then text_lt a.node_id b.node_id else text_lt a.name b.name

-- `proxiesByClient[id]`, sorted
unfoldable pub proxies_of : Text → List Proxy → List Proxy
unfolding proxy_less
proxies_of client_id proxies =
    sort_by proxy_less (filter (λ (p : Proxy). text_eq p.client_id client_id) proxies)

unfoldable pub view_client : Dict Bool → List Proxy → Client → ClientView
unfolding node_online proxies_of
view_client online proxies client = record {
  client = record client {
    status = if node_online client.node_id online then client.status else client_status_offline;
  };
  proxies = proxies_of client.id proxies;
}

-- a join token that still lets a node in
unfoldable pub is_usable : Instant → JoinToken → Bool
is_usable now token = ltb now token.expires_at && int_lt (pos 0) token.uses_left

abbrev pub shown_events : ℕ
shown_events = 100

unfoldable pub is_client_online : ClientView → Bool
is_client_online view = text_eq view.client.status client_status_online

unfoldable pub is_proxy_online : Proxy → Bool
is_proxy_online proxy = text_eq proxy.status proxy_status_online

-- the last one of the month, if a month were there twice
unfoldable pub switches_in : Text → List MonthlySwitch → ℤ → ℤ
switches_in month [] count = count
switches_in month (metric ∷ metrics) count =
    switches_in month metrics (if text_eq metric.month month then metric.count else count)

unfoldable pub summary_of :
    List ServerNode → List ClientView → List Proxy → List MonthlySwitch → Instant → ClusterSummary
unfolding is_online is_client_online is_proxy_online switches_in
summary_of nodes clients proxies metrics now = record {
  online_nodes = pos (count_if is_online nodes);
  offline_nodes = pos (count_if (λ node. not (is_online node)) nodes);
  online_clients = pos (count_if is_client_online clients);
  online_proxies = pos (count_if is_proxy_online proxies);
  available_ports = pos (length nodes);
  switches_this_month = switches_in (current_month now now) metrics (pos 0);
}

-- what is shown of the nodes, the clients and the proxies; the nodes as they are looked at
unfoldable pub snapshot_with : List ServerNode → ClusterState → Instant → ClusterSnapshot
unfolding mark_online view_proxy view_client summary_of is_usable
snapshot_with views state now =
    let online = mark_online views [] in
    let proxies = map (view_proxy online) (values state.proxies) in
    let clients = map (view_client online proxies) (values state.clients) in
    let metrics = values state.switch_metrics in
    record {
      config = state.config;
      nodes = sort_by (λ (a : ServerNode) (b : ServerNode). text_lt a.id b.id) views;
      clients =
          sort_by (λ (a : ClientView) (b : ClientView). text_lt a.client.id b.client.id) clients;
      proxies = sort_by (λ (a : Proxy) (b : Proxy). text_lt a.id b.id) proxies;
      tokens =
          sort_by (λ (a : JoinToken) (b : JoinToken). ltb b.created_at a.created_at)
            (filter (is_usable now) (values state.tokens));
      events =
          take shown_events
            (sort_by (λ (a : Event) (b : Event). ltb b.created_at a.created_at) state.events);
      summary = summary_of views clients proxies metrics now;
      switch_metrics =
          sort_by (λ (a : MonthlySwitch) (b : MonthlySwitch). text_lt b.month a.month) metrics;
    }

unfoldable pub snapshot : ClusterState → Instant → ClusterSnapshot
unfolding snapshot_with view_node
snapshot state now = snapshot_with (map (view_node now) (values state.nodes)) state now

unfoldable pub known_peer_urls : ClusterState → List Text
known_peer_urls state = state.config.peer_urls
