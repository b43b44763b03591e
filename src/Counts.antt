-- ===== src/Counts.antt =====
-- recomputeNodeCountsLocked of internal/control/service.go: how many clients and proxies each node
-- carries, and how many proxies each client has.
pub mod Totals
use frp_cluster.Base.{Bool, List, [], ◌∷◌, pos, inc64, if◌then◌else◌}
use frp_cluster.Text.{Text, text_eq}
use frp_cluster.Dict.{Dict, adjust, map_values, values}
use frp_cluster.Types.{
  ServerNode, Client, Proxy, ClusterState, client_status_online, proxy_status_online,
}

unfoldable pub clear_node : ServerNode → ServerNode
clear_node node = record node { client_count = pos 0; proxy_count = pos 0 }

unfoldable pub clear_client : Client → Client
clear_client client = record client { proxy_count = pos 0 }

unfoldable pub add_client : ServerNode → ServerNode
add_client node = record node { client_count = inc64 node.client_count }

unfoldable pub add_proxy : ServerNode → ServerNode
add_proxy node = record node { proxy_count = inc64 node.proxy_count }

unfoldable pub add_client_proxy : Client → Client
add_client_proxy client = record client { proxy_count = inc64 client.proxy_count }

-- the loop over the clients; a client of an unknown node is counted nowhere
unfoldable pub count_clients : List Client → Dict ServerNode → Dict ServerNode
count_clients [] nodes = nodes
count_clients (client ∷ clients) nodes = count_clients clients (
    if text_eq client.status client_status_online
    then adjust client.node_id add_client nodes
    else nodes)

-- the loop over the proxies, as it counts for the clients
unfoldable pub count_client_proxies : List Proxy → Dict Client → Dict Client
count_client_proxies [] clients = clients
count_client_proxies (proxy ∷ proxies) clients = count_client_proxies proxies (
    if text_eq proxy.status proxy_status_online
    then adjust proxy.client_id add_client_proxy clients
    else clients)

-- the same loop, as it counts for the nodes
unfoldable pub count_node_proxies : List Proxy → Dict ServerNode → Dict ServerNode
count_node_proxies [] nodes = nodes
count_node_proxies (proxy ∷ proxies) nodes = count_node_proxies proxies (
    if text_eq proxy.status proxy_status_online
    then adjust proxy.node_id add_proxy nodes
    else nodes)

unfoldable pub recompute_node_counts : ClusterState → ClusterState
recompute_node_counts state =
    let proxies = values state.proxies in
    record state {
      nodes =
          count_node_proxies proxies
            (count_clients (values state.clients) (map_values clear_node state.nodes));
      clients = count_client_proxies proxies (map_values clear_client state.clients);
    }
