-- ===== src/Selection.antt =====
-- Which nodes a client is given: onlineNodesLocked, filterExcludedNodes, sortNodesByPreference,
-- pinnedNode, findNode, selectNodesForClient and selectNodesLocked of
-- internal/control/service.go.
pub mod Preference
pub mod Order
pub mod Chosen
pub mod Modes
use frp_cluster.Base.{
  ℕ, suc, Bool, true, false, not, ◌&&◌, ◌||◌, Option, none, some, List, [], ◌∷◌, map, ℤ, pos,
  pos_part, int_lt, int_le, int_eq, length, take, filter, if◌then◌else◌,
}
use frp_cluster.Sort.{sort_by}
use frp_cluster.Text.{Text, text_eq, text_lt, text_in}
use frp_cluster.Dict.{Dict, get, values}
use frp_cluster.Ids.{sanitize_id}
use frp_cluster.Types.{
  Instant, elapsed_more, ServerNode, Client, ClusterState, node_status_online, config_mode_single,
  config_mode_failover, config_mode_aggregate, migration_state_manual,
}
use frp_cluster.Requests.{Result, ok, err, no_available_node, unsupported_mode}
use frp_cluster.Network.{refresh_network_status}

-- 90 seconds: a node that was not seen for longer is not used
abbrev pub node_timeout : ℕ
node_timeout = 90_000_000_000

unfoldable pub is_live : ServerNode → Instant → Bool
is_live node now =
    text_eq node.status node_status_online && not (elapsed_more now node.last_seen_at node_timeout)

unfoldable pub refresh_node : ServerNode → Instant → ServerNode
refresh_node node now = record node { network = refresh_network_status node.network now }

unfoldable pub online_nodes : Dict ServerNode → Instant → List ServerNode
online_nodes nodes now =
    map (λ node. refresh_node node now) (filter (λ node. is_live node now) (values nodes))

-- the `less` of the sort
unfoldable pub prefers : ServerNode → ServerNode → Bool
prefers a b =
    if not (int_eq a.network.score b.network.score)
    then int_lt b.network.score a.network.score
    else if not (int_eq a.client_count b.client_count)
    then int_lt a.client_count b.client_count
    else if not (int_eq a.proxy_count b.proxy_count)
    then int_lt a.proxy_count b.proxy_count
    else if not (int_eq a.network.latency_ms b.network.latency_ms)
    then if int_eq a.network.latency_ms (pos 0)
      then false
      else if int_eq b.network.latency_ms (pos 0)
      then true
      else int_lt a.network.latency_ms b.network.latency_ms
    else if not (int_eq a.network.bandwidth_bps b.network.bandwidth_bps)
    then int_lt b.network.bandwidth_bps a.network.bandwidth_bps
    else text_lt a.id b.id

unfoldable pub sort_nodes_by_preference : List ServerNode → List ServerNode
sort_nodes_by_preference nodes = sort_by prefers nodes

unfoldable pub find_node : List ServerNode → Text → Option ServerNode
find_node [] node_id = none
find_node (node ∷ nodes) node_id =
    let rest = find_node nodes node_id in if text_eq node.id node_id then some node else rest

or_else : Option ServerNode → Option ServerNode → Option ServerNode
or_else (some node) other = some node
or_else none other = other

-- the node that an administrator chose, if it is among `nodes`
manual_target : List ServerNode → Client → Option ServerNode
manual_target nodes client =
    if not (text_eq client.preferred_node_id [])
      && text_eq client.migration_state migration_state_manual
    then find_node nodes client.preferred_node_id
    else none

current_node : List ServerNode → Client → Bool → Option ServerNode
current_node nodes client allow_current_fallback =
    if allow_current_fallback && not (text_eq client.node_id [])
    then find_node nodes client.node_id
    else none

unfoldable pub pinned_node : List ServerNode → Option Client → Bool → Option ServerNode
unfolding or_else manual_target current_node
pinned_node nodes none allow_current_fallback = none
pinned_node nodes (some client) allow_current_fallback =
    or_else (manual_target nodes client) (current_node nodes client allow_current_fallback)

-- the pinned node alone, or else the first `limit` nodes
pinned_or_first : Option ServerNode → List ServerNode → ℕ → List ServerNode
pinned_or_first (some node) nodes limit = node ∷ []
pinned_or_first none nodes limit = take limit nodes

-- `limit <= 0 || limit > len(nodes)` stands for all nodes
unfoldable pub effective_limit : ℤ → ℕ → ℕ
effective_limit limit n = if int_le limit (pos 0) || int_lt (pos n) limit then n else pos_part limit

unfoldable pub select_by_mode :
    List ServerNode → Option Client → Text → ℤ → Result (List ServerNode)
unfolding pinned_or_first
select_by_mode nodes client mode limit =
    let n = effective_limit limit (length nodes) in
    if text_eq mode config_mode_aggregate
    then ok nodes
    else if text_eq mode config_mode_failover
    then ok (
        pinned_or_first (if int_eq (pos n) (pos 1) then pinned_node nodes client true else none)
          nodes n)
    else if text_eq mode config_mode_single || text_eq mode []
    then ok (pinned_or_first (pinned_node nodes client true) nodes 1)
    else err (unsupported_mode mode)

unfoldable pub select_nodes_for_client :
    List ServerNode → Option Client → Text → ℤ → Result (List ServerNode)
select_nodes_for_client [] client mode limit = err no_available_node
select_nodes_for_client (node ∷ nodes) client mode limit =
    select_by_mode (sort_nodes_by_preference (node ∷ nodes)) client mode limit

-- the identifiers to leave out, sanitised and not empty
unfoldable pub excluded_ids : List Text → List Text
excluded_ids ids = filter (λ id. not (text_eq id [])) (map sanitize_id ids)

unfoldable pub filter_excluded_nodes : List ServerNode → List Text → List ServerNode
filter_excluded_nodes nodes ids =
    let excluded = excluded_ids ids in filter (λ node. not (text_in node.id excluded)) nodes

unfoldable pub select_nodes_locked :
    ClusterState → Text → Text → ℤ → List Text → Instant → Result (List ServerNode)
select_nodes_locked state client_id mode limit ids now =
    select_nodes_for_client (filter_excluded_nodes (online_nodes state.nodes now) ids)
      (get (sanitize_id client_id) state.clients) mode limit
