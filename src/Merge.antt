-- ===== src/Merge.antt =====
-- Taking over another control plane's state: MergeState and normalizeClusterState of
-- internal/control/store.go.
pub mod Newest
use frp_cluster.Base.{
  Bool, true, false, not, ◌&&◌, ◌||◌, Option, none, some, List, [], ◌∷◌, ◌++◌, ℤ, pos, int_eq,
  int_lt, length, ltb, if◌then◌else◌,
}
use frp_cluster.Sort.{sort_by}
use frp_cluster.Text.{Text, str, text_eq}
use frp_cluster.Dict.{Dict, get, put, adjust, values}
use frp_cluster.Ids.{
  sanitize_id, normalize_control_url, merge_peer_urls, merge_strings, remove_peer_url,
}
use frp_cluster.Types.{
  Instant, ClusterConfig, ServerNode, Client, Proxy, JoinToken, Event, TrafficSample, ClusterState,
}
use frp_cluster.Events.{last_n, max_events}
use frp_cluster.Store.{Env, Store, Exec, commit, default_config}
use frp_cluster.Counts.{recompute_node_counts}
use frp_cluster.Traffic.{merge_traffic_samples}

-- A `ClusterState` as a peer sends it: an entry of a map may be nil. A map that is nil has no
-- entries. The merge does not read the switch metrics.
pub record RemoteState : Type 0 where
  pub config : ClusterConfig
  pub nodes : Dict (Option ServerNode)
  pub clients : Dict (Option Client)
  pub proxies : Dict (Option Proxy)
  pub tokens : Dict (Option JoinToken)
  pub events : List Event
  pub traffic_samples : List TrafficSample

unfoldable pub without_self : Text → List Text → List Text
without_self url urls = if text_eq url [] then urls else remove_peer_url urls url

unfoldable pub normalize_remote_config : ClusterConfig → ClusterConfig
unfolding default_config
normalize_remote_config c =
    let url = normalize_control_url c.public_control_url in
    record c {
      name = if text_eq c.name [] then default_config.name else c.name;
      dashboard_port =
          if int_eq c.dashboard_port (pos 0)
          then default_config.dashboard_port
          else c.dashboard_port;
      plugin_ops = if text_eq c.plugin_ops [] then default_config.plugin_ops else c.plugin_ops;
      public_control_url = url;
      peer_urls = without_self url (merge_peer_urls [] c.peer_urls);
    }

unfoldable pub normalize_cluster_state : RemoteState → RemoteState
normalize_cluster_state remote = record remote { config = normalize_remote_config remote.config }

-- RawState: a copy of the state, by its encoding and back, is normalised
unfoldable pub raw_state : ClusterState → ClusterState
raw_state state = record state { config = normalize_remote_config state.config }

unfoldable pub merge_config : ClusterConfig → Text → ClusterConfig → ClusterConfig
merge_config remote source_url local = record local {
  peer_urls = without_self local.public_control_url (
      merge_peer_urls (merge_peer_urls local.peer_urls remote.peer_urls)
        (source_url ∷ remote.public_control_url ∷ []));
  auth_token = if text_eq local.auth_token [] then remote.auth_token else local.auth_token;
}

-- the remote node replaces the local one
unfoldable pub node_wins : ServerNode → Option ServerNode → Bool
node_wins node none = true
node_wins node (some local) =
    ltb local.updated_at node.updated_at
    || (text_eq local.node_token [] && not (text_eq node.node_token []))

unfoldable pub keep_token : ServerNode → Option ServerNode → ServerNode
keep_token node none = node
keep_token node (some local) = record node {
  node_token = if text_eq node.node_token [] then local.node_token else node.node_token;
}

unfoldable pub remote_node : Text → ServerNode → ServerNode
remote_node key node = record node {
  id = if text_eq node.id [] then sanitize_id key else node.id;
  control_url = normalize_control_url node.control_url;
}

-- the body of the loop, for a node that has an identifier
unfoldable pub merge_named_node :
    ServerNode → Dict ServerNode × List Text → Dict ServerNode × List Text
merge_named_node node (nodes, urls) =
    let local = get node.id nodes in
    (
      if node_wins node local then put node.id (keep_token node local) nodes else nodes,
      if text_eq node.control_url [] then urls else merge_peer_urls urls (node.control_url ∷ []),
    )

unfoldable pub merge_node :
    Text → Option ServerNode → Dict ServerNode × List Text → Dict ServerNode × List Text
merge_node key none merged = merged
merge_node key (some remote) merged =
    let node = remote_node key remote in
    if text_eq node.id [] then merged else merge_named_node node merged

unfoldable pub merge_nodes :
    Dict (Option ServerNode) → Dict ServerNode × List Text → Dict ServerNode × List Text
merge_nodes [] merged = merged
merge_nodes ((key, remote) ∷ rest) merged = merge_nodes rest (merge_node key remote merged)

unfoldable pub token_spent_more : JoinToken → JoinToken → Bool
token_spent_more remote local =
    int_lt remote.uses_left local.uses_left
    || ltb (length local.used_by) (length remote.used_by)
    || ltb remote.expires_at local.expires_at

unfoldable pub take_token : JoinToken → JoinToken → JoinToken
take_token remote local =
    if token_spent_more remote local
    then record local {
      uses_left = remote.uses_left;
      expires_at = remote.expires_at;
      used_by = merge_strings local.used_by remote.used_by;
    }
    else local

unfoldable pub merge_found_token :
    Text → JoinToken → Option JoinToken → Dict JoinToken → Dict JoinToken
merge_found_token value remote none tokens = put value remote tokens
merge_found_token value remote (some local) tokens = adjust value (take_token remote) tokens

unfoldable pub merge_token : Instant → Text → Option JoinToken → Dict JoinToken → Dict JoinToken
merge_token now value none tokens = tokens
merge_token now value (some remote) tokens =
    if not (ltb now remote.expires_at)
    then tokens
    else merge_found_token value remote (get value tokens) tokens

unfoldable pub merge_tokens : Instant → Dict (Option JoinToken) → Dict JoinToken → Dict JoinToken
merge_tokens now [] tokens = tokens
merge_tokens now ((value, remote) ∷ rest) tokens =
    merge_tokens now rest (merge_token now value remote tokens)

-- The loops over the clients and over the proxies, which differ in how an entry without an
-- identifier is named: `id_of` and `updated` read an entry's fields, `named` fills in its
-- identifier from its key.
module _ {V : Type 0} (id_of : V → Text) (updated : V → Instant) (named : Text → V → V) where
  unfoldable pub is_newer_entry : V → Option V → Bool
  is_newer_entry v none = true
  is_newer_entry v (some local) = ltb (updated local) (updated v)

  unfoldable pub merge_entry : Text → Option V → Dict V → Dict V
  merge_entry key none m = m
  merge_entry key (some remote) m =
      let v = named key remote in
      if text_eq (id_of v) []
      then m
      else if is_newer_entry v (get (id_of v) m)
      then put (id_of v) v m
      else m

  unfoldable pub merge_entries : Dict (Option V) → Dict V → Dict V
  merge_entries [] m = m
  merge_entries ((key, remote) ∷ rest) m = merge_entries rest (merge_entry key remote m)

unfoldable pub named_client : Text → Client → Client
named_client key client = record client {
  id = if text_eq client.id [] then sanitize_id key else client.id;
}

unfoldable pub named_proxy : Text → Proxy → Proxy
named_proxy key proxy = record proxy { id = if text_eq proxy.id [] then key else proxy.id }

unfoldable pub merge_clients : Dict (Option Client) → Dict Client → Dict Client
merge_clients remote clients =
    merge_entries (λ (c : Client). c.id) (λ (c : Client). c.updated_at) named_client remote clients

unfoldable pub merge_proxies : Dict (Option Proxy) → Dict Proxy → Dict Proxy
merge_proxies remote proxies =
    merge_entries (λ (p : Proxy). p.id) (λ (p : Proxy). p.updated_at) named_proxy remote proxies

unfoldable pub events_by_id : List Event → Dict Event → Dict Event
events_by_id [] m = m
events_by_id (event ∷ events) m = events_by_id events (put event.id event m)

unfoldable pub is_newer_event : Event → Option Event → Bool
is_newer_event event none = true
is_newer_event event (some local) = ltb local.created_at event.created_at

unfoldable pub add_remote_events : List Event → Dict Event → Dict Event
add_remote_events [] m = m
add_remote_events (event ∷ events) m = add_remote_events events (
    if text_eq event.id []
    then m
    else if is_newer_event event (get event.id m)
    then put event.id event m
    else m)

unfoldable pub event_before : Event → Event → Bool
event_before a b = ltb a.created_at b.created_at

unfoldable pub merge_events : List Event → List Event → List Event
merge_events local remote =
    last_n max_events
      (sort_by event_before (values (add_remote_events remote (events_by_id local []))))

unfoldable pub merged_state : RemoteState → Text → Instant → ClusterState → ClusterState
merged_state remote source_url now state =
    let config = merge_config remote.config source_url state.config in
    let (nodes, urls) = merge_nodes remote.nodes (state.nodes, config.peer_urls) in
    recompute_node_counts (record state {
      config = record config { peer_urls = urls };
      nodes = nodes;
      tokens = merge_tokens now remote.tokens state.tokens;
      clients = merge_clients remote.clients state.clients;
      proxies = merge_proxies remote.proxies state.proxies;
      events = merge_events state.events remote.events;
      traffic_samples = merge_traffic_samples state.traffic_samples remote.traffic_samples now;
    })

unfoldable pub merge_state : RemoteState → Text → Exec (Unit {0})
merge_state remote source_url env s =
    commit tt
      (merged_state (normalize_cluster_state remote) (normalize_control_url source_url) env.now
        s.state)
      env s
