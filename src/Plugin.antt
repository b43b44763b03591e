-- ===== src/Plugin.antt =====
-- What frps's plugin hook reports: ApplyPluginEvent of internal/control/service.go.
pub mod Session
use frp_cluster.Content.{PluginEvent, normalize_plugin_event, or_text}
use frp_cluster.Base.{
  Bool, true, false, not, ◌||◌, Option, none, some, List, [], ◌∷◌, ◌++◌, ℤ, pos, int_eq,
  if◌then◌else◌,
}
use frp_cluster.Text.{Text, str, text_eq, to_lower, trim_space}
use frp_cluster.Dict.{Dict, get, put, adjust}
use frp_cluster.Ids.{sanitize_id, first_non_empty, proxy_id}
use frp_cluster.Types.{
  Instant, ServerNode, Client, Proxy, ClusterState, node_status_online, client_status_online,
  client_status_offline, proxy_status_online, proxy_status_closed,
}
use frp_cluster.Store.{Env, Store, Exec, commit}
use frp_cluster.Events.{add_event}
use frp_cluster.Counts.{recompute_node_counts}
use frp_cluster.Migrations.{apply_migration_recommendations}
use frp_cluster.Clients.{upsert_client}
use frp_cluster.Nodes.{touch_node}

unfoldable pub event_node : Text → PluginEvent → Text
event_node node event =
    or_text (sanitize_id (first_non_empty (node ∷ event.node_id ∷ []))) (str "unknown")

unfoldable pub event_client : PluginEvent → Text
event_client event =
    or_text (sanitize_id (first_non_empty (event.client_id ∷ event.user ∷ event.remote_addr ∷ [])))
      (str "anonymous")

-- the client of the event, online
unfoldable pub online_client : Text → Text → PluginEvent → Instant → ClusterState → Client
unfolding upsert_client
online_client client_id node_id event now state =
    record (upsert_client client_id event.user node_id event.remote_addr now state.clients) {
      status = client_status_online;
    }

unfoldable pub put_client : Text → Client → ClusterState → ClusterState
put_client client_id client state = record state { clients = put client_id client state.clients }

-- "login" and "ping"
unfoldable pub apply_login :
    Text → Text → Text → PluginEvent → Instant → ClusterState → ClusterState
apply_login op client_id node_id event now state =
    let client = online_client client_id node_id event now state in
    add_event (str "client." ++ op) (str "client " ++ client.id ++ str " " ++ op) node_id client.id
      [] [] now (put_client client_id client state)

-- the proxy that is in the map, or a new one
unfoldable pub proxy_or_new : Text → Instant → Option Proxy → Proxy
proxy_or_new id now none = record {
  id = id;
  name = [];
  type = [];
  client_id = [];
  user = [];
  node_id = [];
  status = [];
  remote_port = pos 0;
  created_at = now;
  updated_at = 0;
}
proxy_or_new id now (some proxy) = proxy

unfoldable pub open_proxy : Text → Text → PluginEvent → Instant → Proxy → Proxy
open_proxy client_id node_id event now proxy = record proxy {
  name = first_non_empty (event.proxy_name ∷ proxy.id ∷ []);
  type = first_non_empty (event.proxy_type ∷ str "tcp" ∷ []);
  client_id = client_id;
  user = event.user;
  node_id = node_id;
  status = proxy_status_online;
  remote_port = event.remote_port;
  updated_at = now;
}

-- "newproxy" and "new_proxy"
unfoldable pub apply_new_proxy : Text → Text → PluginEvent → Instant → ClusterState → ClusterState
apply_new_proxy client_id node_id event now state =
    let client = online_client client_id node_id event now state in
    let id = proxy_id node_id client.id event.proxy_name in
    let proxy =
      open_proxy client.id node_id event now (proxy_or_new id now (get id state.proxies)) in
    add_event (str "proxy.online") (str "proxy " ++ proxy.name ++ str " online") node_id client.id
      proxy.id [] now
      (record (put_client client_id client state) { proxies = put id proxy state.proxies })

unfoldable pub shut_proxy : Instant → Proxy → Proxy
shut_proxy now proxy = record proxy { status = proxy_status_closed; updated_at = now }

unfoldable pub close_found :
    Option Proxy → Text → Text → Text → Instant → ClusterState → ClusterState
close_found none id client_id node_id now state = state
close_found (some proxy) id client_id node_id now state =
    add_event (str "proxy.closed") (str "proxy " ++ proxy.name ++ str " closed") node_id client_id
      proxy.id [] now (record state { proxies = adjust id (shut_proxy now) state.proxies })

-- "closeproxy" and "close_proxy"
unfoldable pub apply_close_proxy : Text → Text → PluginEvent → Instant → ClusterState → ClusterState
unfolding close_found
apply_close_proxy client_id node_id event now state =
    let id = proxy_id node_id client_id event.proxy_name in
    close_found (get id state.proxies) id client_id node_id now state

unfoldable pub log_out : Instant → Client → Client
log_out now client = record client { status = client_status_offline; updated_at = now }

unfoldable pub logout_found : Option Client → Text → Text → Instant → ClusterState → ClusterState
logout_found none client_id node_id now state = state
logout_found (some client) client_id node_id now state =
    add_event (str "client.logout") (str "client " ++ client.id ++ str " logout") node_id client.id
      [] [] now (record state { clients = adjust client_id (log_out now) state.clients })

unfoldable pub apply_logout : Text → Text → Instant → ClusterState → ClusterState
unfolding logout_found
apply_logout client_id node_id now state =
    logout_found (get client_id state.clients) client_id node_id now state

-- any other operation is only noted
unfoldable pub apply_other : Text → Text → Text → Instant → ClusterState → ClusterState
apply_other op client_id node_id now state =
    add_event (str "plugin." ++ op) (str "plugin event " ++ op) node_id client_id [] [] now state

unfoldable pub apply_op : Text → Text → Text → PluginEvent → Instant → ClusterState → ClusterState
apply_op op client_id node_id event now state =
    if text_eq op (str "login") || text_eq op (str "ping")
    then apply_login op client_id node_id event now state
    else if text_eq op (str "newproxy") || text_eq op (str "new_proxy")
    then apply_new_proxy client_id node_id event now state
    else if text_eq op (str "closeproxy") || text_eq op (str "close_proxy")
    then apply_close_proxy client_id node_id event now state
    else if text_eq op (str "logout")
    then apply_logout client_id node_id now state
    else apply_other op client_id node_id now state

-- a known node that reports is online
unfoldable pub node_seen : Text → Instant → ClusterState → ClusterState
node_seen node_id now state = record state {
  nodes = adjust node_id (touch_node node_status_online now) state.nodes;
}

unfoldable pub plugin_state : Text → PluginEvent → Instant → ClusterState → ClusterState
plugin_state node raw now state =
    let event = normalize_plugin_event raw in
    let node_id = event_node node event in
    apply_migration_recommendations now (
      recompute_node_counts (
        apply_op (to_lower (trim_space event.op)) (event_client event) node_id event now
          (node_seen node_id now state)))

unfoldable pub apply_plugin_event : Text → PluginEvent → Exec (Unit {0})
apply_plugin_event node event env s = commit tt (plugin_state node event env.now s.state) env s
