-- ===== src/Run/PluginOps.antt =====
-- The plugin events keep a state sound.
use frp_cluster.Base.{
  ◌≡◌, refl, Bool, true, false, Option, none, some, [], ◌++◌, if◌then◌else◌, ◌||◌,
}
use frp_cluster.Text.{Text, str, text_eq}
use frp_cluster.Dict.{get}
use frp_cluster.Ids.{proxy_id}
use frp_cluster.Types.{Instant, Client, Proxy, ClusterState, node_status_online}
use frp_cluster.Store.{Env, Store}
use frp_cluster.Clients.{client_or_new, new_client, upsert_client}
use frp_cluster.Nodes.{touch_node}
use frp_cluster.Plugin.{
  online_client, put_client, apply_login, proxy_or_new, open_proxy, apply_new_proxy, shut_proxy,
  close_found, apply_close_proxy, log_out, logout_found, apply_logout, apply_other, apply_op,
  node_seen, plugin_state, apply_plugin_event,
}
use frp_cluster.Content.{PluginEvent, normalize_plugin_event}
use frp_cluster.Run.Keys.{
  Carries, KeysAreIds-put, KeysAreIds-adjust, node_id_of, client_id_of, proxy_id_of, IsKeyed,
}
use frp_cluster.Run.Sound.{IsSound, commit-IsSound, settle-IsSound, add_event-IsSound}

client_or_new-id :
    (k : Text) (now : Instant) (o : Option Client)
    → Carries client_id_of k o
    → (client_or_new k now o).id ≡ k
unfolding client_or_new new_client
client_or_new-id k now none h = refl
client_or_new-id k now (some c) h = h

pub online_client-id :
    (k node_id : Text) (event : PluginEvent) (now : Instant) (state : ClusterState)
    → IsKeyed state
    → (online_client k node_id event now state).id ≡ k
unfolding online_client upsert_client
online_client-id k node_id event now state h =
    client_or_new-id k now (get k state.clients) (h.clients k)

put_client-IsKeyed :
    (k node_id : Text) (event : PluginEvent) (now : Instant) (state : ClusterState)
    → IsKeyed state
    → IsKeyed (put_client k (online_client k node_id event now state) state)
unfolding put_client
put_client-IsKeyed k node_id event now state h = record {
  nodes = h.nodes;
  clients =
      KeysAreIds-put client_id_of k (online_client k node_id event now state) state.clients
        (online_client-id k node_id event now state h) h.clients;
  proxies = h.proxies;
}

proxy_or_new-id :
    (k : Text) (now : Instant) (o : Option Proxy)
    → Carries proxy_id_of k o
    → (proxy_or_new k now o).id ≡ k
unfolding proxy_or_new
proxy_or_new-id k now none h = refl
proxy_or_new-id k now (some p) h = h

login-IsSound :
    (op k node_id : Text) (event : PluginEvent) (now : Instant) (state : ClusterState)
    → IsSound state
    → IsSound (apply_login op k node_id event now state)
unfolding apply_login put_client
login-IsSound op k node_id event now state h =
    add_event-IsSound _ _ _ _ _ _ now _ (put_client-IsKeyed k node_id event now state h.keyed)
      h.samples

new_proxy-IsSound :
    (k node_id : Text) (event : PluginEvent) (now : Instant) (state : ClusterState)
    → IsSound state
    → IsSound (apply_new_proxy k node_id event now state)
unfolding apply_new_proxy put_client open_proxy
new_proxy-IsSound k node_id event now state h =
    let clients = (put_client-IsKeyed k node_id event now state h.keyed).clients in
    let client = online_client k node_id event now state in
    let id = proxy_id node_id client.id event.proxy_name in
    let proxy =
      open_proxy client.id node_id event now (proxy_or_new id now (get id state.proxies)) in
    add_event-IsSound _ _ _ _ _ _ now _
      (record {
        nodes = h.keyed.nodes;
        clients = clients;
        proxies =
            KeysAreIds-put proxy_id_of id proxy state.proxies
              (proxy_or_new-id id now (get id state.proxies) (h.keyed.proxies id)) h.keyed.proxies;
      })
      h.samples

close_found-IsSound :
    (o : Option Proxy) (id client_id node_id : Text) (now : Instant) (state : ClusterState)
    → IsSound state
    → IsSound (close_found o id client_id node_id now state)
unfolding close_found shut_proxy
close_found-IsSound none id client_id node_id now state h = h
close_found-IsSound (some p) id client_id node_id now state h =
    add_event-IsSound _ _ _ _ _ _ now _
      (record {
        nodes = h.keyed.nodes;
        clients = h.keyed.clients;
        proxies =
            KeysAreIds-adjust proxy_id_of id (shut_proxy now) state.proxies (λ v. refl)
              h.keyed.proxies;
      })
      h.samples

logout_found-IsSound :
    (o : Option Client) (client_id node_id : Text) (now : Instant) (state : ClusterState)
    → IsSound state
    → IsSound (logout_found o client_id node_id now state)
unfolding logout_found log_out
logout_found-IsSound none client_id node_id now state h = h
logout_found-IsSound (some c) client_id node_id now state h =
    add_event-IsSound _ _ _ _ _ _ now _
      (record {
        nodes = h.keyed.nodes;
        clients =
            KeysAreIds-adjust client_id_of client_id (log_out now) state.clients (λ v. refl)
              h.keyed.clients;
        proxies = h.keyed.proxies;
      })
      h.samples

either : {A : Type 0} (P : A → Type 0) (b : Bool) (x y : A) → P x → P y → P (if b then x else y)
either P true x y h k = h
either P false x y h k = k

apply_op-IsSound :
    (op k node_id : Text) (event : PluginEvent) (now : Instant) (state : ClusterState)
    → IsSound state
    → IsSound (apply_op op k node_id event now state)
unfolding apply_op apply_close_proxy apply_logout apply_other
apply_op-IsSound op k node_id event now state h =
    let closed = proxy_id node_id k event.proxy_name in
    either IsSound (text_eq op (str "login") || text_eq op (str "ping")) _ _
      (login-IsSound op k node_id event now state h)
      (either IsSound (text_eq op (str "newproxy") || text_eq op (str "new_proxy")) _ _
        (new_proxy-IsSound k node_id event now state h)
        (either IsSound (text_eq op (str "closeproxy") || text_eq op (str "close_proxy")) _ _
          (close_found-IsSound (get closed state.proxies) closed k node_id now state h)
          (either IsSound (text_eq op (str "logout")) _ _
            (logout_found-IsSound (get k state.clients) k node_id now state h)
            (add_event-IsSound (str "plugin." ++ op) (str "plugin event " ++ op) node_id k [] [] now
              state h.keyed h.samples))))

node_seen-IsSound :
    (id : Text) (now : Instant) (state : ClusterState)
    → IsSound state
    → IsSound (node_seen id now state)
unfolding node_seen touch_node
node_seen-IsSound id now state h = record {
  keyed = record {
    nodes =
        KeysAreIds-adjust node_id_of id (touch_node node_status_online now) state.nodes (λ v. refl)
          h.keyed.nodes;
    clients = h.keyed.clients;
    proxies = h.keyed.proxies;
  };
  events = h.events;
  samples = h.samples;
}

pub apply_plugin_event-IsSound :
    (node : Text) (event : PluginEvent) (env : Env) (s : Store)
    → IsSound s.state
    → IsSound (apply_plugin_event node event env s).1.state
unfolding apply_plugin_event plugin_state
apply_plugin_event-IsSound node event env s h = commit-IsSound tt _ env s (
    settle-IsSound env.now _ (
      apply_op-IsSound _ _ _ (normalize_plugin_event event) env.now _
        (node_seen-IsSound _ env.now s.state h)))
