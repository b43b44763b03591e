-- ===== src/Run/NodeOps.antt =====
-- The operations on tokens and nodes keep a state sound.

use frp_cluster.Base.{◌≡◌, refl, Bool, Option, none, some, inl, inr, Bool-cases, arith}
use frp_cluster.Text.{Text}
use frp_cluster.Dict.{get, adjust}
use frp_cluster.Ids.{sanitize_id}
use frp_cluster.Types.{
  Instant, ServerNode, Client, Proxy, TrafficCounters, ClusterState, node_status_online,
  node_status_offline,
}
use frp_cluster.Requests.{HeartbeatRequest, Result, ok, err}
use frp_cluster.Network.{normalize_heartbeat_network}
use frp_cluster.Store.{Env, Store}
use frp_cluster.Traffic.{set_traffic, normalize_traffic_counters, record_normalized, record_traffic}
use frp_cluster.Traffic.Reported.{record_traffic-SameBesides}
use frp_cluster.Nodes.{
  validate_node_token, touch_node, set_network, heartbeat_reported, heartbeat_state,
  heartbeat_event, heartbeat_valid, heartbeat_found, heartbeat_node_with_request, take_offline,
  close_proxy, check_leave, leave_state, leave_event, leave_valid, leave_found, leave,
}
use frp_cluster.Nodes.Offline.{gone_state}
use frp_cluster.Run.Keys.{
  KeysAreIds-adjust, KeysAreIds-map_values, node_id_of, client_id_of, proxy_id_of, IsKeyed,
}
use frp_cluster.Run.Bounds.{samples-record_traffic}
use frp_cluster.Run.Sound.{IsSound, commit-IsSound, settle-IsSound, add_event-IsSound}

set_network-id :
    (r : HeartbeatRequest) (now : Instant) (node : ServerNode)
    → (set_network r now node).id ≡ node.id
unfolding set_network
set_network-id r now node = elim (Bool-cases (normalize_heartbeat_network r node.network now).1) [
  | inl e ↦ rw e refl
  | inr e ↦ rw e refl
]

keyed-record_normalized :
    (id : Text) (t : Option TrafficCounters) (o : Option ServerNode) (now : Instant)
    (state : ClusterState)
    → IsKeyed state
    → IsKeyed (record_normalized id t o now state)
unfolding record_normalized set_traffic
keyed-record_normalized id none o now state h = h
keyed-record_normalized id (some t) none now state h = h
keyed-record_normalized id (some t) (some node) now state h = record {
  nodes = KeysAreIds-adjust node_id_of id (set_traffic t) state.nodes (λ v. refl) h.nodes;
  clients = h.clients;
  proxies = h.proxies;
}

keyed-record_traffic :
    (id : Text) (traffic : TrafficCounters) (now : Instant) (state : ClusterState)
    → IsKeyed state
    → IsKeyed (record_traffic id traffic now state)
unfolding record_traffic
keyed-record_traffic id traffic now state h =
    keyed-record_normalized id (normalize_traffic_counters traffic now) (get id state.nodes) now
      state h

reported-IsSound :
    (id : Text) (r : HeartbeatRequest) (now : Instant) (state : ClusterState)
    → IsSound state
    → IsSound (heartbeat_reported id r now state)
unfolding heartbeat_reported touch_node
reported-IsSound id r now state h =
    let heard =
      adjust id (λ node. set_network r now (touch_node node_status_online now node)) state.nodes in
    let before = record state { nodes = heard } in
    record {
      keyed = keyed-record_traffic id r.traffic now before (record {
        nodes =
            KeysAreIds-adjust node_id_of id _ state.nodes
              (λ node. set_network-id r now (touch_node node_status_online now node)) h.keyed.nodes;
        clients = h.keyed.clients;
        proxies = h.keyed.proxies;
      });
      events = rw ((record_traffic-SameBesides id r.traffic now before).events) h.events;
      samples = samples-record_traffic id r.traffic now before h.samples;
    }

heartbeat_valid-IsSound :
    (o : Result (Unit {0})) (node : ServerNode) (id : Text) (r : HeartbeatRequest) (env : Env)
    (s : Store)
    → IsSound s.state
    → IsSound (heartbeat_valid o node id r env s).1.state
unfolding heartbeat_valid heartbeat_event heartbeat_state
heartbeat_valid-IsSound (err e) node id r env s h = h
heartbeat_valid-IsSound (ok _) node id r env s h =
    let after =
      settle-IsSound env.now (heartbeat_reported id r env.now s.state)
        (reported-IsSound id r env.now s.state h) in
    commit-IsSound _ _ env s (add_event-IsSound _ _ _ _ _ _ env.now _ after.keyed after.samples)

heartbeat_found-IsSound :
    (o : Option ServerNode) (id : Text) (r : HeartbeatRequest) (env : Env) (s : Store)
    → IsSound s.state
    → IsSound (heartbeat_found o id r env s).1.state
unfolding heartbeat_found
heartbeat_found-IsSound none id r env s h = h
heartbeat_found-IsSound (some node) id r env s h =
    heartbeat_valid-IsSound (validate_node_token node r.node_token) node id r env s h

pub heartbeat-IsSound :
    (id : Text) (r : HeartbeatRequest) (env : Env) (s : Store)
    → IsSound s.state
    → IsSound (heartbeat_node_with_request id r env s).1.state
unfolding heartbeat_node_with_request
heartbeat-IsSound id r env s h =
    heartbeat_found-IsSound (get (sanitize_id id) s.state.nodes) (sanitize_id id) r env s h

take_offline-id : (id : Text) (now : Instant) (c : Client) → (take_offline id now c).id ≡ c.id
unfolding take_offline
take_offline-id id now c = ground arith

close_proxy-id : (id : Text) (now : Instant) (p : Proxy) → (close_proxy id now p).id ≡ p.id
unfolding close_proxy
close_proxy-id id now p = ground arith

gone-IsSound :
    (id : Text) (now : Instant) (state : ClusterState)
    → IsSound state
    → IsSound (gone_state id now state)
unfolding touch_node
gone-IsSound id now state h = record {
  keyed = record {
    nodes =
        KeysAreIds-adjust node_id_of id (touch_node node_status_offline now) state.nodes (λ v. refl)
          h.keyed.nodes;
    clients =
        KeysAreIds-map_values client_id_of (take_offline id now) state.clients
          (take_offline-id id now) h.keyed.clients;
    proxies =
        KeysAreIds-map_values proxy_id_of (close_proxy id now) state.proxies (close_proxy-id id now)
          h.keyed.proxies;
  };
  events = h.events;
  samples = h.samples;
}

leave_valid-IsSound :
    (o : Result (Unit {0})) (node : ServerNode) (id : Text) (env : Env) (s : Store)
    → IsSound s.state
    → IsSound (leave_valid o node id env s).1.state
unfolding leave_valid leave_event leave_state
leave_valid-IsSound (err e) node id env s h = h
leave_valid-IsSound (ok _) node id env s h =
    let after =
      settle-IsSound env.now (gone_state id env.now s.state) (gone-IsSound id env.now s.state h) in
    commit-IsSound _ _ env s (add_event-IsSound _ _ _ _ _ _ env.now _ after.keyed after.samples)

leave_found-IsSound :
    (o : Option ServerNode) (id token : Text) (require_token : Bool) (env : Env) (s : Store)
    → IsSound s.state
    → IsSound (leave_found o id token require_token env s).1.state
unfolding leave_found
leave_found-IsSound none id token require_token env s h = h
leave_found-IsSound (some node) id token require_token env s h =
    leave_valid-IsSound (check_leave require_token node token) node id env s h

pub leave-IsSound :
    (id token : Text) (require_token : Bool) (env : Env) (s : Store)
    → IsSound s.state
    → IsSound (leave id token require_token env s).1.state
unfolding leave
leave-IsSound id token require_token env s h =
    leave_found-IsSound (get (sanitize_id id) s.state.nodes) (sanitize_id id) token require_token
      env s h
