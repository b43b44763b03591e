-- ===== src/Nodes/Heartbeat.antt =====
-- What a heartbeat leaves.
use mathlib.Core.Option
use frp_cluster.Base.{
  ◌≡◌, ◌≢◌, ◌<◌, refl, ap, subst, ◌∙◌, sym, true, Option, none, some, [], length, inl, inr,
  Bool-cases, if◌then◌else◌, arith,
}
use frp_cluster.Text.{Text, text_eq, text_eq_refl}
use frp_cluster.Dict.{get, adjust, get-adjust, values}
use frp_cluster.Ids.{sanitize_id}
use frp_cluster.Types.{Instant, TrafficCounters, ServerNode, ClusterState, node_status_online}
use frp_cluster.Network.{normalize_heartbeat_network}
use frp_cluster.Requests.{HeartbeatRequest, ok}
use frp_cluster.Selection.{is_live}
use frp_cluster.Store.{Env, Store, commit}
use frp_cluster.Store.Saving.{Saves, state-commit, result-commit}
use frp_cluster.Events.{add_event}
use frp_cluster.Counts.{recompute_node_counts}
use frp_cluster.Counts.Totals.{counted_node, recompute_node_counts_lem}
use frp_cluster.Migrations.Pass.{nodes-apply}
use frp_cluster.Traffic.{normalize_traffic_counters}
use frp_cluster.Traffic.Reported.{with_traffic, get-record_traffic, record_traffic-SameBesides}
use frp_cluster.Nodes.{
  validate_node_token, touch_node, set_network, node_now, heartbeat_state, heartbeat_event,
  heartbeat_reported, heartbeat_valid, heartbeat_found, heartbeat_node_with_request,
}
use frp_cluster.Traffic.{set_traffic}
use frp_cluster.Nodes.Guards.{validate_own}

-- the counters that are reported, or the old ones
abbrev pub traffic_or : TrafficCounters → Option TrafficCounters → TrafficCounters
traffic_or old none = old
traffic_or old (some traffic) = traffic

-- the node that has sent the heartbeat, before the counts
abbrev pub beaten : HeartbeatRequest → Instant → ServerNode → ServerNode
beaten r now node =
    let (network, measured) = normalize_heartbeat_network r node.network now in
    record node {
      status = node_status_online;
      network = if measured then network else node.network;
      traffic = traffic_or node.traffic (normalize_traffic_counters r.traffic now);
      last_seen_at = now;
      updated_at = now;
    }

with_traffic_or :
    (o : Option TrafficCounters) (node : ServerNode)
    → with_traffic o node ≡ record node { traffic = traffic_or node.traffic o }
unfolding set_traffic
with_traffic_or none node = refl
with_traffic_or (some t) node = refl

set_network_lem :
    (r : HeartbeatRequest) (now : Instant) (node : ServerNode)
    → set_network r now node ≡ (
        let (network, measured) = normalize_heartbeat_network r node.network now in
        record node { network = if measured then network else node.network })
unfolding set_network
set_network_lem r now node = elim (Bool-cases (normalize_heartbeat_network r node.network now).1) [
  | inl e ↦ rw e refl
  | inr e ↦ rw e refl
]

heard-beaten :
    (r : HeartbeatRequest) (now : Instant) (node : ServerNode)
    → with_traffic
        (normalize_traffic_counters r.traffic now)
        (set_network r now (touch_node node_status_online now node))
      ≡ beaten r now node
heard-beaten r now node =
    ap (with_traffic (normalize_traffic_counters r.traffic now))
      (set_network_lem r now (touch_node node_status_online now node))
    ∙ with_traffic_or (normalize_traffic_counters r.traffic now) _
    ∙ unfold touch_node in refl

reported :
    (node_id : Text) (r : HeartbeatRequest) (now : Instant) (state : ClusterState)
    (node : ServerNode)
    → get node_id state.nodes ≡ some node
    → (j : Text)
    → get j (heartbeat_reported node_id r now state).nodes
      ≡ (if text_eq node_id j then some (beaten r now node) else get j state.nodes)
unfolding heartbeat_reported
reported node_id r now state node found j =
    let heard = λ (n : ServerNode). set_network r now (touch_node node_status_online now n) in
    get-record_traffic node_id j r.traffic (heard node) now
      (record state { nodes = adjust node_id heard state.nodes })
      (rw (get-adjust, text_eq_refl node_id, found) refl)
    ∙ elim (Bool-cases (text_eq node_id j)) [
      | inl e ↦ rw e (ap some (heard-beaten r now node))
      | inr e ↦ rw (get-adjust, e) refl
    ]

-- the number of clients and proxies is within an `int`
abbrev pub IsCountable : ClusterState → Type 0
IsCountable state =
    (length (values state.clients) < 9_223_372_036_854_775_808)
    × (length (values state.proxies) < 9_223_372_036_854_775_808)

nodes-heartbeat_state :
    (node_id : Text) (r : HeartbeatRequest) (now : Instant) (state : ClusterState)
    (node : ServerNode)
    → get node_id state.nodes ≡ some node
    → IsCountable state
    → (j : Text)
    → get j (heartbeat_state node_id r now state).nodes
      ≡ Option.map
          (counted_node state j)
          (if text_eq node_id j then some (beaten r now node) else get j state.nodes)
unfolding heartbeat_state heartbeat_reported
nodes-heartbeat_state node_id r now state node found small j =
    let after = heartbeat_reported node_id r now state in
    let same = record_traffic-SameBesides node_id r.traffic now (record state {
      nodes =
          adjust node_id (λ node. set_network r now (touch_node node_status_online now node))
            state.nodes;
    }) in
    rw (nodes-apply now (recompute_node_counts after)) (
      (recompute_node_counts_lem after
          (subst (λ cs. length (values cs) < 9_223_372_036_854_775_808) (sym same.clients) small.0)
          (subst (λ ps. length (values ps) < 9_223_372_036_854_775_808) (sym same.proxies)
            small.1)).0
        j
      ∙ rw (reported node_id r now state node found j, same.clients, same.proxies) refl)

heartbeat_taken :
    (id : Text) (r : HeartbeatRequest) (env : Env) (s : Store) (node : ServerNode)
    → get (sanitize_id id) s.state.nodes ≡ some node
    → validate_node_token node r.node_token ≡ ok tt
    → heartbeat_node_with_request id r env s
      ≡ commit
          (node_now (sanitize_id id) node (heartbeat_state (sanitize_id id) r env.now s.state))
          (heartbeat_event
            (sanitize_id id)
            node
            env.now
            (heartbeat_state (sanitize_id id) r env.now s.state))
          env
          s
unfolding heartbeat_node_with_request heartbeat_found heartbeat_valid
heartbeat_taken id r env s node found valid = rw (found, valid) refl

pub live_now :
    (node : ServerNode) (now : Instant)
    → node.status ≡ node_status_online
    → node.last_seen_at ≡ now
    → is_live node now ≡ true
unfolding is_live
live_now node now online seen = rw (online, seen, text_eq_refl node_status_online) (ground arith)

pub node_now_lem :
    (node_id : Text) (node current : ServerNode) (state : ClusterState)
    → get node_id state.nodes ≡ some current
    → node_now node_id node state ≡ current
unfolding node_now
node_now_lem node_id node current state here = rw here refl

-- A heartbeat under the node's own token is taken, whether or not the state can then be saved: in
-- the new state the node is online, seen at this instant, with the network and the traffic that it
-- reports (its old ones where it reports none), every node's counters are the numbers of its
-- online clients and proxies, and nothing else of a node has changed. The node as it now stands is
-- what the caller is given if the state is saved, and the node can be selected. (The store holds
-- fewer than 2^63 clients and proxies.)
pub heartbeat_lem :
    (id : Text) (r : HeartbeatRequest) (env : Env) (s : Store) (node : ServerNode)
    → get (sanitize_id id) s.state.nodes ≡ some node
    → r.node_token ≡ node.node_token
    → node.node_token ≢ []
    → IsCountable s.state
    → ((j : Text)
        → get j (heartbeat_node_with_request id r env s).1.state.nodes
          ≡ Option.map (counted_node s.state j) (
              if text_eq (sanitize_id id) j
              then some (beaten r env.now node)
              else get j s.state.nodes))
      × (Saves (heartbeat_node_with_request id r env s).1.state env s
          → (heartbeat_node_with_request id r env s).0
            ≡ ok (counted_node s.state (sanitize_id id) (beaten r env.now node)))
      × (is_live (counted_node s.state (sanitize_id id) (beaten r env.now node)) env.now ≡ true)
unfolding heartbeat_event add_event
heartbeat_lem id r env s node found own given small =
    let node_id = sanitize_id id in
    let now = env.now in
    let state = heartbeat_state node_id r now s.state in
    let done = heartbeat_event node_id node now state in
    let here = nodes-heartbeat_state node_id r now s.state node found small in
    rw
      (
        heartbeat_taken id r env s node found (
            subst (λ token. validate_node_token node token ≡ ok tt) (sym own)
              (validate_own node given)),
        state-commit (node_now node_id node state) done env s,
      )
      (
        here,
        λ saves.
            result-commit (node_now node_id node state) done env s saves
            ∙ ap ok (
                node_now_lem node_id node (counted_node s.state node_id (beaten r now node)) state
                  (here node_id ∙ rw (text_eq_refl node_id) refl)),
        live_now (counted_node s.state node_id (beaten r now node)) now refl refl,
      )
