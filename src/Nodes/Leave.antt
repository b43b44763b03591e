-- ===== src/Nodes/Leave.antt =====
-- What a node that leaves takes with it.
use mathlib.Core.Option
use frp_cluster.Base.{◌≡◌, refl, ap, subst, ◌∙◌, sym, Bool, true, false, Option, none, some, arith}
use frp_cluster.Text.{Text, str, text_eq, text_eq_refl}
use frp_cluster.Dict.{get, get-adjust, get-map_values}
use frp_cluster.Ids.{sanitize_id}
use frp_cluster.Types.{
  Instant, ServerNode, Client, Proxy, ClusterState, client_status_offline, proxy_status_closed,
}
use frp_cluster.Requests.{ok}
use frp_cluster.Selection.{is_live}
use frp_cluster.Events.{add_event}
use frp_cluster.Store.{Env, Store, commit}
use frp_cluster.Store.Saving.{Saves, state-commit, result-commit}
use frp_cluster.Counts.{recompute_node_counts}
use frp_cluster.Counts.Totals.{counted_client}
use frp_cluster.Migrations.{apply_migration_recommendations}
use frp_cluster.Migrations.Pass.{nodes-apply}
use frp_cluster.Migrations.Keeps.{StaysConnected, apply-StaysConnected, apply-SameMaps}
use frp_cluster.Nodes.{
  touch_node, node_now, take_offline, close_proxy, check_leave, leave_valid, leave_found,
  leave_state, leave_event, leave,
}
use frp_cluster.Nodes.Offline.{none_counts, none_runs, gone_state, gone-counts, departed}
use frp_cluster.Nodes.Heartbeat.{IsCountable, node_now_lem}

node-leave_state :
    (node_id : Text) (now : Instant) (state : ClusterState) (node : ServerNode)
    → get node_id state.nodes ≡ some node
    → IsCountable state
    → get node_id (leave_state node_id now state).nodes ≡ some (departed now node)
unfolding leave_state touch_node
node-leave_state node_id now state node found small =
    rw
      (
        nodes-apply now (recompute_node_counts (gone_state node_id now state)),
        (gone-counts node_id now state small).0 node_id,
        get-adjust,
        text_eq_refl node_id,
        found,
        none_counts node_id now state.clients,
        none_runs node_id now state.proxies,
      )
      refl

-- what a lookup of a client finds after the node has left
abbrev pub LeavesClient : Text → Option Client → Option Client → Type 0
LeavesClient node_id none o' = o' ≡ none
LeavesClient node_id (some c) o' =
    (c' : Client) × (o' ≡ some c')
    × (c'.node_id ≡ c.node_id)
    × (text_eq c.node_id node_id ≡ true → c'.status ≡ client_status_offline)
    × (text_eq c.node_id node_id ≡ false → c'.status ≡ c.status)

take_offline-node_id :
    (node_id : Text) (now : Instant) (c : Client) → (take_offline node_id now c).node_id ≡ c.node_id
unfolding take_offline
take_offline-node_id node_id now c = ground arith

take_offline_own :
    (node_id : Text) (now : Instant) (c : Client)
    → text_eq c.node_id node_id ≡ true
    → (take_offline node_id now c).status ≡ client_status_offline
unfolding take_offline
take_offline_own node_id now c h = rw h refl

take_offline_other :
    (node_id : Text) (now : Instant) (c : Client)
    → text_eq c.node_id node_id ≡ false
    → (take_offline node_id now c).status ≡ c.status
unfolding take_offline
take_offline_other node_id now c h = rw h refl

leaves_counted :
    (node_id j : Text) (now : Instant) (state : ClusterState) (o o' : Option Client)
    → StaysConnected
        (Option.map
          (counted_client (gone_state node_id now state) j)
          (Option.map (take_offline node_id now) o))
        o'
    → LeavesClient node_id o o'
unfolding take_offline
leaves_counted node_id j now state none o' h = h
leaves_counted node_id j now state (some c) o' (c', e, same) = (
  c',
  e,
  same.node_id ∙ take_offline-node_id node_id now c,
  λ mine. same.status ∙ take_offline_own node_id now c mine,
  λ other. same.status ∙ take_offline_other node_id now c other,
)

clients-leave_state :
    (node_id : Text) (now : Instant) (state : ClusterState)
    → IsCountable state
    → (j : Text)
    → LeavesClient node_id (get j state.clients) (get j (leave_state node_id now state).clients)
unfolding leave_state
clients-leave_state node_id now state small j =
    let gone = recompute_node_counts (gone_state node_id now state) in
    leaves_counted node_id j now state (get j state.clients)
      (get j (apply_migration_recommendations now gone).clients)
      (subst (λ o. StaysConnected o (get j (apply_migration_recommendations now gone).clients))
        ((gone-counts node_id now state small).1 j
          ∙ rw (get-map_values j (take_offline node_id now) state.clients) refl)
        (apply-StaysConnected now gone j))

-- every proxy that is found on the node is closed
abbrev pub ProxiesClosed : Text → ClusterState → Type 0
ProxiesClosed node_id state =
    (j : Text) (p : Proxy)
    → get j state.proxies ≡ some p
    → text_eq p.node_id node_id ≡ true
    → p.status ≡ proxy_status_closed

closed_found :
    (node_id : Text) (now : Instant) (o : Option Proxy) (p : Proxy)
    → Option.map (close_proxy node_id now) o ≡ some p
    → text_eq p.node_id node_id ≡ true
    → p.status ≡ proxy_status_closed
unfolding close_proxy
closed_found node_id now none p e mine = absurd (cc e)
closed_found node_id now (some q) p e mine = ground (arith, e, mine)

proxies-leave_state :
    (node_id : Text) (now : Instant) (state : ClusterState)
    → ProxiesClosed node_id (leave_state node_id now state)
unfolding leave_state recompute_node_counts
proxies-leave_state node_id now state j p e mine =
    let gone = recompute_node_counts (gone_state node_id now state) in
    closed_found node_id now (get j state.proxies) p
      (sym (get-map_values j (close_proxy node_id now) state.proxies)
        ∙ ap (get j) (sym (apply-SameMaps now gone).proxies)
        ∙ e)
      mine

leave_taken :
    (id token : Text) (require_token : Bool) (env : Env) (s : Store) (node : ServerNode)
    → get (sanitize_id id) s.state.nodes ≡ some node
    → check_leave require_token node token ≡ ok tt
    → leave id token require_token env s
      ≡ commit
          (node_now (sanitize_id id) node (leave_state (sanitize_id id) env.now s.state))
          (leave_event (sanitize_id id) env.now (leave_state (sanitize_id id) env.now s.state))
          env
          s
unfolding leave leave_found leave_valid
leave_taken id token require_token env s node found valid = rw (found, valid) refl

-- A node that leaves under its own token, or is taken out by an administrator (whose request
-- carries no token), is offline in the new state and no longer live; it carries no client and no
-- proxy. Every client that was connected to it is offline and every proxy on it is closed, while
-- the clients of the other nodes keep their status and their node. If the state is saved the
-- caller is given the node as it now stands. (The store holds fewer than 2^63 clients and
-- proxies.)
pub leave_lem :
    (id token : Text) (require_token : Bool) (env : Env) (s : Store) (node : ServerNode)
    → get (sanitize_id id) s.state.nodes ≡ some node
    → check_leave require_token node token ≡ ok tt
    → IsCountable s.state
    → (get (sanitize_id id) (leave id token require_token env s).1.state.nodes
        ≡ some (departed env.now node))
      × (is_live (departed env.now node) env.now ≡ false)
      × ((j : Text)
          → LeavesClient
              (sanitize_id id)
              (get j s.state.clients)
              (get j (leave id token require_token env s).1.state.clients))
      × ProxiesClosed (sanitize_id id) (leave id token require_token env s).1.state
      × (Saves (leave id token require_token env s).1.state env s
          → (leave id token require_token env s).0 ≡ ok (departed env.now node))
unfolding leave_event add_event is_live str text_eq
leave_lem id token require_token env s node found valid small =
    let node_id = sanitize_id id in
    let state = leave_state node_id env.now s.state in
    let here = node-leave_state node_id env.now s.state node found small in
    rw
      (
        leave_taken id token require_token env s node found valid,
        state-commit (node_now node_id node state) (leave_event node_id env.now state) env s,
      )
      (
        here,
        refl,
        clients-leave_state node_id env.now s.state small,
        proxies-leave_state node_id env.now s.state,
        λ saves.
            result-commit (node_now node_id node state) (leave_event node_id env.now state) env s
              saves
            ∙ ap ok (node_now_lem node_id node (departed env.now node) state here),
      )
