-- ===== src/Nodes/Offline.antt =====
-- The loops that take a node's clients and proxies offline, and what the counts then are.
use mathlib.Core.Option
use frp_cluster.Base.{
  suc, ◌≡◌, refl, ap, false, [], ◌∷◌, pos, count_if, length, inl, inr, Bool-cases, arith,
}
use frp_cluster.Text.{Text, str, text_eq}
use frp_cluster.Dict.{Dict, get, adjust, map_values, values}
use frp_cluster.Types.{
  Instant, ServerNode, Client, Proxy, ClusterState, node_status_offline, client_status_online,
  client_status_offline, proxy_status_closed, proxy_status_online,
}
use frp_cluster.Counts.{recompute_node_counts}
use frp_cluster.Counts.Totals.{
  counts_for, runs_on, counted_node, counted_client, recompute_node_counts_lem,
}
use frp_cluster.Nodes.{touch_node, take_offline, close_proxy}
use frp_cluster.Nodes.Heartbeat.{IsCountable}

offline_is_not_online : text_eq client_status_offline client_status_online ≡ false
unfolding str text_eq
offline_is_not_online = refl

closed_is_not_online : text_eq proxy_status_closed proxy_status_online ≡ false
unfolding str text_eq
closed_is_not_online = refl

-- no client of the node is online after it, so none counts for it
pub none_counts :
    (id : Text) (now : Instant) (clients : Dict Client)
    → count_if (counts_for id) (values (map_values (take_offline id now) clients)) ≡ 0
unfolding count_if values map_values take_offline
none_counts id now [] = refl
none_counts id now ((j, c) ∷ m) = elim (Bool-cases (text_eq c.node_id id)) [
  | inl e ↦ rw (e, offline_is_not_online) (none_counts id now m)
  | inr e ↦ rw e (ground (arith, none_counts id now m))
]

pub none_runs :
    (id : Text) (now : Instant) (proxies : Dict Proxy)
    → count_if (runs_on id) (values (map_values (close_proxy id now) proxies)) ≡ 0
unfolding count_if values map_values close_proxy
none_runs id now [] = refl
none_runs id now ((j, p) ∷ m) = elim (Bool-cases (text_eq p.node_id id)) [
  | inl e ↦ rw (e, closed_is_not_online) (none_runs id now m)
  | inr e ↦ rw e (ground (arith, none_runs id now m))
]

pub length-map_values {ℓ} :
    {V : Type ℓ} (f : V → V) (m : Dict V) → length (values (map_values f m)) ≡ length (values m)
unfolding values map_values
length-map_values f [] = refl
length-map_values f ((j, w) ∷ m) = ap suc (length-map_values f m)

-- the state between the loops and the counts
abbrev pub gone_state : Text → Instant → ClusterState → ClusterState
gone_state node_id now state = record state {
  nodes = adjust node_id (touch_node node_status_offline now) state.nodes;
  clients = map_values (take_offline node_id now) state.clients;
  proxies = map_values (close_proxy node_id now) state.proxies;
}

pub gone-counts :
    (node_id : Text) (now : Instant) (state : ClusterState)
    → IsCountable state
    → ((j : Text)
        → get j (recompute_node_counts (gone_state node_id now state)).nodes
          ≡ Option.map
              (counted_node (gone_state node_id now state) j)
              (get j (gone_state node_id now state).nodes))
      × ((j : Text)
          → get j (recompute_node_counts (gone_state node_id now state)).clients
            ≡ Option.map
                (counted_client (gone_state node_id now state) j)
                (get j (gone_state node_id now state).clients))
gone-counts node_id now state small =
    recompute_node_counts_lem (gone_state node_id now state)
      (rw (length-map_values (take_offline node_id now) state.clients) small.0)
      (rw (length-map_values (close_proxy node_id now) state.proxies) small.1)

-- the node as it stands after it has left
abbrev pub departed : Instant → ServerNode → ServerNode
departed now node = record node {
  status = node_status_offline;
  last_seen_at = now;
  updated_at = now;
  client_count = pos 0;
  proxy_count = pos 0;
}
