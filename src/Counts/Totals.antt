-- ===== src/Counts/Totals.antt =====
-- The counters after recomputeNodeCountsLocked are the numbers of online clients and proxies.
use mathlib.Core.Option
use frp_cluster.Base.{
  ℕ, ◌<◌, ◌≡◌, refl, ap, ◌∙◌, Bool, ◌&&◌, List, [], ◌∷◌, Option, none, some, pos, inc64_times,
  inc64_times_pos, count_if, count_if-le-length, length, arith,
}
use frp_cluster.Text.{Text, text_eq}
use frp_cluster.Dict.{Dict, get, adjust, values, get-adjust, get-map_values}
use frp_cluster.Types.{
  ServerNode, Client, Proxy, ClusterState, client_status_online, proxy_status_online,
}
use frp_cluster.Counts.{
  clear_node, clear_client, add_client, add_proxy, add_client_proxy, count_clients,
  count_client_proxies, count_node_proxies, recompute_node_counts,
}

-- an online client of the node
abbrev pub counts_for : Text → Client → Bool
counts_for id client = text_eq client.status client_status_online && text_eq client.node_id id

-- an online proxy on the node
abbrev pub runs_on : Text → Proxy → Bool
runs_on id proxy = text_eq proxy.status proxy_status_online && text_eq proxy.node_id id

-- an online proxy of the client
abbrev pub belongs_to : Text → Proxy → Bool
belongs_to id proxy = text_eq proxy.status proxy_status_online && text_eq proxy.client_id id

add_clients : ℕ → ServerNode → ServerNode
add_clients k node = record node { client_count = inc64_times k node.client_count }

get-count_clients :
    (id : Text) (clients : List Client) (nodes : Dict ServerNode)
    → get id (count_clients clients nodes)
      ≡ Option.map (add_clients (count_if (counts_for id) clients)) (get id nodes)
unfolding count_clients count_if add_clients inc64_times add_client
get-count_clients id [] nodes = ground arith
get-count_clients id (c ∷ cs) nodes = ground (
  arith,
  get-count_clients id cs nodes,
  get-count_clients id cs (adjust c.node_id add_client nodes),
  get-adjust c.node_id id add_client nodes,
)

add_proxies : ℕ → ServerNode → ServerNode
add_proxies k node = record node { proxy_count = inc64_times k node.proxy_count }

get-count_node_proxies :
    (id : Text) (proxies : List Proxy) (nodes : Dict ServerNode)
    → get id (count_node_proxies proxies nodes)
      ≡ Option.map (add_proxies (count_if (runs_on id) proxies)) (get id nodes)
unfolding count_node_proxies count_if add_proxies inc64_times add_proxy
get-count_node_proxies id [] nodes = ground arith
get-count_node_proxies id (p ∷ ps) nodes = ground (
  arith,
  get-count_node_proxies id ps nodes,
  get-count_node_proxies id ps (adjust p.node_id add_proxy nodes),
  get-adjust p.node_id id add_proxy nodes,
)

add_client_proxies : ℕ → Client → Client
add_client_proxies k client = record client { proxy_count = inc64_times k client.proxy_count }

get-count_client_proxies :
    (id : Text) (proxies : List Proxy) (clients : Dict Client)
    → get id (count_client_proxies proxies clients)
      ≡ Option.map (add_client_proxies (count_if (belongs_to id) proxies)) (get id clients)
unfolding count_client_proxies count_if add_client_proxies inc64_times add_client_proxy
get-count_client_proxies id [] clients = ground arith
get-count_client_proxies id (p ∷ ps) clients = ground (
  arith,
  get-count_client_proxies id ps clients,
  get-count_client_proxies id ps (adjust p.client_id add_client_proxy clients),
  get-adjust p.client_id id add_client_proxy clients,
)

-- a node with the counters that the clients and the proxies of a state give it
abbrev pub counted_node : ClusterState → Text → ServerNode → ServerNode
counted_node state id node = record node {
  client_count = pos (count_if (counts_for id) (values state.clients));
  proxy_count = pos (count_if (runs_on id) (values state.proxies));
}

abbrev pub counted_client : ClusterState → Text → Client → Client
counted_client state id client = record client {
  proxy_count = pos (count_if (belongs_to id) (values state.proxies));
}

from_zero : (k : ℕ) → k < 9_223_372_036_854_775_808 → inc64_times k (pos 0) ≡ pos k
from_zero k h = inc64_times_pos k 0 (omega arith) ∙ ap pos (omega arith)

node_totals :
    (k j : ℕ)
    → k < 9_223_372_036_854_775_808
    → j < 9_223_372_036_854_775_808
    → (node : ServerNode)
    → add_proxies j (add_clients k (clear_node node))
      ≡ record node { client_count = pos k; proxy_count = pos j }
unfolding add_proxies add_clients clear_node
node_totals k j hk hj node = cc (from_zero k hk, from_zero j hj)

node_totals_client :
    (k : ℕ)
    → k < 9_223_372_036_854_775_808
    → (client : Client)
    → add_client_proxies k (clear_client client) ≡ record client { proxy_count = pos k }
unfolding add_client_proxies clear_client
node_totals_client k h client = cc (from_zero k h)

map-map :
    {A : Type 0} (f g h : A → A) (o : Option A)
    → ((a : A) → f (g a) ≡ h a)
    → Option.map f (Option.map g o) ≡ Option.map h o
map-map f g h none e = refl
map-map f g h (some a) e = ap {B = Option _} some (e a)

-- After recomputeNodeCountsLocked each node's counters are the number of online clients that are
-- connected to it and the number of online proxies that run on it, each client's counter is the
-- number of its online proxies, no other field of a node or a client has changed, and none was
-- added or lost. (The store holds fewer than 2^63 clients and proxies.)
pub recompute_node_counts_lem :
    (state : ClusterState)
    → length (values state.clients) < 9_223_372_036_854_775_808
    → length (values state.proxies) < 9_223_372_036_854_775_808
    → ((id : Text)
        → get id (recompute_node_counts state).nodes
          ≡ Option.map (counted_node state id) (get id state.nodes))
      × ((id : Text)
          → get id (recompute_node_counts state).clients
            ≡ Option.map (counted_client state id) (get id state.clients))
unfolding recompute_node_counts
recompute_node_counts_lem state hc hp = (
  λ id.
      let k = count_if (counts_for id) (values state.clients) in
      let j = count_if (runs_on id) (values state.proxies) in
      rw (get-count_node_proxies, get-count_clients, get-map_values)
        (ap (Option.map (add_proxies j))
            (map-map (add_clients k) clear_node (λ n. add_clients k (clear_node n)) _ (λ n. refl))
          ∙ map-map (add_proxies j) (λ n. add_clients k (clear_node n)) (counted_node state id) _
              (node_totals k j
                (omega (arith, count_if-le-length (counts_for id) (values state.clients)))
                (omega (arith, count_if-le-length (runs_on id) (values state.proxies))))),
  λ id.
      let j = count_if (belongs_to id) (values state.proxies) in
      rw (get-count_client_proxies, get-map_values)
        (map-map (add_client_proxies j) clear_client (counted_client state id) _ (
          node_totals_client j
            (omega (arith, count_if-le-length (belongs_to id) (values state.proxies))))),
)
