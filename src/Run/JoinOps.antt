-- ===== src/Run/JoinOps.antt =====
-- Making join tokens and joining keep a state sound.
use frp_cluster.Base.{◌≡◌, refl, sym, subst, Option, none, some, [], ℤ, inl, inr, Bool-cases, ◌||◌}
use frp_cluster.Text.{Text, str, text_eq}
use frp_cluster.Dict.{Dict, get}
use frp_cluster.Types.{Instant, ServerNode, JoinToken, ClusterState}
use frp_cluster.Requests.{JoinRequest, Result, ok, err}
use frp_cluster.Store.{Env, Store}
use frp_cluster.Tokens.{
  new_random_token, store_token, create_with, create_join_token, consume_join_token,
}
use frp_cluster.Tokens.Uses.{with_tokens, consume-tokens}
use frp_cluster.Nodes.Joining.{
  clean_join_request, fill_join_request, new_node, keep_existing, joined_node, let_in,
  join_admitted, join_with, join_node,
}
use frp_cluster.Run.Keys.{KeysAreIds-put, node_id_of}
use frp_cluster.Run.Sound.{IsSound, commit-IsSound, add_event-IsSound}

create_with-IsSound :
    (o : Option Text) (ttl uses : ℤ) (env : Env) (s : Store)
    → IsSound s.state
    → IsSound (create_with o ttl uses env s).1.state
unfolding create_with store_token
create_with-IsSound none ttl uses env s h = h
create_with-IsSound (some value) ttl uses env s h = commit-IsSound _ _ env s (
    add_event-IsSound _ _ _ _ _ _ env.now _
      (record { nodes = h.keyed.nodes; clients = h.keyed.clients; proxies = h.keyed.proxies })
      h.samples)

pub create_join_token-IsSound :
    (ttl uses : ℤ) (env : Env) (s : Store)
    → IsSound s.state
    → IsSound (create_join_token ttl uses env s).1.state
unfolding create_join_token
create_join_token-IsSound ttl uses env s h =
    create_with-IsSound (new_random_token (str "join") env.random) ttl uses env s h

keep_existing-id : (o : Option ServerNode) (node : ServerNode) → (keep_existing o node).id ≡ node.id
unfolding keep_existing
keep_existing-id none node = refl
keep_existing-id (some existing) node = refl

let_in-IsSound :
    (r : JoinRequest) (token : Text) (now : Instant) (state : ClusterState)
    → IsSound state
    → IsSound (let_in r token now state)
unfolding let_in joined_node new_node
let_in-IsSound r token now state h =
    add_event-IsSound _ _ _ _ _ _ now _
      (record {
        nodes =
            KeysAreIds-put node_id_of r.node_id (joined_node r token now state) state.nodes
              (keep_existing-id (get r.node_id state.nodes) (new_node r token now)) h.keyed.nodes;
        clients = h.keyed.clients;
        proxies = h.keyed.proxies;
      })
      h.samples

with_tokens-IsSound :
    (tokens : Dict JoinToken) (state : ClusterState)
    → IsSound state
    → IsSound (with_tokens tokens state)
with_tokens-IsSound tokens state h = record {
  keyed = record { nodes = h.keyed.nodes; clients = h.keyed.clients; proxies = h.keyed.proxies };
  events = h.events;
  samples = h.samples;
}

join_admitted-IsSound :
    (r : JoinRequest) (token : Text) (o : Result (Unit {0}) × ClusterState) (env : Env) (s : Store)
    → IsSound o.1
    → IsSound (join_admitted r token o env s).1.state
unfolding join_admitted
join_admitted-IsSound r token (ok _, state) env s h =
    commit-IsSound _ _ env s (let_in-IsSound r token env.now state h)
join_admitted-IsSound r token (err e, state) env s h = h

join_with-IsSound :
    (r : JoinRequest) (o : Option Text) (env : Env) (s : Store)
    → IsSound s.state
    → IsSound (join_with r o env s).1.state
unfolding join_with
join_with-IsSound r none env s h = h
join_with-IsSound r (some token) env s h =
    let only = consume-tokens r.token r.node_id env.now s.state in
    join_admitted-IsSound r token (consume_join_token r.token r.node_id env.now s.state) env s
      (subst IsSound (sym only.1) (with_tokens-IsSound only.0 s.state h))

pub join_node-IsSound :
    (request : JoinRequest) (env : Env) (s : Store)
    → IsSound s.state
    → IsSound (join_node request env s).1.state
unfolding join_node
join_node-IsSound request env s h =
    let r = clean_join_request request in
    elim (Bool-cases (text_eq r.node_id [] || text_eq r.public_addr [])) [
      | inl bad ↦ rw bad h
      | inr good ↦ rw good (
          join_with-IsSound (fill_join_request r) (new_random_token (str "node") env.random) env s
            h)
    ]
