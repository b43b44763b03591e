-- ===== src/Examples/Nodes.antt =====
-- Joining, heartbeats, leaving and saving in the small cluster.
use mathlib.Core.Option
use frp_cluster.Base.{length, int_le, ◌<◌, ◌≤◌}
use frp_cluster.Dict.{remove}
use frp_cluster.Requests.{invalid_token, token_expired}
use frp_cluster.Types.{JoinToken}
use frp_cluster.Nodes.Join.{joins_as}
use frp_cluster.Base.{
  List, [], arith, false, if◌then◌else◌, none, pos, refl, some, true, ◌++◌, ◌∷◌, ◌≡◌, ◌≢◌, ◌⊎◌,
}
use frp_cluster.Counts.{recompute_node_counts}
use frp_cluster.Counts.Totals.{counted_client, counted_node, recompute_node_counts_lem}
use frp_cluster.Dict.{get, values}
use frp_cluster.Examples.{
  a_id, a_node, b_id, beat, cluster, d_id, env, join_request, noon, s_id, store, t_id, t_token,
}
use frp_cluster.Ids.{id_runes, is_id_edge, is_id_rune, is_separator, sanitize_id}
use frp_cluster.Nodes.{
  admin_leave_node, check_leave, heartbeat_node_with_request, leave, leave_node,
  validate_node_token,
}
use frp_cluster.Nodes.Joining.{clean_join_request, fill_join_request, join_node}
use frp_cluster.Nodes.Guards.{node_token_guards}
use frp_cluster.Nodes.Heartbeat.{IsCountable, beaten, heartbeat_lem}
use frp_cluster.Nodes.Join.{join_lem, join_refuses}
use frp_cluster.Nodes.Leave.{LeavesClient, ProxiesClosed, leave_lem}
use frp_cluster.Nodes.Offline.{departed}
use frp_cluster.Requests.{
  err, invalid_join_request, node_not_found, node_token_mismatch, node_token_required, ok,
  random_failed, token_used,
}
use frp_cluster.Run.{Reaches, run, start, step, token_op}
use frp_cluster.Run.Invariant.{reachable-IsSound}
use frp_cluster.Run.Keys.{IsKeyed}
use frp_cluster.Selection.{is_live}
use frp_cluster.Store.{Store, new_memory_store, default_state, save_locked}
use frp_cluster.Store.Saving.{IsUntouched, IsWritten, Saves, save_locked_atomic}
use frp_cluster.Text.{
  Text, is_space, lower, str, text_eq, to_lower, trim_by, trim_left_by, trim_right_by, trim_space,
}
use frp_cluster.Tokens.Uses.{consume_each, spent, token_budget}
use frp_cluster.Types.{Instant, ServerNode}

a_is_clean : sanitize_id a_id ≡ a_id
unfolding sanitize_id id_runes is_id_rune is_separator is_id_edge trim_by trim_left_by trim_right_by
    trim_space to_lower lower is_space
a_is_clean = refl

-- the first node of the cluster under its identifier
a_found : get (sanitize_id a_id) store.state.nodes ≡ some a_node
unfolding get text_eq
a_found = rw a_is_clean refl

countable : IsCountable store.state
unfolding values
countable = (omega arith, omega arith)

given : s_id ≢ []
given e = cc e

admitted : check_leave true a_node s_id ≡ ok tt
unfolding check_leave validate_node_token text_eq
admitted = refl

token_found : get join_request.token store.state.tokens ≡ some t_token
unfolding get text_eq fill_join_request clean_join_request
token_found = refl

-- a join, within the time of the token
abbrev early : List (Text × Instant)
early = (d_id, noon) ∷ []

-- a new store with a state file
abbrev new_store : Store
new_store = record new_memory_store { path = str "state.json" }

one_run : Reaches new_store (run (token_op (pos 0) (pos 1)) env new_store)
one_run = step (token_op (pos 0) (pos 1)) env start

abbrev first_store : Store
first_store = run (token_op (pos 0) (pos 1)) env new_store

new_is_default : new_store.state ≡ default_state
unfolding new_memory_store default_state
new_is_default = refl

node_token_guards_example :
    (get (sanitize_id a_id) store.state.nodes ≡ none
      → (heartbeat_node_with_request a_id beat env store ≡ (err node_not_found, store))
        × (leave_node a_id t_id env store ≡ (err node_not_found, store))
        × (admin_leave_node a_id env store ≡ (err node_not_found, store)))
    × ((node : ServerNode)
        → get (sanitize_id a_id) store.state.nodes ≡ some node
        → (beat.node_token ≡ []
            → heartbeat_node_with_request a_id beat env store ≡ (err node_token_required, store))
          × (beat.node_token ≢ []
              → beat.node_token ≢ node.node_token
              → heartbeat_node_with_request a_id beat env store ≡ (err node_token_mismatch, store))
          × (leave_node a_id [] env store ≡ (err node_token_required, store))
          × (t_id ≢ []
              → t_id ≢ node.node_token
              → leave_node a_id t_id env store ≡ (err node_token_mismatch, store)))
node_token_guards_example = node_token_guards a_id beat t_id env store

heartbeat_lem_example :
    ((j : Text)
      → get j (heartbeat_node_with_request a_id beat env store).1.state.nodes
        ≡ Option.map (counted_node store.state j) (
            if text_eq (sanitize_id a_id) j
            then some (beaten beat env.now a_node)
            else get j store.state.nodes))
    × (Saves (heartbeat_node_with_request a_id beat env store).1.state env store
        → (heartbeat_node_with_request a_id beat env store).0
          ≡ ok (counted_node store.state (sanitize_id a_id) (beaten beat env.now a_node)))
    × (is_live (counted_node store.state (sanitize_id a_id) (beaten beat env.now a_node)) env.now
        ≡ true)
heartbeat_lem_example = heartbeat_lem a_id beat env store a_node a_found refl given countable

leave_lem_example :
    (get (sanitize_id a_id) (leave a_id s_id true env store).1.state.nodes
      ≡ some (departed env.now a_node))
    × (is_live (departed env.now a_node) env.now ≡ false)
    × ((j : Text)
        → LeavesClient
            (sanitize_id a_id)
            (get j store.state.clients)
            (get j (leave a_id s_id true env store).1.state.clients))
    × ProxiesClosed (sanitize_id a_id) (leave a_id s_id true env store).1.state
    × (Saves (leave a_id s_id true env store).1.state env store
        → (leave a_id s_id true env store).0 ≡ ok (departed env.now a_node))
leave_lem_example = leave_lem a_id s_id true env store a_node a_found admitted countable

is_named : sanitize_id join_request.node_id ≢ []
unfolding sanitize_id id_runes is_id_rune is_separator is_id_edge trim_by trim_left_by trim_right_by
    trim_space to_lower lower is_space
is_named e = cc e

is_placed : trim_space join_request.public_addr ≢ []
unfolding sanitize_id id_runes is_id_rune is_separator is_id_edge trim_by trim_left_by trim_right_by
    trim_space to_lower lower is_space
is_placed e = cc e

join_lem_example :
    let node_id = sanitize_id join_request.node_id in
    let secret = str "node" ++ str "_" ++ s_id in
    let node = joins_as join_request secret env.now (get node_id store.state.nodes) in
    let after = (join_node join_request env store).1.state in
    ((j : Text)
      → get j after.nodes ≡ (if text_eq node_id j then some node else get j store.state.nodes))
    × (is_live node env.now ≡ true)
    × ((j : Text)
        → get j after.tokens ≡ (
            if text_eq join_request.token j
            then some
                (record t_token { uses_left = pos 0; used_by = t_token.used_by ++ node_id ∷ [] })
            else get j store.state.tokens))
    × (validate_node_token node secret ≡ ok tt)
    × (Saves after env store
        → (join_node join_request env store).0
          ≡ ok (record {
            node = node;
            node_token = secret;
            frps_config_url = str "/api/v1/config/frps?node_id=" ++ node_id;
          }))
join_lem_example =
    join_lem join_request env store s_id t_token 0 is_named is_placed refl token_found refl
      (omega arith)

join_refuses_example :
    ((sanitize_id join_request.node_id ≡ []) ⊎ (trim_space join_request.public_addr ≡ [])
      → join_node join_request env store ≡ (err invalid_join_request, store))
    × (sanitize_id join_request.node_id ≢ []
        → trim_space join_request.public_addr ≢ []
        → env.random ≡ none
        → join_node join_request env store ≡ (err random_failed, store))
    × ((random : Text)
        → sanitize_id join_request.node_id ≢ []
        → trim_space join_request.public_addr ≢ []
        → env.random ≡ some random
        → (get join_request.token store.state.tokens ≡ none
            → join_node join_request env store ≡ (err invalid_token, store))
          × ((token : JoinToken)
              → get join_request.token store.state.tokens ≡ some token
              → token.expires_at ≤ env.now
              → join_node join_request env store ≡ (
                err token_expired,
                record store {
                  state = record store.state {
                    tokens = remove join_request.token store.state.tokens;
                  };
                },
              ))
          × ((token : JoinToken)
              → get join_request.token store.state.tokens ≡ some token
              → env.now < token.expires_at
              → int_le token.uses_left (pos 0) ≡ true
              → join_node join_request env store ≡ (err token_used, store)))
join_refuses_example = join_refuses join_request env store

token_budget_example :
    ((consume_each t_id early cluster).0 ≡ ok tt)
    × (get t_id (consume_each t_id early cluster).1.tokens ≡ some (spent t_token 0 early))
    × ((consume_each t_id (early ++ (b_id, noon) ∷ []) cluster).0 ≡ err token_used)
unfolding get text_eq
token_budget_example =
    token_budget t_id early (b_id, noon) cluster t_token refl refl (omega arith, (omega arith, tt))

recompute_node_counts_lem_example :
    ((id : Text)
      → get id (recompute_node_counts cluster).nodes
        ≡ Option.map (counted_node cluster id) (get id cluster.nodes))
    × ((id : Text)
        → get id (recompute_node_counts cluster).clients
          ≡ Option.map (counted_client cluster id) (get id cluster.clients))
unfolding values
recompute_node_counts_lem_example = recompute_node_counts_lem cluster (omega arith) (omega arith)

save_locked_atomic_example :
    ((save_locked env store).1.state ≡ store.state)
    × (IsWritten (save_locked env store).0 store (save_locked env store).1
        ⊎ IsUntouched (save_locked env store).0 store (save_locked env store).1)
save_locked_atomic_example = save_locked_atomic env store (λ e. cc e)

reachable-IsSound_example :
    IsKeyed first_store.state
    × (length first_store.state.events ≤ 500)
    × (length first_store.state.traffic_samples ≤ 100_000)
reachable-IsSound_example = reachable-IsSound new_store first_store new_is_default one_run
