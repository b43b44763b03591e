-- ===== src/Clients/Targets.antt =====
-- What a manual or an automatic switch sets, and what the client is then given.
use mathlib.Core.Logic.Or
use mathlib.Core.Option.{some-injective}
use mathlib.Core.List.{Mem, mem-cons_self, mem-cons, not-mem-nil}
use frp_cluster.Base.{
  ◌≡◌, ◌≢◌, refl, sym, true, false, not, none, some, List, [], ◌∷◌, ℤ, inl, inr, Bool-cases,
  if◌then◌else◌, filter, filter-All, All,
}
use frp_cluster.Text.{text_differs, Text, text_eq, text_eq_iff, text_eq_refl, text_in}
use frp_cluster.Dict.{Dict, get, get-adjust, values}
use frp_cluster.Ids.{sanitize_id}
use frp_cluster.Types.{
  Instant, ServerNode, Client, ClusterState, config_mode_single, migration_state_manual,
}
use frp_cluster.Requests.{ok, err, client_not_found, node_not_found, no_available_node}
use frp_cluster.Selection.{
  is_live, refresh_node, online_nodes, excluded_ids, filter_excluded_nodes, select_nodes_for_client,
  select_nodes_locked,
}
use frp_cluster.Selection.Modes.{manual_target_wins}
use frp_cluster.Events.{add_event}
use frp_cluster.Store.{Env, Store, commit}
use frp_cluster.Store.Saving.{Saves, state-commit, result-commit}
use frp_cluster.Clients.{
  set_target, with_target, manual_reason, manual_switch, check_target, when_target,
  set_target_found, set_client_target, auto_switch_found, auto_switch_client_target, record_switch,
}

-- a live node of the map is among the online nodes
mem-online_nodes :
    (k : Text) (m : Dict ServerNode) (node : ServerNode) (now : Instant)
    → get k m ≡ some node
    → is_live node now ≡ true
    → Mem (refresh_node node now) (online_nodes m now)
unfolding online_nodes filter values get
mem-online_nodes k [] node now found live = absurd (cc found)
mem-online_nodes k ((j, w) ∷ m) node now found live = elim (Bool-cases (text_eq j k)) [
  | inl e ↦ rw (some-injective w node (rw e at found), live) mem-cons_self
  | inr e ↦
      let rest = mem-online_nodes k m node now (rw e at found) live in
      elim (Bool-cases (is_live w now)) [
        | inl l ↦ rw l (mem-cons.1 (Or.inr rest))
        | inr l ↦ rw l rest
      ]
]

All-kept :
    (nodes : List ServerNode) → All (λ (node : ServerNode). not (text_in node.id []) ≡ true) nodes
unfolding text_in
All-kept [] = tt
All-kept (node ∷ nodes) = (refl, All-kept nodes)

nothing_excluded : (nodes : List ServerNode) → filter_excluded_nodes nodes [] ≡ nodes
unfolding filter_excluded_nodes excluded_ids filter
nothing_excluded nodes = filter-All (λ node. not (text_in node.id [])) nodes (All-kept nodes)

switch_taken :
    (client node : Text) (env : Env) (s : Store) (c : Client) (n : ServerNode)
    → sanitize_id node ≢ []
    → get (sanitize_id client) s.state.clients ≡ some c
    → get (sanitize_id node) s.state.nodes ≡ some n
    → is_live n env.now ≡ true
    → set_client_target client node env s
      ≡ commit
          (set_target (sanitize_id node) migration_state_manual manual_reason env.now c)
          (manual_switch (sanitize_id client) c (sanitize_id node) env.now s.state)
          env
          s
unfolding set_client_target set_target_found check_target when_target
switch_taken client node env s c n given found at_node live =
    rw (found, text_differs (sanitize_id node) [] given, at_node, live) refl

-- the client as the manual switch leaves it
abbrev pub sent_to : Text → Instant → Client → Client
sent_to node_id now client = set_target node_id migration_state_manual manual_reason now client

clients-switch :
    (client_id node_id j : Text) (c : Client) (now : Instant) (state : ClusterState)
    → get client_id state.clients ≡ some c
    → get j (manual_switch client_id c node_id now state).clients
      ≡ (if text_eq client_id j then some (sent_to node_id now c) else get j state.clients)
unfolding manual_switch add_event record_switch with_target
clients-switch client_id node_id j c now state found = elim (Bool-cases (text_eq client_id j)) [
  | inl e ↦ rw (get-adjust, e, sym ((text_eq_iff client_id j).0 e), found) refl
  | inr e ↦ rw (get-adjust, e) refl
]

nodes-switch :
    (client_id node_id : Text) (c : Client) (now : Instant) (state : ClusterState)
    → (manual_switch client_id c node_id now state).nodes ≡ state.nodes
unfolding manual_switch add_event record_switch with_target
nodes-switch client_id node_id c now state = refl

given_to :
    (l : List ServerNode) (target : ServerNode) (client : Client) (limit : ℤ)
    → Mem target l
    → target.id ≡ client.preferred_node_id
    → client.preferred_node_id ≢ []
    → client.migration_state ≡ migration_state_manual
    → (n : ServerNode) × (n.id ≡ client.preferred_node_id)
      × (select_nodes_for_client l (some client) config_mode_single limit ≡ ok (n ∷ []))
given_to [] target client limit m named given by_hand = absurd (not-mem-nil m)
given_to (node ∷ nodes) target client limit m named given by_hand =
    let (n, id, here, single, failover) =
      manual_target_wins node nodes client target m named given by_hand limit in
    (n, id, single)

-- A manual switch of a known client to a live node sets the client's target, leaves every other
-- client as it was, and takes effect: in the state that it leaves, the client that asks for its
-- configuration in single mode and excludes no node is given that node alone, at every time at
-- which the node is live. If the state is saved, the caller is given the client with its target.
-- (The node is kept under its own identifier.)
pub set_client_target_lem :
    (client node : Text) (env : Env) (s : Store) (c : Client) (n : ServerNode) (limit : ℤ)
    (later : Instant)
    → sanitize_id node ≢ []
    → get (sanitize_id client) s.state.clients ≡ some c
    → get (sanitize_id node) s.state.nodes ≡ some n
    → n.id ≡ sanitize_id node
    → is_live n env.now ≡ true
    → is_live n later ≡ true
    → ((j : Text)
        → get j (set_client_target client node env s).1.state.clients ≡ (
            if text_eq (sanitize_id client) j
            then some (sent_to (sanitize_id node) env.now c)
            else get j s.state.clients))
      × ((m : ServerNode) × (m.id ≡ sanitize_id node)
          × (select_nodes_locked
                (set_client_target client node env s).1.state
                client
                config_mode_single
                limit
                []
                later
              ≡ ok (m ∷ [])))
      × (Saves (set_client_target client node env s).1.state env s
          → (set_client_target client node env s).0 ≡ ok (sent_to (sanitize_id node) env.now c))
unfolding select_nodes_locked set_target refresh_node
set_client_target_lem client node env s c n limit later given found at_node id live still =
    let done = manual_switch (sanitize_id client) c (sanitize_id node) env.now s.state in
    let target = sent_to (sanitize_id node) env.now c in
    let clients = λ (j : Text).
      clients-switch (sanitize_id client) (sanitize_id node) j c env.now s.state found in
    rw (switch_taken client node env s c n given found at_node live, state-commit target done env s)
      (
        clients,
        rw
            (
              nodes-switch (sanitize_id client) (sanitize_id node) c env.now s.state,
              nothing_excluded,
              clients (sanitize_id client),
              text_eq_refl (sanitize_id client),
            )
            (given_to (online_nodes s.state.nodes later) (refresh_node n later) target limit
              (mem-online_nodes (sanitize_id node) s.state.nodes n later at_node still) id given
              refl),
        λ saves. result-commit target done env s saves,
      )

-- A manual or an automatic switch of a client that is not known, or to a node that is not known or
-- not live, is answered by the error that says so, in this order, and leaves the store as it was.
-- (A manual switch to no node is no such switch.)
pub switch_refuses :
    (client node reason : Text) (env : Env) (s : Store)
    → (get (sanitize_id client) s.state.clients ≡ none
        → (set_client_target client node env s ≡ (err client_not_found, s))
          × (auto_switch_client_target client node reason env s ≡ (err client_not_found, s)))
      × ((c : Client)
          → sanitize_id node ≢ []
          → get (sanitize_id client) s.state.clients ≡ some c
          → get (sanitize_id node) s.state.nodes ≡ none
          → (set_client_target client node env s ≡ (err node_not_found, s))
            × (auto_switch_client_target client node reason env s ≡ (err node_not_found, s)))
      × ((c : Client) (n : ServerNode)
          → sanitize_id node ≢ []
          → get (sanitize_id client) s.state.clients ≡ some c
          → get (sanitize_id node) s.state.nodes ≡ some n
          → is_live n env.now ≡ false
          → (set_client_target client node env s ≡ (err no_available_node, s))
            × (auto_switch_client_target client node reason env s ≡ (err no_available_node, s)))
unfolding set_client_target set_target_found auto_switch_client_target auto_switch_found
    check_target when_target
switch_refuses client node reason env s = (
  λ e. rw e (refl, refl),
  λ c given found missing.
      rw (found, text_differs (sanitize_id node) [] given, missing) (refl, refl),
  λ c n given found at_node late.
      rw (found, text_differs (sanitize_id node) [] given, at_node, late) (refl, refl),
)
