-- ===== src/Snapshot/Hides.antt =====
-- What the view shows, and what it does not.
use mathlib.Core.List.{Mem, mem-cons_self, mem-cons_of_mem}
use frp_cluster.Base.{
  ℕ, ◌+◌, ◌≤◌, ◌≡◌, refl, sym, ap, ◌∙◌, ◌⊎◌, inl, inr, Bool, true, false, not, List, [], ◌∷◌, map,
  pos, ◌+ℤ◌, arith, All, All-filter, length, length-take, take, count_if, Bool-cases, if◌then◌else◌,
}
use frp_cluster.Sort.{length-sort_by}
use frp_cluster.Sort.Members.{All-sort_by}
use frp_cluster.Text.{Text, text_eq, text_eq_iff, str}
use frp_cluster.Dict.{Dict, get, put, get-put, values, map_values}
use frp_cluster.Types.{
  Instant, ServerNode, Client, Proxy, ClusterState, node_status_online, node_status_offline,
  client_status_online, client_status_offline,
}
use frp_cluster.Selection.{is_live}
use frp_cluster.Snapshot.{
  ClientView, is_online, view_node, mark_online, node_online, or_false, view_client, is_usable,
  shown_events, is_client_online, summary_of, snapshot_with, snapshot,
}

-- the state without the tokens of its nodes
abbrev pub forget_token : ServerNode → ServerNode
forget_token node = record node { node_token = [] }

abbrev pub without_node_tokens : ClusterState → ClusterState
without_node_tokens state = record state { nodes = map_values forget_token state.nodes }

view_node-values :
    (now : Instant) (nodes : Dict ServerNode)
    → map (view_node now) (values (map_values forget_token nodes))
      ≡ map (view_node now) (values nodes)
unfolding view_node values map_values is_online
view_node-values now [] = refl
view_node-values now ((k, node) ∷ nodes) =
    ap (◌∷◌ (view_node now node)) (view_node-values now nodes)

hides_node_tokens :
    (state : ClusterState) (now : Instant)
    → snapshot (without_node_tokens state) now ≡ snapshot state now
unfolding snapshot snapshot_with
hides_node_tokens state now = rw (view_node-values now state.nodes) refl

offline_not_online : text_eq node_status_offline node_status_online ≡ false
unfolding text_eq str
offline_not_online = refl

-- a node is shown as online if it is live
view_node-is_live :
    (node : ServerNode) (now : Instant) → is_online (view_node now node) ≡ is_live node now
unfolding is_online view_node is_live
view_node-is_live node now = elim (Bool-cases (text_eq node.status node_status_online)) [
  | inl e ↦ ground (arith, e, offline_not_online)
  | inr e ↦ ground (arith, e)
]

-- some node of the list has this identifier and is live
abbrev pub LiveNode : Text → Instant → List ServerNode → Type 0
LiveNode node_id now nodes =
    (node : ServerNode) × Mem node nodes × (node.id ≡ node_id) × (is_live node now ≡ true)

node_online-put :
    (k j : Text) (b : Bool) (online : Dict Bool)
    → node_online k (put j b online) ≡ (if text_eq j k then b else node_online k online)
unfolding node_online or_false
node_online-put k j b online = ground (arith, get-put j k b online)

mark_online-LiveNode :
    (node_id : Text) (now : Instant) (nodes : List ServerNode) (acc : Dict Bool)
    → node_online node_id (mark_online (map (view_node now) nodes) acc) ≡ true
    → LiveNode node_id now nodes ⊎ (node_online node_id acc ≡ true)
unfolding mark_online
mark_online-LiveNode node_id now [] acc h = inr h
mark_online-LiveNode node_id now (node ∷ nodes) acc h =
    elim (mark_online-LiveNode node_id now nodes _ h) [
      | inl (other, m, i, l) ↦ inl (other, mem-cons_of_mem node m, i, l)
      | inr e ↦ elim (Bool-cases (text_eq node.id node_id)) [
        | inl t ↦ inl (node, mem-cons_self, (text_eq_iff node.id node_id).0 t, its_own e t)
        | inr t ↦ inr (another e t)
      ]
    ]
  where
    marked :
        node_online node_id (put (view_node now node).id (is_online (view_node now node)) acc)
          ≡ true
        → (if text_eq node.id node_id then is_live node now else node_online node_id acc) ≡ true
    marked e =
        unfold view_node in
        cc (
          node_online-put node_id node.id (is_online (view_node now node)) acc,
          view_node-is_live node now,
          e,
        )

    its_own :
        node_online node_id (put (view_node now node).id (is_online (view_node now node)) acc)
          ≡ true
        → text_eq node.id node_id ≡ true
        → is_live node now ≡ true
    its_own e t = ground (arith, marked e)

    another :
        node_online node_id (put (view_node now node).id (is_online (view_node now node)) acc)
          ≡ true
        → text_eq node.id node_id ≡ false
        → node_online node_id acc ≡ true
    another e t = ground (arith, marked e)

client_offline_not_online : text_eq client_status_offline client_status_online ≡ false
unfolding text_eq str
client_offline_not_online = refl

-- a client that is shown as online was online, on a node that is live
abbrev pub IsOnLiveNode : Instant → List ServerNode → ClientView → Type 0
IsOnLiveNode now nodes view = is_client_online view ≡ true → LiveNode view.client.node_id now nodes

view_client-IsOnLiveNode :
    (now : Instant) (nodes : List ServerNode) (proxies : List Proxy) (client : Client)
    → IsOnLiveNode now nodes
        (view_client (mark_online (map (view_node now) nodes) []) proxies client)
unfolding view_client is_client_online
view_client-IsOnLiveNode now nodes proxies client h =
    let online = mark_online (map (view_node now) nodes) [] in
    elim (Bool-cases (node_online client.node_id online)) [
      | inl e ↦ elim (mark_online-LiveNode client.node_id now nodes [] e) [
        | inl found ↦ found
        | inr none_marked ↦ absurd (unfold node_online or_false get in ground (arith, none_marked))
      ]
      | inr e ↦ absurd (ground (arith, e, h, client_offline_not_online))
    ]

clients-IsOnLiveNode :
    (now : Instant) (nodes : List ServerNode) (proxies : List Proxy) (clients : List Client)
    → All
        (IsOnLiveNode now nodes)
        (map (view_client (mark_online (map (view_node now) nodes) []) proxies) clients)
clients-IsOnLiveNode now nodes proxies [] = tt
clients-IsOnLiveNode now nodes proxies (client ∷ clients) = (
  view_client-IsOnLiveNode now nodes proxies client,
  clients-IsOnLiveNode now nodes proxies clients,
)

count_if-both :
    (p : ServerNode → Bool) (l : List ServerNode)
    → count_if p l + count_if (λ x. not (p x)) l ≡ length l
unfolding count_if
count_if-both p [] = refl
count_if-both p (x ∷ l) = elim (Bool-cases (p x)) [
  | inl e ↦ ground (arith, e, count_if-both p l)
  | inr e ↦ ground (arith, e, count_if-both p l)
]

pos-add : (a b : ℕ) → pos a +ℤ pos b ≡ pos (a + b)
unfolding ◌+ℤ◌
pos-add a b = ground arith

length-take-le {ℓ} : {A : Type ℓ} (n : ℕ) (l : List A) → length (take n l) ≤ n
length-take-le n l = omega (arith, length-take n l)

-- What the interface is shown does not depend on the tokens of the nodes. A client is shown as
-- online only if a node that is in the state under the client's node identifier, and is live now,
-- carries it; every join token that is shown can still be used; at most 100 events are shown; and
-- the numbers of online and of offline nodes add up to the number of the nodes shown.
pub snapshot_lem :
    (state : ClusterState) (now : Instant)
    → (snapshot (without_node_tokens state) now ≡ snapshot state now)
      × All (IsOnLiveNode now (values state.nodes)) (snapshot state now).clients
      × All (λ token. is_usable now token ≡ true) (snapshot state now).tokens
      × (length (snapshot state now).events ≤ 100)
      × ((snapshot state now).summary.online_nodes +ℤ (snapshot state now).summary.offline_nodes
          ≡ pos (length (snapshot state now).nodes))
unfolding snapshot snapshot_with summary_of
snapshot_lem state now = (
  hides_node_tokens state now,
  All-sort_by _ _ _ (clients-IsOnLiveNode now (values state.nodes) _ (values state.clients)),
  All-sort_by _ _ _ (All-filter (is_usable now) (values state.tokens)),
  length-take-le shown_events _,
  pos-add _ _
      ∙ ap pos (
          count_if-both is_online (map (view_node now) (values state.nodes))
          ∙ sym (length-sort_by _ _)),
)
