-- ===== src/Run/StateOps.antt =====
-- Merging a peer's state and changing the configuration keep a state sound.
use frp_cluster.Base.{
  ◌≡◌, refl, Bool, true, false, Option, none, some, List, [], ◌∷◌, inl, inr, Bool-cases,
  if◌then◌else◌,
}
use frp_cluster.Text.{Text, text_eq}
use frp_cluster.Dict.{Dict, get, put}
use frp_cluster.Ids.{normalize_control_url}
use frp_cluster.Types.{Instant, ServerNode, Client, Proxy, ClusterConfig, ClusterState}
use frp_cluster.Events.Log.{length-last_n}
use frp_cluster.Events.{max_events}
use frp_cluster.Traffic.{max_traffic_samples, merge_traffic_samples}
use frp_cluster.Store.{Env, Store}
use frp_cluster.Counts.{recompute_node_counts}
use frp_cluster.Merge.{
  RemoteState, node_wins, keep_token, remote_node, merge_named_node, merge_node, merge_nodes,
  merge_entry, merge_entries, is_newer_entry, named_client, named_proxy, merge_clients,
  merge_proxies, merge_events, merged_state, merge_state, normalize_cluster_state,
}
use frp_cluster.Config.{
  ControlPlaneOptions, configured, with_config, with_state, configure_control_plane, ConfigUpdate,
  set_auto_migration, is_negative_gap, update_config,
}
use frp_cluster.Run.Keys.{
  KeysAreIds, KeysAreIds-put, node_id_of, client_id_of, proxy_id_of, recompute-IsKeyed,
}
use frp_cluster.Run.Sound.{IsSound, commit-IsSound}

put_if :
    {V : Type 0} (id_of : V → Text) (b : Bool) (k : Text) (v : V) (m : Dict V)
    → id_of v ≡ k
    → KeysAreIds id_of m
    → KeysAreIds id_of (if b then put k v m else m)
put_if id_of true k v m own h = KeysAreIds-put id_of k v m own h
put_if id_of false k v m own h = h

keep_token-id : (node : ServerNode) (o : Option ServerNode) → (keep_token node o).id ≡ node.id
unfolding keep_token
keep_token-id node none = refl
keep_token-id node (some local) = refl

merge_node-keys :
    (key : Text) (o : Option ServerNode) (merged : Dict ServerNode × List Text)
    → KeysAreIds node_id_of merged.0
    → KeysAreIds node_id_of (merge_node key o merged).0
unfolding merge_node merge_named_node
merge_node-keys key none merged h = h
merge_node-keys key (some remote) merged h =
    let node = remote_node key remote in
    elim (Bool-cases (text_eq node.id [])) [
      | inl unnamed ↦ rw unnamed h
      | inr has_id ↦ rw has_id (
          put_if node_id_of (node_wins node (get node.id merged.0)) node.id
            (keep_token node (get node.id merged.0)) merged.0
            (keep_token-id node (get node.id merged.0)) h)
    ]

merge_nodes-keys :
    (remote : Dict (Option ServerNode)) (merged : Dict ServerNode × List Text)
    → KeysAreIds node_id_of merged.0
    → KeysAreIds node_id_of (merge_nodes remote merged).0
unfolding merge_nodes
merge_nodes-keys [] merged h = h
merge_nodes-keys ((key, o) ∷ rest) merged h =
    merge_nodes-keys rest (merge_node key o merged) (merge_node-keys key o merged h)

module _ {V : Type 0} (id_of : V → Text) (updated : V → Instant) (named : Text → V → V) where
  merge_entry-keys :
      (key : Text) (o : Option V) (m : Dict V)
      → KeysAreIds id_of m
      → KeysAreIds id_of (merge_entry id_of updated named key o m)
  unfolding merge_entry
  merge_entry-keys key none m h = h
  merge_entry-keys key (some remote) m h =
      let v = named key remote in
      elim (Bool-cases (text_eq (id_of v) [])) [
        | inl unnamed ↦ rw unnamed h
        | inr has_id ↦ rw has_id (
            put_if id_of (is_newer_entry id_of updated named v (get (id_of v) m)) (id_of v) v m refl
              h)
      ]

  merge_entries-keys :
      (remote : Dict (Option V)) (m : Dict V)
      → KeysAreIds id_of m
      → KeysAreIds id_of (merge_entries id_of updated named remote m)
  unfolding merge_entries
  merge_entries-keys [] m h = h
  merge_entries-keys ((key, o) ∷ rest) m h =
      merge_entries-keys rest (merge_entry id_of updated named key o m) (merge_entry-keys key o m h)

merged-IsSound :
    (remote : RemoteState) (url : Text) (now : Instant) (state : ClusterState)
    → IsSound state
    → IsSound (merged_state remote url now state)
unfolding merged_state recompute_node_counts merge_clients merge_proxies merge_events
    merge_traffic_samples
merged-IsSound remote url now state h = record {
  keyed = recompute-IsKeyed _ (record {
    nodes = merge_nodes-keys remote.nodes (state.nodes, _) h.keyed.nodes;
    clients =
        merge_entries-keys client_id_of (λ (c : Client). c.updated_at) named_client remote.clients
          state.clients h.keyed.clients;
    proxies =
        merge_entries-keys proxy_id_of (λ (p : Proxy). p.updated_at) named_proxy remote.proxies
          state.proxies h.keyed.proxies;
  });
  events = length-last_n max_events _;
  samples = length-last_n max_traffic_samples _;
}

pub merge_state-IsSound :
    (remote : RemoteState) (url : Text) (env : Env) (s : Store)
    → IsSound s.state
    → IsSound (merge_state remote url env s).1.state
unfolding merge_state
merge_state-IsSound remote url env s h =
    commit-IsSound tt _ env s (
      merged-IsSound (normalize_cluster_state remote) (normalize_control_url url) env.now s.state h)

with_config-IsSound :
    (config : ClusterConfig) (state : ClusterState)
    → IsSound state
    → IsSound (with_config config state)
unfolding with_config
with_config-IsSound config state h = record {
  keyed = record { nodes = h.keyed.nodes; clients = h.keyed.clients; proxies = h.keyed.proxies };
  events = h.events;
  samples = h.samples;
}

pub configure-IsSound :
    (opts : ControlPlaneOptions) (env : Env) (s : Store)
    → IsSound s.state
    → IsSound (configure_control_plane opts env s).1.state
unfolding configure_control_plane
configure-IsSound opts env s h =
    commit-IsSound tt _ env s (with_config-IsSound (configured opts s.state.config) s.state h)

pub update_config-IsSound :
    (update : ConfigUpdate) (env : Env) (s : Store)
    → IsSound s.state
    → IsSound (update_config update env s).1.state
unfolding update_config with_state
update_config-IsSound update env s h =
    elim (Bool-cases (is_negative_gap update.migration_score_gap)) [
      | inl negative ↦
          rw negative (
            with_config-IsSound (set_auto_migration update.auto_migration s.state.config) s.state h)
      | inr fine ↦ rw fine (commit-IsSound _ _ env s (with_config-IsSound _ s.state h))
    ]
