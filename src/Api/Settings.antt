-- ===== src/Api/Settings.antt =====
-- The settings of an administrator, which the operations open to nodes and peers do not change.
use frp_cluster.Base.{
  ◌≡◌, refl, ap, ◌∙◌, Bool, true, false, Option, none, some, inl, inr, Bool-cases, Option-cases,
  arith, ◌||◌, [],
}
use frp_cluster.Text.{Text, text_eq}
use frp_cluster.Dict.{get}
use frp_cluster.Ids.{sanitize_id, proxy_id}
use frp_cluster.Types.{Instant, ClusterConfig, ClusterState, ServerNode}
use frp_cluster.Requests.{Result, ok, err, JoinRequest, HeartbeatRequest}
use frp_cluster.Content.{PluginEvent}
use frp_cluster.Store.{Env, Store, Exec, commit}
use frp_cluster.Store.Saving.{state-commit}
use frp_cluster.Migrations.Keeps.{apply-SameMaps}
use frp_cluster.Nodes.{
  heartbeat_node_with_request, heartbeat_valid, heartbeat_found, heartbeat_state,
  heartbeat_reported, heartbeat_event, leave, leave_valid, leave_found, leave_node,
  admin_leave_node, leave_state, leave_event,
}
use frp_cluster.Nodes.Joining.{
  join_node, join_with, join_admitted, let_in, add_peer, clean_join_request,
}
use frp_cluster.Tokens.Uses.{consume-tokens}
use frp_cluster.Counts.{recompute_node_counts}
use frp_cluster.Events.{add_event}
use frp_cluster.Traffic.Reported.{record_traffic-SameBesides}
use frp_cluster.Plugin.{
  apply_plugin_event, plugin_state, node_seen, apply_op, apply_login, apply_new_proxy,
  apply_close_proxy, close_found, apply_logout, logout_found, apply_other, put_client,
}
use frp_cluster.Merge.{RemoteState, merge_state, merged_state, merge_config}

pub record SameSettings (a b : ClusterConfig) : Type 0 where
  pub auto_migration : a.auto_migration ≡ b.auto_migration
  pub migration_score_gap : a.migration_score_gap ≡ b.migration_score_gap
  pub public_entry_host : a.public_entry_host ≡ b.public_entry_host
  pub dns_update_hook : a.dns_update_hook ≡ b.dns_update_hook

pub SameSettings-refl : (a : ClusterConfig) → SameSettings a a
SameSettings-refl a = record {
  auto_migration = refl;
  migration_score_gap = refl;
  public_entry_host = refl;
  dns_update_hook = refl;
}

-- an operation under which the settings stay, whatever it returns
abbrev pub KeepsSettings : {A : Type 0} → Exec A → Type 0
KeepsSettings op = (env : Env) (s : Store) → SameSettings (op env s).1.state.config s.state.config

SameSettings-eq : (a b : ClusterConfig) → a ≡ b → SameSettings a b
SameSettings-eq a b e = rw e (SameSettings-refl b)

-- a commit of a state with the same settings
SameSettings-commit :
    {A : Type 0} (value : A) (state : ClusterState) (env : Env) (s : Store)
    → SameSettings state.config s.state.config
    → SameSettings (commit value state env s).1.state.config s.state.config
SameSettings-commit value state env s h = rw (state-commit value state env s) h

-- the configuration after a heartbeat's and a departure's change of the state
heartbeat_state-config :
    (node_id : Text) (r : HeartbeatRequest) (now : Instant) (state : ClusterState)
    → (heartbeat_state node_id r now state).config ≡ state.config
unfolding heartbeat_state heartbeat_reported recompute_node_counts
heartbeat_state-config node_id r now state =
    (apply-SameMaps now _).config ∙ (record_traffic-SameBesides node_id r.traffic now _).config

leave_state-config :
    (node_id : Text) (now : Instant) (state : ClusterState)
    → (leave_state node_id now state).config ≡ state.config
unfolding leave_state recompute_node_counts
leave_state-config node_id now state = (apply-SameMaps now _).config

heartbeat_valid-Keeps :
    (v : Result (Unit {0})) (node : ServerNode) (node_id : Text) (r : HeartbeatRequest)
    → KeepsSettings (heartbeat_valid v node node_id r)
unfolding heartbeat_valid heartbeat_event add_event
heartbeat_valid-Keeps (err e) node node_id r env s = SameSettings-refl s.state.config
heartbeat_valid-Keeps (ok _) node node_id r env s =
    SameSettings-commit _ _ env s
      (SameSettings-eq _ _ (heartbeat_state-config node_id r env.now s.state))

pub heartbeat-KeepsSettings :
    (id : Text) (r : HeartbeatRequest) → KeepsSettings (heartbeat_node_with_request id r)
unfolding heartbeat_node_with_request heartbeat_found
heartbeat-KeepsSettings id r env s = elim (Option-cases (get (sanitize_id id) s.state.nodes)) [
  | inl e ↦ rw e (SameSettings-refl s.state.config)
  | inr (node, e) ↦ rw e (heartbeat_valid-Keeps _ node (sanitize_id id) r env s)
]

leave_valid-Keeps :
    (v : Result (Unit {0})) (node : ServerNode) (node_id : Text)
    → KeepsSettings (leave_valid v node node_id)
unfolding leave_valid leave_event add_event
leave_valid-Keeps (err e) node node_id env s = SameSettings-refl s.state.config
leave_valid-Keeps (ok _) node node_id env s =
    SameSettings-commit _ _ env s (SameSettings-eq _ _ (leave_state-config node_id env.now s.state))

leave-Keeps :
    (id token : Text) (require_token : Bool) → KeepsSettings (leave id token require_token)
unfolding leave leave_found
leave-Keeps id token require_token env s =
    elim (Option-cases (get (sanitize_id id) s.state.nodes)) [
      | inl e ↦ rw e (SameSettings-refl s.state.config)
      | inr (node, e) ↦ rw e (leave_valid-Keeps _ node (sanitize_id id) env s)
    ]

pub admin_leave-KeepsSettings : (id : Text) → KeepsSettings (admin_leave_node id)
unfolding admin_leave_node
admin_leave-KeepsSettings id env s = leave-Keeps id [] false env s

pub leave-KeepsSettings : (id token : Text) → KeepsSettings (leave_node id token)
unfolding leave_node
leave-KeepsSettings id token env s = leave-Keeps id token true env s

pub merge_state-KeepsSettings :
    (remote : RemoteState) (url : Text) → KeepsSettings (merge_state remote url)
unfolding merge_state merged_state recompute_node_counts merge_config
merge_state-KeepsSettings remote url env s = SameSettings-commit _ _ env s (record {
  auto_migration = refl;
  migration_score_gap = refl;
  public_entry_host = refl;
  dns_update_hook = refl;
})

add_peer-SameSettings : (url : Text) (c : ClusterConfig) → SameSettings (add_peer url c) c
unfolding add_peer
add_peer-SameSettings url c = elim (Bool-cases (text_eq url [])) [
  | inl e ↦ rw e (SameSettings-refl c)
  | inr e ↦ rw e (record {
    auto_migration = refl;
    migration_score_gap = refl;
    public_entry_host = refl;
    dns_update_hook = refl;
  })
]

join_admitted-Keeps :
    (request : JoinRequest) (token : Text) (env : Env) (s : Store)
    (p : Result (Unit {0}) × ClusterState)
    → p.1.config ≡ s.state.config
    → SameSettings (join_admitted request token p env s).1.state.config s.state.config
unfolding join_admitted let_in add_event
join_admitted-Keeps request token env s (err e, state) h = SameSettings-eq _ _ h
join_admitted-Keeps request token env s (ok _, state) h =
    SameSettings-commit _ _ env s
      (rw (← h) (add_peer-SameSettings request.control_url state.config))

join_with-Keeps :
    (request : JoinRequest) (token : Option Text) → KeepsSettings (join_with request token)
unfolding join_with
join_with-Keeps request none env s = SameSettings-refl s.state.config
join_with-Keeps request (some token) env s = join_admitted-Keeps request token env s _ (
    ap (λ (t : ClusterState). t.config)
      (consume-tokens request.token request.node_id env.now s.state).1)

pub join_node-KeepsSettings : (request : JoinRequest) → KeepsSettings (join_node request)
unfolding join_node
join_node-KeepsSettings request env s =
    elim (Bool-cases (
      text_eq (clean_join_request request).node_id []
      || text_eq (clean_join_request request).public_addr [])) [
        | inl e ↦ rw e (SameSettings-refl s.state.config)
        | inr e ↦ rw e (join_with-Keeps _ _ env s)
      ]

apply_login-config :
    (op client_id node_id : Text) (event : PluginEvent) (now : Instant) (state : ClusterState)
    → (apply_login op client_id node_id event now state).config ≡ state.config
unfolding apply_login add_event put_client
apply_login-config op client_id node_id event now state = refl

apply_new_proxy-config :
    (client_id node_id : Text) (event : PluginEvent) (now : Instant) (state : ClusterState)
    → (apply_new_proxy client_id node_id event now state).config ≡ state.config
unfolding apply_new_proxy add_event put_client
apply_new_proxy-config client_id node_id event now state = refl

apply_close_proxy-config :
    (client_id node_id : Text) (event : PluginEvent) (now : Instant) (state : ClusterState)
    → (apply_close_proxy client_id node_id event now state).config ≡ state.config
unfolding apply_close_proxy close_found add_event
apply_close_proxy-config client_id node_id event now state =
    elim (Option-cases (get (proxy_id node_id client_id event.proxy_name) state.proxies)) [
      | inl e ↦ rw e refl
      | inr (proxy, e) ↦ rw e refl
    ]

apply_logout-config :
    (client_id node_id : Text) (now : Instant) (state : ClusterState)
    → (apply_logout client_id node_id now state).config ≡ state.config
unfolding apply_logout logout_found add_event
apply_logout-config client_id node_id now state =
    elim (Option-cases (get client_id state.clients)) [
      | inl e ↦ rw e refl
      | inr (client, e) ↦ rw e refl
    ]

apply_other-config :
    (op client_id node_id : Text) (now : Instant) (state : ClusterState)
    → (apply_other op client_id node_id now state).config ≡ state.config
unfolding apply_other add_event
apply_other-config op client_id node_id now state = refl

apply_op-config :
    (op client_id node_id : Text) (event : PluginEvent) (now : Instant) (state : ClusterState)
    → (apply_op op client_id node_id event now state).config ≡ state.config
unfolding apply_op
apply_op-config op client_id node_id event now state = ground (
  arith,
  apply_login-config op client_id node_id event now state,
  apply_new_proxy-config client_id node_id event now state,
  apply_close_proxy-config client_id node_id event now state,
  apply_logout-config client_id node_id now state,
  apply_other-config op client_id node_id now state,
)

plugin_state-config :
    (node : Text) (event : PluginEvent) (now : Instant) (state : ClusterState)
    → (plugin_state node event now state).config ≡ state.config
unfolding plugin_state recompute_node_counts node_seen
plugin_state-config node event now state =
    (apply-SameMaps now _).config ∙ apply_op-config _ _ _ _ now _

pub plugin-KeepsSettings :
    (node : Text) (event : PluginEvent) → KeepsSettings (apply_plugin_event node event)
unfolding apply_plugin_event
plugin-KeepsSettings node event env s =
    SameSettings-commit _ _ env s
      (SameSettings-eq _ _ (plugin_state-config node event env.now s.state))
