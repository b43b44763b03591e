-- ===== src/Api/Open.antt =====
-- What a request without a session can change, over all handlers.
use frp_cluster.Base.{◌≡◌, Bool, true, false, List, [], ◌∷◌, ◌⊎◌, inl, inr, Bool-cases}
use frp_cluster.Text.{Text, str, text_eq}
use frp_cluster.Api.{Api, World, HttpRequest}
use frp_cluster.Api.Auth.{valid_session}
use frp_cluster.Api.Answers.{run_store}
use frp_cluster.Requests.{JoinRequest}
use frp_cluster.Content.{PluginEvent}
use frp_cluster.Merge.{RemoteState}
use frp_cluster.Api.Probe.{handle_network_probe}
use frp_cluster.Api.Cluster.{
  handle_join_node, join_decoded, handle_node_action, node_parts, node_action, node_answer,
  heartbeat_now, leave_now, admin_leave_now, admin_leave_if,
}
use frp_cluster.Api.Files.{handle_frps_config, frps_config_now, handle_frpc_config, frpc_config_now}
use frp_cluster.Api.Peers.{handle_peer_state, state_decoded, handle_plugin, event_decoded}
use frp_cluster.Api.Web.{handle_web}
use frp_cluster.Api.Router.{
  Route, web_route, login_route, logout_route, auth_me_route, totp_setup_route, totp_confirm_route,
  health_route, network_probe_route, cluster_route, traffic_route, dns_test_route, settings_route,
  admin_config_route, restart_agent_route, tokens_route, join_node_route, node_action_route,
  client_action_route, frps_config_route, frpc_config_route, join_command_route, peer_state_route,
  plugin_route, route_of, handle_health, handler_of, handle,
}
use frp_cluster.Api.Guarded.{
  for_admin, IsAdminRoute, cluster_admin, traffic_admin, dns_test_admin, settings_admin,
  admin_config_admin, restart_agent_admin, tokens_admin, client_action_admin, join_command_admin,
  handle_refuses,
}
use frp_cluster.Api.Settings.{
  join_node-KeepsSettings, heartbeat-KeepsSettings, leave-KeepsSettings, admin_leave-KeepsSettings,
  merge_state-KeepsSettings, plugin-KeepsSettings,
}
use frp_cluster.Api.Stranger.{
  IsUnharmed, IsUnharmed-refl, IsUnharmed-sessions, Spares, IsUnharmed-store, on_method-Spares,
  on_json-Spares, IsUnharmed-trans, valid_session-Unharmed, login-Spares, logout-Spares,
  auth_me-Spares, setup-Spares, confirm-Spares,
}

join_decoded-Spares : (req : JoinRequest) → Spares (join_decoded req)
unfolding join_decoded run_store
join_decoded-Spares req w r a = IsUnharmed-store a _ (join_node-KeepsSettings req w.env a.store)

join-Spares : Spares handle_join_node
unfolding handle_join_node
join-Spares =
    on_method-Spares _ _ (λ w r a. on_json-Spares r.body.as_join _ join_decoded-Spares w r a)

heartbeat-Spares : (node_id : Text) → Spares (heartbeat_now node_id)
unfolding heartbeat_now run_store
heartbeat-Spares node_id w r a =
    IsUnharmed-store a _ (heartbeat-KeepsSettings node_id _ w.env a.store)

leave-Spares : (node_id : Text) → Spares (leave_now node_id)
unfolding leave_now run_store
leave-Spares node_id w r a = IsUnharmed-store a _ (leave-KeepsSettings node_id _ w.env a.store)

admin_leave_if-Unharmed :
    (node_id : Text) (p : Bool × Api) (w : World) (r : HttpRequest) (a : Api)
    → IsUnharmed p.1 a
    → IsUnharmed (admin_leave_if node_id p w r).1 a
unfolding admin_leave_if run_store
admin_leave_if-Unharmed node_id (false, b) w r a h = h
admin_leave_if-Unharmed node_id (true, b) w r a h =
    IsUnharmed-trans _ b a (IsUnharmed-store b _ (admin_leave-KeepsSettings node_id w.env b.store))
      h

admin_leave-Spares : (node_id : Text) → Spares (admin_leave_now node_id)
unfolding admin_leave_now
admin_leave-Spares node_id w r a =
    admin_leave_if-Unharmed node_id _ w r a (valid_session-Unharmed w r a)

node_action-Spares : (node_id action : Text) → Spares (node_action node_id action)
unfolding node_action node_answer
node_action-Spares node_id action w r a = elim (Bool-cases (text_eq action (str "heartbeat"))) [
  | inl e ↦
      rw (node_action, e)
        (on_method-Spares (str "POST") (heartbeat_now node_id) (heartbeat-Spares node_id) w r a)
  | inr e ↦ elim (Bool-cases (text_eq action (str "leave"))) [
    | inl f ↦
        rw (node_action, e, f)
          (on_method-Spares (str "POST") (leave_now node_id) (leave-Spares node_id) w r a)
    | inr f ↦ elim (Bool-cases (text_eq action (str "admin-leave"))) [
      | inl g ↦
          rw (node_action, e, f, g)
            (on_method-Spares (str "POST") (admin_leave_now node_id) (admin_leave-Spares node_id) w
              r a)
      | inr g ↦ rw (node_action, e, f, g) (IsUnharmed-refl a)
    ]
  ]
]

node_parts-Spares : (parts : List Text) → Spares (node_parts parts)
unfolding node_parts
node_parts-Spares [] w r a = IsUnharmed-refl a
node_parts-Spares (x ∷ []) w r a = IsUnharmed-refl a
node_parts-Spares (x ∷ y ∷ []) w r a = node_action-Spares x y w r a
node_parts-Spares (x ∷ y ∷ z ∷ more) w r a = IsUnharmed-refl a

nodes-Spares : Spares handle_node_action
unfolding handle_node_action
nodes-Spares w r a = node_parts-Spares _ w r a

state_decoded-Spares : (state : RemoteState) → Spares (state_decoded state)
unfolding state_decoded run_store
state_decoded-Spares state w r a =
    IsUnharmed-store a _ (merge_state-KeepsSettings state _ w.env a.store)

peer_state-Spares : Spares handle_peer_state
unfolding handle_peer_state
peer_state-Spares w r a = elim (Bool-cases (text_eq r.method (str "GET"))) [
  | inl e ↦ rw (handle_peer_state, e) (IsUnharmed-refl a)
  | inr e ↦ elim (Bool-cases (text_eq r.method (str "POST"))) [
    | inl f ↦
        rw (handle_peer_state, e, f) (on_json-Spares r.body.as_state _ state_decoded-Spares w r a)
    | inr f ↦ rw (handle_peer_state, e, f) (IsUnharmed-refl a)
  ]
]

event_decoded-Spares : (event : PluginEvent) → Spares (event_decoded event)
unfolding event_decoded run_store
event_decoded-Spares event w r a = IsUnharmed-store a _ (plugin-KeepsSettings _ _ w.env a.store)

plugin-Spares : Spares handle_plugin
unfolding handle_plugin
plugin-Spares =
    on_method-Spares _ _
      (λ w r a. on_json-Spares r.body.as_plugin_event _ event_decoded-Spares w r a)

web-Spares : Spares handle_web
unfolding handle_web
web-Spares w r a = IsUnharmed-refl a

frps-Spares : Spares frps_config_now
unfolding frps_config_now
frps-Spares w r a = IsUnharmed-refl a

frpc-Spares : Spares frpc_config_now
unfolding frpc_config_now
frpc-Spares w r a = IsUnharmed-refl a

-- a route is for administrators, or its handler spares the settings for any caller
route_cases : (route : Route) → IsAdminRoute route ⊎ Spares (handler_of route)
unfolding handler_of handle_frps_config handle_frpc_config
route_cases web_route = inr web-Spares
route_cases login_route = inr login-Spares
route_cases logout_route = inr logout-Spares
route_cases auth_me_route = inr auth_me-Spares
route_cases totp_setup_route = inr setup-Spares
route_cases totp_confirm_route = inr confirm-Spares
route_cases health_route = inr (λ w r a. unfold handle_health in IsUnharmed-refl a)
route_cases network_probe_route = inr (λ w r a. unfold handle_network_probe in IsUnharmed-refl a)
route_cases cluster_route = inl cluster_admin
route_cases traffic_route = inl traffic_admin
route_cases dns_test_route = inl dns_test_admin
route_cases settings_route = inl settings_admin
route_cases admin_config_route = inl admin_config_admin
route_cases restart_agent_route = inl restart_agent_admin
route_cases tokens_route = inl tokens_admin
route_cases join_node_route = inr join-Spares
route_cases node_action_route = inr nodes-Spares
route_cases client_action_route = inl client_action_admin
route_cases frps_config_route = inr (on_method-Spares (str "GET") frps_config_now frps-Spares)
route_cases frpc_config_route = inr (on_method-Spares (str "GET") frpc_config_now frpc-Spares)
route_cases join_command_route = inl join_command_admin
route_cases peer_state_route = inr peer_state-Spares
route_cases plugin_route = inr plugin-Spares

-- Whatever a request without a valid session asks for, the administrator's settings stay as they
-- were: the automatic migration, the score gap, the public host and the DNS hook in the state, and
-- the two files of settings.
pub handle-IsUnharmed :
    (w : World) (r : HttpRequest) (a : Api)
    → (valid_session w r a).0 ≡ false
    → IsUnharmed (handle w r a).1 a
handle-IsUnharmed w r a h = elim (route_cases (route_of r.path)) [
  | inl admin ↦ IsUnharmed-sessions (handle w r a).1 a (handle_refuses w r a (for_admin admin) h).1
  | inr spares ↦ unfold handle in spares w r a
]
