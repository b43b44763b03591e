-- ===== src/Api/Router.antt =====
-- The table of handlers: Handler, handleHealth and requireAdmin of
-- internal/control/api.go. The redirects of `http.ServeMux`, which cleans paths, come before.
use frp_cluster.Base.{Bool, true, false, Option, none, some, [], ◌∷◌}
use frp_cluster.Text.{Text, str, has_prefix}
use frp_cluster.Dict.{Dict, get}
use frp_cluster.Api.{Api, World, HttpRequest, status_is, Response, Handler}
use frp_cluster.Api.Answers.{answer, refuse}
use frp_cluster.Api.Auth.{valid_session}
use frp_cluster.Api.Login.{
  handle_login, handle_logout, handle_auth_me, handle_totp_setup, handle_totp_confirm,
}
use frp_cluster.Api.Probe.{handle_network_probe}
use frp_cluster.Api.Web.{handle_web}
use frp_cluster.Api.Admin.{
  handle_cluster, handle_traffic, handle_settings, handle_restart_agent, handle_dns_test,
  handle_tokens, handle_join_command,
}
use frp_cluster.Api.SettingsFiles.{handle_admin_config}
use frp_cluster.Api.Cluster.{handle_join_node, handle_node_action, handle_client_action}
use frp_cluster.Api.Files.{handle_frps_config, handle_frpc_config}
use frp_cluster.Api.Peers.{handle_peer_state, handle_plugin}

pub data Route : Type 0 where
  web_route login_route logout_route auth_me_route totp_setup_route totp_confirm_route health_route
        network_probe_route cluster_route traffic_route dns_test_route :
      Route
  settings_route admin_config_route restart_agent_route tokens_route join_node_route
        node_action_route client_action_route :
      Route
  frps_config_route frpc_config_route join_command_route peer_state_route plugin_route : Route

-- the patterns that match one path
abbrev exact_routes : Dict Route
exact_routes =
    (str "/api/v1/auth/login", login_route)
    ∷ (str "/api/v1/auth/logout", logout_route)
    ∷ (str "/api/v1/auth/me", auth_me_route)
    ∷ (str "/api/v1/auth/totp/setup", totp_setup_route)
    ∷ (str "/api/v1/auth/totp/confirm", totp_confirm_route)
    ∷ (str "/api/v1/health", health_route)
    ∷ (str "/api/v1/network/probe", network_probe_route)
    ∷ (str "/api/v1/cluster", cluster_route)
    ∷ (str "/api/v1/traffic", traffic_route)
    ∷ (str "/api/v1/dns/test", dns_test_route)
    ∷ (str "/api/v1/settings", settings_route)
    ∷ (str "/api/v1/admin/config", admin_config_route)
    ∷ (str "/api/v1/admin/agent/restart", restart_agent_route)
    ∷ (str "/api/v1/tokens", tokens_route)
    ∷ (str "/api/v1/nodes/join", join_node_route)
    ∷ (str "/api/v1/config/frps", frps_config_route)
    ∷ (str "/api/v1/config/frpc", frpc_config_route)
    ∷ (str "/api/v1/commands/join", join_command_route)
    ∷ (str "/api/v1/peer/state", peer_state_route)
    ∷ (str "/api/v1/frp/plugin", plugin_route)
    ∷ []

-- the patterns that end in a slash, and `/`, which matches what is left
unfoldable prefix_route : Text → Option Route → Route
prefix_route path (some route) = route
prefix_route path none = elim (has_prefix path (str "/api/v1/nodes/")) [
  | true ↦ node_action_route
  | false ↦ elim (has_prefix path (str "/api/v1/clients/")) [
    | true ↦ client_action_route
    | false ↦ elim (has_prefix path (str "/api/v1/frp/plugin/")) [
      | true ↦ plugin_route
      | false ↦ web_route
    ]
  ]
]

unfoldable pub route_of : Text → Route
unfolding prefix_route
route_of path = prefix_route path (get path exact_routes)

unfoldable pub admit : Handler → Bool × Api → World → HttpRequest → Response × Api
unfolding refuse
admit next (true, a) w r = next w r a
admit next (false, a) w r = (refuse 401 (str "login required"), a)

unfoldable pub require_admin : Handler → Handler
unfolding admit
require_admin next w r a = admit next (valid_session w r a) w r

unfoldable pub handle_health : Handler
unfolding answer
handle_health w r a = (answer 200 (status_is (str "ok")), a)

unfoldable pub handler_of : Route → Handler
unfolding require_admin
handler_of web_route = handle_web
handler_of login_route = handle_login
handler_of logout_route = handle_logout
handler_of auth_me_route = handle_auth_me
handler_of totp_setup_route = handle_totp_setup
handler_of totp_confirm_route = handle_totp_confirm
handler_of health_route = handle_health
handler_of network_probe_route = handle_network_probe
handler_of cluster_route = require_admin handle_cluster
handler_of traffic_route = require_admin handle_traffic
handler_of dns_test_route = require_admin handle_dns_test
handler_of settings_route = require_admin handle_settings
handler_of admin_config_route = require_admin handle_admin_config
handler_of restart_agent_route = require_admin handle_restart_agent
handler_of tokens_route = require_admin handle_tokens
handler_of join_node_route = handle_join_node
handler_of node_action_route = handle_node_action
handler_of client_action_route = require_admin handle_client_action
handler_of frps_config_route = handle_frps_config
handler_of frpc_config_route = handle_frpc_config
handler_of join_command_route = require_admin handle_join_command
handler_of peer_state_route = handle_peer_state
handler_of plugin_route = handle_plugin

unfoldable pub handle : Handler
unfolding route_of handler_of
handle w r a = handler_of (route_of r.path) w r a
