-- ===== src/Run.antt =====
-- Runs of the control plane: one operation of internal/control after another on one store, as the
-- lock orders them.
pub mod JoinOps
pub mod PluginOps
pub mod Keys
pub mod Bounds
pub mod Sound
pub mod NodeOps
pub mod ClientOps
pub mod DnsOps
pub mod StateOps
pub mod Invariant
use frp_cluster.Base.{List, ℤ, Bool}
use frp_cluster.Text.{Text}
use frp_cluster.Types.{NetworkStatus}
use frp_cluster.Requests.{JoinRequest, HeartbeatRequest}
use frp_cluster.Types.{Instant}
use frp_cluster.Dns.{Hook, update_dns_for_node, test_dns_update}
use frp_cluster.Store.{Env, Store}
use frp_cluster.Tokens.{create_join_token}
use frp_cluster.Nodes.{heartbeat_node_with_request, heartbeat_node, leave_node, admin_leave_node}
use frp_cluster.Nodes.Joining.{join_node}
use frp_cluster.Clients.{set_client_target, auto_switch_client_target}
use frp_cluster.Merge.{RemoteState, merge_state}
use frp_cluster.Config.{ControlPlaneOptions, ConfigUpdate, configure_control_plane, update_config}
use frp_cluster.Plugin.{apply_plugin_event}
use frp_cluster.Content.{PluginEvent}

-- the operations of the store that write it; a DNS update reads the state at `start`
pub data Operation : Type 0 where
  token_op : ℤ → ℤ → Operation
  join_op : JoinRequest → Operation
  heartbeat_op : Text → HeartbeatRequest → Operation
  leave_op : Text → Text → Operation
  admin_leave_op : Text → Operation
  switch_op : Text → Text → Operation
  auto_switch_op : Text → Text → Text → Operation
  plugin_op : Text → PluginEvent → Operation
  merge_op : RemoteState → Text → Operation
  configure_op : ControlPlaneOptions → Operation
  update_op : ConfigUpdate → Operation
  dns_op : Hook → Text → Text → Instant → Operation
  dns_test_op : Hook → Text → Text → Instant → Operation

-- the store after the operation, whatever it returns
unfoldable pub run : Operation → Env → Store → Store
run (token_op ttl uses) env s = (create_join_token ttl uses env s).1
run (join_op request) env s = (join_node request env s).1
run (heartbeat_op id request) env s = (heartbeat_node_with_request id request env s).1
run (leave_op id token) env s = (leave_node id token env s).1
run (admin_leave_op id) env s = (admin_leave_node id env s).1
run (switch_op client node) env s = (set_client_target client node env s).1
run (auto_switch_op client node reason) env s =
    (auto_switch_client_target client node reason env s).1
run (plugin_op node event) env s = (apply_plugin_event node event env s).1
run (merge_op remote url) env s = (merge_state remote url env s).1
run (configure_op opts) env s = (configure_control_plane opts env s).1
run (update_op update) env s = (update_config update env s).1
run (dns_op hook client node start) env s = (update_dns_for_node hook client node start env s).1
run (dns_test_op hook client node start) env s = (test_dns_update hook client node start env s).1

-- the stores that some operations lead to, from a first one
pub data Reaches (first : Store) : Store → Type 0 where
  start : Reaches first first
  step : {s : Store} → (o : Operation) (env : Env) → Reaches first s → Reaches first (run o env s)
