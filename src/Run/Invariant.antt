-- ===== src/Run/Invariant.antt =====
-- What holds in every state that the operations reach.
use frp_cluster.Base.{◌≡◌, ◌≤◌, length, true, false, [], arith}
use frp_cluster.Store.{Env, Store, default_state}
use frp_cluster.Run.{
  Operation, token_op, join_op, heartbeat_op, leave_op, admin_leave_op, switch_op, auto_switch_op,
  plugin_op, merge_op, configure_op, update_op, dns_op, dns_test_op, run, Reaches, start, step,
}
use frp_cluster.Nodes.{leave_node, admin_leave_node}
use frp_cluster.Run.DnsOps.{update_dns-IsSound, test_dns-IsSound}
use frp_cluster.Run.Keys.{IsKeyed, KeysAreIds-empty, node_id_of, client_id_of, proxy_id_of}
use frp_cluster.Run.Sound.{IsSound}
use frp_cluster.Run.NodeOps.{heartbeat-IsSound, leave-IsSound}
use frp_cluster.Run.JoinOps.{create_join_token-IsSound, join_node-IsSound}
use frp_cluster.Run.StateOps.{merge_state-IsSound, configure-IsSound, update_config-IsSound}
use frp_cluster.Run.ClientOps.{set_client_target-IsSound, auto_switch-IsSound}
use frp_cluster.Run.PluginOps.{apply_plugin_event-IsSound}

default_state-IsSound : IsSound default_state
unfolding default_state
default_state-IsSound = record {
  keyed = record {
    nodes = KeysAreIds-empty node_id_of;
    clients = KeysAreIds-empty client_id_of;
    proxies = KeysAreIds-empty proxy_id_of;
  };
  events = omega arith;
  samples = omega arith;
}

run-IsSound :
    (o : Operation) (env : Env) (s : Store) → IsSound s.state → IsSound (run o env s).state
unfolding run leave_node admin_leave_node
run-IsSound (token_op ttl uses) env s h = create_join_token-IsSound ttl uses env s h
run-IsSound (join_op request) env s h = join_node-IsSound request env s h
run-IsSound (heartbeat_op id request) env s h = heartbeat-IsSound id request env s h
run-IsSound (leave_op id token) env s h = leave-IsSound id token true env s h
run-IsSound (admin_leave_op id) env s h = leave-IsSound id [] false env s h
run-IsSound (switch_op client node) env s h = set_client_target-IsSound client node env s h
run-IsSound (auto_switch_op client node reason) env s h =
    auto_switch-IsSound client node reason env s h
run-IsSound (plugin_op node event) env s h = apply_plugin_event-IsSound node event env s h
run-IsSound (merge_op remote url) env s h = merge_state-IsSound remote url env s h
run-IsSound (configure_op opts) env s h = configure-IsSound opts env s h
run-IsSound (update_op update) env s h = update_config-IsSound update env s h
run-IsSound (dns_op hook client node read) env s h =
    update_dns-IsSound hook client node read env s h
run-IsSound (dns_test_op hook client node read) env s h =
    test_dns-IsSound hook client node read env s h

reached-IsSound :
    (first s : Store) → first.state ≡ default_state → Reaches first s → IsSound s.state
reached-IsSound first _ new start = rw new default_state-IsSound
reached-IsSound first _ new (step {s} o env before) =
    run-IsSound o env s (reached-IsSound first s new before)

-- Whatever operations run on a store in the default state, with a state file or without, in
-- whatever order, with whatever arguments and results, at whatever times, and however their saves
-- go: the maps of nodes, clients and proxies hold each entry under its own identifier, the log has
-- at most 500 events and there are at most 100,000 traffic samples.
pub reachable-IsSound :
    (first s : Store)
    → first.state ≡ default_state
    → Reaches first s
    → IsKeyed s.state × (length s.state.events ≤ 500) × (length s.state.traffic_samples ≤ 100_000)
reachable-IsSound first s new run =
    let sound = reached-IsSound first s new run in (sound.keyed, sound.events, sound.samples)
