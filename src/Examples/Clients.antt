-- ===== src/Examples/Clients.antt =====
-- Switches, migrations and plugin reports in the small cluster.
use frp_cluster.Ids.Distinct.{IsDistinct}
use frp_cluster.Migrations.Condition.{ShouldLeave, gap_of, node_ids}
use frp_cluster.Text.{text_in}
use frp_cluster.Content.{json_other}
use frp_cluster.Base.{
  List, [], false, filter, if◌then◌else◌, int_eq, int_le, int_lt, none, pos, refl, some, sym, true,
  ◌∷◌, ◌≡◌, ◌≢◌,
}
use frp_cluster.Clients.{auto_switch_client_target, set_client_target}
use frp_cluster.Clients.Targets.{sent_to, set_client_target_lem, switch_refuses}
use frp_cluster.Dict.{get, values}
use frp_cluster.Examples.{a_id, a_node, b_node, c_client, c_id, cluster, d_id, env, noon, store}
use frp_cluster.Ids.{id_runes, is_id_edge, is_id_rune, is_separator, proxy_id, sanitize_id}
use frp_cluster.Migrations.{apply_migration_recommendations, auto_migration_off}
use frp_cluster.Migrations.Advice.{IsAdvised, SameConnection, is_connected}
use frp_cluster.Migrations.Pass.{apply_migration_idem, manual_target_is_lost, migration_pass_lem}
use frp_cluster.Network.{
  bandwidth_score, clamp_score, effective_bandwidth, fill_bandwidth, has_network_measurement,
  int_div, is_stale, latency_score, mark_network, max_int64, refresh_network_status,
  score_network_status,
}
use frp_cluster.Content.{PluginEvent}
use frp_cluster.Plugin.Session.{IsOnlineAt, closed_state, opened, opened_state, proxy_session}
use frp_cluster.Requests.{client_not_found, err, no_available_node, node_not_found, ok}
use frp_cluster.Run.{start}
use frp_cluster.Run.Invariant.{reachable-IsSound}
use frp_cluster.Run.Keys.{IsKeyed}
use frp_cluster.Selection.{
  is_live, online_nodes, prefers, refresh_node, select_nodes_locked, sort_nodes_by_preference,
}
use frp_cluster.Sort.{sort_by}
use frp_cluster.Store.{default_state, new_memory_store}
use frp_cluster.Store.Saving.{Saves}
use frp_cluster.Text.{
  Text, is_space, lower, str, text_eq, to_lower, trim_by, trim_left_by, trim_right_by, trim_space,
}
use frp_cluster.Types.{
  Client, ServerNode, config_mode_single, migration_state_manual, proxy_status_closed,
  proxy_status_online,
}

a_is_clean : sanitize_id a_id ≡ a_id
unfolding sanitize_id id_runes is_id_rune is_separator is_id_edge trim_by trim_left_by trim_right_by
    trim_space to_lower lower is_space
a_is_clean = refl

c_is_clean : sanitize_id c_id ≡ c_id
unfolding sanitize_id id_runes is_id_rune is_separator is_id_edge trim_by trim_left_by trim_right_by
    trim_space to_lower lower is_space
c_is_clean = refl

client_found : get (sanitize_id c_id) store.state.clients ≡ some c_client
unfolding get text_eq
client_found = rw c_is_clean refl

node_found : get (sanitize_id a_id) store.state.nodes ≡ some a_node
unfolding get text_eq
node_found = rw a_is_clean refl

a_given : sanitize_id a_id ≢ []
a_given e = cc (e, a_is_clean)

a_live : is_live a_node env.now ≡ true
unfolding is_live text_eq str
a_live = refl

-- the cluster's online nodes, the better one first
abbrev best : ServerNode
best = refresh_node b_node noon

abbrev others : List ServerNode
others = refresh_node a_node noon ∷ []

sorted : sort_nodes_by_preference (online_nodes cluster.nodes noon) ≡ best ∷ others
unfolding sort_nodes_by_preference online_nodes is_live text_eq str values sort_by prefers int_eq
    int_lt filter refresh_node refresh_network_status fill_bandwidth mark_network
    effective_bandwidth score_network_status has_network_measurement max_int64 clamp_score is_stale
    latency_score int_le bandwidth_score int_div
sorted = refl

on : auto_migration_off cluster.config ≡ false
unfolding auto_migration_off
on = refl

in_cluster : get c_id cluster.clients ≡ some c_client
unfolding get text_eq
in_cluster = refl

connected : is_connected c_client ≡ true
unfolding text_eq str
connected = refl

abbrev report : PluginEvent
report = record {
  version = [];
  op = [];
  content = json_other;
  user = c_id;
  proxy_name = d_id;
  proxy_type = [];
  remote_addr = [];
  remote_port = pos 6000;
  client_id = c_id;
  node_id = a_id;
}

new_is_keyed : IsKeyed new_memory_store.state
unfolding default_state new_memory_store
new_is_keyed = (reachable-IsSound new_memory_store new_memory_store refl start).0

set_client_target_lem_example :
    ((j : Text)
      → get j (set_client_target c_id a_id env store).1.state.clients ≡ (
          if text_eq (sanitize_id c_id) j
          then some (sent_to (sanitize_id a_id) env.now c_client)
          else get j store.state.clients))
    × ((m : ServerNode) × (m.id ≡ sanitize_id a_id)
        × (select_nodes_locked
              (set_client_target c_id a_id env store).1.state
              c_id
              config_mode_single
              (pos 1)
              []
              env.now
            ≡ ok (m ∷ [])))
    × (Saves (set_client_target c_id a_id env store).1.state env store
        → (set_client_target c_id a_id env store).0
          ≡ ok (sent_to (sanitize_id a_id) env.now c_client))
set_client_target_lem_example =
    set_client_target_lem c_id a_id env store c_client a_node (pos 1) env.now a_given client_found
      node_found (sym a_is_clean) a_live a_live

switch_refuses_example :
    (get (sanitize_id c_id) store.state.clients ≡ none
      → (set_client_target c_id a_id env store ≡ (err client_not_found, store))
        × (auto_switch_client_target c_id a_id [] env store ≡ (err client_not_found, store)))
    × ((c : Client)
        → sanitize_id a_id ≢ []
        → get (sanitize_id c_id) store.state.clients ≡ some c
        → get (sanitize_id a_id) store.state.nodes ≡ none
        → (set_client_target c_id a_id env store ≡ (err node_not_found, store))
          × (auto_switch_client_target c_id a_id [] env store ≡ (err node_not_found, store)))
    × ((c : Client) (n : ServerNode)
        → sanitize_id a_id ≢ []
        → get (sanitize_id c_id) store.state.clients ≡ some c
        → get (sanitize_id a_id) store.state.nodes ≡ some n
        → is_live n env.now ≡ false
        → (set_client_target c_id a_id env store ≡ (err no_available_node, store))
          × (auto_switch_client_target c_id a_id [] env store ≡ (err no_available_node, store)))
switch_refuses_example = switch_refuses c_id a_id [] env store

online_differ : IsDistinct (node_ids (best ∷ others))
unfolding text_in text_eq refresh_node
online_differ = (refl, (refl, tt))

migration_pass_lem_example :
    (client' : Client) × (get c_id (apply_migration_recommendations noon cluster).clients
      ≡ some client')
    × SameConnection client' c_client
    × (is_connected c_client ≡ false → client' ≡ c_client)
    × (is_connected c_client ≡ true
        → ShouldLeave
            (best ∷ others)
            best
            (gap_of cluster.config.migration_score_gap)
            c_client.node_id
        → IsAdvised true best client')
    × (is_connected c_client ≡ true
        → ¬ ShouldLeave
            (best ∷ others)
            best
            (gap_of cluster.config.migration_score_gap)
            c_client.node_id
        → IsAdvised false best client')
migration_pass_lem_example =
    migration_pass_lem noon cluster best others on sorted c_id c_client in_cluster online_differ

apply_migration_idem_example :
    apply_migration_recommendations noon (apply_migration_recommendations noon cluster)
    ≡ apply_migration_recommendations noon cluster
apply_migration_idem_example = apply_migration_idem noon cluster

manual_target_is_lost_example :
    (client' : Client) × (get c_id (apply_migration_recommendations noon cluster).clients
      ≡ some client')
    × (client'.migration_state ≢ migration_state_manual)
manual_target_is_lost_example =
    manual_target_is_lost noon cluster best others on sorted c_id c_client in_cluster connected

proxy_session_example :
    ((j : Text)
      → get j (opened_state c_id a_id report noon new_memory_store.state).proxies ≡ (
          if text_eq (proxy_id a_id c_id report.proxy_name) j
          then some (opened c_id a_id report noon new_memory_store.state)
          else get j new_memory_store.state.proxies))
    × ((opened c_id a_id report noon new_memory_store.state).status ≡ proxy_status_online)
    × ((opened c_id a_id report noon new_memory_store.state).client_id ≡ c_id)
    × ((opened c_id a_id report noon new_memory_store.state).node_id ≡ a_id)
    × ((opened c_id a_id report noon new_memory_store.state).remote_port ≡ report.remote_port)
    × IsOnlineAt c_id a_id
        (get c_id (opened_state c_id a_id report noon new_memory_store.state).clients)
    × ((j : Text)
        → get j
            (closed_state c_id a_id report noon 63_900_000_000_000_000_005
              new_memory_store.state).proxies
          ≡ (if text_eq (proxy_id a_id c_id report.proxy_name) j
              then some (record (opened c_id a_id report noon new_memory_store.state) {
                status = proxy_status_closed;
                updated_at = 63_900_000_000_000_000_005;
              })
              else get j new_memory_store.state.proxies))
proxy_session_example =
    proxy_session c_id a_id report noon 63_900_000_000_000_000_005 new_memory_store.state
      new_is_keyed
