-- ===== src/Run/ClientOps.antt =====
-- The operations on clients and proxies keep a state sound.

use frp_cluster.Base.{refl, Bool, true, false, Option, none, some, [], inl, inr, Bool-cases}
use frp_cluster.Text.{Text, text_eq}
use frp_cluster.Dict.{get}
use frp_cluster.Ids.{sanitize_id}
use frp_cluster.Types.{Instant, Client, ClusterState}
use frp_cluster.Requests.{Result, ok, err}
use frp_cluster.Store.{Env, Store}
use frp_cluster.Clients.{
  record_switch, set_target, with_target, manual_reason, manual_switch, clear_target, check_target,
  when_target, set_target_found, set_client_target, auto_reason, auto_switch, auto_switch_found,
  auto_switch_client_target,
}
use frp_cluster.Run.Keys.{KeysAreIds-adjust, client_id_of, IsKeyed}
use frp_cluster.Run.Sound.{IsSound, commit-IsSound, add_event-IsSound}

target-IsKeyed :
    (client_id node_id mode reason : Text) (now : Instant) (state : ClusterState)
    → IsSound state
    → IsKeyed (with_target client_id node_id mode reason now state)
unfolding with_target set_target
target-IsKeyed client_id node_id mode reason now state h = record {
  nodes = h.keyed.nodes;
  clients =
      KeysAreIds-adjust client_id_of client_id (set_target node_id mode reason now) state.clients
        (λ v. refl) h.keyed.clients;
  proxies = h.keyed.proxies;
}

switch-IsKeyed :
    (automatic : Bool) (now : Instant) (state : ClusterState)
    → IsKeyed state
    → IsKeyed (record_switch automatic now state)
unfolding record_switch
switch-IsKeyed automatic now state h = record {
  nodes = h.nodes;
  clients = h.clients;
  proxies = h.proxies;
}

when_target-IsSound :
    (o : Result (Unit {0})) (c : Client) (state : ClusterState) (env : Env) (s : Store)
    → IsSound s.state
    → IsSound state
    → IsSound (when_target o c state env s).1.state
unfolding when_target
when_target-IsSound (err e) c state env s h after = h
when_target-IsSound (ok _) c state env s h after = commit-IsSound c state env s after

set_target_found-IsSound :
    (o : Option Client) (client_id node_id : Text) (env : Env) (s : Store)
    → IsSound s.state
    → IsSound (set_target_found o client_id node_id env s).1.state
unfolding set_target_found clear_target manual_switch record_switch with_target
set_target_found-IsSound none client_id node_id env s h = h
set_target_found-IsSound (some c) client_id node_id env s h =
    elim (Bool-cases (text_eq node_id [])) [
      | inl empty ↦ rw empty (
          commit-IsSound _ _ env s (
            add_event-IsSound _ _ _ _ _ _ env.now _
              (target-IsKeyed client_id [] [] [] env.now s.state h) h.samples))
      | inr given ↦ rw given (
          when_target-IsSound (check_target (get node_id s.state.nodes) env.now) _ _ env s h (
            add_event-IsSound _ _ _ _ _ _ env.now _
              (switch-IsKeyed false env.now _
                (target-IsKeyed client_id node_id _ manual_reason env.now s.state h))
              h.samples))
    ]

pub set_client_target-IsSound :
    (client node : Text) (env : Env) (s : Store)
    → IsSound s.state
    → IsSound (set_client_target client node env s).1.state
unfolding set_client_target
set_client_target-IsSound client node env s h =
    set_target_found-IsSound (get (sanitize_id client) s.state.clients) (sanitize_id client)
      (sanitize_id node) env s h

auto_switch_found-IsSound :
    (o : Option Client) (client_id node_id reason : Text) (env : Env) (s : Store)
    → IsSound s.state
    → IsSound (auto_switch_found o client_id node_id reason env s).1.state
unfolding auto_switch_found auto_switch record_switch with_target
auto_switch_found-IsSound none client_id node_id reason env s h = h
auto_switch_found-IsSound (some c) client_id node_id reason env s h =
    when_target-IsSound (check_target (get node_id s.state.nodes) env.now) _ _ env s h (
      add_event-IsSound _ _ _ _ _ _ env.now _
        (switch-IsKeyed true env.now _
          (target-IsKeyed client_id node_id _ reason env.now s.state h))
        h.samples)

pub auto_switch-IsSound :
    (client node reason : Text) (env : Env) (s : Store)
    → IsSound s.state
    → IsSound (auto_switch_client_target client node reason env s).1.state
unfolding auto_switch_client_target
auto_switch-IsSound client node reason env s h =
    auto_switch_found-IsSound (get (sanitize_id client) s.state.clients) (sanitize_id client)
      (sanitize_id node) (auto_reason reason) env s h
