-- ===== src/Dns.antt =====
-- Pointing the public host at a node: internal/control/dns.go. The hook is a program that an
-- administrator names; how it ends is an input of the model. No other operation comes between
-- the reading of the state and the event, although the lock is free while the hook runs.
pub mod Update
use frp_cluster.Base.{
  Bool, true, false, not, ◌&&◌, ◌||◌, Option, none, some, [], ◌∷◌, ◌++◌, if◌then◌else◌,
}
use frp_cluster.Text.{Text, str, text_eq, trim_space}
use frp_cluster.Dict.{Dict, get}
use frp_cluster.Ids.{sanitize_id}
use frp_cluster.Types.{Instant, ServerNode, Client, ClusterConfig, ClusterState}
use frp_cluster.Requests.{
  Result, ok, err, node_not_found, client_not_found, no_available_node, dns_hook_not_configured,
  dns_hook_timed_out, dns_hook_failed,
}
use frp_cluster.Selection.{is_live}
use frp_cluster.Events.{add_event}
use frp_cluster.Store.{Env, Store, Exec, commit}

pub record DnsUpdateRequest : Type 0 where
  pub host : Text
  pub target_ip : Text
  pub node_id : Text
  pub client_id : Text

pub record DnsUpdateResult : Type 0 where
  pub updated : Bool
  pub host : Text
  pub target_ip : Text
  pub node_id : Text
  pub client_id : Text
  pub output : Text

-- how a run of the hook ends, with what it printed; a failure has the error's text too
pub data HookOutcome : Type 0 where
  hook_succeeds hook_times_out : Text → HookOutcome
  hook_fails : Text → Text → HookOutcome

-- what a hook does when it is called, by its path, for a request
abbrev pub Hook : Type 0
Hook = Text → DnsUpdateRequest → HookOutcome

unfoldable pub is_missing {ℓ} : {A : Type ℓ} → Option A → Bool
is_missing none = true
is_missing (some a) = false

request_for_found :
    Option ServerNode → Text → Bool → Instant → ClusterState → Result (Text × DnsUpdateRequest)
unfolding is_missing
request_for_found none client_id require_client now state = err node_not_found
request_for_found (some node) client_id require_client now state =
    let host = trim_space state.config.public_entry_host in
    let hook = trim_space state.config.dns_update_hook in
    if require_client && is_missing (get client_id state.clients)
    then err client_not_found
    else if not (is_live node now)
    then err no_available_node
    else if text_eq host [] || text_eq hook []
    then err dns_hook_not_configured
    else ok (
      hook,
      record {
        host = host;
        target_ip = node.public_addr;
        node_id = node.id;
        client_id = client_id;
      },
    )

-- the hook and what it is asked to do
unfoldable pub dns_update_request_for_node :
    Text → Text → Bool → Instant → ClusterState → Result (Text × DnsUpdateRequest)
unfolding request_for_found
dns_update_request_for_node client_id node_id require_client now state =
    request_for_found (get node_id state.nodes) client_id require_client now state

pub updated_with : DnsUpdateRequest → Text → DnsUpdateResult
updated_with req output = record {
  updated = true;
  host = req.host;
  target_ip = req.target_ip;
  node_id = req.node_id;
  client_id = req.client_id;
  output = trim_space output;
}

-- The result that comes with an error is left out: no caller reads it.
unfoldable pub run_dns_update_hook : HookOutcome → DnsUpdateRequest → Result DnsUpdateResult
unfolding updated_with
run_dns_update_hook (hook_succeeds output) req = ok (updated_with req output)
run_dns_update_hook (hook_times_out output) req = err dns_hook_timed_out
run_dns_update_hook (hook_fails message output) req =
    err (dns_hook_failed (message ++ str ": " ++ trim_space output))

unfoldable pub dns_event :
    Text → Text → DnsUpdateRequest → DnsUpdateResult → Instant → ClusterState → ClusterState
dns_event event_type hook req result now state =
    add_event event_type (str "dns " ++ req.host ++ str " updated to " ++ req.target_ip) req.node_id
      req.client_id []
      ((str "host", req.host)
        ∷ (str "target_ip", req.target_ip)
        ∷ (str "hook", hook)
        ∷ (str "output", result.output)
        ∷ [])
      now state

finish_dns_update : Result DnsUpdateResult → Text → Text → DnsUpdateRequest → Exec DnsUpdateResult
unfolding dns_event
finish_dns_update (err e) event_type hook req env s = (err e, s)
finish_dns_update (ok result) event_type hook req env s =
    commit result (dns_event event_type hook req result env.now s.state) env s

run_dns_update : Result (Text × DnsUpdateRequest) → Hook → Text → Exec DnsUpdateResult
unfolding finish_dns_update run_dns_update_hook
run_dns_update (err e) run event_type env s = (err e, s)
run_dns_update (ok (hook, req)) run event_type env s =
    finish_dns_update (run_dns_update_hook (run hook req) req) event_type hook req env s

-- `start` is when the state is read, and the environment is the one after the hook's run
unfoldable pub run_dns_update_for_node :
    Hook → Text → Text → Bool → Text → Instant → Exec DnsUpdateResult
unfolding run_dns_update
run_dns_update_for_node run client node require_client event_type start env s =
    run_dns_update
      (dns_update_request_for_node (sanitize_id client) (sanitize_id node) require_client start
        s.state)
      run event_type env s

unfoldable pub update_dns_for_node : Hook → Text → Text → Instant → Exec DnsUpdateResult
unfolding run_dns_update_for_node
update_dns_for_node run client node start =
    run_dns_update_for_node run client node true (str "dns.updated") start

unfoldable pub test_dns_update : Hook → Text → Text → Instant → Exec DnsUpdateResult
unfolding run_dns_update_for_node
test_dns_update run client node start =
    run_dns_update_for_node run (if text_eq (trim_space client) [] then str "dns-test" else client)
      node false (str "dns.tested") start
