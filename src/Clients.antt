-- ===== src/Clients.antt =====
-- Switching clients from node to node: SetClientTarget, AutoSwitchClientTarget,
-- AutoSwitchCandidates, recordSwitchLocked and upsertClientLocked of internal/control/service.go.
pub mod Metrics
pub mod Targets
use frp_cluster.Base.{
  Bool, true, false, not, ◌&&◌, Option, none, some, List, [], ◌∷◌, ◌++◌, map, pos, inc64, filter,
  if◌then◌else◌,
}
use frp_cluster.Sort.{sort_by}
use frp_cluster.Text.{Text, str, text_eq, text_lt, trim_space}
use frp_cluster.Dict.{Dict, get, put, adjust, values}
use frp_cluster.Ids.{sanitize_id, first_non_empty}
use frp_cluster.Types.{
  Instant, ServerNode, Client, MonthlySwitch, ClusterState, migration_state_pending,
  migration_state_manual,
}
use frp_cluster.Requests.{Result, ok, err, client_not_found, node_not_found, no_available_node}
use frp_cluster.Selection.{is_live}
use frp_cluster.Events.{add_event, current_month}
use frp_cluster.Store.{Env, Store, Exec, commit}
use frp_cluster.Migrations.{auto_migration_off}

pub record AutoSwitchCandidate : Type 0 where
  pub client_id : Text
  pub node_id : Text
  pub reason : Text

unfoldable pub no_switches : Text → MonthlySwitch
no_switches month = record {
  month = month;
  count = pos 0;
  manual = pos 0;
  automatic = pos 0;
  updated_at = 0;
}

unfoldable pub count_switch : Bool → Instant → MonthlySwitch → MonthlySwitch
count_switch automatic now metric = record metric {
  count = inc64 metric.count;
  automatic = if automatic then inc64 metric.automatic else metric.automatic;
  manual = if automatic then metric.manual else inc64 metric.manual;
  updated_at = now;
}

unfoldable metric_or_new : Text → Option MonthlySwitch → MonthlySwitch
unfolding no_switches
metric_or_new month none = no_switches month
metric_or_new month (some metric) = metric

unfoldable pub record_switch : Bool → Instant → ClusterState → ClusterState
unfolding metric_or_new
record_switch automatic now state =
    let month = current_month now now in
    let metric = metric_or_new month (get month state.switch_metrics) in
    record state {
      switch_metrics = put month (count_switch automatic now metric) state.switch_metrics;
    }

unfoldable pub set_target : Text → Text → Text → Instant → Client → Client
set_target node_id migration_state reason now client = record client {
  preferred_node_id = node_id;
  migration_state = migration_state;
  migration_reason = reason;
  migration_updated_at = now;
  updated_at = now;
}

-- the state with the client's target, before the switch is counted and the event is written
unfoldable pub with_target : Text → Text → Text → Text → Instant → ClusterState → ClusterState
with_target client_id node_id migration_state reason now state = record state {
  clients = adjust client_id (set_target node_id migration_state reason now) state.clients;
}

abbrev pub manual_reason : Text
manual_reason = str "manual switch from control plane"

unfoldable pub manual_switch : Text → Client → Text → Instant → ClusterState → ClusterState
manual_switch client_id client node_id now state =
    add_event (str "client.manual_switch")
      (str "client " ++ client.id ++ str " manually switched to " ++ node_id) node_id client.id []
      ((str "to_node", node_id) ∷ []) now
      (record_switch false now
        (with_target client_id node_id migration_state_manual manual_reason now state))

unfoldable pub clear_target : Text → Client → Instant → ClusterState → ClusterState
clear_target client_id client now state =
    add_event (str "client.manual_switch_cleared")
      (str "client " ++ client.id ++ str " manual target cleared") client.node_id client.id [] []
      now (with_target client_id [] [] [] now state)

-- the tests on the node that a client is sent to
unfoldable pub check_target : Option ServerNode → Instant → Result (Unit {0})
check_target none now = err node_not_found
check_target (some node) now = if is_live node now then ok tt else err no_available_node

-- an update that is made if the node passes
unfoldable pub when_target : Result (Unit {0}) → Client → ClusterState → Exec Client
when_target (err e) client state env s = (err e, s)
when_target (ok _) client state env s = commit client state env s

unfoldable pub set_target_found : Option Client → Text → Text → Exec Client
set_target_found none client_id node_id env s = (err client_not_found, s)
set_target_found (some client) client_id node_id env s =
    if text_eq node_id []
    then commit (set_target [] [] [] env.now client) (clear_target client_id client env.now s.state)
        env s
    else when_target (check_target (get node_id s.state.nodes) env.now)
        (set_target node_id migration_state_manual manual_reason env.now client)
        (manual_switch client_id client node_id env.now s.state) env s

-- an empty node takes the client's target away
unfoldable pub set_client_target : Text → Text → Exec Client
unfolding set_target_found
set_client_target client node env s =
    set_target_found (get (sanitize_id client) s.state.clients) (sanitize_id client)
      (sanitize_id node) env s

unfoldable pub auto_reason : Text → Text
auto_reason reason =
    first_non_empty (trim_space reason ∷ str "automatic switch from control plane" ∷ [])

unfoldable pub auto_switch : Text → Client → Text → Text → Instant → ClusterState → ClusterState
auto_switch client_id client node_id reason now state =
    add_event (str "client.auto_switch")
      (str "client " ++ client.id ++ str " automatically switched to " ++ node_id) node_id client.id
      [] ((str "to_node", node_id) ∷ (str "reason", reason) ∷ []) now
      (record_switch true now
        (with_target client_id node_id migration_state_manual reason now state))

unfoldable pub auto_switch_found : Option Client → Text → Text → Text → Exec Client
auto_switch_found none client_id node_id reason env s = (err client_not_found, s)
auto_switch_found (some client) client_id node_id reason env s =
    when_target (check_target (get node_id s.state.nodes) env.now)
      (set_target node_id migration_state_manual reason env.now client)
      (auto_switch client_id client node_id reason env.now s.state) env s

unfoldable pub auto_switch_client_target : Text → Text → Text → Exec Client
unfolding auto_switch_found auto_reason
auto_switch_client_target client node reason env s =
    auto_switch_found (get (sanitize_id client) s.state.clients) (sanitize_id client)
      (sanitize_id node) (auto_reason reason) env s

unfoldable pub is_candidate : Client → Bool
is_candidate client =
    text_eq client.migration_state migration_state_pending
    && not (text_eq client.preferred_node_id [])

unfoldable pub candidate : Client → AutoSwitchCandidate
candidate client = record {
  client_id = client.id;
  node_id = client.preferred_node_id;
  reason = client.migration_reason;
}

-- by client, then by node
unfoldable pub candidate_less : AutoSwitchCandidate → AutoSwitchCandidate → Bool
candidate_less a b =
    if not (text_eq a.client_id b.client_id)
    then text_lt a.client_id b.client_id
    else text_lt a.node_id b.node_id

unfoldable pub auto_switch_candidates : ClusterState → List AutoSwitchCandidate
auto_switch_candidates state =
    if auto_migration_off state.config
    then []
    else sort_by candidate_less (map candidate (filter is_candidate (values state.clients)))

unfoldable pub new_client : Text → Instant → Client
new_client client_id now = record {
  id = client_id;
  user = [];
  status = [];
  node_id = [];
  preferred_node_id = [];
  migration_state = [];
  migration_reason = [];
  migration_updated_at = 0;
  remote_addr = [];
  proxy_count = pos 0;
  first_seen_at = now;
  last_seen_at = 0;
  updated_at = 0;
}

unfoldable pub client_or_new : Text → Instant → Option Client → Client
unfolding new_client
client_or_new client_id now none = new_client client_id now
client_or_new client_id now (some client) = client

-- the client as upsertClientLocked leaves it, which is then in the map
unfoldable pub upsert_client : Text → Text → Text → Text → Instant → Dict Client → Client
unfolding client_or_new
upsert_client client_id user node_id remote_addr now clients =
    record (client_or_new client_id now (get client_id clients)) {
      user = trim_space user;
      node_id = node_id;
      remote_addr = trim_space remote_addr;
      last_seen_at = now;
      updated_at = now;
    }
