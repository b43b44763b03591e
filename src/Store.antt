-- ===== src/Store.antt =====
-- The store and its file: Store, NewMemoryStore, defaultState, ensureMaps and saveLocked of
-- internal/control/store.go. The lock makes each operation one step.
pub mod Saving
use frp_cluster.Base.{◌&&◌, Bool, true, Option, none, some, List, [], ℤ, pos, int_eq, if◌then◌else◌}
use frp_cluster.Text.{Text, str, text_eq}
use frp_cluster.Types.{Instant, ClusterConfig, ClusterState}
use frp_cluster.Requests.{
  Error, Result, ok, err, create_state_dir, encode_state, write_state, replace_state,
}

-- how the calls of the operating system go, at one save
pub data SaveOutcome : Type 0 where
  saved mkdir_fails encode_fails write_fails rename_fails : SaveOutcome

-- What an operation meets: the clock, the text of fresh random bytes (`none` if the system gives
-- none), and how a save goes.
pub record Env : Type 0 where
  pub now : Instant
  pub random : Option Text
  pub saving : SaveOutcome

-- The state file and the temporary file beside it, each as the state that it holds; `none` for a
-- file that is missing or is not whole.
pub record Disk : Type 0 where
  pub file : Option ClusterState
  pub tmp : Option ClusterState

pub record Store : Type 0 where
  pub path : Text
  pub state : ClusterState
  pub disk : Disk

-- An operation: what it returns, and the store that it leaves, on an error too.
abbrev pub Exec : Type 0 → Type 0
Exec A = Env → Store → Result A × Store

abbrev pub empty_disk : Disk
empty_disk = record { file = none; tmp = none }

unfoldable pub default_config : ClusterConfig
default_config = record {
  name = str "frp-cluster";
  auth_token = str "change-me";
  dashboard_port = pos 7500;
  plugin_path = str "/handler";
  plugin_ops = str "Login,NewProxy,CloseProxy,Ping";
  auto_migration = some true;
  migration_score_gap = pos 15;
  public_entry_host = [];
  dns_update_hook = [];
  public_control_url = [];
  peer_urls = [];
}

unfoldable pub default_state : ClusterState
unfolding default_config
default_state = record {
  config = default_config;
  nodes = [];
  clients = [];
  proxies = [];
  tokens = [];
  events = [];
  switch_metrics = [];
  traffic_samples = [];
}

unfoldable pub new_memory_store : Store
unfolding default_state
new_memory_store = record { path = []; state = default_state; disk = empty_disk }

unfoldable pub save_file : SaveOutcome → Store → Result (Unit {0}) × Store
save_file saved s = (ok tt, record s { disk = record { file = some s.state; tmp = none } })
save_file mkdir_fails s = (err create_state_dir, s)
save_file encode_fails s = (err encode_state, s)
save_file write_fails s =
    (err write_state, record s { disk = record { file = s.disk.file; tmp = none } })
save_file rename_fails s =
    (err replace_state, record s { disk = record { file = s.disk.file; tmp = some s.state } })

-- a store without a path is kept in memory only
unfoldable pub save_locked : Exec (Unit {0})
unfolding save_file
save_locked env s = if text_eq s.path [] then (ok tt, s) else save_file env.saving s

-- `if err := s.saveLocked(); err != nil { return nil, err }; return value, nil`
unfoldable pub then_return {ℓ} : {A : Type ℓ} → A → Result (Unit {0}) × Store → Result A × Store
then_return a (ok _, s) = (ok a, s)
then_return a (err e, s) = (err e, s)

unfoldable pub save_and_return : {A : Type 0} → A → Exec A
unfolding then_return
save_and_return a env s = then_return a (save_locked env s)

-- the same for a new state of the store
unfoldable pub commit : {A : Type 0} → A → ClusterState → Exec A
unfolding save_and_return
commit a state env s = save_and_return a env (record s { state = state })
