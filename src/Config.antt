-- ===== src/Config.antt =====
-- The configuration of a control plane, and loading its state: NewStore, load, ensureMaps,
-- ConfigureControlPlaneWithOptions and UpdateConfig of internal/control/store.go.
pub mod Updates
use frp_cluster.Base.{
  Bool, true, false, Option, none, some, List, [], ℤ, pos, int_eq, int_lt, if◌then◌else◌,
}
use frp_cluster.Text.{Text, text_eq, trim_space}
use frp_cluster.Ids.{normalize_control_url, merge_peer_urls, remove_peer_url}
use frp_cluster.Types.{ClusterConfig, ClusterState}
use frp_cluster.Requests.{Result, ok, err, read_state, decode_state, negative_score_gap}
use frp_cluster.Store.{
  Env, Store, Disk, Exec, commit, default_config, default_state, save_locked, then_return,
}

-- What reading the file gives: its JSON is decoded over the default state, so a field that it
-- leaves out keeps the default; the decoding itself is not modelled.
pub data FileContent : Type 0 where
  file_missing file_unreadable file_empty file_invalid : FileContent
  file_state : ClusterState → FileContent

abbrev or_text : Text → Text → Text
or_text value fallback = if text_eq value [] then fallback else value

abbrev or_int : ℤ → ℤ → ℤ
or_int value fallback = if int_eq value (pos 0) then fallback else value

unfoldable or_on : Option Bool → Option Bool
or_on none = some true
or_on (some enabled) = some enabled

-- what the file may have left empty
unfoldable pub ensure_config : ClusterConfig → ClusterConfig
unfolding default_config or_on
ensure_config c = record c {
  name = or_text c.name default_config.name;
  dashboard_port = or_int c.dashboard_port default_config.dashboard_port;
  plugin_path = or_text c.plugin_path default_config.plugin_path;
  plugin_ops = or_text c.plugin_ops default_config.plugin_ops;
  auto_migration = or_on c.auto_migration;
  migration_score_gap = or_int c.migration_score_gap default_config.migration_score_gap;
}

unfoldable pub ensure_maps : ClusterState → ClusterState
unfolding ensure_config
ensure_maps state = record state { config = ensure_config state.config }

unfoldable pub with_state : ClusterState → Store → Store
with_state state s = record s { state = state }

load_content : FileContent → Exec (Unit {0})
load_content file_missing env s = save_locked env s
load_content file_unreadable env s = (err read_state, s)
load_content file_empty env s = save_locked env s
load_content file_invalid env s = (err decode_state, s)
load_content (file_state state) env s = (ok tt, with_state (ensure_maps state) s)

-- a store without a path starts with the default state
unfoldable pub load : FileContent → Exec (Unit {0})
unfolding load_content default_state
load content env s =
    let fresh = with_state default_state s in
    if text_eq s.path [] then (ok tt, fresh) else load_content content env fresh

pub record ControlPlaneOptions : Type 0 where
  pub public_url : Text
  pub peer_urls : List Text
  pub public_entry_host : Text
  pub dns_update_hook : Text
  pub auth_token : Text

-- an option that is empty leaves the configuration's value
abbrev option_or : Text → Text → Text
option_or option value = if text_eq option [] then value else trim_space option

unfoldable pub configured : ControlPlaneOptions → ClusterConfig → ClusterConfig
configured opts c =
    let url = normalize_control_url opts.public_url in
    let peers = merge_peer_urls c.peer_urls opts.peer_urls in
    record c {
      public_control_url = if text_eq url [] then c.public_control_url else url;
      public_entry_host = option_or opts.public_entry_host c.public_entry_host;
      dns_update_hook = option_or opts.dns_update_hook c.dns_update_hook;
      auth_token = option_or opts.auth_token c.auth_token;
      peer_urls = if text_eq url [] then peers else remove_peer_url peers url;
    }

unfoldable pub with_config : ClusterConfig → ClusterState → ClusterState
with_config config state = record state { config = config }

unfoldable pub configure_control_plane : ControlPlaneOptions → Exec (Unit {0})
configure_control_plane opts env s =
    commit tt (with_config (configured opts s.state.config) s.state) env s

pub record ConfigUpdate : Type 0 where
  pub auto_migration : Option Bool
  pub migration_score_gap : Option ℤ
  pub public_entry_host : Option Text
  pub dns_update_hook : Option Text

unfoldable pub set_auto_migration : Option Bool → ClusterConfig → ClusterConfig
set_auto_migration none c = c
set_auto_migration (some enabled) c = record c { auto_migration = some enabled }

unfoldable pub set_score_gap : Option ℤ → ClusterConfig → ClusterConfig
set_score_gap none c = c
set_score_gap (some gap) c = record c { migration_score_gap = gap }

unfoldable pub set_entry_host : Option Text → ClusterConfig → ClusterConfig
set_entry_host none c = c
set_entry_host (some host) c = record c { public_entry_host = trim_space host }

unfoldable pub set_update_hook : Option Text → ClusterConfig → ClusterConfig
set_update_hook none c = c
set_update_hook (some hook) c = record c { dns_update_hook = trim_space hook }

unfoldable pub is_negative_gap : Option ℤ → Bool
is_negative_gap none = false
is_negative_gap (some gap) = int_lt gap (pos 0)

-- the automatic migration is set before the gap is tested
unfoldable pub update_config : ConfigUpdate → Exec ClusterConfig
update_config update env s =
    let first = set_auto_migration update.auto_migration s.state.config in
    let config =
      set_update_hook update.dns_update_hook (
        set_entry_host update.public_entry_host (set_score_gap update.migration_score_gap first)) in
    if is_negative_gap update.migration_score_gap
    then (err negative_score_gap, with_state (with_config first s.state) s)
    else commit config (with_config config s.state) env s
