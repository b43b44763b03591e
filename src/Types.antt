-- ===== src/Types.antt =====
-- The data of the control plane: internal/control/types.go.
-- An instant is a number of nanoseconds since the zero `time.Time`, so `IsZero` is `== 0`; an
-- `int` or `int64` is an integer; a map is an association list of the values it points to.
use frp_cluster.Base.{ℕ, ◌+◌, Bool, Option, List, ℤ, ltb, ◌==◌}
use frp_cluster.Text.{Text, str}
use frp_cluster.Dict.{Dict}

abbrev pub Instant : Type 0
Instant = ℕ

-- `t.IsZero()`
abbrev pub is_zero : Instant → Bool
is_zero t = t == 0

abbrev pub second : ℕ
second = 1_000_000_000

-- `now.Sub(t) > d`, for a duration `d` that is not negative
abbrev pub elapsed_more : Instant → Instant → ℕ → Bool
elapsed_more now t d = ltb (t + d) now

abbrev pub node_status_online : Text
node_status_online = str "online"

abbrev pub node_status_offline : Text
node_status_offline = str "offline"

abbrev pub client_status_online : Text
client_status_online = str "online"

abbrev pub client_status_offline : Text
client_status_offline = str "offline"

abbrev pub proxy_status_online : Text
proxy_status_online = str "online"

abbrev pub proxy_status_closed : Text
proxy_status_closed = str "closed"

abbrev pub config_mode_single : Text
config_mode_single = str "single"

abbrev pub config_mode_failover : Text
config_mode_failover = str "failover"

abbrev pub config_mode_aggregate : Text
config_mode_aggregate = str "aggregate"

abbrev pub migration_state_pending : Text
migration_state_pending = str "pending"

abbrev pub migration_state_manual : Text
migration_state_manual = str "manual"

pub record ClusterConfig : Type 0 where
  pub name : Text
  pub auth_token : Text
  pub dashboard_port : ℤ
  pub plugin_path : Text
  pub plugin_ops : Text
  pub auto_migration : Option Bool
  pub migration_score_gap : ℤ
  pub public_entry_host : Text
  pub dns_update_hook : Text
  pub public_control_url : Text
  pub peer_urls : List Text

pub record NetworkStatus : Type 0 where
  pub latency_ms : ℤ
  pub download_bandwidth_bps : ℤ
  pub upload_bandwidth_bps : ℤ
  pub observed_rx_bps : ℤ
  pub observed_tx_bps : ℤ
  pub bandwidth_bps : ℤ
  pub score : ℤ
  pub measured_at : Instant
  pub stale : Bool

pub record ProxyTraffic : Type 0 where
  pub name : Text
  pub type : Text
  pub client_id : Text
  pub total_in_bytes : ℤ
  pub total_out_bytes : ℤ
  pub current_connections : ℤ
  pub status : Text

pub record TrafficCounters : Type 0 where
  pub total_in_bytes : ℤ
  pub total_out_bytes : ℤ
  pub current_connections : ℤ
  pub proxies : List ProxyTraffic
  pub measured_at : Instant

pub record TrafficSample : Type 0 where
  pub node_id : Text
  pub at : Instant
  pub total_in_bytes : ℤ
  pub total_out_bytes : ℤ
  pub delta_in_bytes : ℤ
  pub delta_out_bytes : ℤ
  pub current_connections : ℤ

pub record ServerNode : Type 0 where
  pub id : Text
  pub name : Text
  pub public_addr : Text
  pub control_url : Text
  pub bind_port : ℤ
  pub vhost_http_port : ℤ
  pub vhost_https_port : ℤ
  pub region : Text
  pub tags : List Text
  pub status : Text
  pub node_token : Text
  pub client_count : ℤ
  pub proxy_count : ℤ
  pub network : NetworkStatus
  pub traffic : TrafficCounters
  pub joined_at : Instant
  pub last_seen_at : Instant
  pub updated_at : Instant

pub record Client : Type 0 where
  pub id : Text
  pub user : Text
  pub status : Text
  pub node_id : Text
  pub preferred_node_id : Text
  pub migration_state : Text
  pub migration_reason : Text
  pub migration_updated_at : Instant
  pub remote_addr : Text
  pub proxy_count : ℤ
  pub first_seen_at : Instant
  pub last_seen_at : Instant
  pub updated_at : Instant

pub record Proxy : Type 0 where
  pub id : Text
  pub name : Text
  pub type : Text
  pub client_id : Text
  pub user : Text
  pub node_id : Text
  pub status : Text
  pub remote_port : ℤ
  pub created_at : Instant
  pub updated_at : Instant

pub record JoinToken : Type 0 where
  pub token : Text
  pub uses_left : ℤ
  pub expires_at : Instant
  pub created_at : Instant
  pub used_by : List Text

pub record Event : Type 0 where
  pub id : Text
  pub type : Text
  pub message : Text
  pub node_id : Text
  pub client_id : Text
  pub proxy_id : Text
  pub metadata : Dict Text
  pub created_at : Instant

pub record MonthlySwitch : Type 0 where
  pub month : Text
  pub count : ℤ
  pub manual : ℤ
  pub automatic : ℤ
  pub updated_at : Instant

pub record ClusterState : Type 0 where
  pub config : ClusterConfig
  pub nodes : Dict ServerNode
  pub clients : Dict Client
  pub proxies : Dict Proxy
  pub tokens : Dict JoinToken
  pub events : List Event
  pub switch_metrics : Dict MonthlySwitch
  pub traffic_samples : List TrafficSample
