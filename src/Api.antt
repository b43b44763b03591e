-- ===== src/Api.antt =====
-- The HTTP API: its state, what a request carries and what is answered (internal/control/api.go
-- and runtime.go). The handlers are in the modules below.
pub mod SettingsFiles
pub mod Auth
pub mod Answers
pub mod Login
pub mod Admin
pub mod Cluster
pub mod Files
pub mod Peers
pub mod Probe
pub mod Web
pub mod Router
pub mod Guarded
pub mod Settings
pub mod Stranger
pub mod Open
pub mod Expiry
use frp_cluster.Base.{ℕ, Bool, Option, List, [], ℤ, pos, pos_part, int_le, ◌⊎◌, if◌then◌else◌}
use frp_cluster.Text.{Text, trim_space}
use frp_cluster.Dict.{Dict}
use frp_cluster.Types.{Instant, ServerNode, Client, JoinToken, ClusterConfig, ClusterState}
use frp_cluster.Requests.{Error, JoinRequest, HeartbeatRequest, JoinResponse}
use frp_cluster.Store.{Env, Store}
use frp_cluster.Content.{PluginEvent}
use frp_cluster.Config.{ConfigUpdate}
use frp_cluster.Merge.{RemoteState}
use frp_cluster.Traffic.Series.{TrafficSeries}
use frp_cluster.Dns.{Hook, DnsUpdateResult}
use frp_cluster.Snapshot.{ClusterSnapshot}
use frp_cluster.EnvFile.{EnvError, EnvSaving, EnvDisk}
use frp_cluster.AdminConfig.{AliDnsSettings, AgentSettings}
use frp_cluster.Totp.{Crypto}
use frp_cluster.FrpConfig.{UrlParser}

pub record RuntimeOptions : Type 0 where
  pub web_dir : Text
  pub admin_password : Text
  pub admin_password_file : Text
  pub auth_config_file : Text
  pub ali_dns_config_file : Text
  pub node_env_file : Text
  pub session_ttl : ℤ

pub record TotpConfig : Type 0 where
  pub secret : Text
  pub issuer : Text
  pub account : Text

-- A path that is empty is not configured. The three environment files, which are different ones,
-- are part of the state.
pub record Api : Type 0 where
  pub store : Store
  pub web_dir : Text
  pub admin_password : Text
  pub admin_password_file : Text
  pub auth_config_file : Text
  pub ali_dns_config_file : Text
  pub node_env_file : Text
  pub session_ttl : ℕ
  pub sessions : Dict Instant
  pub auth_disk : EnvDisk
  pub ali_dns_disk : EnvDisk
  pub node_disk : EnvDisk

-- What a request meets: the environment of the store, and of the store after a hook's run; the
-- hook; the password file, if it can be read; how the environment files are saved; fresh random
-- texts for a session and for a secret; what systemctl prints when it fails; how many writes to
-- the connection succeed; the functions of other packages; the absolute path of a relative one; and
-- which paths are those of files, not of directories.
pub record World : Type 0 where
  pub env : Env
  pub after_hook : Env
  pub hook : Hook
  pub password_file : Option Text
  pub auth_saving : EnvSaving
  pub ali_dns_saving : EnvSaving
  pub node_saving : EnvSaving
  pub session_token : Option Text
  pub totp_secret : Option Text
  pub restart_failure : Option Text
  pub writes : ℕ
  pub crypto : Crypto
  pub parse_url : UrlParser
  pub parse_duration : Text → Option ℤ
  pub totp_uri : Text → Text → Text → Text
  pub absolute : Text → Text
  pub is_file : Text → Bool

pub record LoginRequest : Type 0 where
  pub code : Text

pub record TotpSetupRequest : Type 0 where
  pub bootstrap_password : Text
  pub account : Text

pub record TotpConfirmRequest : Type 0 where
  pub bootstrap_password : Text
  pub secret : Text
  pub code : Text
  pub account : Text

pub record AdminConfigRequest : Type 0 where
  pub ali_dns : Option AliDnsSettings
  pub agent : Option AgentSettings

pub record DnsTestRequest : Type 0 where
  pub node_id : Text
  pub client_id : Text

pub record TokenRequest : Type 0 where
  pub ttl : Text
  pub uses : ℤ

pub record TargetRequest : Type 0 where
  pub node_id : Text
  pub reason : Text

-- What decoding a body into a struct gives: the error's text, or the value, which is the zero one
-- for an empty body.
abbrev pub Decoded : Type 0 → Type 0
Decoded A = Text ⊎ A

-- The body, by what each handler decodes it into. A heartbeat's decoding errors are ignored, so
-- it is the part that was decoded.
pub record Body : Type 0 where
  pub as_login : Decoded LoginRequest
  pub as_totp_setup : Decoded TotpSetupRequest
  pub as_totp_confirm : Decoded TotpConfirmRequest
  pub as_settings : Decoded ConfigUpdate
  pub as_admin_config : Decoded AdminConfigRequest
  pub as_dns_test : Decoded DnsTestRequest
  pub as_token : Decoded TokenRequest
  pub as_join : Decoded JoinRequest
  pub as_heartbeat : HeartbeatRequest
  pub as_target : Decoded TargetRequest
  pub as_state : Decoded RemoteState
  pub as_plugin_event : Decoded PluginEvent
  pub size : ℕ

-- The query is the list of its pairs, in order.
pub record HttpRequest : Type 0 where
  pub method : Text
  pub path : Text
  pub query : List (Text × Text)
  pub cookie : Option Text
  pub authorization : Text
  pub tls : Bool
  pub host : Text
  pub forwarded_proto : Text
  pub forwarded_host : Text
  pub body : Body

pub record AuthStatus : Type 0 where
  pub auth_enabled : Bool
  pub authenticated : Bool
  pub totp_configured : Bool
  pub bootstrap_required : Bool

pub record TotpSetup : Type 0 where
  pub secret : Text
  pub issuer : Text
  pub account : Text
  pub otpauth_uri : Text

pub record AdminPaths : Type 0 where
  pub ali_dns_config : Text
  pub node_env : Text
  pub auth_config : Text

-- what is answered, before it is encoded
pub data Answer : Type 0 where
  message : Text → Answer
  failure : Error → Answer
  env_failure : EnvError → Answer
  authenticated_is : Bool → Answer
  totp_confirmed : Answer
  auth_status : AuthStatus → Answer
  totp_setup : TotpSetup → Answer
  status_is : Text → Answer
  chunks : List ℕ → Answer
  received : ℕ → Answer
  cluster_is : ClusterSnapshot → Answer
  traffic_is : TrafficSeries → Answer
  config_is : ClusterConfig → Answer
  admin_config_is : AliDnsSettings → AgentSettings → AdminPaths → Answer
  dns_is : DnsUpdateResult → Answer
  tokens_are : List JoinToken → Answer
  token_is : JoinToken → Answer
  joined : JoinResponse → Answer
  node_is : ServerNode → Answer
  client_is : Client → DnsUpdateResult → Answer
  text_is : Text → Answer
  files_are : Dict Text → Answer
  command_is : Text → Answer
  state_is : ClusterState → Answer
  event_taken : Answer
  file_at : Text → Answer

-- `set_cookie` is the session cookie that is set; the empty one takes it away
pub record Response : Type 0 where
  pub status : ℕ
  pub answer : Answer
  pub set_cookie : Option Text

abbrev pub Handler : Type 0
Handler = World → HttpRequest → Api → Response × Api

-- twelve hours
abbrev pub default_session_ttl : ℕ
default_session_ttl = 43_200_000_000_000

unfoldable pub new_api_with_options : Store → RuntimeOptions → EnvDisk → EnvDisk → EnvDisk → Api
new_api_with_options store opts auth_disk ali_dns_disk node_disk = record {
  store = store;
  web_dir = trim_space opts.web_dir;
  admin_password = trim_space opts.admin_password;
  admin_password_file = trim_space opts.admin_password_file;
  auth_config_file = trim_space opts.auth_config_file;
  ali_dns_config_file = trim_space opts.ali_dns_config_file;
  node_env_file = trim_space opts.node_env_file;
  session_ttl =
      if int_le opts.session_ttl (pos 0) then default_session_ttl else pos_part opts.session_ttl;
  sessions = [];
  auth_disk = auth_disk;
  ali_dns_disk = ali_dns_disk;
  node_disk = node_disk;
}
