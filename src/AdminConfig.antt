-- ===== src/AdminConfig.antt =====
-- The settings that an administrator edits: internal/control/admin_config.go. They are kept in
-- environment files, which other programs read.
pub mod Agent
pub mod Settings
use frp_cluster.Base.{Bool, not, Option, none, some, [], ◌∷◌, ◌⊎◌, inl, inr, false, if◌then◌else◌}
use frp_cluster.Text.{Text, str, text_eq, trim_space}
use frp_cluster.Dict.{Dict, put}
use frp_cluster.Ids.{first_non_empty}
use frp_cluster.EnvFile.{
  EnvContent, EnvError, not_exist, EnvDisk, EnvSaving, read_env_file, write_env_file, value_of,
}

pub record AliDnsSettings : Type 0 where
  pub access_key_id : Text
  pub access_key_secret : Text
  pub access_key_secret_set : Bool
  pub domain_name : Text
  pub rr : Text
  pub record_type : Text
  pub ttl : Text
  pub endpoint : Text
  pub line : Text

pub record AgentSettings : Type 0 where
  pub interval : Text
  pub probe_size : Text
  pub frps_dashboard_url : Text

abbrev pub key_id_key : Text
key_id_key = str "ALIDNS_ACCESS_KEY_ID"

abbrev pub secret_key : Text
secret_key = str "ALIDNS_ACCESS_KEY_SECRET"

abbrev pub domain_key : Text
domain_key = str "ALIDNS_DOMAIN_NAME"

abbrev pub rr_key : Text
rr_key = str "ALIDNS_RR"

abbrev pub type_key : Text
type_key = str "ALIDNS_RECORD_TYPE"

abbrev pub ttl_key : Text
ttl_key = str "ALIDNS_TTL"

abbrev pub endpoint_key : Text
endpoint_key = str "ALIDNS_ENDPOINT"

abbrev pub line_key : Text
line_key = str "ALIDNS_LINE"

abbrev pub interval_key : Text
interval_key = str "AGENT_INTERVAL"

abbrev pub probe_key : Text
probe_key = str "PROBE_SIZE"

abbrev pub dashboard_key : Text
dashboard_key = str "FRPS_DASHBOARD_URL"

abbrev pub default_domain : Text
default_domain = str "buaadcl.tech"

abbrev pub default_endpoint : Text
default_endpoint = str "alidns.cn-hangzhou.aliyuncs.com"

abbrev pub default_dashboard : Text
default_dashboard = str "http://127.0.0.1:7500"

-- a blank value gives way to the default
unfoldable pub or_setting : Text → Text → Text
or_setting value fallback = first_non_empty (value ∷ fallback ∷ [])

-- The secret itself is never read back.
unfoldable pub ali_dns_settings : Dict Text → AliDnsSettings
unfolding or_setting
ali_dns_settings values = record {
  access_key_id = value_of key_id_key values;
  access_key_secret = [];
  access_key_secret_set = not (text_eq (trim_space (value_of secret_key values)) []);
  domain_name = or_setting (value_of domain_key values) default_domain;
  rr = value_of rr_key values;
  record_type = or_setting (value_of type_key values) (str "A");
  ttl = or_setting (value_of ttl_key values) (str "600");
  endpoint = or_setting (value_of endpoint_key values) default_endpoint;
  line = or_setting (value_of line_key values) (str "default");
}

unfoldable pub default_ali_dns_settings : AliDnsSettings
default_ali_dns_settings = record {
  access_key_id = [];
  access_key_secret = [];
  access_key_secret_set = false;
  domain_name = default_domain;
  rr = [];
  record_type = str "A";
  ttl = str "600";
  endpoint = default_endpoint;
  line = str "default";
}

unfoldable ali_dns_result : EnvError ⊎ Dict Text → EnvError ⊎ AliDnsSettings
unfolding ali_dns_settings default_ali_dns_settings
ali_dns_result (inl not_exist) = inr default_ali_dns_settings
ali_dns_result (inl e) = inl e
ali_dns_result (inr values) = inr (ali_dns_settings values)

unfoldable pub read_ali_dns_settings : EnvContent → EnvError ⊎ AliDnsSettings
unfolding ali_dns_result
read_ali_dns_settings content = ali_dns_result (read_env_file content)

-- no values, if the file cannot be read
unfoldable pub values_or_none : EnvError ⊎ Dict Text → Dict Text
values_or_none (inl e) = []
values_or_none (inr values) = values

unfoldable pub new_secret : Text → Dict Text → Text
new_secret secret existing =
    if text_eq (trim_space secret) [] then value_of secret_key existing else trim_space secret

unfoldable pub ali_dns_values : AliDnsSettings → Dict Text → Dict Text
unfolding or_setting new_secret
ali_dns_values settings existing =
    (key_id_key, trim_space settings.access_key_id)
    ∷ (secret_key, new_secret settings.access_key_secret existing)
    ∷ (domain_key, or_setting settings.domain_name default_domain)
    ∷ (rr_key, trim_space settings.rr)
    ∷ (type_key, or_setting settings.record_type (str "A"))
    ∷ (ttl_key, or_setting settings.ttl (str "600"))
    ∷ (endpoint_key, or_setting settings.endpoint default_endpoint)
    ∷ (line_key, or_setting settings.line (str "default"))
    ∷ []

unfoldable pub write_ali_dns_settings :
    AliDnsSettings → EnvSaving → EnvDisk → Option EnvError × EnvDisk
unfolding ali_dns_values values_or_none
write_ali_dns_settings settings saving d =
    write_env_file (ali_dns_values settings (values_or_none (read_env_file d.file))) saving d

unfoldable pub agent_settings : Dict Text → AgentSettings
unfolding or_setting
agent_settings values = record {
  interval = or_setting (value_of interval_key values) (str "30s");
  probe_size = or_setting (value_of probe_key values) (str "262144");
  frps_dashboard_url = or_setting (value_of dashboard_key values) default_dashboard;
}

unfoldable default_agent_settings : AgentSettings
default_agent_settings = record {
  interval = str "30s";
  probe_size = str "262144";
  frps_dashboard_url = default_dashboard;
}

unfoldable agent_result : EnvError ⊎ Dict Text → EnvError ⊎ AgentSettings
unfolding agent_settings default_agent_settings
agent_result (inl not_exist) = inr default_agent_settings
agent_result (inl e) = inl e
agent_result (inr values) = inr (agent_settings values)

unfoldable pub read_agent_settings : EnvContent → EnvError ⊎ AgentSettings
unfolding agent_result
read_agent_settings content = agent_result (read_env_file content)

-- the values of the file, with three of them set
unfoldable pub agent_values : AgentSettings → Dict Text → Dict Text
unfolding or_setting
agent_values settings values =
    put dashboard_key (or_setting settings.frps_dashboard_url default_dashboard) (
      put probe_key (or_setting settings.probe_size (str "262144"))
        (put interval_key (or_setting settings.interval (str "30s")) values))

unfoldable update_agent :
    EnvError ⊎ Dict Text → AgentSettings → EnvSaving → EnvDisk → Option EnvError × EnvDisk
unfolding agent_values
update_agent (inl e) settings saving d = (some e, d)
update_agent (inr values) settings saving d = write_env_file (agent_values settings values) saving d

-- a file that cannot be read is not written
unfoldable pub write_agent_settings :
    AgentSettings → EnvSaving → EnvDisk → Option EnvError × EnvDisk
unfolding update_agent
write_agent_settings settings saving d = update_agent (read_env_file d.file) settings saving d
