-- ===== src/Api/SettingsFiles.antt =====
-- The files of settings: handleAdminConfig and writeAdminConfig of internal/control/api.go.
use frp_cluster.Base.{true, false, Option, none, some, [], ◌⊎◌, inl, inr, if◌then◌else◌}
use frp_cluster.Text.{str, text_eq}
use frp_cluster.AdminConfig.{
  AliDnsSettings, AgentSettings, read_ali_dns_settings, write_ali_dns_settings, read_agent_settings,
  write_agent_settings,
}
use frp_cluster.Api.{
  Api, World, AdminConfigRequest, Answer, env_failure, admin_config_is, Response, Handler,
}
use frp_cluster.Api.Answers.{answer, refuse, on_json}

abbrev no_ali_dns : AliDnsSettings
no_ali_dns = record {
  access_key_id = [];
  access_key_secret = [];
  access_key_secret_set = false;
  domain_name = [];
  rr = [];
  record_type = [];
  ttl = [];
  endpoint = [];
  line = [];
}

abbrev no_agent : AgentSettings
no_agent = record { interval = []; probe_size = []; frps_dashboard_url = [] }

value_or {ℓ κ} : {E : Type ℓ} {A : Type κ} → A → E ⊎ A → A
value_or zero_value (inl e) = zero_value
value_or zero_value (inr value) = value

-- writeAdminConfig: the error of a file that cannot be read is ignored
unfoldable pub admin_config : Api → Answer
unfolding value_or
admin_config a =
    admin_config_is
      (if text_eq a.ali_dns_config_file []
        then no_ali_dns
        else value_or no_ali_dns (read_ali_dns_settings a.ali_dns_disk.file))
      (if text_eq a.node_env_file []
        then no_agent
        else value_or no_agent (read_agent_settings a.node_disk.file))
      (record {
        ali_dns_config = a.ali_dns_config_file;
        node_env = a.node_env_file;
        auth_config = a.auth_config_file;
      })

-- a part of the settings: what is refused, if it is, and the state after it
write_ali_dns : Option AliDnsSettings → World → Api → Option Response × Api
unfolding refuse answer
write_ali_dns none w a = (none, a)
write_ali_dns (some settings) w a =
    if text_eq a.ali_dns_config_file []
    then (some (refuse 428 (str "alidns config file not configured")), a)
    else let (e, d) = write_ali_dns_settings settings w.ali_dns_saving a.ali_dns_disk in
      (
        elim e [ none ↦ none | some error ↦ some (answer 500 (env_failure error)) ],
        record a { ali_dns_disk = d },
      )

write_agent : Option AgentSettings → World → Api → Option Response × Api
unfolding refuse answer
write_agent none w a = (none, a)
write_agent (some settings) w a =
    if text_eq a.node_env_file []
    then (some (refuse 428 (str "node env file not configured")), a)
    else let (e, d) = write_agent_settings settings w.node_saving a.node_disk in
      (
        elim e [ none ↦ none | some error ↦ some (answer 500 (env_failure error)) ],
        record a { node_disk = d },
      )

then_answer : Option Response × Api → Response × Api
unfolding answer admin_config
then_answer (some refused, a) = (refused, a)
then_answer (none, a) = (answer 200 (admin_config a), a)

then_agent : Option Response × Api → Option AgentSettings → World → Response × Api
unfolding then_answer write_agent
then_agent (some refused, a) agent w = (refused, a)
then_agent (none, a) agent w = then_answer (write_agent agent w a)

admin_config_decoded : AdminConfigRequest → Handler
unfolding then_agent write_ali_dns
admin_config_decoded req w r a = then_agent (write_ali_dns req.ali_dns w a) req.agent w

unfoldable pub handle_admin_config : Handler
unfolding answer refuse on_json admin_config_decoded admin_config
handle_admin_config w r a = elim (text_eq r.method (str "GET")) [
  | true ↦ (answer 200 (admin_config a), a)
  | false ↦ elim (text_eq r.method (str "PATCH")) [
    | true ↦ on_json r.body.as_admin_config admin_config_decoded w r a
    | false ↦ (refuse 405 (str "method not allowed"), a)
  ]
]
