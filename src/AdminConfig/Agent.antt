-- ===== src/AdminConfig/Agent.antt =====
-- What the settings of the agent are after they were written.
use frp_cluster.Base.{◌≡◌, ◌≢◌, refl, ap, ◌∙◌, none, some, inr, if◌then◌else◌}
use frp_cluster.Text.{Text, str, text_eq, text_differs}
use frp_cluster.Dict.{Dict, get, get-put}
use frp_cluster.EnvFile.{
  EnvContent, EnvDisk, env_saved, env_write_fails, read_env_file, or_empty, value_of,
}
use frp_cluster.EnvFile.RoundTrip.{IsEnvMap, ReadsAs, write_env_file_lem}
use frp_cluster.AdminConfig.{
  AgentSettings, interval_key, probe_key, dashboard_key, default_dashboard, or_setting,
  values_or_none, agent_settings, agent_result, read_agent_settings, agent_values, update_agent,
  write_agent_settings,
}
use frp_cluster.AdminConfig.Settings.{stored, or_default_idem}

-- the agent's settings as they are read back
abbrev pub saved_agent : AgentSettings → AgentSettings
saved_agent settings = record {
  interval = or_setting settings.interval (str "30s");
  probe_size = or_setting settings.probe_size (str "262144");
  frps_dashboard_url = or_setting settings.frps_dashboard_url default_dashboard;
}

get-agent_values :
    (settings : AgentSettings) (values : Dict Text) (k : Text)
    → get k (agent_values settings values) ≡ (
        if text_eq dashboard_key k
        then some (or_setting settings.frps_dashboard_url default_dashboard)
        else if text_eq probe_key k
        then some (or_setting settings.probe_size (str "262144"))
        else if text_eq interval_key k
        then some (or_setting settings.interval (str "30s"))
        else get k values)
unfolding agent_values
get-agent_values settings values k =
    rw
      (
        get-put dashboard_key k (or_setting settings.frps_dashboard_url default_dashboard) _,
        get-put probe_key k (or_setting settings.probe_size (str "262144")) _,
        get-put interval_key k (or_setting settings.interval (str "30s")) values,
      )
      refl

agent_settings-values :
    (settings : AgentSettings) (values r : Dict Text)
    → ((k : Text) → get k r ≡ get k (agent_values settings values))
    → agent_settings r ≡ saved_agent settings
unfolding agent_settings value_of or_empty text_eq str
agent_settings-values settings values r same =
    rw
      (
        same interval_key,
        same probe_key,
        same dashboard_key,
        get-agent_values settings values interval_key,
        get-agent_values settings values probe_key,
        get-agent_values settings values dashboard_key,
        or_default_idem settings.interval (str "30s"),
        or_default_idem settings.probe_size (str "262144"),
        or_default_idem settings.frps_dashboard_url default_dashboard,
      )
      refl

-- a variable that is not one of the agent's three settings
abbrev pub IsOtherKey : Text → Type 0
IsOtherKey k = (interval_key ≢ k) × (probe_key ≢ k) × (dashboard_key ≢ k)

agent_values_other :
    (settings : AgentSettings) (values : Dict Text) (k : Text)
    → IsOtherKey k
    → get k (agent_values settings values) ≡ get k values
agent_values_other settings values k (i, p, d) =
    rw
      (
        get-agent_values settings values k,
        text_differs dashboard_key k d,
        text_differs probe_key k p,
        text_differs interval_key k i,
      )
      refl

module _ (settings : AgentSettings) (d : EnvDisk) (values : Dict Text)
    (readable : read_env_file d.file ≡ inr values) where
  read-write_agent :
      IsEnvMap (agent_values settings values)
      → ((write_agent_settings settings env_saved d).0 ≡ none)
        × ReadsAs (write_agent_settings settings env_saved d).1.file (agent_values settings values)
  unfolding write_agent_settings update_agent
  read-write_agent h =
      let (done, reads, _, _) =
        write_env_file_lem (agent_values settings values) env_write_fails d h cc in
      rw readable (done, reads)

  agent_of_ReadsAs :
      (content : EnvContent)
      → ReadsAs content (agent_values settings values)
      → (read_agent_settings content ≡ inr (saved_agent settings))
        × ((k : Text) → IsOtherKey k → get k (stored content) ≡ get k values)
  unfolding read_agent_settings agent_result values_or_none
  agent_of_ReadsAs content (r, e, same) = rw e (
    ap inr (agent_settings-values settings values r same),
    λ k other. same k ∙ agent_values_other settings values k other,
  )

  -- The agent's settings, once saved in a node's environment file that can be read, are read
  -- back, with the default where one is blank, and every other variable of the file keeps its
  -- value. (What is written is such as an environment file can hold.)
  pub write_agent_settings_lem :
      IsEnvMap (agent_values settings values)
      → ((write_agent_settings settings env_saved d).0 ≡ none)
        × (read_agent_settings (write_agent_settings settings env_saved d).1.file
            ≡ inr (saved_agent settings))
        × ((k : Text)
            → IsOtherKey k
            → get k (stored (write_agent_settings settings env_saved d).1.file) ≡ get k values)
  write_agent_settings_lem h =
      let (done, reads) = read-write_agent h in
      let (read, others) =
        agent_of_ReadsAs (write_agent_settings settings env_saved d).1.file reads in
      (done, read, others)
