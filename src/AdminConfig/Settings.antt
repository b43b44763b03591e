-- ===== src/AdminConfig/Settings.antt =====
-- What the settings of AliDNS are after they were written.
use frp_cluster.Base.{◌≡◌, refl, ap, ◌∙◌, not, none, [], inr, arith, if◌then◌else◌}
use frp_cluster.Text.{Text, str, text_eq, text_eq_refl, is_space, trim_space, trim_by, trim_by_idem}
use frp_cluster.Dict.{Dict, get}
use frp_cluster.Ids.{first_non_empty}
use frp_cluster.EnvFile.{
  EnvContent, EnvDisk, env_saved, env_write_fails, read_env_file, or_empty, value_of,
}
use frp_cluster.EnvFile.RoundTrip.{IsEnvMap, ReadsAs, write_env_file_lem}
use frp_cluster.AdminConfig.{
  AliDnsSettings, key_id_key, secret_key, domain_key, rr_key, type_key, ttl_key, endpoint_key,
  line_key, default_domain, default_endpoint, or_setting, ali_dns_settings, ali_dns_result,
  read_ali_dns_settings, values_or_none, new_secret, ali_dns_values, write_ali_dns_settings,
}

trim_space_idem : (s : Text) → trim_space (trim_space s) ≡ trim_space s
unfolding trim_space
trim_space_idem s = trim_by_idem is_space s

trim_nil : trim_space [] ≡ []
unfolding trim_space trim_by
trim_nil = refl

-- A default is applied once.
pub or_default_idem :
    (value fallback : Text)
    → or_setting (or_setting value fallback) fallback ≡ or_setting value fallback
unfolding or_setting first_non_empty
or_default_idem value fallback =
    ground (arith, trim_space_idem value, trim_space_idem fallback, text_eq_refl [], trim_nil)

value_of-cong :
    (k : Text) (r values : Dict Text)
    → ((k : Text) → get k r ≡ get k values)
    → value_of k r ≡ value_of k values
unfolding value_of
value_of-cong k r values same = ap or_empty (same k)

ali_dns_settings-cong :
    (r values : Dict Text)
    → ((k : Text) → get k r ≡ get k values)
    → ali_dns_settings r ≡ ali_dns_settings values
unfolding ali_dns_settings
ali_dns_settings-cong r values same =
    rw
      (
        value_of-cong key_id_key r values same,
        value_of-cong secret_key r values same,
        value_of-cong domain_key r values same,
        value_of-cong rr_key r values same,
        value_of-cong type_key r values same,
        value_of-cong ttl_key r values same,
        value_of-cong endpoint_key r values same,
        value_of-cong line_key r values same,
      )
      refl

-- the settings as they are read back, under the old secret where no new one is given
abbrev pub saved_ali_dns : AliDnsSettings → Text → AliDnsSettings
saved_ali_dns settings secret = record {
  access_key_id = trim_space settings.access_key_id;
  access_key_secret = [];
  access_key_secret_set = not (text_eq (trim_space secret) []);
  domain_name = or_setting settings.domain_name default_domain;
  rr = trim_space settings.rr;
  record_type = or_setting settings.record_type (str "A");
  ttl = or_setting settings.ttl (str "600");
  endpoint = or_setting settings.endpoint default_endpoint;
  line = or_setting settings.line (str "default");
}

ali_dns_settings-values :
    (settings : AliDnsSettings) (existing : Dict Text)
    → ali_dns_settings (ali_dns_values settings existing)
      ≡ saved_ali_dns settings (new_secret settings.access_key_secret existing)
unfolding ali_dns_settings ali_dns_values value_of or_empty get text_eq str
ali_dns_settings-values settings existing =
    rw
      (
        or_default_idem settings.domain_name default_domain,
        or_default_idem settings.record_type (str "A"),
        or_default_idem settings.ttl (str "600"),
        or_default_idem settings.endpoint default_endpoint,
        or_default_idem settings.line (str "default"),
      )
      refl

-- what the settings file holds, and what it will
abbrev pub stored : EnvContent → Dict Text
stored content = values_or_none (read_env_file content)

-- the secret of the new settings, or the one there was if they have none
abbrev pub secret_after : AliDnsSettings → EnvContent → Text
secret_after settings before =
    if text_eq (trim_space settings.access_key_secret) []
    then value_of secret_key (stored before)
    else trim_space settings.access_key_secret

module _ (settings : AliDnsSettings) (d : EnvDisk) where
  abbrev pub ali_dns_written : Dict Text
  ali_dns_written = ali_dns_values settings (stored d.file)

  read-write_ali_dns :
      IsEnvMap ali_dns_written
      → ((write_ali_dns_settings settings env_saved d).0 ≡ none)
        × ReadsAs (write_ali_dns_settings settings env_saved d).1.file ali_dns_written
  unfolding write_ali_dns_settings
  read-write_ali_dns h =
      let (done, reads, _, _) = write_env_file_lem ali_dns_written env_write_fails d h cc in
      (done, reads)

  ali_dns_of_ReadsAs :
      (content : EnvContent)
      → ReadsAs content ali_dns_written
      → (read_ali_dns_settings content
          ≡ inr (saved_ali_dns settings (new_secret settings.access_key_secret (stored d.file))))
        × (value_of secret_key (stored content)
            ≡ new_secret settings.access_key_secret (stored d.file))
  unfolding read_ali_dns_settings ali_dns_result values_or_none
  ali_dns_of_ReadsAs content (r, e, same) = rw e (
    ap inr (
        ali_dns_settings-cong r ali_dns_written same
        ∙ ali_dns_settings-values settings (stored d.file)),
    value_of-cong secret_key r ali_dns_written same ∙ written_secret,
  )
    where
      written_secret :
          value_of secret_key ali_dns_written
          ≡ new_secret settings.access_key_secret (stored d.file)
      written_secret = unfold ali_dns_values value_of or_empty get text_eq str in refl

  -- The settings of AliDNS, once saved, are read back: trimmed, with the default where a value
  -- that has one is blank. The secret is not read back, but whether there is one is. The file
  -- then holds the new secret, or, if none was given, the one that it held. (What is written is
  -- such as an environment file can hold.)
  pub write_ali_dns_settings_lem :
      IsEnvMap ali_dns_written
      → ((write_ali_dns_settings settings env_saved d).0 ≡ none)
        × (read_ali_dns_settings (write_ali_dns_settings settings env_saved d).1.file
            ≡ inr (saved_ali_dns settings (secret_after settings d.file)))
        × (value_of secret_key (stored (write_ali_dns_settings settings env_saved d).1.file)
            ≡ secret_after settings d.file)
  unfolding new_secret
  write_ali_dns_settings_lem h =
      let (done, reads) = read-write_ali_dns h in
      let (read, kept) =
        ali_dns_of_ReadsAs (write_ali_dns_settings settings env_saved d).1.file reads in
      (done, read, kept)
