-- ===== src/Examples/Files.antt =====
-- Environment files, settings, configuration files and DNS updates at concrete values.
use frp_cluster.Base.{
  ◌+◌, ◌≤◌, ◌≡◌, ◌≢◌, refl, true, false, none, some, [], ◌∷◌, inr, pos, ◌+ℤ◌, arith, All, length,
}
use frp_cluster.Text.{
  Text, str, text_eq, trim_space, trim_by, is_space, has_prefix, contains, contains_any,
  replace_pair, replace_char, utf8_length, to_lower, lower, contains-Lacks,
}
use frp_cluster.Dict.{Dict, get, values}
use frp_cluster.Examples.{a_id, c_id, cluster, env, noon, store}
use frp_cluster.EnvFile.{
  env_missing, EnvDisk, env_saved, env_write_fails, write_env_file, read_env_file, value_of,
  shell_env_value, unescape,
}
use frp_cluster.EnvFile.RoundTrip.{IsEnvMap, ReadsAs, write_env_file_lem}
use frp_cluster.EnvFile.Checks.{is_env_map, is_env_map-IsEnvMap}
use frp_cluster.AdminConfig.{
  AliDnsSettings, secret_key, read_ali_dns_settings, write_ali_dns_settings, new_secret,
  ali_dns_values, or_setting, values_or_none,
}
use frp_cluster.AdminConfig.Settings.{
  secret_after, stored, ali_dns_written, saved_ali_dns, write_ali_dns_settings_lem,
}
use frp_cluster.ProxySpec.{ProxySpec, parse_proxy_spec}
use frp_cluster.ProxySpec.Parsing.{IsSpec, spec_text, parse_proxy_spec-spec_text}
use frp_cluster.Ids.{sanitize_id, id_runes, is_id_rune, is_id_edge, is_separator, first_non_empty}
use frp_cluster.Snapshot.{snapshot, is_usable}
use frp_cluster.Snapshot.Hides.{without_node_tokens, IsOnLiveNode, snapshot_lem}
use frp_cluster.Dns.{Hook, hook_succeeds, run_dns_update_for_node}
use frp_cluster.Dns.Update.{Outcome, run_dns_update_for_node_lem}
use frp_cluster.Totp.{Crypto, normalize_totp_secret, generate_totp_for_cli, verify_totp}
use frp_cluster.Totp.Codes.{IsPlain}
use frp_cluster.Totp.Window.{verify_totp-generate_totp}

-- a value that is written in quotes, and one as it is
abbrev two_values : Dict Text
two_values = (str "KEY", str "two words") ∷ (str "A", str "b=c") ∷ []

abbrev no_file : EnvDisk
no_file = record { file = env_missing; tmp = env_missing }

two_values_fit : IsEnvMap two_values
unfolding is_env_map text_eq trim_space str has_prefix contains contains_any unescape utf8_length
    shell_env_value replace_char is_space trim_by replace_pair
two_values_fit = is_env_map-IsEnvMap two_values refl

write_env_file_lem_example :
    ((write_env_file two_values env_saved no_file).0 ≡ none)
    × ReadsAs (write_env_file two_values env_saved no_file).1.file two_values
    × ((write_env_file two_values env_write_fails no_file).0 ≢ none)
    × ((write_env_file two_values env_write_fails no_file).1.file ≡ no_file.file)
write_env_file_lem_example = write_env_file_lem two_values env_write_fails no_file two_values_fit cc

-- a specification in the documented form
abbrev web_spec : ProxySpec
web_spec = record {
  name = str "web";
  type = str "tcp";
  local_ip = str "127.0.0.1";
  local_port = pos 80;
  remote_port = pos 6000;
}

web_spec_ok : IsSpec web_spec
unfolding sanitize_id trim_space to_lower str lower is_space id_runes is_id_rune is_id_edge
    is_separator trim_by contains
web_spec_ok = record {
  name_clean = refl;
  name_given = cc;
  type_clean = refl;
  type_given = cc;
  type_whole = contains-Lacks b':' (str "tcp") refl;
  ip_clean = refl;
  ip_given = cc;
  ip_whole = contains-Lacks b':' (str "127.0.0.1") refl;
  local_port_ok = (80, refl, omega arith, omega arith);
  remote_port_ok = (6000, refl, omega arith, omega arith);
}

parse_proxy_spec-spec_text_example : parse_proxy_spec (spec_text web_spec) ≡ inr web_spec
parse_proxy_spec-spec_text_example = parse_proxy_spec-spec_text web_spec web_spec_ok

abbrev ali_dns : AliDnsSettings
ali_dns = record {
  access_key_id = str "id";
  access_key_secret = str "secret";
  access_key_secret_set = false;
  domain_name = str "example.org";
  rr = str "www";
  record_type = [];
  ttl = [];
  endpoint = [];
  line = [];
}

ali_dns_fits : IsEnvMap (ali_dns_written ali_dns no_file)
unfolding is_env_map text_eq trim_space str has_prefix contains contains_any unescape utf8_length
    shell_env_value replace_char is_space ali_dns_values or_setting new_secret first_non_empty
    trim_by value_of get values_or_none read_env_file replace_pair
ali_dns_fits = is_env_map-IsEnvMap (ali_dns_written ali_dns no_file) refl

write_ali_dns_settings_lem_example :
    ((write_ali_dns_settings ali_dns env_saved no_file).0 ≡ none)
    × (read_ali_dns_settings (write_ali_dns_settings ali_dns env_saved no_file).1.file
        ≡ inr (saved_ali_dns ali_dns (secret_after ali_dns no_file.file)))
    × (value_of secret_key (stored (write_ali_dns_settings ali_dns env_saved no_file).1.file)
        ≡ secret_after ali_dns no_file.file)
write_ali_dns_settings_lem_example = write_ali_dns_settings_lem ali_dns no_file ali_dns_fits

snapshot_lem_example :
    (snapshot (without_node_tokens cluster) noon ≡ snapshot cluster noon)
    × All (IsOnLiveNode noon (values cluster.nodes)) (snapshot cluster noon).clients
    × All (λ token. is_usable noon token ≡ true) (snapshot cluster noon).tokens
    × (length (snapshot cluster noon).events ≤ 100)
    × ((snapshot cluster noon).summary.online_nodes +ℤ (snapshot cluster noon).summary.offline_nodes
        ≡ pos (length (snapshot cluster noon).nodes))
snapshot_lem_example = snapshot_lem cluster noon

-- a hook that succeeds
abbrev good_hook : Hook
good_hook path req = hook_succeeds (str "done")

run_dns_update_for_node_lem_example :
    Outcome
      (sanitize_id c_id)
      (sanitize_id a_id)
      true
      noon
      store.state
      good_hook
      (str "dns.updated")
      env
      store
      (run_dns_update_for_node good_hook c_id a_id true (str "dns.updated") noon env store)
run_dns_update_for_node_lem_example =
    run_dns_update_for_node_lem good_hook c_id a_id true (str "dns.updated") noon env store

-- a key for every secret, and a sum of 20 bytes
abbrev crypto : Crypto
crypto = record { base32_decode = λ s. some s; hmac_sha1 = λ key message. message }

blank_only : IsPlain (str "AB C")
unfolding is_space str
blank_only =
    (λ e. ground (arith, e), (λ e. ground (arith, e), (λ e. refl, (λ e. ground (arith, e), tt))))

verify_totp-generate_totp_example :
    verify_totp crypto
      (str "AB C")
      (generate_totp_for_cli crypto (str "AB C") noon)
      (noon + 29_000_000_000)
    ≡ true
verify_totp-generate_totp_example =
    verify_totp-generate_totp crypto (str "AB C") blank_only (normalize_totp_secret (str "AB C"))
      noon (noon + 29_000_000_000) refl (omega arith) (omega arith) (omega arith) (omega arith)
