-- ===== src/Examples/Api.antt =====
-- The HTTP API and the configuration files at concrete requests.
use frp_cluster.Types.{config_mode_single}
use frp_cluster.Base.{◌≢◌, if◌then◌else◌, leb, ◌*◌, ◌<◌, ◌≤◌}
use frp_cluster.Api.Guarded.{for_admin}
use frp_cluster.Base.{
  ◌+◌, ◌≡◌, refl, ap, filter, int_eq, int_lt, int_le, Bool, true, false, none, some, [], ◌∷◌, inl,
  inr, pos, arith, All, not, ltb, List,
}
use frp_cluster.Text.{
  Text, str, text_eq, text_lt, text_in, utf8_length, trim_space, trim_by, trim_right_by, is_space,
  is_digit, decimal, raw_lines, drop_cr, has_prefix, cut, replace_char, to_upper, replace_pair,
}
use frp_cluster.Events.{pad}
use frp_cluster.Dict.{Dict, get, put, values}
use frp_cluster.Types.{ServerNode}
use frp_cluster.Requests.{ok}
use frp_cluster.Examples.{s_id, a_node, b_node, cluster, env, noon, store, beat}
use frp_cluster.EnvFile.{EnvDisk, env_content, env_missing, env_saved, read_env_file, value_of}
use frp_cluster.Totp.{Crypto, verify_totp, normalize_totp_secret}
use frp_cluster.Dns.{Hook, hook_succeeds}
use frp_cluster.Api.{
  Api, World, HttpRequest, Body, TotpConfig, LoginRequest, authenticated_is, file_at,
}
use frp_cluster.Api.Answers.{answer, refuse}
use frp_cluster.Api.Auth.{valid_session, current_totp_config, use_session}
use frp_cluster.Api.Login.{handle_login, handle_logout, with_cookie}
use frp_cluster.Api.Router.{route_of, handle}
use frp_cluster.Api.Guarded.{IsAdminRoute, tokens_admin, SameButSessions, handle_refuses}
use frp_cluster.Api.Stranger.{IsUnharmed}
use frp_cluster.Api.Open.{handle-IsUnharmed}
use frp_cluster.Api.Expiry.{valid_session-cookie, login_logout}
use frp_cluster.Text.{split, join}
use frp_cluster.Api.Cluster.{trim_prefix}
use frp_cluster.Api.Web.{
  IsWithin, path_text, dir_parts, resolve_web_dir, handle_web, handle_web-IsWithin,
}
use frp_cluster.Api.Probe.{send_chunks, probe_chunks}
use frp_cluster.Api.Probe.Chunks.{sum, probe_chunks_lem}
use frp_cluster.FrpConfig.{
  FrpcConfigOptions, mode_of, client_of, selected, generate_frpc_config_files,
}
use frp_cluster.FrpConfig.Files.{ids, EachHasFile, generate_frpc_config_files_lem}
use frp_cluster.Ids.{sanitize_id}
use frp_cluster.Selection.{
  refresh_node, select_nodes_locked, select_nodes_for_client, select_by_mode,
  sort_nodes_by_preference, prefers, online_nodes, is_live, filter_excluded_nodes, excluded_ids,
}
use frp_cluster.Sort.{sort_by}
use frp_cluster.Network.{
  refresh_network_status, mark_network, score_network_status, has_network_measurement,
  fill_bandwidth, effective_bandwidth, max_int64, clamp_score, is_stale, latency_score,
  bandwidth_score, int_div,
}
use frp_cluster.Ids.Distinct.{IsDistinct}

-- a key for every secret, and one sum for all messages
abbrev crypto : Crypto
crypto = record { base32_decode = λ s. some s; hmac_sha1 = λ key message. 1 ∷ 2 ∷ 3 ∷ 4 ∷ 5 ∷ [] }

abbrev hook : Hook
hook path req = hook_succeeds []

abbrev no_file : EnvDisk
no_file = record { file = env_missing; tmp = env_missing }

abbrev auth_file : EnvDisk
auth_file = record { file = env_content (str "TOTP_SECRET=ABC\n"); tmp = env_missing }

abbrev world : World
world = record {
  env = env;
  after_hook = env;
  hook = hook;
  password_file = none;
  auth_saving = env_saved;
  ali_dns_saving = env_saved;
  node_saving = env_saved;
  session_token = some s_id;
  totp_secret = none;
  restart_failure = none;
  writes = 3;
  crypto = crypto;
  parse_url = λ url. none;
  parse_duration = λ text. none;
  totp_uri = λ issuer account secret. [];
  absolute = λ path. path;
  is_file = λ path. true;
}

abbrev api : Api
api = record {
  store = store;
  web_dir = [];
  admin_password = [];
  admin_password_file = [];
  auth_config_file = str "auth";
  ali_dns_config_file = [];
  node_env_file = [];
  session_ttl = 1_000;
  sessions = [];
  auth_disk = auth_file;
  ali_dns_disk = no_file;
  node_disk = no_file;
}

abbrev login : LoginRequest
login = record { code = str "000000" }

abbrev body : Body
body = record {
  as_login = inr login;
  as_totp_setup = inl [];
  as_totp_confirm = inl [];
  as_settings = inl [];
  as_admin_config = inl [];
  as_dns_test = inl [];
  as_token = inl [];
  as_join = inl [];
  as_heartbeat = beat;
  as_target = inl [];
  as_state = inl [];
  as_plugin_event = inl [];
  size = 0;
}

abbrev post : HttpRequest
post = record {
  method = str "POST";
  path = str "/api/v1/tokens";
  query = [];
  cookie = some s_id;
  authorization = [];
  tls = false;
  host = [];
  forwarded_proto = [];
  forwarded_host = [];
  body = body;
}

abbrev totp : TotpConfig
totp = record { secret = str "ABC"; issuer = str "frp-cluster"; account = str "admin" }

tokens_guarded : IsAdminRoute (route_of post.path)
unfolding route_of get text_eq str
tokens_guarded = tokens_admin

configured : current_totp_config api ≡ some totp
unfolding current_totp_config str text_eq read_env_file raw_lines utf8_length trim_space trim_by
    drop_cr is_space has_prefix cut normalize_totp_secret replace_char to_upper value_of get put
    replace_pair trim_right_by
configured = refl

not_admitted : (valid_session world post api).0 ≡ false
unfolding use_session get
not_admitted =
    ap (λ (p : Bool × Api). p.0)
      (valid_session-cookie world post api totp s_id configured refl (cc))

code_right : verify_totp world.crypto totp.secret login.code world.env.now ≡ true
unfolding verify_totp str utf8_length trim_space trim_by is_space is_digit text_eq pad decimal
code_right = refl

handle_refuses_example :
    ((handle world post api).0 ≡ refuse 401 (str "login required"))
    × SameButSessions (handle world post api).1 api
handle_refuses_example = handle_refuses world post api (for_admin tokens_guarded) not_admitted

handle-IsUnharmed_example : IsUnharmed (handle world post api).1 api
handle-IsUnharmed_example = handle-IsUnharmed world post api not_admitted

-- the login and one later request with its cookie
login_logout_example :
    ((handle_login world post api).0 ≡ with_cookie s_id (answer 200 (authenticated_is true)))
    × ((valid_session world post (handle_login world post api).1).0
        ≡ not (ltb (world.env.now + api.session_ttl) world.env.now))
    × ((valid_session world post (handle_logout world post (handle_login world post api).1).1).0
        ≡ false)
login_logout_example =
    login_logout world post api totp login s_id world post refl refl configured code_right refl (cc)
      refl refl

probe_chunks_lem_example :
    (send_chunks 5 3 70_000 ≡ probe_chunks 3 70_000)
    × All (λ n. (0 < n) × (n ≤ 32_768)) (probe_chunks 3 70_000)
    × (sum (probe_chunks 3 70_000) ≡ (if leb 70_000 (3 * 32_768) then 70_000 else 3 * 32_768))
probe_chunks_lem_example = probe_chunks_lem 5 3 70_000 (omega arith)

abbrev options : FrpcConfigOptions
options = record {
  client_id = str "x";
  mode = str "aggregate";
  limit = pos 0;
  proxies = [];
  exclude_node_ids = [];
}

-- the nodes of the cluster, by preference
abbrev chosen : List ServerNode
chosen = refresh_node b_node noon ∷ refresh_node a_node noon ∷ []

both_chosen : selected options cluster noon ≡ ok chosen
unfolding selected select_nodes_locked select_nodes_for_client select_by_mode refresh_node str
    sort_nodes_by_preference prefers text_eq text_lt online_nodes is_live values filter sort_by
    filter_excluded_nodes excluded_ids mode_of client_of sanitize_id get text_in int_eq
    refresh_network_status mark_network score_network_status has_network_measurement int_lt
    fill_bandwidth effective_bandwidth max_int64 clamp_score is_stale latency_score int_le
    bandwidth_score int_div
both_chosen = refl

not_single : options.mode ≢ config_mode_single
unfolding str
not_single e = cc e

two_ids : IsDistinct (ids chosen)
unfolding refresh_node text_in text_eq
two_ids = (refl, (refl, tt))

generate_frpc_config_files_lem_example :
    (files : Dict Text) × (generate_frpc_config_files options cluster noon ≡ ok files)
    × EachHasFile options cluster.config.auth_token chosen 0 files
generate_frpc_config_files_lem_example =
    generate_frpc_config_files_lem options cluster noon chosen not_single both_chosen two_ids

abbrev web_api : Api
web_api = record api { web_dir = str "/srv/web" }

abbrev script_request : HttpRequest
script_request = record post { method = str "GET"; path = str "/css/../app.js" }

-- a path that goes up, but not out of the directory
script_served : (handle_web world script_request web_api).0.answer ≡ file_at (str "/srv/web/app.js")
unfolding handle_web str text_eq trim_space trim_by trim_right_by is_space has_prefix split join
    trim_prefix path_text dir_parts answer
script_served = refl

handle_web-IsWithin_example :
    IsWithin (resolve_web_dir world web_api.web_dir) (str "/srv/web/app.js")
handle_web-IsWithin_example =
    handle_web-IsWithin world script_request web_api (str "/srv/web/app.js") script_served
