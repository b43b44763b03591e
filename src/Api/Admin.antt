-- ===== src/Api/Admin.antt =====
-- The handlers for administrators: handleCluster, handleTraffic, handleSettings,
-- handleRestartAgent, handleDNSTest, handleTokens and handleJoinCommand of
-- internal/control/api.go.
use frp_cluster.Base.{
  true, false, Option, none, some, List, [], ◌∷◌, ◌++◌, ℤ, pos, int_le, if◌then◌else◌,
}
use frp_cluster.Text.{Text, str, text_eq, trim_space, join}
use frp_cluster.Tokens.{create_join_token, default_ttl}
use frp_cluster.Config.{ConfigUpdate, update_config}
use frp_cluster.Traffic.Series.{traffic_series}
use frp_cluster.Dns.{test_dns_update}
use frp_cluster.Snapshot.{snapshot}
use frp_cluster.Api.{
  Api, World, HttpRequest, DnsTestRequest, TokenRequest, failure, status_is, cluster_is, traffic_is,
  config_is, dns_is, tokens_are, token_is, command_is, Response, Handler,
}
use frp_cluster.Api.Answers.{
  answer, refuse, refuse_mapped, on_method, on_json, run_store, query_get, control_url_from_request,
  shell_quote,
}

cluster_now : Handler
unfolding answer
cluster_now w r a = (answer 200 (cluster_is (snapshot a.store.state w.env.now)), a)

unfoldable pub handle_cluster : Handler
unfolding on_method cluster_now
handle_cluster = on_method (str "GET") cluster_now

-- 24 hours
abbrev day : ℤ
day = pos 86_400_000_000_000

positive_duration : Option ℤ → Option ℤ
positive_duration none = none
positive_duration (some d) = if int_le d (pos 0) then none else some d

-- `none` for a range that is not a positive duration
unfoldable pub traffic_window : World → Text → Option ℤ
unfolding positive_duration
traffic_window w raw = if text_eq raw [] then some day else positive_duration (w.parse_duration raw)

traffic_in : Option ℤ → World → Api → Response
unfolding answer refuse
traffic_in none w a = refuse 400 (str "invalid range")
traffic_in (some window) w a =
    answer 200 (traffic_is (traffic_series window w.env.now a.store.state))

traffic_now : Handler
unfolding traffic_window traffic_in
traffic_now w r a = (traffic_in (traffic_window w (trim_space (query_get (str "range") r))) w a, a)

unfoldable pub handle_traffic : Handler
unfolding on_method traffic_now
handle_traffic = on_method (str "GET") traffic_now

settings_decoded : ConfigUpdate → Handler
unfolding run_store refuse_mapped answer
settings_decoded update =
    run_store refuse_mapped (λ config. answer 200 (config_is config)) (update_config update)

unfoldable pub handle_settings : Handler
unfolding answer refuse on_json settings_decoded
handle_settings w r a = elim (text_eq r.method (str "GET")) [
  | true ↦ (answer 200 (config_is (snapshot a.store.state w.env.now).config), a)
  | false ↦ elim (text_eq r.method (str "PATCH")) [
    | true ↦ on_json r.body.as_settings settings_decoded w r a
    | false ↦ (refuse 405 (str "method not allowed"), a)
  ]
]

restarted : Option Text → Response
unfolding answer refuse
restarted none = answer 200 (status_is (str "restarted"))
restarted (some output) = refuse 500 (trim_space output)

unfoldable pub handle_restart_agent : Handler
unfolding on_method restarted
handle_restart_agent = on_method (str "POST") (λ w r a. (restarted w.restart_failure, a))

-- the environment of the world after the hook has run
after_hook : World → World
after_hook w = record w { env = w.after_hook }

dns_test_decoded : DnsTestRequest → Handler
unfolding refuse run_store refuse_mapped answer after_hook
dns_test_decoded req w r a = elim (text_eq (trim_space req.node_id) []) [
  | true ↦ (refuse 400 (str "node_id required"), a)
  | false ↦
      run_store refuse_mapped (λ result. answer 200 (dns_is result))
        (test_dns_update w.hook req.client_id req.node_id w.env.now) (after_hook w) r a
]

unfoldable pub handle_dns_test : Handler
unfolding on_method on_json dns_test_decoded
handle_dns_test =
    on_method (str "POST") (λ w r a. on_json r.body.as_dns_test dns_test_decoded w r a)

-- two hours, if no lifetime is given; `none` for one that is not a duration
unfoldable token_ttl : World → Text → Option ℤ
token_ttl w ttl = if text_eq ttl [] then some default_ttl else w.parse_duration ttl

create_token : Option ℤ → ℤ → Handler
unfolding refuse run_store answer
create_token none uses w r a = (refuse 400 (str "invalid ttl"), a)
create_token (some ttl) uses w r a =
    run_store (λ e. answer 500 (failure e)) (λ token. answer 201 (token_is token))
      (create_join_token ttl uses) w r a

token_decoded : TokenRequest → Handler
unfolding create_token token_ttl
token_decoded req w r a = create_token (token_ttl w req.ttl) req.uses w r a

unfoldable pub handle_tokens : Handler
unfolding answer refuse on_json token_decoded
handle_tokens w r a = elim (text_eq r.method (str "GET")) [
  | true ↦ (answer 200 (tokens_are (snapshot a.store.state w.env.now).tokens), a)
  | false ↦ elim (text_eq r.method (str "POST")) [
    | true ↦ on_json r.body.as_token token_decoded w r a
    | false ↦ (refuse 405 (str "method not allowed"), a)
  ]
]

-- a flag with its value, if the query gives one
unfoldable flag : Text → Text → HttpRequest → List Text
unfolding shell_quote
flag name key r =
    let value = query_get key r in if text_eq value [] then [] else name ∷ shell_quote value ∷ []

unfoldable pub join_arguments : HttpRequest → List Text
unfolding flag shell_quote
join_arguments r =
    let given = query_get (str "control_url") r in
    let control_url = if text_eq given [] then control_url_from_request r else given in
    let bin = query_get (str "bin") r in
    (if text_eq bin [] then str "frp-cluster" else bin)
    ∷ str "join"
    ∷ str "--control-url"
    ∷ shell_quote control_url
    ∷ str "--token"
    ∷ shell_quote (query_get (str "token") r)
    ∷ str "--node-id"
    ∷ shell_quote (query_get (str "node_id") r)
    ∷ str "--public-addr"
    ∷ shell_quote (query_get (str "public_addr") r)
    ∷ (flag (str "--bind-port") (str "bind_port") r
        ++ flag (str "--vhost-http-port") (str "vhost_http_port") r
        ++ flag (str "--vhost-https-port") (str "vhost_https_port") r
        ++ flag (str "--region") (str "region") r
        ++ flag (str "--tags") (str "tags") r
        ++ flag (str "--node-control-url") (str "node_control_url") r
        ++ flag (str "--write-frps-config") (str "write_frps_config") r)

join_command_now : Handler
unfolding answer join_arguments
join_command_now w r a = (answer 200 (command_is (join (str " ") (join_arguments r))), a)

unfoldable pub handle_join_command : Handler
unfolding on_method join_command_now
handle_join_command = on_method (str "GET") join_command_now
