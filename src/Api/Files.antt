-- ===== src/Api/Files.antt =====
-- The handlers for configuration files: handleFrpsConfig, handleFrpcConfig and
-- proxySpecsFromQuery of internal/control/api.go.
use frp_cluster.Base.{true, false, Option, none, some, List, [], ◌∷◌, ◌⊎◌, inl, inr, ℤ, pos}
use frp_cluster.Text.{Text, str, text_eq, trim_space, atoi}
use frp_cluster.Ids.{clean_list}
use frp_cluster.ProxySpec.{
  ProxySpec, ProxyError, wrong_form, invalid_local_port, invalid_remote_port, missing_part,
  parse_proxy_spec,
}
use frp_cluster.FrpConfig.{
  FrpcConfigOptions, generate_frps_config, generate_frpc_config, generate_frpc_config_files,
}
use frp_cluster.Api.{Api, World, HttpRequest, text_is, files_are, Response, Handler}
use frp_cluster.Api.Answers.{
  answer, refuse, refuse_mapped, respond, on_method, query_get, query_all, control_url_from_request,
}

unfoldable pub frps_config_now : Handler
unfolding respond refuse_mapped answer
frps_config_now w r a = (
  respond refuse_mapped (λ config. answer 200 (text_is config))
      (generate_frps_config w.parse_url
        (record { node_id = query_get (str "node_id") r; control_url = control_url_from_request r })
        a.store.state),
  a,
)

unfoldable pub handle_frps_config : Handler
unfolding on_method frps_config_now
handle_frps_config = on_method (str "GET") frps_config_now

-- a specification before those that follow it
with_spec : ProxySpec → ProxyError ⊎ List ProxySpec → ProxyError ⊎ List ProxySpec
with_spec spec (inl e) = inl e
with_spec spec (inr specs) = inr (spec ∷ specs)

-- the first value that is not blank and not a specification is the error
unfoldable pub proxy_specs : List Text → ProxyError ⊎ List ProxySpec
unfolding with_spec
proxy_specs [] = inr []
proxy_specs (value ∷ values) = elim (text_eq (trim_space value) []) [
  | true ↦ proxy_specs values
  | false ↦ elim (parse_proxy_spec value) [
    | inl e ↦ inl e
    | inr spec ↦ with_spec spec (proxy_specs values)
  ]
]

proxy_error_text : ProxyError → Text
proxy_error_text wrong_form = str "proxy must use name:type:localIP:localPort:remotePort"
proxy_error_text invalid_local_port = str "invalid proxy localPort"
proxy_error_text invalid_remote_port = str "invalid proxy remotePort"
proxy_error_text missing_part = str "proxy name, type and localIP are required"

or_zero : Option ℤ → ℤ
or_zero none = pos 0
or_zero (some n) = n

-- An error of the limit is ignored: it is 0 then. (`Atoi` gives the nearest `int` for a number
-- that does not fit; a limit of 0 and one beyond the number of nodes are treated alike.)
unfoldable pub frpc_options : List ProxySpec → HttpRequest → FrpcConfigOptions
unfolding or_zero
frpc_options specs r = record {
  client_id = query_get (str "client_id") r;
  mode = query_get (str "mode") r;
  limit = or_zero (atoi (query_get (str "limit") r));
  proxies = specs;
  exclude_node_ids = clean_list (query_all (str "exclude_node") r.query);
}

frpc_config_with : ProxyError ⊎ List ProxySpec → World → HttpRequest → Api → Response
unfolding refuse proxy_error_text respond refuse_mapped answer frpc_options
frpc_config_with (inl e) w r a = refuse 400 (proxy_error_text e)
frpc_config_with (inr specs) w r a = elim (text_eq (query_get (str "format") r) (str "json")) [
  | true ↦
      respond refuse_mapped (λ files. answer 200 (files_are files))
        (generate_frpc_config_files (frpc_options specs r) a.store.state w.env.now)
  | false ↦
      respond refuse_mapped (λ config. answer 200 (text_is config))
        (generate_frpc_config (frpc_options specs r) a.store.state w.env.now)
]

unfoldable pub frpc_config_now : Handler
unfolding frpc_config_with proxy_specs
frpc_config_now w r a = (frpc_config_with (proxy_specs (query_all (str "proxy") r.query)) w r a, a)

unfoldable pub handle_frpc_config : Handler
unfolding on_method frpc_config_now
handle_frpc_config = on_method (str "GET") frpc_config_now
