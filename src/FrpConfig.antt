-- ===== src/FrpConfig.antt =====
-- The configuration files of frps and frpc: GenerateFrpsConfig, GenerateFrpcConfig,
-- GenerateFrpcConfigFiles, renderFrpcNodeConfig and quotedCSV of internal/control/config.go.
pub mod Expected
pub mod Files
use frp_cluster.Base.{
  ℕ, suc, ◌+◌, Bool, true, false, ◌||◌, Option, none, some, List, [], ◌∷◌, ◌++◌, map, ℤ, pos,
  int_lt, if◌then◌else◌,
}
use frp_cluster.Text.{Text, str, text_eq, trim_space, trim_slashes, split, join, quote, int_text}
use frp_cluster.Dict.{Dict, get, put}
use frp_cluster.Ids.{sanitize_id, clean_list}
use frp_cluster.Types.{
  Instant, ServerNode, ClusterState, config_mode_single, config_mode_failover,
  config_mode_aggregate,
}
use frp_cluster.Requests.{Result, ok, err, node_not_found}
use frp_cluster.Selection.{select_nodes_locked}
use frp_cluster.ProxySpec.{ProxySpec, normalize_proxy_specs}

pub record FrpsConfigOptions : Type 0 where
  pub node_id : Text
  pub control_url : Text

pub record FrpcConfigOptions : Type 0 where
  pub client_id : Text
  pub mode : Text
  pub limit : ℤ
  pub proxies : List ProxySpec
  pub exclude_node_ids : List Text

-- `key = %q` and `key = %d`, on a line of their own
unfoldable pub quoted_line : Text → Text → Text
quoted_line key value = key ++ str " = " ++ quote value ++ str "\n"

unfoldable pub number_line : Text → ℤ → Text
number_line key value = key ++ str " = " ++ int_text value ++ str "\n"

-- a line that is left out unless the number is positive
unfoldable pub positive_line : Text → ℤ → Text
unfolding number_line
positive_line key value = if int_lt (pos 0) value then number_line key value else []

unfoldable pub auth_line : Text → Text
unfolding quoted_line
auth_line token = if text_eq token [] then [] else quoted_line (str "auth.token") token

unfoldable pub quoted_csv : List Text → Text
quoted_csv values = join (str ", ") (map (λ value. quote (trim_space value)) (clean_list values))

-- The scheme and the host of a URL, as `url.Parse` finds them; `none` for its error.
abbrev pub UrlParser : Type 0
UrlParser = Text → Option (Text × Text)

-- a host that is not empty takes the URL's place
unfoldable host_or : Text → Option (Text × Text) → Text
host_or addr none = addr
host_or addr (some (scheme, host)) =
    if text_eq host []
    then addr
    else if text_eq scheme (str "https")
    then str "https://" ++ host
    else host

unfoldable pub plugin_address : UrlParser → Text → Text
unfolding host_or
plugin_address parse_url control_url =
    let addr = trim_slashes control_url in host_or addr (parse_url addr)

unfoldable pub plugin_section : UrlParser → Text → Text → Text → Text
unfolding plugin_address quoted_csv quoted_line
plugin_section parse_url control_url node_id plugin_ops =
    if text_eq control_url []
    then []
    else str "[[httpPlugins]]\n"
      ++ quoted_line (str "name") (str "frp-cluster")
      ++ quoted_line (str "addr") (plugin_address parse_url control_url)
      ++ quoted_line (str "path") (str "/api/v1/frp/plugin/" ++ node_id)
      ++ str "ops = ["
      ++ quoted_csv (split b',' plugin_ops)
      ++ str "]\n"

frps_config_of : UrlParser → Text → Option ServerNode → ClusterState → Result Text
unfolding plugin_section positive_line number_line quoted_line auth_line
frps_config_of parse_url control_url none state = err node_not_found
frps_config_of parse_url control_url (some node) state = ok (
    number_line (str "bindPort") node.bind_port
    ++ positive_line (str "vhostHTTPPort") node.vhost_http_port
    ++ positive_line (str "vhostHTTPSPort") node.vhost_https_port
    ++ auth_line state.config.auth_token
    ++ quoted_line (str "webServer.addr") (str "0.0.0.0")
    ++ number_line (str "webServer.port") state.config.dashboard_port
    ++ plugin_section parse_url control_url node.id state.config.plugin_ops)

unfoldable pub generate_frps_config : UrlParser → FrpsConfigOptions → ClusterState → Result Text
unfolding frps_config_of
generate_frps_config parse_url opts state =
    frps_config_of parse_url opts.control_url (get (sanitize_id opts.node_id) state.nodes) state

unfoldable pub proxy_section : ProxySpec → Text
unfolding quoted_line number_line positive_line
proxy_section proxy =
    str "\n[[proxies]]\n"
    ++ quoted_line (str "name") proxy.name
    ++ quoted_line (str "type") proxy.type
    ++ quoted_line (str "localIP") proxy.local_ip
    ++ number_line (str "localPort") proxy.local_port
    ++ positive_line (str "remotePort") proxy.remote_port

unfoldable pub proxy_sections : List ProxySpec → Text
unfolding proxy_section
proxy_sections [] = []
proxy_sections (proxy ∷ proxies) = proxy_section proxy ++ proxy_sections proxies

unfoldable pub render_frpc_node_config : Text → Text → ServerNode → List ProxySpec → Text
unfolding proxy_sections quoted_line number_line auth_line
render_frpc_node_config auth_token client_id node proxies =
    quoted_line (str "serverAddr") node.public_addr
    ++ number_line (str "serverPort") node.bind_port
    ++ auth_line auth_token
    ++ quoted_line (str "user") client_id
    ++ quoted_line (str "metadatas.client_id") client_id
    ++ quoted_line (str "metadatas.cluster_node") node.id
    ++ proxy_sections proxies

-- an empty mode stands for the aggregate
unfoldable pub mode_of : FrpcConfigOptions → Text
mode_of opts = if text_eq opts.mode [] then config_mode_aggregate else opts.mode

unfoldable pub client_of : FrpcConfigOptions → Text
client_of opts =
    let client_id = sanitize_id opts.client_id in
    if text_eq client_id [] then str "client" else client_id

unfoldable pub is_single : Text → Bool
is_single mode = text_eq mode config_mode_single

unfoldable pub suffix_of : Text → ServerNode → Text
unfolding is_single
suffix_of mode node = if is_single mode then str "primary" else node.id

-- the configuration for one node, the `index`th of those selected
unfoldable pub node_config : FrpcConfigOptions → Text → ServerNode → ℕ → Text
unfolding render_frpc_node_config suffix_of mode_of client_of
node_config opts auth_token node index = render_frpc_node_config auth_token (client_of opts) node (
    normalize_proxy_specs opts.proxies (client_of opts) (suffix_of (mode_of opts) node)
      (20000 + index))

unfoldable pub block_title : Text → Text → ServerNode → Text
block_title mode client_id node =
    if text_eq mode config_mode_aggregate || text_eq mode config_mode_failover
    then str "\n# file: frpc-" ++ client_id ++ str "-" ++ node.id ++ str ".toml\n"
    else str "\n# node: " ++ node.id ++ str " (" ++ node.public_addr ++ str ")\n"

-- in single mode, the loop ends after one node
unfoldable pub config_blocks : FrpcConfigOptions → Text → List ServerNode → ℕ → Text
unfolding node_config block_title is_single
config_blocks opts auth_token [] index = []
config_blocks opts auth_token (node ∷ nodes) index =
    let rest = config_blocks opts auth_token nodes (suc index) in
    let first =
      block_title (mode_of opts) (client_of opts) node ++ node_config opts auth_token node index in
    if is_single (mode_of opts) then first else first ++ rest

unfoldable pub config_title : Text → Text → Text
config_title mode client_id =
    if text_eq mode config_mode_aggregate
    then str "# generated by frp-cluster for "
      ++ client_id
      ++ str
          ", mode=aggregate\n# This is a multi-file bundle. Save each marked block as a separate "
      ++ str "frpc config and run one frpc process per node.\n"
    else str "# generated by frp-cluster for " ++ client_id ++ str ", mode=" ++ mode ++ str "\n"

unfoldable pub bundle_of : FrpcConfigOptions → Text → Result (List ServerNode) → Result Text
unfolding config_blocks config_title
bundle_of opts auth_token (err e) = err e
bundle_of opts auth_token (ok nodes) =
    ok (config_title (mode_of opts) (client_of opts) ++ config_blocks opts auth_token nodes 0)

-- the nodes that the client is given
unfoldable pub selected : FrpcConfigOptions → ClusterState → Instant → Result (List ServerNode)
unfolding mode_of client_of
selected opts state now =
    select_nodes_locked state (client_of opts) (mode_of opts) opts.limit opts.exclude_node_ids now

unfoldable pub generate_frpc_config : FrpcConfigOptions → ClusterState → Instant → Result Text
unfolding bundle_of selected
generate_frpc_config opts state now =
    bundle_of opts state.config.auth_token (selected opts state now)

unfoldable pub file_name : Text → Text → ServerNode → Text
unfolding is_single
file_name mode client_id node =
    if is_single mode
    then str "frpc-" ++ client_id ++ str ".toml"
    else str "frpc-" ++ client_id ++ str "-" ++ node.id ++ str ".toml"

unfoldable pub config_files : FrpcConfigOptions → Text → List ServerNode → ℕ → Dict Text → Dict Text
unfolding node_config file_name is_single
config_files opts auth_token [] index files = files
config_files opts auth_token (node ∷ nodes) index files =
    let added =
      put (file_name (mode_of opts) (client_of opts) node) (node_config opts auth_token node index)
        files in
    let rest = config_files opts auth_token nodes (suc index) added in
    if is_single (mode_of opts) then added else rest

unfoldable pub files_of : FrpcConfigOptions → Text → Result (List ServerNode) → Result (Dict Text)
unfolding config_files
files_of opts auth_token (err e) = err e
files_of opts auth_token (ok nodes) = ok (config_files opts auth_token nodes 0 [])

unfoldable pub generate_frpc_config_files :
    FrpcConfigOptions → ClusterState → Instant → Result (Dict Text)
unfolding files_of selected
generate_frpc_config_files opts state now =
    files_of opts state.config.auth_token (selected opts state now)
