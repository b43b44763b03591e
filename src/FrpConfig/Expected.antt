-- ===== src/FrpConfig/Expected.antt =====
-- What a file for one node is to hold, written out line by line.
use frp_cluster.Base.{
  ℕ, suc, ◌+◌, ◌≡◌, refl, ap, false, List, [], ◌∷◌, ◌++◌, ℤ, pos, int_lt, if◌then◌else◌,
}
use frp_cluster.Text.{Text, str, text_eq, trim_space, to_lower, quote, int_text, decimal}
use frp_cluster.Ids.{sanitize_id}
use frp_cluster.Types.{ServerNode}
use frp_cluster.ProxySpec.{
  ProxySpec, health_spec, normalize_spec, normalize_from, normalize_proxy_specs,
}
use frp_cluster.FrpConfig.{
  FrpcConfigOptions, quoted_line, number_line, positive_line, auth_line, proxy_section,
  proxy_sections, render_frpc_node_config, mode_of, client_of, is_single, suffix_of, node_config,
  file_name,
}

abbrev line : Text → Text → Text
line key value = key ++ str " = " ++ value ++ str "\n"

-- a remote port that is not positive is left out
abbrev section : Text → Text → Text → ℤ → ℤ → Text
section name type ip local_port remote_port =
    str "\n[[proxies]]\n"
    ++ line (str "name") (quote name)
    ++ line (str "type") (quote type)
    ++ line (str "localIP") (quote ip)
    ++ line (str "localPort") (int_text local_port)
    ++ (if int_lt (pos 0) remote_port then line (str "remotePort") (int_text remote_port) else [])

-- the proxies that are asked for, `done` of which come before
abbrev given_sections : Text → ℕ → List ProxySpec → Text
given_sections client done [] = []
given_sections client done (spec ∷ specs) =
    section
      (if text_eq (sanitize_id spec.name) []
        then client ++ str "-proxy-" ++ decimal (suc done)
        else sanitize_id spec.name)
      (to_lower (trim_space (if text_eq spec.type [] then str "tcp" else spec.type)))
      (if text_eq spec.local_ip [] then str "127.0.0.1" else spec.local_ip) spec.local_port
      spec.remote_port
    ++ given_sections client (suc done) specs

-- a client that asks for none has one, with a port of its node's place
abbrev sections : Text → ServerNode → ℕ → List ProxySpec → Text
sections client node index [] =
    section (client ++ str "-health-" ++ node.id) (str "tcp") (str "127.0.0.1") (pos 22)
      (pos (20_000 + index))
    ++ []
sections client node index (spec ∷ specs) = given_sections client 0 (spec ∷ specs)

module _ (opts : FrpcConfigOptions) where
  abbrev pub client_name : Text
  client_name =
      if text_eq (sanitize_id opts.client_id) [] then str "client" else sanitize_id opts.client_id

  abbrev pub expected_name : ServerNode → Text
  expected_name node = str "frpc-" ++ client_name ++ str "-" ++ node.id ++ str ".toml"

  abbrev pub expected_file : Text → ServerNode → ℕ → Text
  expected_file auth_token node index =
      line (str "serverAddr") (quote node.public_addr)
      ++ line (str "serverPort") (int_text node.bind_port)
      ++ (if text_eq auth_token [] then [] else line (str "auth.token") (quote auth_token))
      ++ line (str "user") (quote client_name)
      ++ line (str "metadatas.client_id") (quote client_name)
      ++ line (str "metadatas.cluster_node") (quote node.id)
      ++ sections client_name node index opts.proxies

  pub file_name-expected :
      (node : ServerNode)
      → is_single (mode_of opts) ≡ false
      → file_name (mode_of opts) (client_of opts) node ≡ expected_name node
  unfolding file_name client_of
  file_name-expected node many = rw many refl

  given-expected :
      (client : Text) (done : ℕ) (specs : List ProxySpec)
      → proxy_sections (normalize_from client done specs) ≡ given_sections client done specs
  unfolding proxy_sections proxy_section normalize_from normalize_spec quoted_line number_line
      positive_line
  given-expected client done [] = refl
  given-expected client done (spec ∷ specs) =
      ap (λ rest. proxy_section (normalize_spec client done spec) ++ rest)
        (given-expected client (suc done) specs)

  sections-expected :
      (client : Text) (node : ServerNode) (index : ℕ) (specs : List ProxySpec)
      → proxy_sections (normalize_proxy_specs specs client node.id (20_000 + index))
        ≡ sections client node index specs
  unfolding normalize_proxy_specs health_spec proxy_sections proxy_section quoted_line number_line
      positive_line
  sections-expected client node index [] = refl
  sections-expected client node index (spec ∷ specs) = given-expected client 0 (spec ∷ specs)

  pub node_config-expected :
      (auth_token : Text) (node : ServerNode) (index : ℕ)
      → is_single (mode_of opts) ≡ false
      → node_config opts auth_token node index ≡ expected_file auth_token node index
  unfolding node_config render_frpc_node_config suffix_of client_of quoted_line number_line
      auth_line
  node_config-expected auth_token node index many =
      rw (many, sections-expected client_name node index opts.proxies) refl
