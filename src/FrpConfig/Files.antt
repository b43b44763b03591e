-- ===== src/FrpConfig/Files.antt =====
-- Which files a client is given.
use mathlib.Core.List.{append_cancel_left, append_cancel_right}
use frp_cluster.Base.{
  ℕ, suc, ◌≡◌, ◌≢◌, sym, inl, inr, Bool-cases, refl, ap, ◌∙◌, false, some, List, [], ◌∷◌, ◌++◌, map,
  arith,
}
use frp_cluster.Text.{Text, str, text_eq, text_eq_iff, text_eq_refl, text_in, text_differs}
use frp_cluster.Dict.{Dict, get, put, get-put}
use frp_cluster.Ids.Distinct.{IsDistinct}
use frp_cluster.Types.{Instant, ServerNode, ClusterState, config_mode_single, config_mode_aggregate}
use frp_cluster.Requests.{ok}
use frp_cluster.FrpConfig.Expected.{
  expected_name, expected_file, file_name-expected, node_config-expected,
}
use frp_cluster.FrpConfig.{
  FrpcConfigOptions, mode_of, client_of, is_single, file_name, node_config, config_files, selected,
  files_of, generate_frpc_config_files,
}

abbrev pub ids : List ServerNode → List Text
ids nodes = map (λ (node : ServerNode). node.id) nodes

-- in the other modes, files of different nodes have different names
file_name_inj :
    (mode client_id : Text) (a b : ServerNode)
    → is_single mode ≡ false
    → file_name mode client_id a ≡ file_name mode client_id b
    → a.id ≡ b.id
unfolding file_name
file_name_inj mode client_id a b h e =
    let prefix = str "frpc-" ++ client_id ++ str "-" in
    append_cancel_left prefix a.id b.id
      (append_cancel_right (prefix ++ a.id) (prefix ++ b.id) (str ".toml") (rw h at e))

module _ (opts : FrpcConfigOptions) (auth_token : Text) where
  abbrev name_of : ServerNode → Text
  name_of node = file_name (mode_of opts) (client_of opts) node

  -- each node, from the `index`th on, has the file of the code's name with the code's text
  abbrev HasFiles : List ServerNode → ℕ → Dict Text → Type 0
  HasFiles [] index files = Unit
  HasFiles (node ∷ nodes) index files =
      (get (name_of node) files ≡ some (node_config opts auth_token node index))
      × HasFiles nodes (suc index) files

  -- Each node, from the `index`th on, has its file, with the lines for it.
  abbrev pub EachHasFile : List ServerNode → ℕ → Dict Text → Type 0
  EachHasFile [] index files = Unit
  EachHasFile (node ∷ nodes) index files =
      (get (expected_name opts node) files ≡ some (expected_file opts auth_token node index))
      × EachHasFile nodes (suc index) files

  module _ (many : is_single (mode_of opts) ≡ false) where
    config_files_step :
        (node : ServerNode) (nodes : List ServerNode) (index : ℕ) (files : Dict Text)
        → config_files opts auth_token (node ∷ nodes) index files
          ≡ config_files opts auth_token nodes
              (suc index)
              (put (name_of node) (node_config opts auth_token node index) files)
    unfolding config_files
    config_files_step node nodes index files = rw many refl

    get-config_files :
        (name : Text) (nodes : List ServerNode) (index : ℕ) (files : Dict Text)
        → text_in name (map name_of nodes) ≡ false
        → get name (config_files opts auth_token nodes index files) ≡ get name files
    unfolding text_in
    get-config_files name [] index files h = unfold config_files in refl
    get-config_files name (node ∷ nodes) index files h =
        let other : text_eq (name_of node) name ≡ false = ground (arith, h) in
        let others : text_in name (map name_of nodes) ≡ false = ground (arith, h) in
        ap (get name) (config_files_step node nodes index files)
        ∙ get-config_files name nodes (suc index) _ others
        ∙ get-put (name_of node) name (node_config opts auth_token node index) files
        ∙ rw other refl

    other_names :
        (node : ServerNode) (nodes : List ServerNode)
        → text_in node.id (ids nodes) ≡ false
        → text_in (name_of node) (map name_of nodes) ≡ false
    unfolding text_in
    other_names node [] h = refl
    other_names node (other ∷ nodes) h = ground (
      arith,
      h,
      text_eq_iff (name_of other) (name_of node),
      text_eq_iff other.id node.id,
      file_name_inj (mode_of opts) (client_of opts) other node many,
      other_names node nodes,
    )

    config_files-HasFiles :
        (nodes : List ServerNode) (index : ℕ) (files : Dict Text)
        → IsDistinct (ids nodes)
        → HasFiles nodes index (config_files opts auth_token nodes index files)
    config_files-HasFiles [] index files h = tt
    config_files-HasFiles (node ∷ nodes) index files h =
        let added = put (name_of node) (node_config opts auth_token node index) files in
        rw (config_files_step node nodes index files) (
          get-config_files (name_of node) nodes (suc index) added (other_names node nodes h.0)
              ∙ get-put (name_of node) (name_of node) (node_config opts auth_token node index) files
              ∙ rw (text_eq_refl (name_of node)) refl,
          config_files-HasFiles nodes (suc index) added h.1,
        )

    HasFiles-EachHasFile :
        (nodes : List ServerNode) (index : ℕ) (files : Dict Text)
        → HasFiles nodes index files
        → EachHasFile nodes index files
    HasFiles-EachHasFile [] index files h = tt
    HasFiles-EachHasFile (node ∷ nodes) index files h = (
      ap (λ name. get name files) (sym (file_name-expected opts node many))
          ∙ h.0
          ∙ ap some (node_config-expected opts auth_token node index many),
      HasFiles-EachHasFile nodes (suc index) files h.1,
    )

not_single :
    (opts : FrpcConfigOptions) → opts.mode ≢ config_mode_single → is_single (mode_of opts) ≡ false
unfolding is_single mode_of
not_single opts h = elim (Bool-cases (text_eq opts.mode [])) [
  | inl e ↦ rw e aggregate_not_single
  | inr e ↦ rw e (text_differs opts.mode config_mode_single h)
]
  where
    aggregate_not_single : text_eq config_mode_aggregate config_mode_single ≡ false
    aggregate_not_single = unfold text_eq str in refl

-- In every mode but single, a client that is given nodes, with different identifiers, is given one
-- file for each, named after the client and the node. It has the node's address and port, the
-- token of the cluster if there is one, the client and the node, and the proxies that are asked
-- for, or, if none is, one with port 20000 and the place of the node in the list added to it.
pub generate_frpc_config_files_lem :
    (opts : FrpcConfigOptions) (state : ClusterState) (now : Instant) (nodes : List ServerNode)
    → opts.mode ≢ config_mode_single
    → selected opts state now ≡ ok nodes
    → IsDistinct (ids nodes)
    → (files : Dict Text) × (generate_frpc_config_files opts state now ≡ ok files)
      × EachHasFile opts state.config.auth_token nodes 0 files
unfolding generate_frpc_config_files files_of
generate_frpc_config_files_lem opts state now nodes mode chosen distinct =
    let many = not_single opts mode in
    let token = state.config.auth_token in
    (
      config_files opts token nodes 0 [],
      rw chosen refl,
      HasFiles-EachHasFile opts token many nodes 0 _
          (config_files-HasFiles opts token many nodes 0 [] distinct),
    )
