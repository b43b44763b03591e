-- ===== src/Api/Cluster.antt =====
-- The handlers for nodes, clients, configuration files, peers and the plugin: handleJoinNode,
-- handleNodeAction, handleClientAction, handleFrpsConfig, handleFrpcConfig, proxySpecsFromQuery,
-- handlePeerState and handlePlugin of internal/control/api.go.
use frp_cluster.Base.{Bool, true, false, List, [], ◌∷◌, drop, length, ◌==◌, if◌then◌else◌}
use frp_cluster.Text.{Text, str, text_eq, trim_space, trim_by, has_prefix, split}
use frp_cluster.Ids.{first_non_empty}
use frp_cluster.Requests.{Result, ok, err, JoinRequest}
use frp_cluster.Types.{Client}
use frp_cluster.Nodes.{heartbeat_node_with_request, leave_node, admin_leave_node}
use frp_cluster.Nodes.Joining.{join_node}
use frp_cluster.Clients.{set_client_target, auto_switch_client_target}
use frp_cluster.Dns.{DnsUpdateResult, update_dns_for_node}
use frp_cluster.Api.{
  Api, World, HttpRequest, TargetRequest, joined, node_is, client_is, Response, Handler,
}
use frp_cluster.Api.Answers.{
  answer, refuse, refuse_mapped, with_store, on_method, on_json, run_store, query_get, bearer_token,
}
use frp_cluster.Api.Auth.{valid_session}

unfoldable pub join_decoded : JoinRequest → Handler
unfolding run_store refuse_mapped answer
join_decoded req = run_store refuse_mapped (λ resp. answer 201 (joined resp)) (join_node req)

unfoldable pub handle_join_node : Handler
unfolding on_method on_json join_decoded
handle_join_node = on_method (str "POST") (λ w r a. on_json r.body.as_join join_decoded w r a)

-- `strings.TrimPrefix(path, prefix)`
unfoldable pub trim_prefix : Text → Text → Text
trim_prefix s prefix = if has_prefix s prefix then drop (length prefix) s else s

-- the parts of a path behind a prefix
unfoldable pub path_parts : Text → Text → List Text
unfolding trim_prefix
path_parts path prefix = split b'/' (trim_by (λ c. c == b'/') (trim_prefix path prefix))

unfoldable pub not_found : Response
unfolding refuse
not_found = refuse 404 (str "404 page not found")

-- the node's token: in the body, in the header or in the query; the body is read of a POST only
unfoldable node_token_of : HttpRequest → Text
node_token_of r = first_non_empty (
    (if text_eq r.method (str "POST") then r.body.as_heartbeat.node_token else [])
    ∷ bearer_token r
    ∷ query_get (str "node_token") r
    ∷ [])

unfoldable pub node_answer : Handler → Handler
unfolding on_method
node_answer = on_method (str "POST")

unfoldable pub heartbeat_now : Text → Handler
unfolding run_store refuse_mapped answer node_token_of
heartbeat_now node_id w r a =
    run_store refuse_mapped (λ node. answer 200 (node_is node))
      (heartbeat_node_with_request node_id
        (record r.body.as_heartbeat { node_token = node_token_of r }))
      w r a

unfoldable pub leave_now : Text → Handler
unfolding run_store refuse_mapped answer node_token_of
leave_now node_id w r a =
    run_store refuse_mapped (λ node. answer 200 (node_is node))
      (leave_node node_id (node_token_of r)) w r a

unfoldable pub admin_leave_if : Text → Bool × Api → World → HttpRequest → Response × Api
unfolding refuse run_store refuse_mapped answer
admin_leave_if node_id (false, a) w r = (refuse 401 (str "login required"), a)
admin_leave_if node_id (true, a) w r =
    run_store refuse_mapped (λ node. answer 200 (node_is node)) (admin_leave_node node_id) w r a

unfoldable pub admin_leave_now : Text → Handler
unfolding admin_leave_if
admin_leave_now node_id w r a = admin_leave_if node_id (valid_session w r a) w r

-- the action of a node, by its name
unfoldable pub node_action : Text → Text → Handler
unfolding node_answer heartbeat_now leave_now admin_leave_now not_found
node_action node_id action w r a = elim (text_eq action (str "heartbeat")) [
  | true ↦ node_answer (heartbeat_now node_id) w r a
  | false ↦ elim (text_eq action (str "leave")) [
    | true ↦ node_answer (leave_now node_id) w r a
    | false ↦ elim (text_eq action (str "admin-leave")) [
      | true ↦ node_answer (admin_leave_now node_id) w r a
      | false ↦ (not_found, a)
    ]
  ]
]

unfoldable pub node_parts : List Text → Handler
unfolding node_action not_found
node_parts (node_id ∷ action ∷ []) w r a = node_action node_id action w r a
node_parts parts w r a = (not_found, a)

unfoldable pub handle_node_action : Handler
unfolding node_parts path_parts
handle_node_action w r a = node_parts (path_parts r.path (str "/api/v1/nodes/")) w r a

-- the update of the client's target, after an update of the DNS that may have failed
after_dns : Result DnsUpdateResult → (DnsUpdateResult → Handler) → Handler
unfolding refuse_mapped
after_dns (err e) next w r a = (refuse_mapped e, a)
after_dns (ok result) next w r a = next result w r a

-- the DNS is updated first; what follows it meets the environment after the hook
with_dns : Text → Text → (DnsUpdateResult → Handler) → Handler
unfolding after_dns with_store
with_dns client_id node_id next w r a =
    let (result, s) = update_dns_for_node w.hook client_id node_id w.env.now w.after_hook a.store in
    after_dns result next (record w { env = w.after_hook }) r (with_store s a)

-- the result of no update
abbrev no_dns_update : DnsUpdateResult
no_dns_update = record {
  updated = false;
  host = [];
  target_ip = [];
  node_id = [];
  client_id = [];
  output = [];
}

client_answer : DnsUpdateResult → Client → Response
unfolding answer
client_answer dns client = answer 200 (client_is client dns)

target_decoded : Text → TargetRequest → Handler
unfolding run_store refuse_mapped with_dns client_answer
target_decoded client_id req w r a = elim (text_eq (trim_space req.node_id) []) [
  | true ↦
      run_store refuse_mapped (client_answer no_dns_update)
        (set_client_target client_id req.node_id) w r a
  | false ↦
      with_dns client_id req.node_id
        (λ dns.
          run_store refuse_mapped (client_answer dns) (set_client_target client_id req.node_id))
        w r a
]

auto_target_decoded : Text → TargetRequest → Handler
unfolding run_store refuse_mapped with_dns client_answer refuse
auto_target_decoded client_id req w r a = elim (text_eq (trim_space req.node_id) []) [
  | true ↦ (refuse 400 (str "node_id required"), a)
  | false ↦
      with_dns client_id req.node_id
        (λ dns.
          run_store refuse_mapped (client_answer dns)
            (auto_switch_client_target client_id req.node_id req.reason))
        w r a
]

-- the action of a client, by its name
unfoldable pub client_action : Text → Text → Handler
unfolding on_method on_json target_decoded auto_target_decoded not_found
client_action client_id action w r a = elim (text_eq action (str "target")) [
  | true ↦
      on_method (str "POST") (λ w r a. on_json r.body.as_target (target_decoded client_id) w r a) w
        r a
  | false ↦ elim (text_eq action (str "auto-target")) [
    | true ↦
        on_method (str "POST")
          (λ w r a. on_json r.body.as_target (auto_target_decoded client_id) w r a) w r a
    | false ↦ (not_found, a)
  ]
]

client_parts : List Text → Handler
unfolding client_action not_found
client_parts (client_id ∷ action ∷ []) w r a = client_action client_id action w r a
client_parts parts w r a = (not_found, a)

unfoldable pub handle_client_action : Handler
unfolding client_parts path_parts
handle_client_action w r a = client_parts (path_parts r.path (str "/api/v1/clients/")) w r a
