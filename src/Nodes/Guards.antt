-- ===== src/Nodes/Guards.antt =====
-- Who may speak for a node.
use frp_cluster.Base.{◌≡◌, ◌≢◌, refl, sym, none, some, []}
use frp_cluster.Text.{text_differs, Text, text_eq, text_eq_refl}
use frp_cluster.Dict.{get}
use frp_cluster.Ids.{sanitize_id}
use frp_cluster.Types.{ServerNode}
use frp_cluster.Requests.{
  HeartbeatRequest, ok, err, node_not_found, node_token_required, node_token_mismatch,
}
use frp_cluster.Store.{Env, Store}
use frp_cluster.Nodes.{
  validate_node_token, heartbeat_valid, heartbeat_found, heartbeat_node_with_request, check_leave,
  leave_valid, leave_found, leave, leave_node, admin_leave_node,
}

pub validate_own :
    (node : ServerNode) → node.node_token ≢ [] → validate_node_token node node.node_token ≡ ok tt
unfolding validate_node_token
validate_own node h = rw (text_differs node.node_token [] h, text_eq_refl node.node_token) refl

pub validate_other :
    (node : ServerNode) (token : Text)
    → token ≢ []
    → token ≢ node.node_token
    → validate_node_token node token ≡ err node_token_mismatch
unfolding validate_node_token
validate_other node token h k =
    rw (text_differs token [] h, text_differs node.node_token token (λ e. k (sym e))) refl

validate_empty :
    (node : ServerNode) (token : Text)
    → token ≡ []
    → validate_node_token node token ≡ err node_token_required
unfolding validate_node_token text_eq
validate_empty node token h = rw h refl

-- A heartbeat or a request to leave in the name of a node that the cluster does not know, without
-- a token, or with a token that is not the node's own, is answered by the error that says so, in
-- this order, and leaves the store, its memory and its file, as it was.
pub node_token_guards :
    (id : Text) (r : HeartbeatRequest) (token : Text) (env : Env) (s : Store)
    → (get (sanitize_id id) s.state.nodes ≡ none
        → (heartbeat_node_with_request id r env s ≡ (err node_not_found, s))
          × (leave_node id token env s ≡ (err node_not_found, s))
          × (admin_leave_node id env s ≡ (err node_not_found, s)))
      × ((node : ServerNode)
          → get (sanitize_id id) s.state.nodes ≡ some node
          → (r.node_token ≡ []
              → heartbeat_node_with_request id r env s ≡ (err node_token_required, s))
            × (r.node_token ≢ []
                → r.node_token ≢ node.node_token
                → heartbeat_node_with_request id r env s ≡ (err node_token_mismatch, s))
            × (leave_node id [] env s ≡ (err node_token_required, s))
            × (token ≢ []
                → token ≢ node.node_token
                → leave_node id token env s ≡ (err node_token_mismatch, s)))
unfolding heartbeat_node_with_request leave_node admin_leave_node leave heartbeat_found leave_found
    check_leave heartbeat_valid leave_valid
node_token_guards id r token env s = (
  λ e. rw e (refl, refl, refl),
  λ node e. rw e (
    λ empty. rw (validate_empty node r.node_token empty) refl,
    λ given other. rw (validate_other node r.node_token given other) refl,
    rw (validate_empty node [] refl) refl,
    λ given other. rw (validate_other node token given other) refl,
  ),
)
