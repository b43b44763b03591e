-- ===== src/Nodes/Join.antt =====
-- How a node joins, and how a join fails.

use frp_cluster.Base.{
  ℕ, suc, ◌≡◌, ◌≢◌, ◌<◌, refl, subst, ◌∙◌, sym, true, false, Option, none, some, [], ◌∷◌, ◌++◌, pos,
  int_eq, int_le, ◌≤◌, ◌⊎◌, lt→ltb, inl, inr, Bool-cases, if◌then◌else◌, arith, ◌||◌,
}
use frp_cluster.Text.{Text, str, text_eq, text_eq_iff, trim_space}
use frp_cluster.Ids.{sanitize_id, clean_list, normalize_control_url}
use frp_cluster.Dict.{get, remove, adjust, get-put, get-adjust}
use frp_cluster.Types.{Instant, is_zero, JoinToken, ServerNode, ClusterState, node_status_online}
use frp_cluster.Requests.{
  JoinRequest, Error, ok, err, invalid_join_request, random_failed, invalid_token, token_expired,
  token_used,
}
use frp_cluster.Selection.{is_live}
use frp_cluster.Events.{add_event}
use frp_cluster.Store.{Env, Store, commit}
use frp_cluster.Store.Saving.{Saves, state-commit, result-commit}
use frp_cluster.Tokens.{new_random_token, consume_join_token, use_token}
use frp_cluster.Tokens.Uses.{consume_live, get-use, with_tokens, not_before}
use frp_cluster.Nodes.{validate_node_token, no_network, no_traffic}
use frp_cluster.Nodes.Joining.{
  clean_join_request, fill_join_request, new_node, keep_existing, joined_node, let_in,
  join_response, join_admitted, join_with, join_node,
}
use frp_cluster.Nodes.Guards.{validate_own}
use frp_cluster.Nodes.Heartbeat.{live_now}

-- the request as the code goes on with it
abbrev pub accepted : JoinRequest → JoinRequest
accepted request = fill_join_request (clean_join_request request)

-- the request names a node and an address
abbrev pub IsComplete : JoinRequest → Type 0
IsComplete r = (r.node_id ≢ []) × (r.public_addr ≢ [])

complete_passes :
    (r : JoinRequest) → IsComplete r → (text_eq r.node_id [] || text_eq r.public_addr []) ≡ false
complete_passes r h =
    ground (arith, h.0, h.1, text_eq_iff r.node_id [], text_eq_iff r.public_addr [])

join_goes_on :
    (request : JoinRequest) (env : Env) (s : Store) (random : Text)
    → IsComplete (clean_join_request request)
    → env.random ≡ some random
    → join_node request env s
      ≡ join_admitted
          (accepted request)
          (str "node" ++ str "_" ++ random)
          (consume_join_token (accepted request).token (accepted request).node_id env.now s.state)
          env
          s
unfolding join_node join_with new_random_token
join_goes_on request env s random complete bytes =
    rw (complete_passes (clean_join_request request) complete, bytes) refl

join_taken :
    (request : JoinRequest) (env : Env) (s : Store) (random : Text) (state : ClusterState)
    → IsComplete (clean_join_request request)
    → env.random ≡ some random
    → consume_join_token (accepted request).token (accepted request).node_id env.now s.state
      ≡ (ok tt, state)
    → join_node request env s
      ≡ commit
          (join_response
            (accepted request)
            (str "node" ++ str "_" ++ random)
            (joined_node (accepted request) (str "node" ++ str "_" ++ random) env.now state))
          (let_in (accepted request) (str "node" ++ str "_" ++ random) env.now state)
          env
          s
unfolding join_admitted
join_taken request env s random state complete bytes taken =
    rw (join_goes_on request env s random complete bytes, taken) refl

-- the node that a request makes, if it was not there before
abbrev pub fresh_node : JoinRequest → Text → Instant → ServerNode
fresh_node r secret now = record {
  id = sanitize_id r.node_id;
  name = if text_eq (trim_space r.name) [] then sanitize_id r.node_id else trim_space r.name;
  public_addr = trim_space r.public_addr;
  control_url = normalize_control_url r.control_url;
  bind_port = if int_eq r.bind_port (pos 0) then pos 7000 else r.bind_port;
  vhost_http_port = r.vhost_http_port;
  vhost_https_port = r.vhost_https_port;
  region = trim_space r.region;
  tags = clean_list r.tags;
  status = node_status_online;
  node_token = secret;
  client_count = pos 0;
  proxy_count = pos 0;
  network = no_network;
  traffic = no_traffic;
  joined_at = now;
  last_seen_at = now;
  updated_at = now;
}

-- the node that a request makes of the one that was there: it keeps its counts and the time of its
-- first join
abbrev pub joins_as : JoinRequest → Text → Instant → Option ServerNode → ServerNode
joins_as r secret now none = fresh_node r secret now
joins_as r secret now (some old) = record (fresh_node r secret now) {
  client_count = old.client_count;
  proxy_count = old.proxy_count;
  joined_at = if is_zero old.joined_at then now else old.joined_at;
}

kept-joins_as :
    (r : JoinRequest) (secret : Text) (now : Instant) (o : Option ServerNode)
    → keep_existing o (new_node (accepted r) secret now) ≡ joins_as r secret now o
unfolding keep_existing new_node fill_join_request clean_join_request
kept-joins_as r secret now none = refl
kept-joins_as r secret now (some old) = refl

keep_existing-live :
    (o : Option ServerNode) (node : ServerNode)
    → ((keep_existing o node).status ≡ node.status)
      × ((keep_existing o node).last_seen_at ≡ node.last_seen_at)
      × ((keep_existing o node).node_token ≡ node.node_token)
unfolding keep_existing
keep_existing-live none node = (refl, refl, refl)
keep_existing-live (some existing) node = (refl, refl, refl)

not_empty : (random : Text) → str "node" ++ str "_" ++ random ≢ []
unfolding str
not_empty random e = cc e

node_live :
    (r : JoinRequest) (secret : Text) (now : Instant) (state : ClusterState)
    → is_live (joined_node r secret now state) now ≡ true
unfolding joined_node new_node
node_live r secret now state =
    let kept = keep_existing-live (get r.node_id state.nodes) (new_node r secret now) in
    live_now (joined_node r secret now state) now kept.0 kept.1

token_after :
    (value node_id j : Text) (state : ClusterState) (token : JoinToken) (n : ℕ)
    → get value state.tokens ≡ some token
    → token.uses_left ≡ pos (suc n)
    → get j (adjust value (use_token node_id) state.tokens) ≡ (
        if text_eq value j
        then some (record token { uses_left = pos n; used_by = token.used_by ++ node_id ∷ [] })
        else get j state.tokens)
token_after value node_id j state token n found left = elim (Bool-cases (text_eq value j)) [
  | inl e ↦ rw (e, sym ((text_eq_iff value j).0 e)) (get-use value node_id state token n found left)
  | inr e ↦ rw (get-adjust, e) refl
]

secret_valid :
    (r : JoinRequest) (secret : Text) (now : Instant) (state : ClusterState)
    → secret ≢ []
    → validate_node_token (joined_node r secret now state) secret ≡ ok tt
unfolding joined_node new_node
secret_valid r secret now state given =
    let node = joined_node r secret now state in
    let same = (keep_existing-live (get r.node_id state.nodes) (new_node r secret now)).2 in
    subst (λ token. validate_node_token node token ≡ ok tt) same
      (validate_own node (λ e. given (sym same ∙ e)))

-- A request that names a node and an address, under a token that has a use left and has not
-- expired, on a system that gives random bytes, lets the node in: the node is in the map under its
-- own identifier, with the values of the request (cleaned, and with a default name and port),
-- online and seen at this instant, and, if it was there before, with the counts and the time of
-- the first join from then; no other node changes; the token has one use less and names the node,
-- and no other token changes. If the state is saved, the caller is given the node and the token
-- under which its heartbeats are then accepted.
pub join_lem :
    (request : JoinRequest) (env : Env) (s : Store) (random : Text) (token : JoinToken) (n : ℕ)
    → sanitize_id request.node_id ≢ []
    → trim_space request.public_addr ≢ []
    → env.random ≡ some random
    → get request.token s.state.tokens ≡ some token
    → token.uses_left ≡ pos (suc n)
    → env.now < token.expires_at
    → let node_id = sanitize_id request.node_id in
      let secret = str "node" ++ str "_" ++ random in
      let node = joins_as request secret env.now (get node_id s.state.nodes) in
      let after = (join_node request env s).1.state in
      ((j : Text)
        → get j after.nodes ≡ (if text_eq node_id j then some node else get j s.state.nodes))
      × (is_live node env.now ≡ true)
      × ((j : Text)
          → get j after.tokens ≡ (
              if text_eq request.token j
              then some
                  (record token { uses_left = pos n; used_by = token.used_by ++ node_id ∷ [] })
              else get j s.state.tokens))
      × (validate_node_token node secret ≡ ok tt)
      × (Saves after env s
          → (join_node request env s).0
            ≡ ok (record {
              node = node;
              node_token = secret;
              frps_config_url = str "/api/v1/config/frps?node_id=" ++ node_id;
            }))
unfolding let_in add_event joined_node clean_join_request fill_join_request join_response
join_lem request env s random token n named placed bytes found left fresh =
    let r = accepted request in
    let secret = str "node" ++ str "_" ++ random in
    let taken = with_tokens (adjust r.token (use_token r.node_id) s.state.tokens) s.state in
    let node = joined_node r secret env.now taken in
    let done = let_in r secret env.now taken in
    rw
      (
        sym (kept-joins_as request secret env.now (get r.node_id s.state.nodes)),
        join_taken request env s random taken (named, placed) bytes
            (consume_live r.token r.node_id env.now s.state token n found left fresh),
        state-commit (join_response r secret node) done env s,
      )
      (
        λ j. get-put r.node_id j node s.state.nodes,
        node_live r secret env.now taken,
        λ j. token_after r.token r.node_id j s.state token n found left,
        secret_valid r secret env.now taken (not_empty random),
        λ saves. result-commit (join_response r secret node) done env s saves,
      )

not_placed :
    (r : JoinRequest)
    → (r.node_id ≡ []) ⊎ (r.public_addr ≡ [])
    → (text_eq r.node_id [] || text_eq r.public_addr []) ≡ true
not_placed r (inl e) = ground (arith, (text_eq_iff r.node_id []).1 e)
not_placed r (inr e) = ground (arith, (text_eq_iff r.public_addr []).1 e)

-- what becomes of a join whose token is refused
join_stopped :
    (request : JoinRequest) (env : Env) (s : Store) (random : Text) (state : ClusterState)
    (e : Error)
    → IsComplete (clean_join_request request)
    → env.random ≡ some random
    → consume_join_token (accepted request).token (accepted request).node_id env.now s.state
      ≡ (err e, state)
    → join_node request env s ≡ (err e, record s { state = state })
unfolding join_admitted
join_stopped request env s random state e complete bytes refused =
    rw (join_goes_on request env s random complete bytes, refused) refl

-- A request that names no node or no address, and one that meets a system without random bytes,
-- are answered by the error that says so and leave the store as it was. So are those whose join
-- token is unknown or used up; and one whose token has expired is answered by that error and
-- deletes the token, and nothing else. The errors come in this order: the request, the random
-- bytes, the unknown, the expired and the used token.
pub join_refuses :
    (request : JoinRequest) (env : Env) (s : Store)
    → ((sanitize_id request.node_id ≡ []) ⊎ (trim_space request.public_addr ≡ [])
        → join_node request env s ≡ (err invalid_join_request, s))
      × (sanitize_id request.node_id ≢ []
          → trim_space request.public_addr ≢ []
          → env.random ≡ none
          → join_node request env s ≡ (err random_failed, s))
      × ((random : Text)
          → sanitize_id request.node_id ≢ []
          → trim_space request.public_addr ≢ []
          → env.random ≡ some random
          → (get request.token s.state.tokens ≡ none
              → join_node request env s ≡ (err invalid_token, s))
            × ((token : JoinToken)
                → get request.token s.state.tokens ≡ some token
                → token.expires_at ≤ env.now
                → join_node request env s ≡ (
                  err token_expired,
                  record s {
                    state = record s.state { tokens = remove request.token s.state.tokens };
                  },
                ))
            × ((token : JoinToken)
                → get request.token s.state.tokens ≡ some token
                → env.now < token.expires_at
                → int_le token.uses_left (pos 0) ≡ true
                → join_node request env s ≡ (err token_used, s)))
unfolding join_node join_with new_random_token consume_join_token clean_join_request
    fill_join_request
join_refuses request env s = (
  λ blank. rw (not_placed (clean_join_request request) blank) refl,
  λ named placed none_left.
      rw (complete_passes (clean_join_request request) (named, placed), none_left) refl,
  λ random named placed bytes. (
    λ unknown.
        join_stopped request env s random s.state invalid_token (named, placed) bytes
          (rw unknown refl),
    λ token found late.
        join_stopped request env s random _ token_expired (named, placed) bytes
          (rw (found, not_before env.now token.expires_at late) refl),
    λ token found fresh used.
        join_stopped request env s random s.state token_used (named, placed) bytes
          (rw (found, lt→ltb env.now token.expires_at fresh, used) refl),
  ),
)
