-- ===== src/Tokens.antt =====
-- Join tokens: NewRandomToken, CreateJoinToken and consumeJoinTokenLocked of
-- internal/control/token.go.
pub mod Uses
use frp_cluster.Base.{
  ◌+◌, Bool, Option, none, some, List, [], ◌∷◌, ◌++◌, ℤ, pos, ◌-ℤ◌, pos_part, int_le, ltb, not,
  if◌then◌else◌,
}
use frp_cluster.Text.{Text, str, int_text}
use frp_cluster.Dict.{get, put, remove, adjust}
use frp_cluster.Types.{Instant, JoinToken, ClusterState}
use frp_cluster.Requests.{Result, ok, err, random_failed, invalid_token, token_expired, token_used}
use frp_cluster.Events.{add_event}
use frp_cluster.Store.{Env, Store, Exec, commit}

-- `random` is the text of 32 fresh bytes, if the system gives them
unfoldable pub new_random_token : Text → Option Text → Option Text
new_random_token prefix none = none
new_random_token prefix (some random) = some (prefix ++ str "_" ++ random)

-- two hours
abbrev pub default_ttl : ℤ
default_ttl = pos 7_200_000_000_000

-- a duration that is not positive gives way to two hours, a number of uses to 1
unfoldable pub positive_or : ℤ → ℤ → ℤ
positive_or fallback value = if int_le value (pos 0) then fallback else value

unfoldable pub new_join_token : Text → ℤ → ℤ → Instant → JoinToken
unfolding positive_or
new_join_token value ttl uses now = record {
  token = value;
  uses_left = positive_or (pos 1) uses;
  expires_at = now + pos_part (positive_or default_ttl ttl);
  created_at = now;
  used_by = [];
}

-- the token is in the map before the event is written
unfoldable pub store_token : JoinToken → Instant → ClusterState → ClusterState
store_token token now state =
    add_event (str "token.created") (str "join token created") [] [] []
      ((str "uses", int_text token.uses_left) ∷ []) now
      (record state { tokens = put token.token token state.tokens })

unfoldable pub create_with : Option Text → ℤ → ℤ → Exec JoinToken
create_with none ttl uses env s = (err random_failed, s)
create_with (some value) ttl uses env s =
    let token = new_join_token value ttl uses env.now in
    commit token (store_token token env.now s.state) env s

unfoldable pub create_join_token : ℤ → ℤ → Exec JoinToken
unfolding create_with
create_join_token ttl uses env s =
    create_with (new_random_token (str "join") env.random) ttl uses env s

unfoldable pub use_token : Text → JoinToken → JoinToken
use_token node_id token = record token {
  uses_left = token.uses_left -ℤ pos 1;
  used_by = token.used_by ++ node_id ∷ [];
}

consume_found :
    Option JoinToken → Text → Text → Instant → ClusterState → Result (Unit {0}) × ClusterState
consume_found none value node_id now state = (err invalid_token, state)
consume_found (some token) value node_id now state =
    if not (ltb now token.expires_at)
    then (err token_expired, record state { tokens = remove value state.tokens })
    else if int_le token.uses_left (pos 0)
    then (err token_used, state)
    else (ok tt, record state { tokens = adjust value (use_token node_id) state.tokens })

unfoldable pub consume_join_token :
    Text → Text → Instant → ClusterState → Result (Unit {0}) × ClusterState
unfolding consume_found
consume_join_token value node_id now state =
    consume_found (get value state.tokens) value node_id now state
