-- ===== src/Tokens/Uses.antt =====
-- A token lets in as many nodes as it was made for, before it expires and under its own name only.

use frp_cluster.Base.{
  ℕ, suc, ◌≤◌, ◌<◌, ◌≡◌, ◌≢◌, refl, true, false, not, Option, none, some, List, [], ◌∷◌, ◌++◌, map,
  pos, ◌-ℤ◌, int_le, length, All, ltb, lt→ltb, arith, inl, inr, Bool-cases,
}
use mathlib.Core.List.{append_assoc, append-nil}
use frp_cluster.Text.{text_differs, Text, text_eq_refl}
use frp_cluster.Dict.{Dict, get, get-adjust, get-remove, adjust, remove}
use frp_cluster.Types.{Instant, JoinToken, ClusterState}
use frp_cluster.Requests.{Result, ok, err, invalid_token, token_expired, token_used}
use frp_cluster.Tokens.{use_token, consume_found, consume_join_token}

on_ok :
    Result (Unit {0}) × ClusterState
    → (ClusterState → Result (Unit {0}) × ClusterState)
    → Result (Unit {0}) × ClusterState
on_ok (ok _, state) next = next state
on_ok (err e, state) next = (err e, state)

-- joins under one token, one after another, up to the first that fails
unfoldable pub consume_each :
    Text → List (Text × Instant) → ClusterState → Result (Unit {0}) × ClusterState
unfolding on_ok
consume_each value [] state = (ok tt, state)
consume_each value ((node_id, now) ∷ joins) state =
    on_ok (consume_join_token value node_id now state) (consume_each value joins)

abbrev joiners : List (Text × Instant) → List Text
joiners joins = map (λ (j : Text × Instant). j.0) joins

-- the token after joins that succeed
abbrev pub spent : JoinToken → ℕ → List (Text × Instant) → JoinToken
spent token left joins = record token {
  uses_left = pos left;
  used_by = token.used_by ++ joiners joins;
}

pub consume_live :
    (value node_id : Text) (now : Instant) (state : ClusterState) (token : JoinToken) (n : ℕ)
    → get value state.tokens ≡ some token
    → token.uses_left ≡ pos (suc n)
    → now < token.expires_at
    → consume_join_token value node_id now state
      ≡ (ok tt, record state { tokens = adjust value (use_token node_id) state.tokens })
unfolding consume_join_token int_le
consume_live value node_id now state token n found left fresh =
    rw (found, lt→ltb now token.expires_at fresh, left) (ground arith)

pub get-use :
    (value node_id : Text) (state : ClusterState) (token : JoinToken) (n : ℕ)
    → get value state.tokens ≡ some token
    → token.uses_left ≡ pos (suc n)
    → get value (adjust value (use_token node_id) state.tokens)
      ≡ some (record token { uses_left = pos n; used_by = token.used_by ++ node_id ∷ [] })
unfolding use_token ◌-ℤ◌
get-use value node_id state token n found left =
    rw (get-adjust, text_eq_refl value, found) (ground (arith, left))

consume_exhausted :
    (value node_id : Text) (now : Instant) (state : ClusterState) (token : JoinToken)
    → get value state.tokens ≡ some token
    → token.uses_left ≡ pos 0
    → now < token.expires_at
    → consume_join_token value node_id now state ≡ (err token_used, state)
unfolding consume_join_token int_le
consume_exhausted value node_id now state token found left fresh =
    rw (found, lt→ltb now token.expires_at fresh, left)

-- A token with n uses left lets in any n nodes, one after another, that come before it expires;
-- it then has no use left and names them, and one more join fails with "token exhausted".
pub token_budget :
    (value : Text) (joins : List (Text × Instant)) (last : Text × Instant) (state : ClusterState)
    (token : JoinToken)
    → get value state.tokens ≡ some token
    → token.uses_left ≡ pos (length joins)
    → All (λ (j : Text × Instant). j.1 < token.expires_at) (joins ++ last ∷ [])
    → ((consume_each value joins state).0 ≡ ok tt)
      × (get value (consume_each value joins state).1.tokens ≡ some (spent token 0 joins))
      × ((consume_each value (joins ++ last ∷ []) state).0 ≡ err token_used)
unfolding consume_each
token_budget value [] last state token found left fresh = (
  refl,
  cc (found, left, append-nil token.used_by),
  rw (consume_exhausted value last.0 last.1 state token found left fresh.0),
)
token_budget value ((node_id, now) ∷ joins) last state token found left fresh =
    rw (consume_live value node_id now state token (length joins) found left fresh.0) (
      rw append_assoc at (
        token_budget value joins last
          (record state { tokens = adjust value (use_token node_id) state.tokens })
          (record token { uses_left = pos (length joins); used_by = token.used_by ++ node_id ∷ [] })
          (get-use value node_id state token (length joins) found left) refl fresh.1))

-- the same tokens, but for one
abbrev pub SameTokensBut : Text → ClusterState → ClusterState → Type 0
SameTokensBut value a b = (j : Text) → value ≢ j → get j a.tokens ≡ get j b.tokens

pub not_before : (a b : ℕ) → b ≤ a → ltb a b ≡ false
not_before a b h = ground arith

consume_found-others :
    (o : Option JoinToken) (value node_id : Text) (now : Instant) (state : ClusterState)
    → SameTokensBut value (consume_found o value node_id now state).1 state
unfolding consume_found
consume_found-others none value node_id now state j h = refl
consume_found-others (some token) value node_id now state j h =
    elim (Bool-cases (not (ltb now token.expires_at))) [
      | inl late ↦ rw late (rw (get-remove, text_differs value j h))
      | inr fresh ↦ elim (Bool-cases (int_le token.uses_left (pos 0))) [
        | inl used ↦ rw (fresh, used)
        | inr left ↦ rw (fresh, left) (rw (get-adjust, text_differs value j h))
      ]
    ]

-- A join attempt is refused under a token that is unknown, expired (which is then deleted) or used
-- up, in this order; whatever its result, no other token changes.
pub consume_join_token_refuses :
    (value node_id : Text) (now : Instant) (state : ClusterState)
    → SameTokensBut value (consume_join_token value node_id now state).1 state
      × (get value state.tokens ≡ none
          → consume_join_token value node_id now state ≡ (err invalid_token, state))
      × ((token : JoinToken)
          → get value state.tokens ≡ some token
          → token.expires_at ≤ now
          → ((consume_join_token value node_id now state).0 ≡ err token_expired)
            × (get value (consume_join_token value node_id now state).1.tokens ≡ none))
      × ((token : JoinToken)
          → get value state.tokens ≡ some token
          → now < token.expires_at
          → int_le token.uses_left (pos 0) ≡ true
          → consume_join_token value node_id now state ≡ (err token_used, state))
unfolding consume_join_token
consume_join_token_refuses value node_id now state = (
  consume_found-others (get value state.tokens) value node_id now state,
  λ e. rw e,
  λ token e late.
      rw (e, not_before now token.expires_at late) (refl, rw (get-remove, text_eq_refl value)),
  λ token e fresh used. rw (e, lt→ltb now token.expires_at fresh, used),
)

-- the state with other tokens
abbrev pub with_tokens : Dict JoinToken → ClusterState → ClusterState
with_tokens tokens state = record state { tokens = tokens }

consume_found-tokens :
    (o : Option JoinToken) (value node_id : Text) (now : Instant) (state : ClusterState)
    → (tokens : Dict JoinToken) × ((consume_found o value node_id now state).1
        ≡ with_tokens tokens state)
unfolding consume_found
consume_found-tokens none value node_id now state = (state.tokens, refl)
consume_found-tokens (some token) value node_id now state =
    elim (Bool-cases (not (ltb now token.expires_at))) [
      | inl late ↦ (remove value state.tokens, rw late refl)
      | inr fresh ↦ elim (Bool-cases (int_le token.uses_left (pos 0))) [
        | inl used ↦ (state.tokens, rw (fresh, used) refl)
        | inr left ↦ (adjust value (use_token node_id) state.tokens, rw (fresh, left) refl)
      ]
    ]

-- A join attempt writes the tokens only, whatever its result.
pub consume-tokens :
    (value node_id : Text) (now : Instant) (state : ClusterState)
    → (tokens : Dict JoinToken) × ((consume_join_token value node_id now state).1
        ≡ with_tokens tokens state)
unfolding consume_join_token
consume-tokens value node_id now state =
    consume_found-tokens (get value state.tokens) value node_id now state
