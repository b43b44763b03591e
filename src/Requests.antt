-- ===== src/Requests.antt =====
-- What the control plane is asked and what it answers: the request and response types of
-- internal/control/types.go, and the errors of service.go, token.go and store.go.
use frp_cluster.Base.{◌≡◌, ap, List, ℤ}
use frp_cluster.Text.{Text}
use frp_cluster.Types.{NetworkStatus, TrafficCounters, ServerNode}

pub record JoinRequest : Type 0 where
  pub token : Text
  pub node_id : Text
  pub name : Text
  pub public_addr : Text
  pub control_url : Text
  pub bind_port : ℤ
  pub vhost_http_port : ℤ
  pub vhost_https_port : ℤ
  pub region : Text
  pub tags : List Text

pub record HeartbeatRequest : Type 0 where
  pub node_token : Text
  pub network : NetworkStatus
  pub traffic : TrafficCounters
  pub latency_ms : ℤ
  pub download_bandwidth_bps : ℤ
  pub upload_bandwidth_bps : ℤ
  pub observed_rx_bps : ℤ
  pub observed_tx_bps : ℤ
  pub bandwidth_bps : ℤ

pub record JoinResponse : Type 0 where
  pub node : ServerNode
  pub node_token : Text
  pub frps_config_url : Text

-- The errors that an operation returns. The five ways in which saving the state fails carry no
-- text: it is the operating system's.
pub data Error : Type 0 where
  node_not_found client_not_found node_token_required node_token_mismatch : Error
  no_available_node invalid_join_request : Error
  invalid_token token_expired token_used : Error
  random_failed : Error
  create_state_dir encode_state write_state replace_state : Error
  read_state decode_state : Error
  negative_score_gap : Error
  unsupported_mode : Text → Error
  dns_hook_not_configured dns_hook_timed_out : Error
  dns_hook_failed : Text → Error

pub data Result {ℓ} (A : Type ℓ) : Type ℓ where
  ok : A → Result A
  err : Error → Result A

-- the value of a result, with `a` for an error
or_value {ℓ} : {A : Type ℓ} → A → Result A → A
or_value a (ok b) = b
or_value a (err e) = a

pub ok-injective {ℓ} : {A : Type ℓ} {a b : A} → ok a ≡ ok b → a ≡ b
unfolding or_value
ok-injective {a = a} h = ap (or_value a) h
