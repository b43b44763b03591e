-- ===== src/ProxySpec.antt =====
-- The proxies that a client asks for: ProxySpec, ParseProxySpec and normalizeProxySpecs of
-- internal/control/config.go.
pub mod Parsing
use frp_cluster.Base.{
  ℕ, suc, ◌+◌, Bool, ◌||◌, Option, none, some, List, [], ◌∷◌, ◌++◌, ◌⊎◌, inl, inr, ℤ, pos, int_le,
  if◌then◌else◌,
}
use frp_cluster.Text.{Text, str, text_eq, to_lower, trim_space, split, atoi, decimal, int_text}
use frp_cluster.Ids.{sanitize_id}

pub record ProxySpec : Type 0 where
  pub name : Text
  pub type : Text
  pub local_ip : Text
  pub local_port : ℤ
  pub remote_port : ℤ

pub data ProxyError : Type 0 where
  wrong_form invalid_local_port invalid_remote_port missing_part : ProxyError

-- a port that was read, if it is positive
unfoldable pub port_of : Text → Option ℤ
port_of s = elim (atoi s) [ none ↦ none | some n ↦ if int_le n (pos 0) then none else some n ]

unfoldable check_parts : ProxySpec → ProxyError ⊎ ProxySpec
check_parts spec =
    if text_eq spec.name [] || text_eq spec.type [] || text_eq spec.local_ip []
    then inl missing_part
    else inr spec

unfoldable with_ports : Text → Text → Text → Option ℤ → Option ℤ → ProxyError ⊎ ProxySpec
unfolding check_parts
with_ports name type ip none remote = inl invalid_local_port
with_ports name type ip (some local_port) none = inl invalid_remote_port
with_ports name type ip (some local_port) (some remote_port) = check_parts (record {
  name = sanitize_id name;
  type = trim_space (to_lower type);
  local_ip = trim_space ip;
  local_port = local_port;
  remote_port = remote_port;
})

unfoldable pub of_parts : List Text → ProxyError ⊎ ProxySpec
unfolding with_ports port_of
of_parts (name ∷ type ∷ ip ∷ local_port ∷ remote_port ∷ []) =
    with_ports name type ip (port_of local_port) (port_of remote_port)
of_parts parts = inl wrong_form

unfoldable pub parse_proxy_spec : Text → ProxyError ⊎ ProxySpec
unfolding of_parts
parse_proxy_spec value = of_parts (split b':' value)

-- the proxy of a client that asks for none
unfoldable pub health_spec : Text → Text → ℕ → ProxySpec
health_spec client_id suffix fallback_remote_port = record {
  name = client_id ++ str "-health-" ++ suffix;
  type = str "tcp";
  local_ip = str "127.0.0.1";
  local_port = pos 22;
  remote_port = pos fallback_remote_port;
}

abbrev or_when_empty : Text → Text → Text
or_when_empty value fallback = if text_eq value [] then fallback else value

-- `done` specifications come before it
unfoldable pub normalize_spec : Text → ℕ → ProxySpec → ProxySpec
normalize_spec client_id done spec = record spec {
  name = or_when_empty (sanitize_id spec.name) (client_id ++ str "-proxy-" ++ decimal (suc done));
  type = to_lower (trim_space (or_when_empty spec.type (str "tcp")));
  local_ip = or_when_empty spec.local_ip (str "127.0.0.1");
}

unfoldable pub normalize_from : Text → ℕ → List ProxySpec → List ProxySpec
unfolding normalize_spec
normalize_from client_id done [] = []
normalize_from client_id done (spec ∷ specs) =
    normalize_spec client_id done spec ∷ normalize_from client_id (suc done) specs

unfoldable pub normalize_proxy_specs : List ProxySpec → Text → Text → ℕ → List ProxySpec
unfolding normalize_from health_spec
normalize_proxy_specs [] client_id suffix fallback_remote_port =
    health_spec client_id suffix fallback_remote_port ∷ []
normalize_proxy_specs (spec ∷ specs) client_id suffix fallback_remote_port =
    normalize_from client_id 0 (spec ∷ specs)
