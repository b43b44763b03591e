-- ===== src/Network.antt =====
-- Network measurements and the score of a node: normalizeHeartbeatNetwork, refreshNetworkStatus,
-- hasNetworkMeasurement, effectiveBandwidth, scoreNetworkStatus, networkEventMetadata, nonNegative
-- and maxInt64 of internal/control/service.go.
pub mod Score
pub mod Taken
pub mod Heartbeat
use frp_cluster.Base.{
  ℕ, ◌+◌, ◌*◌, ◌/◌, Bool, true, false, ◌||◌, ◌&&◌, List, [], ◌∷◌, ℤ, pos, negsuc, sub_ℕ, int_lt,
  int_le, int_eq, suc, if◌then◌else◌,
}
use frp_cluster.Text.{Text, str, int_text}
use frp_cluster.Dict.{Dict}
use frp_cluster.Types.{Instant, is_zero, second, elapsed_more, NetworkStatus}
use frp_cluster.Requests.{HeartbeatRequest}

-- two minutes
abbrev pub network_metrics_stale_after : ℕ
network_metrics_stale_after = 120_000_000_000

unfoldable pub non_negative : ℤ → ℤ
non_negative value = if int_lt value (pos 0) then pos 0 else value

max_from : ℤ → List ℤ → ℤ
max_from largest [] = largest
max_from largest (value ∷ values) =
    max_from (if int_lt largest value then value else largest) values

unfoldable pub max_int64 : List ℤ → ℤ
unfolding max_from
max_int64 values = max_from (pos 0) values

unfoldable pub has_network_measurement : NetworkStatus → Bool
has_network_measurement n =
    int_lt (pos 0) n.latency_ms
    || int_lt (pos 0) n.download_bandwidth_bps
    || int_lt (pos 0) n.upload_bandwidth_bps
    || int_lt (pos 0) n.observed_rx_bps
    || int_lt (pos 0) n.observed_tx_bps
    || int_lt (pos 0) n.bandwidth_bps

unfoldable pub effective_bandwidth : NetworkStatus → ℤ
effective_bandwidth n =
    if int_lt (pos 0) n.bandwidth_bps
    then n.bandwidth_bps
    else if int_lt (pos 0) n.download_bandwidth_bps && int_lt (pos 0) n.upload_bandwidth_bps
    then if int_lt n.download_bandwidth_bps n.upload_bandwidth_bps
      then n.download_bandwidth_bps
      else n.upload_bandwidth_bps
    else max_int64 (
        n.download_bandwidth_bps ∷ n.upload_bandwidth_bps ∷ n.observed_rx_bps ∷ n.observed_tx_bps
        ∷ [])

unfoldable pub latency_score : ℤ → ℕ
latency_score latency_ms =
    if int_le latency_ms (pos 0)
    then 50
    else if int_le latency_ms (pos 20)
    then 100
    else if int_le latency_ms (pos 50)
    then 90
    else if int_le latency_ms (pos 100)
    then 75
    else if int_le latency_ms (pos 200)
    then 55
    else if int_le latency_ms (pos 500)
    then 30
    else 15

-- `x / d` on integers, rounded towards 0
unfoldable pub int_div : ℤ → ℕ → ℤ
int_div (pos n) d = pos (n / d)
int_div (negsuc n) d = sub_ℕ 0 (suc n / d)

unfoldable pub bandwidth_score : ℤ → ℕ
bandwidth_score mbps =
    if int_le (pos 1000) mbps
    then 100
    else if int_le (pos 500) mbps
    then 95
    else if int_le (pos 100) mbps
    then 85
    else if int_le (pos 50) mbps
    then 75
    else if int_le (pos 20) mbps
    then 60
    else if int_le (pos 10) mbps
    then 50
    else if int_le (pos 5) mbps
    then 40
    else if int_le (pos 1) mbps
    then 25
    else if int_lt (pos 0) mbps
    then 10
    else 50

-- no measurement, or one that is too old
unfoldable pub is_stale : NetworkStatus → Instant → Bool
is_stale n now = is_zero n.measured_at || elapsed_more now n.measured_at network_metrics_stale_after

unfoldable pub clamp_score : ℤ → ℤ
clamp_score score =
    if int_lt score (pos 0) then pos 0 else if int_lt (pos 100) score then pos 100 else score

unfoldable pub score_network_status : NetworkStatus → Instant → ℤ
score_network_status n now =
    let latency = latency_score n.latency_ms in
    let bandwidth = bandwidth_score (int_div (effective_bandwidth n) 1_000_000) in
    let score = pos ((latency * 45 + bandwidth * 55 + 50) / 100) in
    if has_network_measurement n
    then clamp_score (if is_stale n now && int_lt (pos 40) score then pos 40 else score)
    else pos 50

unfoldable pub fill_bandwidth : NetworkStatus → NetworkStatus
fill_bandwidth n =
    if int_eq n.bandwidth_bps (pos 0) then record n { bandwidth_bps = effective_bandwidth n } else n

unfoldable pub mark_network : NetworkStatus → Instant → NetworkStatus
mark_network n now =
    let marked = record n { stale = is_stale n now } in
    record marked { score = score_network_status marked now }

unfoldable pub refresh_network_status : NetworkStatus → Instant → NetworkStatus
refresh_network_status n now = mark_network (fill_bandwidth n) now

-- a value that is 0 gives way to the request's
abbrev pub or_default : ℤ → ℤ → ℤ
or_default value fallback = if int_eq value (pos 0) then fallback else value

unfoldable pub request_network : HeartbeatRequest → NetworkStatus
request_network r =
    let n = r.network in
    record r.network {
      latency_ms = non_negative (or_default n.latency_ms r.latency_ms);
      download_bandwidth_bps =
          non_negative (or_default n.download_bandwidth_bps r.download_bandwidth_bps);
      upload_bandwidth_bps =
          non_negative (or_default n.upload_bandwidth_bps r.upload_bandwidth_bps);
      observed_rx_bps = non_negative (or_default n.observed_rx_bps r.observed_rx_bps);
      observed_tx_bps = non_negative (or_default n.observed_tx_bps r.observed_tx_bps);
      bandwidth_bps = non_negative (or_default n.bandwidth_bps r.bandwidth_bps);
    }

-- the measurement taken as fresh
unfoldable pub accept_network : NetworkStatus → Instant → NetworkStatus
accept_network n now =
    let filled = fill_bandwidth n in
    let dated = record filled {
      measured_at = if is_zero filled.measured_at then now else filled.measured_at;
      stale = false;
    } in
    record dated { score = score_network_status dated now }

unfoldable pub normalize_heartbeat_network :
    HeartbeatRequest → NetworkStatus → Instant → NetworkStatus × Bool
normalize_heartbeat_network r previous now =
    let n = request_network r in
    if has_network_measurement n
    then (accept_network n now, true)
    else (refresh_network_status previous now, false)

unfoldable pub network_event_metadata : NetworkStatus → Dict Text
network_event_metadata n =
    if has_network_measurement n
    then (str "latency_ms", int_text n.latency_ms)
      ∷ (str "bandwidth_bps", int_text n.bandwidth_bps)
      ∷ (str "download_bandwidth_bps", int_text n.download_bandwidth_bps)
      ∷ (str "upload_bandwidth_bps", int_text n.upload_bandwidth_bps)
      ∷ (str "observed_rx_bps", int_text n.observed_rx_bps)
      ∷ (str "observed_tx_bps", int_text n.observed_tx_bps)
      ∷ (str "score", int_text n.score)
      ∷ []
    else []
