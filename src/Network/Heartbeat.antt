-- ===== src/Network/Heartbeat.antt =====
-- What a heartbeat and a refresh make of a node's measurements.
use frp_cluster.Base.{
  ◌≡◌, refl, true, false, ℤ, pos, ◌≤ℤ◌, arith, inl, inr, Bool-cases, int_eq, int_eq_iff,
  if◌then◌else◌, ap, ◌∙◌, sym, int_lt, List, [], ◌∷◌,
}
use frp_cluster.Types.{NetworkStatus, Instant, is_zero}
use frp_cluster.Requests.{HeartbeatRequest}
use frp_cluster.Network.Taken.{measures, IsTaken, measures_lem, accept_network-IsTaken}
use frp_cluster.Network.{
  non_negative, has_network_measurement, effective_bandwidth, is_stale, score_network_status,
  fill_bandwidth, mark_network, refresh_network_status, request_network, accept_network,
  normalize_heartbeat_network, max_int64, max_from,
}

-- the score is the one of the other fields
abbrev pub ScoreIsCurrent : NetworkStatus → Instant → Type 0
ScoreIsCurrent n now = n.score ≡ score_network_status n now

pub record IsNonNegative (n : NetworkStatus) : Type 0 where
  pub latency : pos 0 ≤ℤ n.latency_ms
  pub download : pos 0 ≤ℤ n.download_bandwidth_bps
  pub upload : pos 0 ≤ℤ n.upload_bandwidth_bps
  pub rx : pos 0 ≤ℤ n.observed_rx_bps
  pub tx : pos 0 ≤ℤ n.observed_tx_bps
  pub bandwidth : pos 0 ≤ℤ n.bandwidth_bps

non_negative_le : (x : ℤ) → pos 0 ≤ℤ non_negative x
unfolding non_negative int_lt
non_negative_le x = ground arith

score_fields :
    (n : NetworkStatus) (now : Instant)
    → ScoreIsCurrent (record n { score = score_network_status n now }) now
unfolding score_network_status has_network_measurement effective_bandwidth is_stale
score_fields n now = refl

request_network-IsNonNegative : (r : HeartbeatRequest) → IsNonNegative (request_network r)
unfolding request_network
request_network-IsNonNegative r = record {
  latency = non_negative_le _;
  download = non_negative_le _;
  upload = non_negative_le _;
  rx = non_negative_le _;
  tx = non_negative_le _;
  bandwidth = non_negative_le _;
}

max_from-le : (m : ℤ) (xs : List ℤ) → m ≤ℤ max_from m xs
unfolding max_from int_lt
max_from-le m [] = omega arith
max_from-le m (x ∷ xs) = ground (arith, max_from-le (if int_lt m x then x else m) xs)

pub effective_bandwidth_le : (n : NetworkStatus) → pos 0 ≤ℤ effective_bandwidth n
unfolding effective_bandwidth int_lt max_int64
effective_bandwidth_le n = ground (
  arith,
  max_from-le (pos 0) (
      n.download_bandwidth_bps ∷ n.upload_bandwidth_bps ∷ n.observed_rx_bps ∷ n.observed_tx_bps
      ∷ []),
)

-- what `fill_bandwidth` makes of a bandwidth that is 0
abbrev with_effective : NetworkStatus → NetworkStatus
with_effective n = record n { bandwidth_bps = effective_bandwidth n }

fill_known : (n : NetworkStatus) → int_eq n.bandwidth_bps (pos 0) ≡ false → fill_bandwidth n ≡ n
unfolding fill_bandwidth
fill_known n h = rw h

fill_unknown :
    (n : NetworkStatus)
    → int_eq n.bandwidth_bps (pos 0) ≡ true
    → fill_bandwidth n ≡ with_effective n
unfolding fill_bandwidth
fill_unknown n h = rw h

nothing_to_fill :
    (n : NetworkStatus) → effective_bandwidth n ≡ n.bandwidth_bps → with_effective n ≡ n
nothing_to_fill n h = λ i. record n { bandwidth_bps = h i }

fill_bandwidth_idem : (n : NetworkStatus) → fill_bandwidth (fill_bandwidth n) ≡ fill_bandwidth n
fill_bandwidth_idem n = elim (Bool-cases (int_eq n.bandwidth_bps (pos 0))) [
  | inr known ↦ ap fill_bandwidth (fill_known n known)
  | inl unknown ↦ elim (Bool-cases (int_eq (effective_bandwidth n) (pos 0))) [
    | inl none_known ↦
        let zero_left = (int_eq_iff n.bandwidth_bps (pos 0)).0 unknown in
        let zero_right = (int_eq_iff (effective_bandwidth n) (pos 0)).0 none_known in
        ap fill_bandwidth (fill_unknown n unknown ∙ nothing_to_fill n (zero_right ∙ sym zero_left))
    | inr some_known ↦ rw (fill_unknown n unknown) (fill_known (with_effective n) some_known)
  ]
]

mark_network_idem :
    (n : NetworkStatus) (now : Instant) → mark_network (mark_network n now) now ≡ mark_network n now
unfolding mark_network score_network_status has_network_measurement effective_bandwidth is_stale
mark_network_idem n now = refl

mark-current : (n : NetworkStatus) (now : Instant) → ScoreIsCurrent (mark_network n now) now
unfolding mark_network score_network_status has_network_measurement effective_bandwidth is_stale
mark-current n now = refl

mark-stale :
    (n : NetworkStatus) (now : Instant)
    → (mark_network n now).stale ≡ is_stale (mark_network n now) now
unfolding mark_network is_stale
mark-stale n now = refl

effective-mark :
    (n : NetworkStatus) (now : Instant)
    → effective_bandwidth (mark_network n now) ≡ effective_bandwidth n
unfolding mark_network effective_bandwidth
effective-mark n now = refl

bandwidth-mark :
    (n : NetworkStatus) (now : Instant) → (mark_network n now).bandwidth_bps ≡ n.bandwidth_bps
unfolding mark_network
bandwidth-mark n now = refl

-- marking leaves nothing new to fill
fill-mark :
    (n : NetworkStatus) (now : Instant)
    → fill_bandwidth n ≡ n
    → fill_bandwidth (mark_network n now) ≡ mark_network n now
fill-mark n now h = elim (Bool-cases (int_eq n.bandwidth_bps (pos 0))) [
  | inr known ↦ fill_known (mark_network n now) (rw bandwidth-mark known)
  | inl unknown ↦
      let settled = sym (fill_unknown n unknown) ∙ h in
      fill_unknown (mark_network n now) (rw bandwidth-mark unknown)
      ∙ nothing_to_fill (mark_network n now) (
          rw (effective-mark, bandwidth-mark) (ap (λ (m : NetworkStatus). m.bandwidth_bps) settled))
]

-- Refreshing a node's measurements twice at the same instant is refreshing them once, and the
-- result's score and staleness are those of its other fields.
pub refresh_network_status_lem :
    (n : NetworkStatus) (now : Instant)
    → (refresh_network_status (refresh_network_status n now) now ≡ refresh_network_status n now)
      × ScoreIsCurrent (refresh_network_status n now) now
      × ((refresh_network_status n now).stale ≡ is_stale (refresh_network_status n now) now)
unfolding refresh_network_status
refresh_network_status_lem n now = (
  rw (fill-mark (fill_bandwidth n) now (fill_bandwidth_idem n)) (mark_network_idem _ now),
  mark-current (fill_bandwidth n) now,
  mark-stale (fill_bandwidth n) now,
)

accept_network-current :
    (n : NetworkStatus) (now : Instant) → ScoreIsCurrent (accept_network n now) now
unfolding accept_network score_network_status has_network_measurement effective_bandwidth is_stale
accept_network-current n now = refl

accept_network-dated :
    (n : NetworkStatus) (now : Instant)
    → is_zero now ≡ false
    → is_zero (accept_network n now).measured_at ≡ false
unfolding accept_network
accept_network-dated n now h = ground arith

fill_bandwidth-IsNonNegative :
    (n : NetworkStatus) → IsNonNegative n → IsNonNegative (fill_bandwidth n)
fill_bandwidth-IsNonNegative n h = elim (Bool-cases (int_eq n.bandwidth_bps (pos 0))) [
  | inr known ↦ rw (fill_known n known) h
  | inl unknown ↦ rw (fill_unknown n unknown) (record {
    latency = h.latency;
    download = h.download;
    upload = h.upload;
    rx = h.rx;
    tx = h.tx;
    bandwidth = effective_bandwidth_le n;
  })
]

accept_network-IsNonNegative :
    (n : NetworkStatus) (now : Instant) → IsNonNegative n → IsNonNegative (accept_network n now)
unfolding accept_network
accept_network-IsNonNegative n now h =
    let filled = fill_bandwidth-IsNonNegative n h in
    record {
      latency = filled.latency;
      download = filled.download;
      upload = filled.upload;
      rx = filled.rx;
      tx = filled.tx;
      bandwidth = filled.bandwidth;
    }

-- A heartbeat that reports any measurement, in `network` or in the older fields of the request,
-- gives that measurement, whatever the previous one was: each value is the reported one, a negative
-- one counts as 0, an unknown bandwidth is estimated by the others; its date is the request's, or
-- `now` if the request has none; it is not stale, and its score is that of its fields. A heartbeat
-- that reports none leaves what a refresh of the old measurements gives, and says so.
pub normalize_heartbeat_network_lem :
    (r : HeartbeatRequest) (previous : NetworkStatus) (now : Instant)
    → is_zero now ≡ false
    → (measures r ≡ true
        → ((normalize_heartbeat_network r previous now).1 ≡ true)
          × IsTaken r now (normalize_heartbeat_network r previous now).0
          × IsNonNegative (normalize_heartbeat_network r previous now).0
          × (is_zero (normalize_heartbeat_network r previous now).0.measured_at ≡ false)
          × ScoreIsCurrent (normalize_heartbeat_network r previous now).0 now)
      × (measures r ≡ false
          → normalize_heartbeat_network r previous now
            ≡ (refresh_network_status previous now, false))
unfolding normalize_heartbeat_network
normalize_heartbeat_network_lem r previous now dated = (
  λ m. rw (measures_lem r ∙ m) (
    refl,
    accept_network-IsTaken r now,
    accept_network-IsNonNegative (request_network r) now (request_network-IsNonNegative r),
    accept_network-dated (request_network r) now dated,
    accept_network-current (request_network r) now,
  ),
  λ m. rw (measures_lem r ∙ m) refl,
)
