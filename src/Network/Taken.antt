-- ===== src/Network/Taken.antt =====
-- What a heartbeat's measurement is to be, written out field by field.
use frp_cluster.Base.{
  ◌≡◌, refl, ap, false, ◌&&◌, ◌||◌, Bool, ℤ, pos, int_eq, int_eq_iff, int_lt, inl, inr, Bool-cases,
  if◌then◌else◌,
}
use frp_cluster.Types.{NetworkStatus, Instant, is_zero}
use frp_cluster.Requests.{HeartbeatRequest}
use frp_cluster.Network.{
  non_negative, has_network_measurement, effective_bandwidth, max_int64, fill_bandwidth,
  request_network, accept_network,
}

-- the value, or the older field of the request where it is 0; a negative one counts as 0
abbrev pub reported : ℤ → ℤ → ℤ
reported value older =
    let v = if int_eq value (pos 0) then older else value in if int_lt v (pos 0) then pos 0 else v

abbrev larger : ℤ → ℤ → ℤ
larger a b = if int_lt a b then b else a

-- the bandwidth, where none is reported: the slower direction, or else the largest value there is
abbrev estimate : ℤ → ℤ → ℤ → ℤ → ℤ
estimate download upload rx tx =
    if int_lt (pos 0) download && int_lt (pos 0) upload
    then if int_lt download upload then download else upload
    else larger (larger (larger (larger (pos 0) download) upload) rx) tx

effective_unknown :
    (n : NetworkStatus)
    → n.bandwidth_bps ≡ pos 0
    → effective_bandwidth n
      ≡ estimate n.download_bandwidth_bps n.upload_bandwidth_bps n.observed_rx_bps n.observed_tx_bps
unfolding effective_bandwidth max_int64 int_lt
effective_unknown n h = rw h refl

module _ (r : HeartbeatRequest) where
  abbrev latency : ℤ
  latency = reported r.network.latency_ms r.latency_ms

  abbrev download : ℤ
  download = reported r.network.download_bandwidth_bps r.download_bandwidth_bps

  abbrev upload : ℤ
  upload = reported r.network.upload_bandwidth_bps r.upload_bandwidth_bps

  abbrev rx : ℤ
  rx = reported r.network.observed_rx_bps r.observed_rx_bps

  abbrev tx : ℤ
  tx = reported r.network.observed_tx_bps r.observed_tx_bps

  abbrev bandwidth : ℤ
  bandwidth = reported r.network.bandwidth_bps r.bandwidth_bps

  -- does the request report any measurement
  abbrev pub measures : Bool
  measures =
      int_lt (pos 0) latency
      || int_lt (pos 0) download
      || int_lt (pos 0) upload
      || int_lt (pos 0) rx
      || int_lt (pos 0) tx
      || int_lt (pos 0) bandwidth

  -- the measurement is the one that the request reports, taken at `now`
  pub record IsTaken (now : Instant) (n : NetworkStatus) : Type 0 where
    pub latency_is : n.latency_ms ≡ latency
    pub download_is : n.download_bandwidth_bps ≡ download
    pub upload_is : n.upload_bandwidth_bps ≡ upload
    pub rx_is : n.observed_rx_bps ≡ rx
    pub tx_is : n.observed_tx_bps ≡ tx
    pub bandwidth_is :
        n.bandwidth_bps
        ≡ (if int_eq bandwidth (pos 0) then estimate download upload rx tx else bandwidth)
    pub measured_at_is :
        n.measured_at ≡ (if is_zero r.network.measured_at then now else r.network.measured_at)
    pub stale_is : n.stale ≡ false

  pub measures_lem : has_network_measurement (request_network r) ≡ measures
  unfolding has_network_measurement request_network non_negative
  measures_lem = refl

  -- the request's measurement before it is dated and scored
  abbrev filled : NetworkStatus
  filled = record r.network {
    latency_ms = latency;
    download_bandwidth_bps = download;
    upload_bandwidth_bps = upload;
    observed_rx_bps = rx;
    observed_tx_bps = tx;
    bandwidth_bps = if int_eq bandwidth (pos 0) then estimate download upload rx tx else bandwidth;
  }

  fill_request : fill_bandwidth (request_network r) ≡ filled
  unfolding fill_bandwidth request_network non_negative
  fill_request = elim (Bool-cases (int_eq bandwidth (pos 0))) [
    | inr known ↦ rw known refl
    | inl unknown ↦
        let zero_bandwidth = (int_eq_iff bandwidth (pos 0)).0 unknown in
        rw unknown (
          ap
            (λ b. record r.network {
              latency_ms = latency;
              download_bandwidth_bps = download;
              upload_bandwidth_bps = upload;
              observed_rx_bps = rx;
              observed_tx_bps = tx;
              bandwidth_bps = b;
            })
            (effective_unknown (request_network r) zero_bandwidth))
  ]

  pub accept_network-IsTaken :
      (now : Instant) → IsTaken now (accept_network (request_network r) now)
  unfolding accept_network
  accept_network-IsTaken now = rw fill_request (record {
    latency_is = refl;
    download_is = refl;
    upload_is = refl;
    rx_is = refl;
    tx_is = refl;
    bandwidth_is = refl;
    measured_at_is = refl;
    stale_is = refl;
  })
