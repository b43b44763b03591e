-- ===== src/Traffic/Record.antt =====
-- What recordTrafficLocked makes of a heartbeat's counters.

use frp_cluster.Base.{
  ◌∙◌, ap, ℕ, ◌≤◌, ◌+◌, ◌<◌, ◌≡◌, ◌≢◌, ◌⊎◌, ◌↔◌, ◌==◌, All, ℤ, refl, ap, true, false, Option, none,
  some, List, [], ◌∷◌, ◌++◌, pos, length, int_le, inl, inr, arith, if◌then◌else◌, sub64, wrap64,
  ◌-ℤ◌,
}
use frp_cluster.Text.{Text, text_eq_refl}
use frp_cluster.Dict.{get, adjust, get-adjust}
use frp_cluster.Types.{Instant, TrafficSample, TrafficCounters, ServerNode, ClusterState}
use frp_cluster.Traffic.{
  max_traffic_samples, is_kept, positive_delta, normalize_traffic_counters,
  last_traffic_sample_for_node, new_sample, is_too_early, add_sample, set_traffic,
  record_normalized, record_traffic,
}
use frp_cluster.Traffic.Samples.{last-prune, prune_traffic_samples_lem, AreKept}

record-found :
    (node_id : Text) (traffic t : TrafficCounters) (node : ServerNode) (now : Instant)
    (state : ClusterState)
    → get node_id state.nodes ≡ some node
    → normalize_traffic_counters traffic now ≡ some t
    → record_traffic node_id traffic now state ≡ record state {
      nodes = adjust node_id (set_traffic t) state.nodes;
      traffic_samples = add_sample node_id t now state.traffic_samples;
    }
unfolding record_traffic record_normalized
record-found node_id traffic t node now state found normal = rw (normal, found) refl

-- the sample that the counters t give, after the sample `previous`
abbrev pub sample_of : Text → TrafficCounters → List TrafficSample → TrafficSample
sample_of node_id t samples = new_sample node_id t (last_traffic_sample_for_node samples node_id)

-- the list's last sample of the node is a minute old, or there is none
abbrev Passes : Text → Instant → List TrafficSample → Type 0
Passes node_id now samples = is_too_early now (last_traffic_sample_for_node samples node_id) ≡ false

last-add_sample :
    (node_id : Text) (t : TrafficCounters) (now : Instant) (samples : List TrafficSample)
    → Passes node_id now samples
    → is_kept now (sample_of node_id t samples) ≡ true
    → last_traffic_sample_for_node (add_sample node_id t now samples) node_id
      ≡ sample_of node_id t samples
unfolding add_sample new_sample
last-add_sample node_id t now samples due kept =
    rw due (last-prune now samples (sample_of node_id t samples) kept)

record_traffic_cases :
    (node_id : Text) (traffic t : TrafficCounters) (node : ServerNode) (now : Instant)
    (state : ClusterState)
    → get node_id state.nodes ≡ some node
    → normalize_traffic_counters traffic now ≡ some t
    → (get node_id (record_traffic node_id traffic now state).nodes ≡ some (set_traffic t node))
      × (is_too_early now (last_traffic_sample_for_node state.traffic_samples node_id) ≡ true
          → (record_traffic node_id traffic now state).traffic_samples ≡ state.traffic_samples)
      × (Passes node_id now state.traffic_samples
          → AreKept now (record_traffic node_id traffic now state).traffic_samples
            × (length (record_traffic node_id traffic now state).traffic_samples
                ≤ max_traffic_samples)
            × (is_kept now (sample_of node_id t state.traffic_samples) ≡ true
                → last_traffic_sample_for_node
                    (record_traffic node_id traffic now state).traffic_samples
                    node_id
                  ≡ sample_of node_id t state.traffic_samples))
unfolding add_sample new_sample
record_traffic_cases node_id traffic t node now state found normal =
    let samples = state.traffic_samples in
    let new = sample_of node_id t samples in
    rw (record-found node_id traffic t node now state found normal) (
      rw (get-adjust, text_eq_refl node_id, found) refl,
      λ early. rw early refl,
      λ due.
          let pruned = prune_traffic_samples_lem now (samples ++ new ∷ []) in
          rw due (pruned.0, pruned.1, λ kept. last-prune now samples new kept),
    )

-- the node's last sample is less than a minute old
abbrev pub IsEarly : Instant → TrafficSample → Type 0
IsEarly now last = (last.at ≢ 0) × (now < last.at + 60_000_000_000)

-- the node's last sample is a minute old, or it has none
abbrev pub IsDue : Instant → TrafficSample → Type 0
IsDue now last = (last.at ≡ 0) ⊎ (last.at + 60_000_000_000 ≤ now)

-- a dated sample of the last seven days
abbrev pub IsRecent : Instant → Instant → Type 0
IsRecent now at = (at ≢ 0) × (now ≤ at + 604_800_000_000_000)

-- a total that an `int64` holds
abbrev pub IsTotal : ℤ → Type 0
IsTotal x = (n : ℕ) × (x ≡ pos n) × (n < 9_223_372_036_854_775_808)

-- how much the total has grown; 0, if it fell
abbrev pub growth : ℤ → ℤ → ℤ
growth previous current = if int_le current previous then pos 0 else current -ℤ previous

-- the sample that the counters give, after the node's sample `last`
abbrev pub expected_sample : Text → TrafficCounters → TrafficSample → TrafficSample
expected_sample node_id t last = record {
  node_id = node_id;
  at = t.measured_at;
  total_in_bytes = t.total_in_bytes;
  total_out_bytes = t.total_out_bytes;
  delta_in_bytes = if last.at == 0 then pos 0 else growth last.total_in_bytes t.total_in_bytes;
  delta_out_bytes = if last.at == 0 then pos 0 else growth last.total_out_bytes t.total_out_bytes;
  current_connections = t.current_connections;
}

growth_fits :
    (p c : ℕ)
    → p < 9_223_372_036_854_775_808
    → c < 9_223_372_036_854_775_808
    → positive_delta (pos p) (pos c) ≡ growth (pos p) (pos c)
unfolding positive_delta int_le sub64 wrap64 ◌-ℤ◌
growth_fits p c h k = ground arith

positive_delta-growth :
    (previous current : ℤ)
    → IsTotal previous
    → IsTotal current
    → positive_delta previous current ≡ growth previous current
positive_delta-growth previous current (p, is_p, p_fits) (c, is_c, c_fits) =
    rw (is_p, is_c) (growth_fits p c p_fits c_fits)

new_sample-expected :
    (node_id : Text) (t : TrafficCounters) (last : TrafficSample)
    → IsTotal last.total_in_bytes × IsTotal last.total_out_bytes
    → IsTotal t.total_in_bytes × IsTotal t.total_out_bytes
    → new_sample node_id t last ≡ expected_sample node_id t last
unfolding new_sample
new_sample-expected node_id t last before now =
    rw
      (
        positive_delta-growth last.total_in_bytes t.total_in_bytes before.0 now.0,
        positive_delta-growth last.total_out_bytes t.total_out_bytes before.1 now.1,
      )
      refl

early_test :
    (now : Instant) (last : TrafficSample) → IsEarly now last → is_too_early now last ≡ true
unfolding is_too_early
early_test now last h = ground (arith, h.0, h.1)

due_test : (now : Instant) (last : TrafficSample) → IsDue now last → is_too_early now last ≡ false
unfolding is_too_early
due_test now last (inl e) = ground (arith, e)
due_test now last (inr e) = ground (arith, e)

kept_test :
    (now : Instant) (sample : TrafficSample) → (is_kept now sample ≡ true) ↔ IsRecent now sample.at
unfolding is_kept
kept_test now sample = (λ h. ground (arith, h), λ h. ground (arith, h.0, h.1))

kept-IsRecent :
    (now : Instant) (samples : List TrafficSample)
    → AreKept now samples
    → All (λ (sample : TrafficSample). IsRecent now sample.at) samples
kept-IsRecent now [] h = tt
kept-IsRecent now (sample ∷ samples) h =
    ((kept_test now sample).0 h.0, kept-IsRecent now samples h.1)

-- While a heartbeat comes less than a minute after the node's last sample, the list of samples
-- stays as it is. Otherwise its counters give the node's last sample, unless they are undated or
-- more than seven days old, and the list then holds at most 100,000 samples, all of them dated and
-- at most seven days old. The sample has the counters' date and values, and its two deltas are the
-- growth of the two totals since the node's sample before it, 0 where the total fell or there is
-- none before. The node carries the new counters in each case. (The node is known, its counters
-- are not empty, and the totals are from 0 to 2^63 - 1.)
pub record_traffic_lem :
    (node_id : Text) (traffic t : TrafficCounters) (node : ServerNode) (now : Instant)
    (state : ClusterState)
    → get node_id state.nodes ≡ some node
    → normalize_traffic_counters traffic now ≡ some t
    → IsTotal t.total_in_bytes × IsTotal t.total_out_bytes
    → IsTotal (last_traffic_sample_for_node state.traffic_samples node_id).total_in_bytes
      × IsTotal (last_traffic_sample_for_node state.traffic_samples node_id).total_out_bytes
    → let last = last_traffic_sample_for_node state.traffic_samples node_id in
      let after = record_traffic node_id traffic now state in
      (get node_id after.nodes ≡ some (record node { traffic = t }))
      × (IsEarly now last → after.traffic_samples ≡ state.traffic_samples)
      × (IsDue now last
          → All (λ (sample : TrafficSample). IsRecent now sample.at) after.traffic_samples
            × (length after.traffic_samples ≤ 100_000)
            × (IsRecent now t.measured_at
                → last_traffic_sample_for_node after.traffic_samples node_id
                  ≡ expected_sample node_id t last))
unfolding set_traffic
record_traffic_lem node_id traffic t node now state found normal new before =
    let last = last_traffic_sample_for_node state.traffic_samples node_id in
    let (carried, early, due) =
      record_traffic_cases node_id traffic t node now state found normal in
    (
      carried,
      λ h. early (early_test now last h),
      λ h.
          let (kept, size, newest) = due (due_test now last h) in
          (
            kept-IsRecent now _ kept,
            size,
            λ recent.
                newest ((kept_test now _).1 (unfold new_sample in recent))
                ∙ new_sample-expected node_id t last before new,
          ),
    )

-- the heartbeats of one node, one after another
abbrev pub report_each : Text → List (TrafficCounters × Instant) → ClusterState → ClusterState
report_each node_id [] state = state
report_each node_id ((traffic, now) ∷ more) state =
    report_each node_id more (record_traffic node_id traffic now state)

early_report :
    (node_id : Text) (o : Option TrafficCounters) (node : Option ServerNode) (now : Instant)
    (state : ClusterState)
    → is_too_early now (last_traffic_sample_for_node state.traffic_samples node_id) ≡ true
    → (record_normalized node_id o node now state).traffic_samples ≡ state.traffic_samples
unfolding record_normalized add_sample
early_report node_id none _ now state h = refl
early_report node_id (some t) none now state h = refl
early_report node_id (some t) (some node) now state h = rw h refl

early_reports :
    (node_id : Text) (reports : List (TrafficCounters × Instant)) (state : ClusterState)
    (last : TrafficSample)
    → last_traffic_sample_for_node state.traffic_samples node_id ≡ last
    → last.at ≢ 0
    → All (λ (r : TrafficCounters × Instant). r.1 < last.at + 60_000_000_000) reports
    → (report_each node_id reports state).traffic_samples ≡ state.traffic_samples
unfolding record_traffic
early_reports node_id [] state last is_last dated h = refl
early_reports node_id ((traffic, now) ∷ more) state last is_last dated h =
    let same =
      early_report node_id (normalize_traffic_counters traffic now) (get node_id state.nodes) now
        state (rw is_last (early_test now last (dated, h.0))) in
    early_reports node_id more (record_traffic node_id traffic now state) last
      (ap (λ samples. last_traffic_sample_for_node samples node_id) same ∙ is_last) dated h.1
    ∙ same

-- After a heartbeat whose counters were taken as a sample, any number of further heartbeats of the
-- node that come before a minute has passed since that sample's date leave the list of samples
-- unchanged.
pub one_sample_a_minute :
    (node_id : Text) (first t : TrafficCounters) (node : ServerNode) (now : Instant)
    (state : ClusterState) (reports : List (TrafficCounters × Instant))
    → get node_id state.nodes ≡ some node
    → normalize_traffic_counters first now ≡ some t
    → IsDue now (last_traffic_sample_for_node state.traffic_samples node_id)
    → IsRecent now t.measured_at
    → All (λ (r : TrafficCounters × Instant). r.1 < t.measured_at + 60_000_000_000) reports
    → (report_each node_id reports (record_traffic node_id first now state)).traffic_samples
      ≡ (record_traffic node_id first now state).traffic_samples
unfolding new_sample
one_sample_a_minute node_id first t node now state reports found normal due recent soon =
    let last = last_traffic_sample_for_node state.traffic_samples node_id in
    let cases = record_traffic_cases node_id first t node now state found normal in
    let newest = cases.2 (due_test now last due) in
    early_reports node_id reports (record_traffic node_id first now state)
      (sample_of node_id t state.traffic_samples)
      (newest.2 ((kept_test now (sample_of node_id t state.traffic_samples)).1 recent)) recent.0
      soon
