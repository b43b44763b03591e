-- ===== src/Network/Score.antt =====
-- The score of a node: its range, what makes it grow, and where it does not.
use frp_cluster.Base.{
  ℕ, ◌+◌, ◌*◌, ◌/◌, ◌≤◌, ◌≡◌, refl, true, false, ℤ, pos, negsuc, ◌≤ℤ◌, int_lt, int_le, inl, inr,
  arith, Bool-cases, if◌then◌else◌, Bool, ◌&&◌, ap, ◌<ℤ◌,
}
use Prim.Native.Nat.{min}
use frp_cluster.Types.{NetworkStatus, Instant}
use frp_cluster.Network.{
  latency_score, bandwidth_score, score_network_status, has_network_measurement, is_stale,
  effective_bandwidth, int_div, clamp_score,
}

latency_score_range : (l : ℤ) → (15 ≤ latency_score l) × (latency_score l ≤ 100)
unfolding latency_score
latency_score_range l = ground arith

bandwidth_score_range : (b : ℤ) → (25 ≤ bandwidth_score b) × (bandwidth_score b ≤ 100)
unfolding bandwidth_score int_le int_lt
bandwidth_score_range b = ground arith

-- the highest score that a measurement of this age can have
abbrev pub ceiling : NetworkStatus → Instant → ℕ
ceiling n now = if is_stale n now then 40 else 100

-- the weighted mean of the two scores, rounded
abbrev weighted : NetworkStatus → ℕ
weighted n =
    (latency_score n.latency_ms * 45
      + bandwidth_score (int_div (effective_bandwidth n) 1_000_000) * 55
      + 50)
    / 100

weighted_range : (n : NetworkStatus) → (21 ≤ weighted n) × (weighted n ≤ 100)
weighted_range n = omega (
  arith,
  latency_score_range n.latency_ms,
  bandwidth_score_range (int_div (effective_bandwidth n) 1_000_000),
)

cap_score :
    (old : Bool) (w : ℕ)
    → w ≤ 100
    → clamp_score (if old && int_lt (pos 40) (pos w) then pos 40 else pos w)
      ≡ pos (min w (if old then 40 else 100))
unfolding clamp_score int_lt
cap_score true w h = ground arith
cap_score false w h = ground arith

score_measured :
    (n : NetworkStatus) (now : Instant)
    → has_network_measurement n ≡ true
    → score_network_status n now ≡ pos (min (weighted n) (ceiling n now))
unfolding score_network_status
score_measured n now h = rw h (cap_score (is_stale n now) (weighted n) (weighted_range n).1)

score_unmeasured :
    (n : NetworkStatus) (now : Instant)
    → has_network_measurement n ≡ false
    → score_network_status n now ≡ pos 50
unfolding score_network_status
score_unmeasured n now h = rw h

-- A node with a measurement scores at least 21, at most 100, and at most 40 if the measurement is
-- stale; a node without one scores 50.
pub score_network_status_range :
    (n : NetworkStatus) (now : Instant)
    → (s : ℕ) × (score_network_status n now ≡ pos s)
      × (s ≤ 100)
      × (has_network_measurement n ≡ true → (21 ≤ s) × (s ≤ ceiling n now))
      × (has_network_measurement n ≡ false → s ≡ 50)
score_network_status_range n now = elim (Bool-cases (has_network_measurement n)) [
  | inl m ↦ (
    min (weighted n) (ceiling n now),
    score_measured n now m,
    omega (arith, weighted_range n),
    λ _. ground (arith, weighted_range n),
    λ e. absurd (ground (arith, m, e)),
  )
  | inr m ↦
      (50, score_unmeasured n now m, omega arith, λ e. absurd (ground (arith, m, e)), λ _. refl)
]

latency_score_antitone : (a b : ℤ) → pos 1 ≤ℤ a → a ≤ℤ b → latency_score b ≤ latency_score a
unfolding latency_score int_le
latency_score_antitone a b h k = ground arith

bandwidth_score_monotone : (a b : ℤ) → pos 1 ≤ℤ a → a ≤ℤ b → bandwidth_score a ≤ bandwidth_score b
unfolding bandwidth_score int_le int_lt
bandwidth_score_monotone a b h k = ground arith

int_div_mono :
    (a b : ℤ)
    → pos 1_000_000 ≤ℤ a
    → a ≤ℤ b
    → (pos 1 ≤ℤ int_div a 1_000_000) × (int_div a 1_000_000 ≤ℤ int_div b 1_000_000)
unfolding int_div
int_div_mono (pos a) (pos b) h k = omega arith
int_div_mono (negsuc a) b h k = absurd (omega arith)
int_div_mono (pos a) (negsuc b) h k = absurd (omega arith)

weighted_mono :
    (a b : NetworkStatus)
    → latency_score b.latency_ms ≤ latency_score a.latency_ms
    → bandwidth_score (int_div (effective_bandwidth b) 1_000_000)
      ≤ bandwidth_score (int_div (effective_bandwidth a) 1_000_000)
    → weighted b ≤ weighted a
weighted_mono a b h k = omega arith

bandwidth_score_below_one :
    (x : ℤ) → pos 0 ≤ℤ x → x ≤ℤ pos 999_999 → bandwidth_score (int_div x 1_000_000) ≡ 50
unfolding bandwidth_score int_div int_le int_lt
bandwidth_score_below_one (pos x) h k = ground arith
bandwidth_score_below_one (negsuc x) h k = absurd (omega arith)

bandwidth_score_below_ten :
    (x : ℤ) → pos 1_000_000 ≤ℤ x → x ≤ℤ pos 9_999_999 → bandwidth_score (int_div x 1_000_000) ≤ 40
unfolding bandwidth_score int_div int_le int_lt
bandwidth_score_below_ten (pos x) h k = ground arith
bandwidth_score_below_ten (negsuc x) h k = absurd (omega arith)

module _ (a b : NetworkStatus) (now : Instant) (ma : has_network_measurement a ≡ true)
    (mb : has_network_measurement b ≡ true) (age : is_stale a now ≡ is_stale b now) where
  -- Of two measured links of the same freshness, one that has at most the other's latency (which
  -- is known, at least 1 ms) and at least its bandwidth (at least 1 Mbps) never scores less.
  pub score_monotone :
      pos 1 ≤ℤ a.latency_ms
      → a.latency_ms ≤ℤ b.latency_ms
      → pos 1_000_000 ≤ℤ effective_bandwidth b
      → effective_bandwidth b ≤ℤ effective_bandwidth a
      → score_network_status b now ≤ℤ score_network_status a now
  score_monotone l1 l2 b1 b2 =
      let wider = int_div_mono (effective_bandwidth b) (effective_bandwidth a) b1 b2 in
      rw (score_measured a now ma, score_measured b now mb)
        (omega (
          arith,
          ap (λ (old : Bool). (if old then 40 else 100) + 0) age,
          weighted_mono a b (latency_score_antitone a.latency_ms b.latency_ms l1 l2)
              (bandwidth_score_monotone _ _ wider.0 wider.1),
        ))

  -- Below 1 Mbps the score is not the lowest but the one of an unknown bandwidth: a fresh link
  -- with less than 1 Mbps scores more than one of the same latency with 1 to 9 Mbps.
  pub slow_link_scores_more :
      is_stale a now ≡ false
      → a.latency_ms ≡ b.latency_ms
      → pos 0 ≤ℤ effective_bandwidth a
      → effective_bandwidth a ≤ℤ pos 999_999
      → pos 1_000_000 ≤ℤ effective_bandwidth b
      → effective_bandwidth b ≤ℤ pos 9_999_999
      → score_network_status b now <ℤ score_network_status a now
  slow_link_scores_more fresh l a0 a1 b0 b1 =
      rw (score_measured a now ma, score_measured b now mb)
        (rw (← age, fresh)
          (omega (
            arith,
            ap latency_score l,
            weighted_range a,
            weighted_range b,
            bandwidth_score_below_one (effective_bandwidth a) a0 a1,
            bandwidth_score_below_ten (effective_bandwidth b) b0 b1,
          )))
