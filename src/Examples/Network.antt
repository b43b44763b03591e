-- ===== src/Examples/Network.antt =====
-- Measurements, scores and identifiers, at concrete values.
use frp_cluster.Network.Taken.{IsTaken, measures}
use frp_cluster.Base.{List, [], arith, false, int_lt, pos, refl, true, ℕ, ◌<ℤ◌, ◌∷◌, ◌≡◌, ◌≤ℤ◌, ◌≤◌}
use frp_cluster.Examples.{a_id, b_id, beat, fast_link, noon, with_link}
use frp_cluster.Ids.{is_id_edge, sanitize_id}
use frp_cluster.Ids.Sanitize.{IsIdText, sanitize_id_lem}
use frp_cluster.Network.{
  effective_bandwidth, has_network_measurement, is_stale, normalize_heartbeat_network,
  refresh_network_status, score_network_status,
}
use frp_cluster.Network.Heartbeat.{IsNonNegative, ScoreIsCurrent, normalize_heartbeat_network_lem}
use frp_cluster.Network.Score.{
  ceiling, score_monotone, score_network_status_range, slow_link_scores_more,
}
use frp_cluster.Nodes.{no_network}
use frp_cluster.Text.{EndsKept, StartsKept, Text, str}
use frp_cluster.Types.{NetworkStatus, is_zero}

abbrev near : NetworkStatus
near = with_link (pos 10) (pos 90_000_000)

abbrev far : NetworkStatus
far = with_link (pos 80) (pos 20_000_000)

-- below 1 Mbps, and above
abbrev trickle : NetworkStatus
trickle = with_link (pos 10) (pos 900_000)

abbrev stream : NetworkStatus
stream = with_link (pos 10) (pos 2_000_000)

abbrev texts : List Text
texts = a_id ∷ [] ∷ a_id ∷ b_id ∷ []

score_network_status_range_example :
    (s : ℕ) × (score_network_status fast_link noon ≡ pos s)
    × (s ≤ 100)
    × (has_network_measurement fast_link ≡ true → (21 ≤ s) × (s ≤ ceiling fast_link noon))
    × (has_network_measurement fast_link ≡ false → s ≡ 50)
score_network_status_range_example = score_network_status_range fast_link noon

score_monotone_example : score_network_status far noon ≤ℤ score_network_status near noon
unfolding has_network_measurement effective_bandwidth is_stale int_lt
score_monotone_example =
    score_monotone near far noon refl refl refl (omega arith) (omega arith) (omega arith)
      (omega arith)

slow_link_scores_more_example :
    score_network_status stream noon <ℤ score_network_status trickle noon
unfolding has_network_measurement effective_bandwidth is_stale int_lt
slow_link_scores_more_example =
    slow_link_scores_more trickle stream noon refl refl refl refl refl (omega arith) (omega arith)
      (omega arith) (omega arith)

normalize_heartbeat_network_lem_example :
    (measures beat ≡ true
      → ((normalize_heartbeat_network beat no_network noon).1 ≡ true)
        × IsTaken beat noon (normalize_heartbeat_network beat no_network noon).0
        × IsNonNegative (normalize_heartbeat_network beat no_network noon).0
        × (is_zero (normalize_heartbeat_network beat no_network noon).0.measured_at ≡ false)
        × ScoreIsCurrent (normalize_heartbeat_network beat no_network noon).0 noon)
    × (measures beat ≡ false
        → normalize_heartbeat_network beat no_network noon
          ≡ (refresh_network_status no_network noon, false))
normalize_heartbeat_network_lem_example = normalize_heartbeat_network_lem beat no_network noon refl

sanitize_id_lem_example :
    IsIdText (sanitize_id (str "-Node A/1_"))
    × StartsKept is_id_edge (sanitize_id (str "-Node A/1_"))
    × EndsKept is_id_edge (sanitize_id (str "-Node A/1_"))
    × (sanitize_id (sanitize_id (str "-Node A/1_")) ≡ sanitize_id (str "-Node A/1_"))
sanitize_id_lem_example = sanitize_id_lem (str "-Node A/1_")
