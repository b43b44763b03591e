-- ===== src/Clients/Metrics.antt =====
-- The monthly count of switches adds up.
use frp_cluster.Base.{
  ℕ, ◌≡◌, ◌<◌, ◌+◌, refl, Bool, true, false, Option, none, some, pos, inc64, arith,
}
use frp_cluster.Text.{Text, text_eq, text_eq_refl}
use frp_cluster.Dict.{get, get-put}
use frp_cluster.Types.{Instant, MonthlySwitch, ClusterState}
use frp_cluster.Events.{current_month}
use frp_cluster.Clients.{no_switches, count_switch, metric_or_new, record_switch}

-- `manual` switches by hand and `automatic` ones, and their sum as the count
abbrev pub Tallies : MonthlySwitch → ℕ → ℕ → Type 0
Tallies m manual automatic =
    (m.manual ≡ pos manual) × (m.automatic ≡ pos automatic) × (m.count ≡ pos (manual + automatic))

-- what is counted for a month, nothing where there is no entry
abbrev pub TalliesAt : Option MonthlySwitch → ℕ → ℕ → Type 0
TalliesAt none manual automatic = (manual ≡ 0) × (automatic ≡ 0)
TalliesAt (some m) manual automatic = Tallies m manual automatic

Tallies-or_new :
    (month : Text) (o : Option MonthlySwitch) (a b : ℕ)
    → TalliesAt o a b
    → Tallies (metric_or_new month o) a b
unfolding metric_or_new no_switches
Tallies-or_new month none a b h = rw (h.0, h.1) (refl, refl, refl)
Tallies-or_new month (some m) a b h = h

Tallies-count :
    (automatic : Bool) (now : Instant) (m : MonthlySwitch) (a b : ℕ)
    → a + b < 9_223_372_036_854_775_807
    → Tallies m a b
    → (automatic ≡ true → Tallies (count_switch automatic now m) a (b + 1))
      × (automatic ≡ false → Tallies (count_switch automatic now m) (a + 1) b)
unfolding count_switch inc64
Tallies-count true now m a b small h = ground (arith, h, small)
Tallies-count false now m a b small h = ground (arith, h, small)

-- Recording a switch adds one to the month's total and to the one of the two kinds that the switch
-- is of, so the total stays the sum of the manual and the automatic switches, also in the first
-- switch of a month; the other months keep their counts. (The total is below 2^63 - 1.)
pub record_switch_lem :
    (automatic : Bool) (now : Instant) (state : ClusterState) (a b : ℕ)
    → a + b < 9_223_372_036_854_775_807
    → TalliesAt (get (current_month now now) state.switch_metrics) a b
    → (automatic ≡ true
        → TalliesAt
            (get (current_month now now) (record_switch automatic now state).switch_metrics)
            a
            (b + 1))
      × (automatic ≡ false
          → TalliesAt
              (get (current_month now now) (record_switch automatic now state).switch_metrics)
              (a + 1)
              b)
      × ((month : Text)
          → text_eq (current_month now now) month ≡ false
          → get month (record_switch automatic now state).switch_metrics
            ≡ get month state.switch_metrics)
unfolding record_switch
record_switch_lem automatic now state a b small h =
    let month = current_month now now in
    let metric = metric_or_new month (get month state.switch_metrics) in
    let counted =
      Tallies-count automatic now metric a b small
        (Tallies-or_new month (get month state.switch_metrics) a b h) in
    rw
      (
        get-put month month (count_switch automatic now metric) state.switch_metrics,
        text_eq_refl month,
      )
      (counted.0, counted.1, λ other e. rw (get-put, e) refl)
