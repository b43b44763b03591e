-- ===== src/Migrations/Keeps.antt =====
-- What the migration pass never touches.
use frp_cluster.Base.{◌≡◌, refl, Option, none, some, List, [], ◌∷◌, ℤ, inl, inr, Bool-cases}
use frp_cluster.Text.{Text}
use frp_cluster.Dict.{Dict, get}
use frp_cluster.Types.{Instant, ServerNode, Client, ClusterState}
use frp_cluster.Selection.{online_nodes, sort_nodes_by_preference}
use frp_cluster.Migrations.{
  auto_migration_off, online_by_id, score_gap_or_default, migrate_clients, migrate_to_best,
  apply_migration_recommendations,
}
use frp_cluster.Migrations.Advice.{SameConnection, Advises, migrate_clients-Advises}
use frp_cluster.Migrations.Pass.{apply_when_on, apply_when_off}

-- a client is found after the pass where it was found before, with the same connection
abbrev pub StaysConnected : Option Client → Option Client → Type 0
StaysConnected none o' = o' ≡ none
StaysConnected (some c) o' = (c' : Client) × (o' ≡ some c') × SameConnection c' c

stays_same : (o : Option Client) → StaysConnected o o
stays_same none = refl
stays_same (some c) = (
  c,
  refl,
  record {
    id = refl;
    user = refl;
    status = refl;
    node_id = refl;
    remote_addr = refl;
    proxy_count = refl;
    first_seen_at = refl;
    last_seen_at = refl;
  },
)

advised_stays :
    (best : ServerNode) (online : Dict ServerNode) (gap : ℤ) (now : Instant) (o o' : Option Client)
    → Advises best online gap now o o'
    → StaysConnected o o'
advised_stays best online gap now none o' h = h
advised_stays best online gap now (some c) o' (c', e, advice) = (c', e, advice.same)

migrate_to_best-StaysConnected :
    (nodes : List ServerNode) (now : Instant) (state : ClusterState) (id : Text)
    → StaysConnected (get id state.clients) (get id (migrate_to_best nodes now state).clients)
unfolding migrate_to_best
migrate_to_best-StaysConnected [] now state id = stays_same (get id state.clients)
migrate_to_best-StaysConnected (best ∷ nodes) now state id =
    let online = online_by_id (best ∷ nodes) [] in
    let gap = score_gap_or_default state.config.migration_score_gap in
    advised_stays best online gap now (get id state.clients)
      (get id (migrate_clients best online gap now state.clients state.events).0)
      (migrate_clients-Advises best online gap now id state.clients state.events)

pub apply-StaysConnected :
    (now : Instant) (state : ClusterState) (id : Text)
    → StaysConnected
        (get id state.clients)
        (get id (apply_migration_recommendations now state).clients)
apply-StaysConnected now state id = elim (Bool-cases (auto_migration_off state.config)) [
  | inl off ↦ rw (apply_when_off now state off) (stays_same (get id state.clients))
  | inr on ↦ rw (apply_when_on now state on) (
      migrate_to_best-StaysConnected (sort_nodes_by_preference (online_nodes state.nodes now)) now
        state id)
]

-- the maps that the pass does not write
pub record SameMaps (a b : ClusterState) : Type 0 where
  pub nodes : a.nodes ≡ b.nodes
  pub proxies : a.proxies ≡ b.proxies
  pub tokens : a.tokens ≡ b.tokens
  pub config : a.config ≡ b.config
  pub switch_metrics : a.switch_metrics ≡ b.switch_metrics
  pub traffic_samples : a.traffic_samples ≡ b.traffic_samples

pub SameMaps-refl : (a : ClusterState) → SameMaps a a
SameMaps-refl a = record {
  nodes = refl;
  proxies = refl;
  tokens = refl;
  config = refl;
  switch_metrics = refl;
  traffic_samples = refl;
}

migrate_to_best-SameMaps :
    (nodes : List ServerNode) (now : Instant) (state : ClusterState)
    → SameMaps (migrate_to_best nodes now state) state
unfolding migrate_to_best
migrate_to_best-SameMaps [] now state = SameMaps-refl state
migrate_to_best-SameMaps (best ∷ nodes) now state = record {
  nodes = refl;
  proxies = refl;
  tokens = refl;
  config = refl;
  switch_metrics = refl;
  traffic_samples = refl;
}

pub apply-SameMaps :
    (now : Instant) (state : ClusterState)
    → SameMaps (apply_migration_recommendations now state) state
apply-SameMaps now state = elim (Bool-cases (auto_migration_off state.config)) [
  | inl off ↦ rw (apply_when_off now state off) (SameMaps-refl state)
  | inr on ↦
      rw (apply_when_on now state on) (
        migrate_to_best-SameMaps (sort_nodes_by_preference (online_nodes state.nodes now)) now
          state)
]
