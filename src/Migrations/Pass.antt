-- ===== src/Migrations/Pass.antt =====
-- The migration pass over a whole state.
use frp_cluster.Base.{
  ◌≡◌, ◌↔◌, ◌≢◌, subst, refl, ◌∙◌, true, false, some, List, [], ◌∷◌, ap, inl, inr, Bool, Bool-cases,
}
use frp_cluster.Text.{Text, str}
use frp_cluster.Dict.{get}
use frp_cluster.Types.{Instant, ServerNode, Client, ClusterState, migration_state_manual}
use frp_cluster.Selection.{online_nodes, sort_nodes_by_preference}
use frp_cluster.Migrations.{
  auto_migration_off, online_by_id, score_gap_or_default, should_migrate, migrate_clients,
  migrate_to_best, apply_migration_recommendations,
}
use frp_cluster.Ids.Distinct.{IsDistinct}
use frp_cluster.Migrations.Condition.{node_ids, gap_of, ShouldLeave, should_migrate-ShouldLeave}
use frp_cluster.Migrations.Advice.{
  SameConnection, IsAdvised, is_connected, Advises, migrate_clients_again, migrate_clients-Advises,
}

migrate_to_best_again :
    (nodes : List ServerNode) (now : Instant) (state : ClusterState)
    → migrate_to_best nodes now (migrate_to_best nodes now state) ≡ migrate_to_best nodes now state
unfolding migrate_to_best
migrate_to_best_again [] now state = refl
migrate_to_best_again (best ∷ nodes) now state =
    let (clients, events) =
      migrate_clients best (online_by_id (best ∷ nodes) [])
        (score_gap_or_default state.config.migration_score_gap) now state.clients state.events in
    rw (
      migrate_clients_again best (online_by_id (best ∷ nodes) [])
        (score_gap_or_default state.config.migration_score_gap) now state.clients state.events
        events)

nodes-migrate :
    (nodes : List ServerNode) (now : Instant) (state : ClusterState)
    → (migrate_to_best nodes now state).nodes ≡ state.nodes
unfolding migrate_to_best
nodes-migrate [] now state = refl
nodes-migrate (best ∷ nodes) now state = refl

config-migrate :
    (nodes : List ServerNode) (now : Instant) (state : ClusterState)
    → (migrate_to_best nodes now state).config ≡ state.config
unfolding migrate_to_best
config-migrate [] now state = refl
config-migrate (best ∷ nodes) now state = refl

pub apply_when_on :
    (now : Instant) (state : ClusterState)
    → auto_migration_off state.config ≡ false
    → apply_migration_recommendations now state
      ≡ migrate_to_best (sort_nodes_by_preference (online_nodes state.nodes now)) now state
unfolding apply_migration_recommendations
apply_when_on now state h = rw h

pub apply_when_off :
    (now : Instant) (state : ClusterState)
    → auto_migration_off state.config ≡ true
    → apply_migration_recommendations now state ≡ state
unfolding apply_migration_recommendations
apply_when_off now state h = rw h

pub nodes-apply :
    (now : Instant) (state : ClusterState)
    → (apply_migration_recommendations now state).nodes ≡ state.nodes
nodes-apply now state = elim (Bool-cases (auto_migration_off state.config)) [
  | inl off ↦ rw (apply_when_off now state off) refl
  | inr on ↦
      rw (apply_when_on now state on)
        (nodes-migrate (sort_nodes_by_preference (online_nodes state.nodes now)) now state)
]

-- The migration pass settles at once: a second pass at the same instant changes nothing in the
-- state, and so writes no event.
pub apply_migration_idem :
    (now : Instant) (state : ClusterState)
    → apply_migration_recommendations now (apply_migration_recommendations now state)
      ≡ apply_migration_recommendations now state
apply_migration_idem now state = elim (Bool-cases (auto_migration_off state.config)) [
  | inl off ↦ ap (apply_migration_recommendations now) (apply_when_off now state off)
  | inr on ↦
      let nodes = sort_nodes_by_preference (online_nodes state.nodes now) in
      rw (apply_when_on now state on) (
        apply_when_on now (migrate_to_best nodes now state)
          (ap auto_migration_off (config-migrate nodes now state) ∙ on)
        ∙ ap
            (λ m.
              migrate_to_best (sort_nodes_by_preference (online_nodes m now)) now
                (migrate_to_best nodes now state))
            (nodes-migrate nodes now state)
        ∙ migrate_to_best_again nodes now state)
]

module _ (now : Instant) (state : ClusterState) (best : ServerNode) (nodes : List ServerNode)
    (on : auto_migration_off state.config ≡ false)
    (sorted : sort_nodes_by_preference (online_nodes state.nodes now) ≡ best ∷ nodes) (id : Text)
    (client : Client) (found : get id state.clients ≡ some client) where
  -- the node that the client is connected to is not online, or it is another one than the best
  -- and the best leads it by the gap
  abbrev pub leaves : Bool
  leaves =
      should_migrate best (get client.node_id (online_by_id (best ∷ nodes) []))
        (score_gap_or_default state.config.migration_score_gap)

  pass-Advises :
      Advises best
        (online_by_id (best ∷ nodes) [])
        (score_gap_or_default state.config.migration_score_gap)
        now
        (get id state.clients)
        (get id (apply_migration_recommendations now state).clients)
  unfolding migrate_to_best
  pass-Advises =
      rw (apply_when_on now state on, sorted)
        (migrate_clients-Advises best (online_by_id (best ∷ nodes) [])
          (score_gap_or_default state.config.migration_score_gap) now id state.clients state.events)

  pass-IsAdvised :
      (client' : Client) × (get id (apply_migration_recommendations now state).clients
        ≡ some client')
      × SameConnection client' client
      × (is_connected client ≡ false → client' ≡ client)
      × (is_connected client ≡ true → IsAdvised leaves best client')
  pass-IsAdvised =
      let after = get id (apply_migration_recommendations now state).clients in
      let (client', here, advice) =
        subst
          (λ o.
            Advises best (online_by_id (best ∷ nodes) [])
              (score_gap_or_default state.config.migration_score_gap) now o after)
          found pass-Advises in
      (client', here, advice.same, advice.idle, advice.connected)

  leaves-ShouldLeave :
      IsDistinct (node_ids (best ∷ nodes))
      → (leaves ≡ true)
        ↔ ShouldLeave (best ∷ nodes) best (gap_of state.config.migration_score_gap) client.node_id
  unfolding score_gap_or_default
  leaves-ShouldLeave distinct =
      should_migrate-ShouldLeave best (gap_of state.config.migration_score_gap) client.node_id
        (best ∷ nodes) distinct

  -- After the pass, with automatic migration on and a best online node, a client that is not
  -- connected is as it was. One that is connected keeps everything but its advice: it is advised
  -- to go to the best node where no online node has the identifier of its own, or the one that has
  -- it is not the best and has a score that is at least by the gap (15, if none above 0 is
  -- configured) less; otherwise it has no advice, and no target of any kind. (The online nodes have
  -- different identifiers.)
  pub migration_pass_lem :
      IsDistinct (node_ids (best ∷ nodes))
      → (client' : Client) × (get id (apply_migration_recommendations now state).clients
          ≡ some client')
        × SameConnection client' client
        × (is_connected client ≡ false → client' ≡ client)
        × (is_connected client ≡ true
            → ShouldLeave
                (best ∷ nodes)
                best
                (gap_of state.config.migration_score_gap)
                client.node_id
            → IsAdvised true best client')
        × (is_connected client ≡ true
            → ¬ ShouldLeave
                (best ∷ nodes)
                best
                (gap_of state.config.migration_score_gap)
                client.node_id
            → IsAdvised false best client')
  migration_pass_lem distinct =
      let (client', here, same, idle, connected) = pass-IsAdvised in
      let (should, leave) = leaves-ShouldLeave distinct in
      (
        client',
        here,
        same,
        idle,
        λ c away. subst (λ b. IsAdvised b best client') (leave away) (connected c),
        λ c stays. subst (λ b. IsAdvised b best client') (stays_put should stays) (connected c),
      )
    where
      stays_put : {P : Type 0} → (leaves ≡ true → P) → ¬ P → leaves ≡ false
      stays_put should stays = elim (Bool-cases leaves) [
        | inl e ↦ absurd (stays (should e))
        | inr e ↦ e
      ]

  not_manual :
      (move : Bool) (c : Client)
      → IsAdvised move best c
      → c.migration_state ≢ migration_state_manual
  unfolding str
  not_manual true c h e = cc (h.1, e)
  not_manual false c h e = cc (h.1, e)

  -- With automatic migration on and a node online, no manual target outlives the pass: whatever
  -- target an administrator or the automatic switch has set for a connected client, the client's
  -- state is not "manual" afterwards.
  pub manual_target_is_lost :
      is_connected client ≡ true
      → (client' : Client) × (get id (apply_migration_recommendations now state).clients
          ≡ some client')
        × (client'.migration_state ≢ migration_state_manual)
  manual_target_is_lost h =
      let (client', here, same, idle, connected) = pass-IsAdvised in
      (client', here, not_manual leaves client' (connected h))
