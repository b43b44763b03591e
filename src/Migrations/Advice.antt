-- ===== src/Migrations/Advice.antt =====
-- What the migration pass does to the clients, and that it settles at once.

use frp_cluster.Base.{
  ◌≡◌, refl, ap, Bool, true, false, not, ◌&&◌, ◌||◌, Option, none, some, List, [], ◌∷◌, ℤ, inl, inr,
  Bool-cases, arith,
}
use frp_cluster.Text.{Text, text_eq, text_eq_iff, text_eq_refl}
use frp_cluster.Dict.{Dict, get}
use frp_cluster.Types.{
  Instant, ServerNode, Client, Event, client_status_online, migration_state_pending,
}
use frp_cluster.Migrations.{
  should_migrate, migration_reason, recommend, is_new_advice, has_advice, withdraw, advise,
  migrate_client, migrate_clients,
}

-- the client and what it is connected to are as before: only the advice may differ
pub record SameConnection (a b : Client) : Type 0 where
  pub id : a.id ≡ b.id
  pub user : a.user ≡ b.user
  pub status : a.status ≡ b.status
  pub node_id : a.node_id ≡ b.node_id
  pub remote_addr : a.remote_addr ≡ b.remote_addr
  pub proxy_count : a.proxy_count ≡ b.proxy_count
  pub first_seen_at : a.first_seen_at ≡ b.first_seen_at
  pub last_seen_at : a.last_seen_at ≡ b.last_seen_at

-- the client's advice is to go to `target`, or there is none
abbrev pub IsAdvised : Bool → ServerNode → Client → Type 0
IsAdvised true best c =
    (c.preferred_node_id ≡ best.id) × (c.migration_state ≡ migration_state_pending)
IsAdvised false best c =
    (c.preferred_node_id ≡ []) × (c.migration_state ≡ []) × (c.migration_reason ≡ [])

-- the pass looks at this client
abbrev pub is_connected : Client → Bool
is_connected c = text_eq c.status client_status_online && not (text_eq c.node_id [])

module _ (best : ServerNode) (online : Dict ServerNode) (gap : ℤ) (now : Instant) where
  -- another run changes neither the client nor the log
  abbrev IsSettled : Client → Type 0
  IsSettled c = (events : List Event) → migrate_client best online gap now c events ≡ (c, events)

  advise-IsAdvised :
      (current : Option ServerNode) (c : Client) (events : List Event)
      → IsAdvised (should_migrate best current gap) best (advise best current gap now c events).0
  unfolding advise is_new_advice has_advice recommend withdraw
  advise-IsAdvised current c events = elim (Bool-cases (should_migrate best current gap)) [
    | inl move ↦ rw move (
        ground (
          arith,
          text_eq_iff c.preferred_node_id best.id,
          text_eq_iff c.migration_state migration_state_pending,
        ))
    | inr stay ↦ rw stay (
        ground (
          arith,
          text_eq_iff c.preferred_node_id [],
          text_eq_iff c.migration_state [],
          text_eq_iff c.migration_reason [],
        ))
  ]

  advice_given :
      (reason : Text) (c : Client) → is_new_advice best reason (recommend best reason now c) ≡ false
  unfolding is_new_advice recommend
  advice_given reason c =
      rw (text_eq_refl best.id, text_eq_refl migration_state_pending, text_eq_refl reason)

  advice_withdrawn : (c : Client) → has_advice (withdraw now c) ≡ false
  unfolding has_advice withdraw text_eq
  advice_withdrawn c = refl

  -- the test of the loop that skips a client
  abbrev skips : Client → Bool
  skips c = not (text_eq c.status client_status_online) || text_eq c.node_id []

  IsSettled-skip : (c : Client) → skips c ≡ true → IsSettled c
  unfolding migrate_client
  IsSettled-skip c h events = rw h

  IsSettled-move :
      (c : Client)
      → skips c ≡ false
      → should_migrate best (get c.node_id online) gap ≡ true
      → is_new_advice best (migration_reason best (get c.node_id online) c.node_id) c ≡ false
      → IsSettled c
  unfolding migrate_client advise
  IsSettled-move c h m n events = rw (h, m, n)

  IsSettled-stay :
      (c : Client)
      → skips c ≡ false
      → should_migrate best (get c.node_id online) gap ≡ false
      → has_advice c ≡ false
      → IsSettled c
  unfolding migrate_client advise
  IsSettled-stay c h m n events = rw (h, m, n)

  IsSettled-recommend :
      (c : Client)
      → skips c ≡ false
      → should_migrate best (get c.node_id online) gap ≡ true
      → IsSettled (recommend best (migration_reason best (get c.node_id online) c.node_id) now c)
  unfolding recommend
  IsSettled-recommend c h m =
      let reason = migration_reason best (get c.node_id online) c.node_id in
      IsSettled-move (recommend best reason now c) h m (advice_given reason c)

  IsSettled-withdraw :
      (c : Client)
      → skips c ≡ false
      → should_migrate best (get c.node_id online) gap ≡ false
      → IsSettled (withdraw now c)
  IsSettled-withdraw c h m =
      IsSettled-stay (withdraw now c) (unfold withdraw in h) (unfold withdraw in m)
        (advice_withdrawn c)

  migrate_client-IsSettled :
      (c : Client) (events : List Event) → IsSettled (migrate_client best online gap now c events).0
  unfolding migrate_client advise
  migrate_client-IsSettled c events = elim (Bool-cases (skips c)) [
    | inl idle ↦ rw idle (IsSettled-skip c idle)
    | inr active ↦ elim (Bool-cases (should_migrate best (get c.node_id online) gap)) [
      | inl move ↦
          let reason = migration_reason best (get c.node_id online) c.node_id in
          elim (Bool-cases (is_new_advice best reason c)) [
            | inl new ↦ rw (active, move, new) (IsSettled-recommend c active move)
            | inr old ↦ rw (active, move, old) (IsSettled-move c active move old)
          ]
      | inr stay ↦ elim (Bool-cases (has_advice c)) [
        | inl some_advice ↦ rw (active, stay, some_advice) (IsSettled-withdraw c active stay)
        | inr no_advice ↦ rw (active, stay, no_advice) (IsSettled-stay c active stay no_advice)
      ]
    ]
  ]

  -- another run over the clients of a first one changes nothing
  pub migrate_clients_again :
      (clients : Dict Client) (events more : List Event)
      → migrate_clients best online gap now
          (migrate_clients best online gap now clients events).0
          more
        ≡ ((migrate_clients best online gap now clients events).0, more)
  unfolding migrate_clients
  migrate_clients_again [] events more = refl
  migrate_clients_again ((id, c) ∷ m) events more =
      let (c', events') = migrate_client best online gap now c events in
      rw (migrate_client-IsSettled c events more, migrate_clients_again m events' more)

  migrate_client-SameConnection :
      (c : Client) (events : List Event)
      → SameConnection (migrate_client best online gap now c events).0 c
  unfolding migrate_client advise recommend withdraw
  migrate_client-SameConnection c events = ground arith

  migrate_client-idle :
      (c : Client) (events : List Event)
      → is_connected c ≡ false
      → migrate_client best online gap now c events ≡ (c, events)
  unfolding migrate_client
  migrate_client-idle c events h = ground arith

  migrate_client-connected :
      (c : Client) (events : List Event)
      → is_connected c ≡ true
      → migrate_client best online gap now c events
        ≡ advise best (get c.node_id online) gap now c events
  unfolding migrate_client
  migrate_client-connected c events h = ground arith

  -- what the pass may make of a client
  pub record IsAdvice (c c' : Client) : Type 0 where
    pub same : SameConnection c' c
    pub idle : is_connected c ≡ false → c' ≡ c
    pub connected :
        is_connected c ≡ true → IsAdvised (should_migrate best (get c.node_id online) gap) best c'

  migrate_client-IsAdvice :
      (c : Client) (events : List Event)
      → IsAdvice c (migrate_client best online gap now c events).0
  migrate_client-IsAdvice c events = record {
    same = migrate_client-SameConnection c events;
    idle = λ h. ap (λ (r : Client × List Event). r.0) (migrate_client-idle c events h);
    connected = λ h.
        rw (migrate_client-connected c events h) (advise-IsAdvised (get c.node_id online) c events);
  }

  -- what a lookup finds before and after the pass
  abbrev pub Advises : Option Client → Option Client → Type 0
  Advises none o' = o' ≡ none
  Advises (some c) o' = (c' : Client) × (o' ≡ some c') × IsAdvice c c'

  pub migrate_clients-Advises :
      (k : Text) (clients : Dict Client) (events : List Event)
      → Advises (get k clients) (get k (migrate_clients best online gap now clients events).0)
  unfolding migrate_clients get
  migrate_clients-Advises k [] events = refl
  migrate_clients-Advises k ((id, c) ∷ m) events =
      let (c', events') = migrate_client best online gap now c events in
      elim (Bool-cases (text_eq id k)) [
        | inl e ↦ rw e (c', refl, migrate_client-IsAdvice c events)
        | inr e ↦ rw e (migrate_clients-Advises k m events')
      ]
