-- ===== src/Dns/Update.antt =====
-- When the hook is run, and for what.
use frp_cluster.Base.{
  ◌≡◌, ◌≢◌, refl, ◌⊎◌, inl, inr, Bool, true, false, ◌&&◌, ◌||◌, some, [], ◌++◌, arith, Bool-cases,
  Option-cases,
}
use frp_cluster.Text.{Text, str, text_eq, trim_space}
use frp_cluster.Dict.{get}
use frp_cluster.Ids.{sanitize_id}
use frp_cluster.Types.{Instant, ServerNode, ClusterState}
use frp_cluster.Requests.{Error, Result, ok, err, dns_hook_timed_out, dns_hook_failed}
use frp_cluster.Selection.{is_live}
use frp_cluster.Store.{Env, Store, commit}
use frp_cluster.Dns.{
  DnsUpdateRequest, DnsUpdateResult, Hook, hook_succeeds, hook_times_out, hook_fails, HookOutcome,
  is_missing, request_for_found, dns_update_request_for_node, updated_with, run_dns_update_hook,
  dns_event, finish_dns_update, run_dns_update, run_dns_update_for_node,
}

-- The hook may be run for this request: it points the configured host at the address of a node
-- that is known and live at `now`, by the configured hook, for a client that is known if it must be.
pub record IsAllowed (client_id node_id : Text) (require_client : Bool) (now : Instant)
    (state : ClusterState) (hook : Text) (req : DnsUpdateRequest) : Type 0 where
  pub node : ServerNode
  pub found : get node_id state.nodes ≡ some node
  pub live : is_live node now ≡ true
  pub client_known : (require_client && is_missing (get client_id state.clients)) ≡ false
  pub hook_is : trim_space state.config.dns_update_hook ≡ hook
  pub host_is : trim_space state.config.public_entry_host ≡ req.host
  pub hook_set : text_eq hook [] ≡ false
  pub host_set : text_eq req.host [] ≡ false
  pub target_is : node.public_addr ≡ req.target_ip
  pub node_is : node.id ≡ req.node_id
  pub client_is : client_id ≡ req.client_id

module _ (client_id node_id : Text) (require_client : Bool) (now : Instant)
    (state : ClusterState) where
  abbrev Wanted : Text × DnsUpdateRequest → Type 0
  Wanted (hook, req) = IsAllowed client_id node_id require_client now state hook req

  abbrev Sound : Result (Text × DnsUpdateRequest) → Type 0
  Sound (ok p) = Wanted p
  Sound (err e) = (hook : Text) (req : DnsUpdateRequest) → ¬ Wanted (hook, req)

  request-Sound : Sound (dns_update_request_for_node client_id node_id require_client now state)
  unfolding dns_update_request_for_node request_for_found
  request-Sound = elim (Option-cases (get node_id state.nodes)) [
    | inl e ↦ rw e (λ hook req a. cc (e, a.found))
    | inr (node, e) ↦
        rw e (elim (Bool-cases (require_client && is_missing (get client_id state.clients))) [
          | inl t ↦ rw t (λ hook req a. cc (t, a.client_known))
          | inr t ↦ rw t (elim (Bool-cases (is_live node now)) [
            | inr l ↦ rw l (λ hook req a. cc (e, l, a.found, a.live))
            | inl l ↦ rw l (elim (Bool-cases unset) [
              | inl u ↦ rw u (λ hook req a. unset_refuted u hook req a)
              | inr u ↦ rw u (record {
                node = node;
                found = e;
                live = l;
                client_known = t;
                hook_is = refl;
                host_is = refl;
                hook_set = ground (arith, u);
                host_set = ground (arith, u);
                target_is = refl;
                node_is = refl;
                client_is = refl;
              })
            ])
          ])
        ])
  ]
    where
      unset : Bool
      unset =
          text_eq (trim_space state.config.public_entry_host) []
          || text_eq (trim_space state.config.dns_update_hook) []

      unset_refuted : unset ≡ true → (hook : Text) (req : DnsUpdateRequest) → ¬ Wanted (hook, req)
      unset_refuted u hook req a = ground (arith, u, a.hook_is, a.host_is, a.hook_set, a.host_set)

  wanted_unique :
      (hook hook' : Text) (req req' : DnsUpdateRequest)
      → Wanted (hook, req)
      → Wanted (hook', req')
      → ◌≡◌ {A = Text × DnsUpdateRequest} (hook, req) (hook', req')
  wanted_unique hook hook' req req' a b =
      let same : a.node ≡ b.node = cc (a.found, b.found) in
      cc (
        same, a.hook_is, b.hook_is, a.host_is, b.host_is, a.target_is, b.target_is, a.node_is,
        b.node_is, a.client_is, b.client_is,
      )

  -- What became of the update: the hook succeeded on an allowed request, or nothing was changed
  -- and there is no allowed request on which it succeeds.
  abbrev pub Outcome : Hook → Text → Env → Store → Result DnsUpdateResult × Store → Type 0
  Outcome run event_type env s result =
      ((hook : Text) × (req : DnsUpdateRequest) × (output : Text) × IsAllowed client_id node_id
          require_client now state hook req
        × (run hook req ≡ hook_succeeds output)
        × (result
            ≡ commit (updated_with req output)
                (dns_event event_type hook req (updated_with req output) env.now s.state) env s))
      ⊎ ((e : Error) × (result ≡ (err e, s))
          × ((hook : Text) (req : DnsUpdateRequest) (output : Text)
              → IsAllowed client_id node_id require_client now state hook req
              → run hook req ≢ hook_succeeds output))

  hook-Outcome :
      (run : Hook) (event_type : Text) (env : Env) (s : Store) (hook : Text)
      (req : DnsUpdateRequest) (o : HookOutcome)
      → run hook req ≡ o
      → Wanted (hook, req)
      → Outcome run event_type env s
          (finish_dns_update (run_dns_update_hook o req) event_type hook req env s)
  unfolding finish_dns_update run_dns_update_hook
  hook-Outcome run event_type env s hook req (hook_succeeds output) e a =
      inl (hook, req, output, a, e, refl)
  hook-Outcome run event_type env s hook req (hook_times_out output) e a = inr (
    dns_hook_timed_out,
    refl,
    λ hook' req' output' b. cc (wanted_unique hook hook' req req' a b, e),
  )
  hook-Outcome run event_type env s hook req (hook_fails message output) e a = inr (
    dns_hook_failed (message ++ str ": " ++ trim_space output),
    refl,
    λ hook' req' output' b. cc (wanted_unique hook hook' req req' a b, e),
  )

  update-Outcome :
      (run : Hook) (event_type : Text) (env : Env) (s : Store)
      (r : Result (Text × DnsUpdateRequest))
      → Sound r
      → Outcome run event_type env s (run_dns_update r run event_type env s)
  unfolding run_dns_update
  update-Outcome run event_type env s (err e) h =
      inr (e, refl, λ hook req output a. absurd (h hook req a))
  update-Outcome run event_type env s (ok (hook, req)) h =
      hook-Outcome run event_type env s hook req (run hook req) refl h

-- A DNS update runs the hook only for a known and live node (and for a known client, if one is
-- needed), with the configured hook and host, which are both set, and with the address of that
-- node. If the hook succeeds, one event is written and the state is saved; in every other case,
-- the store is left as it was and the caller is given an error.
pub run_dns_update_for_node_lem :
    (run : Hook) (client node : Text) (require_client : Bool) (event_type : Text) (start : Instant)
    (env : Env) (s : Store)
    → Outcome
        (sanitize_id client)
        (sanitize_id node)
        require_client
        start
        s.state
        run
        event_type
        env
        s
        (run_dns_update_for_node run client node require_client event_type start env s)
unfolding run_dns_update_for_node
run_dns_update_for_node_lem run client node require_client event_type start env s =
    update-Outcome (sanitize_id client) (sanitize_id node) require_client start s.state run
      event_type env s _
      (request-Sound (sanitize_id client) (sanitize_id node) require_client start s.state)
