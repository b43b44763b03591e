-- ===== src/Plugin/Session.antt =====
-- A client's session, from its login to its logout, as the plugin hook reports it.

use frp_cluster.Base.{◌≡◌, refl, sym, ◌∙◌, Option, some, inl, inr, Bool-cases, if◌then◌else◌}
use frp_cluster.Text.{Text, str, text_eq, text_eq_iff, text_eq_refl}
use frp_cluster.Dict.{get, get-put, get-adjust}
use frp_cluster.Ids.{proxy_id}
use frp_cluster.Types.{
  Instant, Client, Proxy, ClusterState, client_status_online, proxy_status_online,
  proxy_status_closed,
}
use frp_cluster.Events.{add_event}
use frp_cluster.Clients.{upsert_client}
use frp_cluster.Plugin.{
  online_client, put_client, apply_login, proxy_or_new, open_proxy, apply_new_proxy, shut_proxy,
  close_found, apply_close_proxy, apply_logout, apply_op,
}
use frp_cluster.Content.{PluginEvent}
use frp_cluster.Run.Keys.{IsKeyed}
use frp_cluster.Run.PluginOps.{online_client-id}

-- The four kinds of report, by the words that announce them.
pub op_cases :
    (k node_id : Text) (event : PluginEvent) (now : Instant) (state : ClusterState)
    → (apply_op (str "newproxy") k node_id event now state
        ≡ apply_new_proxy k node_id event now state)
      × (apply_op (str "closeproxy") k node_id event now state
          ≡ apply_close_proxy k node_id event now state)
      × (apply_op (str "login") k node_id event now state
          ≡ apply_login (str "login") k node_id event now state)
      × (apply_op (str "logout") k node_id event now state ≡ apply_logout k node_id now state)
unfolding apply_op str text_eq
op_cases k node_id event now state = (refl, refl, refl, refl)

-- the proxy as a report of a new one leaves it
abbrev pub opened : Text → Text → PluginEvent → Instant → ClusterState → Proxy
opened k node_id event now state =
    let id = proxy_id node_id k event.proxy_name in
    open_proxy k node_id event now (proxy_or_new id now (get id state.proxies))

proxies-new :
    (k node_id j : Text) (event : PluginEvent) (now : Instant) (state : ClusterState)
    → IsKeyed state
    → get j (apply_new_proxy k node_id event now state).proxies ≡ (
        if text_eq (proxy_id node_id k event.proxy_name) j
        then some (opened k node_id event now state)
        else get j state.proxies)
unfolding apply_new_proxy add_event
proxies-new k node_id j event now state keyed =
    rw (online_client-id k node_id event now state keyed) (rw get-put refl)

proxies-close :
    (k node_id j : Text) (event : PluginEvent) (now : Instant) (state : ClusterState) (p : Proxy)
    → get (proxy_id node_id k event.proxy_name) state.proxies ≡ some p
    → get j (apply_close_proxy k node_id event now state).proxies ≡ (
        if text_eq (proxy_id node_id k event.proxy_name) j
        then some (shut_proxy now p)
        else get j state.proxies)
unfolding apply_close_proxy close_found add_event
proxies-close k node_id j event now state p found =
    elim (Bool-cases (text_eq (proxy_id node_id k event.proxy_name) j)) [
      | inl e ↦
          rw
            (
              found,
              get-adjust,
              e,
              sym ((text_eq_iff (proxy_id node_id k event.proxy_name) j).0 e),
              found,
            )
            refl
      | inr e ↦ rw (found, get-adjust, e) refl
    ]

-- the state after the report of a new proxy, and after the later report that it is closed
abbrev pub opened_state : Text → Text → PluginEvent → Instant → ClusterState → ClusterState
opened_state k node_id event opening state = apply_op (str "newproxy") k node_id event opening state

abbrev pub closed_state :
    Text → Text → PluginEvent → Instant → Instant → ClusterState → ClusterState
closed_state k node_id event opening closing state =
    apply_op (str "closeproxy") k node_id event closing (opened_state k node_id event opening state)

-- an online client of this identifier that is connected to the node
abbrev pub IsOnlineAt : Text → Text → Option Client → Type 0
IsOnlineAt k node_id o =
    (client : Client) × (o ≡ some client)
    × (client.status ≡ client_status_online)
    × (client.node_id ≡ node_id)
    × (client.id ≡ k)

client-new :
    (k node_id : Text) (event : PluginEvent) (now : Instant) (state : ClusterState)
    → IsKeyed state
    → IsOnlineAt k node_id (get k (apply_new_proxy k node_id event now state).clients)
unfolding apply_new_proxy add_event put_client online_client upsert_client
client-new k node_id event now state keyed =
    let client = online_client k node_id event now state in
    (
      client,
      rw (get-put, text_eq_refl k) refl,
      refl,
      refl,
      online_client-id k node_id event now state keyed,
    )

closing_step :
    (k node_id j : Text) (event : PluginEvent) (opening closing : Instant) (state : ClusterState)
    → IsKeyed state
    → get j
        (apply_close_proxy k node_id event closing
          (apply_new_proxy k node_id event opening state)).proxies
      ≡ (if text_eq (proxy_id node_id k event.proxy_name) j
          then some (shut_proxy closing (opened k node_id event opening state))
          else get j state.proxies)
closing_step k node_id j event opening closing state keyed =
    let id = proxy_id node_id k event.proxy_name in
    let after = apply_new_proxy k node_id event opening state in
    let here = proxies-new k node_id id event opening state keyed ∙ rw (text_eq_refl id) refl in
    proxies-close k node_id j event closing after (opened k node_id event opening state) here
    ∙ elim (Bool-cases (text_eq id j)) [
      | inl e ↦ rw e refl
      | inr e ↦ rw e (proxies-new k node_id j event opening state keyed ∙ rw e refl)
    ]

-- In a state whose maps are keyed by identifier: a report of a new proxy puts an online proxy of
-- the client and the node, with the reported port, under the proxy's identifier, and makes the
-- client an online one that is connected to the node; a later report that the proxy is closed
-- closes that proxy and changes nothing else of it; neither touches another proxy.
pub proxy_session :
    (k node_id : Text) (event : PluginEvent) (opening closing : Instant) (state : ClusterState)
    → IsKeyed state
    → ((j : Text)
        → get j (opened_state k node_id event opening state).proxies ≡ (
            if text_eq (proxy_id node_id k event.proxy_name) j
            then some (opened k node_id event opening state)
            else get j state.proxies))
      × ((opened k node_id event opening state).status ≡ proxy_status_online)
      × ((opened k node_id event opening state).client_id ≡ k)
      × ((opened k node_id event opening state).node_id ≡ node_id)
      × ((opened k node_id event opening state).remote_port ≡ event.remote_port)
      × IsOnlineAt k node_id (get k (opened_state k node_id event opening state).clients)
      × ((j : Text)
          → get j (closed_state k node_id event opening closing state).proxies ≡ (
              if text_eq (proxy_id node_id k event.proxy_name) j
              then some (record (opened k node_id event opening state) {
                status = proxy_status_closed;
                updated_at = closing;
              })
              else get j state.proxies))
unfolding open_proxy shut_proxy
proxy_session k node_id event opening closing state keyed =
    let id = proxy_id node_id k event.proxy_name in
    let after = apply_new_proxy k node_id event opening state in
    let new = λ (j : Text). proxies-new k node_id j event opening state keyed in
    rw
      (
        (op_cases k node_id event closing (opened_state k node_id event opening state)).1,
        (op_cases k node_id event opening state).0,
      )
      (
        new,
        refl,
        refl,
        refl,
        refl,
        client-new k node_id event opening state keyed,
        λ j. closing_step k node_id j event opening closing state keyed,
      )
