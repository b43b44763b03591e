-- ===== src/Run/DnsOps.antt =====
-- A DNS update keeps a state sound.
use frp_cluster.Base.{inl, inr, Bool, true, false}
use frp_cluster.Text.{Text}
use frp_cluster.Types.{Instant}
use frp_cluster.Store.{Env, Store}
use frp_cluster.Dns.{
  Hook, dns_event, updated_with, run_dns_update_for_node, update_dns_for_node, test_dns_update,
}
use frp_cluster.Dns.Update.{run_dns_update_for_node_lem}
use frp_cluster.Run.Sound.{IsSound, commit-IsSound, add_event-IsSound}

run_dns_update-IsSound :
    (hook : Hook) (client node : Text) (require_client : Bool) (event_type : Text) (start : Instant)
    (env : Env) (s : Store)
    → IsSound s.state
    → IsSound
        (run_dns_update_for_node hook client node require_client event_type start env s).1.state
unfolding dns_event
run_dns_update-IsSound hook client node require_client event_type start env s h =
    elim (run_dns_update_for_node_lem hook client node require_client event_type start env s) [
      | inl (path, req, output, allowed, ran, done) ↦ rw done (
          commit-IsSound (updated_with req output) _ env s
            (add_event-IsSound _ _ _ _ _ _ env.now s.state h.keyed h.samples))
      | inr (e, done, refused) ↦ rw done h
    ]

pub update_dns-IsSound :
    (hook : Hook) (client node : Text) (read : Instant) (env : Env) (s : Store)
    → IsSound s.state
    → IsSound (update_dns_for_node hook client node read env s).1.state
unfolding update_dns_for_node
update_dns-IsSound hook client node read env s h =
    run_dns_update-IsSound hook client node true _ read env s h

pub test_dns-IsSound :
    (hook : Hook) (client node : Text) (read : Instant) (env : Env) (s : Store)
    → IsSound s.state
    → IsSound (test_dns_update hook client node read env s).1.state
unfolding test_dns_update
test_dns-IsSound hook client node read env s h =
    run_dns_update-IsSound _ _ node false _ read env s h
