-- ===== src/Examples/Config.antt =====
-- Changes of the configuration, and a merge.
use frp_cluster.Base.{All, Option, [], false, negsuc, none, refl, some, true, ◌∷◌, ◌≡◌, ◌≢◌}
use frp_cluster.Config.{
  ConfigUpdate, ControlPlaneOptions, is_negative_gap, update_config, with_config, with_state,
}
use frp_cluster.Config.Updates.{chosen_switch, update_config_lem, updated_config}
use frp_cluster.Counts.{recompute_node_counts}
use frp_cluster.Dict.{Dict, get}
use frp_cluster.Examples.{a_id, a_node, c_client, c_id, cluster, config, d_id, env, noon, store}
use frp_cluster.Ids.{distinct_values, merge_peer_urls, normalize_control_url, remove_peer_url}
use frp_cluster.Merge.{
  RemoteState, merge_clients, merge_config, merge_named_node, merge_node, merge_nodes,
  merge_proxies, merged_state, named_client, remote_node, without_self,
}
use frp_cluster.Merge.Newest.{AtLeast, Covered, client_id, client_updated, merge_newest}
use frp_cluster.Requests.{err, negative_score_gap, ok}
use frp_cluster.Sort.{sort_by}
use frp_cluster.Store.Saving.{Saves}
use frp_cluster.Text.{
  Text, is_space, text_eq, text_in, text_lt, trim_by, trim_left_by, trim_right_by, trim_slashes,
  trim_space,
}
use frp_cluster.Types.{Client, ClusterState}

-- the control plane's own address, and options that name it as a peer too
abbrev own_url : Text
own_url = b'u' ∷ []

abbrev options : ControlPlaneOptions
options = record {
  public_url = own_url;
  peer_urls = own_url ∷ a_id ∷ [];
  public_entry_host = [];
  dns_update_hook = [];
  auth_token = [];
}

url_given : normalize_control_url own_url ≢ []
unfolding normalize_control_url trim_slashes trim_space is_space trim_by trim_left_by trim_right_by
    text_eq
url_given e = cc e

abbrev update : ConfigUpdate
update = record {
  auto_migration = some false;
  migration_score_gap = some (negsuc 0);
  public_entry_host = none;
  dns_update_hook = none;
}

-- clients as a peer knows them: a newer version of the cluster's client, and a nil entry
abbrev peer_clients : Dict (Option Client)
peer_clients =
    (c_id, some (record c_client { updated_at = 63_900_000_000_000_000_009 })) ∷ (d_id, none) ∷ []

-- what a peer sends that knows a node under the store's own control URL
abbrev peer_state : RemoteState
peer_state = record {
  config = config;
  nodes = (a_id, some (record a_node { control_url = own_url })) ∷ [];
  clients = [];
  proxies = [];
  tokens = [];
  events = [];
  traffic_samples = [];
}

abbrev public_store : ClusterState
public_store = with_config (record config { public_control_url = own_url }) cluster

-- After the merge the store has its own control URL among its peers.
own_url_returns_test :
    (merged_state peer_state [] noon public_store).config.peer_urls ≡ own_url ∷ []
unfolding merged_state merge_config without_self merge_peer_urls distinct_values
    normalize_control_url trim_slashes trim_space is_space trim_by trim_left_by trim_right_by
    text_eq sort_by remove_peer_url merge_nodes merge_node merge_named_node remote_node
    recompute_node_counts with_config text_in text_lt
own_url_returns_test = refl

update_config_lem_example :
    (is_negative_gap update.migration_score_gap ≡ false
      → ((update_config update env store).1.state
          ≡ with_config (updated_config update store.state.config) store.state)
        × (Saves (update_config update env store).1.state env store
            → (update_config update env store).0 ≡ ok (updated_config update store.state.config)))
    × (is_negative_gap update.migration_score_gap ≡ true
        → ((update_config update env store).0 ≡ err negative_score_gap)
          × ((update_config update env store).1
              ≡ with_state
                  (with_config
                    (record store.state.config {
                      auto_migration =
                          chosen_switch update.auto_migration store.state.config.auto_migration;
                    })
                    store.state)
                  store))
update_config_lem_example = update_config_lem update env store

merge_newest_example :
    ((k : Text) (c : Client)
      → get k cluster.clients ≡ some c
      → AtLeast client_id client_updated named_client c.updated_at
          (get k (merge_clients peer_clients cluster.clients)))
    × All
        (Covered client_id client_updated named_client (merge_clients peer_clients cluster.clients))
        peer_clients
    × (merge_clients peer_clients (merge_clients peer_clients cluster.clients)
        ≡ merge_clients peer_clients cluster.clients)
    × (merge_proxies [] (merge_proxies [] cluster.proxies) ≡ merge_proxies [] cluster.proxies)
merge_newest_example = merge_newest peer_clients cluster.clients [] cluster.proxies
