-- ===== src/Run/Keys.antt =====
-- Each entry of a map carries its key as its identifier.
use mathlib.Core.Option
use mathlib.Core.Option.{some-injective}
use frp_cluster.Base.{
  ◌≡◌, refl, ap, sym, ◌∙◌, Bool, true, false, Option, none, some, List, [], ◌∷◌, inl, inr,
  Bool-cases, if◌then◌else◌,
}
use frp_cluster.Text.{Text, text_eq, text_eq_iff}
use frp_cluster.Dict.{
  Dict, get, put, adjust, map_values, values, get-put, get-adjust, get-map_values,
}
use frp_cluster.Types.{Instant, ServerNode, Client, Proxy, ClusterState}
use frp_cluster.Counts.{
  clear_node, clear_client, add_client, add_proxy, add_client_proxy, count_clients,
  count_client_proxies, count_node_proxies, recompute_node_counts,
}
use frp_cluster.Migrations.{apply_migration_recommendations}
use frp_cluster.Migrations.Keeps.{StaysConnected, apply-StaysConnected, apply-SameMaps}

module _ {V : Type 0} (id_of : V → Text) where
  -- what is found under a key, if anything, carries it
  abbrev pub Carries : Text → Option V → Type 0
  Carries k none = Unit
  Carries k (some v) = id_of v ≡ k

  abbrev pub KeysAreIds : Dict V → Type 0
  KeysAreIds m = (k : Text) → Carries k (get k m)

  pub KeysAreIds-empty : KeysAreIds []
  unfolding get
  KeysAreIds-empty k = tt

  pub KeysAreIds-put :
      (k : Text) (v : V) (m : Dict V) → id_of v ≡ k → KeysAreIds m → KeysAreIds (put k v m)
  KeysAreIds-put k v m own h j = elim (Bool-cases (text_eq k j)) [
    | inl e ↦ rw (get-put, e) (own ∙ (text_eq_iff k j).0 e)
    | inr e ↦ rw (get-put, e) (h j)
  ]

  Carries-map :
      (f : V → V) (k : Text) (o : Option V)
      → ((v : V) → id_of (f v) ≡ id_of v)
      → Carries k o
      → Carries k (Option.map f o)
  Carries-map f k none keeps h = tt
  Carries-map f k (some v) keeps h = keeps v ∙ h

  pub KeysAreIds-adjust :
      (k : Text) (f : V → V) (m : Dict V)
      → ((v : V) → id_of (f v) ≡ id_of v)
      → KeysAreIds m
      → KeysAreIds (adjust k f m)
  KeysAreIds-adjust k f m keeps h j = elim (Bool-cases (text_eq k j)) [
    | inl e ↦ rw (get-adjust, e) (Carries-map f j (get j m) keeps (h j))
    | inr e ↦ rw (get-adjust, e) (h j)
  ]

  pub KeysAreIds-map_values :
      (f : V → V) (m : Dict V)
      → ((v : V) → id_of (f v) ≡ id_of v)
      → KeysAreIds m
      → KeysAreIds (map_values f m)
  KeysAreIds-map_values f m keeps h j = rw get-map_values (Carries-map f j (get j m) keeps (h j))

  -- an entry that is found carries its key
  pub found_id : (k : Text) (v : V) (o : Option V) → Carries k o → o ≡ some v → id_of v ≡ k
  found_id k v none h e = absurd (cc e)
  found_id k v (some w) h e = ap id_of (sym (some-injective w v e)) ∙ h

abbrev pub node_id_of : ServerNode → Text
node_id_of node = node.id

abbrev pub client_id_of : Client → Text
client_id_of client = client.id

abbrev pub proxy_id_of : Proxy → Text
proxy_id_of proxy = proxy.id

-- the maps of nodes, clients and proxies are keyed by identifier
pub record IsKeyed (state : ClusterState) : Type 0 where
  pub nodes : KeysAreIds node_id_of state.nodes
  pub clients : KeysAreIds client_id_of state.clients
  pub proxies : KeysAreIds proxy_id_of state.proxies

-- a change of one entry that is made or not
keys_if :
    {V : Type 0} (id_of : V → Text) (b : Bool) (k : Text) (f : V → V) (m : Dict V)
    → ((v : V) → id_of (f v) ≡ id_of v)
    → KeysAreIds id_of m
    → KeysAreIds id_of (if b then adjust k f m else m)
keys_if id_of true k f m keeps h = KeysAreIds-adjust id_of k f m keeps h
keys_if id_of false k f m keeps h = h

count_clients-keys :
    (clients : List Client) (nodes : Dict ServerNode)
    → KeysAreIds node_id_of nodes
    → KeysAreIds node_id_of (count_clients clients nodes)
unfolding count_clients add_client
count_clients-keys [] nodes h = h
count_clients-keys (c ∷ cs) nodes h =
    count_clients-keys cs _ (keys_if node_id_of _ c.node_id add_client nodes (λ v. refl) h)

count_node_proxies-keys :
    (proxies : List Proxy) (nodes : Dict ServerNode)
    → KeysAreIds node_id_of nodes
    → KeysAreIds node_id_of (count_node_proxies proxies nodes)
unfolding count_node_proxies add_proxy
count_node_proxies-keys [] nodes h = h
count_node_proxies-keys (p ∷ ps) nodes h =
    count_node_proxies-keys ps _ (keys_if node_id_of _ p.node_id add_proxy nodes (λ v. refl) h)

count_client_proxies-keys :
    (proxies : List Proxy) (clients : Dict Client)
    → KeysAreIds client_id_of clients
    → KeysAreIds client_id_of (count_client_proxies proxies clients)
unfolding count_client_proxies add_client_proxy
count_client_proxies-keys [] clients h = h
count_client_proxies-keys (p ∷ ps) clients h =
    count_client_proxies-keys ps _
      (keys_if client_id_of _ p.client_id add_client_proxy clients (λ v. refl) h)

pub recompute-IsKeyed :
    (state : ClusterState) → IsKeyed state → IsKeyed (recompute_node_counts state)
unfolding recompute_node_counts clear_node clear_client
recompute-IsKeyed state h = record {
  nodes = count_node_proxies-keys (values state.proxies) _ (
      count_clients-keys (values state.clients) _
        (KeysAreIds-map_values node_id_of clear_node state.nodes (λ v. refl) h.nodes));
  clients =
      count_client_proxies-keys (values state.proxies) _
        (KeysAreIds-map_values client_id_of clear_client state.clients (λ v. refl) h.clients);
  proxies = h.proxies;
}

Carries-stays :
    (k : Text) (o o' : Option Client)
    → StaysConnected o o'
    → Carries client_id_of k o
    → Carries client_id_of k o'
Carries-stays k none o' e h = rw e tt
Carries-stays k (some c) o' (c', e, same) h = rw e (same.id ∙ h)

pub apply-IsKeyed :
    (now : Instant) (state : ClusterState)
    → IsKeyed state
    → IsKeyed (apply_migration_recommendations now state)
apply-IsKeyed now state h = record {
  nodes = rw ((apply-SameMaps now state).nodes) h.nodes;
  clients = λ k.
      Carries-stays k (get k state.clients)
        (get k (apply_migration_recommendations now state).clients)
        (apply-StaysConnected now state k) (h.clients k);
  proxies = rw ((apply-SameMaps now state).proxies) h.proxies;
}
