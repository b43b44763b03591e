-- ===== src/Selection/Order.antt =====
-- The nodes that a client is given do not depend on the order in which the map of nodes is run
-- through, as long as no two nodes have one identifier.
use mathlib.Core.Logic.{∥∥₁_elim}
use mathlib.Core.List.{Mem, Perm, exists_of_mem-map}
use mathlib.Core.List.Perm
use frp_cluster.Base.{
  ◌≡◌, refl, sym, ap, ◌∙◌, List, [], ◌∷◌, map, ℤ, Option, filter, filter-perm, mem_of_mem-filter,
  Bool,
}
use frp_cluster.Sort.{TiesAreEqual, sort_by_unique}
use frp_cluster.Text.{Text}
use frp_cluster.Dict.{Dict, values}
use frp_cluster.Types.{Instant, ServerNode, Client, ClusterState}
use frp_cluster.Selection.{
  online_nodes, refresh_node, prefers, sort_nodes_by_preference, filter_excluded_nodes,
  select_by_mode, select_nodes_for_client, select_nodes_locked,
}
use frp_cluster.Selection.Preference.{prefers-IsWeakOrder}

pub ServerNode-set : IsSet ServerNode
ServerNode-set = hlevel

-- of the nodes of a list, no two different ones have one identifier
abbrev pub IdsIdentify : List ServerNode → Type 0
IdsIdentify l = (a b : ServerNode) → Mem a l → Mem b l → a.id ≡ b.id → a ≡ b

IdsIdentify-ties : (l : List ServerNode) → IdsIdentify l → TiesAreEqual prefers l
IdsIdentify-ties l h a b ma mb p q = h a b ma mb (prefers-IsWeakOrder.1 a b p q)

IdsIdentify-map :
    (f : ServerNode → ServerNode) (keeps : (n : ServerNode) → (f n).id ≡ n.id) (l : List ServerNode)
    → IdsIdentify l
    → IdsIdentify (map f l)
IdsIdentify-map f keeps l h a b ma mb e =
    ∥∥₁_elim (exists_of_mem-map {f = f} ma) (ServerNode-set a b) λ (x, mx, ex).
      ∥∥₁_elim (exists_of_mem-map {f = f} mb) (ServerNode-set a b)
        λ (y, my, ey). sym ex ∙ ap f (h x y mx my (same_id x y ex ey)) ∙ ey
  where
    same_id : (x y : ServerNode) → f x ≡ a → f y ≡ b → x.id ≡ y.id
    same_id x y ex ey =
        cc (keeps x, keeps y, ap (λ (n : ServerNode). n.id) ex, ap (λ (n : ServerNode). n.id) ey)

IdsIdentify-filter :
    (p : ServerNode → Bool) (l : List ServerNode) → IdsIdentify l → IdsIdentify (filter p l)
IdsIdentify-filter p l h a b ma mb e = h a b (mem_of_mem-filter p ma) (mem_of_mem-filter p mb) e

id-refresh : (now : Instant) (n : ServerNode) → (refresh_node n now).id ≡ n.id
unfolding refresh_node
id-refresh now n = refl

sort_nodes_unique :
    (nodes nodes' : List ServerNode)
    → IdsIdentify nodes
    → Perm nodes' nodes
    → sort_nodes_by_preference nodes' ≡ sort_nodes_by_preference nodes
unfolding sort_nodes_by_preference
sort_nodes_unique nodes nodes' h p =
    sort_by_unique prefers prefers-IsWeakOrder.0 nodes nodes' (IdsIdentify-ties nodes h) p

select-perm :
    (nodes nodes' : List ServerNode) (client : Option Client) (mode : Text) (limit : ℤ)
    → IdsIdentify nodes
    → Perm nodes' nodes
    → select_nodes_for_client nodes' client mode limit
      ≡ select_nodes_for_client nodes client mode limit
unfolding select_nodes_for_client
select-perm [] [] client mode limit h p = refl
select-perm [] (b ∷ bs) client mode limit h p = cc (Perm.eq-nil p)
select-perm (a ∷ rest) [] client mode limit h p = cc (Perm.eq-nil (Perm.symm p))
select-perm (a ∷ rest) (b ∷ bs) client mode limit h p =
    ap (λ l. select_by_mode l client mode limit) (sort_nodes_unique (a ∷ rest) (b ∷ bs) h p)

-- Two states whose maps of nodes hold the same nodes in any two orders, and that agree on the
-- clients, give a client the same nodes, in the same order, or the same error, in every mode and
-- with every limit and exclusion. (No two different nodes of the map have one identifier.)
pub select_nodes_order :
    (state : ClusterState) (nodes : Dict ServerNode) (client_id mode : Text) (limit : ℤ)
    (ids : List Text) (now : Instant)
    → IdsIdentify (values state.nodes)
    → Perm (values nodes) (values state.nodes)
    → select_nodes_locked (record state { nodes = nodes }) client_id mode limit ids now
      ≡ select_nodes_locked state client_id mode limit ids now
unfolding select_nodes_locked online_nodes filter_excluded_nodes
select_nodes_order state nodes client_id mode limit ids now h p =
    select-perm _ _ _ mode limit
      (IdsIdentify-filter _ _ (IdsIdentify-map _ (id-refresh now) _ (IdsIdentify-filter _ _ h)))
      (filter-perm _ (Perm.map _ (filter-perm _ p)))
