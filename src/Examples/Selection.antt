-- ===== src/Examples/Selection.antt =====
-- Selections from a pair of nodes.
use mathlib.Core.List.{Mem, Perm, mem-cons_self, mem-cons, not-mem-nil}
use mathlib.Core.List.Perm
use mathlib.Core.Logic.Or
use mathlib.Core.Bool.{false≢true}
use frp_cluster.Selection.Modes.{number_given}
use frp_cluster.Base.{
  List, [], ap, arith, false, length, pos, refl, some, sym, ◌++◌, ◌∙◌, ◌∷◌, ◌≡◌, ◌≢◌,
}
use frp_cluster.Dict.{Dict, values}
use frp_cluster.Examples.{a_id, a_node, b_id, b_node, c_client, c_id, cluster, noon}
use frp_cluster.Requests.{ok}
use frp_cluster.Selection.{effective_limit, prefers, select_nodes_for_client, select_nodes_locked}
use frp_cluster.Selection.Modes.{failover_best, manual_target_wins}
use frp_cluster.Selection.Order.{IdsIdentify, ServerNode-set, select_nodes_order}
use frp_cluster.Sort.{IsSorted}
use frp_cluster.Text.{Text, text_eq, text_eq_iff}
use frp_cluster.Types.{
  Client, ServerNode, config_mode_failover, config_mode_single, migration_state_manual,
}

-- the same nodes in the other order
abbrev swapped : Dict ServerNode
swapped = (b_id, b_node) ∷ (a_id, a_node) ∷ []

abbrev pair : List ServerNode
pair = a_node ∷ b_node ∷ []

-- a client that an administrator has sent to the first node
abbrev sent : Client
sent = record c_client { preferred_node_id = a_id; migration_state = migration_state_manual }

by_case : (m n : ServerNode) → Mem n pair → (a_node ≡ n → m ≡ n) → (b_node ≡ n → m ≡ n) → m ≡ n
by_case m n h f g =
    Or.elim (ServerNode-set m n) (mem-cons.0 h) (λ e. f (sym e))
      λ h'.
        Or.elim (ServerNode-set m n) (mem-cons.0 h') (λ e. g (sym e))
          λ h''. absurd (not-mem-nil h'')

id_of : ServerNode → Text
id_of node = node.id

names_differ : a_node.id ≢ b_node.id
unfolding text_eq
names_differ e = false≢true ((text_eq_iff a_id b_id).1 e)

pair_identified : IdsIdentify (values cluster.nodes)
unfolding values id_of
pair_identified m n hm hn e =
    by_case m n hn
      (λ en. sym (
        by_case n m hm (λ em. sym en ∙ em)
          (λ em. absurd (names_differ (ap id_of en ∙ sym e ∙ sym (ap id_of em))))))
      (λ en. sym (
        by_case n m hm (λ em. absurd (names_differ (ap id_of em ∙ e ∙ sym (ap id_of en))))
          (λ em. sym en ∙ em)))

select_nodes_order_example :
    select_nodes_locked (record cluster { nodes = swapped }) c_id config_mode_single (pos 0) [] noon
    ≡ select_nodes_locked cluster c_id config_mode_single (pos 0) [] noon
unfolding values
select_nodes_order_example =
    select_nodes_order cluster swapped c_id config_mode_single (pos 0) [] noon pair_identified
      (Perm.swap _ _ _)

failover_best_example :
    (chosen rest : List ServerNode) × (select_nodes_for_client
        (a_node ∷ (b_node ∷ []))
        (some c_client)
        config_mode_failover
        (pos 2)
      ≡ ok chosen)
    × (length chosen ≡ number_given (pos 2) (length (a_node ∷ (b_node ∷ []))))
    × IsSorted prefers chosen
    × Perm (chosen ++ rest) (a_node ∷ (b_node ∷ []))
    × ((a b : ServerNode) → Mem a chosen → Mem b rest → prefers b a ≡ false)
failover_best_example =
    failover_best a_node (b_node ∷ []) (some c_client) (pos 2) (λ e. absurd (omega (arith, e)))

manual_target_wins_example :
    (n : ServerNode) × (n.id ≡ sent.preferred_node_id)
    × Mem n (a_node ∷ (b_node ∷ []))
    × (select_nodes_for_client (a_node ∷ (b_node ∷ [])) (some sent) config_mode_single (pos 1)
        ≡ ok (n ∷ []))
    × (effective_limit (pos 1) (length (a_node ∷ (b_node ∷ []))) ≡ 1
        → select_nodes_for_client (a_node ∷ (b_node ∷ [])) (some sent) config_mode_failover (pos 1)
          ≡ ok (n ∷ []))
manual_target_wins_example =
    manual_target_wins a_node (b_node ∷ []) sent a_node mem-cons_self refl (λ e. cc e) refl (pos 1)
