-- ===== src/Selection/Modes.antt =====
-- What each mode gives: every candidate, the best few, or the pinned one.
use mathlib.Core.Path.{subst}
use mathlib.Core.List.{Mem, Perm, Pairwise-append}
use mathlib.Core.List.Perm
use frp_cluster.Base.{
  ℕ, ◌≡◌, ◌≢◌, refl, sym, ◌∙◌, ap, List, [], ◌∷◌, ◌++◌, ℤ, pos, Option, some, true, false, not,
  ◌&&◌, inl, inr, Option-cases, length, take, drop, take-append-drop, length-take, ltb, leb, int_le,
  int_lt, pos_part, if◌then◌else◌, int_eq, arith,
}
use frp_cluster.Sort.{
  Bool-eq_prop, IsSorted, sort_by, sort_by-perm, sort_by-IsSorted, length-sort_by,
}
use frp_cluster.Text.{text_eq, text_eq_iff, text_eq_refl, str}
use frp_cluster.Types.{
  ServerNode, Client, config_mode_single, config_mode_aggregate, config_mode_failover,
  migration_state_manual,
}
use frp_cluster.Requests.{ok}
use frp_cluster.Selection.{
  prefers, find_node, or_else, manual_target, pinned_node, pinned_or_first, effective_limit,
  select_by_mode, select_nodes_for_client, sort_nodes_by_preference,
}
use frp_cluster.Selection.Preference.{prefers-IsWeakOrder}
use frp_cluster.Selection.Chosen.{
  find_node-none, find_node-id, find_node-mem, effective_limit_range,
}

-- what is taken from a sorted list is sorted, and nothing of the rest comes before it
split-IsSorted :
    (k : ℕ) (l : List ServerNode)
    → IsSorted prefers l
    → IsSorted prefers (take k l)
      × ((a b : ServerNode) → Mem a (take k l) → Mem b (drop k l) → prefers b a ≡ false)
split-IsSorted k l s =
    let parts =
      (Pairwise-append (λ a b. Bool-eq_prop)).0
        (subst (IsSorted prefers) (sym (take-append-drop k l)) s) in
    (parts.0, λ a b ma mb. parts.2 a ma b mb)

failover_not_aggregate : text_eq config_mode_failover config_mode_aggregate ≡ false
unfolding text_eq str
failover_not_aggregate = refl

single_not_aggregate : text_eq config_mode_single config_mode_aggregate ≡ false
unfolding text_eq str
single_not_aggregate = refl

single_not_failover : text_eq config_mode_single config_mode_failover ≡ false
unfolding text_eq str
single_not_failover = refl

-- failover without a pin
failover_take :
    (l : List ServerNode) (client : Option Client) (limit : ℤ)
    → int_eq (pos (effective_limit limit (length l))) (pos 1) ≡ false
    → select_by_mode l client config_mode_failover limit
      ≡ ok (take (effective_limit limit (length l)) l)
unfolding select_by_mode pinned_or_first
failover_take l client limit h = rw (failover_not_aggregate, text_eq_refl config_mode_failover, h)

not_one : (n : ℕ) → n ≢ 1 → int_eq (pos n) (pos 1) ≡ false
unfolding int_eq
not_one n h = ground arith

-- the limit, if it is from 1 to n, and n otherwise
abbrev pub number_given : ℤ → ℕ → ℕ
number_given limit n =
    if ltb 0 (pos_part limit) && leb (pos_part limit) n then pos_part limit else n

number_given_lem : (limit : ℤ) (n : ℕ) → effective_limit limit n ≡ number_given limit n
unfolding effective_limit int_le int_lt
number_given_lem limit n = ground arith

-- Failover with a limit other than 1 (0, a negative one or one past the number of candidates
-- stands for that number) gives as many nodes as the limit says, the preferred ones first, and no
-- candidate that is left out is preferred to one that is given.
pub failover_best :
    (node : ServerNode) (nodes : List ServerNode) (client : Option Client) (limit : ℤ)
    → number_given limit (length (node ∷ nodes)) ≢ 1
    → (chosen rest : List ServerNode) × (select_nodes_for_client
          (node ∷ nodes)
          client
          config_mode_failover
          limit
        ≡ ok chosen)
      × (length chosen ≡ number_given limit (length (node ∷ nodes)))
      × IsSorted prefers chosen
      × Perm (chosen ++ rest) (node ∷ nodes)
      × ((a b : ServerNode) → Mem a chosen → Mem b rest → prefers b a ≡ false)
unfolding select_nodes_for_client sort_nodes_by_preference
failover_best node nodes client limit h =
    let sorted = sort_by prefers (node ∷ nodes) in
    let size = length-sort_by prefers (node ∷ nodes) in
    let k = effective_limit limit (length (node ∷ nodes)) in
    let same = number_given_lem limit (length (node ∷ nodes)) in
    let halves = split-IsSorted k sorted (sort_by-IsSorted prefers prefers-IsWeakOrder.0 _) in
    (
      take k sorted,
      drop k sorted,
      subst
          (λ n.
            select_by_mode sorted client config_mode_failover limit
            ≡ ok (take (effective_limit limit n) sorted))
          size (failover_take sorted client limit (rw size (not_one k (λ e. h (sym same ∙ e))))),
      omega (
        arith,
        length-take k sorted,
        same,
        size,
        effective_limit_range limit (length (node ∷ nodes)) (omega arith),
      ),
      halves.0,
      subst (λ l. Perm l (node ∷ nodes)) (sym (take-append-drop k sorted)) (sort_by-perm prefers _),
      halves.1,
    )

-- Aggregate gives every candidate, the preferred ones first.
pub aggregate_all :
    (node : ServerNode) (nodes : List ServerNode) (client : Option Client) (limit : ℤ)
    → (chosen : List ServerNode) × (select_nodes_for_client
          (node ∷ nodes)
          client
          config_mode_aggregate
          limit
        ≡ ok chosen)
      × Perm chosen (node ∷ nodes)
      × IsSorted prefers chosen
unfolding select_nodes_for_client sort_nodes_by_preference select_by_mode
aggregate_all node nodes client limit = (
  sort_by prefers (node ∷ nodes),
  rw (text_eq_refl config_mode_aggregate),
  sort_by-perm prefers _,
  sort_by-IsSorted prefers prefers-IsWeakOrder.0 _,
)

-- a target that an administrator chose and that is a candidate
module _ (node : ServerNode) (nodes : List ServerNode) (client : Client) (target : ServerNode)
    (candidate : Mem target (node ∷ nodes)) (named : target.id ≡ client.preferred_node_id)
    (given : client.preferred_node_id ≢ [])
    (by_hand : client.migration_state ≡ migration_state_manual) where
  guard_passes :
      (not (text_eq client.preferred_node_id [])
        && text_eq client.migration_state migration_state_manual)
      ≡ true
  guard_passes = ground (
    arith,
    text_eq_iff client.preferred_node_id [],
    text_eq_iff client.migration_state migration_state_manual,
    given,
    by_hand,
  )

  manual_found :
      (l : List ServerNode)
      → Mem target l
      → (n : ServerNode) × (manual_target l client ≡ some n)
        × (n.id ≡ client.preferred_node_id)
        × Mem n l
  unfolding manual_target
  manual_found l m = elim (Option-cases (find_node l client.preferred_node_id)) [
    | inl e ↦ absurd (find_node-none l client.preferred_node_id target e m named)
    | inr (n, e) ↦ (n, rw guard_passes e, find_node-id l _ e, find_node-mem l _ e)
  ]

  single_pinned :
      (l : List ServerNode) (limit : ℤ) (n : ServerNode)
      → manual_target l client ≡ some n
      → select_by_mode l (some client) config_mode_single limit ≡ ok (n ∷ [])
  unfolding select_by_mode pinned_node pinned_or_first or_else
  single_pinned l limit n h =
      rw (single_not_aggregate, single_not_failover, text_eq_refl config_mode_single, h)

  failover_pinned :
      (l : List ServerNode) (limit : ℤ) (n : ServerNode)
      → effective_limit limit (length l) ≡ 1
      → manual_target l client ≡ some n
      → select_by_mode l (some client) config_mode_failover limit ≡ ok (n ∷ [])
  unfolding select_by_mode pinned_node pinned_or_first or_else int_eq
  failover_pinned l limit n one h =
      rw (failover_not_aggregate, text_eq_refl config_mode_failover, one, h)

  -- A client with a manual target that is a candidate is given that node and no other, in single
  -- mode, and in failover mode where the limit comes to 1.
  pub manual_target_wins :
      (limit : ℤ)
      → (n : ServerNode) × (n.id ≡ client.preferred_node_id)
        × Mem n (node ∷ nodes)
        × (select_nodes_for_client (node ∷ nodes) (some client) config_mode_single limit
            ≡ ok (n ∷ []))
        × (effective_limit limit (length (node ∷ nodes)) ≡ 1
            → select_nodes_for_client (node ∷ nodes) (some client) config_mode_failover limit
              ≡ ok (n ∷ []))
  unfolding select_nodes_for_client sort_nodes_by_preference
  manual_target_wins limit =
      let sorted = sort_by prefers (node ∷ nodes) in
      let same = sort_by-perm prefers (node ∷ nodes) in
      let (n, found, id, m) = manual_found sorted ((Perm.mem_iff same).1 candidate) in
      (
        n,
        id,
        (Perm.mem_iff same).0 m,
        single_pinned sorted limit n found,
        λ one.
            failover_pinned sorted limit n
              (ap (effective_limit limit) (length-sort_by prefers (node ∷ nodes)) ∙ one) found,
      )
