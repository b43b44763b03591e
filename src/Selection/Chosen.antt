-- ===== src/Selection/Chosen.antt =====
-- What selectNodesForClient chooses.
use mathlib.Core.List.{Mem, mem-cons_self, mem-cons, not-mem-nil, Mem-prop}
use mathlib.Core.List.Perm
use mathlib.Core.Logic.Or
use mathlib.Core.HLevel.{⊥_prop}
use mathlib.Core.Path.{subst}
use mathlib.Core.Option.{some-injective}
use frp_cluster.Base.{
  ◌≡◌, ◌≢◌, ◌≤◌, ◌<◌, refl, sym, ap, ◌∙◌, List, [], ◌∷◌, ℤ, suc, zero, ℕ, Option, none, some, ◌||◌,
  true, false, inl, inr, Bool-cases, length, take, length-take, arith, Bool, if◌then◌else◌, int_le,
  int_lt,
}
use frp_cluster.Sort.{sort_by, sort_by-perm, length-sort_by}
use frp_cluster.Text.{Text, text_eq, text_eq_iff}
use frp_cluster.Types.{
  ServerNode, Client, config_mode_single, config_mode_aggregate, config_mode_failover,
}
use frp_cluster.Requests.{ok, ok-injective}
use frp_cluster.Selection.{
  prefers, find_node, or_else, manual_target, current_node, pinned_node, pinned_or_first,
  effective_limit, select_by_mode, select_nodes_for_client, sort_nodes_by_preference,
}

pub find_node-mem :
    (l : List ServerNode) (id : Text) {n : ServerNode} → find_node l id ≡ some n → Mem n l
unfolding find_node
find_node-mem [] id h = cc
find_node-mem (x ∷ xs) id {n} h = elim (Bool-cases (text_eq x.id id)) [
  | inl e ↦ subst (λ y. Mem y (x ∷ xs)) (some-injective x n (rw e at h)) mem-cons_self
  | inr e ↦ mem-cons.1 (Or.inr (find_node-mem xs id (rw e at h)))
]

take-mem : (k : ℕ) (l : List ServerNode) (n : ServerNode) → Mem n (take k l) → Mem n l
take-mem zero l n m = absurd (not-mem-nil m)
take-mem (suc k) [] n m = m
take-mem (suc k) (x ∷ xs) n m =
    Or.elim Mem-prop (mem-cons.0 m) (λ e. mem-cons.1 (Or.inl e))
      (λ t. mem-cons.1 (Or.inr (take-mem k xs n t)))

pub find_node-id :
    (l : List ServerNode) (id : Text) {n : ServerNode} → find_node l id ≡ some n → n.id ≡ id
unfolding find_node
find_node-id [] id h = cc
find_node-id (x ∷ xs) id {n} h = elim (Bool-cases (text_eq x.id id)) [
  | inl e ↦
      ap (λ (m : ServerNode). m.id) (sym (some-injective x n (rw e at h)))
      ∙ (text_eq_iff x.id id).0 e
  | inr e ↦ find_node-id xs id (rw e at h)
]

pub find_node-none :
    (l : List ServerNode) (id : Text) (n : ServerNode) → find_node l id ≡ none → Mem n l → n.id ≢ id
unfolding find_node
find_node-none [] id n h m e = absurd (not-mem-nil m)
find_node-none (x ∷ xs) id n h m e = elim (Bool-cases (text_eq x.id id)) [
  | inl t ↦ cc (rw t at h)
  | inr t ↦
      Or.elim ⊥_prop (mem-cons.0 m)
        (λ p. ground (arith, t, text_eq_iff x.id id, ap (λ (y : ServerNode). y.id) p, e))
        (λ r. find_node-none xs id n (rw t at h) r e)
]

if_some-mem :
    (b : Bool) (l : List ServerNode) (id : Text) {n : ServerNode}
    → (if b then find_node l id else none) ≡ some n
    → Mem n l
if_some-mem true l id h = find_node-mem l id h
if_some-mem false l id h = cc

or_else-mem :
    (a b : Option ServerNode) (l : List ServerNode) {n : ServerNode}
    → ((m : ServerNode) → a ≡ some m → Mem m l)
    → ((m : ServerNode) → b ≡ some m → Mem m l)
    → or_else a b ≡ some n
    → Mem n l
unfolding or_else
or_else-mem none b l {n} f g h = g n h
or_else-mem (some a) b l {n} f g h = f n h

manual_target-mem :
    (l : List ServerNode) (c : Client) (n : ServerNode) → manual_target l c ≡ some n → Mem n l
unfolding manual_target
manual_target-mem l c n h = if_some-mem _ l c.preferred_node_id h

current_node-mem :
    (l : List ServerNode) (c : Client) (fallback : Bool) (n : ServerNode)
    → current_node l c fallback ≡ some n
    → Mem n l
unfolding current_node
current_node-mem l c fallback n h = if_some-mem _ l c.node_id h

pinned_node-mem :
    (l : List ServerNode) (client : Option Client) (fallback : Bool) {n : ServerNode}
    → pinned_node l client fallback ≡ some n
    → Mem n l
unfolding pinned_node
pinned_node-mem l none fallback h = cc
pinned_node-mem l (some c) fallback h =
    or_else-mem (manual_target l c) (current_node l c fallback) l (manual_target-mem l c)
      (current_node-mem l c fallback) h

-- not empty, and part of `nodes`
abbrev pub IsChoiceOf : List ServerNode → List ServerNode → Type 0
IsChoiceOf nodes l = (0 < length l) × ((n : ServerNode) → Mem n l → Mem n nodes)

pinned_or_first-choice :
    (o : Option ServerNode) (l : List ServerNode) (k : ℕ)
    → ((n : ServerNode) → o ≡ some n → Mem n l)
    → 0 < k
    → 0 < length l
    → IsChoiceOf l (pinned_or_first o l k)
unfolding pinned_or_first
pinned_or_first-choice none l k h p q = (omega (arith, length-take k l), take-mem k l)
pinned_or_first-choice (some x) l k h p q = (
  omega arith,
  λ n m.
      Or.elim Mem-prop (mem-cons.0 m) (λ e. subst (λ y. Mem y l) (sym e) (h x refl))
        (λ r. absurd (not-mem-nil r)),
)

pub effective_limit_range :
    (limit : ℤ) (n : ℕ) → 0 < n → (0 < effective_limit limit n) × (effective_limit limit n ≤ n)
unfolding effective_limit int_le int_lt
effective_limit_range limit n h = ground arith

pinned_if-mem :
    (b : Bool) (l : List ServerNode) (client : Option Client) (n : ServerNode)
    → (if b then pinned_node l client true else none) ≡ some n
    → Mem n l
pinned_if-mem true l client n h = pinned_node-mem l client true h
pinned_if-mem false l client n h = cc

-- the result of a mode that the code knows
select_by_mode-choice :
    (l : List ServerNode) (client : Option Client) (mode : Text) (limit : ℤ) {r : List ServerNode}
    → 0 < length l
    → select_by_mode l client mode limit ≡ ok r
    → IsChoiceOf l r
unfolding select_by_mode
select_by_mode-choice l client mode limit q h =
    elim (Bool-cases (text_eq mode config_mode_aggregate)) [
      | inl ea ↦ subst (IsChoiceOf l) (ok-injective (rw ea at h)) (q, λ n m. m)
      | inr na ↦ elim (Bool-cases (text_eq mode config_mode_failover)) [
        | inl ef ↦ subst (IsChoiceOf l) (ok-injective (rw (na, ef) at h)) (
            pinned_or_first-choice _ l _ (pinned_if-mem _ l client)
              (effective_limit_range limit (length l) q).0 q)
        | inr nf ↦ elim (Bool-cases (text_eq mode config_mode_single || text_eq mode [])) [
          | inl es ↦
              subst (IsChoiceOf l) (ok-injective (rw (na, nf, es) at h))
                (pinned_or_first-choice _ l 1 (λ n. pinned_node-mem l client true) (omega arith) q)
          | inr ns ↦ cc (rw (na, nf, ns) at h)
        ]
      ]
    ]

-- Whatever the mode, the limit and the client's pin, a selection that succeeds is not empty, and
-- it holds candidates only.
pub select_nodes-IsChoiceOf :
    (nodes : List ServerNode) (client : Option Client) (mode : Text) (limit : ℤ)
    {r : List ServerNode}
    → select_nodes_for_client nodes client mode limit ≡ ok r
    → IsChoiceOf nodes r
unfolding select_nodes_for_client sort_nodes_by_preference
select_nodes-IsChoiceOf [] client mode limit h = cc
select_nodes-IsChoiceOf (x ∷ xs) client mode limit h =
    let chosen =
      select_by_mode-choice (sort_by prefers (x ∷ xs)) client mode limit
        (omega (arith, length-sort_by prefers (x ∷ xs))) h in
    (chosen.0, λ n m. (Perm.mem_iff (sort_by-perm prefers (x ∷ xs))).0 (chosen.1 n m))
