-- ===== src/Migrations/Condition.antt =====
-- When the migration pass finds that a client should leave its node.
use frp_cluster.Base.{
  All, ◌≡◌, ◌≢◌, refl, sym, subst, ◌∙◌, ◌↔◌, inl, inr, true, false, some, List, [], ◌∷◌, map, ℤ,
  pos, ◌+ℤ◌, ◌-ℤ◌, ◌≤ℤ◌, int_le, Bool-cases, if◌then◌else◌, arith,
}
use frp_cluster.Text.{Text, text_eq, text_eq_iff, text_in}
use frp_cluster.Dict.{Dict, get, put, get-put}
use frp_cluster.Types.{ServerNode}
use frp_cluster.Ids.Distinct.{IsDistinct}
use frp_cluster.Migrations.{online_by_id, should_migrate}

abbrev pub node_ids : List ServerNode → List Text
node_ids nodes = map (λ (node : ServerNode). node.id) nodes

-- a gap that is not positive gives way to 15
abbrev pub gap_of : ℤ → ℤ
gap_of gap = if int_le gap (pos 0) then pos 15 else gap

-- the node is another one than the best, and its score is at least by the gap less
abbrev pub Trails : ServerNode → ℤ → ServerNode → Type 0
Trails best gap own = (own.id ≢ best.id) × ((own.network.score +ℤ gap) ≤ℤ best.network.score)

-- Whichever online node has the identifier trails the best; there may be none.
abbrev pub ShouldLeave : List ServerNode → ServerNode → ℤ → Text → Type 0
ShouldLeave online best gap node_id =
    All (λ (own : ServerNode). own.id ≡ node_id → Trails best gap own) online

online_by_id-other :
    (k : Text) (nodes : List ServerNode) (m : Dict ServerNode)
    → text_in k (node_ids nodes) ≡ false
    → get k (online_by_id nodes m) ≡ get k m
unfolding online_by_id text_in
online_by_id-other k [] m h = refl
online_by_id-other k (node ∷ nodes) m h =
    let other : text_eq node.id k ≡ false = ground (arith, h) in
    online_by_id-other k nodes _ (ground (arith, h)) ∙ get-put node.id k node m ∙ rw other refl

lead_iff : (gap best own : ℤ) → (int_le gap (best -ℤ own) ≡ true) ↔ ((own +ℤ gap) ≤ℤ best)
unfolding int_le ◌+ℤ◌ ◌-ℤ◌
lead_iff gap best own = (λ h. ground (arith, h), λ h. ground (arith, h))

should_migrate-Trails :
    (best own : ServerNode) (gap : ℤ)
    → (should_migrate best (some own) gap ≡ true) ↔ Trails best gap own
unfolding should_migrate
should_migrate-Trails best own gap =
    let (leads, lead) = lead_iff gap best.network.score own.network.score in
    let (same, is_same) = text_eq_iff best.id own.id in
    (
      λ h. elim (Bool-cases (text_eq best.id own.id)) [
        | inl e ↦ absurd (cc (rw e at h))
        | inr e ↦ (λ f. cc (is_same (sym f), e), leads (rw e at h))
      ],
      λ t. elim (Bool-cases (text_eq best.id own.id)) [
        | inl e ↦ absurd (t.0 (sym (same e)))
        | inr e ↦ rw (e, lead t.1) refl
      ],
    )

module _ (best : ServerNode) (gap : ℤ) (k : Text) where
  leaves_if :
      (nodes : List ServerNode) (m : Dict ServerNode)
      → ShouldLeave nodes best gap k
      → should_migrate best (get k m) gap ≡ true
      → should_migrate best (get k (online_by_id nodes m)) gap ≡ true
  unfolding online_by_id
  leaves_if [] m h first = first
  leaves_if (node ∷ nodes) m h first =
      leaves_if nodes (put node.id node m) h.1 (elim (Bool-cases (text_eq node.id k)) [
        | inl e ↦
            rw (get-put, e)
              ((should_migrate-Trails best node gap).1 (h.0 ((text_eq_iff node.id k).0 e)))
        | inr e ↦ rw (get-put, e) first
      ])

  leaves_only_if :
      (nodes : List ServerNode) (m : Dict ServerNode)
      → IsDistinct (node_ids nodes)
      → should_migrate best (get k (online_by_id nodes m)) gap ≡ true
      → ShouldLeave nodes best gap k
  unfolding online_by_id
  leaves_only_if [] m d h = tt
  leaves_only_if (node ∷ nodes) m d h = (
    λ named. (should_migrate-Trails best node gap).0 (
        subst (λ o. should_migrate best o gap ≡ true)
          (online_by_id-other k nodes (put node.id node m)
              (subst (λ j. text_in j (node_ids nodes) ≡ false) named d.0)
            ∙ get-put node.id k node m
            ∙ rw ((text_eq_iff node.id k).1 named) refl)
          h),
    leaves_only_if nodes (put node.id node m) d.1 h,
  )

  -- the test of the pass, in words
  pub should_migrate-ShouldLeave :
      (nodes : List ServerNode)
      → IsDistinct (node_ids nodes)
      → (should_migrate best (get k (online_by_id nodes [])) gap ≡ true)
        ↔ ShouldLeave nodes best gap k
  should_migrate-ShouldLeave nodes d =
      (leaves_only_if nodes [] d, λ h. leaves_if nodes [] h (unfold get should_migrate in refl))
