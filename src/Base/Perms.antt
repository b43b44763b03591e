-- ===== src/Base/Perms.antt =====
-- Boolean filters, membership and rearrangement.
use mathlib.Core.Path.{◌≡◌, refl, subst}
use mathlib.Core.Bool.{Bool, true, false, false≢true}
use mathlib.Core.List
use mathlib.Core.List.{List, [], ◌∷◌, Mem, Perm, mem-filter}
use mathlib.Core.List.Perm
use native.Mathlib.Omega.{arith}
use frp_cluster.Base.Lists.{filter}

-- the decision of a Boolean test
abbrev holds : (b : Bool) → Dec (b ≡ true)
holds true = yes refl
holds false = no false≢true

module _ {ℓ} {A : Type ℓ} (p : A → Bool) where
  -- the library's filter, which takes decisions
  filter-eq : (l : List A) → filter p l ≡ List.filter (λ x. holds (p x)) l
  unfolding filter
  filter-eq [] = refl
  filter-eq (x ∷ xs) = ground (arith, filter-eq xs)

  pub mem_of_mem-filter : {x : A} {l : List A} → Mem x (filter p l) → Mem x l
  mem_of_mem-filter {x} {l} m =
      ((mem-filter (λ y. holds (p y))).0 (subst (Mem x) (filter-eq l) m)).0

  pub filter-perm : {l r : List A} → Perm l r → Perm (filter p l) (filter p r)
  filter-perm {l} {r} h = rw (filter-eq l, filter-eq r) (Perm.filter (λ x. holds (p x)) h)
