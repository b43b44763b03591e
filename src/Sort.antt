-- ===== src/Sort.antt =====
-- Comparators as Go's `sort.Slice` takes them, a sort by one, and why the result is unique.
-- `sort.Slice` promises a rearrangement in which no element is less than an earlier one;
-- `sort_by` is one such, and `sort_by_unique` says when there is no other.
pub mod Members
use mathlib.Core.Logic.Or
use mathlib.Core.List.{
  Mem, Perm, Pairwise, Pairwise-singleton, mem-cons_self, mem-cons, forall_mem-cons,
}
use mathlib.Core.List.Pairwise
use mathlib.Core.List.Perm
use mathlib.Core.Path.{ap₂}
use frp_cluster.Base.{
  suc, ◌≡◌, refl, sym, length, Bool, true, false, inl, inr, List, [], ◌∷◌, arith, Bool-cases,
  if◌then◌else◌,
}

-- A strict weak order: what `sort.Slice` wants of its `less`.
pub record IsWeakOrder {ℓ} {A : Type ℓ} (less : A → A → Bool) : Type ℓ where
  pub asymm : (a b : A) → less a b ≡ true → less b a ≡ false
  pub trans : (a b c : A) → less b a ≡ false → less c b ≡ false → less c a ≡ false

pub Bool-eq_prop : {a b : Bool} → IsProp (a ≡ b)
Bool-eq_prop = hlevel

-- Compare by a key first, and by `rest` where the keys tie.
abbrev pub keyed {ℓ κ} :
    {A : Type ℓ} {K : Type κ} → (K → K → Bool) → (A → K) → (A → A → Bool) → A → A → Bool
keyed lt f rest a b = if lt (f a) (f b) then true else if lt (f b) (f a) then false else rest a b

module _ {ℓ κ} {A : Type ℓ} {K : Type κ} {lt : K → K → Bool} (f : A → K) {rest : A → A → Bool}
    (key : IsWeakOrder lt) (ties : IsWeakOrder rest) where
  keyed_asymm : (a b : A) → keyed lt f rest a b ≡ true → keyed lt f rest b a ≡ false
  keyed_asymm a b h = ground (arith, key.asymm (f a) (f b), ties.asymm a b)

  keyed_trans :
      (a b c : A)
      → keyed lt f rest b a ≡ false
      → keyed lt f rest c b ≡ false
      → keyed lt f rest c a ≡ false
  keyed_trans a b c h k = ground (
    arith,
    key.trans (f a) (f b) (f c),
    key.trans (f b) (f c) (f a),
    key.trans (f c) (f a) (f b),
    ties.trans a b c,
  )

  pub keyed-IsWeakOrder : IsWeakOrder (keyed lt f rest)
  keyed-IsWeakOrder = record { asymm = keyed_asymm; trans = keyed_trans }

module _ {ℓ} {A : Type ℓ} (less : A → A → Bool) where
  -- never less than an earlier one
  abbrev pub IsSorted : List A → Type ℓ
  IsSorted = Pairwise (λ a b. less b a ≡ false)

  -- no two different elements of `l` tie
  abbrev pub TiesAreEqual : List A → Type ℓ
  TiesAreEqual l = (a b : A) → Mem a l → Mem b l → less a b ≡ false → less b a ≡ false → a ≡ b

  insert : A → List A → List A
  insert x [] = x ∷ []
  insert x (y ∷ ys) = let rest = insert x ys in if less x y then x ∷ y ∷ ys else y ∷ rest

  unfoldable pub sort_by : List A → List A
  unfolding insert
  sort_by [] = []
  sort_by (x ∷ xs) = insert x (sort_by xs)

  insert-perm : (x : A) (l : List A) → Perm (insert x l) (x ∷ l)
  unfolding insert
  insert-perm x [] = Perm.rfl
  insert-perm x (y ∷ ys) = elim (Bool-cases (less x y)) [
    | inl e ↦ rw e Perm.rfl
    | inr e ↦ rw e (Perm.trans (Perm.cons y (insert-perm x ys)) (Perm.swap x y ys))
  ]

  length-insert : (x : A) (l : List A) → length (insert x l) ≡ suc (length l)
  unfolding insert
  length-insert x [] = refl
  length-insert x (y ∷ ys) = ground (arith, length-insert x ys)

  pub length-sort_by : (l : List A) → length (sort_by l) ≡ length l
  unfolding sort_by
  length-sort_by [] = refl
  length-sort_by (x ∷ xs) = omega (arith, length-insert x (sort_by xs), length-sort_by xs)

  pub sort_by-perm : (l : List A) → Perm (sort_by l) l
  unfolding sort_by
  sort_by-perm [] = Perm.rfl
  sort_by-perm (x ∷ xs) = Perm.trans (insert-perm x (sort_by xs)) (Perm.cons x (sort_by-perm xs))

module _ {ℓ} {A : Type ℓ} (less : A → A → Bool) (order : IsWeakOrder less) where
  -- what is not less than the head of a sorted list is not less than the rest
  below_all :
      {a b : A} {l : List A}
      → less b a ≡ false
      → IsSorted less (b ∷ l)
      → (x : A) → Mem x (b ∷ l)
      → less x a ≡ false
  below_all {a} {b} h (Pairwise.cons below _) =
      (forall_mem-cons (λ x. Bool-eq_prop)).1 (h, λ x m. order.trans a b x h (below x m))

  insert-IsSorted : (x : A) {l : List A} → IsSorted less l → IsSorted less (insert less x l)
  unfolding insert
  insert-IsSorted x Pairwise.nil = Pairwise-singleton _ x
  insert-IsSorted x (Pairwise.cons {a = y} {l = ys} below s) = elim (Bool-cases (less x y)) [
    | inl e ↦
        let whole = Pairwise.cons below s in
        rw e (Pairwise.cons (below_all (order.asymm x y e) whole) whole)
    | inr e ↦
        let first =
          (forall_mem-cons {p = λ z. less z y ≡ false} (λ z. Bool-eq_prop)).1 (e, below) in
        rw e (
          Pairwise.cons (λ z m. first z ((Perm.mem_iff (insert-perm less x ys)).0 m))
            (insert-IsSorted x s))
  ]

  pub sort_by-IsSorted : (l : List A) → IsSorted less (sort_by less l)
  unfolding sort_by
  sort_by-IsSorted [] = Pairwise.nil
  sort_by-IsSorted (x ∷ xs) = insert-IsSorted x (sort_by-IsSorted xs)

  heads_equal :
      {a b : A} {l r : List A}
      → TiesAreEqual less (a ∷ l)
      → IsSorted less (a ∷ l)
      → IsSorted less (b ∷ r)
      → Perm (b ∷ r) (a ∷ l)
      → a ≡ b
  heads_equal {a} {b} ties sl sr p =
      let b_in = (Perm.mem_iff p).0 mem-cons_self in
      let a_in = (Perm.mem_iff p).1 mem-cons_self in
      ties a b mem-cons_self b_in (below_all (irrefl b) sr a a_in) (below_all (irrefl a) sl b b_in)
    where
      irrefl : (x : A) → less x x ≡ false
      irrefl x = elim (Bool-cases (less x x)) [ inl e ↦ order.asymm x x e | inr e ↦ e ]

  sorted_unique :
      (l r : List A) → TiesAreEqual less l → IsSorted less l → IsSorted less r → Perm r l → l ≡ r
  sorted_unique [] r ties sl sr p = sym (Perm.eq-nil p)
  sorted_unique (a ∷ l) [] ties sl sr p = Perm.eq-nil (Perm.symm p)
  sorted_unique (a ∷ l) (b ∷ r) ties sl sr p =
      let e = heads_equal ties sl sr p in
      let tails = Perm.cons_inv (Perm.trans p (Perm.cons' e Perm.rfl)) in
      ap₂ ◌∷◌ e (
        sorted_unique l r (λ x y mx my. ties x y (mem-cons.1 (Or.inr mx)) (mem-cons.1 (Or.inr my)))
          (Pairwise.of_cons sl) (Pairwise.of_cons sr) tails)

  -- Where no two different elements tie, the order in which the elements come does not matter.
  pub sort_by_unique :
      (l r : List A) → TiesAreEqual less l → Perm r l → sort_by less r ≡ sort_by less l
  sort_by_unique l r ties p = sym (
      sorted_unique (sort_by less l) (sort_by less r)
        (λ x y mx my. ties x y (within mx) (within my)) (sort_by-IsSorted l) (sort_by-IsSorted r)
        (Perm.trans (sort_by-perm less r) (Perm.trans p (Perm.symm (sort_by-perm less l)))))
    where
      within : {x : A} → Mem x (sort_by less l) → Mem x l
      within m = (Perm.mem_iff (sort_by-perm less l)).0 m
