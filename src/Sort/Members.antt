-- ===== src/Sort/Members.antt =====
-- What sorting keeps of the members of a list.
use frp_cluster.Base.{◌≡◌, refl, Bool, inl, inr, List, [], ◌∷◌, arith, All, Bool-cases}
use frp_cluster.Text.{Text, text_in}
use frp_cluster.Sort.{insert, sort_by}

module _ {ℓ κ} {A : Type ℓ} (less : A → A → Bool) (P : A → Type κ) where
  All-insert : (x : A) (l : List A) → P x → All P l → All P (insert less x l)
  unfolding insert
  All-insert x [] h k = (h, tt)
  All-insert x (y ∷ ys) h k = elim (Bool-cases (less x y)) [
    | inl e ↦ rw e (h, k)
    | inr e ↦ rw e (k.0, All-insert x ys h k.1)
  ]

  pub All-sort_by : (l : List A) → All P l → All P (sort_by less l)
  unfolding sort_by
  All-sort_by [] h = tt
  All-sort_by (x ∷ xs) h = All-insert x (sort_by less xs) h.0 (All-sort_by xs h.1)

module _ (less : Text → Text → Bool) where
  text_in-insert : (k x : Text) (l : List Text) → text_in k (insert less x l) ≡ text_in k (x ∷ l)
  unfolding insert text_in
  text_in-insert k x [] = refl
  text_in-insert k x (y ∷ ys) = ground (arith, text_in-insert k x ys)

  pub text_in-sort_by : (k : Text) (l : List Text) → text_in k (sort_by less l) ≡ text_in k l
  unfolding sort_by text_in
  text_in-sort_by k [] = refl
  text_in-sort_by k (x ∷ xs) =
      ground (arith, text_in-insert k x (sort_by less xs), text_in-sort_by k xs)
