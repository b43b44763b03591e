-- ===== src/Text/Trim.antt =====
-- Trimming the ends of a list by a test on its elements, as `strings.Trim` and its relatives do.
use frp_cluster.Base.{
  ◌≡◌, refl, ap, Bool, false, inl, inr, List, [], ◌∷◌, All, Bool-cases, if◌then◌else◌,
}

module _ {ℓ} {A : Type ℓ} (cut : A → Bool) where
  unfoldable pub trim_left_by : List A → List A
  trim_left_by [] = []
  trim_left_by (x ∷ xs) = let rest = trim_left_by xs in if cut x then rest else x ∷ xs

  keep_last : A → List A → List A
  keep_last x [] = if cut x then [] else x ∷ []
  keep_last x (y ∷ ys) = x ∷ y ∷ ys

  unfoldable pub trim_right_by : List A → List A
  unfolding keep_last
  trim_right_by [] = []
  trim_right_by (x ∷ xs) = keep_last x (trim_right_by xs)

  unfoldable pub trim_by : List A → List A
  unfolding trim_left_by trim_right_by
  trim_by l = trim_right_by (trim_left_by l)

  -- the first element is not to be cut
  abbrev pub StartsKept : List A → Type 0
  StartsKept [] = Unit
  StartsKept (x ∷ xs) = cut x ≡ false

  abbrev pub EndsKept : List A → Type 0
  EndsKept [] = Unit
  EndsKept (x ∷ []) = cut x ≡ false
  EndsKept (x ∷ y ∷ ys) = EndsKept (y ∷ ys)

  trim_left_by-StartsKept : (l : List A) → StartsKept (trim_left_by l)
  unfolding trim_left_by
  trim_left_by-StartsKept [] = tt
  trim_left_by-StartsKept (x ∷ xs) = elim (Bool-cases (cut x)) [
    | inl e ↦ rw e (trim_left_by-StartsKept xs)
    | inr e ↦ rw e e
  ]

  keep_last-EndsKept : (x : A) (l : List A) → EndsKept l → EndsKept (keep_last x l)
  unfolding keep_last
  keep_last-EndsKept x [] h = elim (Bool-cases (cut x)) [ inl e ↦ rw e tt | inr e ↦ rw e e ]
  keep_last-EndsKept x (y ∷ ys) h = h

  pub trim_right_by-EndsKept : (l : List A) → EndsKept (trim_right_by l)
  unfolding trim_right_by
  trim_right_by-EndsKept [] = tt
  trim_right_by-EndsKept (x ∷ xs) =
      keep_last-EndsKept x (trim_right_by xs) (trim_right_by-EndsKept xs)

  keep_last-StartsKept : (x : A) (l : List A) → cut x ≡ false → StartsKept (keep_last x l)
  unfolding keep_last
  keep_last-StartsKept x [] h = rw h h
  keep_last-StartsKept x (y ∷ ys) h = h

  trim_right_by-StartsKept : (l : List A) → StartsKept l → StartsKept (trim_right_by l)
  unfolding trim_right_by
  trim_right_by-StartsKept [] h = tt
  trim_right_by-StartsKept (x ∷ xs) h = keep_last-StartsKept x (trim_right_by xs) h

  pub trim_by-StartsKept : (l : List A) → StartsKept (trim_by l)
  unfolding trim_by
  trim_by-StartsKept l = trim_right_by-StartsKept (trim_left_by l) (trim_left_by-StartsKept l)

  pub trim_by-EndsKept : (l : List A) → EndsKept (trim_by l)
  unfolding trim_by
  trim_by-EndsKept l = trim_right_by-EndsKept (trim_left_by l)

  trim_left_by-eq : (l : List A) → StartsKept l → trim_left_by l ≡ l
  unfolding trim_left_by
  trim_left_by-eq [] h = refl
  trim_left_by-eq (x ∷ xs) h = rw h

  pub trim_right_by-eq : (l : List A) → EndsKept l → trim_right_by l ≡ l
  unfolding trim_right_by keep_last
  trim_right_by-eq [] h = refl
  trim_right_by-eq (x ∷ []) h = rw h
  trim_right_by-eq (x ∷ y ∷ ys) h = ap (keep_last x) (trim_right_by-eq (y ∷ ys) h)

  -- Nothing to cut at either end, nothing changes.
  pub trim_by-eq : (l : List A) → StartsKept l → EndsKept l → trim_by l ≡ l
  unfolding trim_by
  trim_by-eq l h k = rw (trim_left_by-eq l h) (trim_right_by-eq l k)

  pub trim_by_idem : (l : List A) → trim_by (trim_by l) ≡ trim_by l
  trim_by_idem l = trim_by-eq (trim_by l) (trim_by-StartsKept l) (trim_by-EndsKept l)

  StartsKept-All : (l : List A) → All (λ x. cut x ≡ false) l → StartsKept l
  StartsKept-All [] h = tt
  StartsKept-All (x ∷ xs) h = h.0

  EndsKept-All : (l : List A) → All (λ x. cut x ≡ false) l → EndsKept l
  EndsKept-All [] h = tt
  EndsKept-All (x ∷ []) h = h.0
  EndsKept-All (x ∷ y ∷ ys) h = EndsKept-All (y ∷ ys) h.1

  pub trim_by_none : (l : List A) → All (λ x. cut x ≡ false) l → trim_by l ≡ l
  trim_by_none l h = trim_by-eq l (StartsKept-All l h) (EndsKept-All l h)

module _ {ℓ κ} {A : Type ℓ} (cut : A → Bool) (P : A → Type κ) where
  All-trim_left_by : (l : List A) → All P l → All P (trim_left_by cut l)
  unfolding trim_left_by
  All-trim_left_by [] h = tt
  All-trim_left_by (x ∷ xs) h = elim (Bool-cases (cut x)) [
    | inl e ↦ rw e (All-trim_left_by xs h.1)
    | inr e ↦ rw e h
  ]

  All-keep_last : (x : A) (l : List A) → P x → All P l → All P (keep_last cut x l)
  unfolding keep_last
  All-keep_last x [] h k = elim (Bool-cases (cut x)) [ inl e ↦ rw e tt | inr e ↦ rw e (h, tt) ]
  All-keep_last x (y ∷ ys) h k = (h, k)

  pub All-trim_right_by : (l : List A) → All P l → All P (trim_right_by cut l)
  unfolding trim_right_by
  All-trim_right_by [] h = tt
  All-trim_right_by (x ∷ xs) h =
      All-keep_last x (trim_right_by cut xs) h.0 (All-trim_right_by xs h.1)

  pub All-trim_by : (l : List A) → All P l → All P (trim_by cut l)
  unfolding trim_by
  All-trim_by l h = All-trim_right_by (trim_left_by cut l) (All-trim_left_by l h)
