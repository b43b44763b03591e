-- ===== src/Ids/Distinct.antt =====
-- The loop that drops empty and repeated values, against its specification.
use frp_cluster.Base.{◌≡◌, false, not, ◌&&◌, ◌||◌, inl, inr, List, [], ◌∷◌, map, arith, Bool-cases}
use frp_cluster.Text.{Text, text_eq, text_eq_iff, text_eq_refl, text_in, trim_space}
use frp_cluster.Ids.{distinct_values, clean_list}

-- each value occurs once
abbrev pub IsDistinct : List Text → Type 0
IsDistinct [] = Unit
IsDistinct (x ∷ xs) = (text_in x xs ≡ false) × IsDistinct xs

module _ (normalize : Text → Text) where
  -- the values that come out: the normalised ones that are not empty and were not seen before
  pub text_in-distinct_values :
      (x : Text) (seen vs : List Text)
      → text_in x (distinct_values normalize seen vs)
        ≡ (not (text_eq x []) && not (text_in x seen) && text_in x (map normalize vs))
  unfolding distinct_values text_in
  text_in-distinct_values x seen [] = ground arith
  text_in-distinct_values x seen (v ∷ vs) = ground (
    arith,
    text_eq_iff (normalize v) x,
    text_in-distinct_values x seen vs,
    text_in-distinct_values x (normalize v ∷ seen) vs,
  )

  seen_first :
      (x : Text) (seen vs : List Text)
      → (not (text_eq x []) && not (text_in x (x ∷ seen)) && text_in x (map normalize vs)) ≡ false
  unfolding text_in
  seen_first x seen vs = ground (arith, text_eq_refl x)

  pub distinct_values-IsDistinct :
      (seen vs : List Text) → IsDistinct (distinct_values normalize seen vs)
  unfolding distinct_values
  distinct_values-IsDistinct seen [] = tt
  distinct_values-IsDistinct seen (v ∷ vs) =
      elim (Bool-cases (text_eq (normalize v) [] || text_in (normalize v) seen)) [
        | inl e ↦ rw e (distinct_values-IsDistinct seen vs)
        | inr e ↦ rw e (fresh, distinct_values-IsDistinct (normalize v ∷ seen) vs)
      ]
    where
      fresh : text_in (normalize v) (distinct_values normalize (normalize v ∷ seen) vs) ≡ false
      fresh =
          rw (text_in-distinct_values (normalize v) (normalize v ∷ seen) vs)
            (seen_first (normalize v) seen vs)

-- cleanList returns each trimmed value that is not empty, once, and nothing else.
pub clean_list_lem :
    (values : List Text)
    → IsDistinct (clean_list values)
      × ((x : Text)
          → text_in x (clean_list values)
            ≡ (not (text_eq x []) && text_in x (map trim_space values)))
unfolding clean_list
clean_list_lem values = (
  distinct_values-IsDistinct trim_space [] values,
  λ x. rw (text_in-distinct_values trim_space x [] values) (unfold text_in in ground arith),
)
