-- ===== src/Ids/Sanitize.antt =====
-- sanitizeID returns an identifier: its own image, of identifier runes, with none of "-_." at
-- either end.
use frp_cluster.Base.{◌≡◌, refl, ap, ◌∙◌, false, inl, inr, true, [], ◌∷◌, arith, All, Bool-cases, ℕ}
use frp_cluster.Text.{
  Text, to_lower, lower, is_space, trim_space, trim_by, trim_by_idem, trim_by_none, All-trim_by,
  StartsKept, EndsKept, trim_by-StartsKept, trim_by-EndsKept,
}
use frp_cluster.Ids.{is_id_rune, is_id_edge, is_separator, id_runes, sanitize_id}

-- every rune is one that an identifier may hold
abbrev pub IsIdText : Text → Type 0
IsIdText s = All (λ c. is_id_rune c ≡ true) s

lower_id_rune : (c : ℕ) → is_id_rune c ≡ true → lower c ≡ c
unfolding is_id_rune lower
lower_id_rune c h = ground arith

space_id_rune : (c : ℕ) → is_id_rune c ≡ true → is_space c ≡ false
unfolding is_id_rune is_space
space_id_rune c h = ground arith

to_lower-id : (s : Text) → IsIdText s → to_lower s ≡ s
unfolding to_lower
to_lower-id [] h = refl
to_lower-id (c ∷ cs) h = cc (lower_id_rune c h.0, to_lower-id cs h.1)

no_spaces : (s : Text) → IsIdText s → All (λ c. is_space c ≡ false) s
no_spaces [] h = tt
no_spaces (c ∷ cs) h = (space_id_rune c h.0, no_spaces cs h.1)

id_runes-id : (s : Text) → IsIdText s → id_runes s ≡ s
unfolding id_runes
id_runes-id [] h = refl
id_runes-id (c ∷ cs) h = rw h.0 (ap (◌∷◌ c) (id_runes-id cs h.1))

id_runes-IsIdText : (s : Text) → IsIdText (id_runes s)
unfolding id_runes
id_runes-IsIdText [] = tt
id_runes-IsIdText (c ∷ cs) = elim (Bool-cases (is_id_rune c)) [
  | inl e ↦ rw e (e, id_runes-IsIdText cs)
  | inr e ↦ rw e (elim (Bool-cases (is_separator c)) [
    | inl d ↦ rw d (refl, id_runes-IsIdText cs)
    | inr d ↦ rw d (id_runes-IsIdText cs)
  ])
]

pub sanitize_id-IsIdText : (value : Text) → IsIdText (sanitize_id value)
unfolding sanitize_id
sanitize_id-IsIdText value =
    All-trim_by is_id_edge (λ c. is_id_rune c ≡ true) (id_runes (trim_space (to_lower value)))
      (id_runes-IsIdText (trim_space (to_lower value)))

-- A text of identifier runes is only trimmed.
pub sanitize_id-eq-trim : (s : Text) → IsIdText s → sanitize_id s ≡ trim_by is_id_edge s
unfolding sanitize_id trim_space
sanitize_id-eq-trim s h =
    rw (to_lower-id s h, trim_by_none is_space s (no_spaces s h), id_runes-id s h)

-- What sanitizeID returns is made of the letters a-z, the digits and "-_." only, has none of the
-- last three at either end, and is returned unchanged when it is sanitised again.
pub sanitize_id_lem :
    (value : Text)
    → IsIdText (sanitize_id value)
      × StartsKept is_id_edge (sanitize_id value)
      × EndsKept is_id_edge (sanitize_id value)
      × (sanitize_id (sanitize_id value) ≡ sanitize_id value)
unfolding sanitize_id
sanitize_id_lem value = (
  sanitize_id-IsIdText value,
  trim_by-StartsKept is_id_edge _,
  trim_by-EndsKept is_id_edge _,
  sanitize_id-eq-trim (sanitize_id value) (sanitize_id-IsIdText value) ∙ trim_by_idem is_id_edge _,
)
