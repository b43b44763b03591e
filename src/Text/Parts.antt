-- ===== src/Text/Parts.antt =====
-- Cutting, splitting, joining and replacing in texts, as Go's `strings` package and the line
-- scanner of `bufio` do it, on the code points of a text.
use frp_cluster.Base.{
  ℕ, ◌+◌, ◌≡◌, refl, Bool, true, false, ◌&&◌, Option, none, some, inl, inr, List, [], ◌∷◌, ◌++◌,
  All, arith, ltb, ◌==◌, Bool-cases, if◌then◌else◌,
}

abbrev newline : ℕ
newline = b'\n'

-- `strings.HasPrefix(s, prefix)`
unfoldable pub has_prefix : List ℕ → List ℕ → Bool
has_prefix s [] = true
has_prefix [] (p ∷ ps) = false
has_prefix (c ∷ cs) (p ∷ ps) = let rest = has_prefix cs ps in if c == p then rest else false

-- `strings.ContainsRune`
unfoldable pub contains : List ℕ → ℕ → Bool
contains [] x = false
contains (c ∷ cs) x = let rest = contains cs x in if c == x then true else rest

-- `strings.ContainsAny(s, chars)`
unfoldable pub contains_any : List ℕ → List ℕ → Bool
unfolding contains
contains_any [] chars = false
contains_any (c ∷ cs) chars =
    let rest = contains_any cs chars in if contains chars c then true else rest

-- `strings.Cut(s, sep)` at a separator of one character: what is before it and behind it
before_cut : ℕ → Option (List ℕ × List ℕ) → Option (List ℕ × List ℕ)
before_cut c none = none
before_cut c (some (before, after)) = some (c ∷ before, after)

unfoldable pub cut : ℕ → List ℕ → Option (List ℕ × List ℕ)
unfolding before_cut
cut sep [] = none
cut sep (c ∷ cs) = let rest = cut sep cs in if c == sep then some ([], cs) else before_cut c rest

-- the same character in front of the first of some parts
unfoldable pub cons_head : ℕ → List (List ℕ) → List (List ℕ)
cons_head c [] = (c ∷ []) ∷ []
cons_head c (part ∷ parts) = (c ∷ part) ∷ parts

-- `strings.Split(s, sep)` at a separator of one character
unfoldable pub split : ℕ → List ℕ → List (List ℕ)
unfolding cons_head
split sep [] = [] ∷ []
split sep (c ∷ cs) = let rest = split sep cs in if c == sep then [] ∷ rest else cons_head c rest

-- `strings.Join(parts, sep)`
unfoldable pub join : List ℕ → List (List ℕ) → List ℕ
join sep [] = []
join sep (part ∷ []) = part
join sep (part ∷ next ∷ parts) = part ++ sep ++ join sep (next ∷ parts)

-- `strings.ReplaceAll` of one character
unfoldable pub replace_char : ℕ → List ℕ → List ℕ → List ℕ
replace_char old new [] = []
replace_char old new (c ∷ cs) =
    let rest = replace_char old new cs in if c == old then new ++ rest else c ∷ rest

-- `strings.ReplaceAll` of two characters, from the left
unfoldable pub replace_pair : ℕ → ℕ → List ℕ → List ℕ → List ℕ
replace_pair a b new [] = []
replace_pair a b new (c ∷ []) = c ∷ []
replace_pair a b new (c ∷ d ∷ cs) =
    let replaced = replace_pair a b new cs in
    let kept = replace_pair a b new (d ∷ cs) in
    if c == a && d == b then new ++ replaced else c ∷ kept

-- the lines that `bufio.Scanner` finds, each without its newline; a last line may lack one
unfoldable pub raw_lines : List ℕ → List (List ℕ)
unfolding cons_head
raw_lines [] = []
raw_lines (c ∷ cs) = let rest = raw_lines cs in if c == newline then [] ∷ rest else cons_head c rest

-- one carriage return at the end of a line is dropped
unfoldable pub drop_cr : List ℕ → List ℕ
drop_cr [] = []
drop_cr (c ∷ []) = if c == b'\r' then [] else c ∷ []
drop_cr (c ∷ d ∷ cs) = c ∷ drop_cr (d ∷ cs)

-- the bytes of a text in UTF-8, `len(s)`
unfoldable pub utf8_length : List ℕ → ℕ
utf8_length [] = 0
utf8_length (c ∷ cs) =
    (if ltb c 0x80 then 1 else if ltb c 0x800 then 2 else if ltb c 0x1_0000 then 3 else 4)
    + utf8_length cs

-- no character of the text is `x`
abbrev pub Lacks : ℕ → List ℕ → Type 0
Lacks x s = All (λ c. (c == x) ≡ false) s

pub raw_lines-line :
    (line rest : List ℕ)
    → Lacks newline line
    → raw_lines (line ++ newline ∷ rest) ≡ line ∷ raw_lines rest
unfolding raw_lines
raw_lines-line [] rest h = refl
raw_lines-line (c ∷ cs) rest h = rw (h.0, raw_lines-line cs rest h.1) refl

pub cut-first :
    (sep : ℕ) (before after : List ℕ)
    → Lacks sep before
    → cut sep (before ++ sep ∷ after) ≡ some (before, after)
unfolding cut
cut-first sep [] after h = ground arith
cut-first sep (c ∷ cs) after h = rw (h.0, cut-first sep cs after h.1) refl

pub split_none : (sep : ℕ) (s : List ℕ) → Lacks sep s → split sep s ≡ s ∷ []
unfolding split
split_none sep [] h = refl
split_none sep (c ∷ cs) h = rw (h.0, split_none sep cs h.1) refl

pub split-first :
    (sep : ℕ) (first rest : List ℕ)
    → Lacks sep first
    → split sep (first ++ sep ∷ rest) ≡ first ∷ split sep rest
unfolding split
split-first sep [] rest h = ground arith
split-first sep (c ∷ cs) rest h = rw (h.0, split-first sep cs rest h.1) refl

pub contains-Lacks : (x : ℕ) (s : List ℕ) → contains s x ≡ false → Lacks x s
unfolding contains
contains-Lacks x [] h = tt
contains-Lacks x (c ∷ cs) h = (ground (arith, h), contains-Lacks x cs (ground (arith, h)))

pub contains_any_none :
    (s chars : List ℕ) → contains_any s chars ≡ false → All (λ c. contains chars c ≡ false) s
unfolding contains_any
contains_any_none [] chars h = tt
contains_any_none (c ∷ cs) chars h = elim (Bool-cases (contains chars c)) [
  | inl e ↦ ground arith
  | inr e ↦ (e, contains_any_none cs chars (rw e at h))
]
