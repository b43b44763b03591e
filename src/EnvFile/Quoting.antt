-- ===== src/EnvFile/Quoting.antt =====
-- What shellEnvValue writes is one trimmed line that unquoteEnvValue reads back.
use frp_cluster.Base.{
  ℕ, ◌≡◌, ◌≢◌, refl, ap, true, false, ◌⊎◌, inl, inr, [], ◌∷◌, ◌++◌, arith, All, All-append, ◌==◌,
  Bool-cases,
}
use frp_cluster.Text.{
  Text, text_eq, str, is_space, trim_space, trim_by-eq, trim_by-StartsKept, trim_by-EndsKept,
  StartsKept, EndsKept, contains, contains_any, contains_any_none, drop_cr, replace_char, Lacks,
}
use frp_cluster.EnvFile.{
  last_is, without_last, strip_quotes, unescape, unquote_env_value, shell_env_value, special,
}

-- A value that the file can hold: one line, without single quotes and without the three escapes
-- that the reader replaces, and with no white space around it unless it is quoted.
pub record IsEnvValue (value : Text) : Type 0 where
  pub one_line : Lacks b'\n' value
  pub no_quote : Lacks b'\'' value
  pub no_escape : unescape value ≡ value
  pub edges : (contains_any value special ≡ true) ⊎ (trim_space value ≡ value)

last_is-snoc : (q : ℕ) (s : Text) → last_is q (s ++ q ∷ []) ≡ true
unfolding last_is
last_is-snoc q [] = ground arith
last_is-snoc q (c ∷ []) = ground arith
last_is-snoc q (c ∷ d ∷ cs) = last_is-snoc q (d ∷ cs)

without_last-snoc : (q : ℕ) (s : Text) → without_last (s ++ q ∷ []) ≡ s
unfolding without_last
without_last-snoc q [] = refl
without_last-snoc q (c ∷ []) = refl
without_last-snoc q (c ∷ d ∷ cs) = ap (◌∷◌ c) (without_last-snoc q (d ∷ cs))

strip_quotes-quoted : (s : Text) → strip_quotes (b'\'' ∷ (s ++ b'\'' ∷ [])) ≡ s
unfolding strip_quotes
strip_quotes-quoted s = rw (last_is-snoc b'\'' s) (without_last-snoc b'\'' s)

no_special_quote :
    (c : ℕ) → contains special c ≡ false → (c == b'\'') ≡ false × ((c == b'"') ≡ false)
unfolding contains str
no_special_quote c h = ground arith

strip_quotes-plain : (s : Text) → All (λ c. contains special c ≡ false) s → strip_quotes s ≡ s
unfolding strip_quotes
strip_quotes-plain [] h = refl
strip_quotes-plain (c ∷ cs) h = rw ((no_special_quote c h.0).0, (no_special_quote c h.0).1) refl

replace_char_none : (x : ℕ) (new s : Text) → Lacks x s → replace_char x new s ≡ s
unfolding replace_char
replace_char_none x new [] h = refl
replace_char_none x new (c ∷ cs) h = rw h.0 (ap (◌∷◌ c) (replace_char_none x new cs h.1))

-- the three forms of a written value
abbrev quoted : Text → Text
quoted value = b'\'' ∷ (value ++ b'\'' ∷ [])

pub data Written (value : Text) : Text → Type 0 where
  in_quotes : Written value (quoted value)
  as_it_is :
      value ≢ []
      → contains_any value special ≡ false
      → trim_space value ≡ value
      → Written value value

pub shell_env_value-Written :
    (value : Text) → IsEnvValue value → Written value (shell_env_value value)
unfolding shell_env_value text_eq str
shell_env_value-Written [] h = in_quotes
shell_env_value-Written (c ∷ cs) h = elim (Bool-cases (contains_any (c ∷ cs) special)) [
  | inl e ↦ rw (e, replace_char_none b'\'' (str "'\\''") (c ∷ cs) h.no_quote) in_quotes
  | inr e ↦ rw e (as_it_is (cc) e (plain e h.edges))
]
  where
    plain :
        contains_any (c ∷ cs) special ≡ false
        → (contains_any (c ∷ cs) special ≡ true) ⊎ (trim_space (c ∷ cs) ≡ c ∷ cs)
        → trim_space (c ∷ cs) ≡ c ∷ cs
    plain e (inl t) = cc
    plain e (inr t) = t

EndsKept-snoc : (x : ℕ) (s : Text) → is_space x ≡ false → EndsKept is_space (s ++ x ∷ [])
EndsKept-snoc x [] h = h
EndsKept-snoc x (c ∷ []) h = h
EndsKept-snoc x (c ∷ d ∷ cs) h = EndsKept-snoc x (d ∷ cs) h

pub EndsKept-append : (s t : Text) → t ≢ [] → EndsKept is_space t → EndsKept is_space (s ++ t)
EndsKept-append [] t h k = k
EndsKept-append (c ∷ []) [] h k = absurd (h refl)
EndsKept-append (c ∷ []) (d ∷ ds) h k = k
EndsKept-append (c ∷ d ∷ cs) t h k = EndsKept-append (d ∷ cs) t h k

-- a text that trimming leaves as it is
pub trimmed_edges : (s : Text) → trim_space s ≡ s → StartsKept is_space s × EndsKept is_space s
unfolding trim_space
trimmed_edges s h = (rw h at (trim_by-StartsKept is_space s), rw h at (trim_by-EndsKept is_space s))

pub drop_cr-eq : (s : Text) → EndsKept is_space s → drop_cr s ≡ s
unfolding drop_cr is_space
drop_cr-eq [] h = refl
drop_cr-eq (c ∷ []) h = ground arith
drop_cr-eq (c ∷ d ∷ cs) h = ap (◌∷◌ c) (drop_cr-eq (d ∷ cs) h)

module _ {value : Text} where
  pub Written-ends : {w : Text} → Written value w → (w ≢ []) × EndsKept is_space w
  unfolding is_space
  Written-ends in_quotes = (cc, EndsKept-snoc b'\'' (b'\'' ∷ value) refl)
  Written-ends (as_it_is n e t) = (n, (trimmed_edges value t).1)

  pub Written-trimmed : {w : Text} → Written value w → trim_space w ≡ w
  unfolding trim_space is_space
  Written-trimmed in_quotes =
      trim_by-eq is_space (quoted value) refl (EndsKept-snoc b'\'' (b'\'' ∷ value) refl)
  Written-trimmed (as_it_is n e t) = t

  pub Written-one_line : {w : Text} → Lacks b'\n' value → Written value w → Lacks b'\n' w
  Written-one_line h in_quotes = (refl, All-append _ value (b'\'' ∷ []) h (refl, tt))
  Written-one_line h (as_it_is n e t) = h

  pub unquote-Written :
      {w : Text} → unescape value ≡ value → Written value w → unquote_env_value w ≡ value
  unfolding unquote_env_value
  unquote-Written h in_quotes = rw (strip_quotes-quoted value) h
  unquote-Written h (as_it_is n e t) =
      rw (strip_quotes-plain value (contains_any_none value special e)) h
