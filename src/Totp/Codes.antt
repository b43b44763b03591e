-- ===== src/Totp/Codes.antt =====
-- A code that is generated has six digits, and a secret without other white space than blanks is
-- normalised once.
use frp_cluster.Base.{
  ℕ, zero, suc, ◌+◌, ◌-◌, ◌<◌, ◌≡◌, refl, ap, true, false, List, [], ◌∷◌, arith, inl, inr, All,
  length, Bool-cases, ◌==◌,
}
use frp_cluster.Text.{
  Text, is_space, trim_space, trim_by_none, trim_right_by, trim_right_by-eq, trim_right_by-EndsKept,
  All-trim_by, All-trim_right_by, to_upper, upper, replace_char, is_digit, utf8_length, decimal,
}
use frp_cluster.Text.Decimals.{IsDigits, decimal-IsDigits, length-decimal}
use frp_cluster.Events.{pad, zeros}
use frp_cluster.Totp.{truncated_code, normalize_totp_secret, all_digits}

zeros-IsDigits : (k : ℕ) (s : Text) → IsDigits s → IsDigits (zeros k s)
unfolding zeros is_digit
zeros-IsDigits zero s h = h
zeros-IsDigits (suc k) s h = (refl, zeros-IsDigits k s h)

length-zeros : (k : ℕ) (s : Text) → length (zeros k s) ≡ k + length s
unfolding zeros
length-zeros zero s = omega arith
length-zeros (suc k) s = omega (arith, length-zeros k s)

utf8_length-digits : (s : Text) → IsDigits s → utf8_length s ≡ length s
unfolding utf8_length is_digit
utf8_length-digits [] h = refl
utf8_length-digits (c ∷ cs) h = ground (arith, h.0, utf8_length-digits cs h.1)

digits-all_digits : (s : Text) → IsDigits s → all_digits s ≡ true
unfolding all_digits
digits-all_digits [] h = refl
digits-all_digits (c ∷ cs) h = rw (h.0, digits-all_digits cs h.1) refl

digits-no_space : (s : Text) → IsDigits s → All (λ c. is_space c ≡ false) s
unfolding is_digit is_space
digits-no_space [] h = tt
digits-no_space (c ∷ cs) h = (ground (arith, h.0), digits-no_space cs h.1)

-- six digits
pub record IsCode (s : Text) : Type 0 where
  pub six : (utf8_length s == 6) ≡ true
  pub digits : all_digits s ≡ true
  pub trimmed : trim_space s ≡ s

pad-IsCode : (n : ℕ) → n < 1_000_000 → IsCode (pad 6 (decimal n))
unfolding pad trim_space
pad-IsCode n h =
    let ok_digits = zeros-IsDigits (6 - length (decimal n)) (decimal n) (decimal-IsDigits n) in
    record {
      six = ground (
        arith,
        utf8_length-digits _ ok_digits,
        length-zeros (6 - length (decimal n)) (decimal n),
        length-decimal n 5 h,
      );
      digits = digits-all_digits _ ok_digits;
      trimmed = trim_by_none is_space _ (digits-no_space _ ok_digits);
    }

pub truncated_code-IsCode : (sum : List ℕ) → IsCode (truncated_code sum)
unfolding truncated_code
truncated_code-IsCode sum = pad-IsCode _ (omega arith)

-- the only white space is the blank
abbrev pub IsPlain : Text → Type 0
IsPlain s = All (λ c. is_space c ≡ true → c ≡ b' ') s

-- a character of a normalised secret
abbrev IsKept : ℕ → Type 0
IsKept c = (is_space c ≡ false) × (upper c ≡ c)

upper-IsKept :
    (c : ℕ) → (is_space c ≡ true → c ≡ b' ') → (upper c == b' ') ≡ false → IsKept (upper c)
unfolding upper is_space
upper-IsKept c h k = ground (arith, h, k)

compact-IsKept : (s : Text) → IsPlain s → All IsKept (replace_char b' ' [] (to_upper s))
unfolding replace_char to_upper
compact-IsKept [] h = tt
compact-IsKept (c ∷ cs) h = elim (Bool-cases (upper c == b' ')) [
  | inl e ↦ rw e (compact-IsKept cs h.1)
  | inr e ↦ rw e (upper-IsKept c h.0 e, compact-IsKept cs h.1)
]

IsKept-no_space : (s : Text) → All IsKept s → All (λ c. is_space c ≡ false) s
IsKept-no_space [] h = tt
IsKept-no_space (c ∷ cs) h = (h.0.0, IsKept-no_space cs h.1)

IsKept-compact : (s : Text) → All IsKept s → replace_char b' ' [] (to_upper s) ≡ s
unfolding replace_char to_upper is_space
IsKept-compact [] h = refl
IsKept-compact (c ∷ cs) h =
    let other : (c == b' ') ≡ false = ground (arith, h.0.0) in
    rw (h.0.1, other) (ap (◌∷◌ c) (IsKept-compact cs h.1))

pub normalize_totp_secret_idem :
    (s : Text)
    → IsPlain s
    → normalize_totp_secret (normalize_totp_secret s) ≡ normalize_totp_secret s
unfolding normalize_totp_secret
normalize_totp_secret_idem s h =
    rw (unchanged_trim, IsKept-compact once kept)
      (trim_right_by-eq _ once (trim_right_by-EndsKept _ _))
  where
    once : Text
    once = trim_right_by (λ c. c == b'=') (replace_char b' ' [] (to_upper (trim_space s)))

    kept : All IsKept once
    kept =
        All-trim_right_by _ IsKept _
          (compact-IsKept (trim_space s) (unfold trim_space in All-trim_by is_space _ s h))

    unchanged_trim : trim_space once ≡ once
    unchanged_trim = unfold trim_space in trim_by_none is_space once (IsKept-no_space once kept)
