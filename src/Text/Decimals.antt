-- ===== src/Text/Decimals.antt =====
-- `strconv.Atoi` reads back what `%d` prints.
use frp_cluster.Base.{
  ℕ, zero, suc, ◌+◌, ◌-◌, ◌*◌, ◌/◌, ◌%◌, ◌<◌, ◌≡◌, ◌≢◌, refl, ◌∙◌, true, false, some, [], ◌∷◌,
  arith, inl, inr, pos, All, Bool-cases, length, ◌≤◌, ltb, ◌==◌,
}
use frp_cluster.Text.{Text, Lacks, decimal_from, decimal}
use frp_cluster.Text.{is_digit, scan, digits_value, signed_value, atoi}

abbrev pub IsDigits : Text → Type 0
IsDigits s = All (λ c. is_digit c ≡ true) s

scan_last : (n : ℕ) (out : Text) → scan ((b'0' + n % 10) ∷ out) (n / 10) ≡ scan out n
unfolding scan is_digit
scan_last n out =
    let same : n / 10 * 10 + (b'0' + n % 10 - b'0') ≡ n = omega arith in ground (arith, same)

scan-decimal_from :
    (fuel n : ℕ) (out : Text) → n < fuel → scan (decimal_from fuel n out) 0 ≡ scan out n
unfolding decimal_from
scan-decimal_from zero n out h = absurd (omega arith)
scan-decimal_from (suc fuel) n out h = elim (Bool-cases (ltb n 10)) [
  | inl e ↦ rw e (small e)
  | inr e ↦
      rw e
        (scan-decimal_from fuel (n / 10) ((b'0' + n % 10) ∷ out) (ground arith) ∙ scan_last n out)
]
  where
    small : ltb n 10 ≡ true → scan ((b'0' + n % 10) ∷ out) 0 ≡ scan out n
    small e =
        let none_before : n / 10 ≡ 0 = ground (arith, e) in rw (← none_before) (scan_last n out)

decimal_from-IsDigits :
    (fuel n : ℕ) (out : Text) → IsDigits out → IsDigits (decimal_from fuel n out)
unfolding decimal_from is_digit
decimal_from-IsDigits zero n out h = h
decimal_from-IsDigits (suc fuel) n out h = elim (Bool-cases (ltb n 10)) [
  | inl e ↦ rw e (ground arith, h)
  | inr e ↦ rw e (decimal_from-IsDigits fuel (n / 10) ((b'0' + n % 10) ∷ out) (ground arith, h))
]

decimal_from-ne-nil : (fuel n : ℕ) (out : Text) → out ≢ [] → decimal_from fuel n out ≢ []
unfolding decimal_from
decimal_from-ne-nil zero n out h = h
decimal_from-ne-nil (suc fuel) n out h = elim (Bool-cases (ltb n 10)) [
  | inl e ↦ rw e (cc)
  | inr e ↦ rw e (decimal_from-ne-nil fuel (n / 10) ((b'0' + n % 10) ∷ out) (cc))
]

pub decimal-IsDigits : (n : ℕ) → IsDigits (decimal n)
unfolding decimal
decimal-IsDigits n = decimal_from-IsDigits (suc n) n [] tt

decimal-ne-nil : (n : ℕ) → decimal n ≢ []
unfolding decimal decimal_from
decimal-ne-nil n = elim (Bool-cases (ltb n 10)) [
  | inl e ↦ rw e (cc)
  | inr e ↦ rw e (decimal_from-ne-nil n (n / 10) ((b'0' + n % 10) ∷ []) (cc))
]

-- no digit is `x`
pub IsDigits-Lacks : (x : ℕ) → is_digit x ≡ false → (s : Text) → IsDigits s → Lacks x s
unfolding is_digit
IsDigits-Lacks x h [] d = tt
IsDigits-Lacks x h (c ∷ cs) d = (ground (arith, h, d.0), IsDigits-Lacks x h cs d.1)

atoi_digits : (s : Text) → s ≢ [] → IsDigits s → atoi s ≡ signed_value false (scan s 0)
unfolding atoi digits_value is_digit
atoi_digits [] h d = absurd (h refl)
atoi_digits (c ∷ cs) h d =
    let no_minus : (c == b'-') ≡ false = ground (arith, d.0) in
    let no_plus : (c == b'+') ≡ false = ground (arith, d.0) in rw (no_minus, no_plus) refl

pub atoi-decimal : (n : ℕ) → n < 9_223_372_036_854_775_808 → atoi (decimal n) ≡ some (pos n)
unfolding scan
atoi-decimal n h = rw (atoi_digits (decimal n) (decimal-ne-nil n) (decimal-IsDigits n), value) read
  where
    value : scan (decimal n) 0 ≡ some n
    value = unfold decimal in scan-decimal_from (suc n) n [] (omega arith)

    read : signed_value false (some n) ≡ some (pos n)
    read = unfold signed_value in ground (arith, h)

-- 10 ^ (k + 1)
abbrev pub tens : ℕ → ℕ
tens zero = 10
tens (suc k) = 10 * tens k

length-decimal_from :
    (fuel n k : ℕ) (out : Text) → n < tens k → length (decimal_from fuel n out) ≤ suc k + length out
unfolding decimal_from
length-decimal_from zero n k out h = omega arith
length-decimal_from (suc fuel) n zero out h = ground (arith, h)
length-decimal_from (suc fuel) n (suc k) out h =
    ground (arith, h, length-decimal_from fuel (n / 10) k ((b'0' + n % 10) ∷ out))

-- a number below 10 ^ (k + 1) has at most k + 1 digits
pub length-decimal : (n k : ℕ) → n < tens k → length (decimal n) ≤ suc k
unfolding decimal
length-decimal n k h = omega (arith, length-decimal_from (suc n) n k [] h)
