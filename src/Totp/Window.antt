-- ===== src/Totp/Window.antt =====
-- How long a code is accepted.
use frp_cluster.Base.{
  ℕ, ◌+◌, ◌-◌, ◌*◌, ◌/◌, ◌≤◌, ◌≡◌, refl, true, ◌||◌, some, List, [], arith, ℤ, pos, negsuc, ◌+ℤ◌,
  ◌⊎◌, inl, inr,
}
use frp_cluster.Text.{Text, text_eq_refl}
use frp_cluster.Types.{Instant, second}
use frp_cluster.Network.{int_div}
use frp_cluster.Events.{unix_epoch}
use frp_cluster.Totp.{
  Crypto, normalize_totp_secret, time_step, code_under, generate_totp, generate_totp_for_cli,
  is_code_of_step, verify_totp, big_endian, to_uint64,
}
use frp_cluster.Totp.Codes.{IsCode, IsPlain, truncated_code-IsCode, normalize_totp_secret_idem}

-- within 30 seconds, the step is the same or a neighbour
abbrev IsNear : ℤ → ℤ → Type 0
IsNear step counter = (step ≡ counter +ℤ negsuc 0) ⊎ ((step ≡ counter) ⊎ (step ≡ counter +ℤ pos 1))

time_step_eq :
    (t : Instant) → unix_epoch ≤ t → time_step t ≡ pos ((t / second - 62_135_596_800) / 30)
unfolding time_step int_div
time_step_eq t h = ground (arith, h)

IsNear-time_step :
    (t now : Instant)
    → unix_epoch ≤ t
    → unix_epoch ≤ now
    → t ≤ now + 30 * second
    → now ≤ t + 30 * second
    → IsNear (time_step t) (time_step now)
unfolding ◌+ℤ◌
IsNear-time_step t now ht hn late early =
    rw (time_step_eq t ht, time_step_eq now hn) (ground (arith, late, early, ht, hn))

module _ (crypto : Crypto) (secret : Text) (plain : IsPlain secret) where
  generate_totp-normalized :
      (counter : ℤ)
      → generate_totp crypto (normalize_totp_secret secret) counter
        ≡ generate_totp crypto secret counter
  unfolding generate_totp
  generate_totp-normalized counter = rw (normalize_totp_secret_idem secret plain) refl

  generate_totp-IsCode :
      (key : List ℕ) (counter : ℤ)
      → crypto.base32_decode (normalize_totp_secret secret) ≡ some key
      → IsCode (generate_totp crypto secret counter)
  unfolding generate_totp code_under
  generate_totp-IsCode key counter h =
      rw h (truncated_code-IsCode (crypto.hmac_sha1 key (big_endian 8 (to_uint64 counter) [])))

  is_code_of_own_step :
      (step counter : ℤ)
      → step ≡ counter
      → is_code_of_step crypto
          (normalize_totp_secret secret)
          (generate_totp crypto secret step)
          counter
        ≡ true
  unfolding is_code_of_step
  is_code_of_own_step step counter e =
      rw (e, generate_totp-normalized counter) (text_eq_refl (generate_totp crypto secret counter))

  any_step :
      (step counter : ℤ)
      → IsNear step counter
      → (is_code_of_step crypto
            (normalize_totp_secret secret)
            (generate_totp crypto secret step)
            (counter +ℤ negsuc 0)
          || is_code_of_step crypto
              (normalize_totp_secret secret)
              (generate_totp crypto secret step)
              counter
          || is_code_of_step crypto
              (normalize_totp_secret secret)
              (generate_totp crypto secret step)
              (counter +ℤ pos 1))
        ≡ true
  any_step step counter (inl e) = ground (arith, is_code_of_own_step step (counter +ℤ negsuc 0) e)
  any_step step counter (inr (inl e)) = ground (arith, is_code_of_own_step step counter e)
  any_step step counter (inr (inr e)) =
      ground (arith, is_code_of_own_step step (counter +ℤ pos 1) e)

  -- The code that the command line prints for a secret is accepted at every time that is at most
  -- 30 seconds before or after it. (Both times are after 1970; the secret decodes to a key and has
  -- no other white space than blanks.)
  pub verify_totp-generate_totp :
      (key : List ℕ) (t now : Instant)
      → crypto.base32_decode (normalize_totp_secret secret) ≡ some key
      → unix_epoch ≤ t
      → unix_epoch ≤ now
      → t ≤ now + 30 * second
      → now ≤ t + 30 * second
      → verify_totp crypto secret (generate_totp_for_cli crypto secret t) now ≡ true
  unfolding verify_totp generate_totp_for_cli
  verify_totp-generate_totp key t now h ht hn late early =
      let code = generate_totp-IsCode key (time_step t) h in
      rw
        (
          code.trimmed,
          code.six,
          code.digits,
          any_step (time_step t) (time_step now) (IsNear-time_step t now ht hn late early),
        )
        refl
