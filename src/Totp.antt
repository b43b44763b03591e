-- ===== src/Totp.antt =====
-- One-time passwords: internal/control/totp.go. Base32 and HMAC-SHA1 are parameters.
pub mod Codes
pub mod Window
use frp_cluster.Base.{
  ℕ, zero, suc, ◌+◌, ◌-◌, ◌*◌, ◌/◌, ◌%◌, Bool, true, false, ◌&&◌, ◌||◌, Option, none, some, List,
  [], ◌∷◌, ℤ, pos, negsuc, sub_ℕ, ◌+ℤ◌, int_lt, ◌==◌, drop, if◌then◌else◌,
}
use frp_cluster.Text.{
  Text, text_eq, trim_space, trim_right_by, to_upper, replace_char, is_digit, utf8_length, decimal,
  atoi,
}
use frp_cluster.Types.{Instant, second}
use frp_cluster.Network.{int_div}
use frp_cluster.Events.{pad}

-- What is used of the packages of cryptography: decoding base32 without padding (`none` for an
-- error) and HMAC-SHA1 of a message under a key, bytes as numbers.
pub record Crypto : Type 0 where
  pub base32_decode : Text → Option (List ℕ)
  pub hmac_sha1 : List ℕ → List ℕ → List ℕ

unfoldable pub normalize_totp_secret : Text → Text
normalize_totp_secret secret =
    trim_right_by (λ c. c == b'=') (replace_char b' ' [] (to_upper (trim_space secret)))

-- `now.Unix() / 30`
unfoldable pub time_step : Instant → ℤ
time_step now = int_div (sub_ℕ (now / second) 62_135_596_800) 30

-- `uint64(x)`
unfoldable pub to_uint64 : ℤ → ℕ
to_uint64 (pos n) = n % 18_446_744_073_709_551_616
to_uint64 (negsuc n) = 18_446_744_073_709_551_615 - n % 18_446_744_073_709_551_616

-- `count` bytes, the highest first
unfoldable pub big_endian : ℕ → ℕ → List ℕ → List ℕ
big_endian zero n out = out
big_endian (suc count) n out = big_endian count (n / 256) ((n % 256) ∷ out)

-- the number of the first four bytes
unfoldable pub uint32 : List ℕ → ℕ
uint32 (a ∷ b ∷ c ∷ d ∷ rest) = ((a * 256 + b) * 256 + c) * 256 + d
uint32 short = 0

unfoldable last_byte : List ℕ → ℕ
last_byte [] = 0
last_byte (a ∷ []) = a
last_byte (a ∷ b ∷ rest) = last_byte (b ∷ rest)

-- Dynamic truncation to six digits. A sum has 20 bytes, so the four are always there.
unfoldable pub truncated_code : List ℕ → Text
unfolding last_byte uint32
truncated_code sum =
    let offset = last_byte sum % 16 in
    let value = uint32 (drop offset sum) % 2_147_483_648 in pad 6 (decimal (value % 1_000_000))

code_under : Crypto → Option (List ℕ) → ℤ → Text
unfolding truncated_code to_uint64 big_endian
code_under crypto none counter = []
code_under crypto (some key) counter =
    truncated_code (crypto.hmac_sha1 key (big_endian 8 (to_uint64 counter) []))

unfoldable pub generate_totp : Crypto → Text → ℤ → Text
unfolding code_under normalize_totp_secret
generate_totp crypto secret counter =
    code_under crypto (crypto.base32_decode (normalize_totp_secret secret)) counter

unfoldable pub generate_totp_for_cli : Crypto → Text → Instant → Text
unfolding generate_totp time_step
generate_totp_for_cli crypto secret now = generate_totp crypto secret (time_step now)

-- the loop over the runes
unfoldable pub all_digits : Text → Bool
all_digits [] = true
all_digits (c ∷ cs) = let rest = all_digits cs in if is_digit c then rest else false

unfoldable pub is_code_of_step : Crypto → Text → Text → ℤ → Bool
unfolding generate_totp
is_code_of_step crypto secret code counter = text_eq (generate_totp crypto secret counter) code

-- the step before, this one and the next
unfoldable pub verify_totp : Crypto → Text → Text → Instant → Bool
unfolding is_code_of_step all_digits normalize_totp_secret time_step
verify_totp crypto secret code now =
    let key = normalize_totp_secret secret in
    let trimmed = trim_space code in
    let counter = time_step now in
    (utf8_length trimmed == 6)
    && all_digits trimmed
    && (is_code_of_step crypto key trimmed (counter +ℤ negsuc 0)
        || is_code_of_step crypto key trimmed counter
        || is_code_of_step crypto key trimmed (counter +ℤ pos 1))

-- a code that was read, if it has at most six digits
unfoldable in_range : Option ℤ → Option ℤ
in_range none = none
in_range (some code) = if int_lt code (pos 0) || int_lt (pos 999_999) code then none else some code

unfoldable pub parse_totp_code : Text → Option ℤ
unfolding in_range
parse_totp_code value = in_range (atoi (trim_space value))
