-- ===== src/Base/Ints.antt =====
-- Signed integers over the native numbers, the tests that the code makes on them and the
-- increment of a 64-bit counter.
use Prim.Native.Nat.{ℕ, zero, suc, ◌+◌, ◌-◌, ◌%◌, ◌≤◌, ◌<◌}
use mathlib.Core.Path.{◌≡◌, ap}
use mathlib.Core.Logic.{◌↔◌}
use mathlib.Core.Bool.{Bool, true}
use native.Mathlib.Omega.{arith}
use frp_cluster.Base.Tests.{ltb, leb, ◌==◌, if◌then◌else◌}

-- `negsuc n` is -(n + 1).
pub data ℤ : Type 0 where
  pos : ℕ → ℤ
  negsuc : ℕ → ℤ

abbrev pub pos_part : ℤ → ℕ
pos_part (pos n) = n
pos_part (negsuc n) = 0

abbrev pub neg_part : ℤ → ℕ
neg_part (pos n) = 0
neg_part (negsuc n) = suc n

-- a - b, as an integer.
abbrev pub sub_ℕ : ℕ → ℕ → ℤ
sub_ℕ a b = if leb b a then pos (a - b) else negsuc (b - a - 1)

infixl 65 ◌+ℤ◌ ◌-ℤ◌
infix 50 ◌≤ℤ◌ ◌<ℤ◌
unfoldable pub ◌+ℤ◌ : ℤ → ℤ → ℤ
a +ℤ b = sub_ℕ (pos_part a + pos_part b) (neg_part a + neg_part b)

unfoldable pub ◌-ℤ◌ : ℤ → ℤ → ℤ
a -ℤ b = sub_ℕ (pos_part a + neg_part b) (neg_part a + pos_part b)

abbrev pub ◌≤ℤ◌ : ℤ → ℤ → Type 0
a ≤ℤ b = pos_part a + neg_part b ≤ pos_part b + neg_part a

abbrev pub ◌<ℤ◌ : ℤ → ℤ → Type 0
a <ℤ b = pos_part a + neg_part b < pos_part b + neg_part a

-- `a < b`, `a <= b` and `a == b` on Go's signed integers
unfoldable pub int_lt : ℤ → ℤ → Bool
int_lt a b = ltb (pos_part a + neg_part b) (pos_part b + neg_part a)

unfoldable pub int_le : ℤ → ℤ → Bool
int_le a b = leb (pos_part a + neg_part b) (pos_part b + neg_part a)

unfoldable pub int_eq : ℤ → ℤ → Bool
int_eq a b = (pos_part a + neg_part b) == (pos_part b + neg_part a)

pub int_eq_iff : (a b : ℤ) → (int_eq a b ≡ true) ↔ (a ≡ b)
unfolding int_eq
int_eq_iff a b = ground arith

-- `x++` on an `int64`: the largest value goes round to the least one
unfoldable pub inc64 : ℤ → ℤ
inc64 (pos n) = if n == 9223372036854775807 then negsuc 9223372036854775807 else pos (suc n)
inc64 (negsuc zero) = pos 0
inc64 (negsuc (suc n)) = negsuc n

-- an integer of at most 2^64 in size, brought round into the range of an `int64`
unfoldable pub wrap64 : ℤ → ℤ
wrap64 x =
    sub_ℕ ((pos_part x + 27_670_116_110_564_327_424 - neg_part x) % 18_446_744_073_709_551_616)
      9_223_372_036_854_775_808

-- `a + b` and `a - b` on `int64`
unfoldable pub add64 : ℤ → ℤ → ℤ
unfolding wrap64 ◌+ℤ◌
add64 a b = wrap64 (a +ℤ b)

unfoldable pub sub64 : ℤ → ℤ → ℤ
unfolding wrap64 ◌-ℤ◌
sub64 a b = wrap64 (a -ℤ b)

-- as many increments, from `x`
unfoldable pub inc64_times : ℕ → ℤ → ℤ
inc64_times zero x = x
inc64_times (suc k) x = inc64_times k (inc64 x)

pub inc64_times_pos : (k n : ℕ) → n + k < 9223372036854775808 → inc64_times k (pos n) ≡ pos (n + k)
unfolding inc64_times inc64
inc64_times_pos zero n h = ap pos (omega arith)
inc64_times_pos (suc k) n h = ground (arith, inc64_times_pos k (suc n))
