-- ===== src/Common/Int.antt =====
-- Signed integers over the native numbers, and `int32_t` as a bit pattern with its integer.
use Prim.Native.Nat.{ℕ, suc, ◌+◌, ◌-◌, ◌*◌, ◌≤◌, ◌<◌, ◌%◌}
use mathlib.Core.Path.{◌≡◌}
use mathlib.Core.Bool.{Bool, false}
use native.Mathlib.Omega.{arith}
use r_sjit.Common.Tests.{ltb, leb, ◌==◌, if◌then◌else◌, u32_size, u64_size}

-- `negsuc n` is -(n + 1).
pub data ℤ : Type 0 where
  pos : ℕ → ℤ
  negsuc : ℕ → ℤ

abbrev pub pos_part : ℤ → ℕ
pos_part (pos n) = n
pos_part (negsuc n) = 0

abbrev pub neg_part : ℤ → ℕ
neg_part (pos n) = 0
neg_part (negsuc n) = suc n

-- a - b, as an integer.
abbrev pub sub_ℕ : ℕ → ℕ → ℤ
sub_ℕ a b = if leb b a then pos (a - b) else negsuc (b - a - 1)

infixl 65 ◌+ℤ◌ ◌-ℤ◌
infixl 70 ◌*ℤ◌
unfoldable pub ◌+ℤ◌ : ℤ → ℤ → ℤ
a +ℤ b = sub_ℕ (pos_part a + pos_part b) (neg_part a + neg_part b)

unfoldable pub ◌-ℤ◌ : ℤ → ℤ → ℤ
a -ℤ b = sub_ℕ (pos_part a + neg_part b) (neg_part a + pos_part b)

unfoldable pub ◌*ℤ◌ : ℤ → ℤ → ℤ
a *ℤ b =
    sub_ℕ (pos_part a * pos_part b + neg_part a * neg_part b)
      (pos_part a * neg_part b + neg_part a * pos_part b)

abbrev pub eq_ℤ : ℤ → ℤ → Bool
eq_ℤ (pos a) (pos b) = a == b
eq_ℤ (negsuc a) (negsuc b) = a == b
eq_ℤ _ _ = false

abbrev pub ltb_ℤ : ℤ → ℤ → Bool
ltb_ℤ a b = ltb (pos_part a + neg_part b) (pos_part b + neg_part a)

-- `INT32_MAX`, `INT32_MIN`.
abbrev pub int32_max : ℤ
int32_max = pos 2147483647

abbrev pub int32_min : ℤ
int32_min = negsuc 2147483647

-- The integers that an `int32_t` holds.
abbrev pub IsInt32 : ℤ → Type 0
IsInt32 z = (pos_part z < 2147483648) × (neg_part z ≤ 2147483648)

-- `static_cast<uint64_t>(static_cast<int64_t>(v))`: two's complement with sign extension.
unfoldable pub to_bits64 : ℤ → ℕ
to_bits64 (pos n) = n % u64_size
to_bits64 (negsuc n) = u64_size - 1 - n % u64_size

-- `static_cast<int32_t>` of a 64-bit pattern: the low 32 bits, read as two's complement.
unfoldable pub of_bits32 : ℕ → ℤ
of_bits32 b =
    let low = b % u32_size in if ltb low 2147483648 then pos low else negsuc (u32_size - 1 - low)

pub of_bits32-to_bits64 : (z : ℤ) → IsInt32 z → of_bits32 (to_bits64 z) ≡ z
unfolding of_bits32 to_bits64
of_bits32-to_bits64 (pos n) h = ground arith
of_bits32-to_bits64 (negsuc n) h = ground arith

pub of_bits32-IsInt32 : (b : ℕ) → IsInt32 (of_bits32 b)
unfolding of_bits32
of_bits32-IsInt32 b = ground arith
