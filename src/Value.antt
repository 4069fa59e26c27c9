-- ===== src/Value.antt =====
-- include/rjit/core/value.hpp and src/core/value.cpp: tagged values of 16 bytes. A `double` is the
-- number of its 64 bits; what the processor computes on doubles is the record `Float`.
pub mod Tag
pub mod Tests
pub mod Laws
use r_sjit.Common.{
  ℕ, ◌≡◌, ◌%◌, ◌<◌, Bool, true, false, ◌&&◌, not, ltb, leb, ◌==◌, if◌then◌else◌, u32_size,
}
use r_sjit.Common.Int.{ℤ, pos, negsuc, eq_ℤ, int32_min, to_bits64, of_bits32}
use r_sjit.Value.Tag.{TypeTag, tag_code, is_scalar_tag, is_heap_tag}

-- The padding bytes are 0 in every value that the program makes.
pub record Value : Type 0 where
  pub tag : TypeTag
  pub bits : ℕ

unfoldable pub nil : Value
nil = record { tag = TypeTag.nil; bits = 0 }

unfoldable pub logical : ℤ → Value
unfolding to_bits64
logical v = record { tag = TypeTag.logical; bits = to_bits64 v }

unfoldable pub integer : ℤ → Value
unfolding to_bits64
integer v = record { tag = TypeTag.integer; bits = to_bits64 v }

unfoldable pub real : ℕ → Value
real d = record { tag = TypeTag.real; bits = d }

unfoldable pub string : ℕ → Value
string sym_id = record { tag = TypeTag.string; bits = sym_id }

unfoldable pub from_heap : TypeTag → ℕ → Value
from_heap tag obj = record { tag = tag; bits = obj }

unfoldable pub missing : Value
missing = record { tag = TypeTag.missing; bits = 0 }

unfoldable pub as_logical : Value → ℤ
unfolding of_bits32
as_logical v = of_bits32 v.bits

unfoldable pub as_integer : Value → ℤ
unfolding of_bits32
as_integer v = of_bits32 v.bits

unfoldable pub as_real : Value → ℕ
as_real v = v.bits

unfoldable pub as_string : Value → ℕ
as_string v = v.bits % u32_size

unfoldable pub is_tag : Value → TypeTag → Bool
unfolding tag_code
is_tag v t = tag_code v.tag == tag_code t

unfoldable pub is_scalar : Value → Bool
unfolding is_scalar_tag
is_scalar v = is_scalar_tag v.tag

unfoldable pub is_heap : Value → Bool
unfolding is_heap_tag
is_heap v = is_heap_tag v.tag

-- `operator==`
unfoldable pub same : Value → Value → Bool
unfolding tag_code
same v w = (tag_code v.tag == tag_code w.tag) && (v.bits == w.bits)

-- A pattern is a NaN if its exponent is all ones and its fraction is not 0 (IEEE 754).
abbrev pub is_nan : ℕ → Bool
is_nan d = ltb 9218868437227405312 (d % 9223372036854775808)

-- The processor's double arithmetic, which the sources only use.
pub record Float : Type 0 where
  pub add : ℕ → ℕ → ℕ
  pub sub : ℕ → ℕ → ℕ
  pub mul : ℕ → ℕ → ℕ
  pub div : ℕ → ℕ → ℕ
  pub pow : ℕ → ℕ → ℕ
  pub fmod : ℕ → ℕ → ℕ
  pub neg : ℕ → ℕ
  pub lt : ℕ → ℕ → Bool
  pub le : ℕ → ℕ → Bool
  pub eq : ℕ → ℕ → Bool
  pub of_int : ℤ → ℕ
  -- `__builtin_nan("0x7ff00000000007a2")`
  pub na_real : ℕ
  pub na_real-nan : is_nan na_real ≡ true
  pub eq-nan : (a b : ℕ) → is_nan b ≡ true → eq a b ≡ false

-- kNaInt and kNaLogical.
abbrev pub na_int : ℤ
na_int = int32_min

abbrev pub na_logical : ℤ
na_logical = int32_min

-- The first eight bytes of a value, as a little-endian machine loads them: the tag and the padding.
unfoldable pub first_word : Value → ℕ
unfolding tag_code
first_word v = tag_code v.tag

-- The switch of `is_na`. Its `memcmp` reads the first eight bytes of `v`.
unfoldable pub is_na : Float → Value → Bool
unfolding as_logical as_integer as_real first_word
is_na f v = elim v.tag [
  | TypeTag.logical ↦ eq_ℤ (as_logical v) na_logical
  | TypeTag.integer ↦ eq_ℤ (as_integer v) na_int
  | TypeTag.real ↦ not (f.eq (as_real v) (as_real v)) && (f.na_real == first_word v)
  | _ ↦ false
]
