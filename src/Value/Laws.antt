-- ===== src/Value/Laws.antt =====
-- Facts about tagged values (include/rjit/core/value.hpp, src/core/value.cpp).
use r_sjit.Common.{ℕ, ◌≡◌, ◌<◌, refl, ◌↔◌, true, false, arith, u32_size}
use r_sjit.Common.Int.{ℤ, IsInt32, of_bits32-to_bits64}
use r_sjit.Value.Tag.{TypeTag, tag_code}
use r_sjit.Value.{
  Value, Float, logical, integer, real, string, as_logical, as_integer, as_real, as_string, same,
  is_na,
}

pub tag_code-injective : (t u : TypeTag) → tag_code t ≡ tag_code u → t ≡ u
unfolding tag_code
tag_code-injective t u h = ground arith

-- A 32-bit integer, boxed as an integer or as a logical, a double, and a 32-bit symbol id come
-- back from the box unchanged.
pub unbox_box :
    (z : ℤ) (d s : ℕ)
    → IsInt32 z
    → s < u32_size
    → (as_integer (integer z) ≡ z)
      × (as_logical (logical z) ≡ z)
      × (as_real (real d) ≡ d)
      × (as_string (string s) ≡ s)
unfolding as_integer integer as_logical logical as_real real as_string string
unbox_box z d s h b = (of_bits32-to_bits64 z h, of_bits32-to_bits64 z h, refl, omega arith)

-- `operator==` on values is true exactly if they are equal.
pub same_iff : (v w : Value) → (same v w ≡ true) ↔ (v ≡ w)
unfolding same
same_iff v w = (λ h. ground (arith, tag_code-injective v.tag w.tag), λ e. rw e (ground arith))

-- `is_na` is false on every double, the NA double included.
pub is_na-real : (f : Float) (d : ℕ) → is_na f (real d) ≡ false
unfolding is_na real
is_na-real f d = ground (arith, f.na_real-nan)
