-- ===== src/Value/Tests.antt =====
-- Values (include/rjit/core/value.hpp, src/core/value.cpp) at concrete inputs.
use r_sjit.Common.{◌≡◌, refl, false, not, ◌&&◌, ◌==◌, arith}
use r_sjit.Common.Int.{negsuc}
use r_sjit.Value.{
  Float, is_nan, real, integer, logical, string, as_integer, as_logical, as_real, as_string,
}
use r_sjit.Value.Laws.{unbox_box}

-- Doubles that compare as bit patterns, NaNs apart, and no arithmetic.
abbrev pub plain_float : Float
plain_float = record {
  add = λ a b. a;
  sub = λ a b. a;
  mul = λ a b. a;
  div = λ a b. a;
  pow = λ a b. a;
  fmod = λ a b. a;
  neg = λ a. a;
  lt = λ a b. false;
  le = λ a b. false;
  eq = λ a b. not (is_nan b) && (a == b);
  of_int = λ z. 0;
  na_real = 9218868437227407266;
  na_real-nan = refl;
  eq-nan = λ a b h. ground arith;
}

unbox_box_example :
    (as_integer (integer (negsuc 4)) ≡ negsuc 4)
    × (as_logical (logical (negsuc 4)) ≡ negsuc 4)
    × (as_real (real 12) ≡ 12)
    × (as_string (string 7) ≡ 7)
unbox_box_example = unbox_box (negsuc 4) 12 7 (omega arith) (omega arith)
