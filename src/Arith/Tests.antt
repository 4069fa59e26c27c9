-- ===== src/Arith/Tests.antt =====
-- The arithmetic of the interpreter (src/vm/interpreter.cpp) at concrete inputs.
use r_sjit.Common.{◌≡◌, some, arith}
use r_sjit.Common.Int.{pos, negsuc, ◌+ℤ◌, ◌-ℤ◌, ◌*ℤ◌}
use r_sjit.Value.{Value, integer}
use r_sjit.Arith.{add_values, sub_values, mul_values}
use r_sjit.Arith.Integers.{IsExact, integers-IsExact}
use r_sjit.Value.Tests.{plain_float}

integers-IsExact_example :
    ((v : Value) × (add_values plain_float (integer (pos 4)) (integer (negsuc 6)) ≡ some v)
      × IsExact plain_float (pos 4 +ℤ negsuc 6) v)
    × IsExact plain_float
        (pos 4 -ℤ negsuc 6)
        (sub_values plain_float (integer (pos 4)) (integer (negsuc 6)))
    × IsExact plain_float
        (pos 4 *ℤ negsuc 6)
        (mul_values plain_float (integer (pos 4)) (integer (negsuc 6)))
integers-IsExact_example =
    integers-IsExact plain_float (pos 4) (negsuc 6) (omega arith) (omega arith)
