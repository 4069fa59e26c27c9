-- ===== src/Arith.antt =====
-- src/vm/interpreter.cpp: the arithmetic of the interpreter on scalars. The operands are values that
-- were forced (`fast_force`), and `add_values` is the part before its cases on vectors.
pub mod Integers
mod Tests
use r_sjit.Common.{ℕ, Bool, true, false, not, ◌&&◌, ◌||◌, Option, none, some, if◌then◌else◌}
use r_sjit.Common.Int.{ℤ, ◌+ℤ◌, ◌-ℤ◌, ◌*ℤ◌, eq_ℤ, ltb_ℤ, int32_min, int32_max}
use r_sjit.Value.{
  Value, Float, real, integer, as_real, as_integer, as_logical, is_tag, na_int, na_logical,
}
use r_sjit.Value.Tag.{TypeTag}

abbrev pub both : Value → Value → TypeTag → Bool
both a b t = is_tag a t && is_tag b t

-- `static_cast<double>` of an integer, or the NA double for the NA integer.
unfoldable pub int_to_double : Float → ℤ → ℕ
int_to_double f z = if eq_ℤ z na_int then f.na_real else f.of_int z

-- The operand as a double, 0.0 for other types.
unfoldable pub to_double : Float → Value → ℕ
to_double f v =
    if is_tag v TypeTag.real
    then as_real v
    else if is_tag v TypeTag.integer
    then int_to_double f (as_integer v)
    else 0

-- The result of an `int64_t` computation on two `int32_t`: promoted to a double when it does not fit.
unfoldable pub int_result : Float → ℤ → Value
int_result f r = if ltb_ℤ r int32_min || ltb_ℤ int32_max r then real (f.of_int r) else integer r

unfoldable pub na_to_int : ℤ → ℤ
na_to_int z = if eq_ℤ z na_logical then na_int else z

-- `add_values` on scalars: `none` where it goes on to the vectors or raises an error. The sum of two NA
-- logicals overflows an `int32_t`, which C++ leaves open.
unfoldable pub add_values : Float → Value → Value → Option Value
add_values f a b =
    if both a b TypeTag.real
    then some (real (f.add (as_real a) (as_real b)))
    else if both a b TypeTag.integer
    then some (int_result f (as_integer a +ℤ as_integer b))
    else if is_tag a TypeTag.real && is_tag b TypeTag.integer
    then some (real (f.add (as_real a) (int_to_double f (as_integer b))))
    else if is_tag a TypeTag.integer && is_tag b TypeTag.real
    then some (real (f.add (int_to_double f (as_integer a)) (as_real b)))
    else if both a b TypeTag.logical
    then some (integer (na_to_int (as_logical a) +ℤ na_to_int (as_logical b)))
    else none

unfoldable pub sub_values : Float → Value → Value → Value
sub_values f a b =
    if both a b TypeTag.real
    then real (f.sub (as_real a) (as_real b))
    else if both a b TypeTag.integer
    then int_result f (as_integer a -ℤ as_integer b)
    else real (f.sub (to_double f a) (to_double f b))

unfoldable pub mul_values : Float → Value → Value → Value
mul_values f a b =
    if both a b TypeTag.real
    then real (f.mul (as_real a) (as_real b))
    else if both a b TypeTag.integer
    then int_result f (as_integer a *ℤ as_integer b)
    else real (f.mul (to_double f a) (to_double f b))

unfoldable pub div_values : Float → Value → Value → Value
div_values f a b =
    if both a b TypeTag.real
    then real (f.div (as_real a) (as_real b))
    else real (f.div (to_double f a) (to_double f b))
