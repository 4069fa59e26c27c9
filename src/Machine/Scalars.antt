-- ===== src/Machine/Scalars.antt =====
-- src/vm/interpreter.cpp: comparison and truth of scalars.
use r_sjit.Common.{ℕ, Bool, not, ◌||◌, if◌then◌else◌}
use r_sjit.Common.Int.{ℤ, pos, eq_ℤ}
use r_sjit.Value.{
  Value, Float, logical, as_real, as_integer, as_logical, is_tag, is_scalar, na_int, na_logical,
}
use r_sjit.Value.Tag.{TypeTag}
use r_sjit.Arith.{int_to_double}

-- `fast_force`; `force` is what forcing a promise gives.
unfoldable pub fast_force : (Value → Value) → Value → Value
unfolding is_scalar is_tag
fast_force force v = if is_scalar v then v else if is_tag v TypeTag.promise then force v else v

-- `to_real` of `cmp_scalar`: the NA double for NA and for other types.
unfoldable pub to_real : Float → Value → ℕ
unfolding is_tag as_real as_integer as_logical int_to_double
to_real f v =
    if is_tag v TypeTag.real
    then as_real v
    else if is_tag v TypeTag.integer
    then int_to_double f (as_integer v)
    else if is_tag v TypeTag.logical
    then int_to_double f (as_logical v)
    else f.na_real

unfoldable pub truth : Bool → Value
unfolding logical
truth b = logical (if b then pos 1 else pos 0)

-- `cmp_scalar` on operands that were forced.
unfoldable pub cmp_scalar : Float → (ℕ → ℕ → Bool) → Value → Value → Value
unfolding to_real truth logical
cmp_scalar f cmp a b =
    if f.eq (to_real f a) f.na_real || f.eq (to_real f b) f.na_real
    then logical na_logical
    else truth (cmp (to_real f a) (to_real f b))

abbrev pub lt : Float → ℕ → ℕ → Bool
lt f x y = f.lt x y

abbrev pub le : Float → ℕ → ℕ → Bool
le f x y = f.le x y

abbrev pub gt : Float → ℕ → ℕ → Bool
gt f x y = f.lt y x

abbrev pub ge : Float → ℕ → ℕ → Bool
ge f x y = f.le y x

abbrev pub eq : Float → ℕ → ℕ → Bool
eq f x y = f.eq x y

abbrev pub ne : Float → ℕ → ℕ → Bool
ne f x y = not (f.eq x y)

-- `as_logical_scalar` on an operand that was forced.
unfoldable pub as_logical_scalar : Float → Value → ℤ
unfolding is_tag as_real as_integer as_logical
as_logical_scalar f v =
    if is_tag v TypeTag.logical
    then as_logical v
    else if is_tag v TypeTag.integer
    then if eq_ℤ (as_integer v) (pos 0)
      then pos 0
      else if eq_ℤ (as_integer v) na_int
      then na_logical
      else pos 1
    else if is_tag v TypeTag.real
    then if not (f.eq (as_real v) (as_real v))
      then na_logical
      else if f.eq (as_real v) (f.of_int (pos 0))
      then pos 0
      else pos 1
    else pos 0
