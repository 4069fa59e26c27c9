-- ===== src/Machine.antt =====
-- src/vm/interpreter.cpp: one step of the dispatch loop on the opcodes of registers and jumps.
--
-- The state is one frame. Calls, environments, vectors, and printing are outside: the step says so,
-- and it also says so where a handler of an arithmetic opcode goes on to vectors or an error, and
-- where an instruction or a constant is read out of bounds.
pub mod Scalars
pub mod Step
pub mod Frames
pub mod Quickened
pub mod Nesting
pub mod Agreement
mod Tests
use r_sjit.Common.{
  ℕ, suc, Bool, true, false, not, ◌&&◌, ◌||◌, List, Option, none, some, if◌then◌else◌, get_elem?,
  get_or, set,
}
use r_sjit.Common.Int.{
  ℤ, pos, ◌+ℤ◌, ◌-ℤ◌, ◌*ℤ◌, eq_ℤ, ltb_ℤ, of_bits32, to_bits64, int32_min, int32_max,
}
use r_sjit.Value.{
  Value, Float, nil, real, integer, logical, as_real, as_integer, as_logical, is_tag, is_na, na_int,
  na_logical,
}
use r_sjit.Value.Tag.{TypeTag}
use r_sjit.Bytecode.{Op, Instr}
use r_sjit.Quickening.{quicken_observe}
use r_sjit.Arith.{both, int_to_double, add_values, sub_values, mul_values, div_values}
use r_sjit.Machine.Scalars.{
  fast_force, truth, cmp_scalar, lt, le, gt, ge, eq, ne, as_logical_scalar,
}

-- A C++ `int` result; an overflow, which C++ leaves open, wraps around.
unfoldable pub int_value : ℤ → Value
unfolding integer of_bits32 to_bits64
int_value z = integer (of_bits32 (to_bits64 z))

abbrev pub negated : ℤ → ℤ
negated z = pos 0 -ℤ z

module _ (f : Float) (truncate : ℕ → ℤ) (force : Value → Value) where
  -- A generic comparison: the fast path on two doubles, or the slow one.
  unfoldable pub compare_op : (ℕ → ℕ → Bool) → Value → Value → Value
  unfolding is_tag truth as_real cmp_scalar fast_force
  compare_op cmp a b =
      if both a b TypeTag.real
      then truth (cmp (as_real a) (as_real b))
      else cmp_scalar f cmp (fast_force force a) (fast_force force b)

  unfoldable pub add_op : Value → Value → Option Value
  unfolding is_tag as_real real add_values fast_force
  add_op a b =
      if both a b TypeTag.real
      then some (real (f.add (as_real a) (as_real b)))
      else add_values f (fast_force force a) (fast_force force b)

  -- The other arithmetic opcodes.
  unfoldable pub arith_op : (ℕ → ℕ → ℕ) → (Value → Value → Value) → Value → Value → Value
  unfolding is_tag as_real real fast_force
  arith_op op slow a b =
      if both a b TypeTag.real
      then real (op (as_real a) (as_real b))
      else slow (fast_force force a) (fast_force force b)

  -- The specialised opcodes, which do not look at the tags.
  abbrev pub real_op : (ℕ → ℕ → ℕ) → Value → Value → Value
  real_op op a b = real (op (as_real a) (as_real b))

  abbrev pub real_test : (ℕ → ℕ → Bool) → Value → Value → Value
  real_test cmp a b = truth (cmp (as_real a) (as_real b))

  abbrev pub int_op : (ℤ → ℤ → ℤ) → Value → Value → Value
  int_op op a b = int_value (op (as_integer a) (as_integer b))

  abbrev pub int_test : (ℤ → ℤ → Bool) → Value → Value → Value
  int_test cmp a b = truth (cmp (as_integer a) (as_integer b))

  -- An operand of POW or MOD: of another type than a double, its bits are read as an integer.
  unfoldable pub number : Value → ℕ
  unfolding is_tag as_real as_integer
  number v = if is_tag v TypeTag.real then as_real v else f.of_int (as_integer v)

  unfoldable pub number_op : (ℕ → ℕ → ℕ) → Value → Value → Value
  unfolding number real fast_force
  number_op op a b = real (op (number (fast_force force a)) (number (fast_force force b)))

  -- NEG of a forced value; other types leave the register.
  unfoldable pub neg_op : Value → Option Value
  unfolding is_tag as_real as_integer as_logical real integer ◌-ℤ◌
  neg_op v =
      if is_tag v TypeTag.real
      then some (real (f.neg (as_real v)))
      else if is_tag v TypeTag.integer
      then some (integer (if eq_ℤ (as_integer v) na_int then na_int else negated (as_integer v)))
      else if is_tag v TypeTag.logical
      then some
          (integer (if eq_ℤ (as_logical v) na_logical then na_int else negated (as_logical v)))
      else none

  abbrev pub is_na_logical : ℤ → Bool
  is_na_logical z = eq_ℤ z na_logical

  abbrev pub is_zero : ℤ → Bool
  is_zero z = eq_ℤ z (pos 0)

  unfoldable pub and_scalar : ℤ → ℤ → Value
  unfolding logical truth
  and_scalar a b =
      if is_na_logical a || is_na_logical b
      then logical na_logical
      else truth (not (is_zero a) && not (is_zero b))

  unfoldable pub or_scalar : ℤ → ℤ → Value
  unfolding logical truth
  or_scalar a b =
      if is_na_logical a || is_na_logical b
      then logical na_logical
      else truth (not (is_zero a) || not (is_zero b))

  unfoldable pub and_op : ℤ → ℤ → Value
  unfolding logical
  and_op a b =
      if is_zero a
      then logical (pos 0)
      else if is_na_logical a
      then logical na_logical
      else logical b

  unfoldable pub or_op : ℤ → ℤ → Value
  unfolding logical
  or_op a b =
      if not (is_zero a) && not (is_na_logical a)
      then logical (pos 1)
      else if is_na_logical a
      then logical na_logical
      else logical b

  unfoldable pub not_op : ℤ → Value
  unfolding logical truth
  not_op a = if is_na_logical a then logical na_logical else truth (is_zero a)

  unfoldable pub coerce_real : Value → Value
  unfolding is_tag real as_integer int_to_double
  coerce_real v =
      if is_tag v TypeTag.real
      then v
      else if is_tag v TypeTag.integer
      then real (int_to_double f (as_integer v))
      else real f.na_real

  unfoldable pub coerce_int : Value → Value
  unfolding is_tag integer as_real
  coerce_int v =
      if is_tag v TypeTag.integer
      then v
      else if is_tag v TypeTag.real
      then integer (
          if not (f.eq (as_real v) (as_real v))
            || f.lt (as_real v) (f.of_int int32_min)
            || f.lt (f.of_int int32_max) (as_real v)
          then na_int
          else truncate (as_real v))
      else integer na_int

  abbrev pub scalar : Value → ℤ
  scalar v = as_logical_scalar f (fast_force force v)

  -- What an opcode writes to its register, from the operands `a` and `b` and the constant `c`.
  unfoldable pub value_of : Op → Value → Value → Value → Option Value
  unfolding compare_op add_op arith_op neg_op and_scalar or_scalar and_op or_op not_op coerce_real
      coerce_int int_value nil logical as_logical_scalar fast_force is_na real truth as_real
      as_integer add_values number_op sub_values mul_values div_values ◌+ℤ◌ ◌-ℤ◌ ◌*ℤ◌
  value_of Op.load_local a b c = some a
  value_of Op.store_local a b c = some a
  value_of Op.load_int a b c = some c
  value_of Op.load_real a b c = some c
  value_of Op.load_string a b c = some c
  value_of Op.load_nil a b c = some nil
  value_of Op.load_true a b c = some (logical (pos 1))
  value_of Op.load_false a b c = some (logical (pos 0))
  value_of Op.load_na a b c = some (logical na_logical)
  value_of Op.add a b c = add_op a b
  value_of Op.sub a b c = some (arith_op f.sub (sub_values f) a b)
  value_of Op.mul a b c = some (arith_op f.mul (mul_values f) a b)
  value_of Op.div a b c = some (arith_op f.div (div_values f) a b)
  value_of Op.lt a b c = some (compare_op (lt f) a b)
  value_of Op.le a b c = some (compare_op (le f) a b)
  value_of Op.gt a b c = some (compare_op (gt f) a b)
  value_of Op.ge a b c = some (compare_op (ge f) a b)
  value_of Op.eq a b c = some (compare_op (eq f) a b)
  value_of Op.ne a b c = some (compare_op (ne f) a b)
  value_of Op.add_real_real a b c = some (real_op f.add a b)
  value_of Op.sub_real_real a b c = some (real_op f.sub a b)
  value_of Op.mul_real_real a b c = some (real_op f.mul a b)
  value_of Op.div_real_real a b c = some (real_op f.div a b)
  value_of Op.lt_real_real a b c = some (real_test (lt f) a b)
  value_of Op.le_real_real a b c = some (real_test (le f) a b)
  value_of Op.gt_real_real a b c = some (real_test (gt f) a b)
  value_of Op.ge_real_real a b c = some (real_test (ge f) a b)
  value_of Op.eq_real_real a b c = some (real_test (eq f) a b)
  value_of Op.ne_real_real a b c = some (real_test (ne f) a b)
  value_of Op.add_int_int a b c = some (int_op (λ x y. x +ℤ y) a b)
  value_of Op.sub_int_int a b c = some (int_op (λ x y. x -ℤ y) a b)
  value_of Op.mul_int_int a b c = some (int_op (λ x y. x *ℤ y) a b)
  value_of Op.div_int_int a b c =
      some (real (f.div (f.of_int (as_integer a)) (f.of_int (as_integer b))))
  value_of Op.add_real_int a b c = some (real (f.add (as_real a) (int_to_double f (as_integer b))))
  value_of Op.add_int_real a b c = some (real (f.add (int_to_double f (as_integer a)) (as_real b)))
  value_of Op.lt_int_int a b c = some (int_test (λ x y. ltb_ℤ x y) a b)
  value_of Op.le_int_int a b c = some (int_test (λ x y. not (ltb_ℤ y x)) a b)
  value_of Op.gt_int_int a b c = some (int_test (λ x y. ltb_ℤ y x) a b)
  value_of Op.ge_int_int a b c = some (int_test (λ x y. not (ltb_ℤ x y)) a b)
  value_of Op.eq_int_int a b c = some (int_test eq_ℤ a b)
  value_of Op.ne_int_int a b c = some (int_test (λ x y. not (eq_ℤ x y)) a b)
  value_of Op.add_scalar_vec a b c = add_values f (fast_force force a) (fast_force force b)
  value_of Op.add_vec_scalar a b c = add_values f (fast_force force a) (fast_force force b)
  value_of Op.add_vec_vec a b c = add_values f (fast_force force a) (fast_force force b)
  value_of Op.pow a b c = some (number_op f.pow a b)
  value_of Op.mod_op a b c = some (number_op f.fmod a b)
  value_of Op.neg a b c = neg_op (fast_force force a)
  value_of Op.and_scalar a b c = some (and_scalar (scalar a) (scalar b))
  value_of Op.or_scalar a b c = some (or_scalar (scalar a) (scalar b))
  value_of Op.and_op a b c = some (and_op (scalar a) (scalar b))
  value_of Op.or_op a b c = some (or_op (scalar a) (scalar b))
  value_of Op.not_op a b c = some (not_op (scalar a))
  value_of Op.force_promise a b c = some (fast_force force a)
  value_of Op.make_promise a b c = some (fast_force force a)
  value_of Op.make_vector a b c = some nil
  value_of Op.coerce_real a b c = some (coerce_real (fast_force force a))
  value_of Op.coerce_int a b c = some (coerce_int (fast_force force a))
  value_of Op.coerce_logical a b c = some (logical (scalar (fast_force force a)))
  value_of Op.type_of a b c = some (truth (is_na f a))
  value_of Op.is_na a b c = some (truth (is_na f a))
  value_of _ a b c = none
