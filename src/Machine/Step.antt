-- ===== src/Machine/Step.antt =====
-- src/vm/interpreter.cpp: one step of the dispatch loop.
use r_sjit.Common.{
  ltb, length, ◌==◌, ◌%◌, ℕ, suc, Bool, true, false, not, ◌&&◌, List, Option, none, some,
  if◌then◌else◌, get_elem?, get_or, set,
}
use r_sjit.Common.Int.{ℤ, pos, eq_ℤ}
use r_sjit.Value.{Value, Float, nil, as_integer, as_logical, is_tag, na_logical}
use r_sjit.Value.Tag.{TypeTag, tag_code}
use r_sjit.Bytecode.{Op, Instr}
use r_sjit.Quickening.{quicken_observe}
use r_sjit.Machine.{value_of}
use r_sjit.Machine.Scalars.{fast_force, as_logical_scalar}

-- The function's code and constants, the registers of its frame, and the instruction pointer.
pub record Machine : Type 0 where
  pub code : List Instr
  pub constants : List Value
  pub regs : List Value
  pub pc : ℕ

pub data Outcome : Type 0 where
  running : Machine → Outcome
  returned : Value → Outcome
  halted : Value → Outcome
  raised outside : Outcome

-- The registers of an instruction are below the number of registers.
unfoldable pub reg : Machine → ℕ → Value
unfolding nil
reg m r = get_or m.regs r nil

-- `RJIT_DISPATCH_NEXT` and `RJIT_DISPATCH_GOTO`
unfoldable pub next : Machine → Outcome
next m = running (record m { pc = suc m.pc })

unfoldable pub goto : ℕ → Machine → Outcome
goto target m = running (record m { pc = target })

unfoldable pub write : ℕ → Value → Machine → Machine
write r v m = record m { regs = set m.regs r v }

-- The generic opcodes whose operand types are observed.
unfoldable pub is_observed : Op → Bool
is_observed Op.add = true
is_observed Op.sub = true
is_observed Op.mul = true
is_observed Op.div = true
is_observed Op.lt = true
is_observed Op.le = true
is_observed Op.gt = true
is_observed Op.ge = true
is_observed Op.eq = true
is_observed Op.ne = true
is_observed _ = false

unfoldable pub observe : Instr → Machine → Machine
unfolding is_observed quicken_observe reg
observe i m =
    if is_observed i.op
    then record m { code = set m.code m.pc (quicken_observe i (reg m i.ra).tag (reg m i.rb).tag) }
    else m

-- The value that the constant is: any, where the opcode does not read it.
unfoldable pub constant : Machine → Instr → Value
unfolding nil
constant m i = get_or m.constants i.k nil

-- A register that the frame does not have is outside of the model.
unfoldable pub written : Instr → Machine → Option Value → Outcome
unfolding next write
written i m none = outside
written i m (some v) = if ltb i.rdest (length m.regs) then next (write i.rdest v m) else outside

module _ (f : Float) (truncate : ℕ → ℤ) (force : Value → Value) where
  -- The test of JUMP_IF_FALSE: NA does not jump.
  unfoldable pub is_false : Value → Bool
  unfolding is_tag as_logical as_integer as_logical_scalar fast_force
  is_false v =
      if is_tag v TypeTag.logical
      then eq_ℤ (as_logical v) (pos 0)
      else if is_tag v TypeTag.integer
      then eq_ℤ (as_integer v) (pos 0)
      else eq_ℤ (as_logical_scalar f (fast_force force v)) (pos 0)

  abbrev pub is_true_number : ℤ → Bool
  is_true_number b = not (eq_ℤ b (pos 0)) && not (eq_ℤ b na_logical)

  -- The test of JUMP_IF_TRUE.
  unfoldable pub is_true : Value → Bool
  unfolding is_tag as_logical as_integer as_logical_scalar fast_force
  is_true v =
      if is_tag v TypeTag.logical
      then is_true_number (as_logical v)
      else if is_tag v TypeTag.integer
      then is_true_number (as_integer v)
      else is_true_number (as_logical_scalar f (fast_force force v))

  -- The test of JUMP_IF_NA.
  unfoldable pub is_unknown : Value → Bool
  unfolding as_logical_scalar fast_force
  is_unknown v = eq_ℤ (as_logical_scalar f (fast_force force v)) na_logical

  unfoldable pub jump_when : Bool → Instr → Machine → Outcome
  unfolding goto next
  jump_when true i m = goto i.k m
  jump_when false i m = next m

  unfoldable pub negate : Instr → Machine → Option Value → Outcome
  unfolding next written
  negate i m none = next m
  negate i m (some v) = written i m (some v)

  -- A type guard raises an error when the tag is not the low byte of `k`.
  unfoldable pub guard_type : Instr → Machine → Outcome
  unfolding next reg tag_code
  guard_type i m = if tag_code (reg m i.ra).tag == i.k % 256 then next m else raised

  unfoldable pub execute_instr : Op → Instr → Machine → Outcome
  unfolding next goto jump_when reg observe constant written negate guard_type value_of is_false
      is_true is_unknown nil
  execute_instr Op.nop i m = next m
  execute_instr Op.loop_header i m = next m
  execute_instr Op.loop_backedge i m = next m
  execute_instr Op.index_assign i m = next m
  execute_instr Op.index2_assign i m = next m
  execute_instr Op.index_named_assign i m = next m
  execute_instr Op.subset i m = next m
  execute_instr Op.halt i m = halted (reg m 0)
  execute_instr Op.guard_len i m = next m
  execute_instr Op.guard_type i m = guard_type i m
  execute_instr Op.deopt i m = raised
  execute_instr Op.return i m = returned (reg m i.ra)
  execute_instr Op.return_null i m = returned nil
  execute_instr Op.jump i m = goto i.k m
  execute_instr Op.jump_if_false i m = jump_when (is_false (reg m i.ra)) i m
  execute_instr Op.jump_if_true i m = jump_when (is_true (reg m i.ra)) i m
  execute_instr Op.jump_if_na i m = jump_when (is_unknown (reg m i.ra)) i m
  execute_instr Op.neg i m =
      negate i m (value_of f truncate force Op.neg (reg m i.ra) (reg m i.rb) (constant m i))
  execute_instr op i m =
      written i (observe i m)
        (value_of f truncate force op (reg m i.ra) (reg m i.rb) (constant m i))

  unfoldable pub step_at : Option Instr → Machine → Outcome
  unfolding execute_instr
  step_at none m = outside
  step_at (some i) m = execute_instr i.op i m

  unfoldable pub step : Machine → Outcome
  unfolding step_at
  step m = step_at (get_elem? m.code m.pc) m
