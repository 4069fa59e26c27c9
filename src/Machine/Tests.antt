-- ===== src/Machine/Tests.antt =====
-- The dispatch loop (src/vm/interpreter.cpp) at concrete inputs.
use r_sjit.Common.{ℕ, ◌∷◌, some, ◌+◌, ◌≡◌, ◌⊎◌, refl, true, false, [], arith}
use r_sjit.Common.Int.{ℤ, pos, ◌+ℤ◌}
use r_sjit.Value.{Value, is_tag, nil, real, integer, na_int}
use r_sjit.Value.Tag.{tag_code}
use r_sjit.Value.Tests.{plain_float}
use r_sjit.Bytecode.{Op, Instr}
use r_sjit.Quickening.{specialised}
use r_sjit.Machine.{value_of, compare_op}
use r_sjit.Machine.Scalars.{truth, lt}
use mathlib.Core.Option
use r_sjit.Machine.Frames.{Callee, Frame, Stack, push_frame, pop_frame, put}
use r_sjit.Machine.Step.{Machine, step, reg}
use r_sjit.Machine.Quickened.{regs_after, step-quickened}
use r_sjit.Machine.Nesting.{seen, pop_frame-push_frame, push_frame-argument, push_frame-missing}
use r_sjit.Machine.Agreement.{
  exact, value_of-specialised_reals, value_of-specialised_integers, compare_op-never_na,
}

abbrev zero_of : ℕ → ℤ
zero_of d = pos 0

abbrev same_value : Value → Value
same_value v = v

value_of-specialised_reals_example :
    value_of plain_float zero_of same_value Op.lt (real 3) (real 4) nil
    ≡ value_of plain_float zero_of same_value Op.lt_real_real (real 3) (real 4) nil
unfolding specialised tag_code
value_of-specialised_reals_example =
    value_of-specialised_reals plain_float zero_of same_value Op.lt Op.lt_real_real 3 4 nil refl

value_of-specialised_integers_example :
    value_of plain_float zero_of same_value Op.add (integer (pos 3)) (integer (pos 4)) nil
    ≡ value_of plain_float zero_of same_value Op.add_int_int (integer (pos 3)) (integer (pos 4)) nil
unfolding specialised tag_code exact ◌+ℤ◌
value_of-specialised_integers_example =
    value_of-specialised_integers plain_float zero_of same_value Op.add Op.add_int_int (pos 3)
      (pos 4) nil (omega arith, omega arith) (omega arith, omega arith) (omega arith, omega arith)
      refl

compare_op-never_na_example :
    (compare_op plain_float zero_of same_value (lt plain_float) (integer na_int) (integer (pos 1))
      ≡ truth true)
    ⊎ (compare_op plain_float zero_of same_value (lt plain_float) (integer na_int) (integer (pos 1))
        ≡ truth false)
compare_op-never_na_example =
    compare_op-never_na plain_float zero_of same_value (lt plain_float) (integer na_int)
      (integer (pos 1))

-- A function of three registers and two parameters is called from a frame of four registers.
abbrev two_parameters : Callee
two_parameters = record { id = 7; nregs = 3; nparams = 2 }

abbrev caller : Frame
caller = record { fn = 1; env = 0; regs = 0; pc = 0; caller_dst = 0; nregs = 4 }

abbrev one_frame : Stack
one_frame = record { arena = λ i. integer (pos i); reg_sp = 4; current = caller; callers = [] }

abbrev plain_force : Value → Stack → Value × Stack
plain_force v s = (v, s)

pop_frame-push_frame_example :
    Option.map (seen 3) (pop_frame nil (push_frame plain_force two_parameters 0 5 3 1 2 one_frame))
    ≡ some (record caller { pc = 5 }, [], 4, put one_frame.arena 3 nil 3)
unfolding is_tag integer
pop_frame-push_frame_example =
    pop_frame-push_frame plain_force two_parameters 0 5 3 1 2 one_frame (omega arith) (λ k h. refl)
      nil 3 (omega arith)

push_frame-argument_example :
    (push_frame plain_force two_parameters 0 5 3 1 2 one_frame).arena (4 + 1) ≡ integer (pos 2)
unfolding is_tag integer
push_frame-argument_example =
    push_frame-argument plain_force two_parameters 0 5 3 1 2 one_frame (omega arith) (λ k h. refl) 1
      (omega arith)

push_frame-missing_example :
    (push_frame plain_force two_parameters 0 5 3 1 1 one_frame).arena (4 + 1) ≡ integer (pos 5)
unfolding is_tag integer
push_frame-missing_example =
    push_frame-missing plain_force two_parameters 0 5 3 1 1 one_frame (omega arith) (λ k h. refl) 1
      (omega arith) (omega arith)

-- Register 2 is set to whether register 0 is below register 1.
abbrev lt_instr : Instr
lt_instr = record { op = Op.lt; flags = 0; rdest = 2; ra = 0; rb = 1; k = 0 }

abbrev lt_machine : Machine
lt_machine = record {
  code = lt_instr ∷ [];
  constants = [];
  regs = real 3 ∷ real 4 ∷ nil ∷ [];
  pc = 0;
}

step-quickened_example :
    regs_after (step plain_float zero_of same_value lt_machine)
    ≡ regs_after (
        step plain_float zero_of same_value
          (record lt_machine { code = record lt_instr { op = Op.lt_real_real; flags = 5 } ∷ [] }))
unfolding specialised tag_code reg
step-quickened_example =
    step-quickened plain_float zero_of same_value lt_instr Op.lt_real_real 5 3 4 lt_machine refl
      refl refl refl
