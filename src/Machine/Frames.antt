-- ===== src/Machine/Frames.antt =====
-- src/vm/interpreter.cpp: the frames of calls and returns in the arena of registers.
--
-- `frame_stack_` is the list of the callers of the current frame, the nearest first, down to the
-- frame without a caller; `reg_arena_` is a function of the position, and has no end here. A
-- function and an environment are numbers. Forcing a promise is a parameter, which may do anything to
-- the frames and the arena: `execute_with_args` starts both again from the bottom.
use r_sjit.Common.{
  ℕ, zero, suc, ◌+◌, ◌-◌, ◌==◌, min, List, [], ◌∷◌, Option, some, none, if◌then◌else◌,
}
use r_sjit.Value.{Value, nil, is_tag}
use r_sjit.Value.Tag.{TypeTag}

-- What a call reads of `BytecodeFunction`.
pub record Callee : Type 0 where
  pub id : ℕ
  pub nregs : ℕ
  pub nparams : ℕ

pub record Frame : Type 0 where
  pub fn : ℕ
  pub env : ℕ
  pub regs : ℕ
  pub pc : ℕ
  pub caller_dst : ℕ
  pub nregs : ℕ

pub record Stack : Type 0 where
  pub arena : ℕ → Value
  pub reg_sp : ℕ
  pub current : Frame
  pub callers : List Frame

unfoldable pub put : (ℕ → Value) → ℕ → Value → ℕ → Value
put m i v j = if j == i then v else m j

-- The `memset` of `n` registers from `i` on.
unfoldable pub clear : (ℕ → Value) → ℕ → ℕ → ℕ → Value
unfolding put nil
clear m i zero = m
clear m i (suc n) = clear (put m i nil) (suc i) n

-- The slot that a call takes of `frame_stack_`, with the arguments still to be bound: the caller
-- goes on at `pc`.
unfoldable pub new_frame : Callee → ℕ → ℕ → ℕ → Stack → Stack
unfolding clear
new_frame c env pc dst s = record {
  arena = clear s.arena (s.reg_sp + c.nparams) (c.nregs - c.nparams);
  reg_sp = s.reg_sp + c.nregs;
  current = record {
    fn = c.id;
    env = env;
    regs = s.reg_sp;
    pc = 0;
    caller_dst = dst;
    nregs = c.nregs;
  };
  callers = record s.current { pc = pc } ∷ s.callers;
}

module _ (force : Value → Stack → Value × Stack) where
  unfoldable pub forced : Value → Stack → Value × Stack
  unfolding is_tag
  forced v s = if is_tag v TypeTag.promise then force v s else (v, s)

  -- The loop over the `n` arguments at `args`, into the registers at `i`.
  unfoldable pub bind_args : ℕ → ℕ → ℕ → Stack → Stack
  unfolding put forced
  bind_args args i zero s = s
  bind_args args i (suc n) s =
      let r = forced (s.arena args) s in
      bind_args (suc args) (suc i) n (record r.1 { arena = put r.1.arena i r.0 })

  -- A call of a closure whose arguments are at `args`.
  unfoldable pub push_frame : Callee → ℕ → ℕ → ℕ → ℕ → ℕ → Stack → Stack
  unfolding new_frame bind_args
  push_frame c env pc dst args nargs s =
      bind_args args s.reg_sp (min nargs c.nparams) (new_frame c env pc dst s)

-- RETURN of `v`: nothing goes on when the frame has no caller.
unfoldable pub pop_frame : Value → Stack → Option Stack
unfolding put
pop_frame v s = resume s.callers
  where
    resume : List Frame → Option Stack
    resume [] = none
    resume (c ∷ cs) = some (record {
      arena = put s.arena (c.regs + s.current.caller_dst) v;
      reg_sp = s.reg_sp - s.current.nregs;
      current = c;
      callers = cs;
    })
