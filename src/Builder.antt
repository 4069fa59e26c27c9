-- ===== src/Builder.antt =====
-- src/bytecode/module.cpp, include/rjit/bytecode/module.hpp: a function's bytecode and its builder.
--
-- The names, the debug info and the two fields for `...` have no reader among the operations below.
-- `finalize` is for caches that are not longer than the code, as they are in a builder.
pub mod Laws
mod Tests
use r_sjit.Common.{
  ℕ, zero, suc, ◌-◌, ◌%◌, Bool, true, false, ◌==◌, List, [], ◌∷◌, ◌++◌, Option, none, some,
  if◌then◌else◌, length, get_elem?, set, grow, u32_size, u64_size, max, ltb, any,
}
use r_sjit.Value.{Value, same}
use r_sjit.Bytecode.{Op, Instr, no_instr}

-- `class BytecodeFunction`; the vectors of the inline caches hold an environment, a shape and a slot each.
pub record BytecodeFunction : Type 0 where
  pub code : List Instr
  pub constants : List Value
  pub symbols_used : List ℕ
  pub nparams : ℕ
  pub nregs : ℕ
  pub ic_envs : List (Option ℕ)
  pub ic_shapes : List ℕ
  pub ic_slots : List ℕ

abbrev pub no_code : BytecodeFunction
no_code = record {
  code = [];
  constants = [];
  symbols_used = [];
  nparams = 0;
  nregs = 0;
  ic_envs = [];
  ic_shapes = [];
  ic_slots = [];
}

unfoldable pub alloc_reg : BytecodeFunction → ℕ × BytecodeFunction
alloc_reg fn = (fn.nregs, record fn { nregs = suc fn.nregs % u32_size })

-- The index of the instruction, and the function with it.
unfoldable pub emit : Instr → BytecodeFunction → ℕ × BytecodeFunction
emit i fn = (length fn.code % u32_size, record fn { code = fn.code ++ i ∷ [] })

unfoldable pub with_k : Instr → ℕ → Instr
with_k i new_k = record i { k = new_k }

-- `at` throws out of bounds.
unfoldable pub patch_k : ℕ → ℕ → BytecodeFunction → Option BytecodeFunction
patch_k idx new_k fn = elim (get_elem? fn.code idx) [
  | none ↦ none
  | some i ↦ some (record fn { code = set fn.code idx (with_k i new_k) })
]

unfoldable pub next_place : Option ℕ → Option ℕ
next_place none = none
next_place (some i) = some (suc i)

-- The first constant that is equal to the value.
unfoldable pub find_constant : List Value → Value → Option ℕ
find_constant [] v = none
find_constant (c ∷ cs) v =
    let rest = next_place (find_constant cs v) in if same c v then some 0 else rest

unfoldable pub constant_found : Value → BytecodeFunction → Option ℕ → ℕ × BytecodeFunction
constant_found v fn (some i) = (i % u32_size, fn)
constant_found v fn none =
    (length fn.constants % u32_size, record fn { constants = fn.constants ++ v ∷ [] })

unfoldable pub add_constant : Value → BytecodeFunction → ℕ × BytecodeFunction
add_constant v fn = constant_found v fn (find_constant fn.constants v)

unfoldable pub use_symbol : ℕ → BytecodeFunction → BytecodeFunction
use_symbol sym_id fn =
    if any (λ s. s == sym_id) fn.symbols_used
    then fn
    else record fn { symbols_used = fn.symbols_used ++ sym_id ∷ [] }

unfoldable pub is_halt : Op → Bool
is_halt Op.halt = true
is_halt _ = false

unfoldable pub halt_instr : Instr
halt_instr = record no_instr { op = Op.halt }

-- Does the code end with `HALT`?
unfoldable pub ends_with_halt : List Instr → Bool
ends_with_halt [] = false
ends_with_halt (i ∷ []) = is_halt i.op
ends_with_halt (i ∷ j ∷ is) = ends_with_halt (j ∷ is)

unfoldable pub with_halt : List Instr → List Instr
with_halt is = if ends_with_halt is then is else is ++ halt_instr ∷ []

unfoldable pub finalize : ℕ → ℕ → BytecodeFunction → BytecodeFunction
finalize nparams nregs fn =
    let code = with_halt fn.code in
    record {
      code = code;
      constants = fn.constants;
      symbols_used = fn.symbols_used;
      nparams = nparams;
      nregs = max fn.nregs nregs;
      ic_envs = grow fn.ic_envs (length code) none;
      ic_shapes = grow fn.ic_shapes (length code) 0;
      ic_slots = grow fn.ic_slots (length code) 0;
    }
