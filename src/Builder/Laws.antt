-- ===== src/Builder/Laws.antt =====
-- What the builder of bytecode (src/bytecode/module.cpp) promises.
use r_sjit.Common.{
  ℕ, zero, suc, ◌%◌, ◌<◌, ◌≤◌, ◌≡◌, refl, ap, ◌∙◌, true, List, [], ◌∷◌, ◌++◌, Option, none, some,
  length, get_elem?, arith, u32_size, length-append, length-grow, get_elem?-append_last,
  get_elem?-append_left, get_elem?-lt_length, Option-cases, Bool-cases, inl, inr,
}
use r_sjit.Value.{Value}
use r_sjit.Value.Laws.{same_iff}
use r_sjit.Bytecode.{Instr}
use r_sjit.Builder.{
  BytecodeFunction, find_constant, next_place, constant_found, add_constant, is_halt, halt_instr,
  ends_with_halt, with_halt, finalize,
}

find_constant-some :
    (cs : List Value) (v : Value) (i : ℕ) → find_constant cs v ≡ some i → get_elem? cs i ≡ some v
unfolding find_constant next_place
find_constant-some [] v i h = ground arith
find_constant-some (c ∷ cs) v zero h = ground (
  arith,
  same_iff c v,
  Option-cases (find_constant cs v),
  λ (e : c ≡ v). ap (λ (x : Value). some x) e,
)
find_constant-some (c ∷ cs) v (suc i) h =
    ground (arith, find_constant-some cs v i, Option-cases (find_constant cs v))

find_constant-snoc :
    (cs : List Value) (v : Value)
    → find_constant cs v ≡ none
    → find_constant (cs ++ v ∷ []) v ≡ some (length cs)
unfolding find_constant next_place
find_constant-snoc [] v h = ground (arith, same_iff v v)
find_constant-snoc (c ∷ cs) v h =
    ground (arith, same_iff c v, find_constant-snoc cs v, Option-cases (find_constant cs v))

pub record AddsConstant (v : Value) (fn : BytecodeFunction) (r : ℕ × BytecodeFunction)
    : Type 0 where
  pub stored : get_elem? r.1.constants r.0 ≡ some v
  pub others :
      (i : ℕ) (w : Value) → get_elem? fn.constants i ≡ some w → get_elem? r.1.constants i ≡ some w
  pub again : add_constant v r.1 ≡ r

constant_again :
    (v : Value) (fn : BytecodeFunction) (o : Option ℕ)
    → find_constant fn.constants v ≡ o
    → add_constant v fn ≡ constant_found v fn o
unfolding add_constant
constant_again v fn o e = ap (constant_found v fn) e

constant_found-Adds :
    (v : Value) (fn : BytecodeFunction) (o : Option ℕ)
    → length fn.constants < u32_size
    → find_constant fn.constants v ≡ o
    → AddsConstant v fn (constant_found v fn o)
unfolding constant_found
constant_found-Adds v fn (some i) l e =
    let there = find_constant-some fn.constants v i e in
    let small : i % u32_size ≡ i = omega (arith, l, get_elem?-lt_length fn.constants i v there) in
    record {
      stored = ap (get_elem? fn.constants) small ∙ there;
      others = λ j w h. h;
      again = constant_again v fn (some i) e;
    }
constant_found-Adds v fn none l e =
    let small : length fn.constants % u32_size ≡ length fn.constants = omega (arith, l) in
    record {
      stored = ap (get_elem? (fn.constants ++ v ∷ [])) small ∙ get_elem?-append_last fn.constants v;
      others = λ j w h. get_elem?-append_left fn.constants (v ∷ []) j w h;
      again =
          constant_again v (record fn { constants = fn.constants ++ v ∷ [] })
            (some (length fn.constants)) (find_constant-snoc fn.constants v e);
    }

-- With room for a 32-bit index, adding a constant gives an index at which the pool has it, keeps
-- the constants at their places, and when repeated gives the same index and the same function.
pub add_constant-Adds :
    (v : Value) (fn : BytecodeFunction)
    → length fn.constants < u32_size
    → AddsConstant v fn (add_constant v fn)
unfolding add_constant
add_constant-Adds v fn l = constant_found-Adds v fn (find_constant fn.constants v) l refl

ends_with_halt-snoc : (is : List Instr) → ends_with_halt (is ++ halt_instr ∷ []) ≡ true
unfolding ends_with_halt halt_instr is_halt
ends_with_halt-snoc [] = refl
ends_with_halt-snoc (i ∷ []) = refl
ends_with_halt-snoc (i ∷ j ∷ is) = ends_with_halt-snoc (j ∷ is)

with_halt-ends : (is : List Instr) → ends_with_halt (with_halt is) ≡ true
unfolding with_halt
with_halt-ends is = elim (Bool-cases (ends_with_halt is)) [
  | inl e ↦ rw (e) e
  | inr e ↦ rw (e) (ends_with_halt-snoc is)
]

with_halt-length : (is : List Instr) → length is ≤ length (with_halt is)
unfolding with_halt
with_halt-length is = ground (arith, length-append is (halt_instr ∷ []))

-- When the caches are not longer than the code, a finalized function ends with HALT, has at least
-- the registers that were allocated and those that were asked for, and has one entry of each
-- inline cache array for each instruction.
pub finalize-lem :
    (nparams nregs : ℕ) (fn : BytecodeFunction)
    → length fn.ic_envs ≤ length fn.code
    → length fn.ic_shapes ≤ length fn.code
    → length fn.ic_slots ≤ length fn.code
    → (ends_with_halt (finalize nparams nregs fn).code ≡ true)
      × (fn.nregs ≤ (finalize nparams nregs fn).nregs)
      × (nregs ≤ (finalize nparams nregs fn).nregs)
      × (length (finalize nparams nregs fn).ic_envs ≡ length (finalize nparams nregs fn).code)
      × (length (finalize nparams nregs fn).ic_shapes ≡ length (finalize nparams nregs fn).code)
      × (length (finalize nparams nregs fn).ic_slots ≡ length (finalize nparams nregs fn).code)
unfolding finalize
finalize-lem nparams nregs fn a b c =
    let more = with_halt-length fn.code in
    let size = length (with_halt fn.code) in
    (
      with_halt-ends fn.code,
      omega arith,
      omega arith,
      omega (arith, length-grow fn.ic_envs size none, a, more),
      omega (arith, length-grow fn.ic_shapes size 0, b, more),
      omega (arith, length-grow fn.ic_slots size 0, c, more),
    )
