-- ===== src/Machine/Quickened.antt =====
-- src/vm/interpreter.cpp, src/vm/quickening.cpp: a step on an instruction and on the one that the
-- quickening puts in its place.
use r_sjit.Common.{
  ℕ, suc, ◌≡◌, refl, ap, sym, subst, ◌∙◌, Bool-cases, inl, inr, List, length, Option, some, none,
  get_elem?, set, ltb, if◌then◌else◌, zero, [], ◌∷◌,
}
use r_sjit.Common.Int.{ℤ}
use r_sjit.Value.{Value, Float, real}
use r_sjit.Value.Tag.{TypeTag, tag_code}
use r_sjit.Bytecode.{Op, Instr}
use r_sjit.Quickening.{specialised, nibble}
use r_sjit.Machine.{value_of}
use r_sjit.Machine.Step.{
  Machine, Outcome, running, reg, next, write, is_observed, observe, constant, written,
  execute_instr, step_at, step,
}
use r_sjit.Machine.Agreement.{some_inj, value_of-specialised_reals}

get_elem?-set_self :
    (xs : List Instr) (n : ℕ) (a b : Instr)
    → get_elem? xs n ≡ some a
    → get_elem? (set xs n b) n ≡ some b
get_elem?-set_self [] n a b h = absurd (cc)
get_elem?-set_self (x ∷ xs) zero a b h = refl
get_elem?-set_self (x ∷ xs) (suc n) a b h = get_elem?-set_self xs n a b h

-- The registers and the instruction pointer of a machine that goes on.
abbrev pub regs_after : Outcome → Option (List Value × ℕ)
regs_after (running m) = some (m.regs, m.pc)
regs_after _ = none

abbrev with_result : ℕ → List Value → ℕ → Option Value → Option (List Value × ℕ)
with_result r regs pc none = none
with_result r regs pc (some v) = if ltb r (length regs) then some (set regs r v, suc pc) else none

regs_after-written :
    (i : Instr) (m : Machine) (o : Option Value)
    → regs_after (written i m o) ≡ with_result i.rdest m.regs m.pc o
unfolding written next write
regs_after-written i m none = refl
regs_after-written i m (some v) = elim (Bool-cases (ltb i.rdest (length m.regs))) [
  | inl e ↦ rw (e) refl
  | inr e ↦ rw (e) refl
]

observe-regs : (i : Instr) (m : Machine) → ((observe i m).regs ≡ m.regs) × ((observe i m).pc ≡ m.pc)
unfolding observe
observe-regs i m = elim (Bool-cases (is_observed i.op)) [
  | inl e ↦ rw (e) (refl, refl)
  | inr e ↦ rw (e) (refl, refl)
]

regs_after-observed :
    (i : Instr) (m : Machine) (o : Option Value)
    → regs_after (written i (observe i m) o) ≡ with_result i.rdest m.regs m.pc o
regs_after-observed i m o =
    let same = observe-regs i m in
    regs_after-written i (observe i m) o
    ∙ ap (λ rs. with_result i.rdest rs (observe i m).pc o) same.0
    ∙ ap (λ p. with_result i.rdest m.regs p o) same.1

module _ (f : Float) (truncate : ℕ → ℤ) (force : Value → Value) where
  -- The opcodes that write what `value_of` gives.
  Writes : Op → Type 0
  Writes op =
      (i : Instr) (m : Machine)
      → execute_instr f truncate force op i m
        ≡ written i (observe i m)
            (value_of f truncate force op (reg m i.ra) (reg m i.rb) (constant m i))

  specialised-Writes :
      (op q : Op)
      → specialised op (nibble TypeTag.real) (nibble TypeTag.real) ≡ some q
      → Writes op × Writes q
  unfolding specialised tag_code Writes execute_instr
  specialised-Writes Op.add q e = (λ i m. refl, subst Writes (some_inj _ _ e) (λ i m. refl))
  specialised-Writes Op.sub q e = (λ i m. refl, subst Writes (some_inj _ _ e) (λ i m. refl))
  specialised-Writes Op.mul q e = (λ i m. refl, subst Writes (some_inj _ _ e) (λ i m. refl))
  specialised-Writes Op.div q e = (λ i m. refl, subst Writes (some_inj _ _ e) (λ i m. refl))
  specialised-Writes Op.lt q e = (λ i m. refl, subst Writes (some_inj _ _ e) (λ i m. refl))
  specialised-Writes Op.le q e = (λ i m. refl, subst Writes (some_inj _ _ e) (λ i m. refl))
  specialised-Writes Op.gt q e = (λ i m. refl, subst Writes (some_inj _ _ e) (λ i m. refl))
  specialised-Writes Op.ge q e = (λ i m. refl, subst Writes (some_inj _ _ e) (λ i m. refl))
  specialised-Writes Op.eq q e = (λ i m. refl, subst Writes (some_inj _ _ e) (λ i m. refl))
  specialised-Writes Op.ne q e = (λ i m. refl, subst Writes (some_inj _ _ e) (λ i m. refl))
  specialised-Writes _ q e = absurd cc

  regs_after-step :
      (i : Instr) (m : Machine)
      → get_elem? m.code m.pc ≡ some i
      → Writes i.op
      → regs_after (step f truncate force m)
        ≡ with_result i.rdest m.regs m.pc
            (value_of f truncate force i.op (reg m i.ra) (reg m i.rb) (constant m i))
  unfolding step step_at Writes
  regs_after-step i m at writes =
      ap (λ o. regs_after (step_at f truncate force o m)) at
      ∙ ap regs_after (writes i m)
      ∙ regs_after-observed i m _

  abbrev pub with_instr : Instr → Machine → Machine
  with_instr i m = record m { code = set m.code m.pc i }

  -- When the instruction at the pc has an opcode that quickening specialises for two doubles and
  -- its operand registers hold doubles, a step leaves the same registers and pc, or stops, as a
  -- step does with the specialised opcode and any flags in its place.
  pub step-quickened :
      (i : Instr) (q : Op) (flags x y : ℕ) (m : Machine)
      → get_elem? m.code m.pc ≡ some i
      → specialised i.op (nibble TypeTag.real) (nibble TypeTag.real) ≡ some q
      → reg m i.ra ≡ real x
      → reg m i.rb ≡ real y
      → regs_after (step f truncate force m)
        ≡ regs_after (step f truncate force (with_instr (record i { op = q; flags = flags }) m))
  unfolding reg constant
  step-quickened i q flags x y m at e a b =
      let j : Instr = record i { op = q; flags = flags } in
      let writes = specialised-Writes i.op q e in
      let result =
        λ (o : Op). value_of f truncate force o (reg m i.ra) (reg m i.rb) (constant m i) in
      let same : result i.op ≡ result q =
        rw (a, b) (value_of-specialised_reals f truncate force i.op q x y (constant m i) e) in
      regs_after-step i m at writes.0
      ∙ ap (with_result i.rdest m.regs m.pc) same
      ∙ sym (regs_after-step j (with_instr j m) (get_elem?-set_self m.code m.pc i j at) writes.1)
