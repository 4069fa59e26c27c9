-- ===== src/Quickening/Tests.antt =====
-- The rewriting of opcodes (src/vm/quickening.cpp) at concrete inputs.
use r_sjit.Common.{◌≡◌, refl, arith, if◌then◌else◌, leb, replicate, ◌++◌, ◌∷◌, inl}
use r_sjit.Value.Tag.{TypeTag, tag_code}
use r_sjit.Bytecode.{Op, Instr, no_instr}
use r_sjit.Quickening.{nibble, specialised, quicken_threshold}
use r_sjit.Quickening.Runs.{observe_all, observe_all-replicate, or_same}
use r_sjit.Quickening.Mixed.{observe_all-mixed}

abbrev add_instr : Instr
add_instr = record no_instr { op = Op.add }

observe_all-replicate_example :
    (observe_all add_instr (replicate 8 (TypeTag.real, TypeTag.real))).op ≡ (
      if leb quicken_threshold 8
      then or_same (specialised Op.add (nibble TypeTag.real) (nibble TypeTag.real)) Op.add
      else Op.add)
observe_all-replicate_example = observe_all-replicate add_instr 8 TypeTag.real TypeTag.real refl

-- Two pairs of doubles, a pair of integers, and ten pairs of doubles.
observe_all-mixed_example :
    (observe_all add_instr (
      replicate 2 (TypeTag.real, TypeTag.real)
      ++ (TypeTag.integer, TypeTag.integer) ∷ replicate 10 (TypeTag.real, TypeTag.real))).op
    ≡ Op.add
unfolding tag_code
observe_all-mixed_example =
    observe_all-mixed add_instr 1 TypeTag.real TypeTag.real TypeTag.integer TypeTag.integer
      (replicate 10 (TypeTag.real, TypeTag.real)) refl (omega arith) (inl (omega arith))
