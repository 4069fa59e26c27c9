-- ===== src/Quickening.antt =====
-- src/vm/quickening.cpp: opcodes rewritten after their operands showed the same types often enough.
--
-- The `&` and `|` of the source on disjoint bit fields of the 16-bit flags are written as sums of
-- the fields, and `(f >> s) & mask` as a quotient and a remainder.
pub mod Profile
pub mod Runs
pub mod Mixed
mod Tests
use r_sjit.Common.{
  ℕ, suc, ◌+◌, ◌-◌, ◌*◌, ◌/◌, ◌%◌, min, List, [], ◌∷◌, Option, none, some, Bool, true, false, not,
  ◌&&◌, ◌||◌, leb, ◌==◌, if◌then◌else◌,
}
use r_sjit.Value.Tag.{TypeTag, tag_code}
use r_sjit.Bytecode.{Op, Instr}

-- kQuickenThreshold
abbrev pub quicken_threshold : ℕ
quicken_threshold = 8

unfoldable pub get_counter : ℕ → ℕ
get_counter flags = flags % 16

unfoldable pub get_ra_type : ℕ → ℕ
get_ra_type flags = flags / 16 % 16

unfoldable pub get_rb_type : ℕ → ℕ
get_rb_type flags = flags / 256 % 16

unfoldable pub is_consistent : ℕ → Bool
is_consistent flags = flags / 4096 % 2 == 1

unfoldable pub is_quickened : ℕ → Bool
is_quickened flags = flags / 8192 % 2 == 1

unfoldable pub set_counter : ℕ → ℕ → ℕ
set_counter f c = f - f % 16 + c % 16

unfoldable pub set_ra_type : ℕ → ℕ → ℕ
set_ra_type f t = f - f / 16 % 16 * 16 + t % 16 * 16

unfoldable pub set_rb_type : ℕ → ℕ → ℕ
set_rb_type f t = f - f / 256 % 16 * 256 + t % 16 * 256

unfoldable pub set_consistent : ℕ → Bool → ℕ
set_consistent f c = f - f / 4096 % 2 * 4096 + (if c then 4096 else 0)

unfoldable pub set_quickened : ℕ → ℕ
set_quickened f = f - f / 8192 % 2 * 8192 + 8192

-- `static_cast<uint8_t>(t) & 0xF`
abbrev pub nibble : TypeTag → ℕ
nibble t = tag_code t % 16

both_real : ℕ → ℕ → Bool
both_real a b = (a == 3) && (b == 3)

both_integer : ℕ → ℕ → Bool
both_integer a b = (a == 2) && (b == 2)

abbrev when : Bool → Op → Option Op
when b op = if b then some op else none

abbrev arithmetic : ℕ → ℕ → Op → Op → Option Op
arithmetic a b of_reals of_integers =
    if both_real a b then some of_reals else when (both_integer a b) of_integers

-- The switch on the opcode: the specialised opcode, or `none` where the opcode stays. The type tags
-- are compared as the nibbles that the flags keep.
unfoldable pub specialised : Op → ℕ → ℕ → Option Op
unfolding both_real both_integer
specialised Op.add a b = arithmetic a b Op.add_real_real Op.add_int_int
specialised Op.sub a b = arithmetic a b Op.sub_real_real Op.sub_int_int
specialised Op.mul a b = arithmetic a b Op.mul_real_real Op.mul_int_int
specialised Op.div a b = when (both_real a b) Op.div_real_real
specialised Op.lt a b = when (both_real a b) Op.lt_real_real
specialised Op.le a b = when (both_real a b) Op.le_real_real
specialised Op.gt a b = when (both_real a b) Op.gt_real_real
specialised Op.ge a b = when (both_real a b) Op.ge_real_real
specialised Op.eq a b = when (both_real a b) Op.eq_real_real
specialised Op.ne a b = when (both_real a b) Op.ne_real_real
specialised _ a b = none

-- The rewrite at the end of `quicken_observe` and in the loop of `quicken`.
unfoldable pub rewrite : Instr → ℕ → Option Op → Instr
rewrite i flags none = record i { flags = flags }
rewrite i flags (some op) = record i { op = op; flags = set_quickened flags }

-- The flags after the types were compared with those seen before, the counter not yet counted up.
unfoldable pub compared : ℕ → ℕ → ℕ → ℕ
compared flags a b =
    if get_counter flags == 0
    then set_consistent (set_rb_type (set_ra_type flags a) b) true
    else if not (is_consistent flags)
        || not (get_ra_type flags == a)
        || not (get_rb_type flags == b)
    then set_consistent flags false
    else flags

-- The flags after an observation.
unfoldable pub counted : ℕ → ℕ → ℕ → ℕ
counted flags a b = set_counter (compared flags a b) (min (get_counter flags + 1) 15)

unfoldable pub quicken_observe : Instr → TypeTag → TypeTag → Instr
quicken_observe i ta tb =
    let flags = counted i.flags (nibble ta) (nibble tb) in
    if is_quickened i.flags
    then i
    else if leb quicken_threshold (get_counter flags) && is_consistent flags
    then rewrite i flags (specialised i.op (get_ra_type flags) (get_rb_type flags))
    else record i { flags = flags }

-- One instruction in the loop of `quicken`, and whether it was rewritten.
unfoldable pub quicken_one : Instr → Instr × ℕ
quicken_one i =
    if is_quickened i.flags || not (is_consistent i.flags)
    then (i, 0)
    else if leb quicken_threshold (get_counter i.flags)
    then (elim (specialised i.op (get_ra_type i.flags) (get_rb_type i.flags)) [
      | none ↦ (i, 0)
      | some op ↦ (rewrite i i.flags (some op), 1)
    ])
    else (i, 0)

-- `quicken`: the rewritten code and the count of rewrites.
unfoldable pub quicken : List Instr → List Instr × ℕ
quicken [] = ([], 0)
quicken (i ∷ code) =
    let rest = quicken code in ((quicken_one i).0 ∷ rest.0, (quicken_one i).1 + rest.1)
