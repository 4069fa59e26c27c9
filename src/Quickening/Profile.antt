-- ===== src/Quickening/Profile.antt =====
-- The flags of an instruction (src/vm/quickening.cpp) as a small record, and an observation as a
-- step on it.
use r_sjit.Common.{
  ℕ, ◌+◌, ◌*◌, ◌≡◌, ◌<◌, min, Bool, true, false, ◌&&◌, leb, ◌==◌, arith, if◌then◌else◌,
}
use r_sjit.Value.Tag.{TypeTag}
use r_sjit.Bytecode.{Instr}
use r_sjit.Quickening.{
  get_counter, get_ra_type, get_rb_type, is_consistent, is_quickened, set_counter, set_ra_type,
  set_rb_type, set_consistent, nibble, specialised, compared, counted, quicken_observe, rewrite,
  quicken_threshold,
}

-- What the flags of an instruction that was not yet rewritten say.
pub record Profile : Type 0 where
  pub count : ℕ
  pub ra : ℕ
  pub rb : ℕ
  pub consistent : Bool

pub record IsSmall (p : Profile) : Type 0 where
  pub count_small : p.count < 16
  pub ra_small : p.ra < 16
  pub rb_small : p.rb < 16

abbrev pub bit : Bool → ℕ
bit true = 1
bit false = 0

unfoldable pub pack : Profile → ℕ
pack p = p.count + 16 * p.ra + 256 * p.rb + 4096 * bit p.consistent

abbrev pub fresh : Profile
fresh = record { count = 0; ra = 0; rb = 0; consistent = false }

-- The types are the first pair seen, and are consistent while every later pair is the same.
unfoldable pub note : Profile → ℕ → ℕ → Profile
note p a b =
    if p.count == 0 then record { count = 1; ra = a; rb = b; consistent = true } else record p {
      count = min (p.count + 1) 15;
      consistent = p.consistent && (p.ra == a) && (p.rb == b);
    }

-- The instruction that an observation leaves, given the profile after it.
unfoldable pub verdict : Instr → Profile → Instr
verdict i p =
    if leb quicken_threshold p.count && p.consistent
    then rewrite i (pack p) (specialised i.op p.ra p.rb)
    else record i { flags = pack p }

module _ (p : Profile) (s : IsSmall p) where
  pack_fields :
      (get_counter (pack p) ≡ p.count)
      × (get_ra_type (pack p) ≡ p.ra)
      × (get_rb_type (pack p) ≡ p.rb)
      × (is_consistent (pack p) ≡ p.consistent)
      × (is_quickened (pack p) ≡ false)
  unfolding pack get_counter get_ra_type get_rb_type is_consistent is_quickened
  pack_fields = ground arith

  counted-pack : (a b : ℕ) → a < 16 → b < 16 → counted (pack p) a b ≡ pack (note p a b)
  unfolding counted compared pack note get_counter get_ra_type get_rb_type is_consistent set_counter
      set_ra_type set_rb_type set_consistent
  counted-pack a b ha hb = ground arith

  pub note-IsSmall : (a b : ℕ) → a < 16 → b < 16 → IsSmall (note p a b)
  unfolding note
  note-IsSmall a b ha hb = ground (arith, s.count_small, s.ra_small, s.rb_small)

-- On flags that hold a profile, `quicken_observe` is a step of the profile.
pub quicken_observe-pack :
    (i : Instr) (p : Profile) (ta tb : TypeTag)
    → IsSmall p
    → i.flags ≡ pack p
    → quicken_observe i ta tb ≡ verdict i (note p (nibble ta) (nibble tb))
unfolding quicken_observe verdict
quicken_observe-pack i p ta tb s e =
    let a : ℕ = nibble ta in
    let b : ℕ = nibble tb in
    let q = note p a b in
    let fields = pack_fields q (note-IsSmall p s a b (omega arith) (omega arith)) in
    let before = pack_fields p s in
    rw (
      e,
      before.4,
      counted-pack p s a b (omega arith) (omega arith),
      fields.0,
      fields.1,
      fields.2,
      fields.3,
    )
