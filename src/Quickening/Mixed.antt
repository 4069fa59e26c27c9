-- ===== src/Quickening/Mixed.antt =====
-- Observations of different types (src/vm/quickening.cpp): they rule a rewrite out for good. The
-- batch pass does nothing when it is run again.
use r_sjit.Common.{
  ℕ, zero, suc, ◌+◌, ◌≡◌, ◌≢◌, ◌<◌, min, refl, ap, List, [], ◌∷◌, ◌++◌, ◌⊎◌, false, arith,
  replicate,
}
use r_sjit.Value.Tag.{TypeTag}
use r_sjit.Bytecode.{Instr}
use r_sjit.Quickening.{nibble, quicken_threshold, quicken, quicken_one, rewrite}
use r_sjit.Quickening.Profile.{Profile, IsSmall, pack, note, quicken_observe-pack, note-IsSmall}
use r_sjit.Quickening.Runs.{
  observe_all, observe_all-cons, observe_all-nil, IsFresh, steady, first_step, next_step,
  verdict_undecided, verdict_unripe, set_quickened-is_quickened,
}

-- Different types were seen.
record IsUndecided (p : Profile) : Type 0 where
  small : IsSmall p
  begun : 0 < p.count
  mixed : p.consistent ≡ false

note-IsUndecided :
    (p : Profile) (a b : ℕ) → a < 16 → b < 16 → IsUndecided p → IsUndecided (note p a b)
unfolding note
note-IsUndecided p a b ha hb u = record {
  small = note-IsSmall p u.small a b ha hb;
  begun = ground (arith, u.begun);
  mixed = ground (arith, u.begun, u.mixed);
}

undecided_stays :
    (ts : List (TypeTag × TypeTag)) (i : Instr) (p : Profile)
    → IsUndecided p
    → i.flags ≡ pack p
    → (observe_all i ts).op ≡ i.op
undecided_stays [] i p u e = rw observe_all-nil
undecided_stays ((ta, tb) ∷ ts) i p u e =
    let v = note-IsUndecided p (nibble ta) (nibble tb) (omega arith) (omega arith) u in
    rw
      (
        observe_all-cons i ta tb ts,
        quicken_observe-pack i p ta tb u.small e,
        verdict_undecided i (note p (nibble ta) (nibble tb)) v.mixed,
      )
      (undecided_stays ts (record i { flags = pack (note p (nibble ta) (nibble tb)) }) _ v refl)

-- An instruction that has seen one pair of types fewer than eight times, then sees another.
other_step :
    (i : Instr) (n : ℕ) (ta tb tc td : TypeTag) (ts : List (TypeTag × TypeTag))
    → suc n < quicken_threshold
    → (nibble ta ≢ nibble tc) ⊎ (nibble tb ≢ nibble td)
    → i.flags ≡ pack (steady (suc n) (nibble ta) (nibble tb))
    → (observe_all i ((tc, td) ∷ ts)).op ≡ i.op
other_step i n ta tb tc td ts h d e =
    rw
      (
        observe_all-cons i tc td ts,
        quicken_observe-pack i before tc td small e,
        verdict_undecided i after u.mixed,
      )
      (undecided_stays ts (record i { flags = pack after }) after u refl)
  where
    before : Profile
    before = steady (suc n) (nibble ta) (nibble tb)

    after : Profile
    after = note before (nibble tc) (nibble td)

    small : IsSmall before
    small = omega arith

    u : IsUndecided after
    u = record {
      small = note-IsSmall before small (nibble tc) (nibble td) (omega arith) (omega arith);
      begun = unfold note in ground arith;
      mixed = unfold note in ground arith;
    }

before_other :
    (m : ℕ) (i : Instr) (n : ℕ) (ta tb tc td : TypeTag) (ts : List (TypeTag × TypeTag))
    → suc n + m < quicken_threshold
    → (nibble ta ≢ nibble tc) ⊎ (nibble tb ≢ nibble td)
    → i.flags ≡ pack (steady (suc n) (nibble ta) (nibble tb))
    → (observe_all i (replicate m (ta, tb) ++ (tc, td) ∷ ts)).op ≡ i.op
before_other zero i n ta tb tc td ts h d e = other_step i n ta tb tc td ts (omega arith) d e
before_other (suc m) i n ta tb tc td ts h d e =
    rw
      (
        observe_all-cons i ta tb _,
        next_step i ta tb n (omega arith) e,
        verdict_unripe i (steady (min (suc n + 1) 15) (nibble ta) (nibble tb)) (omega arith),
      )
      (before_other m
        (record i { flags = pack (steady (min (suc n + 1) 15) (nibble ta) (nibble tb)) }) (suc n) ta
        tb tc td ts (omega arith) d
        (ap (λ (c : ℕ). pack (steady c (nibble ta) (nibble tb))) (omega arith)))

-- From an instruction without flags, one to seven observations of a pair of types and then one of
-- a pair that differs in a nibble leave the opcode as it is under any further observations.
pub observe_all-mixed :
    (i : Instr) (n : ℕ) (ta tb tc td : TypeTag) (ts : List (TypeTag × TypeTag))
    → IsFresh i
    → suc n < quicken_threshold
    → (nibble ta ≢ nibble tc) ⊎ (nibble tb ≢ nibble td)
    → (observe_all i (replicate (suc n) (ta, tb) ++ (tc, td) ∷ ts)).op ≡ i.op
observe_all-mixed i n ta tb tc td ts f h d =
    rw (observe_all-cons i ta tb _, first_step i ta tb f)
      (before_other n (record i { flags = pack (steady 1 (nibble ta) (nibble tb)) }) 0 ta tb tc td
        ts (omega arith) d refl)

quicken_one-quicken_one : (i : Instr) → quicken_one (quicken_one i).0 ≡ ((quicken_one i).0, 0)
unfolding quicken_one rewrite
quicken_one-quicken_one i = ground (arith, set_quickened-is_quickened i.flags)

-- The batch pass on the code that it has gone over changes nothing and counts no rewrite.
pub quicken-quicken : (code : List Instr) → quicken (quicken code).0 ≡ ((quicken code).0, 0)
unfolding quicken
quicken-quicken [] = refl
quicken-quicken (i ∷ code) = ground (arith, quicken_one-quicken_one i, quicken-quicken code)
