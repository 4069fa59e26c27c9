-- ===== src/Quickening/Runs.antt =====
-- Sequences of observations of one instruction (src/vm/quickening.cpp): after eight observations of
-- one pair of types the opcode is rewritten, and never once the types have differed.
use native.Mathlib.Decide.{dec_lt}
use r_sjit.Common.{
  ℕ, zero, suc, ◌+◌, ◌≡◌, ◌<◌, ◌≤◌, min, refl, ap, ◌∙◌, List, [], ◌∷◌, Option, none, some, true,
  false, leb, arith, replicate, if◌then◌else◌, inl, inr, Option-cases, leb_of_le,
}
use r_sjit.Value.Tag.{TypeTag}
use r_sjit.Bytecode.{Op, Instr}
use r_sjit.Quickening.{
  nibble, specialised, quicken_observe, rewrite, quicken_threshold, set_quickened, is_quickened,
}
use r_sjit.Quickening.Profile.{Profile, IsSmall, pack, fresh, note, verdict, quicken_observe-pack}

-- The dispatch loop observes an instruction once each time that it runs it.
unfoldable pub observe_all : Instr → List (TypeTag × TypeTag) → Instr
observe_all i [] = i
observe_all i ((ta, tb) ∷ ts) = observe_all (quicken_observe i ta tb) ts

-- The instruction as the compiler emits it: no flags.
abbrev pub IsFresh : Instr → Type 0
IsFresh i = i.flags ≡ 0

-- The opcode that a rewrite leaves.
abbrev pub or_same : Option Op → Op → Op
or_same none op = op
or_same (some new) op = new

abbrev pub steady : ℕ → ℕ → ℕ → Profile
steady n a b = record { count = n; ra = a; rb = b; consistent = true }

module _ (i : Instr) (ta tb : TypeTag) where
  -- The first observation.
  pub first_step :
      IsFresh i
      → quicken_observe i ta tb ≡ record i { flags = pack (steady 1 (nibble ta) (nibble tb)) }
  unfolding verdict note
  first_step f = quicken_observe-pack i fresh ta tb (omega arith) (f ∙ fresh_flags)
    where
      fresh_flags : 0 ≡ pack fresh
      fresh_flags = unfold pack in refl

  steady-IsSmall : (n : ℕ) → n < 16 → IsSmall (steady n (nibble ta) (nibble tb))
  steady-IsSmall n h = omega arith

  note-steady :
      (n : ℕ)
      → note (steady (suc n) (nibble ta) (nibble tb)) (nibble ta) (nibble tb)
        ≡ steady (min (suc n + 1) 15) (nibble ta) (nibble tb)
  unfolding note
  note-steady n = ground arith

  -- Another observation of the same types.
  pub next_step :
      (n : ℕ)
      → n < 15
      → i.flags ≡ pack (steady (suc n) (nibble ta) (nibble tb))
      → quicken_observe i ta tb ≡ verdict i (steady (min (suc n + 1) 15) (nibble ta) (nibble tb))
  next_step n h e =
      quicken_observe-pack i (steady (suc n) (nibble ta) (nibble tb)) ta tb
        (steady-IsSmall (suc n) (omega arith)) e
      ∙ ap (verdict i) (note-steady n)

pub observe_all-cons :
    (i : Instr) (ta tb : TypeTag) (ts : List (TypeTag × TypeTag))
    → observe_all i ((ta, tb) ∷ ts) ≡ observe_all (quicken_observe i ta tb) ts
unfolding observe_all
observe_all-cons i ta tb ts = refl

pub observe_all-nil : (i : Instr) → observe_all i [] ≡ i
unfolding observe_all
observe_all-nil i = refl

-- A rewritten instruction is never touched again.
quickened_stays :
    (i : Instr) (ts : List (TypeTag × TypeTag)) → is_quickened i.flags ≡ true → observe_all i ts ≡ i
unfolding observe_all
quickened_stays i [] h = refl
quickened_stays i ((ta, tb) ∷ ts) h = rw (observed_once) (quickened_stays i ts h)
  where
    observed_once : quicken_observe i ta tb ≡ i
    observed_once = unfold quicken_observe in ground arith

pub set_quickened-is_quickened : (f : ℕ) → is_quickened (set_quickened f) ≡ true
unfolding set_quickened is_quickened
set_quickened-is_quickened f = ground arith

pub verdict-none :
    (i : Instr) (p : Profile)
    → specialised i.op p.ra p.rb ≡ none
    → verdict i p ≡ record i { flags = pack p }
unfolding verdict rewrite
verdict-none i p h = ground arith

verdict-some :
    (i : Instr) (p : Profile) (new : Op)
    → quicken_threshold ≤ p.count
    → p.consistent ≡ true
    → specialised i.op p.ra p.rb ≡ some new
    → verdict i p ≡ record i { op = new; flags = set_quickened (pack p) }
unfolding verdict rewrite
verdict-some i p new t c h = rw (c, h) (ground arith)

pub verdict_unripe :
    (i : Instr) (p : Profile)
    → p.count < quicken_threshold
    → verdict i p ≡ record i { flags = pack p }
unfolding verdict
verdict_unripe i p t = ground arith

pub verdict_undecided :
    (i : Instr) (p : Profile) → p.consistent ≡ false → verdict i p ≡ record i { flags = pack p }
unfolding verdict
verdict_undecided i p t = ground arith

capped : (n : ℕ) → min (suc n + 1) 15 ≡ suc (min (suc n) 14)
capped n = omega arith

-- Once the threshold is reached the specialised opcode, if there is one, is there to stay.
ripe :
    (m : ℕ) (i : Instr) (n : ℕ) (ta tb : TypeTag)
    → n < 15
    → quicken_threshold ≤ suc n + 1
    → i.flags ≡ pack (steady (suc n) (nibble ta) (nibble tb))
    → (observe_all i (replicate (suc m) (ta, tb))).op
      ≡ or_same (specialised i.op (nibble ta) (nibble tb)) i.op
ripe zero i n ta tb h t e =
    rw (observe_all-cons i ta tb [], observe_all-nil, next_step i ta tb n h e)
      (elim (Option-cases (specialised i.op (nibble ta) (nibble tb))) [
        | inl s ↦ rw (verdict-none i (steady (min (suc n + 1) 15) (nibble ta) (nibble tb)) s, s)
        | inr (new, s) ↦ rw (
          verdict-some i (steady (min (suc n + 1) 15) (nibble ta) (nibble tb)) new (omega arith)
              refl s,
          s,
        )
      ])
ripe (suc m) i n ta tb h t e =
    rw (observe_all-cons i ta tb _, next_step i ta tb n h e)
      (elim (Option-cases (specialised i.op (nibble ta) (nibble tb))) [
        | inl s ↦ rw (verdict-none i (steady (min (suc n + 1) 15) (nibble ta) (nibble tb)) s) (
            ripe m (record i { flags = pack (steady (min (suc n + 1) 15) (nibble ta) (nibble tb)) })
              (min (suc n) 14) ta tb (omega arith) (omega arith)
              (ap (λ (c : ℕ). pack (steady c (nibble ta) (nibble tb))) (capped n)))
        | inr (new, s) ↦
            rw
              (verdict-some i (steady (min (suc n + 1) 15) (nibble ta) (nibble tb)) new
                (omega arith) refl s)
              (ap (λ (j : Instr). j.op)
                  (quickened_stays
                    (record i {
                      op = new;
                      flags =
                          set_quickened
                            (pack (steady (min (suc n + 1) 15) (nibble ta) (nibble tb)));
                    })
                    (replicate (suc m) (ta, tb)) (set_quickened-is_quickened _))
                ∙ rw s)
      ])

-- Up to the threshold, from an instruction that was observed `suc n` times.
unripe :
    (m : ℕ) (i : Instr) (n : ℕ) (ta tb : TypeTag)
    → suc n < quicken_threshold
    → i.flags ≡ pack (steady (suc n) (nibble ta) (nibble tb))
    → (observe_all i (replicate m (ta, tb))).op ≡ (
        if leb quicken_threshold (suc n + m)
        then or_same (specialised i.op (nibble ta) (nibble tb)) i.op
        else i.op)
unripe zero i n ta tb h e = rw observe_all-nil (ground arith)
unripe (suc m) i n ta tb h e = elim (dec_lt (suc (suc n)) quicken_threshold) [
  | yes below ↦
      rw
        (
          observe_all-cons i ta tb _,
          next_step i ta tb n (omega arith) e,
          verdict_unripe i (steady (min (suc n + 1) 15) (nibble ta) (nibble tb)) (omega arith),
        )
        (unripe m (record i { flags = pack (steady (min (suc n + 1) 15) (nibble ta) (nibble tb)) })
            (suc n) ta tb below
            (ap (λ (c : ℕ). pack (steady c (nibble ta) (nibble tb))) (omega arith))
          ∙ ap
              (λ (c : ℕ).
                if leb quicken_threshold c
                then or_same (specialised i.op (nibble ta) (nibble tb)) i.op
                else i.op)
              (omega arith))
  | no over ↦
      rw (leb_of_le quicken_threshold (suc n + suc m) (omega arith))
        (ripe m i n ta tb (omega arith) (omega arith) e)
]

-- From an instruction without flags, fewer than eight observations of one pair of types leave the
-- opcode, and eight or more leave the specialised opcode of the nibbles of that pair, where there
-- is one.
pub observe_all-replicate :
    (i : Instr) (n : ℕ) (ta tb : TypeTag)
    → IsFresh i
    → (observe_all i (replicate n (ta, tb))).op ≡ (
        if leb quicken_threshold n
        then or_same (specialised i.op (nibble ta) (nibble tb)) i.op
        else i.op)
observe_all-replicate i zero ta tb f = rw observe_all-nil
observe_all-replicate i (suc m) ta tb f =
    rw (observe_all-cons i ta tb _, first_step i ta tb f)
      (unripe m (record i { flags = pack (steady 1 (nibble ta) (nibble tb)) }) 0 ta tb (omega arith)
          refl
        ∙ ap
            (λ (c : ℕ).
              if leb quicken_threshold c
              then or_same (specialised i.op (nibble ta) (nibble tb)) i.op
              else i.op)
            (omega arith))
