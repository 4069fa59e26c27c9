-- ===== src/Gc/Ending.antt =====
-- `mark_phase` (src/core/gc.cpp): the ways in which it ends.
use r_sjit.Common.{
  ℕ, zero, suc, ◌+◌, ◌<◌, ◌≡◌, ◌≢◌, refl, sym, ◌∙◌, true, ◌==◌, ==_iff, List, [], ◌∷◌, ◌++◌, arith,
  length, length-append, All-append, Elem, ◌⊎◌, inl, inr, Bool-cases,
}
use r_sjit.Gc.{Marked, crashed, done, out_of_fuel, paint, visit_all}
use r_sjit.Gc.Marking.{
  Reaches, here, Known, white_refs, Marks, Marks-skip, Marks-paint, Marks-nil, visit_all-cons,
  visit_all-skip, visit_all-paint, Reaches-skip, Reaches-refs, white_refs-paint,
}

module _ (refs : ℕ → List ℕ) (objs : List ℕ) where
  -- How a marking ends: without fuel, at a null pointer that is reached, or with the colors.
  pub data Ended (ps : List ℕ) (color : ℕ → ℕ) (r : Marked) : Type 0 where
    starved : r ≡ out_of_fuel → Ended ps color r
    fell : r ≡ crashed → Reaches refs ps 0 → Ended ps color r
    marked : Marks refs objs ps color r → Ended ps color r

  Ended-skip :
      (p : ℕ) (ps : List ℕ) (color : ℕ → ℕ) (r : Marked)
      → color p ≡ 2
      → Ended ps color r
      → Ended (p ∷ ps) color r
  Ended-skip p ps color r e (starved h) = starved h
  Ended-skip p ps color r e (fell h path) = fell h (Reaches-skip refs objs p ps 0 path)
  Ended-skip p ps color r e (marked m) = marked (Marks-skip refs objs p ps color r e m)

  Ended-paint :
      (p : ℕ) (ps : List ℕ) (color : ℕ → ℕ) (r : Marked)
      → p ≢ 0
      → Ended (refs p ++ ps) (paint p 2 color) r
      → Ended (p ∷ ps) color r
  Ended-paint p ps color r d (starved h) = starved h
  Ended-paint p ps color r d (fell h path) = fell h (Reaches-refs refs objs p ps 0 path)
  Ended-paint p ps color r d (marked m) = marked (Marks-paint refs objs p ps color r d m)

  visit_all-null :
      (fuel p : ℕ) (ps : List ℕ) (color : ℕ → ℕ)
      → (p == 0) ≡ true
      → visit_all refs (suc fuel) (p ∷ ps) color ≡ crashed
  visit_all-null fuel p ps color e = rw (visit_all-cons refs objs fuel p ps color, e) refl

  visit_all-empty : (ps : List ℕ) (color : ℕ → ℕ) → visit_all refs zero ps color ≡ out_of_fuel
  unfolding visit_all
  visit_all-empty ps color = refl

  pub visit_all-Ended :
      (fuel : ℕ) (ps : List ℕ) (color : ℕ → ℕ) → Ended ps color (visit_all refs fuel ps color)
  visit_all-Ended zero ps color = starved (visit_all-empty ps color)
  visit_all-Ended (suc fuel) [] color = marked (Marks-nil refs objs fuel color)
  visit_all-Ended (suc fuel) (p ∷ ps) color = elim (Bool-cases (p == 0)) [
    | inl z ↦ fell (visit_all-null fuel p ps color z) (here (inl (ground (arith, ==_iff p 0, z))))
    | inr z ↦
        let d : p ≢ 0 = ground (arith, ==_iff p 0, z) in
        elim (Bool-cases (color p == 2)) [
          | inl e ↦
              let black : color p ≡ 2 = ground (arith, ==_iff (color p) 2, e) in
              rw (visit_all-skip refs objs fuel p ps color d black)
                (Ended-skip p ps color _ black (visit_all-Ended fuel ps color))
          | inr e ↦
              let white : color p ≢ 2 = ground (arith, ==_iff (color p) 2, e) in
              rw (visit_all-paint refs objs fuel p ps color d white)
                (Ended-paint p ps color _ d (visit_all-Ended fuel (refs p ++ ps) (paint p 2 color)))
        ]
  ]

  -- With a unit of fuel for each pointer and each reference the marking does not run out of it.
  pub visit_all-enough :
      (fuel : ℕ) (ps : List ℕ) (color : ℕ → ℕ)
      → ((p : ℕ) → Elem p objs → Known refs objs (refs p))
      → Known refs objs ps
      → length ps + white_refs refs objs color objs < fuel
      → visit_all refs fuel ps color ≢ out_of_fuel
  visit_all-enough zero ps color known k l = absurd (omega arith)
  visit_all-enough (suc fuel) [] color known k l =
      let m = Marks-nil refs objs fuel color in λ e. not_starved m.colors (sym m.returns ∙ e)
    where
      not_starved : (c : ℕ → ℕ) → done c ≢ out_of_fuel
      not_starved c e = cc
  visit_all-enough (suc fuel) (p ∷ ps) color known (inl z, ks) l =
      rw (visit_all-null fuel p ps color (ground (arith, z))) (λ e. cc)
  visit_all-enough (suc fuel) (p ∷ ps) color known (inr h, ks) l = elim (Bool-cases (p == 0)) [
    | inl z ↦ rw (visit_all-null fuel p ps color z) (λ e. cc)
    | inr z ↦
        let d : p ≢ 0 = ground (arith, ==_iff p 0, z) in
        elim (Bool-cases (color p == 2)) [
          | inl e ↦
              let black : color p ≡ 2 = ground (arith, ==_iff (color p) 2, e) in
              rw (visit_all-skip refs objs fuel p ps color d black)
                (visit_all-enough fuel ps color known ks (omega (arith, l)))
          | inr e ↦
              let white : color p ≢ 2 = ground (arith, ==_iff (color p) 2, e) in
              rw (visit_all-paint refs objs fuel p ps color d white) (
                visit_all-enough fuel (refs p ++ ps) (paint p 2 color) known
                  (All-append (λ (q : ℕ). (q ≡ 0) ⊎ Elem q objs) (refs p) ps (known p h) ks)
                  (omega (
                    arith,
                    l,
                    length-append (refs p) ps,
                    white_refs-paint refs objs p color objs h white,
                  )))
        ]
  ]
