-- ===== src/Gc/Marking.antt =====
-- `mark_phase` (src/core/gc.cpp) ends, and paints the objects that the roots reach, and no others.
use r_sjit.Common.{
  ℕ, suc, ◌+◌, ◌≤◌, ◌≡◌, ◌≢◌, refl, ap, sym, ◌∙◌, true, false, ◌==◌, ==_iff, ==_ne, List, [], ◌∷◌,
  ◌++◌, if◌then◌else◌, arith, length, All, Elem, ◌⊎◌, inl, inr, subst,
}
use r_sjit.Gc.{Marked, crashed, done, paint, visit_all}

-- The objects that a list of objects leads to.
pub data Reaches (refs : ℕ → List ℕ) (ps : List ℕ) : ℕ → Type 0 where
  here : {p : ℕ} → Elem p ps → Reaches refs ps p
  there : {p q : ℕ} → Reaches refs ps p → Elem q (refs p) → Reaches refs ps q

Elem-append : (p : ℕ) (xs ys : List ℕ) → Elem p (xs ++ ys) → Elem p xs ⊎ Elem p ys
Elem-append p [] ys h = inr h
Elem-append p (x ∷ xs) ys (inl e) = inl (inl e)
Elem-append p (x ∷ xs) ys (inr h) = elim (Elem-append p xs ys h) [
  | inl a ↦ inl (inr a)
  | inr b ↦ inr b
]

pub Elem-append_left : (p : ℕ) (xs ys : List ℕ) → Elem p xs → Elem p (xs ++ ys)
Elem-append_left p [] ys h = elim h [ ]
Elem-append_left p (x ∷ xs) ys (inl e) = inl e
Elem-append_left p (x ∷ xs) ys (inr h) = inr (Elem-append_left p xs ys h)

pub Elem-append_right : (p : ℕ) (xs ys : List ℕ) → Elem p ys → Elem p (xs ++ ys)
Elem-append_right p [] ys h = h
Elem-append_right p (x ∷ xs) ys h = inr (Elem-append_right p xs ys h)

module _ (refs : ℕ → List ℕ) (objs : List ℕ) where
  -- The references that are still to be put on the list.
  abbrev pub white_refs : (ℕ → ℕ) → List ℕ → ℕ
  white_refs color [] = 0
  white_refs color (b ∷ bs) = (if color b == 2 then 0 else length (refs b)) + white_refs color bs

  white_refs-paint_le :
      (p : ℕ) (color : ℕ → ℕ) (bs : List ℕ) → white_refs (paint p 2 color) bs ≤ white_refs color bs
  unfolding paint
  white_refs-paint_le p color [] = omega arith
  white_refs-paint_le p color (b ∷ bs) = ground (arith, white_refs-paint_le p color bs)

  pub white_refs-paint :
      (p : ℕ) (color : ℕ → ℕ) (bs : List ℕ)
      → Elem p bs
      → color p ≢ 2
      → white_refs (paint p 2 color) bs + length (refs p) ≤ white_refs color bs
  unfolding paint
  white_refs-paint p color [] h d = elim h [ ]
  white_refs-paint p color (b ∷ bs) (inl e) d = ground (
    arith,
    white_refs-paint_le p color bs,
    ==_iff p b,
    ap (λ (x : ℕ). length (refs x)) e,
    ap color e,
    sym e,
  )
  white_refs-paint p color (b ∷ bs) (inr h) d = ground (arith, white_refs-paint p color bs h d)

  -- Every pointer of a list is null or leads to a registered object.
  abbrev pub Known : List ℕ → Type 0
  Known ps = All (λ (q : ℕ). (q ≡ 0) ⊎ Elem q objs) ps

  pub record Marks (ps : List ℕ) (color : ℕ → ℕ) (r : Marked) : Type 0 where
    pub colors : ℕ → ℕ
    pub returns : r ≡ done colors
    pub grows : (p : ℕ) → color p ≡ 2 → colors p ≡ 2
    pub covers : (p : ℕ) → Elem p ps → colors p ≡ 2
    -- If each reference of a black object was black or on the list, then each is black now.
    pub closed :
        ((p q : ℕ) → color p ≡ 2 → Elem q (refs p) → (color q ≡ 2) ⊎ Elem q ps)
        → (p q : ℕ) → colors p ≡ 2
        → Elem q (refs p)
        → colors q ≡ 2
    pub sound : (p : ℕ) → colors p ≡ 2 → (color p ≡ 2) ⊎ Reaches refs ps p
    pub others : (p : ℕ) → colors p ≢ 2 → colors p ≡ color p
    pub no_null : (p : ℕ) → colors p ≡ 2 → (color p ≡ 2) ⊎ (p ≢ 0)

  pub visit_all-cons :
      (fuel p : ℕ) (ps : List ℕ) (color : ℕ → ℕ)
      → visit_all refs (suc fuel) (p ∷ ps) color ≡ (elim (p == 0) [
        | true ↦ crashed
        | false ↦ elim (color p == 2) [
          | true ↦ visit_all refs fuel ps color
          | false ↦ visit_all refs fuel (refs p ++ ps) (paint p 2 color)
        ]
      ])
  unfolding visit_all
  visit_all-cons fuel p ps color = refl

  pub visit_all-skip :
      (fuel p : ℕ) (ps : List ℕ) (color : ℕ → ℕ)
      → p ≢ 0
      → color p ≡ 2
      → visit_all refs (suc fuel) (p ∷ ps) color ≡ visit_all refs fuel ps color
  visit_all-skip fuel p ps color d e = rw (visit_all-cons fuel p ps color, ==_ne p 0 d, e) refl

  pub visit_all-paint :
      (fuel p : ℕ) (ps : List ℕ) (color : ℕ → ℕ)
      → p ≢ 0
      → color p ≢ 2
      → visit_all refs (suc fuel) (p ∷ ps) color
        ≡ visit_all refs fuel (refs p ++ ps) (paint p 2 color)
  visit_all-paint fuel p ps color d e =
      rw (visit_all-cons fuel p ps color, ==_ne p 0 d, ==_ne (color p) 2 e) refl

  paint-black : (p : ℕ) (color : ℕ → ℕ) → paint p 2 color p ≡ 2
  unfolding paint
  paint-black p color = ground arith

  paint-keeps : (p q : ℕ) (color : ℕ → ℕ) → color q ≡ 2 → paint p 2 color q ≡ 2
  unfolding paint
  paint-keeps p q color e = ground arith

  paint-cases : (p q : ℕ) (color : ℕ → ℕ) → paint p 2 color q ≡ 2 → (p ≡ q) ⊎ (color q ≡ 2)
  unfolding paint
  paint-cases p q color e = ground (arith, ==_iff p q)

  paint-others : (p q : ℕ) (color : ℕ → ℕ) → p ≢ q → paint p 2 color q ≡ color q
  unfolding paint
  paint-others p q color d = ground (arith, ==_iff p q)

  pub Reaches-skip : (p : ℕ) (ps : List ℕ) (q : ℕ) → Reaches refs ps q → Reaches refs (p ∷ ps) q
  Reaches-skip p ps q (here h) = here (inr h)
  Reaches-skip p ps q (there r e) = there (Reaches-skip p ps _ r) e

  -- What the references of `p` lead to, `p` leads to.
  pub Reaches-refs :
      (p : ℕ) (ps : List ℕ) (q : ℕ) → Reaches refs (refs p ++ ps) q → Reaches refs (p ∷ ps) q
  Reaches-refs p ps q (here h) = elim (Elem-append q (refs p) ps h) [
    | inl a ↦ there (here (inl refl)) a
    | inr b ↦ here (inr b)
  ]
  Reaches-refs p ps q (there r e) = there (Reaches-refs p ps _ r) e

  pub Marks-skip :
      (p : ℕ) (ps : List ℕ) (color : ℕ → ℕ) (r : Marked)
      → color p ≡ 2
      → Marks ps color r
      → Marks (p ∷ ps) color r
  Marks-skip p ps color r e m = record {
    colors = m.colors;
    returns = m.returns;
    grows = m.grows;
    covers = λ q h. elim h [
      | inl same ↦ ap m.colors (sym same) ∙ m.grows p e
      | inr old ↦ m.covers q old
    ];
    closed = λ start. m.closed (λ a b black edge. elim (start a b black edge) [
      | inl done_b ↦ inl done_b
      | inr (inl same) ↦ inl (ap color (sym same) ∙ e)
      | inr (inr old) ↦ inr old
    ]);
    sound = λ q black. elim (m.sound q black) [
      | inl old ↦ inl old
      | inr path ↦ inr (Reaches-skip p ps q path)
    ];
    others = m.others;
    no_null = m.no_null;
  }

  pub Marks-paint :
      (p : ℕ) (ps : List ℕ) (color : ℕ → ℕ) (r : Marked)
      → p ≢ 0
      → Marks (refs p ++ ps) (paint p 2 color) r
      → Marks (p ∷ ps) color r
  Marks-paint p ps color r d m = record {
    colors = m.colors;
    returns = m.returns;
    grows = λ q e. m.grows q (paint-keeps p q color e);
    covers = λ q h. elim h [
      | inl same ↦ ap m.colors (sym same) ∙ m.grows p (paint-black p color)
      | inr old ↦ m.covers q (Elem-append_right q (refs p) ps old)
    ];
    closed = λ start. m.closed (λ a b black edge. elim (paint-cases p a color black) [
      | inl same ↦
          inr (Elem-append_left b (refs p) ps (subst (λ (x : ℕ). Elem b (refs x)) (sym same) edge))
      | inr old ↦ elim (start a b old edge) [
        | inl done_b ↦ inl (paint-keeps p b color done_b)
        | inr (inl same) ↦ inl (ap (paint p 2 color) (sym same) ∙ paint-black p color)
        | inr (inr later) ↦ inr (Elem-append_right b (refs p) ps later)
      ]
    ]);
    sound = λ q black. elim (m.sound q black) [
      | inl now ↦ elim (paint-cases p q color now) [
        | inl same ↦ inr (here (inl same))
        | inr old ↦ inl old
      ]
      | inr path ↦ inr (Reaches-refs p ps q path)
    ];
    others = λ q white.
        m.others q white
        ∙ paint-others p q color
            (λ same. white (ap m.colors (sym same) ∙ m.grows p (paint-black p color)));
    no_null = λ q black. elim (m.no_null q black) [
      | inl now ↦ elim (paint-cases p q color now) [
        | inl same ↦ inr (λ z. d (same ∙ z))
        | inr old ↦ inl old
      ]
      | inr h ↦ inr h
    ];
  }

  pub Marks-nil : (fuel : ℕ) (color : ℕ → ℕ) → Marks [] color (visit_all refs (suc fuel) [] color)
  unfolding visit_all
  Marks-nil fuel color = record {
    colors = color;
    returns = refl;
    grows = λ p e. e;
    covers = λ p h. elim h [ ];
    closed = λ start p q black edge. elim (start p q black edge) [ inl e ↦ e | inr h ↦ elim h [ ] ];
    sound = λ p e. inl e;
    others = λ p d. refl;
    no_null = λ p e. inl e;
  }
