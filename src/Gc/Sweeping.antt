-- ===== src/Gc/Sweeping.antt =====
-- `sweep_phase` (src/core/gc.cpp) keeps the black objects in their order, and the counters right.
use r_sjit.Common.{
  ℕ, ◌+◌, ◌%◌, ◌≤◌, ◌≡◌, ◌≢◌, ◌↔◌, refl, ap, sym, ◌∙◌, ◌==◌, ==_iff, List, [], ◌∷◌, ◌++◌, arith,
  length, length-append, Elem, ◌⊎◌, inl, inr, Bool-cases, u64_size,
}
use r_sjit.Value.Tag.{TypeTag}
use r_sjit.Gc.{Gc, HeapBlock, register_object, paint, Swept, sweep_block, sweep_blocks, sweep_phase}

abbrev pub sizes : List HeapBlock → ℕ
sizes [] = 0
sizes (b ∷ bs) = b.size + sizes bs

sizes-append : (xs ys : List HeapBlock) → sizes (xs ++ ys) ≡ sizes xs + sizes ys
sizes-append [] ys = omega arith
sizes-append (x ∷ xs) ys = omega (arith, sizes-append xs ys)

-- The counters agree with the list of blocks, in 64-bit words.
pub record Accounts (g : Gc) : Type 0 where
  pub objects_counted : g.live_objects ≡ length g.heap % u64_size
  pub bytes_counted : g.live_bytes ≡ sizes g.heap % u64_size
  pub peak_reached : g.live_bytes ≤ g.peak_bytes

-- What holds of the counters while the blocks `bs` are still to be swept.
record Balance (bs : List HeapBlock) (total : ℕ) (s : Swept) : Type 0 where
  count_left : s.objects ≡ (length s.kept + length bs) % u64_size
  bytes_left : s.bytes ≡ (sizes s.kept + sizes bs) % u64_size
  bytes_split : (s.reclaimed + sizes s.kept + sizes bs) % u64_size ≡ total % u64_size

sweep_block-Balance :
    (b : HeapBlock) (bs : List HeapBlock) (total : ℕ) (s : Swept)
    → Balance (b ∷ bs) total s
    → Balance bs total (sweep_block b s)
unfolding sweep_block
sweep_block-Balance b bs total s h = elim (Bool-cases (s.colors b.obj == 2)) [
  | inl e ↦
      rw (sweep_block, e)
        (record {
          count_left = omega (arith, h.count_left, length-append s.kept (b ∷ []));
          bytes_left = omega (arith, h.bytes_left, sizes-append s.kept (b ∷ []));
          bytes_split = omega (arith, h.bytes_split, sizes-append s.kept (b ∷ []));
        })
  | inr e ↦
      rw (sweep_block, e)
        (record {
          count_left = omega (arith, h.count_left);
          bytes_left = omega (arith, h.bytes_left);
          bytes_split = omega (arith, h.bytes_split);
        })
]

sweep_blocks-Balance :
    (bs : List HeapBlock) (total : ℕ) (s : Swept)
    → Balance bs total s
    → Balance [] total (sweep_blocks bs s)
unfolding sweep_blocks
sweep_blocks-Balance [] total s h = h
sweep_blocks-Balance (b ∷ bs) total s h =
    sweep_blocks-Balance bs total (sweep_block b s) (sweep_block-Balance b bs total s h)

sweep_start : Gc → (ℕ → ℕ) → Swept
sweep_start g color = record {
  kept = [];
  reclaimed = 0;
  objects = g.live_objects;
  bytes = g.live_bytes;
  colors = color;
}

-- When the counters agree with the blocks, they do after a sweep for any colors, and the bytes
-- reclaimed and the bytes left add up to the bytes before, in 64-bit words.
pub sweep_phase-balanced :
    (g : Gc) (color : ℕ → ℕ)
    → Accounts g
    → ((sweep_phase g color).0.live_objects ≡ length (sweep_phase g color).0.heap % u64_size)
      × ((sweep_phase g color).0.live_bytes ≡ sizes (sweep_phase g color).0.heap % u64_size)
      × (((sweep_phase g color).2 + sizes (sweep_phase g color).0.heap) % u64_size
          ≡ sizes g.heap % u64_size)
unfolding sweep_phase sweep_start
sweep_phase-balanced g color a =
    let h = sweep_blocks-Balance g.heap (sizes g.heap) (sweep_start g color) (record {
      count_left = omega (arith, a.objects_counted);
      bytes_left = omega (arith, a.bytes_counted);
      bytes_split = omega arith;
    }) in
    (omega (arith, h.count_left), omega (arith, h.bytes_left), omega (arith, h.bytes_split))

-- When the counters agree with the blocks and the peak is not below the live bytes, the same holds
-- after an object was registered.
pub register_object-Accounts :
    (obj size : ℕ) (tag : TypeTag) (g : Gc) → Accounts g → Accounts (register_object obj size tag g)
unfolding register_object
register_object-Accounts obj size tag g a = record {
  objects_counted = omega (
    arith,
    a.objects_counted,
    length-append g.heap (record { obj = obj; size = size; tag = tag } ∷ []),
  );
  bytes_counted = omega (
    arith,
    a.bytes_counted,
    sizes-append g.heap (record { obj = obj; size = size; tag = tag } ∷ []),
  );
  peak_reached = ground arith;
}

-- Each object is registered once.
abbrev pub Once : List HeapBlock → Type 0
Once [] = Unit
Once (b ∷ bs) = ((c : HeapBlock) → Elem c bs → c.obj ≢ b.obj) × Once bs

Elem-snoc : (c b : HeapBlock) (bs : List HeapBlock) → Elem c (bs ++ b ∷ []) ↔ (Elem c bs ⊎ (b ≡ c))
Elem-snoc c b [] = (
  λ h. elim h [ inl e ↦ inr e | inr n ↦ elim n [ ] ],
  λ h. elim h [ inl n ↦ elim n [ ] | inr e ↦ inl e ],
)
Elem-snoc c b (a ∷ bs) =
    let r = Elem-snoc c b bs in
    (
      λ h. elim h [
        | inl e ↦ inl (inl e)
        | inr t ↦ elim (r.0 t) [ inl e ↦ inl (inr e) | inr e ↦ inr e ]
      ],
      λ h. elim h [
        | inl (inl e) ↦ inl e
        | inl (inr e) ↦ inr (r.1 (inl e))
        | inr e ↦ inr (r.1 (inr e))
      ],
    )

sweep_block-kept :
    (b c : HeapBlock) (s : Swept)
    → Elem c (sweep_block b s).kept ↔ (Elem c s.kept ⊎ ((b ≡ c) × (s.colors b.obj ≡ 2)))
unfolding sweep_block
sweep_block-kept b c s = elim (Bool-cases (s.colors b.obj == 2)) [
  | inl e ↦
      let black : s.colors b.obj ≡ 2 = ground (arith, ==_iff (s.colors b.obj) 2, e) in
      let r = Elem-snoc c b s.kept in
      rw (sweep_block, e)
        (
          λ h. elim (r.0 h) [ inl k ↦ inl k | inr k ↦ inr (k, black) ],
          λ h. elim h [ inl k ↦ r.1 (inl k) | inr k ↦ r.1 (inr k.0) ],
        )
  | inr e ↦
      let white : s.colors b.obj ≢ 2 = ground (arith, ==_iff (s.colors b.obj) 2, e) in
      rw (sweep_block, e) (λ h. inl h, λ h. elim h [ inl k ↦ k | inr k ↦ elim (white k.1) [ ] ])
]

sweep_block-colors :
    (b : HeapBlock) (p : ℕ) (s : Swept) → p ≢ b.obj → (sweep_block b s).colors p ≡ s.colors p
unfolding paint sweep_block
sweep_block-colors b p s d = elim (Bool-cases (s.colors b.obj == 2)) [
  | inl e ↦ rw (sweep_block, e) (ground (arith, ==_iff b.obj p))
  | inr e ↦ rw (sweep_block, e) refl
]

-- The blocks that are left are those that were kept and the black ones of the others.
pub sweep_blocks-kept :
    (bs : List HeapBlock) (s : Swept)
    → Once bs
    → (c : HeapBlock)
    → Elem c (sweep_blocks bs s).kept ↔ (Elem c s.kept ⊎ (Elem c bs × (s.colors c.obj ≡ 2)))
unfolding sweep_blocks
sweep_blocks-kept [] s o c = (λ h. inl h, λ h. elim h [ inl k ↦ k | inr k ↦ elim k.0 [ ] ])
sweep_blocks-kept (b ∷ bs) s o c =
    let r = sweep_blocks-kept bs (sweep_block b s) o.1 c in
    let t = sweep_block-kept b c s in
    (
      λ h. elim (r.0 h) [
        | inl k ↦ elim (t.0 k) [
          | inl old ↦ inl old
          | inr new ↦ inr (inl new.0, ap (λ (x : HeapBlock). s.colors x.obj) (sym new.0) ∙ new.1)
        ]
        | inr k ↦ inr (inr k.0, sym (sweep_block-colors b c.obj s (o.0 c k.0)) ∙ k.1)
      ],
      λ h. elim h [
        | inl old ↦ r.1 (inl (t.1 (inl old)))
        | inr (inl e, black) ↦
            r.1 (inl (t.1 (inr (e, ap (λ (x : HeapBlock). s.colors x.obj) e ∙ black))))
        | inr (inr k, black) ↦ r.1 (inr (k, sweep_block-colors b c.obj s (o.0 c k) ∙ black))
      ],
    )
