-- ===== src/Gc/Tests.antt =====
-- The collector (src/core/gc.cpp) at concrete inputs.
use r_sjit.Common.{
  ℕ, ◌+◌, ◌%◌, ◌≡◌, ◌≢◌, refl, List, [], ◌∷◌, arith, Elem, inl, inr, ap, ◌∙◌, ◌==◌, if◌then◌else◌,
  subst, none, length, u64_size,
}
use r_sjit.Value.{Value, is_heap, nil}
use r_sjit.Value.Tag.{TypeTag}
use r_sjit.Gc.{
  mark_phase, heap_objects, environment_refs, Gc, HeapBlock, new_gc, collect, root_objects,
  value_roots, not_null, sweep_phase,
}
use r_sjit.Gc.Marking.{Known}
use r_sjit.Gc.Sweeping.{Once, Accounts, sizes, sweep_phase-balanced}
use r_sjit.Gc.Crash.{collect-never_returns}
use r_sjit.Gc.Collection.{Collected, objects, collect-Collects}

new-Accounts : Accounts new_gc
new-Accounts = record { objects_counted = refl; bytes_counted = refl; peak_reached = omega arith }

-- An object at 8 that refers to one at 16, and one at 24; 8 is a temporary root.
abbrev three_objects : Gc
three_objects = record new_gc {
  heap =
      record { obj = 8; size = 10; tag = TypeTag.vector }
      ∷ record { obj = 16; size = 20; tag = TypeTag.vector }
      ∷ record { obj = 24; size = 30; tag = TypeTag.vector }
      ∷ [];
  temp_root_stack = 8 ∷ [];
  live_objects = 3;
  live_bytes = 60;
  peak_bytes = 60;
}

abbrev refs_of : ℕ → List ℕ
refs_of p = if p == 8 then 16 ∷ [] else []

three-Accounts : Accounts three_objects
three-Accounts = record { objects_counted = refl; bytes_counted = refl; peak_reached = omega arith }

sweep_phase-balanced_example :
    ((sweep_phase three_objects (λ n. 0)).0.live_objects
      ≡ length (sweep_phase three_objects (λ n. 0)).0.heap % u64_size)
    × ((sweep_phase three_objects (λ n. 0)).0.live_bytes
        ≡ sizes (sweep_phase three_objects (λ n. 0)).0.heap % u64_size)
    × (((sweep_phase three_objects (λ n. 0)).2 + sizes (sweep_phase three_objects (λ n. 0)).0.heap)
          % u64_size
        ≡ sizes three_objects.heap % u64_size)
sweep_phase-balanced_example = sweep_phase-balanced three_objects (λ n. 0) three-Accounts

abbrev no_cells : ℕ → Value
no_cells v = nil

roots_8 : root_objects no_cells 0 0 three_objects ≡ 8 ∷ []
unfolding root_objects value_roots not_null
roots_8 = refl

differ : (c : HeapBlock) (m n : ℕ) → m ≡ c.obj → c.obj ≡ n → m ≢ n → ⊥
differ c m n a b d = d (a ∙ b)

three-Once : Once three_objects.heap
three-Once = (
  λ c h e. elim h [
    | inl a ↦ differ c 16 8 (ap (λ (b : HeapBlock). b.obj) a) e (omega arith)
    | inr (inl a) ↦ differ c 24 8 (ap (λ (b : HeapBlock). b.obj) a) e (omega arith)
    | inr (inr a) ↦ elim a [ ]
  ],
  (
    λ c h e. elim h [
      | inl a ↦ differ c 24 16 (ap (λ (b : HeapBlock). b.obj) a) e (omega arith)
      | inr a ↦ elim a [ ]
    ],
    (λ c h e. elim h [ ], tt),
  ),
)

-- The environments of a new context, 16, 24 and 32 from the empty to the global one, of which the
-- global one has a variable that holds the vector at 8.
abbrev environments : Gc
environments = record new_gc {
  heap =
      record { obj = 16; size = 40; tag = TypeTag.environment }
      ∷ record { obj = 24; size = 40; tag = TypeTag.environment }
      ∷ record { obj = 32; size = 40; tag = TypeTag.environment }
      ∷ record { obj = 8; size = 10; tag = TypeTag.vector }
      ∷ [];
  live_objects = 4;
  live_bytes = 130;
  peak_bytes = 130;
}

abbrev a_vector : Value
a_vector = record { tag = TypeTag.vector; bits = 8 }

abbrev environment_of : ℕ → List ℕ
environment_of p =
    if p == 32
    then environment_refs 24 (a_vector ∷ [])
    else if p == 24
    then environment_refs 16 []
    else if p == 16
    then environment_refs 0 []
    else []

environments-Once : Once environments.heap
environments-Once = (
  λ c h e. elim h [
    | inl a ↦ differ c 24 16 (ap (λ (b : HeapBlock). b.obj) a) e (omega arith)
    | inr (inl a) ↦ differ c 32 16 (ap (λ (b : HeapBlock). b.obj) a) e (omega arith)
    | inr (inr (inl a)) ↦ differ c 8 16 (ap (λ (b : HeapBlock). b.obj) a) e (omega arith)
    | inr (inr (inr a)) ↦ elim a [ ]
  ],
  (
    λ c h e. elim h [
      | inl a ↦ differ c 32 24 (ap (λ (b : HeapBlock). b.obj) a) e (omega arith)
      | inr (inl a) ↦ differ c 8 24 (ap (λ (b : HeapBlock). b.obj) a) e (omega arith)
      | inr (inr a) ↦ elim a [ ]
    ],
    (
      λ c h e. elim h [
        | inl a ↦ differ c 8 32 (ap (λ (b : HeapBlock). b.obj) a) e (omega arith)
        | inr a ↦ elim a [ ]
      ],
      (λ c h e. elim h [ ], tt),
    ),
  ),
)

environments-Known :
    (p : ℕ)
    → Elem p (objects environments.heap)
    → Known environment_of (objects environments.heap) (environment_of p)
unfolding environment_refs heap_objects is_heap
environments-Known p (inl e) =
    subst (λ q. Known environment_of (objects environments.heap) (environment_of q)) e
      (inl refl, tt)
environments-Known p (inr (inl e)) =
    subst (λ q. Known environment_of (objects environments.heap) (environment_of q)) e
      (inr (inl refl), tt)
environments-Known p (inr (inr (inl e))) =
    subst (λ q. Known environment_of (objects environments.heap) (environment_of q)) e
      (inr (inr (inl refl)), (inr (inr (inr (inr (inl refl)))), tt))
environments-Known p (inr (inr (inr (inl e)))) =
    subst (λ q. Known environment_of (objects environments.heap) (environment_of q)) e tt
environments-Known p (inr (inr (inr (inr e)))) = elim e [ ]

environment_roots-Known :
    Known environment_of (objects environments.heap) (root_objects no_cells 32 24 environments)
unfolding root_objects value_roots not_null
environment_roots-Known = (inr (inr (inr (inl refl))), (inr (inr (inl refl)), tt))

collect-Collects_example :
    Collected environment_of
      (root_objects no_cells 32 24 environments)
      environments
      (mark_phase environment_of no_cells 32 24 9 environments (λ n. 0))
      (collect environment_of no_cells 32 24 9 environments (λ n. 0))
unfolding root_objects value_roots not_null environment_refs heap_objects is_heap
collect-Collects_example =
    collect-Collects environment_of no_cells 32 24 9 environments (λ n. 0) (λ p e. ground arith)
      environments-Once environments-Known environment_roots-Known (omega arith)

collect-never_returns_example : collect environment_of no_cells 32 24 9 environments (λ n. 0) ≡ none
collect-never_returns_example =
    collect-never_returns environment_of no_cells 32 24 16 9 environments (λ n. 0)
      (λ p e. ground arith) (omega arith)
      (record {
        global_values = a_vector ∷ [];
        base_values = [];
        empty_values = [];
        refs_global = refl;
        refs_base = refl;
        refs_empty = refl;
      })
