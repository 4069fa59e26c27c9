-- ===== src/Gc/Collection.antt =====
-- `GC::collect` (src/core/gc.cpp): an object is left if the roots reach it, and freed if not.
use r_sjit.Common.{
  ℕ, ◌+◌, ◌<◌, ◌≡◌, ◌≢◌, ◌↔◌, refl, List, [], ◌∷◌, Option, some, none, length, Elem, inl, inr, ◌⊎◌,
}
use r_sjit.Value.{Value}
use r_sjit.Gc.{
  Gc, HeapBlock, Marked, crashed, done, mark_phase, root_objects, visit_all, sweep_phase,
  sweep_marked, collect,
}
use r_sjit.Gc.Marking.{Reaches, here, there, Known, Marks, white_refs}
use r_sjit.Gc.Ending.{starved, fell, marked, visit_all-Ended, visit_all-enough}
use r_sjit.Gc.Sweeping.{Once, sweep_blocks-kept}

abbrev pub objects : List HeapBlock → List ℕ
objects [] = []
objects (b ∷ bs) = b.obj ∷ objects bs

-- The collection returns, and the blocks that are left are those of the objects that the roots reach.
pub record Collects (refs : ℕ → List ℕ) (roots : List ℕ) (g : Gc) (r : Option (Gc × (ℕ → ℕ) × ℕ))
    : Type 0 where
  pub after : Gc
  pub colors : ℕ → ℕ
  pub reclaimed : ℕ
  pub returns : r ≡ some (after, colors, reclaimed)
  pub kept_blocks : (b : HeapBlock) → Elem b after.heap ↔ (Elem b g.heap × Reaches refs roots b.obj)

-- An object that is black at the end of the marking is reached, and the other way round.
reached_black :
    (refs : ℕ → List ℕ) (objs : List ℕ) (ps : List ℕ) (color : ℕ → ℕ) (r : Marked)
    → ((p : ℕ) → color p ≢ 2)
    → (m : Marks refs objs ps color r) → (p : ℕ) → Reaches refs ps p
    → m.colors p ≡ 2
reached_black refs objs ps color r white m p (here h) = m.covers p h
reached_black refs objs ps color r white m p (there path e) =
    m.closed (λ a b black edge. elim (white a black) [ ]) _ p
      (reached_black refs objs ps color r white m _ path) e

collect-done :
    (refs : ℕ → List ℕ) (cells : ℕ → Value) (global_env base_env fuel : ℕ) (g : Gc)
    (color c : ℕ → ℕ)
    → mark_phase refs cells global_env base_env fuel g color ≡ done c
    → collect refs cells global_env base_env fuel g color ≡ some (sweep_phase g c)
unfolding collect sweep_marked
collect-done refs cells global_env base_env fuel g color c e = rw (e) refl

sweep_phase-kept :
    (g : Gc) (c : ℕ → ℕ)
    → Once g.heap
    → (b : HeapBlock) → Elem b (sweep_phase g c).0.heap ↔ (Elem b g.heap × (c b.obj ≡ 2))
unfolding sweep_phase
sweep_phase-kept g c once b =
    let r =
      sweep_blocks-kept g.heap
        (record {
          kept = [];
          reclaimed = 0;
          objects = g.live_objects;
          bytes = g.live_bytes;
          colors = c;
        })
        once b in
    (λ h. elim (r.0 h) [ inl n ↦ elim n [ ] | inr k ↦ k ], λ k. r.1 (inr k))

-- A null pointer is not reached where the marking gives colors.
null_unreached :
    (refs : ℕ → List ℕ) (ps : List ℕ) (color : ℕ → ℕ) (r : Marked)
    → ((p : ℕ) → color p ≢ 2)
    → Marks refs [] ps color r
    → ¬ Reaches refs ps 0
null_unreached refs ps color r white m path =
    elim (m.no_null 0 (reached_black refs [] ps color r white m 0 path)) [
      | inl e ↦ white 0 e
      | inr d ↦ d refl
    ]

-- How a collection ends when the fuel is enough: it returns and no null pointer is reached, or one
-- is reached and it crashes.
pub Collected : (ℕ → List ℕ) → List ℕ → Gc → Marked → Option (Gc × (ℕ → ℕ) × ℕ) → Type 0
Collected refs roots g m r =
    (Collects refs roots g r × ¬ Reaches refs roots 0) ⊎ ((m ≡ crashed) × Reaches refs roots 0)

module _ (refs : ℕ → List ℕ) (cells : ℕ → Value) (global_env base_env fuel : ℕ) (g : Gc)
    (color : ℕ → ℕ) (white : (p : ℕ) → color p ≢ 2) where
  marked-Collects :
      Once g.heap
      → Marks refs []
          (root_objects cells global_env base_env g)
          color
          (mark_phase refs cells global_env base_env fuel g color)
      → Collects refs
          (root_objects cells global_env base_env g)
          g
          (collect refs cells global_env base_env fuel g color)
  unfolding mark_phase
  marked-Collects once m =
      let roots = root_objects cells global_env base_env g in
      let swept = sweep_phase g m.colors in
      record {
        after = swept.0;
        colors = swept.1;
        reclaimed = swept.2;
        returns = collect-done refs cells global_env base_env fuel g color m.colors m.returns;
        kept_blocks = λ b.
            let k = sweep_phase-kept g m.colors once b in
            (
              λ h. (
                (k.0 h).0,
                elim (m.sound b.obj (k.0 h).1) [
                  | inl e ↦ elim (white b.obj e) [ ]
                  | inr path ↦ path
                ],
              ),
              λ h. k.1 (
                h.0,
                reached_black refs [] roots color (visit_all refs fuel roots color) white m b.obj
                    h.1,
              ),
            );
      }

  -- When no object is black, each object is registered once, each root and each reference of a
  -- registered object is null or leads to a registered object, and there is fuel for each root and
  -- each reference, a collection ends in one of two ways: no null pointer is reached from the
  -- roots, it returns, and the blocks that are left are exactly those of the registered objects
  -- that the roots reach; or a null pointer is reached from the roots, and the marking crashes.
  pub collect-Collects :
      Once g.heap
      → ((p : ℕ) → Elem p (objects g.heap) → Known refs (objects g.heap) (refs p))
      → Known refs (objects g.heap) (root_objects cells global_env base_env g)
      → length (root_objects cells global_env base_env g)
          + white_refs refs (objects g.heap) color (objects g.heap)
        < fuel
      → Collected refs
          (root_objects cells global_env base_env g)
          g
          (mark_phase refs cells global_env base_env fuel g color)
          (collect refs cells global_env base_env fuel g color)
  unfolding mark_phase Collected
  collect-Collects once known roots-Known enough =
      let roots = root_objects cells global_env base_env g in
      elim (visit_all-Ended refs [] fuel roots color) [
        | starved e ↦
            absurd
              (visit_all-enough refs (objects g.heap) fuel roots color known roots-Known enough e)
        | fell e path ↦ inr (e, path)
        | marked m ↦ inl (marked-Collects once m, null_unreached refs roots color _ white m)
      ]

  -- A collection whose roots lead to a null pointer does not return, whatever the fuel is.
  pub collect-null :
      Reaches refs (root_objects cells global_env base_env g) 0
      → collect refs cells global_env base_env fuel g color ≡ none
  unfolding mark_phase collect sweep_marked
  collect-null path =
      let roots = root_objects cells global_env base_env g in
      elim (visit_all-Ended refs [] fuel roots color) [
        | starved e ↦ rw (e) refl
        | fell e _ ↦ rw (e) refl
        | marked m ↦ absurd (null_unreached refs roots color _ white m path)
      ]
