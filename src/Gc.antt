-- ===== src/Gc.antt =====
-- src/core/gc.cpp, include/rjit/core/gc.hpp: the mark-and-sweep collector.
--
-- A `HeapObject*` is a number, and 0 is the null pointer. The outgoing references that the `trace`
-- method of an object visits, in its order, are the function `refs` on the objects. The constructor
-- and destructor calls, `malloc` and the stack scan, which has no effect, are left out.
pub mod Marking
pub mod Ending
pub mod Sweeping
pub mod Collection
pub mod Crash
mod Tests
use r_sjit.Common.{
  ℕ, zero, suc, ◌+◌, ◌-◌, ◌%◌, Bool, true, false, ◌==◌, List, [], ◌∷◌, ◌++◌, Option, none, some,
  if◌then◌else◌, ltb, u64_size,
}
use r_sjit.Value.{Value, is_heap}
use r_sjit.Value.Tag.{TypeTag}

-- `struct HeapBlock`
pub record HeapBlock : Type 0 where
  pub obj : ℕ
  pub size : ℕ
  pub tag : TypeTag

-- `class GC`; the last pushed root is at the head.
pub record Gc : Type 0 where
  pub heap : List HeapBlock
  pub root_stack : List ℕ
  pub temp_root_stack : List ℕ
  pub live_objects : ℕ
  pub live_bytes : ℕ
  pub peak_bytes : ℕ

abbrev pub new_gc : Gc
new_gc = record {
  heap = [];
  root_stack = [];
  temp_root_stack = [];
  live_objects = 0;
  live_bytes = 0;
  peak_bytes = 0;
}

unfoldable pub register_object : ℕ → ℕ → TypeTag → Gc → Gc
register_object obj size tag g =
    let bytes = (g.live_bytes + size) % u64_size in
    record {
      heap = g.heap ++ record { obj = obj; size = size; tag = tag } ∷ [];
      root_stack = g.root_stack;
      temp_root_stack = g.temp_root_stack;
      live_objects = suc g.live_objects % u64_size;
      live_bytes = bytes;
      peak_bytes = if ltb g.peak_bytes bytes then bytes else g.peak_bytes;
    }

-- `pop_back` when the top is the one that is given.
unfoldable pub pop_top : ℕ → List ℕ → List ℕ
pop_top v [] = []
pop_top v (w ∷ ws) = if w == v then ws else w ∷ ws

unfoldable pub push_root : ℕ → Gc → Gc
push_root v g = record {
  heap = g.heap;
  root_stack = v ∷ g.root_stack;
  temp_root_stack = g.temp_root_stack;
  live_objects = g.live_objects;
  live_bytes = g.live_bytes;
  peak_bytes = g.peak_bytes;
}

unfoldable pub pop_root : ℕ → Gc → Gc
pop_root v g = record {
  heap = g.heap;
  root_stack = pop_top v g.root_stack;
  temp_root_stack = g.temp_root_stack;
  live_objects = g.live_objects;
  live_bytes = g.live_bytes;
  peak_bytes = g.peak_bytes;
}

unfoldable pub push_temp_root : ℕ → Gc → Gc
push_temp_root obj g = record {
  heap = g.heap;
  root_stack = g.root_stack;
  temp_root_stack = obj ∷ g.temp_root_stack;
  live_objects = g.live_objects;
  live_bytes = g.live_bytes;
  peak_bytes = g.peak_bytes;
}

unfoldable pub pop_temp_root : ℕ → Gc → Gc
pop_temp_root obj g = record {
  heap = g.heap;
  root_stack = g.root_stack;
  temp_root_stack = pop_top obj g.temp_root_stack;
  live_objects = g.live_objects;
  live_bytes = g.live_bytes;
  peak_bytes = g.peak_bytes;
}

-- How a marking ends: `crashed` is the read of a null pointer.
pub data Marked : Type 0 where
  crashed : Marked
  out_of_fuel : Marked
  done : (ℕ → ℕ) → Marked

-- The objects of a list of values, in order.
unfoldable pub heap_objects : List Value → List ℕ
heap_objects [] = []
heap_objects (v ∷ vs) = let rest = heap_objects vs in if is_heap v then v.bits ∷ rest else rest

-- `Environment::trace`: the parent, be it null or not, and the objects of the bindings.
unfoldable pub environment_refs : ℕ → List Value → List ℕ
environment_refs parent values = parent ∷ heap_objects values

unfoldable pub paint : ℕ → ℕ → (ℕ → ℕ) → ℕ → ℕ
paint p c color q = if p == q then c else color q

-- `visit_heap` on a list of objects, one after the other. The visit of an object visits its references
-- at once, which is to put them before the others.
unfoldable pub visit_all : (ℕ → List ℕ) → ℕ → List ℕ → (ℕ → ℕ) → Marked
visit_all refs zero ps color = out_of_fuel
visit_all refs (suc fuel) [] color = done color
visit_all refs (suc fuel) (p ∷ ps) color = elim (p == 0) [
  | true ↦ crashed
  | false ↦ elim (color p == 2) [
    | true ↦ visit_all refs fuel ps color
    | false ↦ visit_all refs fuel (refs p ++ ps) (paint p 2 color)
  ]
]

-- The objects of the root values; `cells` is the memory that the `Value*` point to, first pushed first.
unfoldable pub value_roots : (ℕ → Value) → List ℕ → List ℕ
unfolding is_heap
value_roots cells [] = []
value_roots cells (v ∷ vs) =
    value_roots cells vs ++ (if is_heap (cells v) then (cells v).bits ∷ [] else [])

-- The pointers of a list that are not null, first pushed first.
unfoldable pub not_null : List ℕ → List ℕ
not_null [] = []
not_null (p ∷ ps) = not_null ps ++ (if p == 0 then [] else p ∷ [])

-- What `mark_phase` visits: the roots, the temporary roots, the global and the base environment.
unfoldable pub root_objects : (ℕ → Value) → ℕ → ℕ → Gc → List ℕ
root_objects cells global_env base_env g =
    value_roots cells g.root_stack
    ++ not_null g.temp_root_stack
    ++ not_null (base_env ∷ global_env ∷ [])

unfoldable pub mark_phase : (ℕ → List ℕ) → (ℕ → Value) → ℕ → ℕ → ℕ → Gc → (ℕ → ℕ) → Marked
mark_phase refs cells global_env base_env fuel g color =
    visit_all refs fuel (root_objects cells global_env base_env g) color

-- The state of `sweep_phase` after the blocks: those kept, the bytes reclaimed, the counters and the colors.
pub record Swept : Type 0 where
  pub kept : List HeapBlock
  pub reclaimed : ℕ
  pub objects : ℕ
  pub bytes : ℕ
  pub colors : ℕ → ℕ

unfoldable pub sweep_block : HeapBlock → Swept → Swept
sweep_block b s = elim (s.colors b.obj == 2) [
  | true ↦ record {
    kept = s.kept ++ b ∷ [];
    reclaimed = s.reclaimed;
    objects = s.objects;
    bytes = s.bytes;
    colors = paint b.obj 0 s.colors;
  }
  | false ↦ record {
    kept = s.kept;
    reclaimed = (s.reclaimed + b.size) % u64_size;
    objects = (s.objects + u64_size - 1) % u64_size;
    bytes = (s.bytes + u64_size - b.size % u64_size) % u64_size;
    colors = s.colors;
  }
]

unfoldable pub sweep_blocks : List HeapBlock → Swept → Swept
sweep_blocks [] s = s
sweep_blocks (b ∷ bs) s = sweep_blocks bs (sweep_block b s)

-- The collector, the colors and the bytes reclaimed.
unfoldable pub sweep_phase : Gc → (ℕ → ℕ) → Gc × (ℕ → ℕ) × ℕ
sweep_phase g color =
    let s = sweep_blocks g.heap (record {
      kept = [];
      reclaimed = 0;
      objects = g.live_objects;
      bytes = g.live_bytes;
      colors = color;
    }) in
    (
      record {
        heap = s.kept;
        root_stack = g.root_stack;
        temp_root_stack = g.temp_root_stack;
        live_objects = s.objects;
        live_bytes = s.bytes;
        peak_bytes = g.peak_bytes;
      },
      s.colors,
      s.reclaimed,
    )

unfoldable pub sweep_marked : Gc → Marked → Option (Gc × (ℕ → ℕ) × ℕ)
sweep_marked g (done color) = some (sweep_phase g color)
sweep_marked g _ = none

-- `collect`: `none` for a crash.
unfoldable pub collect :
    (ℕ → List ℕ) → (ℕ → Value) → ℕ → ℕ → ℕ → Gc → (ℕ → ℕ) → Option (Gc × (ℕ → ℕ) × ℕ)
collect refs cells global_env base_env fuel g color =
    sweep_marked g (mark_phase refs cells global_env base_env fuel g color)
