-- ===== src/Env/Shrinking.antt =====
-- What `ShapeTable::transition_remove` (src/core/environment.cpp) makes of a valid table.
use native.Mathlib.Nat.{mod-eq_of_lt}
use r_sjit.Common.{
  ℕ, ◌≡◌, ◌<◌, ◌%◌, [], ◌∷◌, ◌++◌, some, arith, length, length-append, get_elem?,
  get_elem?-append_cases, get_elem?-append_left, inl, inr, ==_ne, u32_max, u32_size,
}
use r_sjit.Common.Maps.{lookup, nat_key, lookup-erase}
use r_sjit.Env.Shapes.{Shape, slot_of, remove}
use r_sjit.Env.Table.{ShapeTable, transition_remove, IsValid}
use r_sjit.Env.Transitions.{shape_at-get_elem?}

-- The shape that `transition_remove` makes.
abbrev pub shrunk : ShapeTable → Shape → ℕ → Shape
shrunk t s k = record (remove s k) { id = length t.shapes % u32_size }

abbrev pub push_shrunk : ShapeTable → Shape → ℕ → ShapeTable
push_shrunk t s k = record t { shapes = t.shapes ++ shrunk t s k ∷ [] }

module _ (t : ShapeTable) (i : ℕ) (s : Shape) (k : ℕ) (v : IsValid t)
    (at : get_elem? t.shapes i ≡ some s) (room : length t.shapes < u32_size) where
  shrunk-bounded : (j w : ℕ) → lookup j (shrunk t s k).slots ≡ some w → w < u32_max
  unfolding remove
  shrunk-bounded j w h = ground (arith, lookup-erase k j s.slots, v.bounded i s at j w)

  pub push_shrunk-IsValid : IsValid (push_shrunk t s k)
  push_shrunk-IsValid = record {
    ids = λ j r h. elim (get_elem?-append_cases t.shapes (shrunk t s k) r j h) [
      | inl old ↦ v.ids j r old
      | inr p ↦ rw (← p.1, p.0) (mod-eq_of_lt room)
    ];
    bounded = λ j r h. elim (get_elem?-append_cases t.shapes (shrunk t s k) r j h) [
      | inl old ↦ v.bounded j r old
      | inr p ↦ rw (← p.1) shrunk-bounded
    ];
    cached = λ j l hit r b h g. elim (get_elem?-append_cases t.shapes (shrunk t s k) r j h) [
      | inl old ↦
          let q = v.cached j l hit r b old g in
          (q.0, get_elem?-append_left t.shapes (shrunk t s k ∷ []) hit q.0 q.1, q.2, q.3)
      | inr p ↦ absurd (omega (arith, p.0, v.keys_known j l hit b g))
    ];
    keys_known = λ j l hit b g.
        omega (arith, v.keys_known j l hit b g, length-append t.shapes (shrunk t s k ∷ []));
  }

  pub transition_remove-present :
      slot_of s k < u32_max → transition_remove t i k ≡ (length t.shapes, push_shrunk t s k)
  unfolding transition_remove
  transition_remove-present h =
      rw (shape_at-get_elem? t i s at, ==_ne (slot_of s k) u32_max (omega arith))
