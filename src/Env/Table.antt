-- ===== src/Env/Table.antt =====
-- `class ShapeTable` (src/core/environment.cpp): shapes and the transitions between them. A shape
-- pointer is an index of `shapes`.
use r_sjit.Common.{
  ℕ, ◌≡◌, ◌<◌, ◌+◌, ◌*◌, ◌%◌, List, [], ◌∷◌, ◌++◌, Option, none, some, length, get_or, get_elem?,
  not, ◌==◌, u32_max, u32_size, if◌then◌else◌,
}
use r_sjit.Common.Maps.{lookup, insert, nat_key}
use r_sjit.Env.Shapes.{Shape, slot_of, add_slot, remove, no_shape}

-- `add_cache` is keyed by `(id << 32) | sym`, which is the sum below since `sym` is a `uint32_t`.
pub record ShapeTable : Type 0 where
  pub shapes : List Shape
  pub add_cache : List (ℕ × ℕ)

-- The constructor makes the empty shape.
unfoldable pub init : ShapeTable
init = record { shapes = no_shape ∷ []; add_cache = [] }

abbrev pub shape_at : ShapeTable → ℕ → Shape
shape_at t s = get_or t.shapes s no_shape

abbrev pub cache_key : ℕ → ℕ → ℕ
cache_key id sym = id * u32_size + sym

-- The shape that `transition_add` makes when neither the cache nor the shape has the symbol.
abbrev pub extended : ShapeTable → Shape → ℕ → Shape
extended t current sym = record {
  id = length t.shapes % u32_size;
  deopt = current.deopt;
  slots = add_slot sym current.slots;
}

-- `transition_add` on a shape with an index, after the cache was asked.
unfoldable pub add_from : ShapeTable → ℕ → Shape → ℕ → Option ℕ → ℕ × ShapeTable
add_from t s current sym (some hit) = (hit, t)
add_from t s current sym none = if not (slot_of current sym == u32_max) then (s, t) else (
  length t.shapes,
  record {
    shapes = t.shapes ++ extended t current sym ∷ [];
    add_cache = insert (cache_key current.id sym) (length t.shapes) t.add_cache;
  },
)

unfoldable pub transition_add : ShapeTable → ℕ → ℕ → ℕ × ShapeTable
transition_add t s sym =
    add_from t s (shape_at t s) sym (lookup (cache_key (shape_at t s).id sym) t.add_cache)

unfoldable pub transition_remove : ShapeTable → ℕ → ℕ → ℕ × ShapeTable
unfolding remove
transition_remove t s sym =
    let current = shape_at t s in
    if slot_of current sym == u32_max then (s, t) else (
      length t.shapes,
      record t {
        shapes = t.shapes ++ record (remove current sym) { id = length t.shapes % u32_size } ∷ [];
      },
    )

-- Each shape stands at the place of its id, no slot is the number that means "not present", and
-- what the cache gives for a shape and a symbol is that shape with the symbol added.
pub record IsValid (t : ShapeTable) : Type 0 where
  pub ids : (i : ℕ) (s : Shape) → get_elem? t.shapes i ≡ some s → s.id ≡ i
  pub bounded :
      (i : ℕ) (s : Shape)
      → get_elem? t.shapes i ≡ some s
      → (k v : ℕ) → lookup k s.slots ≡ some v
      → v < u32_max
  pub cached :
      (i sym hit : ℕ) (s : Shape)
      → sym < u32_size
      → get_elem? t.shapes i ≡ some s
      → lookup (cache_key i sym) t.add_cache ≡ some hit
      → (r : Shape) × (get_elem? t.shapes hit ≡ some r)
        × (r.slots ≡ add_slot sym s.slots)
        × (lookup sym s.slots ≡ none)
  pub keys_known :
      (i sym hit : ℕ)
      → sym < u32_size
      → lookup (cache_key i sym) t.add_cache ≡ some hit
      → i < length t.shapes
