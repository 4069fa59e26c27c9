-- ===== src/Vectors/Concat.antt =====
-- src/core/vector.cpp: `c(...)`.
use r_sjit.Common.{ℕ, ◌+◌, Bool, true, false, ◌&&◌, ◌||◌, not, if◌then◌else◌, List, [], ◌∷◌}
use r_sjit.Common.Int.{ℤ}
use r_sjit.Value.{Float}
use r_sjit.Vectors.Fill.{fill}
use r_sjit.Vectors.{VectorType, same_type, Vector, Cell, new_vector, cell_at, coerce_to}

unfoldable pub promote : VectorType → VectorType → VectorType
promote common t =
    if same_type t common
    then common
    else if same_type t VectorType.real && not (same_type common VectorType.list)
    then VectorType.real
    else if same_type t VectorType.list || same_type common VectorType.list
    then VectorType.list
    else common

unfoldable pub common_type : VectorType → List Vector → VectorType
unfolding promote
common_type common [] = common
common_type common (p ∷ ps) = common_type (promote common p.vtype) ps

unfoldable pub total_length : List Vector → ℕ
total_length [] = 0
total_length (p ∷ ps) = p.len + total_length ps

-- The types whose elements the loop over a converted part copies.
abbrev pub is_copied : VectorType → Bool
is_copied VectorType.complex = false
is_copied VectorType.raw = false
is_copied _ = true

module _ (f : Float) (truncate : ℕ → ℤ) where
  -- One part into the buffer from `pos` on: `memcpy`, or a loop over the converted part.
  unfoldable pub copy_part : VectorType → ℕ → Vector → List Cell → List Cell
  unfolding coerce_to cell_at fill
  copy_part common place p out =
      if same_type p.vtype common
      then fill (cell_at p) p.len 0 place out
      else if is_copied common
      then fill (cell_at (coerce_to f truncate common p)) (coerce_to f truncate common p).len 0
          place out
      else out

  unfoldable pub copy_parts : VectorType → ℕ → List Vector → List Cell → List Cell
  unfolding copy_part
  copy_parts common place [] out = out
  copy_parts common place (p ∷ ps) out =
      copy_parts common (place + p.len) ps (copy_part common place p out)

  unfoldable pub concat_as : VectorType → List Vector → Vector
  unfolding copy_parts new_vector total_length
  concat_as common parts =
      let out = new_vector common (total_length parts) in
      record out { data_ = copy_parts common 0 parts out.data_ }

  unfoldable pub concat : List Vector → Vector
  unfolding concat_as common_type new_vector
  concat [] = new_vector VectorType.real 0
  concat (p ∷ ps) = concat_as (common_type p.vtype (p ∷ ps)) (p ∷ ps)
