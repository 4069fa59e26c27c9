-- ===== src/Vectors/Range.antt =====
-- src/core/vector.cpp: `m:n` and vectors of given elements.
use r_sjit.Common.{ℕ, Bool, not, if◌then◌else◌, List, [], ◌∷◌, length, get_or, Option, none, some}
use r_sjit.Common.Int.{ℤ, pos, negsuc, ◌+ℤ◌, ◌-ℤ◌, ◌*ℤ◌, ltb_ℤ, to_bits64, of_bits32}
use r_sjit.Value.{Value, as_real, as_integer, as_logical, as_string}
use r_sjit.Value.Tag.{TypeTag}
use r_sjit.Vectors.{
  VectorType, Vector, VectorRepr, Cell, integer_cell, real_cell, string_cell, new_vector, zero_cell,
  with_cells,
}

-- `end >= start`
abbrev pub is_up : ℤ → ℤ → Bool
is_up start end = not (ltb_ℤ end start)

abbrev pub count_of : ℤ → ℕ
count_of (pos n) = n
count_of (negsuc _) = 0

unfoldable pub range_step_of : ℤ → ℤ → ℤ
range_step_of start end = if is_up start end then pos 1 else negsuc 0

unfoldable pub range_count : ℤ → ℤ → ℕ
range_count start end =
    count_of (if is_up start end then end -ℤ start +ℤ pos 1 else start -ℤ end +ℤ pos 1)

-- `static_cast<int32_t>(start + i*step)`
unfoldable pub range_element : ℤ → ℤ → ℕ → ℤ
unfolding of_bits32 to_bits64 range_step_of
range_element start end i = of_bits32 (to_bits64 (start +ℤ pos i *ℤ range_step_of start end))

unfoldable pub range : ℤ → ℤ → Vector
unfolding with_cells new_vector range_step_of range_count range_element
range start end =
    let n = range_count start end in
    with_cells (λ i. integer_cell (range_element start end i)) n
      (record (new_vector VectorType.integer n) {
        repr = VectorRepr.range_repr;
        range_start = start;
        range_step = range_step_of start end;
      })

unfoldable pub materialize : Vector → Vector
materialize v = record v { repr = VectorRepr.concrete }

-- `make_real_vector`, `make_int_vector`, `make_logical_vector` and `make_string_vector`.
unfoldable pub make_vector : VectorType → List Cell → Vector
unfolding with_cells new_vector zero_cell
make_vector vt cells =
    with_cells (λ i. get_or cells i (zero_cell vt)) (length cells) (new_vector vt (length cells))

-- A heap object stays as it is.
unfoldable pub scalar_to_vector : Value → Option Vector
unfolding make_vector as_real as_integer as_logical as_string
scalar_to_vector scalar = elim (scalar.tag) [
  | TypeTag.real ↦ some (make_vector VectorType.real (real_cell (as_real scalar) ∷ []))
  | TypeTag.integer ↦ some (make_vector VectorType.integer (integer_cell (as_integer scalar) ∷ []))
  | TypeTag.logical ↦ some (make_vector VectorType.logical (integer_cell (as_logical scalar) ∷ []))
  | TypeTag.string ↦ some (make_vector VectorType.string (string_cell (as_string scalar) ∷ []))
  | TypeTag.nil ↦ some (make_vector VectorType.real [])
  | _ ↦ none
]
