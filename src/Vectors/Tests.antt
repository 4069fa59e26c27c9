-- ===== src/Vectors/Tests.antt =====
-- Vectors (src/core/vector.cpp) at concrete inputs.
use r_sjit.Common.{ℕ, ◌+◌, ◌-◌, ◌*◌, ◌%◌, ◌<◌, ◌≤◌, ◌≡◌, refl, true, List, [], ◌∷◌, arith}
use r_sjit.Common.Int.{ℤ, pos, negsuc, ◌+ℤ◌, ◌-ℤ◌, ◌*ℤ◌}
use r_sjit.Value.{na_logical}
use r_sjit.Value.Tests.{plain_float}
use r_sjit.Vectors.{
  VectorType, VectorRepr, Vector, Cell, integer_cell, real_cell, cell_at, coerce_to, element_size,
  aligned_size, int_to_real, as_integer_cell, converter,
}
use r_sjit.Vectors.Concat.{concat, common_type}
use r_sjit.Vectors.Range.{range, range_step_of, range_count}
use r_sjit.Vectors.Coercion.{IsVector}
use r_sjit.Vectors.Joining.{joined, concat-joined}
use r_sjit.Vectors.Bounds.{range-exact, range-ends, aligned_size-holds}
use r_sjit.Vectors.Missing.{is_missing, coerce_to-is_missing}

abbrev zero_of : ℕ → ℤ
zero_of d = pos 0

abbrev vector_of : VectorType → ℕ → List Cell → Vector
vector_of vt n cells = record {
  vtype = vt;
  repr = VectorRepr.concrete;
  flags = 255;
  len = n;
  data_ = cells;
  range_start = pos 0;
  range_step = pos 1;
}

-- TRUE and NA.
abbrev two_logicals : Vector
two_logicals = vector_of VectorType.logical 2 (integer_cell (pos 1) ∷ integer_cell na_logical ∷ [])

abbrev one_real : Vector
one_real = vector_of VectorType.real 1 (real_cell 7 ∷ [])

aligned_size-holds_example :
    (2 * 8 + 8 ≤ aligned_size VectorType.real 3)
    × (aligned_size VectorType.real 3 % 16 ≡ 0)
    × (aligned_size VectorType.real 3 < 8 * 3 + 16)
unfolding element_size
aligned_size-holds_example = aligned_size-holds VectorType.real 3 2 (omega arith) (omega arith)

range-exact_example :
    cell_at (range (pos 5) (pos 3)) 1
    ≡ integer_cell (pos 5 +ℤ pos 1 *ℤ range_step_of (pos 5) (pos 3))
unfolding range_count ◌+ℤ◌ ◌-ℤ◌
range-exact_example =
    range-exact (pos 5) (pos 3) 1 (omega arith, omega arith) (omega arith, omega arith)
      (omega arith)

range-ends_example :
    (0 < (range (negsuc 1) (pos 3)).len)
    × (cell_at (range (negsuc 1) (pos 3)) 0 ≡ integer_cell (negsuc 1))
    × (cell_at (range (negsuc 1) (pos 3)) ((range (negsuc 1) (pos 3)).len - 1)
        ≡ integer_cell (pos 3))
range-ends_example =
    range-ends (negsuc 1) (pos 3) (omega arith, omega arith) (omega arith, omega arith)

concat-joined_example :
    (concat plain_float zero_of (two_logicals ∷ one_real ∷ [])).data_
    ≡ joined plain_float zero_of
        (common_type VectorType.logical (two_logicals ∷ one_real ∷ []))
        (two_logicals ∷ one_real ∷ [])
unfolding IsVector
concat-joined_example =
    concat-joined plain_float zero_of two_logicals (one_real ∷ []) (refl, (refl, tt))

coerce_to-is_missing_example :
    is_missing plain_float zero_of VectorType.real
      (cell_at (coerce_to plain_float zero_of VectorType.real two_logicals) 1)
    ≡ true
unfolding IsVector converter is_missing cell_at
coerce_to-is_missing_example =
    coerce_to-is_missing plain_float zero_of VectorType.real two_logicals
      (λ c. real_cell (int_to_real plain_float zero_of (as_integer_cell c))) 1 refl (omega arith)
      refl refl
