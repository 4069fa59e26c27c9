-- ===== src/Vectors.antt =====
-- src/core/vector.cpp, include/rjit/core/vector.hpp: vectors, their conversion and concatenation.
--
-- An element is read at the type it was written at. The flags are the byte of `VectorFlags`. The
-- numbers of `range` are integers without a bound, as the source's `int64_t` must not overflow.
pub mod Fill
pub mod Concat
mod Tests
pub mod Missing
pub mod Bounds
pub mod Joining
pub mod Coercion
pub mod Range
use r_sjit.Common.{
  ℕ, zero, suc, ◌+◌, ◌*◌, ◌-◌, ◌%◌, Bool, true, false, ◌&&◌, ◌||◌, not, ◌==◌, ltb, if◌then◌else◌,
  List, [], ◌∷◌, map, length, get_or, set, replicate, any, Option, none, some, u64_size,
}
use r_sjit.Common.Int.{
  ℤ, pos, negsuc, ◌+ℤ◌, ◌-ℤ◌, ◌*ℤ◌, eq_ℤ, ltb_ℤ, to_bits64, of_bits32, int32_min, int32_max,
}
use r_sjit.Value.{Value, Float, nil, na_int, na_logical, as_real, as_integer, as_logical, as_string}
use r_sjit.Value.Tag.{TypeTag}
use r_sjit.Vectors.Fill.{fill}

-- `enum class VectorType`
pub data VectorType : Type 0 where
  logical integer real string complex raw list : VectorType

abbrev pub type_code : VectorType → ℕ
type_code VectorType.logical = 0
type_code VectorType.integer = 1
type_code VectorType.real = 2
type_code VectorType.string = 3
type_code VectorType.complex = 4
type_code VectorType.raw = 5
type_code VectorType.list = 6

abbrev pub same_type : VectorType → VectorType → Bool
same_type a b = type_code a == type_code b

unfoldable pub element_size : VectorType → ℕ
element_size VectorType.logical = 4
element_size VectorType.integer = 4
element_size VectorType.real = 8
element_size VectorType.string = 4
element_size VectorType.complex = 16
element_size VectorType.raw = 1
element_size VectorType.list = 16

-- The bytes that `allocate_data` asks for; `& ~15` clears the last four bits.
unfoldable pub aligned_size : VectorType → ℕ → ℕ
unfolding element_size
aligned_size vt n =
    let sz = element_size vt * n % u64_size in let up = (sz + 15) % u64_size in up - up % 16

-- `enum class VectorRepr`
pub data VectorRepr : Type 0 where
  concrete range_repr repeat_repr coercion_repr : VectorRepr

-- An element; logical elements are `int32_t` too.
pub data Cell : Type 0 where
  integer_cell : ℤ → Cell
  real_cell : ℕ → Cell
  string_cell : ℕ → Cell
  complex_cell : ℕ → ℕ → Cell
  raw_cell : ℕ → Cell
  list_cell : Value → Cell

-- What `memset` with 0 leaves.
unfoldable pub zero_cell : VectorType → Cell
unfolding nil
zero_cell VectorType.logical = integer_cell (pos 0)
zero_cell VectorType.integer = integer_cell (pos 0)
zero_cell VectorType.real = real_cell 0
zero_cell VectorType.string = string_cell 0
zero_cell VectorType.complex = complex_cell 0 0
zero_cell VectorType.raw = raw_cell 0
zero_cell VectorType.list = list_cell nil

-- `class Vector`
pub record Vector : Type 0 where
  pub vtype : VectorType
  pub repr : VectorRepr
  pub flags : ℕ
  pub len : ℕ
  pub data_ : List Cell
  pub range_start : ℤ
  pub range_step : ℤ

-- `Vector::Vector`; all eight flags are set.
unfoldable pub new_vector : VectorType → ℕ → Vector
unfolding zero_cell
new_vector vt n = record {
  vtype = vt;
  repr = VectorRepr.concrete;
  flags = 255;
  len = n;
  data_ = replicate n (zero_cell vt);
  range_start = pos 0;
  range_step = pos 1;
}

unfoldable pub cell_at : Vector → ℕ → Cell
unfolding zero_cell
cell_at v i = get_or v.data_ i (zero_cell v.vtype)

abbrev pub as_integer_cell : Cell → ℤ
as_integer_cell (integer_cell z) = z
as_integer_cell _ = pos 0

abbrev pub as_real_cell : Cell → ℕ
as_real_cell (real_cell d) = d
as_real_cell _ = 0

-- A loop over the elements that writes `g(i)` at `i`.
unfoldable pub with_cells : (ℕ → Cell) → ℕ → Vector → Vector
unfolding fill
with_cells g n v = record v { data_ = fill g n 0 0 v.data_ }

-- `flags_.clear(VectorFlags::kNoNA)`, which is bit 0.
unfoldable pub clear_no_na : ℕ → ℕ
clear_no_na bits = bits - bits % 2

unfoldable pub converted : Option (Cell → Cell) → Vector → Vector → Vector
unfolding with_cells cell_at
converted none v out = out
converted (some g) v out = with_cells (λ i. g (cell_at v i)) v.len out

unfoldable pub with_na_flag : Bool → Vector → Vector
unfolding clear_no_na
with_na_flag true v = record v { flags = clear_no_na v.flags }
with_na_flag false v = v

module _ (f : Float) (truncate : ℕ → ℤ) where
  abbrev pub int_to_real : ℤ → ℕ
  int_to_real v = if eq_ℤ v na_int then f.na_real else f.of_int v

  abbrev pub int_to_logical : ℤ → ℤ
  int_to_logical v = if eq_ℤ v na_int then na_logical else if eq_ℤ v (pos 0) then pos 0 else pos 1

  abbrev pub logical_to_int : ℤ → ℤ
  logical_to_int v = if eq_ℤ v na_logical then na_int else v

  -- A NaN, or a number that no `int32_t` holds.
  abbrev pub out_of_range : ℕ → Bool
  out_of_range d = not (f.eq d d) || f.lt d (f.of_int int32_min) || f.lt (f.of_int int32_max) d

  abbrev pub real_to_int : ℕ → ℤ
  real_to_int d = if out_of_range d then na_int else truncate d

  abbrev pub real_to_logical : ℕ → ℤ
  real_to_logical d =
      if not (f.eq d d) then na_logical else if f.eq d (f.of_int (pos 0)) then pos 0 else pos 1

  -- The element conversions that `coerce_to` has; otherwise the new vector stays as it is.
  unfoldable pub converter : VectorType → VectorType → Option (Cell → Cell)
  converter VectorType.integer VectorType.real =
      some (λ c. real_cell (int_to_real (as_integer_cell c)))
  converter VectorType.integer VectorType.logical =
      some (λ c. integer_cell (int_to_logical (as_integer_cell c)))
  converter VectorType.logical VectorType.real =
      some (λ c. real_cell (int_to_real (as_integer_cell c)))
  converter VectorType.logical VectorType.integer =
      some (λ c. integer_cell (logical_to_int (as_integer_cell c)))
  converter VectorType.real VectorType.integer =
      some (λ c. integer_cell (real_to_int (as_real_cell c)))
  converter VectorType.real VectorType.logical =
      some (λ c. integer_cell (real_to_logical (as_real_cell c)))
  converter _ _ = none

  -- `any_na`, which only the conversion of reals to integers keeps.
  unfoldable pub loses_na : VectorType → VectorType → List Cell → Bool
  loses_na VectorType.real VectorType.integer cells = any (λ c. out_of_range (as_real_cell c)) cells
  loses_na _ _ _ = false

  unfoldable pub coerce_to : VectorType → Vector → Vector
  unfolding converted converter with_na_flag loses_na new_vector
  coerce_to target v =
      if same_type v.vtype target
      then v
      else with_na_flag (loses_na v.vtype target v.data_)
          (converted (converter v.vtype target) v (new_vector target v.len))
