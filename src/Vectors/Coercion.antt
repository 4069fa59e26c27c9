-- ===== src/Vectors/Coercion.antt =====
-- src/core/vector.cpp: `coerce_to` on every element, and the size of the buffer.
use r_sjit.Common.{
  ℕ, suc, ◌≡◌, refl, ap, subst, ◌∙◌, sym, inl, inr, Bool, true, false, List, [], ◌∷◌, map, length,
  replicate, Option, none, some, length-replicate, Bool-cases,
}
use r_sjit.Common.Int.{ℤ}
use r_sjit.Value.{Float}
use r_sjit.Vectors.{
  VectorType, same_type, Vector, Cell, new_vector, cell_at, zero_cell, with_cells, coerce_to,
  converter, converted, with_na_flag, loses_na,
}
use r_sjit.Vectors.Fill.{fill, values, fill-all, values-map}

-- The buffer has one element for each index below the length.
unfoldable pub IsVector : Vector → Type 0
IsVector v = length v.data_ ≡ v.len

map_id : (cells : List Cell) → map (λ c. c) cells ≡ cells
map_id [] = refl
map_id (c ∷ cells) = ap (λ xs. c ∷ xs) (map_id cells)

-- A loop over all elements of a vector copies its buffer.
pub values-cell_at : (v : Vector) → IsVector v → values (cell_at v) v.len 0 ≡ v.data_
unfolding IsVector cell_at
values-cell_at v h =
    ap (λ n. values (cell_at v) n 0) (sym h)
    ∙ values-map (λ c. c) (zero_cell v.vtype) v.data_
    ∙ map_id v.data_

pub new_vector-IsVector : (vt : VectorType) (n : ℕ) → IsVector (new_vector vt n)
unfolding IsVector new_vector
new_vector-IsVector vt n = length-replicate n (zero_cell vt)

-- A loop over the whole new vector.
pub with_cells-data :
    (g : ℕ → Cell) (v : Vector) → IsVector v → (with_cells g v.len v).data_ ≡ values g v.len 0
unfolding IsVector with_cells
with_cells-data g v h =
    ap (λ n. fill g n 0 0 v.data_) (sym h) ∙ fill-all g v.data_ ∙ ap (λ n. values g n 0) h

-- The elements of a vector as the conversion gives them.
unfoldable pub cells_as : Option (Cell → Cell) → VectorType → List Cell → List Cell
cells_as none target cells = replicate (length cells) (zero_cell target)
cells_as (some g) target cells = map g cells

with_na_flag-data : (b : Bool) (v : Vector) → (with_na_flag b v).data_ ≡ v.data_
unfolding with_na_flag
with_na_flag-data true v = refl
with_na_flag-data false v = refl

with_na_flag-len : (b : Bool) (v : Vector) → (with_na_flag b v).len ≡ v.len
unfolding with_na_flag
with_na_flag-len true v = refl
with_na_flag-len false v = refl

converted-data :
    (o : Option (Cell → Cell)) (target : VectorType) (v : Vector)
    → IsVector v
    → (converted o v (new_vector target v.len)).data_ ≡ cells_as o target v.data_
unfolding converted IsVector cells_as new_vector cell_at
converted-data none target v h = ap (λ n. replicate n (zero_cell target)) (sym h)
converted-data (some g) target v h =
    with_cells-data (λ i. g (cell_at v i)) (new_vector target v.len)
      (new_vector-IsVector target v.len)
    ∙ ap (λ n. values (λ i. g (cell_at v i)) n 0) (sym h)
    ∙ values-map g (zero_cell v.vtype) v.data_

converted-len :
    (o : Option (Cell → Cell)) (target : VectorType) (v : Vector)
    → (converted o v (new_vector target v.len)).len ≡ v.len
unfolding converted new_vector with_cells
converted-len none target v = refl
converted-len (some g) target v = refl

with_na_flag-vtype : (b : Bool) (v : Vector) → (with_na_flag b v).vtype ≡ v.vtype
unfolding with_na_flag
with_na_flag-vtype true v = refl
with_na_flag-vtype false v = refl

converted-vtype :
    (o : Option (Cell → Cell)) (target : VectorType) (v : Vector)
    → (converted o v (new_vector target v.len)).vtype ≡ target
unfolding converted new_vector with_cells
converted-vtype none target v = refl
converted-vtype (some g) target v = refl

module _ (f : Float) (truncate : ℕ → ℤ) where
  pub coerce_to_self :
      (target : VectorType) (v : Vector)
      → same_type v.vtype target ≡ true
      → coerce_to f truncate target v ≡ v
  unfolding coerce_to
  coerce_to_self target v e = rw (e) refl

  -- The elements of a vector that was converted to another type.
  pub coerce_to-data :
      (target : VectorType) (v : Vector)
      → IsVector v
      → same_type v.vtype target ≡ false
      → (coerce_to f truncate target v).data_
        ≡ cells_as (converter f truncate v.vtype target) target v.data_
  unfolding coerce_to
  coerce_to-data target v h e = rw (e) (
      with_na_flag-data (loses_na f truncate v.vtype target v.data_) _
      ∙ converted-data (converter f truncate v.vtype target) target v h)

  pub coerce_to-len :
      (target : VectorType) (v : Vector) → (coerce_to f truncate target v).len ≡ v.len
  unfolding coerce_to
  coerce_to-len target v = elim (Bool-cases (same_type v.vtype target)) [
    | inl e ↦ rw (e) refl
    | inr e ↦ rw (e) (
        with_na_flag-len (loses_na f truncate v.vtype target v.data_) _
        ∙ converted-len (converter f truncate v.vtype target) target v)
  ]

length-map : (g : Cell → Cell) (cells : List Cell) → length (map g cells) ≡ length cells
length-map g [] = refl
length-map g (c ∷ cells) = ap suc (length-map g cells)

length-cells_as :
    (o : Option (Cell → Cell)) (target : VectorType) (cells : List Cell)
    → length (cells_as o target cells) ≡ length cells
unfolding cells_as
length-cells_as none target cells = length-replicate (length cells) (zero_cell target)
length-cells_as (some g) target cells = length-map g cells

module _ (f : Float) (truncate : ℕ → ℤ) where
  pub coerce_to-IsVector :
      (target : VectorType) (v : Vector) → IsVector v → IsVector (coerce_to f truncate target v)
  unfolding IsVector
  coerce_to-IsVector target v h = elim (Bool-cases (same_type v.vtype target)) [
    | inl e ↦ subst IsVector (sym (coerce_to_self f truncate target v e)) h
    | inr e ↦
        ap length (coerce_to-data f truncate target v h e)
        ∙ length-cells_as (converter f truncate v.vtype target) target v.data_
        ∙ h
        ∙ sym (coerce_to-len f truncate target v)
  ]

  pub coerce_to-vtype :
      (target : VectorType) (v : Vector)
      → same_type v.vtype target ≡ false
      → (coerce_to f truncate target v).vtype ≡ target
  unfolding coerce_to
  coerce_to-vtype target v e = rw (e) (
      with_na_flag-vtype (loses_na f truncate v.vtype target v.data_) _
      ∙ converted-vtype (converter f truncate v.vtype target) target v)
