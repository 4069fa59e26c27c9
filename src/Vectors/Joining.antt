-- ===== src/Vectors/Joining.antt =====
-- src/core/vector.cpp: `concat` puts the converted parts one after the other.
use r_sjit.Common.{
  ℕ, zero, suc, ◌+◌, ◌≡◌, refl, ap, ◌∙◌, sym, true, false, List, [], ◌∷◌, ◌++◌, length, replicate,
  none, arith, length-replicate, length-append, All, Bool-cases, inl, inr,
}
use r_sjit.Common.Int.{ℤ}
use r_sjit.Value.{Float}
use r_sjit.Vectors.{
  VectorType, same_type, Vector, Cell, new_vector, cell_at, zero_cell, coerce_to, converter,
}
use r_sjit.Vectors.Fill.{fill, values, fill-region, append_assoc}
use r_sjit.Vectors.Concat.{
  concat, concat_as, copy_parts, copy_part, common_type, total_length, is_copied,
}
use r_sjit.Vectors.Coercion.{
  IsVector, values-cell_at, coerce_to_self, coerce_to-data, coerce_to-len, cells_as,
  coerce_to-IsVector,
}

replicate-add : (m n : ℕ) (c : Cell) → replicate (m + n) c ≡ replicate m c ++ replicate n c
replicate-add zero n c = let e : 0 + n ≡ n = omega arith in ap (λ k. replicate k c) e
replicate-add (suc m) n c =
    let e : suc m + n ≡ suc (m + n) = omega arith in
    ap (λ k. replicate k c) e ∙ ap (λ cells. c ∷ cells) (replicate-add m n c)

-- Writing the elements of a vector over as many others.
fill-vector :
    (v : Vector) (n : ℕ) (c : Cell) (before after : List Cell)
    → IsVector v
    → v.len ≡ n
    → fill (cell_at v) v.len 0 (length before) (before ++ (replicate n c ++ after))
      ≡ before ++ (v.data_ ++ after)
fill-vector v n c before after h e =
    let size = length-replicate n c in
    ap (λ m. fill (cell_at v) m 0 (length before) (before ++ (replicate n c ++ after)))
      (e ∙ sym size)
    ∙ fill-region (cell_at v) (replicate n c) before after 0 (length before) (omega arith)
    ∙ ap (λ m. before ++ (values (cell_at v) m 0 ++ after)) (size ∙ sym e)
    ∙ ap (λ cells. before ++ (cells ++ after)) (values-cell_at v h)

module _ (f : Float) (truncate : ℕ → ℤ) where
  -- The elements of the parts, each converted to the type.
  pub joined : VectorType → List Vector → List Cell
  joined common [] = []
  joined common (p ∷ ps) = (coerce_to f truncate common p).data_ ++ joined common ps

  converter-complex : (from : VectorType) → converter f truncate from VectorType.complex ≡ none
  unfolding converter
  converter-complex VectorType.logical = refl
  converter-complex VectorType.integer = refl
  converter-complex VectorType.real = refl
  converter-complex VectorType.string = refl
  converter-complex VectorType.complex = refl
  converter-complex VectorType.raw = refl
  converter-complex VectorType.list = refl

  converter-raw : (from : VectorType) → converter f truncate from VectorType.raw ≡ none
  unfolding converter
  converter-raw VectorType.logical = refl
  converter-raw VectorType.integer = refl
  converter-raw VectorType.real = refl
  converter-raw VectorType.string = refl
  converter-raw VectorType.complex = refl
  converter-raw VectorType.raw = refl
  converter-raw VectorType.list = refl

  -- There is no conversion to the types whose elements are not copied.
  converter-not_copied :
      (from common : VectorType)
      → is_copied common ≡ false
      → converter f truncate from common ≡ none
  converter-not_copied from VectorType.complex e = converter-complex from
  converter-not_copied from VectorType.raw e = converter-raw from
  converter-not_copied from VectorType.logical e = absurd cc
  converter-not_copied from VectorType.integer e = absurd cc
  converter-not_copied from VectorType.real e = absurd cc
  converter-not_copied from VectorType.string e = absurd cc
  converter-not_copied from VectorType.list e = absurd cc

  coerced-not_copied :
      (common : VectorType) (p : Vector)
      → IsVector p
      → same_type p.vtype common ≡ false
      → is_copied common ≡ false
      → (coerce_to f truncate common p).data_ ≡ replicate p.len (zero_cell common)
  unfolding cells_as IsVector
  coerced-not_copied common p h e n =
      coerce_to-data f truncate common p h e
      ∙ ap (λ o. cells_as o common p.data_) (converter-not_copied p.vtype common n)
      ∙ ap (λ m. replicate m (zero_cell common)) h

  coerced-size :
      (common : VectorType) (p : Vector)
      → IsVector p
      → length (coerce_to f truncate common p).data_ ≡ p.len
  unfolding IsVector
  coerced-size common p h =
      coerce_to-IsVector f truncate common p h ∙ coerce_to-len f truncate common p

  copy_part-same :
      (common : VectorType) (place : ℕ) (p : Vector) (out : List Cell)
      → same_type p.vtype common ≡ true
      → copy_part f truncate common place p out ≡ fill (cell_at p) p.len 0 place out
  unfolding copy_part
  copy_part-same common place p out e = rw (e) refl

  copy_part-converted :
      (common : VectorType) (place : ℕ) (p : Vector) (out : List Cell)
      → same_type p.vtype common ≡ false
      → is_copied common ≡ true
      → copy_part f truncate common place p out
        ≡ fill
            (cell_at (coerce_to f truncate common p))
            (coerce_to f truncate common p).len
            0
            place
            out
  unfolding copy_part
  copy_part-converted common place p out e c = rw (e, c) refl

  copy_part-zero :
      (common : VectorType) (place : ℕ) (p : Vector) (out : List Cell)
      → same_type p.vtype common ≡ false
      → is_copied common ≡ false
      → copy_part f truncate common place p out ≡ out
  unfolding copy_part
  copy_part-zero common place p out e c = rw (e, c) refl

  copy_part-joined :
      (common : VectorType) (p : Vector) (before after : List Cell)
      → IsVector p
      → copy_part f truncate common
          (length before)
          p
          (before ++ (replicate p.len (zero_cell common) ++ after))
        ≡ before ++ ((coerce_to f truncate common p).data_ ++ after)
  copy_part-joined common p before after h =
      let from = before ++ (replicate p.len (zero_cell common) ++ after) in
      elim (Bool-cases (same_type p.vtype common)) [
        | inl e ↦
            copy_part-same common (length before) p from e
            ∙ fill-vector p p.len (zero_cell common) before after h refl
            ∙ ap (λ (v : Vector). before ++ (v.data_ ++ after))
                (sym (coerce_to_self f truncate common p e))
        | inr e ↦ elim (Bool-cases (is_copied common)) [
          | inl c ↦
              copy_part-converted common (length before) p from e c
              ∙ fill-vector (coerce_to f truncate common p) p.len (zero_cell common) before after
                  (coerce_to-IsVector f truncate common p h) (coerce_to-len f truncate common p)
          | inr c ↦
              copy_part-zero common (length before) p from e c
              ∙ ap (λ cells. before ++ (cells ++ after)) (sym (coerced-not_copied common p h e c))
        ]
      ]

  copy_parts-joined :
      (common : VectorType) (parts : List Vector) (before : List Cell)
      → All IsVector parts
      → copy_parts f truncate common
          (length before)
          parts
          (before ++ replicate (total_length parts) (zero_cell common))
        ≡ before ++ joined common parts
  unfolding copy_parts joined total_length
  copy_parts-joined common [] before h = refl
  copy_parts-joined common (p ∷ ps) before h =
      let z = zero_cell common in
      let cells = (coerce_to f truncate common p).data_ in
      let more = replicate (total_length ps) z in
      let size : length before + p.len ≡ length (before ++ cells) =
        omega (arith, length-append before cells, coerced-size common p h.0) in
      ap
        (λ (xs : List Cell).
          copy_parts f truncate common (length before + p.len) ps
            (copy_part f truncate common (length before) p (before ++ xs)))
        (replicate-add p.len (total_length ps) z)
      ∙ ap (copy_parts f truncate common (length before + p.len) ps)
          (copy_part-joined common p before more h.0)
      ∙ ap (λ (n : ℕ). copy_parts f truncate common n ps (before ++ (cells ++ more))) size
      ∙ ap (copy_parts f truncate common (length (before ++ cells)) ps)
          (sym (append_assoc before cells more))
      ∙ copy_parts-joined common ps (before ++ cells) h.1
      ∙ append_assoc before cells (joined common ps)

  -- For vectors whose buffers have their lengths, of which there is at least one, the elements of
  -- `concat` are those of the parts, each converted to the common type, one part after the other.
  pub concat-joined :
      (p : Vector) (ps : List Vector)
      → All IsVector (p ∷ ps)
      → (concat f truncate (p ∷ ps)).data_ ≡ joined (common_type p.vtype (p ∷ ps)) (p ∷ ps)
  unfolding concat concat_as new_vector
  concat-joined p ps h = copy_parts-joined (common_type p.vtype (p ∷ ps)) (p ∷ ps) [] h

  length-joined :
      (common : VectorType) (parts : List Vector)
      → All IsVector parts
      → length (joined common parts) ≡ total_length parts
  unfolding joined total_length
  length-joined common [] h = refl
  length-joined common (p ∷ ps) h =
      let cells = (coerce_to f truncate common p).data_ in
      omega (
        arith,
        length-append cells (joined common ps),
        coerced-size common p h.0,
        length-joined common ps h.1,
      )

  -- A concatenation of vectors whose buffers have their lengths is one.
  pub concat-IsVector :
      (parts : List Vector) → All IsVector parts → IsVector (concat f truncate parts)
  unfolding concat concat_as new_vector IsVector
  concat-IsVector [] h = refl
  concat-IsVector (p ∷ ps) h =
      ap length (concat-joined p ps h) ∙ length-joined (common_type p.vtype (p ∷ ps)) (p ∷ ps) h
