-- ===== src/Vectors/Missing.antt =====
-- src/core/vector.cpp: missing values under `coerce_to`, and logical vectors there and back.
use r_sjit.Common.{
  ℕ, zero, suc, ◌<◌, ◌≡◌, refl, ap, subst, ◌∙◌, ◌⊎◌, inl, inr, Bool, true, false, not, List, [],
  ◌∷◌, map, length, get_or, some, arith, All,
}
use r_sjit.Common.Int.{ℤ, pos, eq_ℤ}
use r_sjit.Value.{Float, na_int, na_logical}
use r_sjit.Vectors.{
  VectorType, same_type, Vector, Cell, integer_cell, cell_at, zero_cell, coerce_to, converter,
  int_to_logical, logical_to_int, int_to_real, as_real_cell, as_integer_cell,
}
use r_sjit.Vectors.Coercion.{
  IsVector, coerce_to-data, coerce_to-vtype, coerce_to-IsVector, cells_as,
}

get_or-map :
    (g : Cell → Cell) (cells : List Cell) (i : ℕ) (c d : Cell)
    → i < length cells
    → get_or (map g cells) i d ≡ g (get_or cells i c)
get_or-map g [] i c d h = absurd (omega arith)
get_or-map g (x ∷ cells) zero c d h = refl
get_or-map g (x ∷ cells) (suc i) c d h = get_or-map g cells i c d (omega arith)

some_inj {ℓ} : {A : Type ℓ} (a b : A) → some a ≡ some b → a ≡ b
some_inj a b e = cc

module _ (f : Float) (truncate : ℕ → ℤ) where
  -- An integer or a logical that is NA, or a NaN, in a vector of the type.
  unfoldable pub is_missing : VectorType → Cell → Bool
  is_missing VectorType.logical c = eq_ℤ (as_integer_cell c) na_logical
  is_missing VectorType.integer c = eq_ℤ (as_integer_cell c) na_int
  is_missing VectorType.real c = not (f.eq (as_real_cell c) (as_real_cell c))
  is_missing _ _ = false

  na_real-missing : not (f.eq f.na_real f.na_real) ≡ true
  na_real-missing = ap not (f.eq-nan f.na_real f.na_real f.na_real-nan)

  int_to_real-na :
      (z : ℤ)
      → eq_ℤ z na_int ≡ true
      → not (f.eq (int_to_real f truncate z) (int_to_real f truncate z)) ≡ true
  int_to_real-na z e = rw (e) na_real-missing

  -- A conversion is to another type, and keeps a missing element missing.
  converter-is_missing :
      (from target : VectorType) (g : Cell → Cell) (c : Cell)
      → converter f truncate from target ≡ some g
      → is_missing from c ≡ true
      → (same_type from target ≡ false) × (is_missing target (g c) ≡ true)
  unfolding converter is_missing
  converter-is_missing VectorType.logical VectorType.logical g c e m = absurd cc
  converter-is_missing VectorType.logical VectorType.integer g c e m =
      (refl, subst (λ h. is_missing VectorType.integer (h c) ≡ true) (some_inj _ _ e) (rw (m) refl))
  converter-is_missing VectorType.logical VectorType.real g c e m = (
    refl,
    subst (λ h. is_missing VectorType.real (h c) ≡ true) (some_inj _ _ e)
        (int_to_real-na (as_integer_cell c) m),
  )
  converter-is_missing VectorType.logical VectorType.string g c e m = absurd cc
  converter-is_missing VectorType.logical VectorType.complex g c e m = absurd cc
  converter-is_missing VectorType.logical VectorType.raw g c e m = absurd cc
  converter-is_missing VectorType.logical VectorType.list g c e m = absurd cc
  converter-is_missing VectorType.integer VectorType.logical g c e m =
      (refl, subst (λ h. is_missing VectorType.logical (h c) ≡ true) (some_inj _ _ e) (rw (m) refl))
  converter-is_missing VectorType.integer VectorType.integer g c e m = absurd cc
  converter-is_missing VectorType.integer VectorType.real g c e m = (
    refl,
    subst (λ h. is_missing VectorType.real (h c) ≡ true) (some_inj _ _ e)
        (int_to_real-na (as_integer_cell c) m),
  )
  converter-is_missing VectorType.integer VectorType.string g c e m = absurd cc
  converter-is_missing VectorType.integer VectorType.complex g c e m = absurd cc
  converter-is_missing VectorType.integer VectorType.raw g c e m = absurd cc
  converter-is_missing VectorType.integer VectorType.list g c e m = absurd cc
  converter-is_missing VectorType.real VectorType.logical g c e m =
      (refl, subst (λ h. is_missing VectorType.logical (h c) ≡ true) (some_inj _ _ e) (rw (m) refl))
  converter-is_missing VectorType.real VectorType.integer g c e m =
      (refl, subst (λ h. is_missing VectorType.integer (h c) ≡ true) (some_inj _ _ e) (rw (m) refl))
  converter-is_missing VectorType.real VectorType.real g c e m = absurd cc
  converter-is_missing VectorType.real VectorType.string g c e m = absurd cc
  converter-is_missing VectorType.real VectorType.complex g c e m = absurd cc
  converter-is_missing VectorType.real VectorType.raw g c e m = absurd cc
  converter-is_missing VectorType.real VectorType.list g c e m = absurd cc
  converter-is_missing VectorType.string VectorType.logical g c e m = absurd cc
  converter-is_missing VectorType.string VectorType.integer g c e m = absurd cc
  converter-is_missing VectorType.string VectorType.real g c e m = absurd cc
  converter-is_missing VectorType.string VectorType.string g c e m = absurd cc
  converter-is_missing VectorType.string VectorType.complex g c e m = absurd cc
  converter-is_missing VectorType.string VectorType.raw g c e m = absurd cc
  converter-is_missing VectorType.string VectorType.list g c e m = absurd cc
  converter-is_missing VectorType.complex VectorType.logical g c e m = absurd cc
  converter-is_missing VectorType.complex VectorType.integer g c e m = absurd cc
  converter-is_missing VectorType.complex VectorType.real g c e m = absurd cc
  converter-is_missing VectorType.complex VectorType.string g c e m = absurd cc
  converter-is_missing VectorType.complex VectorType.complex g c e m = absurd cc
  converter-is_missing VectorType.complex VectorType.raw g c e m = absurd cc
  converter-is_missing VectorType.complex VectorType.list g c e m = absurd cc
  converter-is_missing VectorType.raw VectorType.logical g c e m = absurd cc
  converter-is_missing VectorType.raw VectorType.integer g c e m = absurd cc
  converter-is_missing VectorType.raw VectorType.real g c e m = absurd cc
  converter-is_missing VectorType.raw VectorType.string g c e m = absurd cc
  converter-is_missing VectorType.raw VectorType.complex g c e m = absurd cc
  converter-is_missing VectorType.raw VectorType.raw g c e m = absurd cc
  converter-is_missing VectorType.raw VectorType.list g c e m = absurd cc
  converter-is_missing VectorType.list VectorType.logical g c e m = absurd cc
  converter-is_missing VectorType.list VectorType.integer g c e m = absurd cc
  converter-is_missing VectorType.list VectorType.real g c e m = absurd cc
  converter-is_missing VectorType.list VectorType.string g c e m = absurd cc
  converter-is_missing VectorType.list VectorType.complex g c e m = absurd cc
  converter-is_missing VectorType.list VectorType.raw g c e m = absurd cc
  converter-is_missing VectorType.list VectorType.list g c e m = absurd cc

  -- When there is a conversion from the type of a vector to another type, an element below the
  -- length that is NA or a NaN is NA or a NaN after the conversion.
  pub coerce_to-is_missing :
      (target : VectorType) (v : Vector) (g : Cell → Cell) (i : ℕ)
      → IsVector v
      → i < v.len
      → converter f truncate v.vtype target ≡ some g
      → is_missing v.vtype (cell_at v i) ≡ true
      → is_missing target (cell_at (coerce_to f truncate target v) i) ≡ true
  unfolding IsVector cell_at cells_as
  coerce_to-is_missing target v g i h l e m =
      let kept = converter-is_missing v.vtype target g (cell_at v i) e m in
      let cells : (coerce_to f truncate target v).data_ ≡ map g v.data_ =
        coerce_to-data f truncate target v h kept.0 ∙ ap (λ o. cells_as o target v.data_) e in
      let read : cell_at (coerce_to f truncate target v) i ≡ g (cell_at v i) =
        ap (λ xs. get_or xs i (zero_cell (coerce_to f truncate target v).vtype)) cells
        ∙ get_or-map g v.data_ i (zero_cell v.vtype)
            (zero_cell (coerce_to f truncate target v).vtype) (omega arith) in
      ap (is_missing target) read ∙ kept.1

  -- FALSE, TRUE or NA.
  unfoldable pub IsLogicalCell : Cell → Type 0
  IsLogicalCell c =
      (c ≡ integer_cell (pos 0)) ⊎ (c ≡ integer_cell (pos 1)) ⊎ (c ≡ integer_cell na_logical)

  there_and_back : Cell → Cell
  there_and_back c =
      integer_cell (int_to_logical f truncate (logical_to_int f truncate (as_integer_cell c)))

  there_and_back-cell : (c : Cell) → IsLogicalCell c → there_and_back c ≡ c
  unfolding IsLogicalCell there_and_back
  there_and_back-cell c h = elim h [
    | inl e ↦ rw (e) refl
    | inr (inl e) ↦ rw (e) refl
    | inr (inr e) ↦ rw (e) refl
  ]

  map-there_and_back :
      (cells : List Cell)
      → All IsLogicalCell cells
      → map
          (λ c. integer_cell (int_to_logical f truncate (as_integer_cell c)))
          (map (λ c. integer_cell (logical_to_int f truncate (as_integer_cell c))) cells)
        ≡ cells
  unfolding there_and_back
  map-there_and_back [] h = refl
  map-there_and_back (c ∷ cells) h =
      ap
        (λ x.
          x
          ∷ map (λ c. integer_cell (int_to_logical f truncate (as_integer_cell c)))
              (map (λ c. integer_cell (logical_to_int f truncate (as_integer_cell c))) cells))
        (there_and_back-cell c h.0)
      ∙ ap (λ xs. c ∷ xs) (map-there_and_back cells h.1)

  -- The elements of a vector of logicals, each of them FALSE, TRUE or NA, are the same after a
  -- conversion to integers and back.
  pub coerce_to-coerce_to :
      (v : Vector)
      → IsVector v
      → v.vtype ≡ VectorType.logical
      → All IsLogicalCell v.data_
      → (coerce_to f truncate VectorType.logical (coerce_to f truncate VectorType.integer v)).data_
        ≡ v.data_
  unfolding cells_as converter
  coerce_to-coerce_to v h t cells =
      let w = coerce_to f truncate VectorType.integer v in
      let one : w.data_
          ≡ map (λ c. integer_cell (logical_to_int f truncate (as_integer_cell c))) v.data_ =
        coerce_to-data f truncate VectorType.integer v h
          (ap (λ x. same_type x VectorType.integer) t)
        ∙ ap (λ x. cells_as (converter f truncate x VectorType.integer) VectorType.integer v.data_)
            t in
      let u : w.vtype ≡ VectorType.integer =
        coerce_to-vtype f truncate VectorType.integer v
          (ap (λ x. same_type x VectorType.integer) t) in
      coerce_to-data f truncate VectorType.logical w
        (coerce_to-IsVector f truncate VectorType.integer v h)
        (ap (λ x. same_type x VectorType.logical) u)
      ∙ ap (λ x. cells_as (converter f truncate x VectorType.logical) VectorType.logical w.data_) u
      ∙ ap (map (λ c. integer_cell (int_to_logical f truncate (as_integer_cell c)))) one
      ∙ map-there_and_back v.data_ cells
