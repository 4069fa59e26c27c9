-- ===== src/Vectors/Bounds.antt =====
-- src/core/vector.cpp: the buffer that `allocate_data` asks for, and the elements of `range`.
use r_sjit.Common.{
  ℕ, ◌+◌, ◌-◌, ◌*◌, ◌%◌, ◌<◌, ◌≤◌, ◌≡◌, ap, subst, ◌∙◌, sym, true, false, get_or, u64_size, arith,
  Bool-cases, inl, inr, length, length-replicate,
}
use r_sjit.Common.Int.{ℤ, pos, negsuc, ◌+ℤ◌, ◌-ℤ◌, ◌*ℤ◌, IsInt32, of_bits32-to_bits64}
use r_sjit.Vectors.{
  VectorType, Cell, integer_cell, element_size, aligned_size, cell_at, with_cells, new_vector,
  zero_cell,
}
use r_sjit.Vectors.Fill.{fill, values, fill-all, get_or-values}
use r_sjit.Vectors.Range.{range, range_count, range_element, range_step_of, is_up}

-- When the bytes of the elements and 15 more fit 64 bits, the buffer that is asked for holds all
-- bytes of each element below the length, is a multiple of 16 bytes, and is less than 16 bytes too
-- large.
pub aligned_size-holds :
    (vt : VectorType) (n i : ℕ)
    → element_size vt * n + 15 < u64_size
    → i < n
    → (i * element_size vt + element_size vt ≤ aligned_size vt n)
      × (aligned_size vt n % 16 ≡ 0)
      × (aligned_size vt n < element_size vt * n + 16)
unfolding aligned_size element_size
aligned_size-holds VectorType.logical n i small h = omega arith
aligned_size-holds VectorType.integer n i small h = omega arith
aligned_size-holds VectorType.real n i small h = omega arith
aligned_size-holds VectorType.string n i small h = omega arith
aligned_size-holds VectorType.complex n i small h = omega arith
aligned_size-holds VectorType.raw n i small h = omega arith
aligned_size-holds VectorType.list n i small h = omega arith

range-cell :
    (start end : ℤ) (i : ℕ)
    → i < range_count start end
    → cell_at (range start end) i ≡ integer_cell (range_element start end i)
unfolding range with_cells new_vector cell_at
range-cell start end i h =
    let n = range_count start end in
    let g : ℕ → Cell = λ k. integer_cell (range_element start end k) in
    let zeros = (new_vector VectorType.integer n).data_ in
    let size : length zeros ≡ n = length-replicate n (zero_cell VectorType.integer) in
    ap (λ cells. get_or cells i (zero_cell VectorType.integer))
      (ap (λ m. fill g m 0 0 zeros) (sym size) ∙ fill-all g zeros ∙ ap (λ m. values g m 0) size)
    ∙ get_or-values g n 0 i (zero_cell VectorType.integer) h
    ∙ ap g (omega arith)

-- The integer that `range_element` keeps 32 bits of.
range_value : ℤ → ℤ → ℕ → ℤ
range_value start end i = start +ℤ pos i *ℤ range_step_of start end

times_one : (i : ℕ) → pos i *ℤ pos 1 ≡ pos i
unfolding ◌*ℤ◌
times_one i = ground arith

plus_times_minus_one : (z : ℤ) (i : ℕ) → z +ℤ pos i *ℤ negsuc 0 ≡ z -ℤ pos i
unfolding ◌*ℤ◌ ◌+ℤ◌ ◌-ℤ◌
plus_times_minus_one (pos a) i = ground arith
plus_times_minus_one (negsuc a) i = ground arith

plus_zero : (z : ℤ) → z +ℤ pos 0 ≡ z
unfolding ◌+ℤ◌
plus_zero (pos a) = ground arith
plus_zero (negsuc a) = ground arith

minus_zero : (z : ℤ) → z -ℤ pos 0 ≡ z
unfolding ◌-ℤ◌
minus_zero (pos a) = ground arith
minus_zero (negsuc a) = ground arith

value_up :
    (start end : ℤ) (i : ℕ) → is_up start end ≡ true → range_value start end i ≡ start +ℤ pos i
unfolding range_value range_step_of
value_up start end i e = rw (e) (ap (λ z. start +ℤ z) (times_one i))

value_down :
    (start end : ℤ) (i : ℕ) → is_up start end ≡ false → range_value start end i ≡ start -ℤ pos i
unfolding range_value range_step_of
value_down start end i e = rw (e) (plus_times_minus_one start i)

count_up : (start end : ℤ) → is_up start end ≡ true → start +ℤ pos (range_count start end - 1) ≡ end
unfolding range_count ◌+ℤ◌ ◌-ℤ◌
count_up (pos a) (pos b) e = ground (arith, e)
count_up (pos a) (negsuc b) e = ground (arith, e)
count_up (negsuc a) (pos b) e = ground (arith, e)
count_up (negsuc a) (negsuc b) e = ground (arith, e)

count_down :
    (start end : ℤ) → is_up start end ≡ false → start -ℤ pos (range_count start end - 1) ≡ end
unfolding range_count ◌+ℤ◌ ◌-ℤ◌
count_down (pos a) (pos b) e = ground (arith, e)
count_down (pos a) (negsuc b) e = ground (arith, e)
count_down (negsuc a) (pos b) e = ground (arith, e)
count_down (negsuc a) (negsuc b) e = ground (arith, e)

pub range_count-positive : (start end : ℤ) → 0 < range_count start end
unfolding range_count ◌+ℤ◌ ◌-ℤ◌
range_count-positive (pos a) (pos b) = ground arith
range_count-positive (pos a) (negsuc b) = ground arith
range_count-positive (negsuc a) (pos b) = ground arith
range_count-positive (negsuc a) (negsuc b) = ground arith

between_up :
    (start end : ℤ) (i : ℕ)
    → IsInt32 start
    → IsInt32 end
    → is_up start end ≡ true
    → i < range_count start end
    → IsInt32 (start +ℤ pos i)
unfolding range_count ◌+ℤ◌ ◌-ℤ◌
between_up (pos a) (pos b) i hs he e h = ground (arith, e, h)
between_up (pos a) (negsuc b) i hs he e h = ground (arith, e, h)
between_up (negsuc a) (pos b) i hs he e h = ground (arith, e, h)
between_up (negsuc a) (negsuc b) i hs he e h = ground (arith, e, h)

between_down :
    (start end : ℤ) (i : ℕ)
    → IsInt32 start
    → IsInt32 end
    → is_up start end ≡ false
    → i < range_count start end
    → IsInt32 (start -ℤ pos i)
unfolding range_count ◌+ℤ◌ ◌-ℤ◌
between_down (pos a) (pos b) i hs he e h = ground (arith, e, h)
between_down (pos a) (negsuc b) i hs he e h = ground (arith, e, h)
between_down (negsuc a) (pos b) i hs he e h = ground (arith, e, h)
between_down (negsuc a) (negsuc b) i hs he e h = ground (arith, e, h)

range_value-IsInt32 :
    (start end : ℤ) (i : ℕ)
    → IsInt32 start
    → IsInt32 end
    → i < range_count start end
    → IsInt32 (range_value start end i)
range_value-IsInt32 start end i hs he h = elim (Bool-cases (is_up start end)) [
  | inl e ↦ subst IsInt32 (sym (value_up start end i e)) (between_up start end i hs he e h)
  | inr e ↦ subst IsInt32 (sym (value_down start end i e)) (between_down start end i hs he e h)
]

range_value-last : (start end : ℤ) → range_value start end (range_count start end - 1) ≡ end
range_value-last start end =
    let n = range_count start end - 1 in
    elim (Bool-cases (is_up start end)) [
      | inl e ↦ value_up start end n e ∙ count_up start end e
      | inr e ↦ value_down start end n e ∙ count_down start end e
    ]

plus_nothing : (start end : ℤ) → range_value start end 0 ≡ start
plus_nothing start end = elim (Bool-cases (is_up start end)) [
  | inl e ↦ value_up start end 0 e ∙ plus_zero start
  | inr e ↦ value_down start end 0 e ∙ minus_zero start
]

-- For 32-bit bounds, each element is the start and a multiple of the step.
pub range-exact :
    (start end : ℤ) (i : ℕ)
    → IsInt32 start
    → IsInt32 end
    → i < range_count start end
    → cell_at (range start end) i ≡ integer_cell (start +ℤ pos i *ℤ range_step_of start end)
unfolding range_value range_element
range-exact start end i hs he h =
    range-cell start end i h
    ∙ ap integer_cell
        (of_bits32-to_bits64 (range_value start end i) (range_value-IsInt32 start end i hs he h))

-- For 32-bit bounds, a range has at least one element, its first element is the start and its last
-- is the end, ascending or descending.
pub range-ends :
    (start end : ℤ)
    → IsInt32 start
    → IsInt32 end
    → (0 < (range start end).len)
      × (cell_at (range start end) 0 ≡ integer_cell start)
      × (cell_at (range start end) ((range start end).len - 1) ≡ integer_cell end)
unfolding range new_vector with_cells range_value
range-ends start end hs he =
    let p = range_count-positive start end in
    (
      p,
      range-exact start end 0 hs he p ∙ ap integer_cell (plus_nothing start end),
      range-exact start end (range_count start end - 1) hs he (omega (arith, p))
          ∙ ap integer_cell (range_value-last start end),
    )
