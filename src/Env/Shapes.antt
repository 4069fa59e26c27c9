-- ===== src/Env/Shapes.antt =====
-- `class Shape` (include/rjit/core/environment.hpp, src/core/environment.cpp): an immutable map from
-- symbols to slot numbers.
use r_sjit.Common.{
  ℕ, suc, ◌≡◌, ◌<◌, ◌%◌, List, [], none, some, Bool, true, false, arith, length, u32_max, u32_size,
  Option-cases, ◌⊎◌, inl, inr,
}
use r_sjit.Common.Maps.{
  lookup, insert, erase, nat_key, lookup-insert, length-insert_new, length-erase-insert,
}

pub record Shape : Type 0 where
  pub id : ℕ
  pub deopt : Bool
  pub slots : List (ℕ × ℕ)

-- `UINT32_MAX` stands for "not present".
unfoldable pub slot_of : Shape → ℕ → ℕ
slot_of s sym = elim (lookup sym s.slots) [ none ↦ u32_max | some slot ↦ slot ]

-- `s->slots_[sym_id] = s->slots_.size()`: the right side is computed before the entry is made.
unfoldable pub add_slot : ℕ → List (ℕ × ℕ) → List (ℕ × ℕ)
add_slot sym slots = insert sym (length slots % u32_size) slots

-- `Shape::add`
unfoldable pub add : Shape → ℕ → Shape
add s sym = elim (lookup sym s.slots) [
  | some _ ↦ s
  | none ↦ record { id = 0; deopt = s.deopt; slots = add_slot sym s.slots }
]

-- `Shape::remove`
unfoldable pub remove : Shape → ℕ → Shape
remove s sym = record { id = 0; deopt = true; slots = erase sym s.slots }

abbrev pub no_shape : Shape
no_shape = record { id = 0; deopt = false; slots = [] }

-- The slots in use are the numbers below the count of symbols, each used once.
pub record IsDense (slots : List (ℕ × ℕ)) : Type 0 where
  pub bounded : (k v : ℕ) → lookup k slots ≡ some v → v < length slots
  pub distinct : (j k v : ℕ) → lookup j slots ≡ some v → lookup k slots ≡ some v → j ≡ k
  pub counted : (k v : ℕ) → lookup k slots ≡ some v → suc (length (erase k slots)) ≡ length slots

pub nil-IsDense : IsDense []
unfolding lookup
nil-IsDense = record { bounded = λ k v h. cc; distinct = λ j k v h g. cc; counted = λ k v h. cc }

pub add_slot-IsDense :
    (sym : ℕ) (slots : List (ℕ × ℕ))
    → IsDense slots
    → length slots < u32_size
    → lookup sym slots ≡ none
    → IsDense (add_slot sym slots)
unfolding add_slot
add_slot-IsDense sym slots d room new = record {
  bounded = λ k v h. ground (
    arith,
    lookup-insert sym k (length slots % u32_size) slots,
    length-insert_new sym (length slots % u32_size) slots new,
    d.bounded k v,
  );
  distinct = λ j k v h g. ground (
    arith,
    lookup-insert sym k (length slots % u32_size) slots,
    lookup-insert sym j (length slots % u32_size) slots,
    d.bounded k v,
    d.bounded j v,
    d.distinct j k v,
  );
  counted = λ k v h. ground (
    arith,
    lookup-insert sym k (length slots % u32_size) slots,
    length-insert_new sym (length slots % u32_size) slots new,
    length-erase-insert sym k (length slots % u32_size) slots new,
    d.counted k v,
  );
}

-- `slot_of` tells a symbol that is present from one that is not, as long as no slot is UINT32_MAX.
pub slot_of-lookup :
    (s : Shape) (sym : ℕ)
    → ((v : ℕ) → lookup sym s.slots ≡ some v → v < u32_max)
    → ((slot_of s sym ≡ u32_max) × (lookup sym s.slots ≡ none))
      ⊎ ((slot_of s sym < u32_max) × (lookup sym s.slots ≡ some (slot_of s sym)))
unfolding slot_of
slot_of-lookup s sym h = elim (Option-cases (lookup sym s.slots)) [
  | inl e ↦ inl (ground arith, e)
  | inr (v, e) ↦ inr (ground (arith, h v e), ground arith)
]

pub add-absent :
    (s : Shape) (sym : ℕ) → lookup sym s.slots ≡ none → (add s sym).slots ≡ add_slot sym s.slots
unfolding add
add-absent s sym h = rw (h, add)

pub add-present :
    (s : Shape) (sym v : ℕ) → lookup sym s.slots ≡ some v → (add s sym).slots ≡ s.slots
unfolding add
add-present s sym v h = rw (h, add)

pub slot_of-some : (s : Shape) (sym v : ℕ) → lookup sym s.slots ≡ some v → slot_of s sym ≡ v
slot_of-some s sym v h = unfold slot_of in rw (h, slot_of)

pub slot_of-none : (s : Shape) (sym : ℕ) → lookup sym s.slots ≡ none → slot_of s sym ≡ u32_max
slot_of-none s sym h = unfold slot_of in rw (h, slot_of)
