-- ===== src/Attributes/Laws.antt =====
-- The arrays of `Attributes` (src/core/attributes.cpp) are a map from symbols to values.
use r_sjit.Common.{
  ℕ, zero, suc, ◌<◌, ◌≤◌, ◌≡◌, ◌≢◌, refl, ap, sym, ◌∙◌, ==_iff, List, [], ◌∷◌, none, some, length,
  get_or, arith, Option-cases, ◌⊎◌, inl, inr,
}
use r_sjit.Value.{nil}
use r_sjit.Attributes.{Attributes, no_attributes, index_of, next_index, get, get_found}

-- The arrays are equally long, the count is within them, and no symbol stands twice.
pub record IsValid (a : Attributes) : Type 0 where
  pub parallel : length a.values ≡ length a.names
  pub within : a.count ≤ length a.names
  pub unique :
      (i j : ℕ) → i < a.count → j < a.count → get_or a.names i 0 ≡ get_or a.names j 0 → i ≡ j

pub no_attributes-IsValid : IsValid no_attributes
no_attributes-IsValid = record {
  parallel = refl;
  within = omega arith;
  unique = λ i j hi hj e. elim hi [ ];
}

index_of-some :
    (n : ℕ) (xs : List ℕ) (s i : ℕ)
    → index_of n xs s ≡ some i
    → (i < n) × (i < length xs) × (get_or xs i 0 ≡ s)
unfolding index_of next_index
index_of-some zero xs s i h = ground arith
index_of-some (suc n) [] s i h = ground arith
index_of-some (suc n) (x ∷ xs) s zero h = ground (arith, ==_iff x s, Option-cases (index_of n xs s))
index_of-some (suc n) (x ∷ xs) s (suc i) h =
    ground (arith, Option-cases (index_of n xs s), index_of-some n xs s i, ==_iff x s)

index_of-none :
    (n : ℕ) (xs : List ℕ) (s i : ℕ)
    → index_of n xs s ≡ none
    → i < n
    → i < length xs
    → get_or xs i 0 ≢ s
unfolding index_of next_index
index_of-none zero xs s i h l k = elim l [ ]
index_of-none (suc n) [] s i h l k = elim k [ ]
index_of-none (suc n) (x ∷ xs) s zero h l k = ground (arith, ==_iff x s)
index_of-none (suc n) (x ∷ xs) s (suc i) h l k =
    ground (arith, index_of-none n xs s i, Option-cases (index_of n xs s))

-- `get` at the symbol of an entry.
pub get_at :
    (a : Attributes) (i : ℕ)
    → IsValid a
    → i < a.count
    → get (get_or a.names i 0) a ≡ get_or a.values i nil
unfolding get get_found
get_at a i v l =
    let s = get_or a.names i 0 in
    elim (Option-cases (index_of a.count a.names s)) [
      | inl e ↦ absurd (index_of-none a.count a.names s i e l (omega (arith, l, v.within)) refl)
      | inr (j, e) ↦
          let f = index_of-some a.count a.names s j e in
          ap (get_found a) e ∙ ap (λ (k : ℕ). get_or a.values k nil) (v.unique j i f.0 l f.2)
    ]

-- `get` at a symbol without an entry.
pub get_absent :
    (a : Attributes) (s : ℕ)
    → IsValid a
    → ((i : ℕ) → i < a.count → get_or a.names i 0 ≢ s)
    → get s a ≡ nil
unfolding get get_found
get_absent a s v h = elim (Option-cases (index_of a.count a.names s)) [
  | inl e ↦ ap (get_found a) e
  | inr (j, e) ↦ let f = index_of-some a.count a.names s j e in absurd (h j f.0 f.2)
]

-- A symbol has an entry or none.
pub entry_cases :
    (a : Attributes) (s : ℕ)
    → IsValid a
    → ((i : ℕ) × (index_of a.count a.names s ≡ some i) × (i < a.count) × (get_or a.names i 0 ≡ s))
      ⊎ ((index_of a.count a.names s ≡ none) × ((i : ℕ) → i < a.count → get_or a.names i 0 ≢ s))
entry_cases a s v = elim (Option-cases (index_of a.count a.names s)) [
  | inl e ↦ inr (e, λ i l. index_of-none a.count a.names s i e l (omega (arith, l, v.within)))
  | inr (j, e) ↦ let f = index_of-some a.count a.names s j e in inl (j, e, f.0, f.2)
]

-- Two valid tables whose entries agree at a symbol give the same answer.
pub get-agree :
    (a b : Attributes) (s : ℕ)
    → IsValid a
    → IsValid b
    → ((i : ℕ)
        → i < a.count
        → get_or a.names i 0 ≡ s
        → (j : ℕ) × (j < b.count)
          × (get_or b.names j 0 ≡ s)
          × (get_or b.values j nil ≡ get_or a.values i nil))
    → ((j : ℕ)
        → j < b.count
        → get_or b.names j 0 ≡ s
        → (i : ℕ) × (i < a.count) × (get_or a.names i 0 ≡ s))
    → get s b ≡ get s a
get-agree a b s va vb to from = elim (entry_cases a s va) [
  | inl (i, e, l, n) ↦
      let (j, m, o, same) = to i l n in
      ap (λ (x : ℕ). get x b) (sym o)
      ∙ get_at b j vb m
      ∙ same
      ∙ sym (get_at a i va l)
      ∙ ap (λ (x : ℕ). get x a) n
  | inr (e, lacks) ↦
      get_absent b s vb (λ j l n. let (i, m, o) = from j l n in lacks i m o)
      ∙ sym (get_absent a s va lacks)
]
