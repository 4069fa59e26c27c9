-- ===== src/Common/Lists.antt =====
-- Lists measured and indexed by native numbers, under the library's names, for the program's
-- `std::vector`s.
use Prim.Native.Nat.{ℕ, zero, suc, ◌+◌, ◌<◌, max}
use mathlib.Core.Path.{◌≡◌, refl, ap}
use mathlib.Core.Logic.{◌≢◌, ◌⊎◌, inl, inr}
use mathlib.Core.List.{List, [], ◌∷◌, ◌++◌}
use mathlib.Core.Option.{Option, none, some}
use mathlib.Core.Bool.{Bool, false, ◌||◌}
use native.Mathlib.Omega.{arith}

-- Membership, with the place kept.
abbrev pub Elem : {A : Type 0} → A → List A → Type 0
Elem a [] = ⊥
Elem a (x ∷ xs) = (x ≡ a) ⊎ Elem a xs

module _ {ℓ} {A : Type ℓ} where
  abbrev pub length : List A → ℕ
  length [] = 0
  length (x ∷ xs) = suc (length xs)

  abbrev pub get_elem? : List A → ℕ → Option A
  get_elem? [] i = none
  get_elem? (x ∷ xs) zero = some x
  get_elem? (x ∷ xs) (suc i) = get_elem? xs i

  abbrev pub get_or : List A → ℕ → A → A
  get_or [] i d = d
  get_or (x ∷ xs) zero d = x
  get_or (x ∷ xs) (suc i) d = get_or xs i d

  -- A write out of bounds changes nothing.
  abbrev pub set : List A → ℕ → A → List A
  set [] i v = []
  set (x ∷ xs) zero v = v ∷ xs
  set (x ∷ xs) (suc i) v = x ∷ set xs i v

  abbrev pub replicate : ℕ → A → List A
  replicate zero a = []
  replicate (suc n) a = a ∷ replicate n a

  -- A predicate that holds of every element.
  abbrev pub All {κ} : (A → Type κ) → List A → Type κ
  All P [] = Unit
  All P (x ∷ xs) = P x × All P xs

  abbrev pub any : (A → Bool) → List A → Bool
  any p [] = false
  any p (x ∷ xs) = p x || any p xs

  -- `std::vector::resize(n, d)` for a vector that is not made shorter.
  abbrev pub grow : List A → ℕ → A → List A
  grow [] n d = replicate n d
  grow (x ∷ xs) zero d = x ∷ xs
  grow (x ∷ xs) (suc n) d = x ∷ grow xs n d

  pub length-append : (xs ys : List A) → length (xs ++ ys) ≡ length xs + length ys
  length-append [] ys = omega arith
  length-append (x ∷ xs) ys = omega (arith, length-append xs ys)

  pub length-set : (xs : List A) (i : ℕ) (v : A) → length (set xs i v) ≡ length xs
  length-set [] i v = refl
  length-set (x ∷ xs) zero v = refl
  length-set (x ∷ xs) (suc i) v = ap suc (length-set xs i v)

  pub length-replicate : (n : ℕ) (a : A) → length (replicate n a) ≡ n
  length-replicate zero a = refl
  length-replicate (suc n) a = ap suc (length-replicate n a)

  pub length-grow : (xs : List A) (n : ℕ) (d : A) → length (grow xs n d) ≡ max (length xs) n
  length-grow [] n d = omega (arith, length-replicate n d)
  length-grow (x ∷ xs) zero d = omega arith
  length-grow (x ∷ xs) (suc n) d = omega (arith, length-grow xs n d)

  pub get_or-set_self :
      (xs : List A) (i : ℕ) (v d : A) → i < length xs → get_or (set xs i v) i d ≡ v
  get_or-set_self [] i v d h = elim h [ ]
  get_or-set_self (x ∷ xs) zero v d h = refl
  get_or-set_self (x ∷ xs) (suc i) v d h = get_or-set_self xs i v d (omega arith)

  pub get_or-set_ne :
      (xs : List A) (i j : ℕ) (v d : A) → i ≢ j → get_or (set xs i v) j d ≡ get_or xs j d
  get_or-set_ne [] i j v d h = refl
  get_or-set_ne (x ∷ xs) zero zero v d h = absurd (h refl)
  get_or-set_ne (x ∷ xs) zero (suc j) v d h = refl
  get_or-set_ne (x ∷ xs) (suc i) zero v d h = refl
  get_or-set_ne (x ∷ xs) (suc i) (suc j) v d h = get_or-set_ne xs i j v d (λ e. h (ap suc e))

  pub get_or-replicate : (n i : ℕ) (d : A) → get_or (replicate n d) i d ≡ d
  get_or-replicate zero i d = refl
  get_or-replicate (suc n) zero d = refl
  get_or-replicate (suc n) (suc i) d = get_or-replicate n i d

  pub get_or-grow : (xs : List A) (n i : ℕ) (d : A) → get_or (grow xs n d) i d ≡ get_or xs i d
  get_or-grow [] n i d = get_or-replicate n i d
  get_or-grow (x ∷ xs) zero i d = refl
  get_or-grow (x ∷ xs) (suc n) zero d = refl
  get_or-grow (x ∷ xs) (suc n) (suc i) d = get_or-grow xs n i d

  pub get_elem?-append_last : (xs : List A) (a : A) → get_elem? (xs ++ a ∷ []) (length xs) ≡ some a
  get_elem?-append_last [] a = refl
  get_elem?-append_last (x ∷ xs) a = get_elem?-append_last xs a

  pub get_elem?-append_left :
      (xs ys : List A) (i : ℕ) (a : A) → get_elem? xs i ≡ some a → get_elem? (xs ++ ys) i ≡ some a
  get_elem?-append_left [] ys i a h = cc
  get_elem?-append_left (x ∷ xs) ys zero a h = h
  get_elem?-append_left (x ∷ xs) ys (suc i) a h = get_elem?-append_left xs ys i a h

  -- Reading a vector after one `push_back`.
  pub get_elem?-append_cases :
      (xs : List A) (a b : A) (i : ℕ)
      → get_elem? (xs ++ a ∷ []) i ≡ some b
      → (get_elem? xs i ≡ some b) ⊎ ((i ≡ length xs) × (a ≡ b))
  get_elem?-append_cases [] a b zero h = inr (refl, ground (arith))
  get_elem?-append_cases [] a b (suc i) h = cc
  get_elem?-append_cases (x ∷ xs) a b zero h = inl h
  get_elem?-append_cases (x ∷ xs) a b (suc i) h = elim (get_elem?-append_cases xs a b i h) [
    | inl old ↦ inl old
    | inr new ↦ inr (ap suc new.0, new.1)
  ]

  pub get_or-of_get_elem? :
      (xs : List A) (i : ℕ) (a d : A) → get_elem? xs i ≡ some a → get_or xs i d ≡ a
  get_or-of_get_elem? [] i a d h = cc
  get_or-of_get_elem? (x ∷ xs) zero a d h = cc
  get_or-of_get_elem? (x ∷ xs) (suc i) a d h = get_or-of_get_elem? xs i a d h

  pub get_elem?-lt_length : (xs : List A) (i : ℕ) (a : A) → get_elem? xs i ≡ some a → i < length xs
  get_elem?-lt_length [] i a h = cc
  get_elem?-lt_length (x ∷ xs) zero a h = omega arith
  get_elem?-lt_length (x ∷ xs) (suc i) a h = omega (arith, get_elem?-lt_length xs i a h)

  pub get_elem?-of_lt : (xs : List A) (i : ℕ) → i < length xs → (a : A) × (get_elem? xs i ≡ some a)
  get_elem?-of_lt [] i h = elim h [ ]
  get_elem?-of_lt (x ∷ xs) zero h = (x, refl)
  get_elem?-of_lt (x ∷ xs) (suc i) h = get_elem?-of_lt xs i (omega arith)

  pub All-append {κ} : (Q : A → Type κ) (us vs : List A) → All Q us → All Q vs → All Q (us ++ vs)
  All-append Q [] vs left right = right
  All-append Q (u ∷ us) vs left right = (left.0, All-append Q us vs left.1 right)
