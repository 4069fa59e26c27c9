-- ===== src/Vectors/Fill.antt =====
-- The loops of src/core/vector.cpp that write consecutive elements of a buffer.
use r_sjit.Common.{
  ℕ, zero, suc, ◌+◌, ◌<◌, ◌≡◌, refl, ap, ◌∙◌, sym, List, [], ◌∷◌, ◌++◌, map, length, set, get_or,
  arith, length-append, length-set,
}

module _ {ℓ} {A : Type ℓ} where
  -- `for (k = j; k < j + n; ++k) data[pos + k] = g(k);`
  unfoldable pub fill : (ℕ → A) → ℕ → ℕ → ℕ → List A → List A
  fill g zero j pos xs = xs
  fill g (suc n) j pos xs = fill g n (suc j) pos (set xs (pos + j) (g j))

  -- The values of `g` at `n` indices from `j` on.
  unfoldable pub values : (ℕ → A) → ℕ → ℕ → List A
  values g zero j = []
  values g (suc n) j = g j ∷ values g n (suc j)

  set-append :
      (xs ys : List A) (y v : A) (i : ℕ)
      → i ≡ length xs
      → set (xs ++ y ∷ ys) i v ≡ (xs ++ v ∷ []) ++ ys
  set-append [] ys y v zero e = refl
  set-append [] ys y v (suc i) e = absurd (omega arith)
  set-append (x ∷ xs) ys y v zero e = absurd (omega arith)
  set-append (x ∷ xs) ys y v (suc i) e = ap (λ zs. x ∷ zs) (set-append xs ys y v i (omega arith))

  pub append_assoc : (xs ys zs : List A) → (xs ++ ys) ++ zs ≡ xs ++ (ys ++ zs)
  append_assoc [] ys zs = refl
  append_assoc (x ∷ xs) ys zs = ap (λ us. x ∷ us) (append_assoc xs ys zs)

  pub append_nil : (xs : List A) → xs ++ [] ≡ xs
  append_nil [] = refl
  append_nil (x ∷ xs) = ap (λ us. x ∷ us) (append_nil xs)

  -- The loop replaces the elements between `xs` and `ys`.
  pub fill-region :
      (g : ℕ → A) (mid xs ys : List A) (j pos : ℕ)
      → pos + j ≡ length xs
      → fill g (length mid) j pos (xs ++ (mid ++ ys)) ≡ xs ++ (values g (length mid) j ++ ys)
  unfolding fill values
  fill-region g [] xs ys j pos e = refl
  fill-region g (m ∷ mid) xs ys j pos e =
      let v = g j in
      ap (fill g (length mid) (suc j) pos) (set-append xs (mid ++ ys) m v (pos + j) e)
      ∙ fill-region g mid (xs ++ v ∷ []) ys (suc j) pos (omega (arith, length-append xs (v ∷ [])))
      ∙ append_assoc xs (v ∷ []) (values g (length mid) (suc j) ++ ys)

  -- A loop over the whole buffer.
  pub fill-all : (g : ℕ → A) (xs : List A) → fill g (length xs) 0 0 xs ≡ values g (length xs) 0
  fill-all g xs =
      ap (fill g (length xs) 0 0) (sym (append_nil xs))
      ∙ fill-region g xs [] [] 0 0 refl
      ∙ append_nil (values g (length xs) 0)

  pub length-fill : (g : ℕ → A) (n j pos : ℕ) (xs : List A) → length (fill g n j pos xs) ≡ length xs
  unfolding fill
  length-fill g zero j pos xs = refl
  length-fill g (suc n) j pos xs =
      length-fill g n (suc j) pos (set xs (pos + j) (g j)) ∙ length-set xs (pos + j) (g j)

  pub length-values : (g : ℕ → A) (n j : ℕ) → length (values g n j) ≡ n
  unfolding values
  length-values g zero j = refl
  length-values g (suc n) j = ap suc (length-values g n (suc j))

  pub get_or-values :
      (g : ℕ → A) (n j k : ℕ) (d : A) → k < n → get_or (values g n j) k d ≡ g (j + k)
  unfolding values
  get_or-values g zero j k d h = absurd (omega arith)
  get_or-values g (suc n) j zero d h = ap g (omega arith)
  get_or-values g (suc n) j (suc k) d h =
      get_or-values g n (suc j) k d (omega arith) ∙ ap g (omega arith)

  values-shift : (g : ℕ → A) (n j : ℕ) → values g n (suc j) ≡ values (λ k. g (suc k)) n j
  unfolding values
  values-shift g zero j = refl
  values-shift g (suc n) j = ap (λ zs. g (suc j) ∷ zs) (values-shift g n (suc j))

module _ {ℓ κ} {A : Type ℓ} {B : Type κ} where
  -- A loop that reads the elements of `xs` in turn.
  pub values-map :
      (f : A → B) (d : A) (xs : List A) → values (λ k. f (get_or xs k d)) (length xs) 0 ≡ map f xs
  unfolding values
  values-map f d [] = refl
  values-map f d (x ∷ xs) =
      ap (λ zs. f x ∷ zs)
        (values-shift (λ k. f (get_or (x ∷ xs) k d)) (length xs) 0 ∙ values-map f d xs)
