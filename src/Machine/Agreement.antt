-- ===== src/Machine/Agreement.antt =====
-- src/vm/interpreter.cpp, src/vm/quickening.cpp: specialised opcodes against generic ones, and
-- comparisons with NA.
use r_sjit.Common.{
  ℕ, ◌≡◌, refl, ap, subst, ◌∙◌, sym, Bool, true, false, ◌⊎◌, inl, inr, some, if◌then◌else◌, arith,
}
use r_sjit.Common.Int.{ℤ, pos, negsuc, ◌+ℤ◌, ◌-ℤ◌, ◌*ℤ◌, IsInt32, of_bits32-to_bits64}
use r_sjit.Value.{Value, Float, real, integer, as_real, as_integer, is_tag}
use r_sjit.Value.Tag.{TypeTag, tag_code}
use r_sjit.Bytecode.{Op}
use r_sjit.Quickening.{specialised, nibble}
use r_sjit.Arith.{both, int_result, add_values, sub_values, mul_values}
use r_sjit.Machine.{value_of, compare_op, add_op, arith_op, int_value}
use r_sjit.Machine.Scalars.{cmp_scalar, to_real, truth, fast_force}

pub some_inj {ℓ} : {A : Type ℓ} (a b : A) → some a ≡ some b → a ≡ b
some_inj a b e = cc

-- The exact result of an integer opcode that is specialised.
unfoldable pub exact : Op → ℤ → ℤ → ℤ
unfolding ◌+ℤ◌ ◌-ℤ◌ ◌*ℤ◌
exact Op.add x y = x +ℤ y
exact Op.sub x y = x -ℤ y
exact Op.mul x y = x *ℤ y
exact _ x y = pos 0

int_result_exact : (f : Float) (z : ℤ) → IsInt32 z → int_result f z ≡ integer z
unfolding int_result
int_result_exact f (pos n) h = ground arith
int_result_exact f (negsuc n) h = ground arith

module _ (f : Float) (truncate : ℕ → ℤ) (force : Value → Value) where
  -- For every opcode that quickening specialises for two doubles, the generic and the specialised
  -- opcode write the same value when both operands are doubles.
  pub value_of-specialised_reals :
      (op q : Op) (x y : ℕ) (c : Value)
      → specialised op (nibble TypeTag.real) (nibble TypeTag.real) ≡ some q
      → value_of f truncate force op (real x) (real y) c
        ≡ value_of f truncate force q (real x) (real y) c
  unfolding specialised tag_code value_of add_op arith_op compare_op real is_tag as_real
  value_of-specialised_reals Op.add q x y c e =
      ap (λ p. value_of f truncate force p (real x) (real y) c) (some_inj _ _ e)
  value_of-specialised_reals Op.sub q x y c e =
      ap (λ p. value_of f truncate force p (real x) (real y) c) (some_inj _ _ e)
  value_of-specialised_reals Op.mul q x y c e =
      ap (λ p. value_of f truncate force p (real x) (real y) c) (some_inj _ _ e)
  value_of-specialised_reals Op.div q x y c e =
      ap (λ p. value_of f truncate force p (real x) (real y) c) (some_inj _ _ e)
  value_of-specialised_reals Op.lt q x y c e =
      ap (λ p. value_of f truncate force p (real x) (real y) c) (some_inj _ _ e)
  value_of-specialised_reals Op.le q x y c e =
      ap (λ p. value_of f truncate force p (real x) (real y) c) (some_inj _ _ e)
  value_of-specialised_reals Op.gt q x y c e =
      ap (λ p. value_of f truncate force p (real x) (real y) c) (some_inj _ _ e)
  value_of-specialised_reals Op.ge q x y c e =
      ap (λ p. value_of f truncate force p (real x) (real y) c) (some_inj _ _ e)
  value_of-specialised_reals Op.eq q x y c e =
      ap (λ p. value_of f truncate force p (real x) (real y) c) (some_inj _ _ e)
  value_of-specialised_reals Op.ne q x y c e =
      ap (λ p. value_of f truncate force p (real x) (real y) c) (some_inj _ _ e)
  value_of-specialised_reals _ q x y c e = absurd cc

  int_value-exact : (z : ℤ) → IsInt32 z → int_value z ≡ integer z
  unfolding int_value
  int_value-exact z h = ap integer (of_bits32-to_bits64 z h)

  read : (x : ℤ) → IsInt32 x → as_integer (integer x) ≡ x
  unfolding as_integer integer
  read x h = of_bits32-to_bits64 x h

  both_ways :
      (op : ℤ → ℤ → ℤ) (x y : ℤ)
      → IsInt32 x
      → IsInt32 y
      → IsInt32 (op x y)
      → int_result f (op (as_integer (integer x)) (as_integer (integer y)))
        ≡ int_value (op (as_integer (integer x)) (as_integer (integer y)))
  both_ways op x y hx hy h =
      rw (read x hx, read y hy) (int_result_exact f (op x y) h ∙ sym (int_value-exact (op x y) h))

  -- For every opcode that quickening specialises for two integers, the generic and the specialised
  -- opcode write the same value when both operands are 32-bit integers and so is the exact result.
  pub value_of-specialised_integers :
      (op q : Op) (x y : ℤ) (c : Value)
      → IsInt32 x
      → IsInt32 y
      → IsInt32 (exact op x y)
      → specialised op (nibble TypeTag.integer) (nibble TypeTag.integer) ≡ some q
      → value_of f truncate force op (integer x) (integer y) c
        ≡ value_of f truncate force q (integer x) (integer y) c
  unfolding exact specialised tag_code value_of add_op arith_op is_tag fast_force integer add_values
      sub_values mul_values
  value_of-specialised_integers Op.add q x y c hx hy h e =
      ap some (both_ways (λ a b. a +ℤ b) x y hx hy h)
      ∙ ap (λ p. value_of f truncate force p (integer x) (integer y) c) (some_inj _ _ e)
  value_of-specialised_integers Op.sub q x y c hx hy h e =
      ap some (both_ways (λ a b. a -ℤ b) x y hx hy h)
      ∙ ap (λ p. value_of f truncate force p (integer x) (integer y) c) (some_inj _ _ e)
  value_of-specialised_integers Op.mul q x y c hx hy h e =
      ap some (both_ways (λ a b. a *ℤ b) x y hx hy h)
      ∙ ap (λ p. value_of f truncate force p (integer x) (integer y) c) (some_inj _ _ e)
  value_of-specialised_integers _ q x y c hx hy h e = absurd cc

  eq-na_real : (x : ℕ) → f.eq x f.na_real ≡ false
  eq-na_real x = f.eq-nan x f.na_real f.na_real-nan

  cmp_scalar-test :
      (cmp : ℕ → ℕ → Bool) (a b : Value)
      → cmp_scalar f cmp a b ≡ truth (cmp (to_real f a) (to_real f b))
  unfolding cmp_scalar
  cmp_scalar-test cmp a b = rw (eq-na_real (to_real f a), eq-na_real (to_real f b)) refl

  truth-cases : (t : Bool) → (truth t ≡ truth true) ⊎ (truth t ≡ truth false)
  truth-cases true = inl refl
  truth-cases false = inr refl

  compared :
      (t : Bool) (x y : Value)
      → (t ≡ true → (x ≡ truth true) ⊎ (x ≡ truth false))
      → ((y ≡ truth true) ⊎ (y ≡ truth false))
      → ((if t then x else y) ≡ truth true) ⊎ ((if t then x else y) ≡ truth false)
  compared true x y h k = h refl
  compared false x y h k = k

  -- Every comparison of two values, NA or not, writes TRUE or FALSE and never NA.
  pub compare_op-never_na :
      (cmp : ℕ → ℕ → Bool) (a b : Value)
      → (compare_op f truncate force cmp a b ≡ truth true)
        ⊎ (compare_op f truncate force cmp a b ≡ truth false)
  unfolding compare_op
  compare_op-never_na cmp a b =
      compared (both a b TypeTag.real) _ _ (λ e. truth-cases (cmp (as_real a) (as_real b)))
        (subst (λ v. (v ≡ truth true) ⊎ (v ≡ truth false))
          (sym (cmp_scalar-test cmp (fast_force force a) (fast_force force b))) (truth-cases _))
