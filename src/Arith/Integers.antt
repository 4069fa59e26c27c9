-- ===== src/Arith/Integers.antt =====
-- Sums, differences and products of two integers (src/vm/interpreter.cpp).
use r_sjit.Common.{ℕ, ◌≡◌, ◌∙◌, refl, ap, sym, some, arith, ◌<◌, ◌-◌, suc, subst, false}
use r_sjit.Common.Int.{ℤ, pos, negsuc, ◌+ℤ◌, ◌-ℤ◌, ◌*ℤ◌, IsInt32, of_bits32, to_bits64}
use r_sjit.Value.{Value, Float, real, integer, as_integer, is_tag, na_int, is_na}
use r_sjit.Value.Tag.{tag_code}
use r_sjit.Value.Laws.{unbox_box}
use r_sjit.Arith.{add_values, sub_values, mul_values, int_result}

unbox : (z : ℤ) → IsInt32 z → as_integer (integer z) ≡ z
unbox z h = (unbox_box z 0 0 h (omega arith)).0

on_integers :
    (f : Float) (a b : ℤ)
    → (add_values f (integer a) (integer b)
        ≡ some (int_result f (as_integer (integer a) +ℤ as_integer (integer b))))
      × (sub_values f (integer a) (integer b)
          ≡ int_result f (as_integer (integer a) -ℤ as_integer (integer b)))
      × (mul_values f (integer a) (integer b)
          ≡ int_result f (as_integer (integer a) *ℤ as_integer (integer b)))
unfolding add_values sub_values mul_values is_tag tag_code integer
on_integers f a b = (refl, refl, refl)

on_integers-exact :
    (f : Float) (a b : ℤ)
    → IsInt32 a
    → IsInt32 b
    → (add_values f (integer a) (integer b) ≡ some (int_result f (a +ℤ b)))
      × (sub_values f (integer a) (integer b) ≡ int_result f (a -ℤ b))
      × (mul_values f (integer a) (integer b) ≡ int_result f (a *ℤ b))
on_integers-exact f a b ha hb =
    let r = on_integers f a b in
    let ua = unbox a ha in
    let ub = unbox b hb in
    (
      r.0
          ∙ ap (λ (z : ℤ). some (int_result f (z +ℤ as_integer (integer b)))) ua
          ∙ ap (λ (z : ℤ). some (int_result f (a +ℤ z))) ub,
      r.1
          ∙ ap (λ (z : ℤ). int_result f (z -ℤ as_integer (integer b))) ua
          ∙ ap (λ (z : ℤ). int_result f (a -ℤ z)) ub,
      r.2
          ∙ ap (λ (z : ℤ). int_result f (z *ℤ as_integer (integer b))) ua
          ∙ ap (λ (z : ℤ). int_result f (a *ℤ z)) ub,
    )

int_result-fits : (f : Float) (r : ℤ) → IsInt32 r → int_result f r ≡ integer r
unfolding int_result
int_result-fits f r h = ground arith

int_result-promoted : (f : Float) (r : ℤ) → (IsInt32 r → ⊥) → int_result f r ≡ real (f.of_int r)
unfolding int_result
int_result-promoted f r h = ground arith

-- The result of an operation on two integers.
pub record IsExact (f : Float) (r : ℤ) (v : Value) : Type 0 where
  pub fits : IsInt32 r → (v ≡ integer r) × (as_integer v ≡ r)
  pub promoted : (IsInt32 r → ⊥) → v ≡ real (f.of_int r)

int_result-IsExact : (f : Float) (r : ℤ) → IsExact f r (int_result f r)
int_result-IsExact f r = record {
  fits = λ h. (int_result-fits f r h, ap as_integer (int_result-fits f r h) ∙ unbox r h);
  promoted = int_result-promoted f r;
}

-- The sum, the difference and the product of two 32-bit integers are that integer, which reads
-- back, when it fits 32 bits, and otherwise the double of it.
pub integers-IsExact :
    (f : Float) (a b : ℤ)
    → IsInt32 a
    → IsInt32 b
    → ((v : Value) × (add_values f (integer a) (integer b) ≡ some v) × IsExact f (a +ℤ b) v)
      × IsExact f (a -ℤ b) (sub_values f (integer a) (integer b))
      × IsExact f (a *ℤ b) (mul_values f (integer a) (integer b))
integers-IsExact f a b ha hb =
    let r = on_integers-exact f a b ha hb in
    (
      (int_result f (a +ℤ b), r.0, int_result-IsExact f (a +ℤ b)),
      subst (IsExact f (a -ℤ b)) (sym r.1) (int_result-IsExact f (a -ℤ b)),
      subst (IsExact f (a *ℤ b)) (sym r.2) (int_result-IsExact f (a *ℤ b)),
    )

na_plus : (n : ℕ) → n < 2147483647 → na_int +ℤ pos (suc n) ≡ negsuc (2147483646 - n)
unfolding ◌+ℤ◌
na_plus n h = ground arith

is_na-negsuc : (f : Float) (n : ℕ) → n < 2147483647 → is_na f (integer (negsuc n)) ≡ false
unfolding is_na as_integer integer of_bits32 to_bits64
is_na-negsuc f n h = ground arith

-- The sum of the NA integer and a positive 32-bit integer is an integer that is not NA.
pub add_values-na :
    (f : Float) (n : ℕ)
    → n < 2147483647
    → (add_values f (integer na_int) (integer (pos (suc n)))
        ≡ some (integer (negsuc (2147483646 - n))))
      × (is_na f (integer (negsuc (2147483646 - n))) ≡ false)
add_values-na f n h = (
  (on_integers-exact f na_int (pos (suc n)) (omega arith) (omega (arith, h))).0
      ∙ ap (λ (z : ℤ). some (int_result f z)) (na_plus n h)
      ∙ ap (λ (v : Value). some v) (int_result-fits f (negsuc (2147483646 - n)) (omega (arith, h))),
  is_na-negsuc f (2147483646 - n) (omega (arith, h)),
)
