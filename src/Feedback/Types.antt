-- ===== src/Feedback/Types.antt =====
-- The type counters (include/rjit/feedback/feedback.hpp): the dominant index has the largest count,
-- and the counts add up to the total.
use native.Mathlib.Decide.{dec_lt}
use r_sjit.Common.{
  ℕ, zero, suc, ◌+◌, ◌-◌, ◌%◌, ◌≡◌, ◌<◌, ◌≤◌, refl, ap, ◌∙◌, List, [], ◌∷◌, arith, get_or, set,
  length, length-set, ltb, u64_size, if◌then◌else◌,
}
use r_sjit.Value.Tag.{TypeTag, tag_code}
use r_sjit.Feedback.{TypeFeedback, no_types, record_type, scan_counts, dominant, tick}

abbrev sum : List ℕ → ℕ
sum [] = 0
sum (c ∷ cs) = c + sum cs

le_split : (i j : ℕ) → i ≤ j → j ≡ i + (j - i)
le_split i j h = omega arith

-- The loop from index `i` on, when `best` has the count `best_count` or more and no count below `i` is larger.
scan_counts-max :
    (cs : List ℕ) (all : List ℕ) (i best best_count : ℕ)
    → ((j : ℕ) → get_or all (i + j) 0 ≡ get_or cs j 0)
    → ((j : ℕ) → j < i → get_or all j 0 ≤ best_count)
    → best_count ≤ get_or all best 0
    → (j : ℕ) → get_or all j 0 ≤ get_or all (scan_counts cs i best best_count) 0
unfolding scan_counts
scan_counts-max [] all i best best_count tail below here j = elim (dec_lt j i) [
  | yes h ↦ omega (arith, below j h)
  | no h ↦ omega (arith, ap (λ (n : ℕ). get_or all n 0) (le_split i j (omega arith)), tail (j - i))
]
scan_counts-max (c ∷ cs) all i best best_count tail below here j =
    scan_counts-max cs all (suc i) (if ltb best_count c then i else best)
      (if ltb best_count c then c else best_count)
      (λ l. ap (λ (n : ℕ). get_or all n 0) (omega arith) ∙ tail (suc l))
      (λ l h. elim (dec_lt l i) [
        | yes old ↦ ground (arith, below l old)
        | no new ↦ ground (arith, ap (λ (n : ℕ). get_or all n 0) (same l new h), at_i)
      ])
      (ground (arith, at_i, here)) j
  where
    at_i : get_or all i 0 ≡ c
    at_i = ap (λ (n : ℕ). get_or all n 0) (omega arith) ∙ tail 0

    same : (j : ℕ) → ¬ (j < i) → j < suc i → j ≡ i
    same j a b = omega arith

-- No count is larger than the count of the dominant type.
pub dominant-max : (f : TypeFeedback) (j : ℕ) → get_or f.counts j 0 ≤ get_or f.counts (dominant f) 0
unfolding dominant
dominant-max f =
    scan_counts-max f.counts f.counts 0 0 0 (λ j. ap (λ (n : ℕ). get_or f.counts n 0) (omega arith))
      (λ j h. elim h [ ]) (omega arith)

-- The counts add up to the total, in the arithmetic of 64-bit words.
pub record Balanced (f : TypeFeedback) : Type 0 where
  pub sixteen : length f.counts ≡ 16
  pub balanced : sum f.counts % u64_size ≡ f.total % u64_size

sum-set : (cs : List ℕ) (i v : ℕ) → i < length cs → sum (set cs i v) + get_or cs i 0 ≡ sum cs + v
sum-set [] i v h = elim h [ ]
sum-set (c ∷ cs) zero v h = omega arith
sum-set (c ∷ cs) (suc i) v h = omega (arith, sum-set cs i v (omega arith))

pub record_type-Balanced :
    (t : TypeTag) (f : TypeFeedback) → Balanced f → Balanced (record_type t f)
unfolding record_type
record_type-Balanced t f b =
    let i : ℕ = tag_code t % 16 in
    let v : ℕ = tick (get_or f.counts i 0) in
    record {
      sixteen = length-set f.counts i v ∙ b.sixteen;
      balanced = omega (arith, sum-set f.counts i v (omega (arith, b.sixteen)), b.balanced);
    }

pub record_types : List TypeTag → TypeFeedback → TypeFeedback
record_types [] f = f
record_types (t ∷ ts) f = record_types ts (record_type t f)

keep : (us : List TypeTag) (f : TypeFeedback) → Balanced f → Balanced (record_types us f)
unfolding record_types
keep [] f b = b
keep (t ∷ us) f b = keep us (record_type t f) (record_type-Balanced t f b)

-- After any list of observed tags there are sixteen counts, and they add up to the total in 64-bit
-- words.
pub record_types-Balanced : (ts : List TypeTag) → Balanced (record_types ts no_types)
record_types-Balanced ts = keep ts no_types (record { sixteen = refl; balanced = refl })
