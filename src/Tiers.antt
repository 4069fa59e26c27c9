-- ===== src/Tiers.antt =====
-- src/jit/tier_manager.cpp, include/rjit/jit/tier_manager.hpp: which tier a function should run in.
-- A `BytecodeFunction*` and a `JitCode*` are numbers.
mod Tests
use r_sjit.Common.{ℕ, ◌≤◌, ◌≡◌, List, Option, none, some, arith, ltb, ◌==◌, if◌then◌else◌}
use r_sjit.Common.Maps.{lookup, insert, nat_key, lookup-insert}
use r_sjit.Feedback.{fetch}

-- `enum class Tier`
pub data Tier : Type 0 where
  interpreter baseline specialized optimizing tracing pgo : Tier

unfoldable pub tier_code : Tier → ℕ
tier_code interpreter = 0
tier_code baseline = 1
tier_code specialized = 2
tier_code optimizing = 3
tier_code tracing = 4
tier_code pgo = 5

-- `class TierManager`: the thresholds, the tables, and the call counts of the feedback engine.
pub record TierManager : Type 0 where
  pub baseline_threshold : ℕ
  pub specialized_threshold : ℕ
  pub optimizing_threshold : ℕ
  pub osr_threshold : ℕ
  pub tiers : List (ℕ × Tier)
  pub codes : List (ℕ × ℕ)
  pub call_counts : List (ℕ × ℕ)

-- kBaselineThreshold, kSpecializedThreshold, kOptimizingThreshold, kOSRThreshold.
unfoldable pub init : TierManager
init = record {
  baseline_threshold = 100;
  specialized_threshold = 1000;
  optimizing_threshold = 10000;
  osr_threshold = 5000;
  tiers = List.[];
  codes = List.[];
  call_counts = List.[];
}

-- The tier for a count of calls.
unfoldable pub tier_for : TierManager → ℕ → Tier
tier_for t n =
    if ltb n t.baseline_threshold
    then interpreter
    else if ltb n t.specialized_threshold
    then baseline
    else if ltb n t.optimizing_threshold
    then specialized
    else optimizing

-- `desired_tier`: reading the count makes an entry for a function that has none.
unfoldable pub desired_tier : ℕ → TierManager → Tier × TierManager
desired_tier fn t =
    let n = fetch fn 0 t.call_counts in (tier_for t n.0, record t { call_counts = n.1 })

unfoldable pub set_current_tier : ℕ → Tier → TierManager → TierManager
set_current_tier fn tier t = record t { tiers = insert fn tier t.tiers }

unfoldable pub current_tier : ℕ → TierManager → Tier
current_tier fn t = elim (lookup fn t.tiers) [ some tier ↦ tier | none ↦ interpreter ]

unfoldable pub jit_code : ℕ → TierManager → Option ℕ
jit_code fn t = lookup fn t.codes

unfoldable pub set_jit_code : ℕ → ℕ → TierManager → TierManager
set_jit_code fn code t = record t { codes = insert fn code t.codes }

-- For thresholds in ascending order, the tier for a larger call count is not lower.
pub tier_for-monotone :
    (t : TierManager) (n m : ℕ)
    → n ≤ m
    → t.baseline_threshold ≤ t.specialized_threshold
    → t.specialized_threshold ≤ t.optimizing_threshold
    → tier_code (tier_for t n) ≤ tier_code (tier_for t m)
unfolding tier_for tier_code
tier_for-monotone t n m h a b = ground arith
