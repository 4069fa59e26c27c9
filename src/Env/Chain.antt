-- ===== src/Env/Chain.antt =====
-- The walk of `Environment::lookup` along the parents (src/core/environment.cpp) finds the innermost
-- binding, and ends.
use r_sjit.Common.{
  ℕ, zero, suc, ◌≡◌, ◌≢◌, ◌<◌, ◌⊎◌, inl, inr, some, arith, get_or, ==_ne, u32_max, ◌∙◌,
  Option-cases,
}
use r_sjit.Value.{Value}
use r_sjit.Env.{
  World, Binding, BindingState, unbound, env_at, own_slot, Found, found, out_of_fuel, lookup_from,
  probe, forced,
}

-- Every environment is made after its parent.
abbrev pub IsOrdered : World → Type 0
IsOrdered w = (e p : ℕ) → (env_at w e).parent ≡ some p → p < e

abbrev pub own_binding : World → ℕ → ℕ → Binding
own_binding w e k = get_or (env_at w e).bindings (own_slot w e k) unbound

-- The environment has no binding of the symbol, or an empty one.
abbrev pub Passes : World → ℕ → ℕ → Type 0
Passes w e k = (own_slot w e k ≡ u32_max) ⊎ ((own_binding w e k).state ≡ BindingState.empty)

-- The innermost binding of the symbol `k`, seen from `e`, is a value in the environment `d`.
pub data Resolves (w : World) (k d : ℕ) : ℕ → Type 0 where
  here :
      own_slot w d k ≢ u32_max → (own_binding w d k).state ≡ BindingState.value → Resolves w k d d
  outer :
      {e : ℕ} (p : ℕ)
      → Passes w e k
      → (env_at w e).parent ≡ some p
      → Resolves w k d p
      → Resolves w k d e

module _ (force : Value → World → Value × World) (w : World) where
  probe-value :
      (e k : ℕ) (o : Found × World)
      → own_slot w e k ≢ u32_max
      → (own_binding w e k).state ≡ BindingState.value
      → probe force w e k o ≡ (found (own_binding w e k).content e (own_slot w e k), w)
  unfolding probe
  probe-value e k o h s = rw (==_ne (own_slot w e k) u32_max h) (ground arith)

  probe-Passes : (e k : ℕ) (o : Found × World) → Passes w e k → probe force w e k o ≡ o
  unfolding probe
  probe-Passes e k o h = ground arith

  -- With parents of smaller index and fuel above the index of the start, a lookup of a symbol
  -- whose innermost binding is a value returns that value with its environment and slot, and
  -- changes nothing.
  pub lookup_from-Resolves :
      (fuel k d : ℕ) {e : ℕ}
      → IsOrdered w
      → Resolves w k d e
      → e < fuel
      → lookup_from force fuel w e k ≡ (found (own_binding w d k).content d (own_slot w d k), w)
  unfolding lookup_from
  lookup_from-Resolves zero k d ord r h = elim h [ ]
  lookup_from-Resolves (suc fuel) k d ord (here a b) h = probe-value d k _ a b
  lookup_from-Resolves (suc fuel) k d {e} ord (outer p a b r) h =
      probe-Passes e k _ a ∙ rw b (lookup_from-Resolves fuel k d ord r (omega (arith, ord e p b)))

  ends_probe :
      (e k : ℕ) (o : Found × World) → o.0 ≢ out_of_fuel → (probe force w e k o).0 ≢ out_of_fuel
  unfolding probe forced
  ends_probe e k o h = ground arith

  -- With parents of smaller index, a lookup with fuel above the index of its start ends.
  pub lookup_from-ne-out_of_fuel :
      (fuel e k : ℕ) → IsOrdered w → e < fuel → (lookup_from force fuel w e k).0 ≢ out_of_fuel
  unfolding lookup_from
  lookup_from-ne-out_of_fuel zero e k ord h = elim h [ ]
  lookup_from-ne-out_of_fuel (suc fuel) e k ord h =
      ends_probe e k _ (elim (Option-cases (env_at w e).parent) [
        | inl none_here ↦ rw none_here (λ q. cc)
        | inr (p, b) ↦ rw b (lookup_from-ne-out_of_fuel fuel p k ord (omega (arith, ord e p b)))
      ])
