-- ===== src/Env/Cache.antt =====
-- The inline cache of LOAD_VAR (src/vm/interpreter.cpp), over the environments of
-- src/core/environment.cpp.
use r_sjit.Common.{
  ℕ, ◌≡◌, ◌<◌, refl, sym, ◌∙◌, Option, none, some, arith, get_or, ◌==◌, if◌then◌else◌,
}
use r_sjit.Value.{Value, missing}
use r_sjit.Env.Table.{shape_at}
use r_sjit.Env.Chain.{IsOrdered, Resolves, lookup_from-Resolves}
use r_sjit.Env.{
  World, unbound, env_at, own_slot, Found, found, missing_argument, not_found, out_of_fuel,
  lookup_from,
}

-- The entries of `ic_envs`, `ic_shapes` and `ic_slots` for one instruction.
pub record Entry : Type 0 where
  pub env : Option ℕ
  pub shape : ℕ
  pub slot : ℕ

abbrev pub no_entry : Entry
no_entry = record { env = none; shape = 0; slot = 0 }

-- `Environment::shape_id`
abbrev pub shape_id : World → ℕ → ℕ
shape_id w e = (shape_at w.table (env_at w e).shape).id

-- `Environment::slot_get`
abbrev pub slot_get : World → ℕ → ℕ → Value
slot_get w e slot = (get_or (env_at w e).bindings slot unbound).content

-- What LOAD_VAR gives: the value with the new state and the new entry, or an R error. `stuck` is
-- the model's fuel running out.
pub data Loaded : Type 0 where
  loaded : Value → World → Entry → Loaded
  object_not_found : Loaded
  stuck : Loaded

abbrev pub entry_for : World → ℕ → ℕ → Entry
entry_for w e slot = record { env = some e; shape = shape_id w e; slot = slot }

-- The second lookup, which fills the cache. It leaves `found_env` and `slot` as they were set
-- before it when it does not come to a value.
unfoldable pub populate : ℕ → Value → Found × World → Loaded
populate e v (found _ e' slot, w) = loaded v w (entry_for w e' slot)
populate e v (missing_argument, w) = loaded v w (entry_for w e 0)
populate e v (not_found, w) = loaded v w (entry_for w e 0)
populate e v (out_of_fuel, w) = stuck

module _ (force : Value → World → Value × World) (fuel : ℕ) where
  -- `slow_lookup_var` and what follows it.
  unfoldable pub slow_load : ℕ → ℕ → Found × World → Loaded
  slow_load e sym (found v _ _, w) = populate e v (lookup_from force fuel w e sym)
  slow_load e sym (missing_argument, w) = populate e missing (lookup_from force fuel w e sym)
  slow_load e sym (not_found, w) = object_not_found
  slow_load e sym (out_of_fuel, w) = stuck

  -- The handler of LOAD_VAR, in the frame's environment `e`.
  unfoldable pub load_var : World → ℕ → ℕ → Entry → Loaded
  load_var w e sym entry =
      let slow = slow_load e sym (lookup_from force fuel w e sym) in
      elim entry.env [
        | none ↦ slow
        | some c ↦
            if shape_id w c == entry.shape then loaded (slot_get w c entry.slot) w entry else slow
      ]

  -- While the cached environment keeps its shape, LOAD_VAR answers from the cache whatever the
  -- environment it runs in.
  pub load_var-hit :
      (w : World) (e sym c : ℕ) (entry : Entry)
      → entry.env ≡ some c
      → shape_id w c ≡ entry.shape
      → load_var w e sym entry ≡ loaded (slot_get w c entry.slot) w entry
  unfolding load_var
  load_var-hit w e sym c entry h k = ground arith

  -- The first load at an instruction fills the cache with the environment where the value was found.
  pub load_var-first :
      (w : World) (k d e : ℕ)
      → IsOrdered w
      → Resolves w k d e
      → e < fuel
      → load_var w e k no_entry
        ≡ loaded (slot_get w d (own_slot w d k)) w (entry_for w d (own_slot w d k))
  unfolding load_var slow_load populate
  load_var-first w k d e ord r h =
      let walk = lookup_from-Resolves force w fuel k d ord r h in rw walk (rw walk)

  -- With parents of smaller index and enough fuel, a first load of a symbol in one environment
  -- gives the same result as a load in any other environment through the entry that the first one
  -- leaves, whatever the other environment resolves the symbol to.
  pub load_var-stale :
      (w : World) (k d e e' : ℕ)
      → IsOrdered w
      → Resolves w k d e
      → e < fuel
      → load_var w e k no_entry ≡ load_var w e' k (entry_for w d (own_slot w d k))
  load_var-stale w k d e e' ord r h =
      load_var-first w k d e ord r h
      ∙ sym (load_var-hit w e' k d (entry_for w d (own_slot w d k)) refl refl)
