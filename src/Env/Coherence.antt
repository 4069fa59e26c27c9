-- ===== src/Env/Coherence.antt =====
-- The inline cache of LOAD_VAR (src/vm/interpreter.cpp) and an assignment to the variable
-- (src/core/environment.cpp, `Environment::define`).
use r_sjit.Common.{ℕ, ◌≡◌, ◌≢◌, ◌<◌, refl, ap, ◌∙◌, ==_ne, length, set, get_or, get_or-set_self}
use r_sjit.Value.{Value}
use r_sjit.Env.{World, Environment, unbound, env_at, own_slot, put_env, defined, define, u32_max}
use r_sjit.Env.Table.{shape_at}
use r_sjit.Env.Chain.{IsOrdered, Resolves, here, outer}
use r_sjit.Env.Frame.{env_at-put_env}
use r_sjit.Env.Cache.{
  Entry, no_entry, entry_for, shape_id, slot_get, loaded, load_var, load_var-first, load_var-hit,
}

Resolves-own_slot : (w : World) (k d : ℕ) {e : ℕ} → Resolves w k d e → own_slot w d k ≢ u32_max
Resolves-own_slot w k d (here a b) = a
Resolves-own_slot w k d (outer p a b r) = Resolves-own_slot w k d r

abbrev assigned : World → ℕ → ℕ → Value → Environment
assigned w d k v = record (env_at w d) {
  bindings = set (env_at w d).bindings (own_slot w d k) (defined v);
}

define-put_env :
    (w : World) (d k : ℕ) (v : Value)
    → own_slot w d k ≢ u32_max
    → define w d k v ≡ put_env w d (assigned w d k v)
unfolding define
define-put_env w d k v h = rw (==_ne (own_slot w d k) u32_max h) refl

module _ (w : World) (d k : ℕ) (v : Value) (known : d < length w.envs)
    (bound : own_slot w d k ≢ u32_max) where
  shape_id-define : shape_id (define w d k v) d ≡ shape_id w d
  unfolding put_env
  shape_id-define =
      rw (define-put_env w d k v bound)
        (ap (λ env. (shape_at w.table env.shape).id) (env_at-put_env w d (assigned w d k v) known))

  slot_get-define :
      own_slot w d k < length (env_at w d).bindings
      → slot_get (define w d k v) d (own_slot w d k) ≡ v
  slot_get-define stored = rw (define-put_env w d k v bound) (
      ap (λ env. (get_or env.bindings (own_slot w d k) unbound).content)
        (env_at-put_env w d (assigned w d k v) known)
      ∙ ap (λ b. b.content)
          (get_or-set_self (env_at w d).bindings (own_slot w d k) (defined v) unbound stored))

module _ (force : Value → World → Value × World) (fuel : ℕ) where
  -- With parents of smaller index and enough fuel, when the slot of a symbol is within the
  -- bindings of the environment that resolves it, a first load of the symbol gives its value and
  -- leaves an entry through which a second load, after the symbol was defined again in that
  -- environment, gives the new value and keeps the entry.
  pub load_var-define :
      (w : World) (k d e : ℕ) (v : Value)
      → IsOrdered w
      → Resolves w k d e
      → e < fuel
      → d < length w.envs
      → own_slot w d k < length (env_at w d).bindings
      → (entry : Entry) × (load_var force fuel w e k no_entry
          ≡ loaded (slot_get w d (own_slot w d k)) w entry)
        × (load_var force fuel (define w d k v) e k entry ≡ loaded v (define w d k v) entry)
  load_var-define w k d e v ord r enough known stored =
      let bound = Resolves-own_slot w k d r in
      let entry = entry_for w d (own_slot w d k) in
      (
        entry,
        load_var-first force fuel w k d e ord r enough,
        load_var-hit force fuel (define w d k v) e k d entry refl
              (shape_id-define w d k v known bound)
            ∙ ap (λ x. loaded x (define w d k v) entry)
                (slot_get-define w d k v known bound stored),
      )
