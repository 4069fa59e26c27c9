-- ===== src/Gc/Crash.antt =====
-- A collection (src/core/gc.cpp) with the environments of `reset_environments`
-- (src/core/environment.cpp): `Environment::trace` visits the parent of the empty one, which is null.
use r_sjit.Common.{
  ℕ, ◌≡◌, ◌≢◌, refl, sym, subst, List, [], ◌∷◌, ◌++◌, if◌then◌else◌, ==_ne, ◌==◌, none, Elem, inl,
}
use r_sjit.Value.{Value}
use r_sjit.Gc.{Gc, collect, environment_refs, root_objects, value_roots, not_null}
use r_sjit.Gc.Marking.{Reaches, here, there, Elem-append_left, Elem-append_right}
use r_sjit.Gc.Collection.{collect-null}

-- The global, the base and the empty environment, which has no parent, with the values of each.
pub record IsReset (refs : ℕ → List ℕ) (global_env base_env empty_env : ℕ) : Type 0 where
  pub global_values : List Value
  pub base_values : List Value
  pub empty_values : List Value
  pub refs_global : refs global_env ≡ environment_refs base_env global_values
  pub refs_base : refs base_env ≡ environment_refs empty_env base_values
  pub refs_empty : refs empty_env ≡ environment_refs 0 empty_values

Elem-not_null :
    (global_env base_env : ℕ)
    → global_env ≢ 0
    → Elem global_env (not_null (base_env ∷ global_env ∷ []))
unfolding not_null
Elem-not_null global_env base_env d =
    Elem-append_left global_env (if global_env == 0 then [] else global_env ∷ [])
      (if base_env == 0 then [] else base_env ∷ []) (rw (==_ne global_env 0 d) (inl refl))

global_root :
    (cells : ℕ → Value) (global_env base_env : ℕ) (g : Gc)
    → global_env ≢ 0
    → Elem global_env (root_objects cells global_env base_env g)
unfolding root_objects
global_root cells global_env base_env g d =
    let envs = not_null (base_env ∷ global_env ∷ []) in
    let temps = not_null g.temp_root_stack in
    Elem-append_right global_env (value_roots cells g.root_stack ++ temps) envs
      (Elem-not_null global_env base_env d)

-- An environment leads to its parent.
to_parent :
    (refs : ℕ → List ℕ) (ps : List ℕ) (env parent : ℕ) (vs : List Value)
    → refs env ≡ environment_refs parent vs
    → Reaches refs ps env
    → Reaches refs ps parent
unfolding environment_refs
to_parent refs ps env parent vs e path = there path (subst (Elem parent) (sym e) (inl refl))

-- When no object is black and the global environment, which is not null, the base and the empty
-- environment are as reset_environments makes them, each with any values and the empty one with a
-- null parent, a collection with any roots, any heap and any fuel does not return.
pub collect-never_returns :
    (refs : ℕ → List ℕ) (cells : ℕ → Value) (global_env base_env empty_env fuel : ℕ) (g : Gc)
    (color : ℕ → ℕ)
    → ((p : ℕ) → color p ≢ 2)
    → global_env ≢ 0
    → IsReset refs global_env base_env empty_env
    → collect refs cells global_env base_env fuel g color ≡ none
collect-never_returns refs cells global_env base_env empty_env fuel g color white d env =
    let roots = root_objects cells global_env base_env g in
    collect-null refs cells global_env base_env fuel g color white (
      to_parent refs roots empty_env 0 env.empty_values env.refs_empty (
        to_parent refs roots base_env empty_env env.base_values env.refs_base (
          to_parent refs roots global_env base_env env.global_values env.refs_global
            (here (global_root cells global_env base_env g d)))))
