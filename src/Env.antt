-- ===== src/Env.antt =====
-- src/core/environment.cpp, include/rjit/core/environment.hpp: environments, their hidden classes
-- ("shapes") and the table of shapes.
--
-- A `Shape*` is the index of the shape in the table, where each shape that an environment uses
-- stands at the place of its id; an `Environment*` is an index into the list of environments, which
-- are never moved. The mutex has no effect on one thread.
pub mod Shapes
pub mod Table
pub mod Transitions
pub mod Shrinking
pub mod Frame
pub mod Removal
pub mod Cache
pub mod Coherence
pub mod Chain
mod Tests
use r_sjit.Common.{
  ℕ, zero, suc, ◌+◌, ◌<◌, List, [], ◌∷◌, ◌++◌, Option, none, some, Bool, true, false, length,
  get_or, set, grow, ltb, ◌==◌, u32_max, if◌then◌else◌,
}
use r_sjit.Value.{Value, nil, missing}
use r_sjit.Env.Shapes.{Shape, slot_of, no_shape}
use r_sjit.Env.Table.{ShapeTable, transition_add, transition_remove, shape_at}

-- `enum class BindingState`
pub data BindingState : Type 0 where
  empty value promise absent : BindingState

-- `struct Binding`
pub record Binding : Type 0 where
  pub state : BindingState
  pub flags : ℕ
  pub content : Value

unfoldable pub unbound : Binding
unbound = record { state = BindingState.empty; flags = 0; content = nil }

-- `class Environment`: the parent is `none` for a null pointer.
pub record Environment : Type 0 where
  pub parent : Option ℕ
  pub shape : ℕ
  pub bindings : List Binding

-- All the environments, and the one table of shapes.
pub record World : Type 0 where
  pub table : ShapeTable
  pub envs : List Environment

-- A dangling index reads as an environment with nothing in it.
abbrev pub no_env : Environment
no_env = record { parent = none; shape = 0; bindings = [] }

abbrev pub env_at : World → ℕ → Environment
env_at w e = get_or w.envs e no_env

abbrev pub put_env : World → ℕ → Environment → World
put_env w e env = record w { envs = set w.envs e env }

-- The slot of a symbol in an environment's own shape.
unfoldable pub own_slot : World → ℕ → ℕ → ℕ
own_slot w e sym = slot_of (shape_at w.table (env_at w e).shape) sym

-- `Environment(parent)`: the empty shape is the first of the table.
unfoldable pub new_env : World → Option ℕ → ℕ × World
new_env w parent = (
  length w.envs,
  record w { envs = w.envs ++ record { parent = parent; shape = 0; bindings = [] } ∷ [] },
)

-- What `lookup` reports: the value with the environment and the slot for the inline cache; that the
-- binding is a missing argument; that there is none; or that the model's fuel ran out.
pub data Found : Type 0 where
  found : Value → ℕ → ℕ → Found
  missing_argument : Found
  not_found : Found
  out_of_fuel : Found

-- `b.value = v; b.state = BindingState::kValue` at a slot of an environment.
unfoldable pub store_value : World → ℕ → ℕ → Value → World
store_value w e slot v =
    let env = env_at w e in
    let b = get_or env.bindings slot unbound in
    put_env w e (record env {
      bindings = set env.bindings slot (record b { state = BindingState.value; content = v });
    })

-- `force` stands for `force_if_promise`, which may run code.
module _ (force : Value → World → Value × World) where
  unfoldable pub forced : Value × World → ℕ → ℕ → Found × World
  forced (v, w) e slot = (found v e slot, store_value w e slot v)

  -- One round of the loop of `Environment::lookup`, given what the next rounds find.
  unfoldable pub probe : World → ℕ → ℕ → Found × World → Found × World
  probe w e sym outer =
      let slot = own_slot w e sym in
      let b = get_or (env_at w e).bindings slot unbound in
      if slot == u32_max then outer else elim b.state [
        | BindingState.value ↦ (found b.content e slot, w)
        | BindingState.promise ↦ forced (force b.content w) e slot
        | BindingState.absent ↦ (missing_argument, w)
        | BindingState.empty ↦ outer
      ]

  -- `Environment::lookup`: the fuel bounds the length of the parent chain.
  unfoldable pub lookup_from : ℕ → World → ℕ → ℕ → Found × World
  lookup_from zero w e sym = (out_of_fuel, w)
  lookup_from (suc fuel) w e sym =
      let outer : Found × World = elim (env_at w e).parent [
        | none ↦ (not_found, w)
        | some p ↦ lookup_from fuel w p sym
      ] in
      probe w e sym outer

-- `Environment::grow_to`
unfoldable pub grow_to : List Binding → ℕ → List Binding
grow_to bindings slot =
    if ltb slot (length bindings) then bindings else grow bindings (suc slot) unbound

-- The three assignments at the end of `define`.
abbrev pub defined : Value → Binding
defined v = record { state = BindingState.value; flags = 0; content = v }

-- `Environment::define` for a symbol that the shape lacks, after the transition.
unfoldable pub define_new : World → ℕ → ℕ → Value → ℕ × ShapeTable → World
define_new w e sym v (s, t) =
    let env = env_at w e in
    let slot = slot_of (shape_at t s) sym in
    record {
      table = t;
      envs =
          set w.envs e
            (record env { shape = s; bindings = set (grow_to env.bindings slot) slot (defined v) });
    }

-- `Environment::define`
unfoldable pub define : World → ℕ → ℕ → Value → World
define w e sym v =
    let env = env_at w e in
    let slot = own_slot w e sym in
    if slot == u32_max
    then define_new w e sym v (transition_add w.table env.shape sym)
    else put_env w e (record env { bindings = set env.bindings slot (defined v) })

-- `Environment::set_existing`: whether a binding was found, with the new state.
unfoldable pub set_existing : ℕ → World → ℕ → ℕ → Value → Bool × World
set_existing zero w e sym v = (false, w)
set_existing (suc fuel) w e sym v =
    let outer : Bool × World = elim (env_at w e).parent [
      | none ↦ (false, w)
      | some p ↦ set_existing fuel w p sym v
    ] in
    if own_slot w e sym == u32_max then outer else (true, store_value w e (own_slot w e sym) v)

-- `Environment::remove`, after the transition.
unfoldable pub remove_slot : World → ℕ → ℕ → ℕ × ShapeTable → World
remove_slot w e slot (s, t) =
    let env = env_at w e in
    let b = get_or env.bindings slot unbound in
    record {
      table = t;
      envs = set w.envs e (record env {
        shape = s;
        bindings =
            set env.bindings slot
              (record b { state = BindingState.empty; content = unbound.content });
      });
    }

-- `Environment::remove`
unfoldable pub remove : World → ℕ → ℕ → World
remove w e sym =
    let slot = own_slot w e sym in
    if slot == u32_max
    then w
    else remove_slot w e slot (transition_remove w.table (env_at w e).shape sym)

-- `reset_environments` on a fresh table: the empty, the base and the global environment.
unfoldable pub reset_environments : World → World
reset_environments w =
    let (e, w₁) = new_env w none in
    let (b, w₂) = new_env w₁ (some e) in let (g, w₃) = new_env w₂ (some b) in w₃
