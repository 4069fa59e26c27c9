-- ===== src/Env/Tests.antt =====
-- Environments (src/core/environment.cpp) at concrete inputs.
use r_sjit.Common.{
  ◌≡◌, ◌<◌, refl, [], ◌∷◌, none, some, arith, if◌then◌else◌, ◌==◌, inl, u32_size, length, get_elem?,
  zero, suc,
}
use r_sjit.Common.Maps.{lookup, insert, erase, nat_key}
use r_sjit.Value.{Value, real}
use r_sjit.Env.{World, define, remove, defined, own_slot, lookup_from, found, BindingState}
use r_sjit.Env.Shapes.{Shape, no_shape, nil-IsDense, add_slot, IsDense, slot_of}
use r_sjit.Env.Table.{ShapeTable, init, IsValid, transition_add, add_from}
use r_sjit.Env.Transitions.{init-IsValid, CanAdd, IsAdded, transition_add-IsAdded}
use r_sjit.Env.Frame.{Fits, Room, view, view-define}
use r_sjit.Env.Removal.{view-remove, define-after_remove}
use r_sjit.Env.Chain.{IsOrdered, Resolves, own_binding, here, outer, lookup_from-Resolves}
use r_sjit.Env.Coherence.{load_var-define}
use r_sjit.Env.Cache.{Entry, loaded, slot_get, load_var, no_entry, entry_for, load_var-stale}

-- One environment without bindings.
abbrev bare : World
bare = record { table = init; envs = record { parent = none; shape = 0; bindings = [] } ∷ [] }

bare_fits : Fits bare 0
unfolding init lookup
bare_fits = record {
  valid = init-IsValid;
  known = omega arith;
  shape = no_shape;
  at = refl;
  stored = λ k v h. ground arith;
}

bare-Room : Room bare [] 5
unfolding init
bare-Room = record { symbol = omega arith; shapes_room = omega arith; slots_room = omega arith }

view-define_example :
    view (define bare 0 5 (real 3)) 0 5
    ≡ (if 5 == 5 then some (defined (real 3)) else view bare 0 5)
unfolding bare_fits
view-define_example = view-define bare 0 bare_fits 5 (real 3) bare-Room nil-IsDense 5

can_add : CanAdd init 0 no_shape 5
unfolding init
can_add = record { at = refl; symbol = omega arith; room = omega arith; slots_room = omega arith }

transition_add-IsAdded_example :
    IsAdded init (transition_add init 0 5).1 no_shape 5 (transition_add init 0 5).0
transition_add-IsAdded_example = transition_add-IsAdded init 0 no_shape 5 init-IsValid can_add

-- The table in which the empty shape was extended by 5 and the result by 6.
abbrev one_shape : Shape
one_shape = record { id = 1; deopt = no_shape.deopt; slots = (5, 0) ∷ [] }

abbrev two_shape : Shape
two_shape = record { id = 2; deopt = no_shape.deopt; slots = (5, 0) ∷ (6, 1) ∷ [] }

abbrev two_table : ShapeTable
two_table = (transition_add (transition_add init 0 5).1 1 6).1

one_valid : IsAdded init (transition_add init 0 5).1 no_shape 5 (transition_add init 0 5).0
one_valid = transition_add-IsAdded init 0 no_shape 5 init-IsValid can_add

one_at : get_elem? (transition_add init 0 5).1.shapes 1 ≡ some one_shape
unfolding init transition_add add_from lookup slot_of add_slot insert
one_at = refl

CanAdd-again : CanAdd (transition_add init 0 5).1 1 one_shape 6
unfolding init transition_add add_from lookup slot_of add_slot insert
CanAdd-again = record {
  at = one_at;
  symbol = omega arith;
  room = omega arith;
  slots_room = omega arith;
}

two-IsValid : IsValid two_table
two-IsValid =
    (transition_add-IsAdded (transition_add init 0 5).1 1 one_shape 6 one_valid.valid
      CanAdd-again).valid

-- Two variables in one environment.
abbrev pair : World
pair = record {
  table = two_table;
  envs =
      record { parent = none; shape = 2; bindings = defined (real 1) ∷ defined (real 2) ∷ [] } ∷ [];
}

two_at : get_elem? two_table.shapes 2 ≡ some two_shape
unfolding init transition_add add_from lookup slot_of add_slot insert
two_at = refl

pair_fits : Fits pair 0
unfolding lookup
pair_fits = record {
  valid = two-IsValid;
  known = omega arith;
  shape = two_shape;
  at = two_at;
  stored = λ k v h. ground arith;
}

two-IsDense : IsDense two_shape.slots
unfolding lookup erase
two-IsDense = record {
  bounded = λ k v h. ground arith;
  distinct = λ j k v h g. ground arith;
  counted = λ k v h. ground arith;
}

shapes_room : length two_table.shapes < u32_size
unfolding init transition_add add_from lookup slot_of add_slot insert
shapes_room = omega arith

view-remove_example : view (remove pair 0 5) 0 6 ≡ (if 5 == 6 then none else view pair 0 6)
unfolding pair_fits
view-remove_example = view-remove pair 0 pair_fits 5 shapes_room two-IsDense 6

more_room : suc (length two_table.shapes) < u32_size
unfolding init transition_add add_from lookup slot_of add_slot insert
more_room = omega arith

erased : lookup 5 (erase 5 two_shape.slots) ≡ none
unfolding lookup erase
erased = refl

at_5 : lookup 5 two_shape.slots ≡ some 0
unfolding lookup
at_5 = refl

at_6 : lookup 6 two_shape.slots ≡ some 1
unfolding lookup
at_6 = refl

-- x and y are defined, x is removed and defined again: y has the value of x.
define-after_remove_example :
    view (define (remove pair 0 5) 0 5 (real 9)) 0 6 ≡ some (defined (real 9))
unfolding pair_fits
define-after_remove_example =
    define-after_remove pair 0 pair_fits 5 5 6 0 1 (real 9) two-IsDense at_5 at_6 refl
      (λ e. ground arith) (λ e. ground arith) erased (omega arith) (omega arith) more_room

-- A function's environment, and another one, inside the environment with the two variables; the other one has a
-- variable 6 of its own.
abbrev nested : World
nested = record {
  table = two_table;
  envs =
      record { parent = none; shape = 2; bindings = defined (real 1) ∷ defined (real 2) ∷ [] }
      ∷ record { parent = some 0; shape = 0; bindings = [] }
      ∷ record { parent = some 0; shape = 2; bindings = defined (real 7) ∷ defined (real 8) ∷ [] }
      ∷ [];
}

nested-IsOrdered : IsOrdered nested
nested-IsOrdered zero p h = ground arith
nested-IsOrdered (suc zero) p h = ground arith
nested-IsOrdered (suc (suc zero)) p h = ground arith
nested-IsOrdered (suc (suc (suc e))) p h = ground arith

slot_6 : own_slot nested 0 6 ≡ 1
unfolding own_slot slot_of init transition_add add_from lookup add_slot insert
slot_6 = refl

no_slot_6 : own_slot nested 1 6 ≡ 4294967295
unfolding own_slot slot_of init transition_add add_from lookup add_slot insert
no_slot_6 = refl

value_6 : (own_binding nested 0 6).state ≡ BindingState.value
unfolding own_slot slot_of init transition_add add_from lookup add_slot insert
value_6 = refl

Resolves-6 : Resolves nested 6 0 1
Resolves-6 = outer 0 (inl no_slot_6) refl (here (λ e. ground (arith, slot_6)) value_6)

abbrev no_force : Value → World → Value × World
no_force v w = (v, w)

lookup_from-Resolves_example :
    lookup_from no_force 3 nested 1 6
    ≡ (found (own_binding nested 0 6).content 0 (own_slot nested 0 6), nested)
lookup_from-Resolves_example =
    lookup_from-Resolves no_force nested 3 6 0 nested-IsOrdered Resolves-6 (omega arith)

load_var-stale_example :
    load_var no_force 3 nested 1 6 no_entry
    ≡ load_var no_force 3 nested 2 6 (entry_for nested 0 (own_slot nested 0 6))
load_var-stale_example =
    load_var-stale no_force 3 nested 6 0 1 2 nested-IsOrdered Resolves-6 (omega arith)

-- Variable 6 is read, set to 9, and read again.
load_var-define_example :
    (entry : Entry) × (load_var no_force 3 nested 1 6 no_entry
      ≡ loaded (slot_get nested 0 (own_slot nested 0 6)) nested entry)
    × (load_var no_force 3 (define nested 0 6 (real 9)) 1 6 entry
        ≡ loaded (real 9) (define nested 0 6 (real 9)) entry)
load_var-define_example =
    load_var-define no_force 3 nested 6 0 1 (real 9) nested-IsOrdered Resolves-6 (omega arith)
      (omega arith) (omega (arith, slot_6))
