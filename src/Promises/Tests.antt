-- ===== src/Promises/Tests.antt =====
-- Promises (src/core/promise.cpp) at concrete inputs.
use r_sjit.Common.{ℕ, ◌≡◌, refl, [], ◌∷◌, Option, none, some, arith}
use r_sjit.Value.{Value, real, from_heap, is_tag}
use r_sjit.Value.Tag.{TypeTag, tag_code}
use r_sjit.Promises.{PromiseState, Store, new_promise, promise_at, force, force_in, set_state}
use r_sjit.Promises.Laws.{force-cycle}

-- A promise with bytecode in the environment 2.
abbrev one_promise : Store
one_promise = new_promise (from_heap TypeTag.bytecode_fn 64) 2 ∷ []

abbrev gives_five : Value → ℕ → Store → Option Value × Store
gives_five v env s = (some (real 5), s)

abbrev fails : Value → ℕ → Store → Option Value × Store
fails v env s = (none, s)

force-cycle_example :
    ((force fails 0 one_promise).0 ≡ none)
    × ((promise_at (force fails 0 one_promise).1 0).state ≡ PromiseState.error)
unfolding force force_in set_state new_promise from_heap is_tag tag_code
force-cycle_example = force-cycle fails 0 one_promise (omega arith) refl refl refl
