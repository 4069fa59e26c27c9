-- ===== src/Promises.antt =====
-- src/core/promise.cpp, include/rjit/core/promise.hpp: promises, whose expression is evaluated once.
--
-- The promises are a list, and a `Promise*` is an index of it. `execute` stands for the interpreter on
-- the bytecode of a promise: it may force promises, and `none` is the exception that it throws.
pub mod Laws
mod Tests
use r_sjit.Common.{ℕ, ◌==◌, List, Option, none, some, Bool, true, false, get_or, set, if◌then◌else◌}
use r_sjit.Value.{Value, nil, is_tag}
use r_sjit.Value.Tag.{TypeTag}

-- `enum class PromiseState`
pub data PromiseState : Type 0 where
  unforced forcing forced error : PromiseState

-- `class Promise`
pub record Promise : Type 0 where
  pub expr : Value
  pub env : ℕ
  pub value : Value
  pub state : PromiseState

-- `Promise::Promise`
unfoldable pub new_promise : Value → ℕ → Promise
new_promise expr env = record { expr = expr; env = env; value = nil; state = PromiseState.unforced }

abbrev pub Store : Type 0
Store = List Promise

abbrev pub promise_at : Store → ℕ → Promise
promise_at s p =
    get_or s p (record { expr = nil; env = 0; value = nil; state = PromiseState.unforced })

unfoldable pub set_state : ℕ → PromiseState → Store → Store
set_state p state s = set s p (record {
  expr = (promise_at s p).expr;
  env = (promise_at s p).env;
  value = (promise_at s p).value;
  state = state;
})

-- `Promise::set_forced`
unfoldable pub set_forced : ℕ → Value → Store → Store
set_forced p v s = set s p (record {
  expr = (promise_at s p).expr;
  env = (promise_at s p).env;
  value = v;
  state = PromiseState.forced;
})

-- The end of the `try`: the result is remembered, or the error is.
unfoldable pub finish : ℕ → Option Value × Store → Option Value × Store
finish p (some result, s) = (some result, set_forced p result s)
finish p (none, s) = (none, set_state p PromiseState.error s)

module _ (execute : Value → ℕ → Store → Option Value × Store) where
  -- The body of the `try`, with the promise in the state `forcing`.
  unfoldable pub evaluate : ℕ → Store → Option Value × Store
  evaluate p s =
      if is_tag (promise_at s p).expr TypeTag.bytecode_fn
      then execute (promise_at s p).expr (promise_at s p).env s
      else (some (promise_at s p).expr, s)

  unfoldable pub force_in : ℕ → Store → PromiseState → Option Value × Store
  force_in p s PromiseState.forced = (some (promise_at s p).value, s)
  force_in p s PromiseState.error = (none, s)
  force_in p s PromiseState.forcing = (none, s)
  force_in p s PromiseState.unforced = finish p (evaluate p (set_state p PromiseState.forcing s))

  -- `Promise::force`; `none` is an R error.
  unfoldable pub force : ℕ → Store → Option Value × Store
  force p s = force_in p s (promise_at s p).state

  -- `force_if_promise`; the payload of a promise value is its index.
  unfoldable pub force_if_promise : Value → Store → Option Value × Store
  force_if_promise v s = if is_tag v TypeTag.promise then force v.bits s else (some v, s)
