-- ===== src/Promises/Laws.antt =====
-- The states of a promise (src/core/promise.cpp).
use r_sjit.Common.{
  ℕ, ◌<◌, ◌≡◌, refl, ap, ◌∙◌, [], Option, none, true, length, arith, get_or-set_self, length-set,
}
use r_sjit.Value.{Value, is_tag}
use r_sjit.Value.Tag.{TypeTag}
use r_sjit.Promises.{
  PromiseState, Promise, Store, promise_at, set_state, finish, evaluate, force, force_in,
}

module _ (execute : Value → ℕ → Store → Option Value × Store) where
  -- A promise that is forced or has failed answers at once.
  force-state :
      (p : ℕ) (s : Store) (state : PromiseState)
      → (promise_at s p).state ≡ state
      → force execute p s ≡ force_in execute p s state
  unfolding force
  force-state p s state e = ap (force_in execute p s) e

  evaluate-code :
      (p : ℕ) (s : Store)
      → is_tag (promise_at s p).expr TypeTag.bytecode_fn ≡ true
      → evaluate execute p s ≡ execute (promise_at s p).expr (promise_at s p).env s
  unfolding evaluate
  evaluate-code p s code = rw (code) refl

  -- A promise that was not forced yet, and whose bytecode does what forcing the promise itself in
  -- the state `forcing` does, fails and is left in the state `error`.
  pub force-cycle :
      (p : ℕ) (s : Store)
      → p < length s
      → (promise_at s p).state ≡ PromiseState.unforced
      → is_tag (promise_at s p).expr TypeTag.bytecode_fn ≡ true
      → execute (promise_at s p).expr (promise_at s p).env (set_state p PromiseState.forcing s)
        ≡ force execute p (set_state p PromiseState.forcing s)
      → ((force execute p s).0 ≡ none)
        × ((promise_at (force execute p s).1 p).state ≡ PromiseState.error)
  unfolding set_state force_in finish
  force-cycle p s l new code self =
      let busy : Promise = record {
        expr = (promise_at s p).expr;
        env = (promise_at s p).env;
        value = (promise_at s p).value;
        state = PromiseState.forcing;
      } in
      let t = set_state p PromiseState.forcing s in
      let at_t : promise_at t p ≡ busy = get_or-set_self s p busy (promise_at [] 0) l in
      let runs : evaluate execute p t ≡ (none, t) =
        evaluate-code p t (ap (λ (x : Promise). is_tag x.expr TypeTag.bytecode_fn) at_t ∙ code)
        ∙ ap (λ (x : Promise). execute x.expr x.env t) at_t
        ∙ self
        ∙ force-state p t PromiseState.forcing (ap (λ (x : Promise). x.state) at_t) in
      let all : force execute p s ≡ (none, set_state p PromiseState.error t) =
        force-state p s PromiseState.unforced new ∙ ap (finish p) runs in
      let size = length-set s p busy in
      (
        ap (λ (r : Option Value × Store). r.0) all,
        ap (λ (r : Option Value × Store). (promise_at r.1 p).state) all
            ∙ ap (λ (x : Promise). x.state)
                (get_or-set_self t p
                  (record {
                    expr = (promise_at t p).expr;
                    env = (promise_at t p).env;
                    value = (promise_at t p).value;
                    state = PromiseState.error;
                  })
                  (promise_at [] 0) (omega (arith, l, size))),
      )
