-- ===== src/Machine/Nesting.antt =====
-- src/vm/interpreter.cpp: calls, their registers, and the return to the caller.
use r_sjit.Common.{
  ℕ, zero, suc, ◌+◌, ◌-◌, ◌<◌, ◌≤◌, ◌≡◌, ◌≢◌, refl, ◌∙◌, ap, min, arith, some, List, subst, false,
}
use mathlib.Core.Option
use r_sjit.Value.{Value, nil, is_tag}
use r_sjit.Value.Tag.{TypeTag}
use r_sjit.Machine.Frames.{
  Callee, Frame, Stack, put, clear, forced, bind_args, new_frame, push_frame, pop_frame,
}

-- The current frame, its callers, the top of the registers in use, and one register.
abbrev pub seen : ℕ → Stack → Frame × List Frame × ℕ × Value
seen j s = (s.current, s.callers, s.reg_sp, s.arena j)

put-other : (m : ℕ → Value) (i j : ℕ) (v : Value) → j ≢ i → put m i v j ≡ m j
unfolding put
put-other m i j v h = ground arith

put-same : (m : ℕ → Value) (i : ℕ) (v : Value) → put m i v i ≡ v
unfolding put
put-same m i v = ground arith

clear-below : (m : ℕ → Value) (i n j : ℕ) → j < i → clear m i n j ≡ m j
unfolding clear
clear-below m i zero j l = refl
clear-below m i (suc n) j l =
    clear-below (put m i nil) (suc i) n j (omega arith) ∙ put-other m i j nil (omega arith)

-- None of the `n` arguments at `args` is a promise.
abbrev pub NoPromises : Stack → ℕ → ℕ → Type 0
NoPromises s args n = (k : ℕ) → k < n → is_tag (s.arena (args + k)) TypeTag.promise ≡ false

-- The arena after the loop over the arguments when no promise is forced.
copy_args : (ℕ → Value) → ℕ → ℕ → ℕ → ℕ → Value
copy_args m args i zero = m
copy_args m args i (suc n) = copy_args (put m i (m args)) (suc args) (suc i) n

copy_args-below : (m : ℕ → Value) (args i n j : ℕ) → j < i → copy_args m args i n j ≡ m j
unfolding copy_args
copy_args-below m args i zero j l = refl
copy_args-below m args i (suc n) j l =
    copy_args-below (put m i (m args)) (suc args) (suc i) n j (omega arith)
    ∙ put-other m i j (m args) (omega arith)

copy_args-above : (m : ℕ → Value) (args i n j : ℕ) → i + n ≤ j → copy_args m args i n j ≡ m j
unfolding copy_args
copy_args-above m args i zero j l = refl
copy_args-above m args i (suc n) j l =
    copy_args-above (put m i (m args)) (suc args) (suc i) n j (omega arith)
    ∙ put-other m i j (m args) (omega arith)

copy_args-at :
    (m : ℕ → Value) (args i n k a j : ℕ)
    → args + n ≤ i
    → k < n
    → a ≡ args + k
    → j ≡ i + k
    → copy_args m args i n j ≡ m a
unfolding copy_args
copy_args-at m args i zero k a j l h e d = absurd (omega arith)
copy_args-at m args i (suc n) zero a j l h e d =
    let from : a ≡ args = omega arith in
    let to : j ≡ i = omega arith in
    rw (from, to)
      (copy_args-below (put m i (m args)) (suc args) (suc i) n i (omega arith)
        ∙ put-same m i (m args))
copy_args-at m args i (suc n) (suc k) a j l h e d =
    copy_args-at (put m i (m args)) (suc args) (suc i) n k a j (omega arith) (omega arith)
      (omega arith) (omega arith)
    ∙ put-other m i a (m args) (omega arith)

module _ (force : Value → Stack → Value × Stack) where
  forced-plain :
      (v : Value) (s : Stack) → is_tag v TypeTag.promise ≡ false → forced force v s ≡ (v, s)
  unfolding forced
  forced-plain v s e = rw (e) refl

  bind_args-plain :
      (args i n : ℕ) (s : Stack)
      → ((k : ℕ) → k < n → is_tag (s.arena (args + k)) TypeTag.promise ≡ false)
      → args + n ≤ i
      → bind_args force args i n s ≡ record s { arena = copy_args s.arena args i n }
  unfolding bind_args copy_args
  bind_args-plain args i zero s plain l = refl
  bind_args-plain args i (suc n) s plain l =
      let first : is_tag (s.arena args) TypeTag.promise ≡ false =
        subst (λ a. is_tag (s.arena a) TypeTag.promise ≡ false) (omega arith)
          (plain 0 (omega arith)) in
      rw (forced-plain (s.arena args) s first) (
        bind_args-plain (suc args) (suc i) n (record s { arena = put s.arena i (s.arena args) })
          (λ k h.
            ap (λ v. is_tag v TypeTag.promise)
              (put-other s.arena i (suc args + k) (s.arena args) (omega arith))
            ∙ subst (λ a. is_tag (s.arena a) TypeTag.promise ≡ false) (omega arith)
                (plain (suc k) (omega arith)))
          (omega arith))

  module _ (c : Callee) (env pc dst args nargs : ℕ) (s : Stack)
      (below : args + min nargs c.nparams ≤ s.reg_sp)
      (plain : NoPromises s args (min nargs c.nparams)) where
    abbrev cleared : ℕ → Value
    cleared = clear s.arena (s.reg_sp + c.nparams) (c.nregs - c.nparams)

    cleared-below : (j : ℕ) → j < s.reg_sp + c.nparams → cleared j ≡ s.arena j
    cleared-below j l = clear-below s.arena (s.reg_sp + c.nparams) (c.nregs - c.nparams) j l

    push_frame-plain :
        push_frame force c env pc dst args nargs s ≡ record (new_frame c env pc dst s) {
          arena = copy_args cleared args s.reg_sp (min nargs c.nparams);
        }
    unfolding push_frame new_frame
    push_frame-plain =
        bind_args-plain args s.reg_sp (min nargs c.nparams) (new_frame c env pc dst s)
          (λ k h.
            ap (λ v. is_tag v TypeTag.promise) (cleared-below (args + k) (omega arith)) ∙ plain k h)
          below

    -- When the arguments lie below the top of the registers in use and none of those that are
    -- bound is a promise, after a call and a return of `v` from its frame the caller is the
    -- current frame at the pc that the call saved, the other callers and the registers in use are
    -- those before the call, and each register in use is what it was, but the destination of the
    -- call in the frame of the caller, which is `v`.
    pub pop_frame-push_frame :
        (v : Value) (j : ℕ)
        → j < s.reg_sp
        → Option.map (seen j) (pop_frame v (push_frame force c env pc dst args nargs s))
          ≡ some (
            record s.current { pc = pc },
            s.callers,
            s.reg_sp,
            put s.arena (s.current.regs + dst) v j,
          )
    unfolding pop_frame new_frame put
    pop_frame-push_frame v j l =
        let before =
          copy_args-below cleared args s.reg_sp (min nargs c.nparams) j l
          ∙ cleared-below j (omega arith) in
        let size : s.reg_sp + c.nregs - c.nregs ≡ s.reg_sp = omega arith in
        rw (push_frame-plain, before, size) refl

    -- When the arguments lie below the top of the registers in use and none of those that are
    -- bound is a promise, the register of the new frame for an argument that was given and has a
    -- parameter holds the argument.
    pub push_frame-argument :
        (k : ℕ)
        → k < min nargs c.nparams
        → (push_frame force c env pc dst args nargs s).arena (s.reg_sp + k) ≡ s.arena (args + k)
    push_frame-argument k h = rw (push_frame-plain) (
        copy_args-at cleared args s.reg_sp (min nargs c.nparams) k (args + k) (s.reg_sp + k) below h
          refl refl
        ∙ cleared-below (args + k) (omega arith))

    -- When the arguments lie below the top of the registers in use and none of those that are
    -- bound is a promise, in the frame of a call with fewer arguments than parameters the register
    -- of a parameter without an argument holds what the arena held at its place before the call.
    pub push_frame-missing :
        (k : ℕ)
        → nargs ≤ k
        → k < c.nparams
        → (push_frame force c env pc dst args nargs s).arena (s.reg_sp + k) ≡ s.arena (s.reg_sp + k)
    push_frame-missing k l h = rw (push_frame-plain) (
        copy_args-above cleared args s.reg_sp (min nargs c.nparams) (s.reg_sp + k) (omega arith)
        ∙ cleared-below (s.reg_sp + k) (omega arith))
