-- ===== src/Parser/Progress/Calls.antt =====
-- src/frontend/parser.cpp: the arguments of calls and indices end.
use r_sjit.Common.{
  ℕ, zero, suc, ◌<◌, ◌≤◌, ◌≡◌, refl, Bool, true, false, ◌==◌, List, length, arith, Bool-cases, inl,
  inr,
}
use r_sjit.Lexer.Tokens.{TokKind, Token, kind_code}
use r_sjit.Parser.Tree.{Ast, Asts, none_left, push}
use r_sjit.Parser.State.{Parsed, parsed, advance, at, skip_newlines}
use r_sjit.Parser.Forms.{
  parse_named_arg, is_named, parse_arg, parse_index_arg, arg_loop, parse_args, parse_call_args,
  closing, parse_index_args,
}
use r_sjit.Parser.Within.{
  Within, Within-le, bind-Within, if-Within, length-advance_le, skip_newlines_le, at-advance, Takes,
}
use r_sjit.Parser.Progress.{inner-Within, inner-skip, expect-below}

module _ (last : Token) (ends : kind_code last.kind ≡ 0) (inner : List Token → Parsed Ast) (n : ℕ)
    (takes : Takes n inner) where
  named_arg-Within :
      (ts : List Token) → length ts < n → Within (suc (length ts)) (parse_named_arg last inner ts)
  unfolding parse_named_arg Within
  named_arg-Within ts l =
      let le : length (advance (advance ts)) ≤ length ts =
        omega (arith, length-advance_le ts, length-advance_le (advance ts)) in
      bind-Within (suc (length ts)) (suc (length ts)) _ _
        (inner-skip last ends inner n takes (suc (length ts)) (advance (advance ts))
          (omega (arith, le)) (omega (arith, le)))
        (λ v us h. h)

  arg-Within :
      (ts : List Token) → length ts < n → Within (suc (length ts)) (parse_arg last inner ts)
  unfolding parse_arg Within
  arg-Within ts l =
      if-Within (suc (length ts)) (is_named last inner ts) _ _ (named_arg-Within ts l) (
        if-Within (suc (length ts)) _ (parsed Ast.missing_arg ts) _ (omega arith)
          (inner-Within last ends inner n takes (suc (length ts)) ts l (omega arith)))

  index_arg-Within :
      (close : TokKind) (ts : List Token)
      → length ts < n
      → Within (suc (length ts)) (parse_index_arg last inner close ts)
  unfolding parse_index_arg Within
  index_arg-Within close ts l =
      if-Within (suc (length ts)) _ (parsed Ast.missing_arg ts) _ (omega arith)
        (inner-Within last ends inner n takes (suc (length ts)) ts l (omega arith))

  arg_loop-Within :
      (arg : List Token → Parsed Ast)
      → ((ts : List Token) → length ts < n → Within (suc (length ts)) (arg ts))
      → (m fuel : ℕ) (args : Asts) (ts : List Token) → length ts < fuel
      → length ts < n
      → length ts < m
      → Within m (arg_loop last inner arg fuel args ts)
  unfolding arg_loop Within kind_code
  arg_loop-Within arg h m zero args ts f l k = absurd (omega arith)
  arg_loop-Within arg h m (suc fuel) args ts f l k =
      let le = skip_newlines_le ts in
      bind-Within (suc (length ts)) m (arg (skip_newlines ts)) _
        (Within-le (suc (length (skip_newlines ts))) (suc (length ts)) _ (omega arith)
          (h (skip_newlines ts) (omega arith)))
        (λ a us p. elim (Bool-cases (at last TokKind.comma (skip_newlines us))) [
          | inl e ↦
              let one = at-advance last ends TokKind.comma (skip_newlines us) refl e in
              rw (e) (
                arg_loop-Within arg h m fuel (push args a) (advance (skip_newlines us))
                  (omega (arith, one, skip_newlines_le us))
                  (omega (arith, one, skip_newlines_le us))
                  (omega (arith, one, skip_newlines_le us)))
          | inr e ↦ rw (e) (omega (arith, skip_newlines_le us))
        ])

  args-Within :
      (arg : List Token → Parsed Ast) (close : TokKind)
      → ((ts : List Token) → length ts < n → Within (suc (length ts)) (arg ts))
      → (m : ℕ) (ts : List Token) → length ts < n
      → length ts < m
      → Within m (parse_args last inner arg close ts)
  unfolding parse_args Within
  args-Within arg close h m ts l k =
      if-Within m (at last close ts) _ _ k
        (arg_loop-Within arg h m (suc (length ts)) none_left ts (omega arith) l k)

  pub call_args-Within :
      (callee : Ast) (ts : List Token)
      → length ts ≤ n
      → Within (length ts) (parse_call_args last inner callee ts)
  unfolding parse_call_args Within kind_code
  call_args-Within callee ts l =
      let m = length ts in
      bind-Within m m _ _
        (expect-below last ends inner n takes m TokKind.l_paren ts refl (omega arith))
        (λ _ us p.
          bind-Within m m _ _
            (args-Within (parse_arg last inner) TokKind.r_paren arg-Within m (skip_newlines us)
              (omega (arith, skip_newlines_le us)) (omega (arith, skip_newlines_le us)))
            (λ args vs q.
              bind-Within m m _ _
                (expect-below last ends inner n takes m TokKind.r_paren vs refl (omega arith))
                (λ _ ws r. r)))

  closing-not_end : (dbl : Bool) → (kind_code (closing last inner dbl) == 0) ≡ false
  unfolding closing kind_code
  closing-not_end true = refl
  closing-not_end false = refl

  pub index_args-Within :
      (base : Ast) (dbl : Bool) (ts : List Token)
      → length ts ≤ n
      → suc (length (advance ts)) ≡ length ts
      → Within (length ts) (parse_index_args last inner base dbl ts)
  unfolding parse_index_args Within
  index_args-Within base dbl ts l one =
      let m = length ts in
      let le = skip_newlines_le (advance ts) in
      bind-Within m m _ _
        (args-Within (parse_index_arg last inner (closing last inner dbl)) (closing last inner dbl)
          (index_arg-Within (closing last inner dbl)) m (skip_newlines (advance ts))
          (omega (arith, le, one)) (omega (arith, le, one)))
        (λ args us p.
          bind-Within m m _ _
            (expect-below last ends inner n takes m (closing last inner dbl) us
              (closing-not_end dbl) (omega arith))
            (λ _ vs q. q))
