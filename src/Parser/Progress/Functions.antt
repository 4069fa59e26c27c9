-- ===== src/Parser/Progress/Functions.antt =====
-- src/frontend/parser.cpp: parameter lists and functions end.
use r_sjit.Common.{
  ℕ, zero, suc, ◌<◌, ◌≤◌, ◌≡◌, refl, not, List, length, arith, Bool-cases, inl, inr,
}
use r_sjit.Lexer.Tokens.{TokKind, Token, kind_code}
use r_sjit.Parser.Tree.{Ast, Params, no_params, push_required}
use r_sjit.Parser.State.{Parsed, parsed, advance, peek, at, error, skip_newlines}
use r_sjit.Parser.Forms.{is_name, parse_param, param_loop, parse_params, parse_function}
use r_sjit.Parser.Within.{
  Within, bind-Within, if-Within, length-advance_le, skip_newlines_le, at-advance, Takes,
}
use r_sjit.Parser.Progress.{inner-Within, inner-skip, expect-below}

module _ (last : Token) (ends : kind_code last.kind ≡ 0) (inner : List Token → Parsed Ast) (n : ℕ)
    (takes : Takes n inner) where
  param-Within :
      (ps : Params) (m : ℕ) (ts : List Token)
      → length ts < n
      → length ts < m
      → Within m (parse_param last inner ps ts)
  unfolding parse_param Within error
  param-Within ps m ts l k =
      let le : length (advance (advance ts)) ≤ length ts =
        omega (arith, length-advance_le ts, length-advance_le (advance ts)) in
      if-Within m (not (is_name last inner ts)) _ _ tt (
        if-Within m (at last TokKind.equal (advance ts)) _
          (parsed (push_required ps (peek last 0 ts).text) (advance ts))
          (bind-Within m m _ _
            (inner-Within last ends inner n takes m (advance (advance ts)) (omega (arith, le))
              (omega (arith, le)))
            (λ d us p. p))
          (omega (arith, length-advance_le ts)))

  param_loop-Within :
      (m fuel : ℕ) (ps : Params) (ts : List Token)
      → length ts < fuel
      → length ts < n
      → length ts < m
      → Within m (param_loop last inner fuel ps ts)
  unfolding param_loop Within kind_code
  param_loop-Within m zero ps ts f l k = absurd (omega arith)
  param_loop-Within m (suc fuel) ps ts f l k =
      let le = skip_newlines_le ts in
      bind-Within (suc (length ts)) m (parse_param last inner ps (skip_newlines ts)) _
        (param-Within ps (suc (length ts)) (skip_newlines ts) (omega (arith, le))
          (omega (arith, le)))
        (λ more us p. elim (Bool-cases (at last TokKind.comma (skip_newlines us))) [
          | inl e ↦
              let one = at-advance last ends TokKind.comma (skip_newlines us) refl e in
              let next : suc (length (advance (skip_newlines us))) ≤ length us =
                omega (arith, one, skip_newlines_le us) in
              rw (e) (
                param_loop-Within m fuel more (advance (skip_newlines us)) (omega (arith, next))
                  (omega (arith, next)) (omega (arith, next)))
          | inr e ↦ rw (e) (omega (arith, skip_newlines_le us))
        ])

  params-Within :
      (m : ℕ) (ts : List Token)
      → length ts < n
      → length ts < m
      → Within m (parse_params last inner ts)
  unfolding parse_params Within
  params-Within m ts l k =
      if-Within m (at last TokKind.r_paren ts) (parsed no_params ts) _ k
        (param_loop-Within m (suc (length ts)) no_params ts (omega arith) l k)

  pub function-Within :
      (ts : List Token) → length ts ≤ n → Within (length ts) (parse_function last inner ts)
  unfolding parse_function Within kind_code
  function-Within ts l =
      let m = length ts in
      bind-Within m m _ _
        (expect-below last ends inner n takes m TokKind.kw_function ts refl (omega arith))
        (λ _ us p.
          bind-Within m m _ _
            (expect-below last ends inner n takes m TokKind.l_paren us refl (omega arith))
            (λ _ vs q.
              bind-Within m m _ _
                (params-Within m (skip_newlines vs) (omega (arith, skip_newlines_le vs))
                  (omega (arith, skip_newlines_le vs)))
                (λ ps ws r.
                  bind-Within m m _ _
                    (expect-below last ends inner n takes m TokKind.r_paren ws refl (omega arith))
                    (λ _ xs s.
                      bind-Within m m _ _
                        (inner-skip last ends inner n takes m xs (omega arith) (omega arith))
                        (λ body ys t. t)))))
