-- ===== src/Parser/Progress/Statements.antt =====
-- src/frontend/parser.cpp: the statements end.
use r_sjit.Common.{ℕ, zero, suc, ◌<◌, ◌≤◌, ◌≡◌, refl, List, length, arith, Bool-cases, inl, inr}
use r_sjit.Lexer.Tokens.{TokKind, Token, kind_code}
use r_sjit.Parser.Tree.{Ast, Asts, none_left, push}
use r_sjit.Parser.State.{
  Parsed, parsed, advance, peek, at, error, skip_newlines, skip_newlines_only,
}
use r_sjit.Parser.Forms.{
  parse_else, parse_if, for_var, parse_for, parse_while, parse_repeat, at_block_end, at_separator,
  block_separator, block_loop, parse_block,
}
use r_sjit.Parser.Within.{
  Within, bind-Within, if-Within, length-advance_le, skip_newlines_le, skip_newlines_only_le, Takes,
}
use r_sjit.Parser.Progress.{inner-Within, inner-skip, expect-below}

module _ (last : Token) (ends : kind_code last.kind ≡ 0) (inner : List Token → Parsed Ast) (n : ℕ)
    (takes : Takes n inner) where
  else-Within :
      (c then_b : Ast) (m : ℕ) (ts : List Token)
      → length ts < n
      → length ts < m
      → Within m (parse_else last inner c then_b ts)
  unfolding parse_else Within
  else-Within c then_b m ts l k =
      let le : length (advance (skip_newlines_only ts)) ≤ length ts =
        omega (arith, skip_newlines_only_le ts, length-advance_le (skip_newlines_only ts)) in
      if-Within m (at last TokKind.kw_else (skip_newlines_only ts)) _
        (parsed (Ast.if_then c then_b) ts)
        (bind-Within m m _ _
          (inner-skip last ends inner n takes m (advance (skip_newlines_only ts))
            (omega (arith, le)) (omega (arith, le)))
          (λ b us p. p))
        k

  pub if_ast-Within :
      (ts : List Token) → length ts ≤ n → Within (length ts) (parse_if last inner ts)
  unfolding parse_if Within kind_code
  if_ast-Within ts l =
      let m = length ts in
      bind-Within m m _ _
        (expect-below last ends inner n takes m TokKind.kw_if ts refl (omega arith))
        (λ _ us p.
          bind-Within m m _ _
            (expect-below last ends inner n takes m TokKind.l_paren us refl (omega arith))
            (λ _ vs q.
              bind-Within m m _ _
                (inner-Within last ends inner n takes m vs (omega arith) (omega arith))
                (λ c ws r.
                  bind-Within m m _ _
                    (expect-below last ends inner n takes m TokKind.r_paren ws refl (omega arith))
                    (λ _ xs s.
                      bind-Within m m _ _
                        (inner-skip last ends inner n takes m xs (omega arith) (omega arith))
                        (λ then_b ys t. else-Within c then_b m ys (omega arith) t)))))

  for_var-Within : (m : ℕ) (ts : List Token) → length ts < m → Within m (for_var last inner ts)
  unfolding for_var Within error
  for_var-Within m ts k =
      if-Within m (at last TokKind.ident ts) (parsed (peek last 0 ts).text (advance ts)) _
        (omega (arith, length-advance_le ts)) tt

  pub for-Within : (ts : List Token) → length ts ≤ n → Within (length ts) (parse_for last inner ts)
  unfolding parse_for Within kind_code
  for-Within ts l =
      let m = length ts in
      bind-Within m m _ _
        (expect-below last ends inner n takes m TokKind.kw_for ts refl (omega arith))
        (λ _ us p.
          bind-Within m m _ _
            (expect-below last ends inner n takes m TokKind.l_paren us refl (omega arith))
            (λ _ vs q. bind-Within m m _ _ (for_var-Within m vs q) (λ var ws r.
              bind-Within m m _ _
                (expect-below last ends inner n takes m TokKind.kw_in ws refl (omega arith))
                (λ _ xs s.
                  bind-Within m m _ _
                    (inner-Within last ends inner n takes m xs (omega arith) (omega arith))
                    (λ seq ys t.
                      bind-Within m m _ _
                        (expect-below last ends inner n takes m TokKind.r_paren ys refl
                          (omega arith))
                        (λ _ zs u.
                          bind-Within m m _ _
                            (inner-skip last ends inner n takes m zs (omega arith) (omega arith))
                            (λ body rest v. v)))))))

  pub while-Within :
      (ts : List Token) → length ts ≤ n → Within (length ts) (parse_while last inner ts)
  unfolding parse_while Within kind_code
  while-Within ts l =
      let m = length ts in
      bind-Within m m _ _
        (expect-below last ends inner n takes m TokKind.kw_while ts refl (omega arith))
        (λ _ us p.
          bind-Within m m _ _
            (expect-below last ends inner n takes m TokKind.l_paren us refl (omega arith))
            (λ _ vs q.
              bind-Within m m _ _
                (inner-Within last ends inner n takes m vs (omega arith) (omega arith))
                (λ c ws r.
                  bind-Within m m _ _
                    (expect-below last ends inner n takes m TokKind.r_paren ws refl (omega arith))
                    (λ _ xs s.
                      bind-Within m m _ _
                        (inner-skip last ends inner n takes m xs (omega arith) (omega arith))
                        (λ body ys t. t)))))

  pub repeat-Within :
      (ts : List Token) → length ts ≤ n → Within (length ts) (parse_repeat last inner ts)
  unfolding parse_repeat Within kind_code
  repeat-Within ts l =
      let m = length ts in
      bind-Within m m _ _
        (expect-below last ends inner n takes m TokKind.kw_repeat ts refl (omega arith))
        (λ _ us p.
          bind-Within m m _ _ (inner-skip last ends inner n takes m us (omega arith) (omega arith))
            (λ body vs q. q))

  separator-Within :
      (m : ℕ) (ts : List Token) → length ts < m → Within m (block_separator last inner ts)
  unfolding block_separator Within error
  separator-Within m ts k = if-Within m (at_block_end last inner ts) (parsed tt ts) _ k (
      if-Within m (at_separator last inner ts) (parsed tt (skip_newlines ts)) _
        (omega (arith, skip_newlines_le ts)) tt)

  block_loop-Within :
      (m fuel : ℕ) (stmts : Asts) (ts : List Token)
      → length ts < fuel
      → length ts < n
      → length ts < m
      → Within m (block_loop last inner fuel stmts ts)
  unfolding block_loop Within
  block_loop-Within m zero stmts ts f l k = absurd (omega arith)
  block_loop-Within m (suc fuel) stmts ts f l k = elim (Bool-cases (at_block_end last inner ts)) [
    | inl e ↦ rw (block_loop, e) k
    | inr e ↦
        rw (block_loop, e)
          (bind-Within (length ts) m (inner ts) _
            (inner-Within last ends inner n takes (length ts) ts l (omega arith))
            (λ a us p.
              bind-Within (length ts) m (block_separator last inner us) _
                (separator-Within (length ts) us p)
                (λ _ vs q.
                  block_loop-Within m fuel (push stmts a) vs (omega arith) (omega arith)
                    (omega arith))))
  ]

  pub block-Within :
      (ts : List Token) → length ts ≤ n → Within (length ts) (parse_block last inner ts)
  unfolding parse_block Within kind_code
  block-Within ts l =
      let m = length ts in
      bind-Within m m _ _
        (expect-below last ends inner n takes m TokKind.l_brace ts refl (omega arith))
        (λ _ us p.
          bind-Within m m _ _
            (block_loop-Within m (suc (length us)) none_left (skip_newlines us)
              (omega (arith, skip_newlines_le us)) (omega (arith, skip_newlines_le us))
              (omega (arith, skip_newlines_le us)))
            (λ stmts vs q.
              bind-Within m m _ _
                (expect-below last ends inner n takes m TokKind.r_brace vs refl (omega arith))
                (λ _ ws r. r)))
