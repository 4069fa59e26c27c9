-- ===== src/Parser/Programs.antt =====
-- src/frontend/parser.cpp: expressions and programs end, and a program is read to its end.
use r_sjit.Common.{
  ℕ, zero, suc, ◌<◌, ◌≡◌, ◌≢◌, refl, subst, ◌||◌, List, length, arith, Bool-cases, inl, inr,
}
use r_sjit.Lexer.Tokens.{TokKind, Token, kind_code}
use r_sjit.Parser.{
  parse_unary, parse_power, parse_multiplicative, parse_additive, parse_range, parse_comparison,
  parse_not, parse_and, parse_or, parse_tilde, parse_assign, parse_expr, separator, program_loop,
  parse_program,
}
use r_sjit.Parser.Tree.{Ast, Asts, none_left, push}
use r_sjit.Parser.State.{Parsed, parsed, out_of_fuel, at, error, skip_newlines}
use r_sjit.Parser.Operators.{
  parse_postfix, unary_op, power_op, multiplicative_op, additive_op, range_op, comparison_op,
  not_op, and_op, or_op, tilde_op, assign_op,
}
use r_sjit.Parser.Within.{Within, bind-Within, if-Within, skip_newlines_le, Takes}
use r_sjit.Parser.Primary.{postfix-Within}
use r_sjit.Parser.Levels.{prefix_loop-Within, binary_level-Within, right_loop-Within}

module _ (last : Token) (ends : kind_code last.kind ≡ 0) where
  module _ (inner : List Token → Parsed Ast) (n : ℕ) (takes : Takes n inner) where
    postfix-Takes : Takes (suc n) (parse_postfix last inner)
    unfolding Takes
    postfix-Takes ts l = postfix-Within last ends inner n takes ts (omega arith)

    unary-Takes : Takes (suc n) (parse_unary last inner)
    unfolding Takes parse_unary unary_op
    unary-Takes ts l =
        prefix_loop-Within last ends inner n takes (parse_postfix last inner) postfix-Takes unary_op
          (suc (length ts)) ts refl (omega arith) (omega arith)

    power-Takes : Takes (suc n) (parse_power last inner)
    unfolding Takes parse_power power_op
    power-Takes ts l =
        right_loop-Within last ends inner n takes (parse_unary last inner) unary-Takes power_op
          (suc (length ts)) ts refl (omega arith) (omega arith)

    multiplicative-Takes : Takes (suc n) (parse_multiplicative last inner)
    unfolding Takes parse_multiplicative multiplicative_op
    multiplicative-Takes ts l =
        binary_level-Within last ends inner n takes (parse_power last inner) power-Takes
          multiplicative_op ts refl (omega arith)

    additive-Takes : Takes (suc n) (parse_additive last inner)
    unfolding Takes parse_additive additive_op
    additive-Takes ts l =
        binary_level-Within last ends inner n takes (parse_multiplicative last inner)
          multiplicative-Takes additive_op ts refl (omega arith)

    range-Takes : Takes (suc n) (parse_range last inner)
    unfolding Takes parse_range range_op
    range-Takes ts l =
        binary_level-Within last ends inner n takes (parse_additive last inner) additive-Takes
          range_op ts refl (omega arith)

    comparison-Takes : Takes (suc n) (parse_comparison last inner)
    unfolding Takes parse_comparison comparison_op
    comparison-Takes ts l =
        binary_level-Within last ends inner n takes (parse_range last inner) range-Takes
          comparison_op ts refl (omega arith)

    not-Takes : Takes (suc n) (parse_not last inner)
    unfolding Takes parse_not not_op
    not-Takes ts l =
        prefix_loop-Within last ends inner n takes (parse_comparison last inner) comparison-Takes
          not_op (suc (length ts)) ts refl (omega arith) (omega arith)

    and-Takes : Takes (suc n) (parse_and last inner)
    unfolding Takes parse_and and_op
    and-Takes ts l =
        binary_level-Within last ends inner n takes (parse_not last inner) not-Takes and_op ts refl
          (omega arith)

    or-Takes : Takes (suc n) (parse_or last inner)
    unfolding Takes parse_or or_op
    or-Takes ts l =
        binary_level-Within last ends inner n takes (parse_and last inner) and-Takes or_op ts refl
          (omega arith)

    tilde-Takes : Takes (suc n) (parse_tilde last inner)
    unfolding Takes parse_tilde tilde_op
    tilde-Takes ts l =
        prefix_loop-Within last ends inner n takes (parse_or last inner) or-Takes tilde_op
          (suc (length ts)) ts refl (omega arith) (omega arith)

    assign-Takes : Takes (suc n) (parse_assign last inner)
    unfolding Takes parse_assign assign_op
    assign-Takes ts l =
        right_loop-Within last ends inner n takes (parse_tilde last inner) tilde-Takes assign_op
          (suc (length ts)) ts refl (omega arith) (omega arith)

  -- With fuel above the number of tokens, an expression ends and takes a token.
  pub parse_expr-Takes : (fuel : ℕ) → Takes fuel (parse_expr last fuel)
  unfolding parse_expr Takes
  parse_expr-Takes zero ts l = absurd (omega arith)
  parse_expr-Takes (suc fuel) ts l =
      assign-Takes (parse_expr last fuel) fuel (parse_expr-Takes fuel) ts l

  separator-Within : (m : ℕ) (ts : List Token) → length ts < m → Within m (separator last ts)
  unfolding separator Within error
  separator-Within m ts k =
      if-Within m (at last TokKind.eof ts || at last TokKind.r_brace ts) (parsed tt ts) _ k (
        if-Within m (at last TokKind.newline ts || at last TokKind.semicolon ts)
          (parsed tt (skip_newlines ts)) _ (omega (arith, skip_newlines_le ts)) tt)

  program_loop-Within :
      (m fuel : ℕ) (stmts : Asts) (ts : List Token)
      → length ts < fuel
      → length ts < m
      → Within m (program_loop last fuel stmts ts)
  unfolding program_loop Within Takes
  program_loop-Within m zero stmts ts f k = absurd (omega arith)
  program_loop-Within m (suc fuel) stmts ts f k = elim (Bool-cases (at last TokKind.eof ts)) [
    | inl e ↦ rw (program_loop, e) k
    | inr e ↦
        rw (program_loop, e)
          (bind-Within (length ts) m (parse_expr last (suc (length ts)) ts) _
            (parse_expr-Takes (suc (length ts)) ts (omega arith))
            (λ a us p.
              bind-Within (length ts) m (separator last us) _ (separator-Within (length ts) us p)
                (λ _ vs q.
                  program_loop-Within m fuel (push stmts a) vs (omega arith) (omega arith))))
  ]

  pub parse_program-Within : (ts : List Token) → Within (suc (length ts)) (parse_program last ts)
  unfolding parse_program Within
  parse_program-Within ts =
      let m = suc (length ts) in
      bind-Within m m _ _
        (program_loop-Within m m none_left (skip_newlines ts) (omega (arith, skip_newlines_le ts))
          (omega (arith, skip_newlines_le ts)))
        (λ stmts us p. p)

  -- A program ends when the last token is the end token.
  pub parse_program-terminates : (ts : List Token) → parse_program last ts ≢ out_of_fuel
  unfolding Within
  parse_program-terminates ts e = subst (Within (suc (length ts))) e (parse_program-Within ts)
