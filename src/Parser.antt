-- ===== src/Parser.antt =====
-- src/frontend/parser.cpp, include/rjit/frontend/parser.hpp: the tokens into a syntax tree.
--
-- Expressions nest by fuel: each level is a function of the parser for the expressions inside it.
pub mod Tree
pub mod State
pub mod Forms
pub mod Operators
pub mod Primary
pub mod Levels
pub mod Chains
pub mod Products
mod Tests
pub mod Sums
pub mod Programs
pub mod Progress
pub mod Within
use r_sjit.Common.{ℕ, zero, suc, Bool, true, false, ◌||◌, List, [], ◌∷◌, if◌then◌else◌, length}
use r_sjit.Lexer.Tokens.{TokKind, Token}
use r_sjit.Parser.Tree.{Ast, Asts, none_left, push}
use r_sjit.Parser.State.{
  Parsed, parsed, out_of_fuel, ParseReason, ◌▷◌, peek, at, error, skip_newlines,
}
use r_sjit.Parser.Forms.{at_separator}
use r_sjit.Parser.Operators.{
  parse_postfix, prefix_loop, binary_level, right_loop, unary_op, power_op, multiplicative_op,
  additive_op, range_op, comparison_op, not_op, and_op, or_op, tilde_op, assign_op,
}

module _ (last : Token) (inner : List Token → Parsed Ast) where
  unfoldable pub parse_unary : List Token → Parsed Ast
  unfolding prefix_loop unary_op parse_postfix
  parse_unary ts = prefix_loop last inner unary_op (parse_postfix last inner) (suc (length ts)) ts

  unfoldable pub parse_power : List Token → Parsed Ast
  unfolding right_loop power_op parse_unary
  parse_power ts = right_loop last inner power_op parse_unary (suc (length ts)) ts

  unfoldable pub parse_multiplicative : List Token → Parsed Ast
  unfolding binary_level multiplicative_op parse_power
  parse_multiplicative ts = binary_level last inner multiplicative_op parse_power ts

  unfoldable pub parse_additive : List Token → Parsed Ast
  unfolding binary_level additive_op parse_multiplicative
  parse_additive ts = binary_level last inner additive_op parse_multiplicative ts

  unfoldable pub parse_range : List Token → Parsed Ast
  unfolding binary_level range_op parse_additive
  parse_range ts = binary_level last inner range_op parse_additive ts

  unfoldable pub parse_comparison : List Token → Parsed Ast
  unfolding binary_level comparison_op parse_range
  parse_comparison ts = binary_level last inner comparison_op parse_range ts

  unfoldable pub parse_not : List Token → Parsed Ast
  unfolding prefix_loop not_op parse_comparison
  parse_not ts = prefix_loop last inner not_op parse_comparison (suc (length ts)) ts

  unfoldable pub parse_and : List Token → Parsed Ast
  unfolding binary_level and_op parse_not
  parse_and ts = binary_level last inner and_op parse_not ts

  unfoldable pub parse_or : List Token → Parsed Ast
  unfolding binary_level or_op parse_and
  parse_or ts = binary_level last inner or_op parse_and ts

  unfoldable pub parse_tilde : List Token → Parsed Ast
  unfolding prefix_loop tilde_op parse_or
  parse_tilde ts = prefix_loop last inner tilde_op parse_or (suc (length ts)) ts

  unfoldable pub parse_assign : List Token → Parsed Ast
  unfolding right_loop assign_op parse_tilde
  parse_assign ts = right_loop last inner assign_op parse_tilde (suc (length ts)) ts

module _ (last : Token) where
  unfoldable pub parse_expr : ℕ → List Token → Parsed Ast
  unfolding parse_assign
  parse_expr zero ts = out_of_fuel
  parse_expr (suc fuel) ts = parse_assign last (parse_expr fuel) ts

  -- What follows a statement of the program.
  unfoldable pub separator : List Token → Parsed Unit
  unfolding at skip_newlines error peek
  separator ts =
      if at last TokKind.eof ts || at last TokKind.r_brace ts
      then parsed tt ts
      else if at last TokKind.newline ts || at last TokKind.semicolon ts
      then parsed tt (skip_newlines ts)
      else error last (ParseReason.statement_separator (peek last 0 ts).kind) ts

  unfoldable pub program_loop : ℕ → Asts → List Token → Parsed Asts
  unfolding at parse_expr separator push
  program_loop zero stmts ts = out_of_fuel
  program_loop (suc fuel) stmts ts = elim (at last TokKind.eof ts) [
    | true ↦ parsed stmts ts
    | false ↦ parse_expr (suc (length ts)) ts ▷ λ a us.
        separator us ▷ λ _ vs. program_loop fuel (push stmts a) vs
  ]

  unfoldable pub parse_program : List Token → Parsed Ast
  unfolding program_loop skip_newlines
  parse_program ts = program_loop (suc (length ts)) none_left (skip_newlines ts) ▷ λ stmts us.
      parsed (Ast.block stmts) us
