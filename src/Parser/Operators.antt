-- ===== src/Parser/Operators.antt =====
-- src/frontend/parser.cpp: primary expressions, and the levels of operators above them.
use r_sjit.Common.{ℕ, zero, suc, true, false, List, if◌then◌else◌, length, Option, none, some}
use r_sjit.Common.Int.{ℤ, pos, of_bits32, to_bits64}
use r_sjit.Value.{na_int}
use r_sjit.Lexer.Tokens.{TokKind, Token, Number, real_val, int_val, codes}
use r_sjit.Parser.Tree.{Ast, Asts, none_left, first}
use r_sjit.Parser.State.{
  Parsed, parsed, out_of_fuel, ParseReason, ◌▷◌, advance, peek, at, error, expect, skip_newlines,
}
use r_sjit.Parser.Forms.{
  parse_function, parse_if, parse_for, parse_while, parse_repeat, parse_block, parse_call_args,
  parse_index_args, is_name,
}

abbrev pub int_of : Number → ℤ
int_of (int_val z) = z
int_of (real_val _) = pos 0

abbrev pub real_of : Number → ℕ
real_of (real_val d) = d
real_of (int_val _) = 0

module _ (last : Token) (parse_expr : List Token → Parsed Ast) where
  -- An expression in parentheses that may be missing; `ts` is past the opening one.
  unfoldable pub parse_optional : List Token → Parsed (Option Ast)
  unfolding at expect skip_newlines
  parse_optional ts =
      (if at last TokKind.r_paren (skip_newlines ts)
        then parsed none (skip_newlines ts)
        else (parse_expr (skip_newlines ts) ▷ λ v us. parsed (some v) us))
      ▷ λ v us. expect last TokKind.r_paren us ▷ λ _ vs. parsed v vs

  abbrev pub return_of : Option Ast → Ast
  return_of none = Ast.return_null
  return_of (some v) = Ast.return_value v

  abbrev pub args_of : Option Ast → Asts
  args_of none = none_left
  args_of (some v) = first v none_left

  -- `return`, `quote` and `missing`, from the token after the keyword.
  unfoldable pub parse_return : List Token → Parsed Ast
  unfolding at advance parse_optional
  parse_return ts =
      if at last TokKind.l_paren ts
      then (parse_optional (advance ts) ▷ λ v us. parsed (return_of v) us)
      else parsed Ast.return_null ts

  unfoldable pub parse_quote : List Token → Parsed Ast
  unfolding at advance parse_optional
  parse_quote ts =
      if at last TokKind.l_paren ts
      then (parse_optional (advance ts) ▷ λ v us.
          parsed (Ast.call (Ast.symbol (codes "quote")) (args_of v)) us)
      else parsed (Ast.symbol (codes "quote")) ts

  unfoldable pub parse_missing : List Token → Parsed Ast
  unfolding at advance parse_optional
  parse_missing ts =
      if at last TokKind.l_paren ts
      then (parse_optional (advance ts) ▷ λ v us.
          parsed (Ast.call (Ast.symbol (codes "missing")) (args_of v)) us)
      else parsed (Ast.call (Ast.symbol (codes "missing")) none_left) ts

  unfoldable pub parse_paren : List Token → Parsed Ast
  unfolding expect
  parse_paren ts =
      parse_expr ts ▷ λ e us. expect last TokKind.r_paren us ▷ λ _ vs. parsed (Ast.paren e) vs

  -- The switch of `parse_primary`, on the kind of the token `t`, the first of `ts`.
  unfoldable pub primary_at : TokKind → Token → List Token → Parsed Ast
  unfolding advance parse_function parse_if parse_for parse_while parse_repeat parse_block
      parse_return parse_quote parse_missing parse_paren error
  primary_at TokKind.real t ts = parsed (Ast.real (real_of t.number)) (advance ts)
  primary_at TokKind.integer t ts =
      parsed (Ast.integer (of_bits32 (to_bits64 (int_of t.number)))) (advance ts)
  primary_at TokKind.string t ts = parsed (Ast.string t.text) (advance ts)
  primary_at TokKind.ident t ts = parsed (Ast.symbol t.text) (advance ts)
  primary_at TokKind.backtick_ident t ts = parsed (Ast.symbol t.text) (advance ts)
  primary_at TokKind.kw_null t ts = parsed Ast.nil (advance ts)
  primary_at TokKind.kw_true t ts = parsed (Ast.logical (pos 1)) (advance ts)
  primary_at TokKind.kw_false t ts = parsed (Ast.logical (pos 0)) (advance ts)
  primary_at TokKind.kw_na t ts = parsed (Ast.integer na_int) (advance ts)
  primary_at TokKind.kw_na_int t ts = parsed (Ast.integer na_int) (advance ts)
  primary_at TokKind.kw_na_real t ts = parsed (Ast.integer na_int) (advance ts)
  primary_at TokKind.kw_na_string t ts = parsed (Ast.integer na_int) (advance ts)
  primary_at TokKind.kw_inf t ts = parsed (Ast.real 9218868437227405312) (advance ts)
  primary_at TokKind.kw_nan t ts = parsed (Ast.real 9221120237041090560) (advance ts)
  primary_at TokKind.kw_function t ts = parse_function last parse_expr ts
  primary_at TokKind.kw_if t ts = parse_if last parse_expr ts
  primary_at TokKind.kw_for t ts = parse_for last parse_expr ts
  primary_at TokKind.kw_while t ts = parse_while last parse_expr ts
  primary_at TokKind.kw_repeat t ts = parse_repeat last parse_expr ts
  primary_at TokKind.kw_break t ts = parsed Ast.break_ast (advance ts)
  primary_at TokKind.kw_next t ts = parsed Ast.next_ast (advance ts)
  primary_at TokKind.kw_return t ts = parse_return (advance ts)
  primary_at TokKind.kw_quote t ts = parse_quote (advance ts)
  primary_at TokKind.kw_missing t ts = parse_missing (advance ts)
  primary_at TokKind.l_paren t ts = parse_paren (advance ts)
  primary_at TokKind.l_brace t ts = parse_block last parse_expr ts
  primary_at k t ts = error last (ParseReason.unexpected_token k) ts

  unfoldable pub parse_primary : List Token → Parsed Ast
  unfolding primary_at peek
  parse_primary ts = primary_at (peek last 0 ts).kind (peek last 0 ts) ts

  -- The name after `$` or `@`, which the token before it has been taken of.
  unfoldable pub parse_member : ParseReason → (List ℕ → Ast) → List Token → Parsed Ast
  unfolding is_name peek advance error
  parse_member reason make ts =
      if is_name last parse_expr ts
      then parsed (make (peek last 0 ts).text) (advance ts)
      else error last reason ts

  -- One round of the loop of `parse_postfix`; nothing when it ends.
  unfoldable pub postfix_step : TokKind → Ast → List Token → Option (Parsed Ast)
  unfolding parse_call_args parse_index_args parse_member advance
  postfix_step TokKind.l_paren base ts = some (parse_call_args last parse_expr base ts)
  postfix_step TokKind.l_bracket base ts = some (parse_index_args last parse_expr base false ts)
  postfix_step TokKind.double_l_bracket base ts =
      some (parse_index_args last parse_expr base true ts)
  postfix_step TokKind.dollar base ts =
      some (parse_member ParseReason.after_dollar (Ast.dollar base) (advance ts))
  postfix_step TokKind.at base ts =
      some (parse_member ParseReason.after_at (Ast.slot base) (advance ts))
  postfix_step _ base ts = none

  unfoldable pub postfix_loop : ℕ → Ast → List Token → Parsed Ast
  unfolding postfix_step peek
  postfix_loop zero base ts = out_of_fuel
  postfix_loop (suc fuel) base ts = elim (postfix_step (peek last 0 ts).kind base ts) [
    | none ↦ parsed base ts
    | some r ↦ r ▷ λ b us. postfix_loop fuel b us
  ]

  unfoldable pub parse_postfix : List Token → Parsed Ast
  unfolding parse_primary postfix_loop
  parse_postfix ts = parse_primary ts ▷ λ base us. postfix_loop (suc (length us)) base us

  -- The prefix operators of a level: what the operator makes, on the kind of its token.
  unfoldable pub prefix_loop :
      (TokKind → Option (Ast → Ast)) → (List Token → Parsed Ast) → ℕ → List Token → Parsed Ast
  unfolding peek advance
  prefix_loop op sub zero ts = out_of_fuel
  prefix_loop op sub (suc fuel) ts = elim (op (peek last 0 ts).kind) [
    | none ↦ sub ts
    | some make ↦ prefix_loop op sub fuel (advance ts) ▷ λ a us. parsed (make a) us
  ]

  -- The loop of a left-associative level: the name of the operator, on the kind of its token.
  unfoldable pub binary_loop :
      (TokKind → Option (List ℕ)) → (List Token → Parsed Ast) → ℕ → Ast → List Token → Parsed Ast
  unfolding peek advance
  binary_loop op sub zero lhs ts = out_of_fuel
  binary_loop op sub (suc fuel) lhs ts = elim (op (peek last 0 ts).kind) [
    | none ↦ parsed lhs ts
    | some name ↦ sub (advance ts) ▷ λ rhs us. binary_loop op sub fuel (Ast.bin_op name lhs rhs) us
  ]

  unfoldable pub binary_level :
      (TokKind → Option (List ℕ)) → (List Token → Parsed Ast) → List Token → Parsed Ast
  unfolding binary_loop
  binary_level op sub ts = sub ts ▷ λ lhs us. binary_loop op sub (suc (length us)) lhs us

  -- A right-associative level: what the operator makes of its two sides.
  unfoldable pub right_loop :
      (TokKind → Option (Ast → Ast → Ast)) → (List Token → Parsed Ast) → ℕ → List Token → Parsed Ast
  unfolding peek advance
  right_loop op sub zero ts = out_of_fuel
  right_loop op sub (suc fuel) ts = sub ts ▷ λ lhs us. elim (op (peek last 0 us).kind) [
    | none ↦ parsed lhs us
    | some make ↦ right_loop op sub fuel (advance us) ▷ λ rhs vs. parsed (make lhs rhs) vs
  ]

unfoldable pub unary_op : TokKind → Option (Ast → Ast)
unary_op TokKind.minus = some (λ a. Ast.unary_op (codes "-") a)
unary_op TokKind.plus = some (λ a. a)
unary_op _ = none

unfoldable pub power_op : TokKind → Option (Ast → Ast → Ast)
power_op TokKind.caret = some (λ a b. Ast.bin_op (codes "^") a b)
power_op _ = none

unfoldable pub multiplicative_op : TokKind → Option (List ℕ)
multiplicative_op TokKind.star = some (codes "*")
multiplicative_op TokKind.slash = some (codes "/")
multiplicative_op _ = none

unfoldable pub additive_op : TokKind → Option (List ℕ)
additive_op TokKind.plus = some (codes "+")
additive_op TokKind.minus = some (codes "-")
additive_op _ = none

unfoldable pub range_op : TokKind → Option (List ℕ)
range_op TokKind.colon = some (codes ":")
range_op _ = none

unfoldable pub comparison_op : TokKind → Option (List ℕ)
comparison_op TokKind.eq = some (codes "==")
comparison_op TokKind.ne = some (codes "!=")
comparison_op TokKind.lt = some (codes "<")
comparison_op TokKind.gt = some (codes ">")
comparison_op TokKind.le = some (codes "<=")
comparison_op TokKind.ge = some (codes ">=")
comparison_op _ = none

unfoldable pub not_op : TokKind → Option (Ast → Ast)
not_op TokKind.not_kind = some (λ a. Ast.unary_op (codes "!") a)
not_op _ = none

unfoldable pub and_op : TokKind → Option (List ℕ)
and_op TokKind.and_kind = some (codes "&&")
and_op TokKind.amd_amp = some (codes "&")
and_op _ = none

unfoldable pub or_op : TokKind → Option (List ℕ)
or_op TokKind.or_kind = some (codes "||")
or_op TokKind.pipe_pipe = some (codes "|")
or_op _ = none

unfoldable pub tilde_op : TokKind → Option (Ast → Ast)
tilde_op TokKind.tilde = some (λ a. Ast.unary_op (codes "~") a)
tilde_op _ = none

-- An arrow to the right swaps its sides.
unfoldable pub assign_op : TokKind → Option (Ast → Ast → Ast)
assign_op TokKind.assign = some (λ a b. Ast.assign a b false)
assign_op TokKind.super_assign = some (λ a b. Ast.assign a b true)
assign_op TokKind.equal = some (λ a b. Ast.assign a b false)
assign_op TokKind.right_assign = some (λ a b. Ast.assign b a false)
assign_op TokKind.right_super_assign = some (λ a b. Ast.assign b a true)
assign_op _ = none
