-- ===== src/Parser/Forms.antt =====
-- src/frontend/parser.cpp: calls, indexing, functions and statements, for any expression parser.
use r_sjit.Common.{ℕ, zero, suc, Bool, true, false, ◌||◌, ◌&&◌, not, List, if◌then◌else◌, length}
use r_sjit.Lexer.Tokens.{TokKind, Token}
use r_sjit.Parser.Tree.{
  Ast, Asts, none_left, Params, no_params, push, push_required, push_defaulted,
}
use r_sjit.Parser.State.{
  Parsed, parsed, out_of_fuel, ParseReason, ◌▷◌, advance, peek, at, error, expect, skip_newlines,
  skip_newlines_only,
}

module _ (last : Token) (parse_expr : List Token → Parsed Ast) where
  -- A named argument: the name, a token that is not looked at, and the value.
  unfoldable pub parse_named_arg : List Token → Parsed Ast
  unfolding peek advance skip_newlines
  parse_named_arg ts = parse_expr (skip_newlines (advance (advance ts))) ▷ λ v us.
      parsed (Ast.named_arg (peek last 0 ts).text v) us

  unfoldable pub is_named : List Token → Bool
  unfolding peek at
  is_named ts =
      (at last TokKind.ident ts && at last TokKind.equal (advance ts))
      || at last TokKind.backtick_ident ts
      || (at last TokKind.string ts && at last TokKind.equal (advance ts))

  unfoldable pub parse_arg : List Token → Parsed Ast
  unfolding is_named parse_named_arg at
  parse_arg ts =
      if is_named ts
      then parse_named_arg ts
      else if at last TokKind.comma ts || at last TokKind.r_paren ts
      then parsed Ast.missing_arg ts
      else parse_expr ts

  unfoldable pub parse_index_arg : TokKind → List Token → Parsed Ast
  unfolding at
  parse_index_arg close ts =
      if at last TokKind.comma ts || at last close ts
      then parsed Ast.missing_arg ts
      else parse_expr ts

  -- The arguments between commas; the fuel is the number of the tokens.
  unfoldable pub arg_loop : (List Token → Parsed Ast) → ℕ → Asts → List Token → Parsed Asts
  unfolding at advance skip_newlines push
  arg_loop arg zero args ts = out_of_fuel
  arg_loop arg (suc fuel) args ts = arg (skip_newlines ts) ▷ λ a us.
      elim (at last TokKind.comma (skip_newlines us)) [
        | true ↦ arg_loop arg fuel (push args a) (advance (skip_newlines us))
        | false ↦ parsed (push args a) (skip_newlines us)
      ]

  -- No argument before the closing token, or the loop.
  unfoldable pub parse_args : (List Token → Parsed Ast) → TokKind → List Token → Parsed Asts
  unfolding at arg_loop
  parse_args arg close ts =
      if at last close ts then parsed none_left ts else arg_loop arg (suc (length ts)) none_left ts

  unfoldable pub parse_call_args : Ast → List Token → Parsed Ast
  unfolding expect parse_args parse_arg skip_newlines
  parse_call_args callee ts = expect last TokKind.l_paren ts ▷ λ _ us.
      parse_args parse_arg TokKind.r_paren (skip_newlines us) ▷ λ args vs.
      expect last TokKind.r_paren vs ▷ λ _ ws. parsed (Ast.call callee args) ws

  unfoldable pub closing : Bool → TokKind
  closing true = TokKind.double_r_bracket
  closing false = TokKind.r_bracket

  unfoldable pub parse_index_args : Ast → Bool → List Token → Parsed Ast
  unfolding advance parse_args parse_index_arg closing expect skip_newlines
  parse_index_args base dbl ts =
      parse_args (parse_index_arg (closing dbl)) (closing dbl) (skip_newlines (advance ts))
      ▷ λ args us. expect last (closing dbl) us ▷ λ _ vs. parsed (Ast.index base args dbl) vs

  unfoldable pub is_name : List Token → Bool
  unfolding at
  is_name ts =
      at last TokKind.ident ts || at last TokKind.backtick_ident ts || at last TokKind.string ts

  -- A parameter with its default value, onto the parameters so far.
  unfoldable pub parse_param : Params → List Token → Parsed Params
  unfolding is_name error peek at advance push_required push_defaulted
  parse_param ps ts =
      if not (is_name ts)
      then error last ParseReason.parameter_name ts
      else if at last TokKind.equal (advance ts)
      then (parse_expr (advance (advance ts)) ▷ λ d us.
          parsed (push_defaulted ps (peek last 0 ts).text d) us)
      else parsed (push_required ps (peek last 0 ts).text) (advance ts)

  unfoldable pub param_loop : ℕ → Params → List Token → Parsed Params
  unfolding at advance skip_newlines parse_param
  param_loop zero ps ts = out_of_fuel
  param_loop (suc fuel) ps ts = parse_param ps (skip_newlines ts) ▷ λ more us.
      elim (at last TokKind.comma (skip_newlines us)) [
        | true ↦ param_loop fuel more (advance (skip_newlines us))
        | false ↦ parsed more (skip_newlines us)
      ]

  unfoldable pub parse_params : List Token → Parsed Params
  unfolding at param_loop
  parse_params ts =
      if at last TokKind.r_paren ts
      then parsed no_params ts
      else param_loop (suc (length ts)) no_params ts

  unfoldable pub parse_function : List Token → Parsed Ast
  unfolding expect parse_params skip_newlines
  parse_function ts = expect last TokKind.kw_function ts ▷ λ _ us.
      expect last TokKind.l_paren us ▷ λ _ vs. parse_params (skip_newlines vs) ▷ λ ps ws.
      expect last TokKind.r_paren ws ▷ λ _ xs.
      parse_expr (skip_newlines xs) ▷ λ body ys. parsed (Ast.function_ast ps body) ys

  -- `else`, which may stand on a later line.
  unfoldable pub parse_else : Ast → Ast → List Token → Parsed Ast
  unfolding at skip_newlines_only skip_newlines advance
  parse_else c then_b ts =
      if at last TokKind.kw_else (skip_newlines_only ts)
      then (parse_expr (skip_newlines (advance (skip_newlines_only ts))) ▷ λ else_b us.
          parsed (Ast.if_else c then_b else_b) us)
      else parsed (Ast.if_then c then_b) ts

  unfoldable pub parse_if : List Token → Parsed Ast
  unfolding expect parse_else skip_newlines
  parse_if ts = expect last TokKind.kw_if ts ▷ λ _ us. expect last TokKind.l_paren us ▷ λ _ vs.
      parse_expr vs ▷ λ c ws. expect last TokKind.r_paren ws ▷ λ _ xs.
      parse_expr (skip_newlines xs) ▷ λ then_b ys. parse_else c then_b ys

  unfoldable pub for_var : List Token → Parsed (List ℕ)
  unfolding at error peek advance
  for_var ts =
      if at last TokKind.ident ts
      then parsed (peek last 0 ts).text (advance ts)
      else error last ParseReason.for_variable ts

  unfoldable pub parse_for : List Token → Parsed Ast
  unfolding expect for_var skip_newlines
  parse_for ts = expect last TokKind.kw_for ts ▷ λ _ us. expect last TokKind.l_paren us ▷ λ _ vs.
      for_var vs ▷ λ var ws. expect last TokKind.kw_in ws ▷ λ _ xs. parse_expr xs ▷ λ seq ys.
      expect last TokKind.r_paren ys ▷ λ _ zs.
      parse_expr (skip_newlines zs) ▷ λ body rest. parsed (Ast.for_ast var seq body) rest

  unfoldable pub parse_while : List Token → Parsed Ast
  unfolding expect skip_newlines
  parse_while ts = expect last TokKind.kw_while ts ▷ λ _ us.
      expect last TokKind.l_paren us ▷ λ _ vs. parse_expr vs ▷ λ c ws.
      expect last TokKind.r_paren ws ▷ λ _ xs.
      parse_expr (skip_newlines xs) ▷ λ body ys. parsed (Ast.while_ast c body) ys

  unfoldable pub parse_repeat : List Token → Parsed Ast
  unfolding expect skip_newlines
  parse_repeat ts = expect last TokKind.kw_repeat ts ▷ λ _ us.
      parse_expr (skip_newlines us) ▷ λ body vs. parsed (Ast.repeat_ast body) vs

  unfoldable pub at_block_end : List Token → Bool
  unfolding at
  at_block_end ts = at last TokKind.r_brace ts || at last TokKind.eof ts

  unfoldable pub at_separator : List Token → Bool
  unfolding at
  at_separator ts = at last TokKind.newline ts || at last TokKind.semicolon ts

  -- What follows a statement in a block.
  unfoldable pub block_separator : List Token → Parsed Unit
  unfolding at_block_end at_separator skip_newlines error
  block_separator ts =
      if at_block_end ts
      then parsed tt ts
      else if at_separator ts
      then parsed tt (skip_newlines ts)
      else error last ParseReason.block_separator ts

  unfoldable pub block_loop : ℕ → Asts → List Token → Parsed Asts
  unfolding at_block_end block_separator push
  block_loop zero stmts ts = out_of_fuel
  block_loop (suc fuel) stmts ts = elim (at_block_end ts) [
    | true ↦ parsed stmts ts
    | false ↦ parse_expr ts ▷ λ a us. block_separator us ▷ λ _ vs. block_loop fuel (push stmts a) vs
  ]

  unfoldable pub parse_block : List Token → Parsed Ast
  unfolding expect block_loop skip_newlines
  parse_block ts = expect last TokKind.l_brace ts ▷ λ _ us.
      block_loop (suc (length us)) none_left (skip_newlines us) ▷ λ stmts vs.
      expect last TokKind.r_brace vs ▷ λ _ ws. parsed (Ast.block stmts) ws
