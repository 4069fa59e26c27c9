-- ===== src/Parser/Progress.antt =====
-- src/frontend/parser.cpp: an inner parser, below a bound.
pub mod Calls
pub mod Functions
pub mod Statements
use r_sjit.Common.{
  ℕ, zero, suc, ◌<◌, ◌≤◌, ◌≡◌, refl, Bool, true, false, not, ◌==◌, List, length, arith, Bool-cases,
  inl, inr,
}
use r_sjit.Lexer.Tokens.{TokKind, Token, kind_code}
use r_sjit.Parser.Tree.{Ast, Asts, none_left, Params, no_params, push, push_required}
use r_sjit.Parser.State.{
  Parsed, parsed, advance, peek, at, error, expect, skip_newlines, skip_newlines_only,
}
use r_sjit.Parser.Forms.{
  parse_named_arg, is_named, parse_arg, parse_index_arg, arg_loop, parse_args, parse_call_args,
  closing, parse_index_args, is_name, parse_param, param_loop, parse_params, parse_function,
  parse_else, parse_if, for_var, parse_for, parse_while, parse_repeat, at_block_end, at_separator,
  block_separator, block_loop, parse_block,
}
use r_sjit.Parser.Within.{
  Within, Within-le, bind-Within, if-Within, length-advance_le, skip_newlines_le,
  skip_newlines_only_le, at-advance, expect-Within, Takes,
}

module _ (last : Token) (ends : kind_code last.kind ≡ 0) (inner : List Token → Parsed Ast) (n : ℕ)
    (takes : Takes n inner) where
  -- The inner parser below a bound, and after newlines.
  pub inner-Within : (m : ℕ) (ts : List Token) → length ts < n → length ts ≤ m → Within m (inner ts)
  unfolding Takes
  inner-Within m ts l k = Within-le (length ts) m (inner ts) k (takes ts l)

  pub inner-skip :
      (m : ℕ) (ts : List Token)
      → length ts < n
      → length ts ≤ m
      → Within m (inner (skip_newlines ts))
  inner-skip m ts l k =
      inner-Within m (skip_newlines ts) (omega (arith, skip_newlines_le ts))
        (omega (arith, skip_newlines_le ts))

  pub expect-below :
      (m : ℕ) (k : TokKind) (ts : List Token)
      → (kind_code k == 0) ≡ false
      → length ts ≤ m
      → Within m (expect last k ts)
  expect-below m k ts h l = Within-le (length ts) m _ l (expect-Within last ends k ts h)
