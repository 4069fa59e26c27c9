-- ===== src/Parser/Primary.antt =====
-- src/frontend/parser.cpp: primary expressions and postfix operators end, and take a token.
use r_sjit.Common.{
  ℕ, zero, suc, ◌<◌, ◌≤◌, ◌≡◌, refl, subst, true, false, List, if◌then◌else◌, length, arith,
  Option-cases, inl, inr, Option, none, some, ◌==◌,
}
use r_sjit.Lexer.Tokens.{TokKind, Token, kind_code, codes}
use r_sjit.Parser.Tree.{Ast, none_left}
use r_sjit.Parser.State.{Parsed, parsed, ParseReason, ◌▷◌, advance, peek, at, error, skip_newlines}
use r_sjit.Parser.Forms.{is_name}
use r_sjit.Parser.Operators.{
  parse_optional, return_of, args_of, parse_return, parse_quote, parse_missing, parse_paren,
  primary_at, parse_primary, parse_member, postfix_step, postfix_loop, parse_postfix,
}
use r_sjit.Parser.Within.{
  Within, bind-Within, if-Within, length-advance_le, skip_newlines_le, not_zero, peek-advance,
  Takes,
}
use r_sjit.Parser.Progress.{inner-Within, inner-skip, expect-below}
use r_sjit.Parser.Progress.Calls.{call_args-Within, index_args-Within}
use r_sjit.Parser.Progress.Functions.{function-Within}
use r_sjit.Parser.Progress.Statements.{
  if_ast-Within, for-Within, while-Within, repeat-Within, block-Within,
}

module _ (last : Token) (ends : kind_code last.kind ≡ 0) (inner : List Token → Parsed Ast) (n : ℕ)
    (takes : Takes n inner) where
  optional-Within :
      (m : ℕ) (ts : List Token)
      → length ts < n
      → length ts < m
      → Within m (parse_optional last inner ts)
  unfolding parse_optional Within kind_code
  optional-Within m ts l k =
      let le = skip_newlines_le ts in
      bind-Within m m _ _
        (if-Within m (at last TokKind.r_paren (skip_newlines ts)) (parsed none (skip_newlines ts)) _
          (omega (arith, le))
          (bind-Within m m _ _ (inner-skip last ends inner n takes m ts l (omega arith))
            (λ v us p. p)))
        (λ v us p.
          bind-Within m m _ _
            (expect-below last ends inner n takes m TokKind.r_paren us refl (omega arith))
            (λ _ vs q. q))

  -- An optional expression after an opening parenthesis, or nothing.
  after_keyword :
      (m : ℕ) (f : Option Ast → Ast) (other : Ast) (ts : List Token)
      → length ts < n
      → length ts < m
      → Within m (
          if at last TokKind.l_paren ts
          then (parse_optional last inner (advance ts) ▷ λ v us. parsed (f v) us)
          else parsed other ts)
  unfolding Within
  after_keyword m f other ts l k =
      if-Within m (at last TokKind.l_paren ts) _ (parsed other ts)
        (bind-Within m m _ _
          (optional-Within m (advance ts) (omega (arith, length-advance_le ts))
            (omega (arith, length-advance_le ts)))
          (λ v us p. p))
        k

  return-Within :
      (m : ℕ) (ts : List Token)
      → length ts < n
      → length ts < m
      → Within m (parse_return last inner ts)
  unfolding parse_return
  return-Within m ts l k = after_keyword m (return_of last inner) Ast.return_null ts l k

  quote-Within :
      (m : ℕ) (ts : List Token)
      → length ts < n
      → length ts < m
      → Within m (parse_quote last inner ts)
  unfolding parse_quote
  quote-Within m ts l k =
      after_keyword m (λ v. Ast.call (Ast.symbol (codes "quote")) (args_of last inner v))
        (Ast.symbol (codes "quote")) ts l k

  missing-Within :
      (m : ℕ) (ts : List Token)
      → length ts < n
      → length ts < m
      → Within m (parse_missing last inner ts)
  unfolding parse_missing
  missing-Within m ts l k =
      after_keyword m (λ v. Ast.call (Ast.symbol (codes "missing")) (args_of last inner v))
        (Ast.call (Ast.symbol (codes "missing")) none_left) ts l k

  paren-Within :
      (m : ℕ) (ts : List Token)
      → length ts < n
      → length ts < m
      → Within m (parse_paren last inner ts)
  unfolding parse_paren Within kind_code
  paren-Within m ts l k =
      bind-Within m m _ _ (inner-Within last ends inner n takes m ts l (omega arith)) (λ e us p.
        bind-Within m m _ _
          (expect-below last ends inner n takes m TokKind.r_paren us refl (omega arith))
          (λ _ vs q. q))

  primary_at-Within :
      (k : TokKind) (t : Token) (ts : List Token)
      → length ts ≤ n
      → ((kind_code k == 0) ≡ false → suc (length (advance ts)) ≡ length ts)
      → Within (length ts) (primary_at last inner k t ts)
  unfolding primary_at Within kind_code error
  primary_at-Within TokKind.real t ts l h = omega (arith, h refl)
  primary_at-Within TokKind.integer t ts l h = omega (arith, h refl)
  primary_at-Within TokKind.string t ts l h = omega (arith, h refl)
  primary_at-Within TokKind.ident t ts l h = omega (arith, h refl)
  primary_at-Within TokKind.backtick_ident t ts l h = omega (arith, h refl)
  primary_at-Within TokKind.l_paren t ts l h =
      paren-Within (length ts) (advance ts) (omega (arith, h refl)) (omega (arith, h refl))
  primary_at-Within TokKind.l_brace t ts l h = block-Within last ends inner n takes ts l
  primary_at-Within TokKind.kw_function t ts l h = function-Within last ends inner n takes ts l
  primary_at-Within TokKind.kw_if t ts l h = if_ast-Within last ends inner n takes ts l
  primary_at-Within TokKind.kw_for t ts l h = for-Within last ends inner n takes ts l
  primary_at-Within TokKind.kw_while t ts l h = while-Within last ends inner n takes ts l
  primary_at-Within TokKind.kw_repeat t ts l h = repeat-Within last ends inner n takes ts l
  primary_at-Within TokKind.kw_break t ts l h = omega (arith, h refl)
  primary_at-Within TokKind.kw_next t ts l h = omega (arith, h refl)
  primary_at-Within TokKind.kw_return t ts l h =
      return-Within (length ts) (advance ts) (omega (arith, h refl)) (omega (arith, h refl))
  primary_at-Within TokKind.kw_null t ts l h = omega (arith, h refl)
  primary_at-Within TokKind.kw_true t ts l h = omega (arith, h refl)
  primary_at-Within TokKind.kw_false t ts l h = omega (arith, h refl)
  primary_at-Within TokKind.kw_na t ts l h = omega (arith, h refl)
  primary_at-Within TokKind.kw_na_int t ts l h = omega (arith, h refl)
  primary_at-Within TokKind.kw_na_real t ts l h = omega (arith, h refl)
  primary_at-Within TokKind.kw_na_string t ts l h = omega (arith, h refl)
  primary_at-Within TokKind.kw_inf t ts l h = omega (arith, h refl)
  primary_at-Within TokKind.kw_nan t ts l h = omega (arith, h refl)
  primary_at-Within TokKind.kw_quote t ts l h =
      quote-Within (length ts) (advance ts) (omega (arith, h refl)) (omega (arith, h refl))
  primary_at-Within TokKind.kw_missing t ts l h =
      missing-Within (length ts) (advance ts) (omega (arith, h refl)) (omega (arith, h refl))
  primary_at-Within _ t ts l h = tt

  primary-Within :
      (ts : List Token) → length ts ≤ n → Within (length ts) (parse_primary last inner ts)
  unfolding parse_primary
  primary-Within ts l =
      primary_at-Within (peek last 0 ts).kind (peek last 0 ts) ts l
        (λ h. peek-advance last ends ts (not_zero (peek last 0 ts).kind h))

  member-Within :
      (m : ℕ) (reason : ParseReason) (make : List ℕ → Ast) (ts : List Token)
      → length ts < m
      → Within m (parse_member last inner reason make ts)
  unfolding parse_member Within error
  member-Within m reason make ts k =
      if-Within m (is_name last inner ts) (parsed (make (peek last 0 ts).text) (advance ts)) _
        (omega (arith, length-advance_le ts)) tt

  -- The result of a round, when there is one.
  Round : ℕ → Option (Parsed Ast) → Type 0
  Round m none = Unit
  Round m (some r) = Within m r

  postfix_step-Round :
      (k : TokKind) (base : Ast) (ts : List Token)
      → length ts ≤ n
      → ((kind_code k == 0) ≡ false → suc (length (advance ts)) ≡ length ts)
      → Round (length ts) (postfix_step last inner k base ts)
  unfolding postfix_step Round kind_code
  postfix_step-Round TokKind.l_paren base ts l h =
      call_args-Within last ends inner n takes base ts l
  postfix_step-Round TokKind.l_bracket base ts l h =
      index_args-Within last ends inner n takes base false ts l (h refl)
  postfix_step-Round TokKind.double_l_bracket base ts l h =
      index_args-Within last ends inner n takes base true ts l (h refl)
  postfix_step-Round TokKind.dollar base ts l h =
      member-Within (length ts) ParseReason.after_dollar (Ast.dollar base) (advance ts)
        (omega (arith, h refl))
  postfix_step-Round TokKind.at base ts l h =
      member-Within (length ts) ParseReason.after_at (Ast.slot base) (advance ts)
        (omega (arith, h refl))
  postfix_step-Round _ base ts l h = tt

  postfix_loop-Within :
      (m fuel : ℕ) (base : Ast) (ts : List Token)
      → length ts < fuel
      → length ts ≤ n
      → length ts < m
      → Within m (postfix_loop last inner fuel base ts)
  unfolding postfix_loop Within Round
  postfix_loop-Within m zero base ts f l k = absurd (omega arith)
  postfix_loop-Within m (suc fuel) base ts f l k =
      let kind = (peek last 0 ts).kind in
      elim (Option-cases (postfix_step last inner kind base ts)) [
        | inl e ↦ rw (postfix_loop, e) k
        | inr (r, e) ↦
            rw (postfix_loop, e)
              (bind-Within (length ts) m r _
                (subst (Round (length ts)) e (
                  postfix_step-Round kind base ts l
                    (λ h. peek-advance last ends ts (not_zero kind h))))
                (λ b us p.
                  postfix_loop-Within m fuel b us (omega arith) (omega arith) (omega arith)))
      ]

  pub postfix-Within :
      (ts : List Token) → length ts ≤ n → Within (length ts) (parse_postfix last inner ts)
  unfolding parse_postfix
  postfix-Within ts l = bind-Within (length ts) (length ts) _ _ (primary-Within ts l) (λ base us p.
      postfix_loop-Within (length ts) (suc (length us)) base us (omega arith) (omega arith) p)
