-- ===== src/Parser/Sums.antt =====
-- src/frontend/parser.cpp: programs of sums of products of names are parsed to the trees that the
-- precedence of the operators asks for.
use r_sjit.Common.{
  ℕ, zero, suc, ◌<◌, ◌≤◌, ◌≡◌, refl, ◌∙◌, Bool, true, false, List, [], ◌∷◌, length, arith, some,
  none, Option,
}
use r_sjit.Lexer.Tokens.{TokKind, Token, kind_code}
use r_sjit.Parser.{
  parse_multiplicative, parse_additive, parse_range, parse_comparison, parse_not, parse_and,
  parse_or, parse_tilde, parse_assign, parse_expr, separator, program_loop, parse_program,
}
use r_sjit.Parser.Tree.{Ast, Asts, none_left, push}
use r_sjit.Parser.State.{Parsed, parsed, peek, at, skip_newlines}
use r_sjit.Parser.Operators.{
  prefix_loop, right_loop, binary_loop, binary_level, additive_op, range_op, comparison_op, not_op,
  and_op, or_op, tilde_op, assign_op,
}
use r_sjit.Parser.Chains.{chain_tokens, ends-chain_tokens, binary_level-chain}
use r_sjit.Parser.Products.{
  Product, Sum, token, times_sign, plus_sign, plus_name, put_name, put_product, put_sum,
  product_tree, sum_tree, sign, semicolon, follow_token, multiplicative-product,
}

module _ (last : Token) (inner : List Token → Parsed Ast) where
  plus-sign : (b : Bool) → additive_op (plus_sign b).kind ≡ some (plus_name b)
  unfolding additive_op
  plus-sign true = refl
  plus-sign false = refl

  length-put_product : (p : Product) (ts : List Token) → length ts ≤ length (put_product p ts)
  unfolding put_product
  length-put_product p ts =
      omega (arith, ends-chain_tokens times_sign put_name ts (λ (x : List ℕ) us. omega arith) p.1)

  length-put_sum : (s : Sum) (ts : List Token) → length ts ≤ length (put_sum s ts)
  unfolding put_sum
  length-put_sum s ts = omega (
    arith,
    ends-chain_tokens plus_sign put_product ts length-put_product s.1,
    length-put_product s.0 (chain_tokens plus_sign put_product ts s.1),
  )

  -- A product in a sum, before the rest of it and a semicolon.
  sum-product :
      (ts : List Token) (p : Product) (more : List (Bool × Product))
      → parse_multiplicative last inner
          (put_product p (chain_tokens plus_sign put_product (follow_token semicolon ∷ ts) more))
        ≡ parsed
            (product_tree p)
            (chain_tokens plus_sign put_product (follow_token semicolon ∷ ts) more)
  unfolding chain_tokens follow_token
  sum-product ts p [] = multiplicative-product last inner semicolon ts p
  sum-product ts p (item ∷ more) = multiplicative-product last inner (sign item.0) _ p

  additive-sum :
      (ts : List Token) (s : Sum)
      → parse_additive last inner (put_sum s (token TokKind.semicolon [] ∷ ts))
        ≡ parsed (sum_tree s) (token TokKind.semicolon [] ∷ ts)
  unfolding parse_additive put_sum sum_tree peek follow_token additive_op
  additive-sum ts s =
      binary_level-chain last inner additive_op (parse_multiplicative last inner) plus_name
        product_tree plus_sign put_product (token TokKind.semicolon [] ∷ ts) plus-sign refl
        length-put_product (sum-product ts) s.0 s.1

  range-sum :
      (ts : List Token) (s : Sum)
      → parse_comparison last inner (put_sum s (token TokKind.semicolon [] ∷ ts))
        ≡ parsed (sum_tree s) (token TokKind.semicolon [] ∷ ts)
  unfolding parse_comparison parse_range binary_level binary_loop comparison_op range_op peek
  range-sum ts s = rw (additive-sum ts s) refl

  -- The prefix operators of a level do not start a sum.
  prefix-sum :
      (op : TokKind → Option (Ast → Ast)) (sub : List Token → Parsed Ast) (fuel : ℕ) (s : Sum)
      (ts : List Token)
      → op TokKind.ident ≡ none
      → prefix_loop last inner op sub (suc fuel) (put_sum s ts) ≡ sub (put_sum s ts)
  unfolding prefix_loop put_sum put_product peek
  prefix-sum op sub fuel s ts e = rw (prefix_loop, e) refl

  not-sum :
      (ts : List Token) (s : Sum)
      → parse_not last inner (put_sum s (token TokKind.semicolon [] ∷ ts))
        ≡ parsed (sum_tree s) (token TokKind.semicolon [] ∷ ts)
  unfolding parse_not not_op
  not-sum ts s = prefix-sum not_op (parse_comparison last inner) _ s _ refl ∙ range-sum ts s

  or-sum :
      (ts : List Token) (s : Sum)
      → parse_or last inner (put_sum s (token TokKind.semicolon [] ∷ ts))
        ≡ parsed (sum_tree s) (token TokKind.semicolon [] ∷ ts)
  unfolding parse_or parse_and binary_level binary_loop and_op or_op peek
  or-sum ts s = rw (not-sum ts s) refl

  tilde-sum :
      (ts : List Token) (s : Sum)
      → parse_tilde last inner (put_sum s (token TokKind.semicolon [] ∷ ts))
        ≡ parsed (sum_tree s) (token TokKind.semicolon [] ∷ ts)
  unfolding parse_tilde tilde_op
  tilde-sum ts s = prefix-sum tilde_op (parse_or last inner) _ s _ refl ∙ or-sum ts s

  assign-sum :
      (ts : List Token) (s : Sum)
      → parse_assign last inner (put_sum s (token TokKind.semicolon [] ∷ ts))
        ≡ parsed (sum_tree s) (token TokKind.semicolon [] ∷ ts)
  unfolding parse_assign right_loop assign_op peek
  assign-sum ts s = rw (tilde-sum ts s) refl

module _ (last : Token) (ends : last.kind ≡ TokKind.eof) where
  -- Each statement is followed by a semicolon.
  unfoldable pub put_program : List Sum → List Token
  put_program [] = last ∷ []
  put_program (s ∷ more) = put_sum s (token TokKind.semicolon [] ∷ put_program more)

  unfoldable pub push_trees : Asts → List Sum → Asts
  push_trees stmts [] = stmts
  push_trees stmts (s ∷ more) = push_trees (push stmts (sum_tree s)) more

  skip-program : (more : List Sum) → skip_newlines (put_program more) ≡ put_program more
  unfolding skip_newlines put_program put_sum put_product kind_code
  skip-program [] = rw (ends) refl
  skip-program (s ∷ more) = refl

  at-end : at last TokKind.eof (last ∷ []) ≡ true
  unfolding at peek kind_code
  at-end = rw (ends) refl

  not-end : (s : Sum) (ts : List Token) → at last TokKind.eof (put_sum s ts) ≡ false
  unfolding at peek put_sum put_product kind_code
  not-end s ts = refl

  expr-sum :
      (fuel : ℕ) (s : Sum) (ts : List Token)
      → parse_expr last (suc fuel) (put_sum s (token TokKind.semicolon [] ∷ ts))
        ≡ parsed (sum_tree s) (token TokKind.semicolon [] ∷ ts)
  unfolding parse_expr
  expr-sum fuel s ts = assign-sum last (parse_expr last fuel) ts s

  program_loop-sums :
      (fuel : ℕ) (stmts : Asts) (more : List Sum)
      → length more < fuel
      → program_loop last fuel stmts (put_program more) ≡ parsed (push_trees stmts more) (last ∷ [])
  unfolding program_loop put_program push_trees separator at peek skip_newlines kind_code
  program_loop-sums zero stmts more l = absurd (omega arith)
  program_loop-sums (suc fuel) stmts [] l = rw (program_loop, at-end) refl
  program_loop-sums (suc fuel) stmts (s ∷ more) l =
      let ts = token TokKind.semicolon [] ∷ put_program more in
      rw
        (
          program_loop,
          not-end s ts,
          expr-sum (length (put_sum s ts)) s (put_program more),
          skip-program more,
        )
        (program_loop-sums fuel (push stmts (sum_tree s)) more (omega arith))

  length-put_program : (more : List Sum) → length more ≤ length (put_program more)
  unfolding put_program
  length-put_program [] = omega arith
  length-put_program (s ∷ more) = omega (
    arith,
    length-put_program more,
    length-put_sum last (parse_expr last 0) s (token TokKind.semicolon [] ∷ put_program more),
  )

  -- When the last token is the end token, the tokens of a list of sums of products of names, each
  -- sum with a semicolon after it, and the end token are parsed to the block of the trees of the
  -- sums in their order, in which * and / bind tighter than + and - and all four group to the
  -- left.
  pub parse_program-sums :
      (sums : List Sum)
      → parse_program last (put_program sums)
        ≡ parsed (Ast.block (push_trees none_left sums)) (last ∷ [])
  unfolding parse_program
  parse_program-sums sums =
      rw
        (
          skip-program sums,
          program_loop-sums (suc (length (put_program sums))) none_left sums
              (omega (arith, length-put_program sums)),
        )
        refl
