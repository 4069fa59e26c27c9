-- ===== src/Parser/Products.antt =====
-- src/frontend/parser.cpp: products of names, and the tokens and trees of their sums.
use r_sjit.Common.{ℕ, ◌≡◌, refl, Bool, true, false, List, [], ◌∷◌, arith, some, none, if◌then◌else◌}
use r_sjit.Lexer.Tokens.{TokKind, Token, real_val, codes}
use r_sjit.Parser.{parse_unary, parse_power, parse_multiplicative}
use r_sjit.Parser.Tree.{Ast}
use r_sjit.Parser.State.{Parsed, parsed, peek, advance}
use r_sjit.Parser.Operators.{
  prefix_loop, right_loop, parse_postfix, parse_primary, primary_at, postfix_loop, postfix_step,
  unary_op, power_op, multiplicative_op,
}
use r_sjit.Parser.Chains.{chain_tree, chain_tokens, binary_level-chain}

-- Names with `*` (true) and `/` between them, and such products with `+` (true) and `-`.
abbrev pub Product : Type 0
Product = List ℕ × List (Bool × List ℕ)

abbrev pub Sum : Type 0
Sum = Product × List (Bool × Product)

abbrev pub token : TokKind → List ℕ → Token
token k text = record { kind = k; line = 1; column = 1; text = text; number = real_val 0 }

abbrev pub times_sign : Bool → Token
times_sign b = token (if b then TokKind.star else TokKind.slash) []

abbrev pub plus_sign : Bool → Token
plus_sign b = token (if b then TokKind.plus else TokKind.minus) []

abbrev pub times_name : Bool → List ℕ
times_name b = if b then codes "*" else codes "/"

abbrev pub plus_name : Bool → List ℕ
plus_name b = if b then codes "+" else codes "-"

-- The tokens of a name, a product and a sum before others, and their trees.
abbrev pub put_name : List ℕ → List Token → List Token
put_name x ts = token TokKind.ident x ∷ ts

unfoldable pub put_product : Product → List Token → List Token
unfolding chain_tokens
put_product p ts = put_name p.0 (chain_tokens times_sign put_name ts p.1)

unfoldable pub put_sum : Sum → List Token → List Token
unfolding chain_tokens put_product
put_sum s ts = put_product s.0 (chain_tokens plus_sign put_product ts s.1)

unfoldable pub product_tree : Product → Ast
unfolding chain_tree
product_tree p = chain_tree times_name Ast.symbol (Ast.symbol p.0) p.1

unfoldable pub sum_tree : Sum → Ast
unfolding chain_tree product_tree
sum_tree s = chain_tree plus_name product_tree (product_tree s.0) s.1

-- What can follow a product here: a sign of a sum, or a semicolon.
pub data Follows : Type 0 where
  sign : Bool → Follows
  semicolon : Follows

unfoldable pub follow_token : Follows → Token
follow_token (sign b) = plus_sign b
follow_token semicolon = token TokKind.semicolon []

module _ (last : Token) (inner : List Token → Parsed Ast) where
  power-name_times :
      (x : List ℕ) (b : Bool) (ts : List Token)
      → parse_power last inner (put_name x (times_sign b ∷ ts))
        ≡ parsed (Ast.symbol x) (times_sign b ∷ ts)
  unfolding parse_power right_loop parse_unary prefix_loop parse_postfix parse_primary primary_at
      postfix_loop postfix_step unary_op power_op peek advance
  power-name_times x true ts = refl
  power-name_times x false ts = refl

  power-name_follow :
      (x : List ℕ) (k : Follows) (ts : List Token)
      → parse_power last inner (put_name x (follow_token k ∷ ts))
        ≡ parsed (Ast.symbol x) (follow_token k ∷ ts)
  unfolding parse_power right_loop parse_unary prefix_loop parse_postfix parse_primary primary_at
      postfix_loop postfix_step unary_op power_op peek advance follow_token
  power-name_follow x (sign true) ts = refl
  power-name_follow x (sign false) ts = refl
  power-name_follow x semicolon ts = refl

  power-name :
      (k : Follows) (ts : List Token) (x : List ℕ) (more : List (Bool × List ℕ))
      → parse_power last inner
          (put_name x (chain_tokens times_sign put_name (follow_token k ∷ ts) more))
        ≡ parsed (Ast.symbol x) (chain_tokens times_sign put_name (follow_token k ∷ ts) more)
  unfolding chain_tokens
  power-name k ts x [] = power-name_follow x k ts
  power-name k ts x (item ∷ more) = power-name_times x item.0 _

  times-sign : (b : Bool) → multiplicative_op (times_sign b).kind ≡ some (times_name b)
  unfolding multiplicative_op
  times-sign true = refl
  times-sign false = refl

  times-follow : (k : Follows) → multiplicative_op (follow_token k).kind ≡ none
  unfolding multiplicative_op follow_token
  times-follow (sign true) = refl
  times-follow (sign false) = refl
  times-follow semicolon = refl

  pub multiplicative-product :
      (k : Follows) (ts : List Token) (p : Product)
      → parse_multiplicative last inner (put_product p (follow_token k ∷ ts))
        ≡ parsed (product_tree p) (follow_token k ∷ ts)
  unfolding parse_multiplicative put_product product_tree peek
  multiplicative-product k ts p =
      binary_level-chain last inner multiplicative_op (parse_power last inner) times_name Ast.symbol
        times_sign put_name (follow_token k ∷ ts) times-sign (times-follow k) (λ x us. omega arith)
        (power-name k ts) p.0 p.1
