-- ===== src/Parser/Chains.antt =====
-- src/frontend/parser.cpp: the levels of left-associative operators on chains of operands.
use r_sjit.Common.{
  ℕ, zero, suc, ◌<◌, ◌≤◌, ◌≡◌, refl, Bool, List, [], ◌∷◌, length, arith, Option, none, some,
}
use r_sjit.Lexer.Tokens.{TokKind, Token}
use r_sjit.Parser.Tree.{Ast}
use r_sjit.Parser.State.{Parsed, parsed, peek, advance}
use r_sjit.Parser.Operators.{binary_loop, binary_level}

-- Operators, each with the operand after it, of a level with the two operators that `name` gives.
unfoldable pub chain_tree : {X : Type 0} → (Bool → List ℕ) → (X → Ast) → Ast → List (Bool × X) → Ast
chain_tree name tree lhs [] = lhs
chain_tree name tree lhs (item ∷ more) =
    chain_tree name tree (Ast.bin_op (name item.0) lhs (tree item.1)) more

-- The tokens of the operators and operands before `ends`; `put` puts those of an operand before others.
unfoldable pub chain_tokens :
    {X : Type 0}
    → (Bool → Token)
    → (X → List Token → List Token)
    → List Token
    → List (Bool × X)
    → List Token
chain_tokens sign put ends [] = ends
chain_tokens sign put ends (item ∷ more) =
    sign item.0 ∷ put item.1 (chain_tokens sign put ends more)

-- A chain is not shorter than what comes after it.
pub ends-chain_tokens :
    {X : Type 0} (sign : Bool → Token) (put : X → List Token → List Token) (ends : List Token)
    (grows : (x : X) (ts : List Token) → length ts ≤ length (put x ts)) (more : List (Bool × X))
    → length ends ≤ length (chain_tokens sign put ends more)
unfolding chain_tokens
ends-chain_tokens sign put ends grows [] = omega arith
ends-chain_tokens sign put ends grows (item ∷ more) = omega (
  arith,
  ends-chain_tokens sign put ends grows more,
  grows item.1 (chain_tokens sign put ends more),
)

module _ {X : Type 0} (last : Token) (inner : List Token → Parsed Ast)
    (op : TokKind → Option (List ℕ)) (sub : List Token → Parsed Ast) (name : Bool → List ℕ)
    (tree : X → Ast) (sign : Bool → Token) (put : X → List Token → List Token) (ends : List Token)
    (op_sign : (b : Bool) → op (sign b).kind ≡ some (name b))
    (op_ends : op (peek last 0 ends).kind ≡ none)
    (grows : (x : X) (ts : List Token) → length ts ≤ length (put x ts))
    (reads : (x : X) (more : List (Bool × X))
      → sub (put x (chain_tokens sign put ends more))
        ≡ parsed (tree x) (chain_tokens sign put ends more)) where
  binary_loop-chain :
      (fuel : ℕ) (lhs : Ast) (more : List (Bool × X))
      → length more < fuel
      → binary_loop last inner op sub fuel lhs (chain_tokens sign put ends more)
        ≡ parsed (chain_tree name tree lhs more) ends
  unfolding chain_tokens chain_tree peek advance binary_loop
  binary_loop-chain zero lhs more l = absurd (omega arith)
  binary_loop-chain (suc fuel) lhs [] l = rw (binary_loop, op_ends) refl
  binary_loop-chain (suc fuel) lhs (item ∷ more) l =
      rw (binary_loop, op_sign item.0, reads item.1 more)
        (binary_loop-chain fuel (Ast.bin_op (name item.0) lhs (tree item.1)) more (omega arith))

  length-chain_tokens :
      (more : List (Bool × X)) → length more ≤ length (chain_tokens sign put ends more)
  unfolding chain_tokens
  length-chain_tokens [] = omega arith
  length-chain_tokens (item ∷ more) =
      omega (arith, length-chain_tokens more, grows item.1 (chain_tokens sign put ends more))

  -- A level reads an operand and the chain after it as one tree that groups to the left.
  pub binary_level-chain :
      (x : X) (more : List (Bool × X))
      → binary_level last inner op sub (put x (chain_tokens sign put ends more))
        ≡ parsed (chain_tree name tree (tree x) more) ends
  unfolding binary_level
  binary_level-chain x more = rw (reads x more) (
      binary_loop-chain (suc (length (chain_tokens sign put ends more))) (tree x) more
        (omega (arith, length-chain_tokens more)))
