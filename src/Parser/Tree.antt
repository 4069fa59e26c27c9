-- ===== src/Parser/Tree.antt =====
-- include/rjit/frontend/ast.hpp: the syntax trees.
--
-- The two place fields of `Ast` are 0 in every tree that the parser makes, and are left out. A
-- pointer that may be null is a pair of constructors.
use r_sjit.Common.{ℕ, Bool, List}
use r_sjit.Common.Int.{ℤ}

mutual
  -- `class Ast` and its subclasses
  pub data Ast : Type 0 where
    nil missing_arg break_ast next_ast : Ast
    logical : ℤ → Ast
    integer : ℤ → Ast
    real : ℕ → Ast
    string : List ℕ → Ast
    symbol : List ℕ → Ast
    bin_op : List ℕ → Ast → Ast → Ast
    unary_op : List ℕ → Ast → Ast
    assign : Ast → Ast → Bool → Ast
    call : Ast → Asts → Ast
    named_arg : List ℕ → Ast → Ast
    function_ast : Params → Ast → Ast
    if_then : Ast → Ast → Ast
    if_else : Ast → Ast → Ast → Ast
    for_ast : List ℕ → Ast → Ast → Ast
    while_ast : Ast → Ast → Ast
    repeat_ast : Ast → Ast
    return_null : Ast
    return_value : Ast → Ast
    block : Asts → Ast
    paren : Ast → Ast
    index : Ast → Asts → Bool → Ast
    dollar : Ast → List ℕ → Ast
    slot : Ast → List ℕ → Ast

  -- `std::vector<AstPtr>`
  pub data Asts : Type 0 where
    none_left : Asts
    first : Ast → Asts → Asts

  -- `std::vector<FunctionAst::Param>`
  pub data Params : Type 0 where
    no_params : Params
    required : List ℕ → Params → Params
    defaulted : List ℕ → Ast → Params → Params

-- `push_back`
unfoldable pub push : Asts → Ast → Asts
push none_left a = first a none_left
push (first b bs) a = first b (push bs a)

unfoldable pub push_required : Params → List ℕ → Params
push_required no_params name = required name no_params
push_required (required n ps) name = required n (push_required ps name)
push_required (defaulted n d ps) name = defaulted n d (push_required ps name)

unfoldable pub push_defaulted : Params → List ℕ → Ast → Params
push_defaulted no_params name value = defaulted name value no_params
push_defaulted (required n ps) name value = required n (push_defaulted ps name value)
push_defaulted (defaulted n d ps) name value = defaulted n d (push_defaulted ps name value)
