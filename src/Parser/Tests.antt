-- ===== src/Parser/Tests.antt =====
-- The parser (src/frontend/parser.cpp) at concrete inputs.
use r_sjit.Common.{◌≡◌, refl, true, false, List, [], ◌∷◌}
use r_sjit.Lexer.Tokens.{TokKind, Token, codes}
use r_sjit.Parser.{parse_program}
use r_sjit.Parser.Tree.{Ast, none_left}
use r_sjit.Parser.State.{parsed}
use r_sjit.Parser.Products.{Sum, token}
use r_sjit.Parser.Sums.{put_program, push_trees, parse_program-sums}

abbrev end_token : Token
end_token = token TokKind.eof []

-- `a * b + c / d - e;` and `f;`.
abbrev two_sums : List Sum
two_sums =
    (
      (codes "a", (true, codes "b") ∷ []),
      (true, (codes "c", (false, codes "d") ∷ [])) ∷ (false, (codes "e", [])) ∷ [],
    )
    ∷ ((codes "f", []), [])
    ∷ []

parse_program-sums_example :
    parse_program end_token (put_program end_token refl two_sums)
    ≡ parsed (Ast.block (push_trees end_token refl none_left two_sums)) (end_token ∷ [])
parse_program-sums_example = parse_program-sums end_token refl two_sums
