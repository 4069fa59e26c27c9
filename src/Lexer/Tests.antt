-- ===== src/Lexer/Tests.antt =====
-- The lexer (src/frontend/lexer.cpp) at concrete inputs.
use r_sjit.Common.{ℕ, ◌≡◌, refl, List, [], ◌∷◌, some}
use r_sjit.Lexer.{lex_all}
use r_sjit.Lexer.Tokens.{TokKind, Token, real_val, codes}
use r_sjit.Lexer.Place.{Cursor, start}
use r_sjit.Lexer.Positions.{Positions, lex_all-Positions}
use r_sjit.Lexer.Names.{is_fixed}
use r_sjit.Lexer.Spelling.{spelled, kinds, lex_all-spelled}

abbrev no_numbers : List ℕ → ℕ
no_numbers text = 0

-- `x <- f`, a comment, and a string on the next line.
abbrev program : List ℕ
program = codes "x <- f # c\n'a\\n'"

lex_all-Positions_example :
    Positions no_numbers program (start program) (lex_all no_numbers program)
lex_all-Positions_example = lex_all-Positions no_numbers program

abbrev token : TokKind → ℕ → ℕ → List ℕ → Token
token kind line column text = record {
  kind = kind;
  line = line;
  column = column;
  text = text;
  number = real_val 0;
}

-- The tokens of `x;`.
abbrev two_tokens : List Token
two_tokens =
    token TokKind.ident 1 1 (codes "x")
    ∷ token TokKind.semicolon 1 2 []
    ∷ token TokKind.eof 1 3 []
    ∷ []

lex_all-spelled_example :
    kinds
      (lex_all no_numbers (spelled (TokKind.kw_if ∷ TokKind.l_paren ∷ TokKind.super_assign ∷ [])))
    ≡ some (TokKind.kw_if ∷ TokKind.l_paren ∷ TokKind.super_assign ∷ TokKind.eof ∷ [])
unfolding is_fixed
lex_all-spelled_example =
    lex_all-spelled no_numbers (TokKind.kw_if ∷ TokKind.l_paren ∷ TokKind.super_assign ∷ [])
      (refl, (refl, (refl, tt)))

abbrev blanks : Cursor
blanks = record { rest = codes " # c\n\tx"; line = 1; col = 1 }
