-- ===== src/FrontEnd.antt =====
-- src/cli/main.cpp: the front end, the lexer and then the parser.
mod Tests
pub mod Whole
use r_sjit.Common.{ℕ, List, [], ◌∷◌}
use r_sjit.Lexer.{lex_all, TokenStream, tokens, failed, out_of_fuel}
use r_sjit.Lexer.Tokens.{TokKind, Token, Number, real_val}
use r_sjit.Lexer.Scan.{LexReason}
use r_sjit.Parser.{parse_program}
use r_sjit.Parser.Tree.{Ast}
use r_sjit.Parser.State.{Parsed, parsed, parse_error, ParseReason}

-- `Token()`
unfoldable pub no_token : Token
no_token = record { kind = TokKind.eof; line = 0; column = 0; text = []; number = real_val 0 }

-- `toks_.back()`
unfoldable pub back : Token → List Token → Token
back t [] = t
back t (u ∷ us) = back u us

-- The tree, one of the two exceptions, or the end of the fuel of a loop.
pub data Source : Type 0 where
  tree : Ast → Source
  lex_failed : LexReason → ℕ → ℕ → Source
  parse_failed : ParseReason → ℕ → ℕ → Source
  endless : Source

unfoldable pub parsed_source : Parsed Ast → Source
parsed_source (parsed a ts) = tree a
parsed_source (parse_error reason line col) = parse_failed reason line col
parsed_source Parsed.out_of_fuel = endless

unfoldable pub parse_tokens : TokenStream → Source
unfolding parsed_source back no_token parse_program
parse_tokens (tokens ts) = parsed_source (parse_program (back no_token ts) ts)
parse_tokens (failed reason line col) = lex_failed reason line col
parse_tokens TokenStream.out_of_fuel = endless

unfoldable pub parse_source : (List ℕ → ℕ) → List ℕ → Source
unfolding parse_tokens lex_all
parse_source strtod source = parse_tokens (lex_all strtod source)
