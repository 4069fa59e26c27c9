-- ===== src/FrontEnd/Whole.antt =====
-- src/cli/main.cpp: the front end on every text.
use r_sjit.Common.{ℕ, ◌≡◌, ◌≢◌, refl, ap, ◌∙◌, List, [], ◌∷◌, true, inl, inr}
use r_sjit.Lexer.{lex_all, TokenStream, tokens, failed}
use r_sjit.Lexer.Tokens.{TokKind, Token, is_eof, kind_code}
use r_sjit.Lexer.Place.{start}
use r_sjit.Lexer.Outcome.{Ends, Placed, lex_all-Placed}
use r_sjit.Parser.{parse_program}
use r_sjit.Parser.Tree.{Ast}
use r_sjit.Parser.State.{Parsed, parsed, parse_error}
use r_sjit.Parser.Programs.{parse_program-terminates}
use r_sjit.FrontEnd.{back, no_token, endless, parsed_source, parse_tokens, parse_source}

eof-kind_code : (k : TokKind) → is_eof k ≡ true → kind_code k ≡ 0
unfolding is_eof kind_code
eof-kind_code TokKind.eof e = refl
eof-kind_code _ e = absurd cc

-- The last token of the lexer is the end token.
Ends-back : (t : Token) (ts : List Token) → Ends ts → kind_code (back t ts).kind ≡ 0
unfolding Ends back
Ends-back t [] h = elim h [ ]
Ends-back t (u ∷ us) h = elim h [
  | inl p ↦ ap (λ rest. kind_code (back u rest).kind) p.1 ∙ eof-kind_code u.kind p.0
  | inr p ↦ Ends-back u us p.1
]

parsed_source-endless : (r : Parsed Ast) → r ≢ Parsed.out_of_fuel → parsed_source r ≢ endless
unfolding parsed_source
parsed_source-endless (parsed a ts) h e = cc
parsed_source-endless (parse_error _ _ _) h e = cc
parsed_source-endless Parsed.out_of_fuel h e = h refl

parse_tokens-terminates :
    (src : List ℕ) (s : TokenStream) → Placed (start src) s → parse_tokens s ≢ endless
unfolding parse_tokens Placed
parse_tokens-terminates src (tokens ts) h e =
    parsed_source-endless (parse_program (back no_token ts) ts)
      (parse_program-terminates (back no_token ts) (Ends-back no_token ts h.0) ts) e
parse_tokens-terminates src (failed _ _ _) h e = cc
parse_tokens-terminates src TokenStream.out_of_fuel h e = h

-- For every text and every `strtod`, the lexer and then the parser give a tree or an exception,
-- and no loop and no recursion runs out of fuel.
pub parse_source-terminates :
    (strtod : List ℕ → ℕ) (source : List ℕ) → parse_source strtod source ≢ endless
unfolding parse_source
parse_source-terminates strtod source =
    parse_tokens-terminates source (lex_all strtod source) (lex_all-Placed strtod source)
