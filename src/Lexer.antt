-- ===== src/Lexer.antt =====
-- src/frontend/lexer.cpp, include/rjit/frontend/lexer.hpp: the text of a program into tokens.
--
-- A text is the list of its bytes. `strtod`, which the number tokens call, is a parameter.
pub mod Tokens
pub mod Place
pub mod Scan
pub mod Words
pub mod Operators
pub mod Reach
pub mod Loops
mod Tests
pub mod Positions
pub mod Spelling
pub mod Names
pub mod Outcome
pub mod Numbers
pub mod Progress
use r_sjit.Common.{
  ℕ, zero, suc, ◌&&◌, ◌||◌, ◌==◌, ltb, leb, List, [], ◌∷◌, if◌then◌else◌, Bool, true, false, length,
}
use r_sjit.Lexer.Tokens.{TokKind, Token, is_eof}
use r_sjit.Lexer.Place.{
  Cursor, start, peek, advance, is_digit, is_ident_start, skip_whitespace_and_comments,
}
use r_sjit.Lexer.Scan.{Lexed, lexed, lex_error, LexReason, token_at, plain, lex_number}
use r_sjit.Lexer.Words.{lex_string, lex_ident_or_keyword, lex_backtick}
use r_sjit.Lexer.Operators.{lex_operator}

module _ (strtod : List ℕ → ℕ) where
  -- The token that starts with the byte `c`.
  unfoldable pub token_from : ℕ → Cursor → Lexed Token
  unfolding token_at peek
  token_from c cur =
      if c == b'\n'
      then lexed (plain TokKind.newline cur) (advance cur)
      else if is_digit c || (c == b'.' && is_digit (peek 1 cur))
      then lex_number strtod cur
      else if c == b'"' || c == b'\''
      then lex_string cur
      else if c == b'`'
      then lex_backtick cur
      else if is_ident_start c
      then lex_ident_or_keyword cur
      else lex_operator cur

  unfoldable pub token_at_rest : List ℕ → Cursor → Lexed Token
  unfolding token_from token_at
  token_at_rest [] cur = lexed (plain TokKind.eof cur) cur
  token_at_rest (c ∷ cs) cur = token_from c cur

  unfoldable pub token_here : Cursor → Lexed Token
  unfolding token_at_rest
  token_here cur = token_at_rest cur.rest cur

  unfoldable pub next_token : Cursor → Lexed Token
  unfolding token_here
  next_token cur = token_here (skip_whitespace_and_comments cur)

-- The tokens, the exception, or the end of the fuel.
pub data TokenStream : Type 0 where
  tokens : List Token → TokenStream
  failed : LexReason → ℕ → ℕ → TokenStream
  out_of_fuel : TokenStream

unfoldable pub with_token : Token → TokenStream → TokenStream
with_token t (tokens ts) = tokens (t ∷ ts)
with_token t (failed reason line col) = failed reason line col
with_token t out_of_fuel = out_of_fuel

-- The body of the loop after `next_token`, with what the loop does from the next cursor.
unfoldable pub unless_eof : (Cursor → TokenStream) → Bool → Token → Cursor → TokenStream
unfolding with_token
unless_eof more true t after = tokens (t ∷ [])
unless_eof more false t after = with_token t (more after)

unfoldable pub after_token : (Cursor → TokenStream) → Lexed Token → TokenStream
unfolding unless_eof is_eof
after_token more (lexed t after) = unless_eof more (is_eof t.kind) t after
after_token more (lex_error reason line col) = failed reason line col

module _ (strtod : List ℕ → ℕ) where
  unfoldable pub lex_loop : ℕ → Cursor → TokenStream
  unfolding after_token
  lex_loop zero cur = out_of_fuel
  lex_loop (suc fuel) cur = after_token (lex_loop fuel) (next_token strtod cur)

  unfoldable pub lex_all : List ℕ → TokenStream
  unfolding start
  lex_all src = lex_loop (suc (length src)) (start src)
