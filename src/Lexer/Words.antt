-- ===== src/Lexer/Words.antt =====
-- src/frontend/lexer.cpp: strings, identifiers with the keywords, and operators.
use r_sjit.Common.{
  ℕ, zero, suc, Bool, not, true, false, ◌==◌, ◌&&◌, List, [], ◌∷◌, ◌++◌, if◌then◌else◌, length,
}
use r_sjit.Lexer.Tokens.{TokKind, codes, real_val, Token}
use r_sjit.Lexer.Place.{Cursor, next_is, peek, advance, advance_while, is_ident_cont}
use r_sjit.Lexer.Scan.{Lexed, lexed, token_at, text_between, hex_byte}

abbrev pub unescape : ℕ → ℕ
unescape c =
    if c == b'n'
    then b'\n'
    else if c == b't'
    then b'\t'
    else if c == b'r'
    then b'\r'
    else if c == b'0'
    then 0
    else c

-- The state of the loop of `lex_string`.
pub record Reading : Type 0 where
  pub escaped : Bool
  pub text : List ℕ
  pub closed : Bool
  pub place : Cursor

unfoldable pub read_hex : List ℕ → Cursor → Reading
read_hex text cur = record {
  escaped = true;
  text = text ++ hex_byte (peek 0 cur) (peek 1 cur) ∷ [];
  closed = false;
  place = advance (advance cur);
}

-- One round of the loop, at the byte `c`.
unfoldable pub string_round : ℕ → ℕ → Reading → Reading
unfolding read_hex
string_round quote c r =
    if r.escaped
    then if c == b'x'
      then read_hex r.text (advance r.place)
      else record r { escaped = false; text = r.text ++ unescape c ∷ []; place = advance r.place }
    else if c == b'\\'
    then record r { escaped = true; place = advance r.place }
    else if c == quote
    then record r { closed = true; place = advance r.place }
    else record r { text = r.text ++ c ∷ []; place = advance r.place }

-- The loop goes on inside the text until the closing quote.
unfoldable pub is_reading : Reading → Bool
unfolding next_is
is_reading r = not r.closed && next_is (λ _. true) r.place

-- Every round takes at least one byte, so the length of the text is enough fuel.
unfoldable pub string_rounds : ℕ → ℕ → Reading → Reading
string_rounds zero quote r = r
string_rounds (suc fuel) quote r = elim (is_reading r) [
  | true ↦ string_rounds fuel quote (string_round quote (peek 0 r.place) r)
  | false ↦ r
]

unfoldable pub opened : Cursor → Reading
opened cur = record { escaped = false; text = []; closed = false; place = advance cur }

unfoldable pub read_string : Cursor → Reading
read_string cur = string_rounds (length cur.rest) (peek 0 cur) (opened cur)

unfoldable pub string_token : Cursor → Reading → Lexed Token
string_token from r = lexed (token_at TokKind.string r.text (real_val 0) from) r.place

-- The end of the text closes a string too.
unfoldable pub lex_string : Cursor → Lexed Token
unfolding string_token read_string
lex_string cur = string_token cur (read_string cur)

unfoldable pub same_text : List ℕ → List ℕ → Bool
same_text [] [] = true
same_text (a ∷ text) (b ∷ other) = let rest = same_text text other in a == b && rest
same_text _ _ = false

unfoldable pub keyword : List ℕ → TokKind
unfolding same_text
keyword name =
    if same_text name (codes "function")
    then TokKind.kw_function
    else if same_text name (codes "if")
    then TokKind.kw_if
    else if same_text name (codes "else")
    then TokKind.kw_else
    else if same_text name (codes "for")
    then TokKind.kw_for
    else if same_text name (codes "while")
    then TokKind.kw_while
    else if same_text name (codes "repeat")
    then TokKind.kw_repeat
    else if same_text name (codes "break")
    then TokKind.kw_break
    else if same_text name (codes "next")
    then TokKind.kw_next
    else if same_text name (codes "return")
    then TokKind.kw_return
    else if same_text name (codes "in")
    then TokKind.kw_in
    else if same_text name (codes "NULL")
    then TokKind.kw_null
    else if same_text name (codes "TRUE")
    then TokKind.kw_true
    else if same_text name (codes "FALSE")
    then TokKind.kw_false
    else if same_text name (codes "NA")
    then TokKind.kw_na
    else if same_text name (codes "NA_integer_")
    then TokKind.kw_na_int
    else if same_text name (codes "NA_real_")
    then TokKind.kw_na_real
    else if same_text name (codes "NA_character_")
    then TokKind.kw_na_string
    else if same_text name (codes "Inf")
    then TokKind.kw_inf
    else if same_text name (codes "NaN")
    then TokKind.kw_nan
    else if same_text name (codes "quote")
    then TokKind.kw_quote
    else if same_text name (codes "missing")
    then TokKind.kw_missing
    else if same_text name (codes "T")
    then TokKind.kw_true
    else if same_text name (codes "F")
    then TokKind.kw_false
    else TokKind.ident

unfoldable pub word_token : Cursor → Cursor → Lexed Token
unfolding keyword text_between token_at
word_token from after =
    let name = text_between from after in
    lexed (token_at (keyword name) name (real_val 0) from) after

unfoldable pub lex_ident_or_keyword : Cursor → Lexed Token
unfolding word_token
lex_ident_or_keyword cur = word_token cur (advance_while is_ident_cont cur)

unfoldable pub not_backtick : ℕ → Bool
not_backtick c = if c == b'`' then false else true

unfoldable pub backtick_token : Cursor → Cursor → Cursor → Lexed Token
unfolding text_between token_at
backtick_token from name_start name_end =
    lexed (token_at TokKind.backtick_ident (text_between name_start name_end) (real_val 0) from)
      (advance name_end)

unfoldable pub lex_backtick : Cursor → Lexed Token
unfolding backtick_token not_backtick
lex_backtick cur = backtick_token cur (advance cur) (advance_while not_backtick (advance cur))
