-- ===== src/Lexer/Names.antt =====
-- src/frontend/lexer.cpp: the first token of the name of an operator or a keyword.
use r_sjit.Common.{
  ℕ, ◌-◌, ◌≡◌, refl, ap, ◌∙◌, sym, Bool, true, false, ◌&&◌, List, [], ◌∷◌, ◌++◌, length, arith,
  length-append,
}
use r_sjit.Lexer.{next_token}
use r_sjit.Lexer.Tokens.{TokKind, Token, tok_name}
use r_sjit.Lexer.Place.{
  Cursor, advance, advance_from, next_line, next_col, skip_whitespace_and_comments, skip_rounds,
  next_is, is_ident_cont, scan_while, advance_while,
}
use r_sjit.Lexer.Scan.{Lexed, lexed, text_between, take, token_at}
use r_sjit.Lexer.Words.{keyword, lex_ident_or_keyword, word_token}
use r_sjit.Lexer.Operators.{lex_operator}

-- Operators, punctuation and keywords: what is spelled in one way.
unfoldable pub is_fixed : TokKind → Bool
is_fixed TokKind.eof = false
is_fixed TokKind.real = false
is_fixed TokKind.integer = false
is_fixed TokKind.complex = false
is_fixed TokKind.string = false
is_fixed TokKind.ident = false
is_fixed TokKind.backtick_ident = false
is_fixed TokKind.newline = false
is_fixed _ = true

unfoldable all_cont : List ℕ → Bool
all_cont [] = true
all_cont (c ∷ cs) = is_ident_cont c && all_cont cs

and-left : (a b : Bool) → (a && b) ≡ true → a ≡ true
and-left a b e = ground arith

and-right : (a b : Bool) → (a && b) ≡ true → b ≡ true
and-right a b e = ground arith

scan_word :
    (w text : List ℕ) (line col : ℕ)
    → all_cont w ≡ true
    → (scan_while is_ident_cont (w ++ b' ' ∷ text) line col).rest ≡ b' ' ∷ text
unfolding scan_while all_cont
scan_word [] text line col e = refl
scan_word (c ∷ w) text line col e = rw (and-left (is_ident_cont c) (all_cont w) e) (
    scan_word w text (next_line c line) (next_col c col)
      (and-right (is_ident_cont c) (all_cont w) e))

take-append : (xs ys : List ℕ) → take (length xs) (xs ++ ys) ≡ xs
take-append [] ys = refl
take-append (x ∷ xs) ys = ap (λ zs. x ∷ zs) (take-append xs ys)

text_between-append :
    (from to : Cursor) (w : List ℕ) → from.rest ≡ w ++ to.rest → text_between from to ≡ w
unfolding text_between
text_between-append from to w e =
    let n : length from.rest - length to.rest ≡ length w =
      omega (arith, ap length e, length-append w to.rest) in
    rw (n, e) (take-append w to.rest)

-- The first token of a text has the kind and leaves the rest of the text.
unfoldable pub ReadsKind : TokKind → List ℕ → Lexed Token → Type 0
ReadsKind k text (lexed t after) = (t.kind ≡ k) × (after.rest ≡ text)
ReadsKind k text _ = ⊥

word-ReadsKind :
    (k : TokKind) (w text : List ℕ) (line col : ℕ)
    → all_cont w ≡ true
    → keyword w ≡ k
    → ReadsKind k
        (b' ' ∷ text)
        (lex_ident_or_keyword (record { rest = w ++ b' ' ∷ text; line = line; col = col }))
unfolding ReadsKind lex_ident_or_keyword word_token token_at advance_while
word-ReadsKind k w text line col e f =
    let rest = scan_word w text line col e in
    let name =
      text_between-append (record { rest = w ++ b' ' ∷ text; line = line; col = col })
        (scan_while is_ident_cont (w ++ b' ' ∷ text) line col) w (ap (λ r. w ++ r) (sym rest)) in
    (ap keyword name ∙ f, rest)

module _ (strtod : List ℕ → ℕ) where
  -- The first token of the name of a kind, with a blank after it.
  pub next_token-name :
      (k : TokKind) (text : List ℕ) (line col : ℕ)
      → is_fixed k ≡ true
      → ReadsKind k
          (b' ' ∷ text)
          (next_token strtod (record { rest = tok_name k ++ b' ' ∷ text; line = line; col = col }))
  unfolding ReadsKind tok_name next_token skip_whitespace_and_comments skip_rounds next_is
      lex_operator advance is_fixed keyword all_cont advance_from
  next_token-name TokKind.eof text line col e = cc
  next_token-name TokKind.real text line col e = cc
  next_token-name TokKind.integer text line col e = cc
  next_token-name TokKind.complex text line col e = cc
  next_token-name TokKind.string text line col e = cc
  next_token-name TokKind.ident text line col e = cc
  next_token-name TokKind.backtick_ident text line col e = cc
  next_token-name TokKind.newline text line col e = cc
  next_token-name TokKind.l_paren text line col e = (refl, refl)
  next_token-name TokKind.r_paren text line col e = (refl, refl)
  next_token-name TokKind.l_brace text line col e = (refl, refl)
  next_token-name TokKind.r_brace text line col e = (refl, refl)
  next_token-name TokKind.l_bracket text line col e = (refl, refl)
  next_token-name TokKind.r_bracket text line col e = (refl, refl)
  next_token-name TokKind.double_l_bracket text line col e = (refl, refl)
  next_token-name TokKind.double_r_bracket text line col e = (refl, refl)
  next_token-name TokKind.comma text line col e = (refl, refl)
  next_token-name TokKind.semicolon text line col e = (refl, refl)
  next_token-name TokKind.plus text line col e = (refl, refl)
  next_token-name TokKind.minus text line col e = (refl, refl)
  next_token-name TokKind.star text line col e = (refl, refl)
  next_token-name TokKind.slash text line col e = (refl, refl)
  next_token-name TokKind.caret text line col e = (refl, refl)
  next_token-name TokKind.lt text line col e = (refl, refl)
  next_token-name TokKind.gt text line col e = (refl, refl)
  next_token-name TokKind.le text line col e = (refl, refl)
  next_token-name TokKind.ge text line col e = (refl, refl)
  next_token-name TokKind.eq text line col e = (refl, refl)
  next_token-name TokKind.ne text line col e = (refl, refl)
  next_token-name TokKind.and_kind text line col e = (refl, refl)
  next_token-name TokKind.or_kind text line col e = (refl, refl)
  next_token-name TokKind.not_kind text line col e = (refl, refl)
  next_token-name TokKind.amd_amp text line col e = (refl, refl)
  next_token-name TokKind.pipe_pipe text line col e = (refl, refl)
  next_token-name TokKind.assign text line col e = (refl, refl)
  next_token-name TokKind.super_assign text line col e = (refl, refl)
  next_token-name TokKind.right_assign text line col e = (refl, refl)
  next_token-name TokKind.right_super_assign text line col e = (refl, refl)
  next_token-name TokKind.equal text line col e = (refl, refl)
  next_token-name TokKind.colon text line col e = (refl, refl)
  next_token-name TokKind.dollar text line col e = (refl, refl)
  next_token-name TokKind.at text line col e = (refl, refl)
  next_token-name TokKind.question text line col e = (refl, refl)
  next_token-name TokKind.tilde text line col e = (refl, refl)
  next_token-name TokKind.kw_function text line col e =
      word-ReadsKind _ (tok_name TokKind.kw_function) text line col refl refl
  next_token-name TokKind.kw_if text line col e =
      word-ReadsKind _ (tok_name TokKind.kw_if) text line col refl refl
  next_token-name TokKind.kw_else text line col e =
      word-ReadsKind _ (tok_name TokKind.kw_else) text line col refl refl
  next_token-name TokKind.kw_for text line col e =
      word-ReadsKind _ (tok_name TokKind.kw_for) text line col refl refl
  next_token-name TokKind.kw_while text line col e =
      word-ReadsKind _ (tok_name TokKind.kw_while) text line col refl refl
  next_token-name TokKind.kw_repeat text line col e =
      word-ReadsKind _ (tok_name TokKind.kw_repeat) text line col refl refl
  next_token-name TokKind.kw_break text line col e =
      word-ReadsKind _ (tok_name TokKind.kw_break) text line col refl refl
  next_token-name TokKind.kw_next text line col e =
      word-ReadsKind _ (tok_name TokKind.kw_next) text line col refl refl
  next_token-name TokKind.kw_return text line col e =
      word-ReadsKind _ (tok_name TokKind.kw_return) text line col refl refl
  next_token-name TokKind.kw_in text line col e =
      word-ReadsKind _ (tok_name TokKind.kw_in) text line col refl refl
  next_token-name TokKind.kw_null text line col e =
      word-ReadsKind _ (tok_name TokKind.kw_null) text line col refl refl
  next_token-name TokKind.kw_true text line col e =
      word-ReadsKind _ (tok_name TokKind.kw_true) text line col refl refl
  next_token-name TokKind.kw_false text line col e =
      word-ReadsKind _ (tok_name TokKind.kw_false) text line col refl refl
  next_token-name TokKind.kw_na text line col e =
      word-ReadsKind _ (tok_name TokKind.kw_na) text line col refl refl
  next_token-name TokKind.kw_na_int text line col e =
      word-ReadsKind _ (tok_name TokKind.kw_na_int) text line col refl refl
  next_token-name TokKind.kw_na_real text line col e =
      word-ReadsKind _ (tok_name TokKind.kw_na_real) text line col refl refl
  next_token-name TokKind.kw_na_string text line col e =
      word-ReadsKind _ (tok_name TokKind.kw_na_string) text line col refl refl
  next_token-name TokKind.kw_inf text line col e =
      word-ReadsKind _ (tok_name TokKind.kw_inf) text line col refl refl
  next_token-name TokKind.kw_nan text line col e =
      word-ReadsKind _ (tok_name TokKind.kw_nan) text line col refl refl
  next_token-name TokKind.kw_quote text line col e =
      word-ReadsKind _ (tok_name TokKind.kw_quote) text line col refl refl
  next_token-name TokKind.kw_missing text line col e =
      word-ReadsKind _ (tok_name TokKind.kw_missing) text line col refl refl
