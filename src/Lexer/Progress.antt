-- ===== src/Lexer/Progress.antt =====
-- src/frontend/lexer.cpp: what each scanner does with the cursor.
use r_sjit.Common.{
  ℕ, zero, suc, ◌≡◌, refl, Bool, true, false, ◌==◌, List, [], ◌∷◌, if◌then◌else◌, length,
  Bool-cases, inl, inr,
}
use r_sjit.Lexer.Tokens.{codes, TokKind, Token, is_eof}
use r_sjit.Lexer.Place.{
  Cursor, next_is, holds_at, peek, advance, advance_from, scan_while, advance_while, is_ident_cont,
  next_line, next_col,
}
use r_sjit.Lexer.Scan.{text_between, Lexed, lexed, lex_error, LexReason, token_at, fail}
use r_sjit.Lexer.Words.{
  Reading, string_round, string_rounds, is_reading, read_string, opened, string_token, lex_string,
  read_hex, lex_ident_or_keyword, keyword, same_text, word_token, lex_backtick, backtick_token,
  not_backtick,
}
use r_sjit.Lexer.Operators.{
  one, two, after_minus, after_lt_lt, after_lt, single, operator_at, lex_operator,
}
use r_sjit.Lexer.Reach.{
  Reaches, here, further, Reaches-trans, advance_while-Reaches, scan_while-Reaches,
}

-- The token is not the end and has the place `from`, and the cursor after it is reached from `to`; an exception
-- has the place of a cursor that is reached from `to`.
unfoldable pub Moves : Cursor → Cursor → Lexed Token → Type 0
Moves from to (lexed t after) =
    Reaches to after × (t.line ≡ from.line) × (t.column ≡ from.col) × (is_eof t.kind ≡ false)
Moves from to (lex_error reason line col) =
    (at : Cursor) × Reaches to at × (line ≡ at.line) × (col ≡ at.col)

pub if-Moves :
    (from to : Cursor) (t : Bool) (left right : Lexed Token)
    → Moves from to left
    → Moves from to right
    → Moves from to (if t then left else right)
if-Moves from to true left right l r = l
if-Moves from to false left right l r = r

Moves-further :
    (from to to2 : Cursor) (r : Lexed Token) → Reaches to to2 → Moves from to2 r → Moves from to r
unfolding Moves
Moves-further from to to2 (lexed t after) more m = (Reaches-trans more m.0, m.1, m.2, m.3)
Moves-further from to to2 (lex_error reason line col) more m =
    (m.0, Reaches-trans more m.1, m.2, m.3)

fail-Moves : (reason : LexReason) (from to : Cursor) → Moves from to (fail reason to)
unfolding Moves
fail-Moves reason from to = (to, here, refl, refl)

one-Moves :
    (kind : TokKind) → is_eof kind ≡ false → (from to : Cursor) → Moves from to (one kind from to)
unfolding Moves one token_at
one-Moves kind e from to = (here, refl, refl, e)

-- The same past one more byte.
one-Moves_next :
    (kind : TokKind)
    → is_eof kind ≡ false
    → (from to : Cursor) → Moves from to (one kind from (advance to))
unfolding Moves one token_at
one-Moves_next kind e from to = (further here, refl, refl, e)

two-Moves :
    (second : ℕ) (two_kind one_kind : TokKind)
    → is_eof two_kind ≡ false
    → is_eof one_kind ≡ false
    → (from to : Cursor) → Moves from to (two second two_kind one_kind from to)
unfolding two
two-Moves second two_kind one_kind e f from to =
    if-Moves _ _ (peek 0 to == second) _ _ (one-Moves_next two_kind e from to)
      (one-Moves one_kind f from to)

after_minus-Moves : (from to : Cursor) → Moves from to (after_minus from to)
unfolding after_minus is_eof
after_minus-Moves from to =
    if-Moves _ _ (peek 0 to == b'>') _ _
      (Moves-further _ _ _ _ (further here) (two-Moves b'>' _ _ refl refl from (advance to)))
      (one-Moves _ refl from to)

after_lt-Moves : (from to : Cursor) → Moves from to (after_lt from to)
unfolding after_lt after_lt_lt is_eof
after_lt-Moves from to =
    if-Moves _ _ (peek 0 to == b'<') _ _
      (Moves-further _ _ _ _ (further here) (
        if-Moves _ _ (peek 0 (advance to) == b'-') _ _ (one-Moves_next _ refl from (advance to))
          (fail-Moves _ from (advance to))))
      (if-Moves _ _ (peek 0 to == b'=') _ _ (one-Moves_next _ refl from to) (
        if-Moves _ _ (peek 0 to == b'-') _ _ (one-Moves_next _ refl from to)
          (one-Moves _ refl from to)))

single-Moves : (c : ℕ) (from to : Cursor) → Moves from to (single c from to)
unfolding single is_eof
single-Moves c from to = if-Moves _ _ (c == b'(') _ _ (one-Moves _ refl from to) (
    if-Moves _ _ (c == b')') _ _ (one-Moves _ refl from to) (
      if-Moves _ _ (c == b'{') _ _ (one-Moves _ refl from to) (
        if-Moves _ _ (c == b'}') _ _ (one-Moves _ refl from to) (
          if-Moves _ _ (c == b',') _ _ (one-Moves _ refl from to) (
            if-Moves _ _ (c == b';') _ _ (one-Moves _ refl from to) (
              if-Moves _ _ (c == b'+') _ _ (one-Moves _ refl from to) (
                if-Moves _ _ (c == b'*') _ _ (one-Moves _ refl from to) (
                  if-Moves _ _ (c == b'/') _ _ (one-Moves _ refl from to) (
                    if-Moves _ _ (c == b'^') _ _ (one-Moves _ refl from to) (
                      if-Moves _ _ (c == b':') _ _ (one-Moves _ refl from to) (
                        if-Moves _ _ (c == b'$') _ _ (one-Moves _ refl from to) (
                          if-Moves _ _ (c == b'@') _ _ (one-Moves _ refl from to) (
                            if-Moves _ _ (c == b'?') _ _ (one-Moves _ refl from to) (
                              if-Moves _ _ (c == b'~') _ _ (one-Moves _ refl from to)
                                (fail-Moves _ from to)))))))))))))))

operator_at-Moves : (c : ℕ) (from to : Cursor) → Moves from to (operator_at c from to)
unfolding operator_at is_eof
operator_at-Moves c from to = if-Moves _ _ (c == b'[') _ _ (two-Moves _ _ _ refl refl from to) (
    if-Moves _ _ (c == b']') _ _ (two-Moves _ _ _ refl refl from to) (
      if-Moves _ _ (c == b'-') _ _ (after_minus-Moves from to) (
        if-Moves _ _ (c == b'<') _ _ (after_lt-Moves from to) (
          if-Moves _ _ (c == b'>') _ _ (two-Moves _ _ _ refl refl from to) (
            if-Moves _ _ (c == b'=') _ _ (two-Moves _ _ _ refl refl from to) (
              if-Moves _ _ (c == b'!') _ _ (two-Moves _ _ _ refl refl from to) (
                if-Moves _ _ (c == b'&') _ _ (two-Moves _ _ _ refl refl from to) (
                  if-Moves _ _ (c == b'|') _ _ (two-Moves _ _ _ refl refl from to)
                    (single-Moves c from to)))))))))

pub lex_operator-Moves : (a : Cursor) → Moves a (advance a) (lex_operator a)
unfolding lex_operator
lex_operator-Moves a = operator_at-Moves (peek 0 a) a (advance a)

pub if-Reading :
    (a : Cursor) (t : Bool) (left right : Reading)
    → Reaches a left.place
    → Reaches a right.place
    → Reaches a (if t then left else right).place
if-Reading a true left right l r = l
if-Reading a false left right l r = r

string_round-Reaches : (quote c : ℕ) (r : Reading) → Reaches r.place (string_round quote c r).place
unfolding string_round read_hex
string_round-Reaches quote c r =
    if-Reading _ r.escaped _ _
      (if-Reading _ (c == b'x') _ _ (further (further (further here))) (further here))
      (if-Reading _ (c == b'\\') _ _ (further here)
        (if-Reading _ (c == quote) _ _ (further here) (further here)))

string_rounds-Reaches :
    (fuel quote : ℕ) (r : Reading) → Reaches r.place (string_rounds fuel quote r).place
unfolding string_rounds
string_rounds-Reaches zero quote r = here
string_rounds-Reaches (suc fuel) quote r = elim (Bool-cases (is_reading r)) [
  | inl e ↦
      rw (string_rounds, e)
        (Reaches-trans (string_round-Reaches quote (peek 0 r.place) r)
          (string_rounds-Reaches fuel quote (string_round quote (peek 0 r.place) r)))
  | inr e ↦ rw (string_rounds, e) here
]

pub lex_string-Moves : (a : Cursor) → Moves a (advance a) (lex_string a)
unfolding Moves lex_string string_token token_at read_string opened is_eof
lex_string-Moves a = (string_rounds-Reaches (length a.rest) (peek 0 a) (opened a), refl, refl, refl)

pub lex_backtick-Moves : (a : Cursor) → Moves a (advance a) (lex_backtick a)
unfolding Moves lex_backtick backtick_token token_at is_eof
lex_backtick-Moves a = (further (advance_while-Reaches not_backtick (advance a)), refl, refl, refl)

scan_while-first :
    (p : ℕ → Bool) (text : List ℕ) (line col : ℕ)
    → holds_at p text ≡ true
    → Reaches (advance_from text line col) (scan_while p text line col)
unfolding holds_at advance_from scan_while
scan_while-first p [] line col e = absurd (cc)
scan_while-first p (c ∷ cs) line col e =
    rw (e) (scan_while-Reaches p cs (next_line c line) (next_col c col))

-- A loop that starts at a byte of its class goes past it.
pub advance_while-first :
    (p : ℕ → Bool) (a : Cursor) → next_is p a ≡ true → Reaches (advance a) (advance_while p a)
unfolding next_is advance_while advance
advance_while-first p a e = scan_while-first p a.rest a.line a.col e

if-not_eof :
    (t : Bool) (left right : TokKind)
    → is_eof left ≡ false
    → is_eof right ≡ false
    → is_eof (if t then left else right) ≡ false
if-not_eof true left right l r = l
if-not_eof false left right l r = r

keyword-not_eof : (name : List ℕ) → is_eof (keyword name) ≡ false
unfolding keyword is_eof
keyword-not_eof name =
    (if-not_eof (same_text name (codes "function")) _ _ refl (
      if-not_eof (same_text name (codes "if")) _ _ refl (
        if-not_eof (same_text name (codes "else")) _ _ refl (
          if-not_eof (same_text name (codes "for")) _ _ refl (
            if-not_eof (same_text name (codes "while")) _ _ refl (
              if-not_eof (same_text name (codes "repeat")) _ _ refl (
                if-not_eof (same_text name (codes "break")) _ _ refl (
                  if-not_eof (same_text name (codes "next")) _ _ refl (
                    if-not_eof (same_text name (codes "return")) _ _ refl (
                      if-not_eof (same_text name (codes "in")) _ _ refl (
                        if-not_eof (same_text name (codes "NULL")) _ _ refl (
                          if-not_eof (same_text name (codes "TRUE")) _ _ refl (
                            if-not_eof (same_text name (codes "FALSE")) _ _ refl (
                              if-not_eof (same_text name (codes "NA")) _ _ refl (
                                if-not_eof (same_text name (codes "NA_integer_")) _ _ refl (
                                  if-not_eof (same_text name (codes "NA_real_")) _ _ refl (
                                    if-not_eof (same_text name (codes "NA_character_")) _ _ refl (
                                      if-not_eof (same_text name (codes "Inf")) _ _ refl (
                                        if-not_eof (same_text name (codes "NaN")) _ _ refl (
                                          if-not_eof (same_text name (codes "quote")) _ _ refl (
                                            if-not_eof (same_text name (codes "missing")) _ _ refl (
                                              if-not_eof (same_text name (codes "T")) _ _ refl (
                                                if-not_eof (same_text name (codes "F")) _ _ refl
                                                  refl)))))))))))))))))))))))

pub lex_ident_or_keyword-Moves :
    (a : Cursor) → next_is is_ident_cont a ≡ true → Moves a (advance a) (lex_ident_or_keyword a)
unfolding Moves lex_ident_or_keyword word_token token_at
lex_ident_or_keyword-Moves a e = (
  advance_while-first is_ident_cont a e,
  refl,
  refl,
  keyword-not_eof (text_between a (advance_while is_ident_cont a)),
)
