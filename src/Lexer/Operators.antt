-- ===== src/Lexer/Operators.antt =====
-- src/frontend/lexer.cpp: operators and punctuation.
use r_sjit.Common.{ℕ, ◌==◌, if◌then◌else◌}
use r_sjit.Lexer.Tokens.{TokKind, Token}
use r_sjit.Lexer.Place.{Cursor, peek, advance}
use r_sjit.Lexer.Scan.{Lexed, lexed, LexReason, fail, token_at, plain}

-- `cur` is past the first byte, at `from`.
unfoldable pub one : TokKind → Cursor → Cursor → Lexed Token
unfolding token_at
one kind from cur = lexed (plain kind from) cur

unfoldable pub two : ℕ → TokKind → TokKind → Cursor → Cursor → Lexed Token
unfolding peek one
two second two_kind one_kind from cur =
    if peek 0 cur == second then one two_kind from (advance cur) else one one_kind from cur

unfoldable pub after_minus : Cursor → Cursor → Lexed Token
unfolding peek one two
after_minus from cur =
    if peek 0 cur == b'>'
    then two b'>' TokKind.right_super_assign TokKind.right_assign from (advance cur)
    else one TokKind.minus from cur

unfoldable pub after_lt_lt : Cursor → Cursor → Lexed Token
unfolding peek one
after_lt_lt from cur =
    if peek 0 cur == b'-'
    then one TokKind.super_assign from (advance cur)
    else fail LexReason.expected_assign cur

unfoldable pub after_lt : Cursor → Cursor → Lexed Token
unfolding peek one after_lt_lt
after_lt from cur =
    if peek 0 cur == b'<'
    then after_lt_lt from (advance cur)
    else if peek 0 cur == b'='
    then one TokKind.le from (advance cur)
    else if peek 0 cur == b'-'
    then one TokKind.assign from (advance cur)
    else one TokKind.lt from cur

-- The single bytes, and the error of `default`.
unfoldable pub single : ℕ → Cursor → Cursor → Lexed Token
unfolding one
single c from cur =
    if c == b'('
    then one TokKind.l_paren from cur
    else if c == b')'
    then one TokKind.r_paren from cur
    else if c == b'{'
    then one TokKind.l_brace from cur
    else if c == b'}'
    then one TokKind.r_brace from cur
    else if c == b','
    then one TokKind.comma from cur
    else if c == b';'
    then one TokKind.semicolon from cur
    else if c == b'+'
    then one TokKind.plus from cur
    else if c == b'*'
    then one TokKind.star from cur
    else if c == b'/'
    then one TokKind.slash from cur
    else if c == b'^'
    then one TokKind.caret from cur
    else if c == b':'
    then one TokKind.colon from cur
    else if c == b'$'
    then one TokKind.dollar from cur
    else if c == b'@'
    then one TokKind.at from cur
    else if c == b'?'
    then one TokKind.question from cur
    else if c == b'~'
    then one TokKind.tilde from cur
    else fail (LexReason.unexpected_character c) cur

unfoldable pub operator_at : ℕ → Cursor → Cursor → Lexed Token
unfolding two after_minus after_lt single
operator_at c from cur =
    if c == b'['
    then two b'[' TokKind.double_l_bracket TokKind.l_bracket from cur
    else if c == b']'
    then two b']' TokKind.double_r_bracket TokKind.r_bracket from cur
    else if c == b'-'
    then after_minus from cur
    else if c == b'<'
    then after_lt from cur
    else if c == b'>'
    then two b'=' TokKind.ge TokKind.gt from cur
    else if c == b'='
    then two b'=' TokKind.eq TokKind.equal from cur
    else if c == b'!'
    then two b'=' TokKind.ne TokKind.not_kind from cur
    else if c == b'&'
    then two b'&' TokKind.and_kind TokKind.amd_amp from cur
    else if c == b'|'
    then two b'|' TokKind.or_kind TokKind.pipe_pipe from cur
    else single c from cur

unfoldable pub lex_operator : Cursor → Lexed Token
unfolding peek operator_at
lex_operator cur = operator_at (peek 0 cur) cur (advance cur)
