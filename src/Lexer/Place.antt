-- ===== src/Lexer/Place.antt =====
-- src/frontend/lexer.cpp: the place in the text, and the loop over blanks and comments.
--
-- `rest` is the text from `pos_` on.
use r_sjit.Common.{
  ℕ, zero, suc, ◌%◌, Bool, true, false, not, ◌&&◌, ◌||◌, ◌==◌, List, [], ◌∷◌, if◌then◌else◌, length,
  get_or, u32_size, ltb, leb,
}
use r_sjit.Lexer.Tokens.{codes}

-- The fields of `class Lexer`.
pub record Cursor : Type 0 where
  pub rest : List ℕ
  pub line : ℕ
  pub col : ℕ

unfoldable pub start : List ℕ → Cursor
start src = record { rest = src; line = 1; col = 1 }

unfoldable pub next_line : ℕ → ℕ → ℕ
next_line c line = if c == b'\n' then suc line % u32_size else line

unfoldable pub next_col : ℕ → ℕ → ℕ
next_col c col = if c == b'\n' then 1 else suc col % u32_size

-- The byte that `advance` returns is `peek 0` before it.
unfoldable pub peek : ℕ → Cursor → ℕ
peek ahead cur = get_or cur.rest ahead 0

unfoldable pub advance_from : List ℕ → ℕ → ℕ → Cursor
unfolding next_line next_col
advance_from [] line col = record { rest = []; line = line; col = col }
advance_from (c ∷ cs) line col = record { rest = cs; line = next_line c line; col = next_col c col }

unfoldable pub advance : Cursor → Cursor
advance cur = advance_from cur.rest cur.line cur.col

unfoldable pub scan_while : (ℕ → Bool) → List ℕ → ℕ → ℕ → Cursor
unfolding next_line next_col
scan_while p [] line col = record { rest = []; line = line; col = col }
scan_while p (c ∷ cs) line col =
    let more = scan_while p cs (next_line c line) (next_col c col) in
    if p c then more else record { rest = c ∷ cs; line = line; col = col }

-- `while (pos_ < src_.size() && p(src_[pos_])) advance();`
unfoldable pub advance_while : (ℕ → Bool) → Cursor → Cursor
advance_while p cur = scan_while p cur.rest cur.line cur.col

unfoldable pub holds_at : (ℕ → Bool) → List ℕ → Bool
holds_at p [] = false
holds_at p (c ∷ _) = p c

-- `pos_ < src_.size() && p(src_[pos_])`
unfoldable pub next_is : (ℕ → Bool) → Cursor → Bool
unfolding holds_at
next_is p cur = holds_at p cur.rest

-- `isdigit`, `isxdigit` and `isalpha` of the C locale.
abbrev pub is_digit : ℕ → Bool
is_digit c = leb b'0' c && leb c b'9'

abbrev pub is_xdigit : ℕ → Bool
is_xdigit c = is_digit c || (leb b'a' c && leb c b'f') || (leb b'A' c && leb c b'F')

abbrev pub is_alpha : ℕ → Bool
is_alpha c = (leb b'a' c && leb c b'z') || (leb b'A' c && leb c b'Z')

abbrev pub is_ident_start : ℕ → Bool
is_ident_start c = is_alpha c || c == b'_' || c == b'.'

abbrev pub is_ident_cont : ℕ → Bool
is_ident_cont c = is_ident_start c || is_digit c

unfoldable pub starts_with : List ℕ → List ℕ → Bool
starts_with [] text = true
starts_with (p ∷ ps) [] = false
starts_with (p ∷ ps) (c ∷ cs) = let rest = starts_with ps cs in p == c && rest

abbrev pub in_line : ℕ → Bool
in_line c = not (c == b'\n')

-- To the end of the line and past its newline.
unfoldable pub skip_line : Cursor → Cursor
skip_line cur = advance (advance_while in_line cur)

unfoldable pub is_end_directive : List ℕ → Bool
unfolding starts_with
is_end_directive text = starts_with (codes "#!end") text && ltb 5 (length text)

-- Up to and with the line of `#!end`.
unfoldable pub skip_block : List ℕ → ℕ → ℕ → Cursor
unfolding next_line next_col
skip_block [] line col = record { rest = []; line = line; col = col }
skip_block (c ∷ cs) line col =
    let more = skip_block cs (next_line c line) (next_col c col) in
    if is_end_directive (c ∷ cs)
    then skip_line (record { rest = c ∷ cs; line = line; col = col })
    else more

unfoldable pub skip_from : Cursor → Cursor
skip_from cur = skip_block cur.rest cur.line cur.col

abbrev pub is_blank : ℕ → Bool
is_blank c = c == b' ' || c == b'\t' || c == b'\r'

-- What one round of the loop does at the byte `c`, which is blank or `#`.
unfoldable pub skip_one : ℕ → Cursor → Cursor
unfolding starts_with
skip_one c cur =
    if is_blank c
    then advance cur
    else if starts_with (codes "#!") cur.rest
    then if starts_with (codes "#!expect") cur.rest
      then skip_from (skip_line cur)
      else skip_line cur
    else advance_while in_line cur

-- Every round takes at least one byte, so the length of the text is enough fuel.
unfoldable pub skip_rounds : ℕ → Cursor → Cursor
skip_rounds zero cur = cur
skip_rounds (suc fuel) cur = elim (next_is (λ c. is_blank c || c == b'#') cur) [
  | true ↦ skip_rounds fuel (skip_one (peek 0 cur) cur)
  | false ↦ cur
]

unfoldable pub skip_whitespace_and_comments : Cursor → Cursor
skip_whitespace_and_comments cur = skip_rounds (length cur.rest) cur
