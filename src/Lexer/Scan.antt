-- ===== src/Lexer/Scan.antt =====
-- src/frontend/lexer.cpp: one token of each class, from its first byte.
use r_sjit.Common.{
  ℕ, zero, suc, ◌+◌, ◌-◌, ◌*◌, ◌%◌, Bool, ◌&&◌, ◌||◌, ◌==◌, List, [], ◌∷◌, if◌then◌else◌, length,
  ltb, leb,
}
use r_sjit.Common.Int.{ℤ, pos}
use r_sjit.Lexer.Tokens.{TokKind, Number, real_val, int_val, Token}
use r_sjit.Lexer.Place.{Cursor, next_is, peek, advance, advance_while, is_digit, is_xdigit}

pub data LexReason : Type 0 where
  expected_assign : LexReason
  unexpected_character : ℕ → LexReason

-- A value with the cursor after it, or the exception with its line and column.
pub data Lexed {ℓ} (A : Type ℓ) : Type ℓ where
  lexed : A → Cursor → Lexed A
  lex_error : LexReason → ℕ → ℕ → Lexed A

abbrev pub fail {ℓ} : {A : Type ℓ} → LexReason → Cursor → Lexed A
fail reason cur = lex_error reason cur.line cur.col

-- `Token()` with the place of the cursor.
unfoldable pub token_at : TokKind → List ℕ → Number → Cursor → Token
token_at kind text number cur = record {
  kind = kind;
  line = cur.line;
  column = cur.col;
  text = text;
  number = number;
}

abbrev pub plain : TokKind → Cursor → Token
plain kind cur = token_at kind [] (real_val 0) cur

abbrev pub take : ℕ → List ℕ → List ℕ
take zero text = []
take (suc n) [] = []
take (suc n) (c ∷ cs) = c ∷ take n cs

-- `src_.substr(start, pos_ - start)`
unfoldable pub text_between : Cursor → Cursor → List ℕ
text_between from to = take (length from.rest - length to.rest) from.rest

-- The value of a digit of a base up to 16, and 16 for any other byte.
abbrev pub digit_value : ℕ → ℕ
digit_value c =
    if is_digit c
    then c - b'0'
    else if leb b'a' c && leb c b'f'
    then c - 87
    else if leb b'A' c && leb c b'F'
    then c - 55
    else 16

unfoldable pub digits : ℕ → ℕ → List ℕ → ℕ
digits base acc [] = acc
digits base acc (c ∷ cs) =
    let more = digits base (acc * base + digit_value c) cs in
    if ltb (digit_value c) base then more else acc

unfoldable pub skip_hex_prefix : List ℕ → List ℕ
skip_hex_prefix (z ∷ x ∷ text) =
    if z == b'0' && (x == b'x' || x == b'X') then text else z ∷ x ∷ text
skip_hex_prefix text = text

-- The digits at the front of a text without blanks and sign; base 16 allows `0x`.
unfoldable pub magnitude : ℕ → List ℕ → ℕ
unfolding digits skip_hex_prefix
magnitude base text = digits base 0 (if base == 16 then skip_hex_prefix text else text)

abbrev pub int64_max : ℕ
int64_max = 9223372036854775807

-- `strtoll` on a text that starts with a digit or a dot.
unfoldable pub strtoll : ℕ → List ℕ → ℤ
strtoll base text = let m = magnitude base text in pos (if ltb int64_max m then int64_max else m)

abbrev pub is_space : ℕ → Bool
is_space c = c == b' ' || (leb 9 c && leb c 13)

unfoldable pub skip_spaces : List ℕ → List ℕ
skip_spaces [] = []
skip_spaces (c ∷ cs) = let more = skip_spaces cs in if is_space c then more else c ∷ cs

unfoldable pub signed_byte : List ℕ → ℕ
signed_byte [] = 0
signed_byte (c ∷ cs) =
    if c == b'-'
    then (256 - magnitude 16 cs % 256) % 256
    else (if c == b'+' then magnitude 16 cs else magnitude 16 (c ∷ cs)) % 256

-- `static_cast<char>(strtol(hex, nullptr, 16))` for the two bytes after `\x`.
unfoldable pub hex_byte : ℕ → ℕ → ℕ
unfolding skip_spaces signed_byte
hex_byte a b = signed_byte (skip_spaces (a ∷ b ∷ []))

-- `if (pos_ < src_.size() && p(src_[pos_])) advance();`
unfoldable pub skip_if : (ℕ → Bool) → Cursor → Cursor
unfolding next_is
skip_if p cur = if next_is p cur then advance cur else cur

unfoldable pub lex_fraction : Cursor → Cursor
unfolding next_is
lex_fraction cur =
    if next_is (λ c. c == b'.') cur then advance_while is_digit (advance cur) else cur

unfoldable pub lex_exponent : Cursor → Cursor
unfolding next_is skip_if
lex_exponent cur =
    if next_is (λ c. c == b'e' || c == b'E') cur
    then advance_while is_digit (skip_if (λ c. c == b'+' || c == b'-') (advance cur))
    else cur

unfoldable pub is_hex : Cursor → Bool
unfolding peek
is_hex cur = peek 0 cur == b'0' && (peek 1 cur == b'x' || peek 1 cur == b'X')

unfoldable pub number_body : Cursor → Cursor
unfolding is_hex lex_fraction lex_exponent
number_body cur =
    if is_hex cur
    then advance_while is_xdigit (advance (advance cur))
    else lex_exponent (lex_fraction (advance_while is_digit cur))

module _ (strtod : List ℕ → ℕ) where
  unfoldable pub integer_number : Cursor → List ℕ → Number
  unfolding strtoll magnitude is_hex
  integer_number from text = int_val (if is_hex from then strtoll 16 text else strtoll 10 text)

  unfoldable pub integer_token : Cursor → Cursor → Lexed Token
  unfolding token_at text_between integer_number
  integer_token from after =
      let text = text_between from after in
      lexed (token_at TokKind.integer text (integer_number from text) from) after

  unfoldable pub double_token : TokKind → Cursor → Cursor → Lexed Token
  unfolding token_at text_between
  double_token kind from after =
      let text = text_between from after in
      lexed (token_at kind text (real_val (strtod text)) from) after

  -- `from` is the first byte of the number and `body` the place of its suffix.
  unfoldable pub number_token : Cursor → Cursor → Lexed Token
  unfolding next_is integer_token double_token
  number_token from body =
      if next_is (λ c. c == b'L' || c == b'l') body
      then integer_token from (advance body)
      else if next_is (λ c. c == b'i') body
      then double_token TokKind.complex from (advance body)
      else double_token TokKind.real from body

  unfoldable pub lex_number : Cursor → Lexed Token
  unfolding number_body
  lex_number cur = number_token cur (number_body cur)
