-- ===== src/Lexer/Tokens.antt =====
-- include/rjit/frontend/token.hpp, src/frontend/lexer.cpp: the tokens and their names.
use Prim.Native.Char.{code}
use Prim.Native.String.{String}
use r_sjit.Common.{ℕ, Bool, true, false, List, [], ◌∷◌}
use r_sjit.Common.Int.{ℤ}

-- `enum class TokKind`
pub data TokKind : Type 0 where
  eof : TokKind
  real integer complex string ident backtick_ident : TokKind
  l_paren r_paren l_brace r_brace l_bracket r_bracket : TokKind
  double_l_bracket double_r_bracket comma semicolon : TokKind
  plus minus star slash caret lt gt le ge eq ne : TokKind
  and_kind or_kind not_kind amd_amp pipe_pipe : TokKind
  assign super_assign right_assign right_super_assign equal : TokKind
  colon dollar at question tilde : TokKind
  kw_function kw_if kw_else kw_for kw_while kw_repeat : TokKind
  kw_break kw_next kw_return kw_in kw_null kw_true kw_false : TokKind
  kw_na kw_na_int kw_na_real kw_na_string kw_inf kw_nan : TokKind
  kw_quote kw_missing : TokKind
  newline : TokKind

-- The numbers of the enumeration.
unfoldable pub kind_code : TokKind → ℕ
kind_code TokKind.eof = 0
kind_code TokKind.real = 1
kind_code TokKind.integer = 2
kind_code TokKind.complex = 3
kind_code TokKind.string = 4
kind_code TokKind.ident = 5
kind_code TokKind.backtick_ident = 6
kind_code TokKind.l_paren = 7
kind_code TokKind.r_paren = 8
kind_code TokKind.l_brace = 9
kind_code TokKind.r_brace = 10
kind_code TokKind.l_bracket = 11
kind_code TokKind.r_bracket = 12
kind_code TokKind.double_l_bracket = 13
kind_code TokKind.double_r_bracket = 14
kind_code TokKind.comma = 15
kind_code TokKind.semicolon = 16
kind_code TokKind.plus = 17
kind_code TokKind.minus = 18
kind_code TokKind.star = 19
kind_code TokKind.slash = 20
kind_code TokKind.caret = 21
kind_code TokKind.lt = 22
kind_code TokKind.gt = 23
kind_code TokKind.le = 24
kind_code TokKind.ge = 25
kind_code TokKind.eq = 26
kind_code TokKind.ne = 27
kind_code TokKind.and_kind = 28
kind_code TokKind.or_kind = 29
kind_code TokKind.not_kind = 30
kind_code TokKind.amd_amp = 31
kind_code TokKind.pipe_pipe = 32
kind_code TokKind.assign = 33
kind_code TokKind.super_assign = 34
kind_code TokKind.right_assign = 35
kind_code TokKind.right_super_assign = 36
kind_code TokKind.equal = 37
kind_code TokKind.colon = 38
kind_code TokKind.dollar = 39
kind_code TokKind.at = 40
kind_code TokKind.question = 41
kind_code TokKind.tilde = 42
kind_code TokKind.kw_function = 43
kind_code TokKind.kw_if = 44
kind_code TokKind.kw_else = 45
kind_code TokKind.kw_for = 46
kind_code TokKind.kw_while = 47
kind_code TokKind.kw_repeat = 48
kind_code TokKind.kw_break = 49
kind_code TokKind.kw_next = 50
kind_code TokKind.kw_return = 51
kind_code TokKind.kw_in = 52
kind_code TokKind.kw_null = 53
kind_code TokKind.kw_true = 54
kind_code TokKind.kw_false = 55
kind_code TokKind.kw_na = 56
kind_code TokKind.kw_na_int = 57
kind_code TokKind.kw_na_real = 58
kind_code TokKind.kw_na_string = 59
kind_code TokKind.kw_inf = 60
kind_code TokKind.kw_nan = 61
kind_code TokKind.kw_quote = 62
kind_code TokKind.kw_missing = 63
kind_code TokKind.newline = 64

unfoldable pub is_eof : TokKind → Bool
is_eof TokKind.eof = true
is_eof _ = false

-- A text as its bytes.
abbrev pub codes : String → List ℕ
codes String.[] = []
codes (String.◌∷◌ c s) = code c ∷ codes s

unfoldable pub tok_name : TokKind → List ℕ
tok_name TokKind.eof = codes "eof"
tok_name TokKind.real = codes "real"
tok_name TokKind.integer = codes "integer"
tok_name TokKind.complex = codes "complex"
tok_name TokKind.string = codes "string"
tok_name TokKind.ident = codes "ident"
tok_name TokKind.backtick_ident = codes "backtick_ident"
tok_name TokKind.l_paren = codes "("
tok_name TokKind.r_paren = codes ")"
tok_name TokKind.l_brace = codes "{"
tok_name TokKind.r_brace = codes "}"
tok_name TokKind.l_bracket = codes "["
tok_name TokKind.r_bracket = codes "]"
tok_name TokKind.double_l_bracket = codes "[["
tok_name TokKind.double_r_bracket = codes "]]"
tok_name TokKind.comma = codes ","
tok_name TokKind.semicolon = codes ";"
tok_name TokKind.plus = codes "+"
tok_name TokKind.minus = codes "-"
tok_name TokKind.star = codes "*"
tok_name TokKind.slash = codes "/"
tok_name TokKind.caret = codes "^"
tok_name TokKind.lt = codes "<"
tok_name TokKind.gt = codes ">"
tok_name TokKind.le = codes "<="
tok_name TokKind.ge = codes ">="
tok_name TokKind.eq = codes "=="
tok_name TokKind.ne = codes "!="
tok_name TokKind.and_kind = codes "&&"
tok_name TokKind.or_kind = codes "||"
tok_name TokKind.not_kind = codes "!"
tok_name TokKind.amd_amp = codes "&"
tok_name TokKind.pipe_pipe = codes "|"
tok_name TokKind.assign = codes "<-"
tok_name TokKind.super_assign = codes "<<-"
tok_name TokKind.right_assign = codes "->"
tok_name TokKind.right_super_assign = codes "->>"
tok_name TokKind.equal = codes "="
tok_name TokKind.colon = codes ":"
tok_name TokKind.dollar = codes "$"
tok_name TokKind.at = codes "@"
tok_name TokKind.question = codes "?"
tok_name TokKind.tilde = codes "~"
tok_name TokKind.kw_function = codes "function"
tok_name TokKind.kw_if = codes "if"
tok_name TokKind.kw_else = codes "else"
tok_name TokKind.kw_for = codes "for"
tok_name TokKind.kw_while = codes "while"
tok_name TokKind.kw_repeat = codes "repeat"
tok_name TokKind.kw_break = codes "break"
tok_name TokKind.kw_next = codes "next"
tok_name TokKind.kw_return = codes "return"
tok_name TokKind.kw_in = codes "in"
tok_name TokKind.kw_null = codes "NULL"
tok_name TokKind.kw_true = codes "TRUE"
tok_name TokKind.kw_false = codes "FALSE"
tok_name TokKind.kw_na = codes "NA"
tok_name TokKind.kw_na_int = codes "NA_integer_"
tok_name TokKind.kw_na_real = codes "NA_real_"
tok_name TokKind.kw_na_string = codes "NA_character_"
tok_name TokKind.kw_inf = codes "Inf"
tok_name TokKind.kw_nan = codes "NaN"
tok_name TokKind.kw_quote = codes "quote"
tok_name TokKind.kw_missing = codes "missing"
tok_name TokKind.newline = codes "newline"

-- The union of `Token`: a double by its bits, or an integer.
pub data Number : Type 0 where
  real_val : ℕ → Number
  int_val : ℤ → Number

-- `struct Token`
pub record Token : Type 0 where
  pub kind : TokKind
  pub line : ℕ
  pub column : ℕ
  pub text : List ℕ
  pub number : Number
