-- ===== src/Parser/State.antt =====
-- src/frontend/parser.cpp: the tokens that are left, and results with errors.
--
-- The state is the list of the tokens from `pos_` on. `last` is `toks_.back()`, which is the end
-- token when the tokens are those of the lexer.
use r_sjit.Common.{ℕ, Bool, ◌||◌, ◌==◌, List, [], ◌∷◌, if◌then◌else◌, get_or}
use r_sjit.Lexer.Tokens.{TokKind, Token, kind_code}

pub data ParseReason : Type 0 where
  -- What `expect` wants and what there is.
  expected : TokKind → TokKind → ParseReason
  statement_separator : TokKind → ParseReason
  block_separator after_dollar after_at parameter_name for_variable : ParseReason
  unexpected_token : TokKind → ParseReason

-- A value with the tokens after it, or the exception with its line and column.
pub data Parsed (A : Type 0) : Type 0 where
  parsed : A → List Token → Parsed A
  parse_error : ParseReason → ℕ → ℕ → Parsed A
  out_of_fuel : Parsed A

infixl 1 ◌▷◌
abbrev pub ◌▷◌ : {A B : Type 0} → Parsed A → (A → List Token → Parsed B) → Parsed B
parsed a ts ▷ f = f a ts
parse_error reason line col ▷ f = parse_error reason line col
out_of_fuel ▷ f = out_of_fuel

unfoldable pub advance : List Token → List Token
advance [] = []
advance (t ∷ ts) = ts

module _ (last : Token) where
  unfoldable pub peek : ℕ → List Token → Token
  peek ahead ts = get_or ts ahead last

  abbrev pub kind : List Token → TokKind
  kind ts = (peek 0 ts).kind

  unfoldable pub at : TokKind → List Token → Bool
  unfolding peek kind_code
  at k ts = kind_code (peek 0 ts).kind == kind_code k

  unfoldable pub error : {A : Type 0} → ParseReason → List Token → Parsed A
  unfolding peek
  error reason ts = parse_error reason (peek 0 ts).line (peek 0 ts).column

  unfoldable pub expect : TokKind → List Token → Parsed Unit
  unfolding at error peek
  expect k ts = if at k ts then parsed tt (advance ts) else error (expected k (peek 0 ts).kind) ts

-- `while (peek().kind == TokKind::Newline || peek().kind == TokKind::Semicolon) advance();`
unfoldable pub skip_newlines : List Token → List Token
unfolding kind_code
skip_newlines [] = []
skip_newlines (t ∷ ts) =
    let more = skip_newlines ts in
    if kind_code t.kind == kind_code TokKind.newline
      || kind_code t.kind == kind_code TokKind.semicolon
    then more
    else t ∷ ts

-- `while (peek().kind == TokKind::Newline) advance();`
unfoldable pub skip_newlines_only : List Token → List Token
unfolding kind_code
skip_newlines_only [] = []
skip_newlines_only (t ∷ ts) =
    let more = skip_newlines_only ts in
    if kind_code t.kind == kind_code TokKind.newline then more else t ∷ ts
