-- ===== src/Lexer/Positions.antt =====
-- src/frontend/lexer.cpp: the lines and columns of the tokens, and the end of the loop.
use r_sjit.Common.{
  ℕ, zero, suc, ◌<◌, true, false, inl, inr, ◌+◌, ◌%◌, ◌≡◌, ◌≢◌, refl, ap, subst, ◌∙◌, Bool, ◌==◌,
  List, [], ◌∷◌, ◌++◌, if◌then◌else◌, length, arith, any, u32_size, ◌||◌, length-append,
}
use r_sjit.Lexer.{
  lex_all, lex_loop, next_token, after_token, unless_eof, with_token, TokenStream, tokens, failed,
  out_of_fuel,
}
use r_sjit.Lexer.Scan.{Lexed, lexed, lex_error}
use r_sjit.Lexer.Tokens.{Token, is_eof}
use r_sjit.Lexer.Place.{Cursor, start, advance, advance_from, skip_whitespace_and_comments}
use r_sjit.Lexer.Reach.{Reaches, Reaches-trans, here, further}
use r_sjit.Lexer.Outcome.{At, At-further, Ends, Placed, Result, next_token-Result, lex_all-Placed}

-- The number of newlines in a text.
pub newlines : List ℕ → ℕ
newlines [] = 0
newlines (c ∷ cs) = (if c == b'\n' then 1 else 0) + newlines cs

-- What follows the last newline of a text, or all of it.
pub last_line : List ℕ → List ℕ
last_line [] = []
last_line (c ∷ cs) =
    let rest = last_line cs in
    if any (λ d. d == b'\n') cs then rest else if c == b'\n' then cs else c ∷ cs

newlines-snoc :
    (text : List ℕ) (c : ℕ)
    → newlines (text ++ c ∷ []) ≡ newlines text + (if c == b'\n' then 1 else 0)
unfolding newlines
newlines-snoc [] c = omega arith
newlines-snoc (d ∷ text) c = omega (arith, newlines-snoc text c)

any-snoc : (p : ℕ → Bool) (text : List ℕ) (c : ℕ) → any p (text ++ c ∷ []) ≡ (any p text || p c)
any-snoc p [] c = ground arith
any-snoc p (d ∷ text) c = ground (arith, any-snoc p text c)

last_line-snoc :
    (text : List ℕ) (c : ℕ)
    → last_line (text ++ c ∷ []) ≡ (if c == b'\n' then [] else last_line text ++ c ∷ [])
unfolding last_line
last_line-snoc [] c = ground arith
last_line-snoc (d ∷ text) c =
    ground (arith, last_line-snoc text c, any-snoc (λ d. d == b'\n') text c)

-- The place after some part of the text, counted from 1, in 32 bits.
pub In : List ℕ → ℕ → ℕ → Type 0
In src line col =
    (before : List ℕ) × (after : List ℕ) × (src ≡ before ++ after)
    × (line ≡ suc (newlines before) % u32_size)
    × (col ≡ suc (length (last_line before)) % u32_size)

-- The place of the text before `rest`, counted in the same way.
pub Stamp : List ℕ → List ℕ → ℕ → ℕ → Type 0
Stamp src rest line col =
    (before : List ℕ) × (src ≡ before ++ rest)
    × (line ≡ suc (newlines before) % u32_size)
    × (col ≡ suc (length (last_line before)) % u32_size)

-- The same of a cursor, whose `rest` is what comes after.
Reads : List ℕ → Cursor → Type 0
Reads src b =
    (before : List ℕ) × (src ≡ before ++ b.rest)
    × (b.line ≡ suc (newlines before) % u32_size)
    × (b.col ≡ suc (length (last_line before)) % u32_size)

append_one : (xs ys : List ℕ) (c : ℕ) → xs ++ c ∷ ys ≡ (xs ++ c ∷ []) ++ ys
append_one [] ys c = refl
append_one (x ∷ xs) ys c = ap (λ zs. x ∷ zs) (append_one xs ys c)

Reads-advance_from :
    (src text : List ℕ) (line col : ℕ)
    → Reads src (record { rest = text; line = line; col = col })
    → Reads src (advance_from text line col)
unfolding Reads advance_from
Reads-advance_from src [] line col h = h
Reads-advance_from src (c ∷ cs) line col h =
    let before = h.0 in
    (
      before ++ c ∷ [],
      h.1 ∙ append_one before cs c,
      ground (arith, h.2, newlines-snoc before c),
      ground (arith, h.3, last_line-snoc before c, length-append (last_line before) (c ∷ [])),
    )

Reaches-Reads : (src : List ℕ) {b : Cursor} → Reaches (start src) b → Reads src b
unfolding start Reads newlines last_line advance
Reaches-Reads src here = ([], refl, refl, refl)
Reaches-Reads src (further {b} more) =
    Reads-advance_from src b.rest b.line b.col (Reaches-Reads src more)

At-In : (src : List ℕ) (line col : ℕ) → At (start src) line col → In src line col
unfolding At Reads In
At-In src line col h = let r = Reaches-Reads src h.1 in (r.0, h.0.rest, r.1, h.2 ∙ r.2, h.3 ∙ r.3)

module _ (strtod : List ℕ → ℕ) (src : List ℕ) where
  -- The tokens are read one after the other from `a`, and each has the line and the column of the
  -- place that the blanks and comments before it lead to.
  pub Stamps : Cursor → List Token → Type 0
  Stamps a [] = Unit
  Stamps a (t ∷ ts) =
      (after : Cursor) × (next_token strtod a ≡ lexed t after)
      × Stamp src (skip_whitespace_and_comments a).rest t.line t.column
      × Stamps after ts

  pub Positions : Cursor → TokenStream → Type 0
  Positions a (tokens ts) = Stamps a ts
  Positions a (failed reason line col) = In src line col
  Positions a out_of_fuel = ⊥

  Reaches-Stamp :
      (a b : Cursor) (line col : ℕ)
      → Reaches (start src) a
      → Reaches a b × (line ≡ b.line) × (col ≡ b.col)
      → Stamp src b.rest line col
  unfolding Stamp Reads
  Reaches-Stamp a b line col past h =
      let r = Reaches-Reads src (Reaches-trans past h.0) in (r.0, r.1, h.1 ∙ r.2, h.2 ∙ r.3)

  with_token-Positions :
      (a after : Cursor) (t : Token) (s : TokenStream)
      → next_token strtod a ≡ lexed t after
      → Stamp src (skip_whitespace_and_comments a).rest t.line t.column
      → Positions after s
      → Positions a (with_token t s)
  unfolding with_token Positions Stamps
  with_token-Positions a after t (tokens ts) e place h = (after, e, place, h)
  with_token-Positions a after t (failed reason line col) e place h = h
  with_token-Positions a after t out_of_fuel e place h = h

  unless_eof-Positions :
      (more : Cursor → TokenStream) (a after : Cursor) (t : Token) (last : Bool)
      → is_eof t.kind ≡ last
      → next_token strtod a ≡ lexed t after
      → Reaches (start src) a
      → Result strtod a (skip_whitespace_and_comments a) (lexed t after)
      → ((b : Cursor)
          → Reaches (start src) b
          → length b.rest < length a.rest
          → Positions b (more b))
      → Positions a (unless_eof more last t after)
  unfolding unless_eof Result Positions Stamps
  unless_eof-Positions more a after t true e n past r h =
      (after, n, Reaches-Stamp a _ t.line t.column past r.0, tt)
  unless_eof-Positions more a after t false e n past r h = elim (r.1) [
    | inl eof ↦ absurd (cc)
    | inr go ↦
        with_token-Positions a after t (more after) n (Reaches-Stamp a _ t.line t.column past r.0)
          (h after (Reaches-trans past go.1) go.2)
  ]

  after_token-Positions :
      (more : Cursor → TokenStream) (a : Cursor) (r : Lexed Token)
      → next_token strtod a ≡ r
      → Reaches (start src) a
      → Result strtod a (skip_whitespace_and_comments a) r
      → ((b : Cursor)
          → Reaches (start src) b
          → length b.rest < length a.rest
          → Positions b (more b))
      → Positions a (after_token more r)
  unfolding after_token Result Positions
  after_token-Positions more a (lexed t after) e past r h =
      unless_eof-Positions more a after t (is_eof t.kind) refl e past r h
  after_token-Positions more a (lex_error reason line col) e past r h =
      At-In src line col (At-further line col past r)

  lex_loop-Positions :
      (fuel : ℕ) (a : Cursor)
      → Reaches (start src) a
      → length a.rest < fuel
      → Positions a (lex_loop strtod fuel a)
  unfolding lex_loop
  lex_loop-Positions zero a past l = absurd (omega arith)
  lex_loop-Positions (suc fuel) a past l =
      after_token-Positions (lex_loop strtod fuel) a (next_token strtod a) refl past
        (next_token-Result strtod a) (λ b more k. lex_loop-Positions fuel b more (omega arith))

  -- For every text, the tokens of the lexer are those that `next_token` reads one after the other
  -- from the start, and each has the line and the column of its own first byte, which is after the
  -- blanks and comments that follow the token before it, counted from 1 in 32 bits by the newlines
  -- before that byte and the bytes since the last of them; an exception has the line and the
  -- column of some place in the text.
  pub lex_all-Positions : Positions (start src) (lex_all strtod src)
  unfolding lex_all start
  lex_all-Positions = lex_loop-Positions (suc (length src)) (start src) here (omega arith)

module _ (strtod : List ℕ → ℕ) where
  -- The lexer ends on every text.
  pub lex_all-terminates : (src : List ℕ) → lex_all strtod src ≢ out_of_fuel
  unfolding Placed
  lex_all-terminates src e = subst (Placed (start src)) e (lex_all-Placed strtod src)

  -- When the lexer gives tokens, exactly one of them is an end token, and it is the last.
  pub lex_all-Ends : (src : List ℕ) (ts : List Token) → lex_all strtod src ≡ tokens ts → Ends ts
  unfolding Placed
  lex_all-Ends src ts e = (subst (Placed (start src)) e (lex_all-Placed strtod src)).0
