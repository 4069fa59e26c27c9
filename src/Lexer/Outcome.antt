-- ===== src/Lexer/Outcome.antt =====
-- src/frontend/lexer.cpp: what `next_token` and `lex_all` give.
use r_sjit.Common.{
  ℕ, zero, suc, ◌<◌, ◌≡◌, refl, ◌⊎◌, ◌||◌, ◌&&◌, Bool, true, false, ◌==◌, List, [], ◌∷◌,
  if◌then◌else◌, length, arith, inl, inr, All,
}
use r_sjit.Lexer.{
  token_from, token_at_rest, token_here, next_token, lex_loop, lex_all, TokenStream, tokens, failed,
  out_of_fuel, with_token, unless_eof, after_token,
}
use r_sjit.Lexer.Tokens.{Token, is_eof}
use r_sjit.Lexer.Place.{
  Cursor, next_is, holds_at, start, peek, advance, is_digit, is_ident_start, is_ident_cont,
  skip_whitespace_and_comments,
}
use r_sjit.Lexer.Scan.{Lexed, lexed, lex_error, token_at}
use r_sjit.Lexer.Reach.{
  Reaches, here, further, Reaches-trans, skip_whitespace_and_comments-Reaches, length-advance,
  Reaches-length_le,
}
use r_sjit.Lexer.Progress.{
  Moves, if-Moves, lex_operator-Moves, lex_string-Moves, lex_backtick-Moves,
  lex_ident_or_keyword-Moves,
}
use r_sjit.Lexer.Numbers.{lex_number-Moves}

-- A branch may use its test.
if-Moves_of :
    (from to : Cursor) (t : Bool) (left right : Lexed Token)
    → (t ≡ true → Moves from to left)
    → Moves from to right
    → Moves from to (if t then left else right)
if-Moves_of from to true left right l r = l refl
if-Moves_of from to false left right l r = r

number_start :
    (c : ℕ) (cs : List ℕ) (more : Bool)
    → (is_digit c || (c == b'.' && more)) ≡ true
    → (holds_at is_digit (c ∷ cs) ≡ true) ⊎ (holds_at (λ d. d == b'.') (c ∷ cs) ≡ true)
unfolding holds_at
number_start c cs more e = ground arith

word_start : (c : ℕ) → is_ident_start c ≡ true → is_ident_cont c ≡ true
word_start c e = rw (e) refl

-- A place in the text that starts at `a`.
unfoldable pub At : Cursor → ℕ → ℕ → Type 0
At a line col = (b : Cursor) × Reaches a b × (line ≡ b.line) × (col ≡ b.col)

pub At-further : {a b : Cursor} (line col : ℕ) → Reaches a b → At b line col → At a line col
unfolding At
At-further line col more h = (h.0, Reaches-trans more h.1, h.2, h.3)

-- The list has one end token, which is its last.
unfoldable pub Ends : List Token → Type 0
Ends [] = ⊥
Ends (t ∷ ts) = ((is_eof t.kind ≡ true) × (ts ≡ [])) ⊎ ((is_eof t.kind ≡ false) × Ends ts)

unfoldable pub Placed : Cursor → TokenStream → Type 0
unfolding At
Placed a (tokens ts) = Ends ts × All (λ t. At a t.line t.column) ts
Placed a (failed reason line col) = At a line col
Placed a out_of_fuel = ⊥

with_token-Placed :
    (a b : Cursor) (t : Token) (s : TokenStream)
    → Reaches a b
    → is_eof t.kind ≡ false
    → At a t.line t.column
    → Placed b s
    → Placed a (with_token t s)
unfolding Placed with_token Ends
with_token-Placed a b t (tokens ts) more e place h = (inr (e, h.0), (place, places ts h.1))
  where
    places :
        (us : List Token) → All (λ u. At b u.line u.column) us → All (λ u. At a u.line u.column) us
    places [] q = tt
    places (u ∷ us) q = (At-further _ _ more q.0, places us q.1)
with_token-Placed a b t (failed reason line col) more e place h = At-further _ _ more h
with_token-Placed a b t out_of_fuel more e place h = h

module _ (strtod : List ℕ → ℕ) where
  token_from-Moves :
      (a : Cursor) (c : ℕ) (cs : List ℕ)
      → a.rest ≡ c ∷ cs
      → Moves a (advance a) (token_from strtod c a)
  unfolding token_from Moves token_at is_eof next_is holds_at
  token_from-Moves a c cs e =
      if-Moves a (advance a) (c == b'\n') _ _ (here, refl, refl, refl)
        (if-Moves_of a (advance a) (is_digit c || (c == b'.' && is_digit (peek 1 a))) _ _
          (λ n. lex_number-Moves strtod a (rw (e) (number_start c cs (is_digit (peek 1 a)) n)))
          (if-Moves a (advance a) (c == b'"' || c == b'\'') _ _ (lex_string-Moves a) (
            if-Moves a (advance a) (c == b'`') _ _ (lex_backtick-Moves a) (
              if-Moves_of a (advance a) (is_ident_start c) _ _
                (λ w. lex_ident_or_keyword-Moves a (rw (e) (word_start c w)))
                (lex_operator-Moves a)))))

  -- What one token does in the loop, where `b` is the place after the blanks.
  unfoldable pub Result : Cursor → Cursor → Lexed Token → Type 0
  unfolding At
  Result a b (lexed t after) =
      (Reaches a b × (t.line ≡ b.line) × (t.column ≡ b.col))
      × ((is_eof t.kind ≡ true)
          ⊎ ((is_eof t.kind ≡ false) × Reaches a after × (length after.rest < length a.rest)))
  Result a b (lex_error reason line col) = At a line col

  Moves-Result :
      (a b : Cursor) (c : ℕ) (cs : List ℕ) (r : Lexed Token)
      → b.rest ≡ c ∷ cs
      → Reaches a b
      → Moves b (advance b) r
      → Result a b r
  unfolding Result Moves At
  Moves-Result a b c cs (lexed t after) e more m = (
    (more, m.1, m.2),
    inr (
      m.3,
      Reaches-trans more (Reaches-trans (further here) m.0),
      omega (arith, length-advance b c cs e, Reaches-length_le m.0, Reaches-length_le more),
    ),
  )
  Moves-Result a b c cs (lex_error reason line col) e more m =
      (m.0, Reaches-trans more (Reaches-trans (further here) m.1), m.2, m.3)

  token_at_rest-Result :
      (a b : Cursor) (text : List ℕ)
      → b.rest ≡ text
      → Reaches a b
      → Result a b (token_at_rest strtod text b)
  unfolding token_at_rest Result At token_at is_eof
  token_at_rest-Result a b [] e more = ((more, refl, refl), inl refl)
  token_at_rest-Result a b (c ∷ cs) e more =
      Moves-Result a b c cs (token_from strtod c b) e more (token_from-Moves b c cs e)

  pub next_token-Result :
      (a : Cursor) → Result a (skip_whitespace_and_comments a) (next_token strtod a)
  unfolding next_token token_here
  next_token-Result a =
      token_at_rest-Result a (skip_whitespace_and_comments a) _ refl
        (skip_whitespace_and_comments-Reaches a)

  unless_eof-Placed :
      (more : Cursor → TokenStream) (a b after : Cursor) (t : Token) (last : Bool)
      → is_eof t.kind ≡ last
      → Result a b (lexed t after)
      → ((b : Cursor) → length b.rest < length a.rest → Placed b (more b))
      → Placed a (unless_eof more last t after)
  unfolding unless_eof Result Placed Ends At
  unless_eof-Placed more a b after t true e r h = (inl (e, refl), ((b, r.0.0, r.0.1, r.0.2), tt))
  unless_eof-Placed more a b after t false e r h = elim (r.1) [
    | inl eof ↦ absurd (cc)
    | inr go ↦
        with_token-Placed a after t (more after) go.1 e (b, r.0.0, r.0.1, r.0.2) (h after go.2)
  ]

  after_token-Placed :
      (more : Cursor → TokenStream) (a b : Cursor) (r : Lexed Token)
      → Result a b r
      → ((b : Cursor) → length b.rest < length a.rest → Placed b (more b))
      → Placed a (after_token more r)
  unfolding after_token Placed Result
  after_token-Placed more a b (lexed t after) r h =
      unless_eof-Placed more a b after t (is_eof t.kind) refl r h
  after_token-Placed more a b (lex_error reason line col) r h = r

  lex_loop-Placed :
      (fuel : ℕ) (a : Cursor) → length a.rest < fuel → Placed a (lex_loop strtod fuel a)
  unfolding lex_loop
  lex_loop-Placed zero a e = absurd (omega arith)
  lex_loop-Placed (suc fuel) a e =
      after_token-Placed (lex_loop strtod fuel) a (skip_whitespace_and_comments a)
        (next_token strtod a) (next_token-Result a) (λ b l. lex_loop-Placed fuel b (omega arith))

  pub lex_all-Placed : (src : List ℕ) → Placed (start src) (lex_all strtod src)
  unfolding lex_all start
  lex_all-Placed src = lex_loop-Placed (suc (length src)) (start src) (omega arith)
