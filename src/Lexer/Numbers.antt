-- ===== src/Lexer/Numbers.antt =====
-- src/frontend/lexer.cpp: the bytes of a number.
use r_sjit.Common.{ℕ, ◌≡◌, refl, ◌⊎◌, ◌||◌, Bool, true, false, ◌==◌, List, [], ◌∷◌, arith, inl, inr}
use r_sjit.Lexer.Tokens.{is_eof}
use r_sjit.Lexer.Place.{
  Cursor, next_is, holds_at, advance, scan_while, advance_while, is_digit, is_xdigit,
}
use r_sjit.Lexer.Scan.{
  number_body, number_token, integer_token, double_token, lex_number, is_hex, lex_fraction,
  lex_exponent, skip_if, token_at,
}
use r_sjit.Lexer.Reach.{
  Reaches, here, further, Reaches-trans, reach_step, if-Reaches, advance_while-Reaches,
}
use r_sjit.Lexer.Progress.{Moves, if-Moves, advance_while-first}

skip_if-Reaches : (p : ℕ → Bool) (a : Cursor) → Reaches a (skip_if p a)
unfolding skip_if
skip_if-Reaches p a = if-Reaches (next_is p a) (further here) here

lex_exponent-Reaches : (a : Cursor) → Reaches a (lex_exponent a)
unfolding lex_exponent
lex_exponent-Reaches a =
    if-Reaches _
      (reach_step
        (Reaches-trans (skip_if-Reaches _ (advance a)) (advance_while-Reaches is_digit _)))
      here

lex_fraction-Reaches : (a : Cursor) → Reaches a (lex_fraction a)
unfolding lex_fraction
lex_fraction-Reaches a = if-Reaches _ (reach_step (advance_while-Reaches is_digit (advance a))) here

scan_while-none :
    (p : ℕ → Bool) (text : List ℕ) (line col : ℕ)
    → holds_at p text ≡ false
    → scan_while p text line col ≡ record { rest = text; line = line; col = col }
unfolding holds_at scan_while
scan_while-none p [] line col e = refl
scan_while-none p (c ∷ cs) line col e = rw (e) refl

pub advance_while-none : (p : ℕ → Bool) (a : Cursor) → next_is p a ≡ false → advance_while p a ≡ a
unfolding next_is advance_while
advance_while-none p a e = scan_while-none p a.rest a.line a.col e

holds_at-dot :
    (text : List ℕ) → holds_at (λ c. c == b'.') text ≡ true → holds_at is_digit text ≡ false
unfolding holds_at
holds_at-dot [] e = cc
holds_at-dot (c ∷ cs) e = ground arith

dot-not_digit : (a : Cursor) → next_is (λ c. c == b'.') a ≡ true → next_is is_digit a ≡ false
unfolding next_is
dot-not_digit a e = holds_at-dot a.rest e

-- At a digit, or at a dot, at least one byte is taken.
number_body-first :
    (a : Cursor)
    → (next_is is_digit a ≡ true) ⊎ (next_is (λ c. c == b'.') a ≡ true)
    → Reaches (advance a) (number_body a)
unfolding number_body lex_fraction
number_body-first a first =
    if-Reaches (is_hex a) (reach_step (advance_while-Reaches is_xdigit (advance (advance a))))
      (Reaches-trans digits (lex_exponent-Reaches _))
  where
    digits : Reaches (advance a) (lex_fraction (advance_while is_digit a))
    digits = elim first [
      | inl e ↦ Reaches-trans (advance_while-first is_digit a e) (lex_fraction-Reaches _)
      | inr e ↦
          rw (advance_while-none is_digit a (dot-not_digit a e), lex_fraction, e)
            (advance_while-Reaches is_digit (advance a))
    ]

module _ (strtod : List ℕ → ℕ) where
  pub lex_number-Moves :
      (a : Cursor)
      → (next_is is_digit a ≡ true) ⊎ (next_is (λ c. c == b'.') a ≡ true)
      → Moves a (advance a) (lex_number strtod a)
  unfolding lex_number number_token integer_token double_token Moves token_at is_eof
  lex_number-Moves a first =
      let body = number_body-first a first in
      if-Moves a (advance a) (next_is (λ c. c == b'L' || c == b'l') (number_body a)) _ _
        (further body, refl, refl, refl)
        (if-Moves a (advance a) (next_is (λ c. c == b'i') (number_body a)) _ _
          (further body, refl, refl, refl) (body, refl, refl, refl))
