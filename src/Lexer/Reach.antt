-- ===== src/Lexer/Reach.antt =====
-- src/frontend/lexer.cpp: the cursor moves by `advance` alone.
use r_sjit.Common.{
  ℕ, zero, suc, ◌≤◌, ◌≡◌, refl, ◌||◌, Bool, true, false, ◌==◌, List, [], ◌∷◌, if◌then◌else◌, length,
  arith, Bool-cases, inl, inr,
}
use r_sjit.Lexer.Place.{
  Cursor, next_is, peek, advance, advance_from, scan_while, advance_while, skip_line, skip_block,
  skip_from, skip_one, skip_rounds, skip_whitespace_and_comments, in_line, is_end_directive,
  next_line, next_col, is_blank, starts_with,
}
use r_sjit.Lexer.Tokens.{codes}

-- Some number of steps of `advance`.
pub data Reaches (a : Cursor) : Cursor → Type 0 where
  here : Reaches a a
  further : {b : Cursor} → Reaches a b → Reaches a (advance b)

pub Reaches-trans : {a b c : Cursor} → Reaches a b → Reaches b c → Reaches a c
Reaches-trans first here = first
Reaches-trans first (further more) = further (Reaches-trans first more)

pub reach_step : {a b : Cursor} → Reaches (advance a) b → Reaches a b
reach_step more = Reaches-trans (further here) more

length-advance_le : (a : Cursor) → length (advance a).rest ≤ length a.rest
unfolding advance advance_from
length-advance_le a =
    elim (a.rest) as (λ text. length (advance_from text a.line a.col).rest ≤ length text) [
      | [] ↦ omega arith
      | c ∷ cs ↦ omega arith
    ]

-- Both branches of a test.
pub if-Reaches :
    (t : Bool) {a b c : Cursor} → Reaches a b → Reaches a c → Reaches a (if t then b else c)
if-Reaches true left right = left
if-Reaches false left right = right

pub Reaches-length_le : {a b : Cursor} → Reaches a b → length b.rest ≤ length a.rest
Reaches-length_le here = omega arith
Reaches-length_le (further {b} more) = omega (arith, Reaches-length_le more, length-advance_le b)

pub length-advance :
    (a : Cursor) (c : ℕ) (cs : List ℕ)
    → a.rest ≡ c ∷ cs
    → suc (length (advance a).rest) ≡ length a.rest
unfolding advance advance_from
length-advance a c cs e = rw (e) refl

pub scan_while-Reaches :
    (p : ℕ → Bool) (text : List ℕ) (line col : ℕ)
    → Reaches (record { rest = text; line = line; col = col }) (scan_while p text line col)
unfolding scan_while advance advance_from
scan_while-Reaches p [] line col = here
scan_while-Reaches p (c ∷ cs) line col =
    if-Reaches (p c) (reach_step (scan_while-Reaches p cs (next_line c line) (next_col c col))) here

pub advance_while-Reaches : (p : ℕ → Bool) (a : Cursor) → Reaches a (advance_while p a)
unfolding advance_while
advance_while-Reaches p a = scan_while-Reaches p a.rest a.line a.col

skip_line-Reaches : (a : Cursor) → Reaches a (skip_line a)
unfolding skip_line
skip_line-Reaches a = further (advance_while-Reaches in_line a)

skip_block-Reaches :
    (text : List ℕ) (line col : ℕ)
    → Reaches (record { rest = text; line = line; col = col }) (skip_block text line col)
unfolding skip_block advance advance_from
skip_block-Reaches [] line col = here
skip_block-Reaches (c ∷ cs) line col =
    if-Reaches (is_end_directive (c ∷ cs)) (skip_line-Reaches _)
      (reach_step (skip_block-Reaches cs (next_line c line) (next_col c col)))

pub skip_from-Reaches : (a : Cursor) → Reaches a (skip_from a)
unfolding skip_from
skip_from-Reaches a = skip_block-Reaches a.rest a.line a.col

skip_one-Reaches : (c : ℕ) (a : Cursor) → Reaches a (skip_one c a)
unfolding skip_one
skip_one-Reaches c a = if-Reaches (is_blank c) (further here) (
    if-Reaches (starts_with (codes "#!") a.rest)
      (if-Reaches (starts_with (codes "#!expect") a.rest)
        (Reaches-trans (skip_line-Reaches a) (skip_from-Reaches (skip_line a)))
        (skip_line-Reaches a))
      (advance_while-Reaches in_line a))

skip_rounds-Reaches : (fuel : ℕ) (a : Cursor) → Reaches a (skip_rounds fuel a)
unfolding skip_rounds
skip_rounds-Reaches zero a = here
skip_rounds-Reaches (suc fuel) a = elim (Bool-cases (next_is (λ c. is_blank c || c == b'#') a)) [
  | inl e ↦
      rw (skip_rounds, e)
        (Reaches-trans (skip_one-Reaches (peek 0 a) a)
          (skip_rounds-Reaches fuel (skip_one (peek 0 a) a)))
  | inr e ↦ rw (skip_rounds, e) here
]

pub skip_whitespace_and_comments-Reaches : (a : Cursor) → Reaches a (skip_whitespace_and_comments a)
unfolding skip_whitespace_and_comments
skip_whitespace_and_comments-Reaches a = skip_rounds-Reaches (length a.rest) a
