-- ===== src/Lexer/Loops.antt =====
-- src/frontend/lexer.cpp: the loops over blanks and inside strings reach their ends.
use r_sjit.Common.{
  ℕ, zero, suc, ◌<◌, ◌≤◌, ◌≡◌, refl, Bool, true, false, not, ◌||◌, ◌&&◌, ◌==◌, List, [], ◌∷◌,
  if◌then◌else◌, length, arith, Bool-cases, inl, inr, get_or,
}
use r_sjit.Lexer.Place.{
  Cursor, next_is, holds_at, peek, advance, skip_line, skip_one, skip_rounds,
  skip_whitespace_and_comments, in_line, is_blank, starts_with,
}
use r_sjit.Lexer.Tokens.{codes}
use r_sjit.Lexer.Words.{
  Reading, read_hex, string_round, string_rounds, is_reading, read_string, opened,
}
use r_sjit.Lexer.Reach.{
  Reaches, here, further, Reaches-trans, if-Reaches, Reaches-length_le, length-advance,
  skip_from-Reaches,
}
use r_sjit.Lexer.Progress.{advance_while-first, if-Reading}

-- What the loop over blanks and comments goes on at.
abbrev pub skips : ℕ → Bool
skips c = is_blank c || c == b'#'

holds_at-first :
    (p : ℕ → Bool) (text : List ℕ) → holds_at p text ≡ true → p (get_or text 0 0) ≡ true
unfolding holds_at
holds_at-first p [] e = cc
holds_at-first p (c ∷ cs) e = e

holds_at-in_line :
    (text : List ℕ)
    → holds_at skips text ≡ true
    → is_blank (get_or text 0 0) ≡ false
    → holds_at in_line text ≡ true
unfolding holds_at
holds_at-in_line [] e b = cc
holds_at-in_line (c ∷ cs) e b = ground arith

shorter :
    (p : ℕ → Bool) (a b : Cursor)
    → next_is p a ≡ true
    → Reaches (advance a) b
    → length b.rest < length a.rest
unfolding next_is holds_at
shorter p a b e more = go a.rest refl e
  where
    go : (text : List ℕ) → a.rest ≡ text → holds_at p text ≡ true → length b.rest < length a.rest
    go [] r h = cc
    go (c ∷ cs) r h = omega (arith, length-advance a c cs r, Reaches-length_le more)

if-Reaches_of :
    (t : Bool) {a b c : Cursor}
    → Reaches a b
    → (t ≡ false → Reaches a c)
    → Reaches a (if t then b else c)
if-Reaches_of true left right = left
if-Reaches_of false left right = right refl

skip_one-first : (a : Cursor) → next_is skips a ≡ true → Reaches (advance a) (skip_one (peek 0 a) a)
unfolding skip_one skip_line next_is peek
skip_one-first a e = if-Reaches_of (is_blank (peek 0 a)) here (λ b.
    let line = advance_while-first in_line a (holds_at-in_line a.rest e b) in
    if-Reaches (starts_with (codes "#!") a.rest)
      (if-Reaches (starts_with (codes "#!expect") a.rest)
        (Reaches-trans (further line) (skip_from-Reaches _)) (further line))
      line)

skip_rounds-stops :
    (fuel : ℕ) (a : Cursor) → length a.rest ≤ fuel → next_is skips (skip_rounds fuel a) ≡ false
unfolding skip_rounds holds_at next_is
skip_rounds-stops zero a l = empty a.rest l
  where
    empty : (text : List ℕ) → length text ≤ 0 → holds_at skips text ≡ false
    empty [] k = refl
    empty (c ∷ cs) k = absurd (omega arith)
skip_rounds-stops (suc fuel) a l = elim (Bool-cases (next_is skips a)) [
  | inl e ↦
      rw (skip_rounds, e)
        (skip_rounds-stops fuel (skip_one (peek 0 a) a)
          (omega (arith, shorter skips a (skip_one (peek 0 a) a) e (skip_one-first a e))))
  | inr e ↦ rw (skip_rounds, e) e
]

-- From every place in a text, after blanks and comments were skipped there is neither a blank nor
-- a comment.
pub skip_whitespace_and_comments-stops :
    (a : Cursor) → next_is skips (skip_whitespace_and_comments a) ≡ false
unfolding skip_whitespace_and_comments
skip_whitespace_and_comments-stops a = skip_rounds-stops (length a.rest) a (omega arith)

string_round-first :
    (quote c : ℕ) (r : Reading) → Reaches (advance r.place) (string_round quote c r).place
unfolding string_round read_hex
string_round-first quote c r =
    if-Reading _ r.escaped _ _ (if-Reading _ (c == b'x') _ _ (further (further here)) here)
      (if-Reading _ (c == b'\\') _ _ here (if-Reading _ (c == quote) _ _ here here))

reading-next : (r : Reading) → is_reading r ≡ true → next_is (λ _. true) r.place ≡ true
unfolding is_reading
reading-next r e = and_right (not r.closed) (next_is (λ _. true) r.place) e
  where
    and_right : (a b : Bool) → (a && b) ≡ true → b ≡ true
    and_right a b h = ground arith

reading-empty : (r : Reading) → length r.place.rest ≤ 0 → is_reading r ≡ false
unfolding is_reading next_is holds_at
reading-empty r l = none (not r.closed) r.place.rest l
  where
    none : (a : Bool) (text : List ℕ) → length text ≤ 0 → (a && holds_at (λ _. true) text) ≡ false
    none true [] k = refl
    none false [] k = refl
    none a (c ∷ cs) k = absurd (omega arith)

string_rounds-ends :
    (fuel quote : ℕ) (r : Reading)
    → length r.place.rest ≤ fuel
    → is_reading (string_rounds fuel quote r) ≡ false
unfolding string_rounds
string_rounds-ends zero quote r l = reading-empty r l
string_rounds-ends (suc fuel) quote r l = elim (Bool-cases (is_reading r)) [
  | inl e ↦
      let next = string_round quote (peek 0 r.place) r in
      rw (string_rounds, e)
        (string_rounds-ends fuel quote next (
          omega (
            arith,
            shorter (λ _. true) r.place next.place (reading-next r e)
                (string_round-first quote (peek 0 r.place) r),
          )))
  | inr e ↦ rw (string_rounds, e) e
]

-- A string is read to its closing quote or to the end of the text.
pub read_string-ends : (a : Cursor) → is_reading (read_string a) ≡ false
unfolding read_string opened
read_string-ends a =
    string_rounds-ends (length a.rest) (peek 0 a) (opened a) (Reaches-length_le (further here))
