-- ===== src/Parser/Within.antt =====
-- src/frontend/parser.cpp: how many tokens a piece of the parser leaves.
use r_sjit.Common.{
  ℕ, suc, ◌<◌, ◌≤◌, ◌≡◌, ◌≢◌, refl, ap, ◌∙◌, sym, Bool, true, false, ◌==◌, ==_iff, List, [], ◌∷◌,
  if◌then◌else◌, length, arith,
}
use r_sjit.Lexer.Tokens.{TokKind, Token, kind_code}
use r_sjit.Parser.State.{
  Parsed, parsed, parse_error, out_of_fuel, ◌▷◌, advance, peek, at, error, expect, skip_newlines,
  skip_newlines_only,
}

-- A result leaves fewer than `n` tokens; the fuel does not run out.
unfoldable pub Within : {A : Type 0} → ℕ → Parsed A → Type 0
Within n (parsed a ts) = length ts < n
Within n (parse_error _ _ _) = Unit
Within n out_of_fuel = ⊥

pub Within-le : {A : Type 0} (m n : ℕ) (r : Parsed A) → m ≤ n → Within m r → Within n r
unfolding Within
Within-le m n (parsed a ts) l h = omega arith
Within-le m n (parse_error _ _ _) l h = tt
Within-le m n out_of_fuel l h = h

pub bind-Within :
    {A B : Type 0} (m n : ℕ) (r : Parsed A) (f : A → List Token → Parsed B)
    → Within m r
    → ((a : A) (ts : List Token) → length ts < m → Within n (f a ts))
    → Within n (r ▷ f)
unfolding Within
bind-Within m n (parsed a ts) f h g = g a ts h
bind-Within m n (parse_error _ _ _) f h g = tt
bind-Within m n out_of_fuel f h g = h

pub if-Within :
    {A : Type 0} (n : ℕ) (t : Bool) (left right : Parsed A)
    → Within n left
    → Within n right
    → Within n (if t then left else right)
if-Within n true left right l r = l
if-Within n false left right l r = r

-- The left branch may use its test.
pub if-Within_of :
    {A : Type 0} (n : ℕ) (t : Bool) (left right : Parsed A)
    → (t ≡ true → Within n left)
    → Within n right
    → Within n (if t then left else right)
if-Within_of n true left right l r = l refl
if-Within_of n false left right l r = r

pub length-advance_le : (ts : List Token) → length (advance ts) ≤ length ts
unfolding advance
length-advance_le [] = omega arith
length-advance_le (t ∷ ts) = omega arith

pub skip_newlines_le : (ts : List Token) → length (skip_newlines ts) ≤ length ts
unfolding skip_newlines
skip_newlines_le [] = omega arith
skip_newlines_le (t ∷ ts) = ground (arith, skip_newlines_le ts)

pub skip_newlines_only_le : (ts : List Token) → length (skip_newlines_only ts) ≤ length ts
unfolding skip_newlines_only
skip_newlines_only_le [] = omega arith
skip_newlines_only_le (t ∷ ts) = ground (arith, skip_newlines_only_le ts)

pub not_zero : (k : TokKind) → (kind_code k == 0) ≡ false → kind_code k ≢ 0
not_zero k h z = cc (h, ap (λ c. c == 0) z)

module _ (last : Token) (ends : kind_code last.kind ≡ 0) where
  -- A token that is not the end can be taken.
  pub peek-advance :
      (ts : List Token)
      → kind_code (peek last 0 ts).kind ≢ 0
      → suc (length (advance ts)) ≡ length ts
  unfolding peek advance
  peek-advance [] h = absurd (h ends)
  peek-advance (t ∷ ts) h = omega arith

  pub at-advance :
      (k : TokKind) (ts : List Token)
      → (kind_code k == 0) ≡ false
      → at last k ts ≡ true
      → suc (length (advance ts)) ≡ length ts
  unfolding at
  at-advance k ts h e =
      peek-advance ts
        (λ z. not_zero k h (sym ((==_iff (kind_code (peek last 0 ts).kind) (kind_code k)).0 e) ∙ z))

  pub expect-Within :
      (k : TokKind) (ts : List Token)
      → (kind_code k == 0) ≡ false
      → Within (length ts) (expect last k ts)
  unfolding expect Within error
  expect-Within k ts h =
      if-Within_of (length ts) (at last k ts) _ _ (λ e. omega (arith, at-advance k ts h e)) tt

-- The parser takes a token wherever there are fewer than `n`.
unfoldable pub Takes : {A : Type 0} → ℕ → (List Token → Parsed A) → Type 0
Takes n p = (ts : List Token) → length ts < n → Within (length ts) (p ts)
