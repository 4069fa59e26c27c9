-- ===== src/Parser/Levels.antt =====
-- src/frontend/parser.cpp: every level of operators ends, and takes a token.
use r_sjit.Common.{
  ℕ, zero, suc, ◌<◌, ◌≤◌, ◌≡◌, ◌≢◌, refl, ap, ◌∙◌, sym, List, length, arith, Option-cases, inl, inr,
  Option, none, some,
}
use r_sjit.Lexer.Tokens.{TokKind, Token, kind_code}
use r_sjit.Parser.Tree.{Ast}
use r_sjit.Parser.State.{Parsed, advance, peek}
use r_sjit.Parser.Operators.{prefix_loop, binary_loop, binary_level, right_loop}
use r_sjit.Parser.Within.{Within, Within-le, bind-Within, peek-advance, Takes}

-- Only the end token has the number 0.
kind_zero : (k : TokKind) → kind_code k ≡ 0 → k ≡ TokKind.eof
unfolding kind_code
kind_zero TokKind.eof e = refl
kind_zero _ e = absurd (omega arith)

module _ {A : Type 0} (last : Token) (ends : kind_code last.kind ≡ 0) where
  -- An operator's token can be taken.
  operator-advance :
      (op : TokKind → Option A) (a : A) (ts : List Token)
      → op TokKind.eof ≡ none
      → op (peek last 0 ts).kind ≡ some a
      → suc (length (advance ts)) ≡ length ts
  operator-advance op a ts e s =
      peek-advance last ends ts (λ z. different (sym s ∙ ap op (kind_zero _ z) ∙ e))
    where
      different : some a ≢ none
      different d = cc

module _ (last : Token) (ends : kind_code last.kind ≡ 0) (inner : List Token → Parsed Ast) (n : ℕ)
    (takes : Takes n inner) where
  -- The levels, over a level that takes a token wherever there are at most `n`.
  module _ (sub : List Token → Parsed Ast) (below : Takes (suc n) sub) where
    sub-Within : (m : ℕ) (ts : List Token) → length ts ≤ n → length ts ≤ m → Within m (sub ts)
    unfolding Takes
    sub-Within m ts l k = Within-le (length ts) m (sub ts) k (below ts (omega arith))

    pub prefix_loop-Within :
        (op : TokKind → Option (Ast → Ast)) (fuel : ℕ) (ts : List Token)
        → op TokKind.eof ≡ none
        → length ts < fuel
        → length ts ≤ n
        → Within (length ts) (prefix_loop last inner op sub fuel ts)
    unfolding prefix_loop Within
    prefix_loop-Within op zero ts o f l = absurd (omega arith)
    prefix_loop-Within op (suc fuel) ts o f l = elim (Option-cases (op (peek last 0 ts).kind)) [
      | inl e ↦ rw (prefix_loop, e) (sub-Within (length ts) ts l (omega arith))
      | inr (make, e) ↦
          let one = operator-advance last ends op make ts o e in
          rw (prefix_loop, e)
            (bind-Within (length (advance ts)) (length ts) _ _
              (prefix_loop-Within op fuel (advance ts) o (omega (arith, one)) (omega (arith, one)))
              (λ a us p. omega (arith, one)))
    ]

    binary_loop-Within :
        (op : TokKind → Option (List ℕ)) (m fuel : ℕ) (lhs : Ast) (ts : List Token)
        → op TokKind.eof ≡ none
        → length ts < fuel
        → length ts ≤ n
        → length ts < m
        → Within m (binary_loop last inner op sub fuel lhs ts)
    unfolding binary_loop Within
    binary_loop-Within op m zero lhs ts o f l k = absurd (omega arith)
    binary_loop-Within op m (suc fuel) lhs ts o f l k =
        elim (Option-cases (op (peek last 0 ts).kind)) [
          | inl e ↦ rw (binary_loop, e) k
          | inr (name, e) ↦
              let one = operator-advance last ends op name ts o e in
              rw (binary_loop, e)
                (bind-Within (length ts) m _ _
                  (sub-Within (length ts) (advance ts) (omega (arith, one)) (omega (arith, one)))
                  (λ rhs us p.
                    binary_loop-Within op m fuel (Ast.bin_op name lhs rhs) us o (omega arith)
                      (omega arith) (omega arith)))
        ]

    pub binary_level-Within :
        (op : TokKind → Option (List ℕ)) (ts : List Token)
        → op TokKind.eof ≡ none
        → length ts ≤ n
        → Within (length ts) (binary_level last inner op sub ts)
    unfolding binary_level
    binary_level-Within op ts o l =
        bind-Within (length ts) (length ts) _ _ (sub-Within (length ts) ts l (omega arith))
          (λ lhs us p.
            binary_loop-Within op (length ts) (suc (length us)) lhs us o (omega arith) (omega arith)
              p)

    pub right_loop-Within :
        (op : TokKind → Option (Ast → Ast → Ast)) (fuel : ℕ) (ts : List Token)
        → op TokKind.eof ≡ none
        → length ts < fuel
        → length ts ≤ n
        → Within (length ts) (right_loop last inner op sub fuel ts)
    unfolding right_loop Within
    right_loop-Within op zero ts o f l = absurd (omega arith)
    right_loop-Within op (suc fuel) ts o f l =
        bind-Within (length ts) (length ts) _ _ (sub-Within (length ts) ts l (omega arith))
          (λ lhs us p. elim (Option-cases (op (peek last 0 us).kind)) [
            | inl e ↦ rw (e) p
            | inr (make, e) ↦
                let one = operator-advance last ends op make us o e in
                rw (e) (
                  bind-Within (length (advance us)) (length ts) _ _
                    (right_loop-Within op fuel (advance us) o (omega (arith, one))
                      (omega (arith, one)))
                    (λ rhs vs q. omega (arith, one)))
          ])
