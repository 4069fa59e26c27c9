-- ===== src/Lexer/Spelling.antt =====
-- src/frontend/lexer.cpp: the names of the tokens and their lexing.
use r_sjit.Common.{
  ℕ, zero, suc, ◌<◌, ◌≡◌, refl, ap, subst, ◌≤◌, ◌∙◌, sym, true, false, List, [], ◌∷◌, ◌++◌, length,
  arith, All, Option, some, none, map, length-append,
}
use r_sjit.Lexer.{
  lex_all, lex_loop, TokenStream, tokens, failed, out_of_fuel, next_token, token_here,
  token_at_rest, after_token, unless_eof, with_token,
}
use r_sjit.Lexer.Tokens.{TokKind, Token, tok_name, is_eof}
use r_sjit.Lexer.Place.{
  Cursor, start, advance, advance_from, skip_whitespace_and_comments, skip_rounds, skip_one,
  next_is, peek,
}
use r_sjit.Lexer.Scan.{Lexed, lexed, lex_error, token_at}
use r_sjit.Lexer.Names.{is_fixed, ReadsKind, next_token-name}

-- The names, each with a blank after it.
pub spelled : List TokKind → List ℕ
spelled [] = []
spelled (k ∷ ks) = tok_name k ++ b' ' ∷ spelled ks

pub kinds : TokenStream → Option (List TokKind)
kinds (tokens ts) = some (map (λ t. t.kind) ts)
kinds _ = none

with_token-kinds :
    (t : Token) (s : TokenStream) (k : TokKind) (ks : List TokKind)
    → t.kind ≡ k
    → kinds s ≡ some ks
    → kinds (with_token t s) ≡ some (k ∷ ks)
unfolding kinds with_token
with_token-kinds t (tokens ts) k ks e h = ground (arith)
with_token-kinds t (failed _ _ _) k ks e h = absurd (cc)
with_token-kinds t out_of_fuel k ks e h = absurd (cc)

module _ (strtod : List ℕ → ℕ) where
  -- The blank before a token is skipped.
  next_token-blank :
      (cur : Cursor) (text : List ℕ)
      → cur.rest ≡ b' ' ∷ text
      → next_token strtod cur ≡ next_token strtod (advance cur)
  unfolding next_token skip_whitespace_and_comments skip_rounds next_is skip_one advance
      advance_from peek
  next_token-blank cur text e = blank cur.rest cur.line cur.col e
    where
      blank :
          (rest : List ℕ) (line col : ℕ)
          → rest ≡ b' ' ∷ text
          → next_token strtod (record { rest = rest; line = line; col = col })
            ≡ next_token strtod (advance (record { rest = rest; line = line; col = col }))
      blank rest line col e = rw (e) refl

  fixed-not_eof : (k : TokKind) → is_fixed k ≡ true → is_eof k ≡ false
  unfolding is_fixed is_eof
  fixed-not_eof TokKind.eof e = cc
  fixed-not_eof _ e = refl

  -- What one token that is not the end adds to the kinds.
  kinds-after_token :
      (more : Cursor → TokenStream) (k : TokKind) (ks : List TokKind) (text : List ℕ)
      (r : Lexed Token)
      → is_eof k ≡ false
      → ReadsKind k text r
      → ((cur : Cursor) → cur.rest ≡ text → kinds (more cur) ≡ some ks)
      → kinds (after_token more r) ≡ some (k ∷ ks)
  unfolding ReadsKind after_token
  kinds-after_token more k ks text (lexed t after) e h rest =
      rw (ap is_eof h.0 ∙ e, unless_eof) (with_token-kinds t (more after) k ks h.0 (rest after h.1))
  kinds-after_token more k ks text (lex_error _ _ _) e h rest = elim h [ ]

  rest-advance :
      (cur : Cursor) (c : ℕ) (text : List ℕ) → cur.rest ≡ c ∷ text → (advance cur).rest ≡ text
  unfolding advance advance_from
  rest-advance cur c text e = rw (e) refl

  next_token-name_at :
      (k : TokKind) (text : List ℕ) (cur : Cursor)
      → is_fixed k ≡ true
      → cur.rest ≡ tok_name k ++ b' ' ∷ text
      → ReadsKind k (b' ' ∷ text) (next_token strtod cur)
  next_token-name_at k text cur e r =
      subst
        (λ rest.
          ReadsKind k (b' ' ∷ text)
            (next_token strtod (record { rest = rest; line = cur.line; col = cur.col })))
        (sym r) (next_token-name strtod k text cur.line cur.col e)

  kinds-lex_loop_end :
      (fuel : ℕ) (cur : Cursor)
      → cur.rest ≡ []
      → kinds (after_token (lex_loop strtod fuel) (next_token strtod cur)) ≡ some (TokKind.eof ∷ [])
  unfolding after_token next_token skip_whitespace_and_comments skip_rounds token_here token_at_rest
      kinds token_at
  kinds-lex_loop_end fuel cur e =
      subst
        (λ rest.
          kinds (
            after_token (lex_loop strtod fuel)
              (next_token strtod (record { rest = rest; line = cur.line; col = cur.col })))
          ≡ some (TokKind.eof ∷ []))
        (sym e) refl

  -- The first token is that of `spot`, which may be past a blank.
  kinds-lex_loop :
      (ks : List TokKind) (fuel : ℕ) (cur spot : Cursor)
      → All (λ k. is_fixed k ≡ true) ks
      → next_token strtod cur ≡ next_token strtod spot
      → spot.rest ≡ spelled ks
      → length ks < fuel
      → kinds (lex_loop strtod fuel cur) ≡ some (ks ++ TokKind.eof ∷ [])
  unfolding lex_loop spelled
  kinds-lex_loop ks zero cur spot h same e l = absurd (omega arith)
  kinds-lex_loop [] (suc fuel) cur spot h same e l =
      ap (λ r. kinds (after_token (lex_loop strtod fuel) r)) same ∙ kinds-lex_loop_end fuel spot e
  kinds-lex_loop (k ∷ ks) (suc fuel) cur spot h same e l =
      kinds-after_token (lex_loop strtod fuel) k (ks ++ TokKind.eof ∷ []) (b' ' ∷ spelled ks)
        (next_token strtod cur) (fixed-not_eof k h.0)
        (subst (ReadsKind k (b' ' ∷ spelled ks)) (sym same)
          (next_token-name_at k (spelled ks) spot h.0 e))
        (λ after r.
          kinds-lex_loop ks fuel after (advance after) h.1 (next_token-blank after (spelled ks) r)
            (rest-advance after b' ' (spelled ks) r) (omega arith))

  spelled-length : (ks : List TokKind) → length ks ≤ length (spelled ks)
  unfolding spelled
  spelled-length [] = omega arith
  spelled-length (k ∷ ks) =
      omega (arith, spelled-length ks, length-append (tok_name k) (b' ' ∷ spelled ks))

  -- The names of any list of operators, punctuation and keywords, each followed by a blank, are
  -- lexed to tokens of those kinds in their order, and the end token.
  pub lex_all-spelled :
      (ks : List TokKind)
      → All (λ k. is_fixed k ≡ true) ks
      → kinds (lex_all strtod (spelled ks)) ≡ some (ks ++ TokKind.eof ∷ [])
  unfolding lex_all start
  lex_all-spelled ks h =
      kinds-lex_loop ks (suc (length (spelled ks))) (start (spelled ks)) (start (spelled ks)) h refl
        refl (omega (arith, spelled-length ks))
