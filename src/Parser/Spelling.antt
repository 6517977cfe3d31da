-- ===== src/Parser/Spelling.antt =====
-- The parser reads back the words and redirects that Parser/Print writes.
use ferrite_mcp.Prelude.{
  ℕ, ◌≡◌, refl, sym, ap, ◌∙◌, Bool, true, false, List, [], ◌∷◌, map, arith, Text, codes, text_eq,
  Bool-cases, inl, inr, ◌&&◌, ◌==◌,
}
use ferrite_mcp.Lexer.Token.{TokenKind, double_quoted, gt, gt_gt, fd_gt, fd_gt_gt}
use ferrite_mcp.Parser.Ast.{
  WordPart, literal, variable, glob, cmd_subst, Word, RedirectKind, output, append, input,
  output_dup, Redirect,
}
use ferrite_mcp.Parser.Parse.{
  Tokens, ok, word_part, word_of, parse_word, redirect_of, parse_redirect, Turn, turn,
}
use ferrite_mcp.Parser.Print.{
  Style, Quoting, bare, single, double, quoted, named, spelled, bare_one, quote, word_token, arrow,
  PlainParts, FitsFd,
}

module _ (σ : Style) where
  pub word_part-quote : (ps : List WordPart) → PlainParts ps → map word_part (map quote ps) ≡ ps
  word_part-quote [] h = refl
  word_part-quote (literal s ∷ ps) h = ap (◌∷◌ (literal s)) (word_part-quote ps h)
  word_part-quote (variable s ∷ ps) h = ap (◌∷◌ (variable s)) (word_part-quote ps h)
  word_part-quote (glob s ∷ ps) h = absurd h
  word_part-quote (cmd_subst ∷ ps) h = absurd h

  pub word_of-quoted :
      (q : Quoting) (s : Text) (ts : Tokens)
      → word_of (quoted q s) ts ≡ ok (record { parts = literal s ∷ [] }) ts
  unfolding word_of
  word_of-quoted bare s ts = elim (Bool-cases (text_eq s (codes "!"))) [
    | inl bang ↦ rw bang refl
    | inr other ↦ rw other refl
  ]
  word_of-quoted single s ts = refl
  word_of-quoted double s ts = refl

  pub word_of-named :
      (b : Bool) (v : Text) (ts : Tokens)
      → word_of (named b v) ts ≡ ok (record { parts = variable v ∷ [] }) ts
  unfolding word_of
  word_of-named true v ts = refl
  word_of-named false v ts = refl

  pub word_of-parts :
      (ps : List WordPart) (ts : Tokens)
      → PlainParts ps
      → word_of (double_quoted (map quote ps)) ts ≡ ok (record { parts = ps }) ts
  unfolding word_of
  word_of-parts ps ts h =
      ap (λ (qs : List WordPart). ok (record { parts = qs }) ts) (word_part-quote ps h)

  pub word_of-spelled :
      (ps : List WordPart) (ts : Tokens)
      → PlainParts ps
      → word_of (spelled σ ps) ts ≡ ok (record { parts = ps }) ts
  word_of-spelled [] ts h = word_of-parts [] ts h
  word_of-spelled (literal s ∷ []) ts h = word_of-quoted (σ.of_literal s) s ts
  word_of-spelled (variable v ∷ []) ts h = word_of-named (σ.bare_variable v) v ts
  word_of-spelled (literal s ∷ p ∷ ps) ts h = word_of-parts (literal s ∷ p ∷ ps) ts h
  word_of-spelled (variable s ∷ p ∷ ps) ts h = word_of-parts (variable s ∷ p ∷ ps) ts h
  word_of-spelled (glob s ∷ ps) ts h = absurd h
  word_of-spelled (cmd_subst ∷ ps) ts h = absurd h

  pub parse_word-token :
      (w : Word) (t : TokenKind) (ts : Tokens)
      → PlainParts w.parts
      → parse_word (word_token σ w ∷ t ∷ ts) ≡ ok w (t ∷ ts)
  unfolding parse_word
  parse_word-token w t ts h = word_of-spelled w.parts (t ∷ ts) h

  pub bare_one_redirect :
      (k : RedirectKind) (b : Bool) (fd : ℕ) (short long : TokenKind) (ts : Tokens)
      → redirect_of short ts ≡ ok (1, k) ts
      → redirect_of long ts ≡ ok (fd, k) ts
      → redirect_of (bare_one b fd short long) ts ≡ ok (fd, k) ts
  bare_one_redirect k b fd short long ts one any = elim (Bool-cases (b && fd == 1)) [
    | inl is ↦ (let e : fd ≡ 1 = ground arith in rw is (one ∙ ap (λ n. ok (n, k) ts) (sym e)))
    | inr is ↦ rw is any
  ]

  pub bare_one_either :
      (P : TokenKind → Type 0) (b : Bool) (fd : ℕ) (short long : TokenKind)
      → P short
      → P long
      → P (bare_one b fd short long)
  bare_one_either P b fd short long s l = elim (Bool-cases (b && fd == 1)) [
    | inl is ↦ rw is s
    | inr is ↦ rw is l
  ]

  pub redirect_of-arrow :
      (k : RedirectKind) (fd : ℕ) (ts : Tokens)
      → FitsFd k fd
      → redirect_of (arrow σ k fd) ts ≡ ok (fd, k) ts
  unfolding redirect_of
  redirect_of-arrow output fd ts h =
      bare_one_redirect output σ.bare_arrow fd gt (fd_gt fd) ts refl refl
  redirect_of-arrow append fd ts h =
      bare_one_redirect append σ.bare_arrow fd gt_gt (fd_gt_gt fd) ts refl refl
  redirect_of-arrow input fd ts h = rw h
  redirect_of-arrow output_dup fd ts h = rw h

  pub turn-arrow : (k : RedirectKind) (fd : ℕ) → turn (arrow σ k fd) ≡ Turn.redirect
  unfolding turn
  turn-arrow output fd =
      bare_one_either (λ t. turn t ≡ Turn.redirect) σ.bare_arrow fd gt (fd_gt fd) refl refl
  turn-arrow append fd =
      bare_one_either (λ t. turn t ≡ Turn.redirect) σ.bare_arrow fd gt_gt (fd_gt_gt fd) refl refl
  turn-arrow input fd = refl
  turn-arrow output_dup fd = refl

  pub parse_redirect-tokens :
      (r : Redirect) (t : TokenKind) (ts : Tokens)
      → FitsFd r.kind r.fd
      → PlainParts r.target.parts
      → parse_redirect (arrow σ r.kind r.fd ∷ word_token σ r.target ∷ t ∷ ts) ≡ ok r (t ∷ ts)
  unfolding parse_redirect
  parse_redirect-tokens r t ts h p =
      rw
        (
          redirect_of-arrow r.kind r.fd (word_token σ r.target ∷ t ∷ ts) h,
          parse_word-token r.target t ts p,
        )
        refl

  pub turn-quoted : (q : Quoting) (s : Text) → turn (quoted q s) ≡ Turn.argument
  unfolding turn
  turn-quoted bare s = elim (Bool-cases (text_eq s (codes "!"))) [
    | inl bang ↦ rw bang refl
    | inr other ↦ rw other refl
  ]
  turn-quoted single s = refl
  turn-quoted double s = refl

  pub turn-named : (b : Bool) (v : Text) → turn (named b v) ≡ Turn.argument
  unfolding turn
  turn-named true v = refl
  turn-named false v = refl

  pub turn-spelled : (ps : List WordPart) → turn (spelled σ ps) ≡ Turn.argument
  unfolding turn
  turn-spelled [] = refl
  turn-spelled (literal s ∷ []) = turn-quoted (σ.of_literal s) s
  turn-spelled (variable v ∷ []) = turn-named (σ.bare_variable v) v
  turn-spelled (literal s ∷ p ∷ ps) = refl
  turn-spelled (variable s ∷ p ∷ ps) = refl
  turn-spelled (glob s ∷ ps) = refl
  turn-spelled (cmd_subst ∷ ps) = refl
