-- ===== src/Lexer/Scan.antt =====
-- `next_token`, the iterator and `lex` of crates/shell-lexer.
use ferrite_mcp.Prelude.{
  ℕ, zero, suc, ◌+◌, Bool, Option, none, some, List, [], ◌∷◌, ◌==◌, if◌then◌else◌, Text, len_utf8,
  length,
}
use ferrite_mcp.Lexer.Token.{
  TokenKind, Token, word, single_quoted, double_quoted, variable, cmd_subst, pipe, or_or, and_and,
  semi, semi_semi, ampersand, gt, gt_gt, lt, gt_ampersand, l_paren, r_paren, l_brace, r_brace,
  newline, eof, Scan, done, out_of_fuel, ◌>>=◌,
}
use ferrite_mcp.Lexer.Cursor.{
  Cursor, at, new, next_is, advance, skip_whitespace, skip_comment, scan_word, scan_until,
  scan_until_close_paren, scan_varname,
}
use ferrite_mcp.Lexer.Quoted.{scan_single_quoted, scan_double_quoted}

-- `Token::new(kind, self.span_from(start))`
abbrev pub token : TokenKind → ℕ → ℕ → Token
token k start end = record { kind = k; span = record { start = start; end = end } }

-- A one-character operator, or a two-character one if `c` is next.
abbrev pub one_or_two : ℕ → TokenKind → TokenKind → Cursor → TokenKind × Cursor
one_or_two c two one k = if next_is c k.rest then (two, advance k) else (one, k)

module _ (alphanumeric : ℕ → Bool) where
  -- What follows a `$` outside of quotes.
  unfoldable pub scan_dollar : Cursor → TokenKind × Cursor
  scan_dollar k =
      if next_is b'(' k.rest
      then (let k1 = advance k in
          let (body, k2) = scan_until_close_paren 1 k1.rest k1.pos in (cmd_subst body, k2))
      else if next_is b'{' k.rest
      then (let k1 = advance k in
          let (name, k2) = scan_until b'}' k1.rest k1.pos in (variable name, advance k2))
      else (let (name, k1) = scan_varname alphanumeric k.rest k.pos in (variable name, k1))

  -- The arms of `next_token` for the consumed character `c`, but for the comment. `start` is the
  -- position of `c`, and `k` the cursor behind it.
  unfoldable pub scan_kind : ℕ → ℕ → ℕ → Cursor → Scan (TokenKind × Cursor)
  scan_kind f start c k =
      if c == b'\n'
      then done (newline, k)
      else if c == b';'
      then done (one_or_two b';' semi_semi semi k)
      else if c == b'|'
      then done (one_or_two b'|' or_or pipe k)
      else if c == b'&'
      then done (one_or_two b'&' and_and ampersand k)
      else if c == b'>'
      then done
          (if next_is b'>' k.rest then (gt_gt, advance k) else one_or_two b'&' gt_ampersand gt k)
      else if c == b'<'
      then done (lt, k)
      else if c == b'('
      then done (l_paren, k)
      else if c == b')'
      then done (r_paren, k)
      else if c == b'{'
      then done (l_brace, k)
      else if c == b'}'
      then done (r_brace, k)
      else if c == b'\''
      then (do (s, k1) ← scan_single_quoted start k.rest k.pos; done (single_quoted s, k1))
      else if c == b'"'
      then (do
        (parts, k1) ← scan_double_quoted alphanumeric f start [] [] k.rest k.pos
        done (double_quoted parts, k1))
      else if c == b'$'
      then done (scan_dollar k)
      else (let (s, k1) = scan_word k.rest k.pos in done (word (c ∷ s), k1))

  -- The `match` of `next_token`, behind the blanks: `none` at the end of the source. `again` is the
  -- call of `next_token` behind a comment.
  unfoldable pub next_at :
      ℕ → (Cursor → Scan (Option Token × Cursor)) → Text → ℕ → Scan (Option Token × Cursor)
  next_at f again [] start = done (none, at [] start)
  next_at f again (c ∷ cs) start =
      let behind = at cs (start + len_utf8 c) in
      if c == b'#'
      then again (skip_comment behind.rest behind.pos)
      else do (kind, k1) ← scan_kind f start c behind; done (some (token kind start k1.pos), k1)

  -- `next_token`, on fuel for the comments.
  unfoldable pub next_token : ℕ → Cursor → Scan (Option Token × Cursor)
  next_token zero k = out_of_fuel
  next_token (suc f) k =
      let past = skip_whitespace k in next_at (suc f) (next_token f) past.rest past.pos

  -- Collecting the iterator: tokens up to the first error, and an `Eof` token behind the last.
  unfoldable pub lex_from : ℕ → Cursor → Scan (List Token)
  lex_from zero k = out_of_fuel
  lex_from (suc f) k = do
    (found, k1) ← next_token (suc f) k
    elim found [
      | none ↦ done (token eof k1.pos k1.pos ∷ [])
      | some t ↦ (do ts ← lex_from f k1; done (t ∷ ts))
    ]

  -- `lex`
  unfoldable pub lex : Text → Scan (List Token)
  lex src = lex_from (suc (length src)) (new src)
