-- ===== src/Lexer/Spans.antt =====
-- The tokens of `lex`: it returns, the spans are in order inside the source, and one `Eof` ends them.
use ferrite_mcp.Prelude.{
  ℕ, zero, suc, ◌+◌, ◌≤◌, ◌<◌, ◌≡◌, refl, sym, ap, subst, Bool, Option, none, some, List, [], ◌∷◌,
  arith, ◌==◌, Text, len_utf8, byte_len, byte_len-append, length, Bool-cases, inl, inr,
  len_utf8_bounds,
}
use ferrite_mcp.Lexer.Token.{TokenKind, eof, Token, LexError, Scan, done, fail, ◌>>=◌}
use ferrite_mcp.Lexer.Cursor.{Cursor, at, new}
use ferrite_mcp.Lexer.Scan.{token, next_at, next_token, lex_from, lex}
use ferrite_mcp.Lexer.Consumes.{
  Consumed, Consumed-refl, Consumed-trans, Consumed-step, Consumed-length, Consumed-pos,
  skip_blanks-Consumed, skip_comment-Consumed,
}
use ferrite_mcp.Lexer.Total.{offset, Scans, scanned, refused, scan_kind-Scans}

-- The tokens start at `low` or later, none is empty, none overlaps the next one, and an `Eof` of no
-- width at `total` ends the list.
pub data Spans (total : ℕ) : ℕ → List Token → Type 0 where
  last : {low : ℕ} → low ≤ total → Spans total low (token eof total total ∷ [])
  more :
      {low : ℕ} {t : Token} {ts : List Token}
      → low ≤ t.span.start
      → t.span.start < t.span.end
      → Spans total t.span.end ts
      → Spans total low (t ∷ ts)

-- Outcome of `next_token` from `k`.
data Next (k : Cursor) : Scan (Option Token × Cursor) → Type 0 where
  at_end : {k1 : Cursor} → Consumed k k1 → k1.rest ≡ [] → Next k (done (none, k1))
  found :
      {kind : TokenKind} {start : ℕ} {k1 : Cursor}
      → Consumed k k1
      → k.pos ≤ start
      → start < k1.pos
      → length k1.rest < length k.rest
      → Next k (done (some (token kind start k1.pos), k1))
  wrong : {e : LexError} → k.pos ≤ offset e → offset e < k.pos + byte_len k.rest → Next k (fail e)

Consumed-end : {k k' : Cursor} → Consumed k k' → k'.pos + byte_len k'.rest ≡ k.pos + byte_len k.rest
Consumed-end {k} {k'} a =
    omega (arith, a.moves, ap byte_len a.splits, byte_len-append a.passed k'.rest)

Next-after :
    {k k1 : Cursor} {r : Scan (Option Token × Cursor)} → Consumed k k1 → Next k1 r → Next k r
Next-after a (at_end b e) = at_end (Consumed-trans a b) e
Next-after a (found b from to less) =
    found (Consumed-trans a b) (omega (arith, Consumed-pos a)) to (omega (arith, Consumed-length a))
Next-after a (wrong from to) = wrong (omega (arith, Consumed-pos a)) (omega (arith, Consumed-end a))

Next-kind :
    (c : ℕ) (cs : Text) (p : ℕ) {r : Scan (TokenKind × Cursor)}
    → Scans p (at cs (p + len_utf8 c)) r
    → Next
        (at (c ∷ cs) p)
        (r >>= λ (x : TokenKind × Cursor). done (some (token x.0 p x.1.pos), x.1))
Next-kind c cs p (scanned a) =
    found (Consumed-trans (Consumed-step c cs p) a) (omega arith)
      (omega (arith, Consumed-pos a, len_utf8_bounds c)) (omega (arith, Consumed-length a))
Next-kind c cs p (refused e) = wrong (omega arith) (omega (arith, len_utf8_bounds c))

module _ (alphanumeric : ℕ → Bool) where
  next_at-Next :
      (f : ℕ) (again : Cursor → Scan (Option Token × Cursor))
      → ((k : Cursor) → length k.rest < f → Next k (again k))
      → (s : Text) (p : ℕ) → length s < suc f
      → Next (at s p) (next_at alphanumeric (suc f) again s p)
  unfolding next_at
  next_at-Next f again ih [] p h = at_end (Consumed-refl _) refl
  next_at-Next f again ih (c ∷ cs) p h = elim (Bool-cases (c == b'#')) [
    | inl comment ↦
        let past = skip_comment-Consumed cs (p + len_utf8 c) in
        rw comment (
          Next-after (Consumed-trans (Consumed-step c cs p) past)
            (ih _ (omega (arith, Consumed-length past))))
    | inr other ↦ rw other (
        Next-kind c cs p
          (scan_kind-Scans alphanumeric (suc f) p c (at cs (p + len_utf8 c)) (omega arith)))
  ]

  next_token-Next : (f : ℕ) (k : Cursor) → length k.rest < f → Next k (next_token alphanumeric f k)
  unfolding next_token
  next_token-Next zero k h = elim h [ ]
  next_token-Next (suc f) k h =
      let past = skip_blanks-Consumed k.rest k.pos in
      Next-after past (
        next_at-Next f (next_token alphanumeric f) (next_token-Next f) _ _
          (omega (arith, Consumed-length past)))

-- Outcome of `lex_from` from `k`.
pub data Lexed (k : Cursor) : Scan (List Token) → Type 0 where
  tokens : {ts : List Token} → Spans (k.pos + byte_len k.rest) k.pos ts → Lexed k (done ts)
  error : {e : LexError} → k.pos ≤ offset e → offset e < k.pos + byte_len k.rest → Lexed k (fail e)

Spans-low :
    {total low low' : ℕ} {ts : List Token} → low' ≤ low → Spans total low ts → Spans total low' ts
Spans-low h (last a) = last (omega arith)
Spans-low h (more a b c) = more (omega arith) b c

Lexed-cons :
    (kind : TokenKind) {k : Cursor} {start : ℕ} {k1 : Cursor} {r : Scan (List Token)}
    → Consumed k k1
    → k.pos ≤ start
    → start < k1.pos
    → Lexed k1 r
    → Lexed k (r >>= λ (ts : List Token). done (token kind start k1.pos ∷ ts))
Lexed-cons kind {k} {start} {k1} a from to (tokens {ts} s) =
    tokens (more from to (subst (λ n. Spans n k1.pos ts) (Consumed-end a) s))
Lexed-cons kind a from to (error low high) =
    error (omega (arith, Consumed-pos a)) (omega (arith, Consumed-end a))

Lexed-Next :
    {k : Cursor} {r : Scan (Option Token × Cursor)} (rest : Cursor → Scan (List Token))
    → Next k r
    → ((k1 : Cursor) → length k1.rest < length k.rest → Lexed k1 (rest k1))
    → Lexed k (
        r >>= λ (x : Option Token × Cursor). elim x.0 [
          | none ↦ done (token eof x.1.pos x.1.pos ∷ [])
          | some t ↦ (rest x.1 >>= λ (ts : List Token). done (t ∷ ts))
        ])
Lexed-Next {k} rest (at_end {k1} a e) again =
    let total : k1.pos ≡ k.pos + byte_len k.rest = omega (arith, Consumed-end a, ap byte_len e) in
    tokens (
      subst (λ n. Spans (k.pos + byte_len k.rest) k.pos (token eof n n ∷ [])) (sym total)
        (last (omega arith)))
Lexed-Next rest (found {kind} {k1 = k1} a from to less) again =
    Lexed-cons kind a from to (again k1 less)
Lexed-Next rest (wrong low high) again = error low high

module _ (alphanumeric : ℕ → Bool) where
  lex_from-Lexed : (f : ℕ) (k : Cursor) → length k.rest < f → Lexed k (lex_from alphanumeric f k)
  unfolding lex_from
  lex_from-Lexed zero k h = elim h [ ]
  lex_from-Lexed (suc f) k h =
      Lexed-Next (lex_from alphanumeric f) (next_token-Next alphanumeric (suc f) k h)
        λ k1 less. lex_from-Lexed f k1 (omega arith)

  -- `lex` returns on every source. If it returns tokens, each but the last has a span that is not
  -- empty, starts where the one before it ended or later, and the last is an `Eof` at the end of
  -- the source; an error is at an offset inside the source.
  pub lex-Lexed : (src : Text) → Lexed (new src) (lex alphanumeric src)
  unfolding lex
  lex-Lexed src = lex_from-Lexed (suc (length src)) (new src) (omega arith)
