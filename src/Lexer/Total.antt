-- ===== src/Lexer/Total.antt =====
-- Every scanner that may fail stops within its fuel, and passes over a prefix of what is before it.
use ferrite_mcp.Prelude.{
  ℕ, zero, suc, ◌+◌, ◌<◌, ◌≡◌, refl, Bool, true, false, List, [], ◌∷◌, ◌++◌, arith, ◌==◌,
  if◌then◌else◌, Text, len_utf8, length,
}
use ferrite_mcp.Lexer.Token.{
  DqPart, TokenKind, LexError, Scan, done, fail, unterminated_single_quote,
  unterminated_double_quote, ◌>>=◌,
}
use ferrite_mcp.Lexer.Cursor.{
  Cursor, at, next_is, advance, scan_until, scan_until_close_paren, scan_varname,
}
use ferrite_mcp.Lexer.Quoted.{scan_single_quoted, flush, dollar_part, scan_double_quoted}
use ferrite_mcp.Lexer.Scan.{one_or_two, scan_dollar, scan_kind}
use ferrite_mcp.Lexer.Consumes.{
  Consumed, Consumed-refl, Consumed-trans, Consumed-step, Consumed-advance, Consumed-length,
  Takes-Consumed, scan_word-Takes, scan_until-Takes, scan_varname-Takes,
  scan_until_close_paren-Consumed,
}

-- The offset in an error is that of the quote that was opened.
abbrev pub offset : LexError → ℕ
offset (unterminated_single_quote n) = n
offset (unterminated_double_quote n) = n
offset (LexError.unexpected_char n c) = n

-- The scan from `k` ends: behind a consumed prefix, or with an error at offset `start`.
pub data Scans {A : Type 0} (start : ℕ) (k : Cursor) : Scan (A × Cursor) → Type 0 where
  scanned : {a : A} {k' : Cursor} → Consumed k k' → Scans start k (done (a, k'))
  refused : {e : LexError} → offset e ≡ start → Scans start k (fail e)

module _ {A : Type 0} {start : ℕ} where
  pub Scans-if :
      {k : Cursor} (b : Bool) {x y : Scan (A × Cursor)}
      → Scans start k x
      → Scans start k y
      → Scans start k (if b then x else y)
  Scans-if true a b = a
  Scans-if false a b = b

  pub Scans-after :
      {k k1 : Cursor} {r : Scan (A × Cursor)} → Consumed k k1 → Scans start k1 r → Scans start k r
  Scans-after a (scanned b) = scanned (Consumed-trans a b)
  Scans-after a (refused e) = refused e

  pub Scans-map :
      {B : Type 0} {k : Cursor} {r : Scan (A × Cursor)} (f : A → B)
      → Scans start k r
      → Scans start k (r >>= λ p. done (f p.0, p.1))
  Scans-map f (scanned b) = scanned b
  Scans-map f (refused e) = refused e

pub scan_single_quoted-Scans :
    (start : ℕ) (s : Text) (p : ℕ) → Scans start (at s p) (scan_single_quoted start s p)
unfolding scan_single_quoted
scan_single_quoted-Scans start [] p = refused refl
scan_single_quoted-Scans start (c ∷ cs) p = Scans-if (c == b'\'') (scanned (Consumed-step c cs p)) (
    Scans-after (Consumed-step c cs p)
      (Scans-map (◌∷◌ c) (scan_single_quoted-Scans start cs (p + len_utf8 c))))

module _ (alphanumeric : ℕ → Bool) where
  Consumed-varname : (k : Cursor) → Consumed k (scan_varname alphanumeric k.rest k.pos).1
  Consumed-varname k = Takes-Consumed (scan_varname-Takes alphanumeric k.rest k.pos)

  -- `${NAME}` and `$(BODY)`, from behind the `$`
  Consumed-braced :
      (k : Cursor) (stop : ℕ)
      → let k1 = advance k in Consumed k (advance (scan_until stop k1.rest k1.pos).1)
  Consumed-braced k stop =
      let k1 = advance k in
      Consumed-trans (Consumed-advance k) (
        Consumed-trans (Takes-Consumed (scan_until-Takes stop k1.rest k1.pos)) (Consumed-advance _))

  Consumed-parenthesised :
      (k : Cursor) → let k1 = advance k in Consumed k (scan_until_close_paren 1 k1.rest k1.pos).1
  Consumed-parenthesised k =
      let k1 = advance k in
      Consumed-trans (Consumed-advance k) (scan_until_close_paren-Consumed 1 k1.rest k1.pos)

  dollar_part-Consumed : (k : Cursor) → Consumed k (dollar_part alphanumeric k).1
  unfolding dollar_part
  dollar_part-Consumed k =
      ground (arith, Consumed-parenthesised k, Consumed-braced k b'}', Consumed-varname k)

  scan_dollar-Consumed : (k : Cursor) → Consumed k (scan_dollar alphanumeric k).1
  unfolding scan_dollar
  scan_dollar-Consumed k =
      ground (arith, Consumed-parenthesised k, Consumed-braced k b'}', Consumed-varname k)

  pub scan_double_quoted-Scans :
      (f start : ℕ) (parts : List DqPart) (lit s : Text) (p : ℕ)
      → length s < f
      → Scans start (at s p) (scan_double_quoted alphanumeric f start parts lit s p)
  unfolding scan_double_quoted
  scan_double_quoted-Scans zero start parts lit s p h = elim h [ ]
  scan_double_quoted-Scans (suc f) start parts lit [] p h = refused refl
  scan_double_quoted-Scans (suc f) start parts lit (c ∷ []) p h =
      let q = p + len_utf8 c in
      let step = Consumed-step c [] p in
      let k = (dollar_part alphanumeric (at [] q)) in
      let dollar = dollar_part-Consumed (at [] q) in
      Scans-if (c == b'"') (scanned step) (
        Scans-if (c == b'$')
          (Scans-after (Consumed-trans step dollar) (
            scan_double_quoted-Scans f start (flush parts lit ++ k.0 ∷ []) [] k.1.rest k.1.pos
              (omega (arith, Consumed-length dollar))))
          (Scans-if (c == b'\\')
            (Scans-after step (scan_double_quoted-Scans f start parts lit [] q (omega arith)))
            (Scans-after step
              (scan_double_quoted-Scans f start parts (lit ++ c ∷ []) [] q (omega arith)))))
  scan_double_quoted-Scans (suc f) start parts lit (c ∷ d ∷ ds) p h =
      let q = p + len_utf8 c in
      let step = Consumed-step c (d ∷ ds) p in
      let k = (dollar_part alphanumeric (at (d ∷ ds) q)) in
      let dollar = dollar_part-Consumed (at (d ∷ ds) q) in
      Scans-if (c == b'"') (scanned step) (
        Scans-if (c == b'$')
          (Scans-after (Consumed-trans step dollar) (
            scan_double_quoted-Scans f start (flush parts lit ++ k.0 ∷ []) [] k.1.rest k.1.pos
              (omega (arith, Consumed-length dollar))))
          (Scans-if (c == b'\\')
            (Scans-after (Consumed-trans step (Consumed-step d ds q)) (
              scan_double_quoted-Scans f start parts (lit ++ d ∷ []) ds (q + len_utf8 d)
                (omega arith)))
            (Scans-after step
              (scan_double_quoted-Scans f start parts (lit ++ c ∷ []) (d ∷ ds) q (omega arith)))))

  operator :
      {start : ℕ} (c : ℕ) (two one : TokenKind) (k : Cursor)
      → Scans start k (done (one_or_two c two one k))
  operator {start} c two one k = two_or_one (next_is c k.rest)
    where
      two_or_one : (b : Bool) → Scans start k (done (if b then (two, advance k) else (one, k)))
      two_or_one true = scanned (Consumed-advance k)
      two_or_one false = scanned (Consumed-refl k)

  greater :
      {start : ℕ} (k : Cursor) (b : Bool) (two : TokenKind) {r : TokenKind × Cursor}
      → Scans start k (done r)
      → Scans start k (done (if b then (two, advance k) else r))
  greater k true two h = scanned (Consumed-advance k)
  greater k false two h = h

  -- With fuel for what is left, each token kind is scanned or its quote refused.
  pub scan_kind-Scans :
      (f start c : ℕ) (k : Cursor)
      → length k.rest < f
      → Scans start k (scan_kind alphanumeric f start c k)
  unfolding scan_kind
  scan_kind-Scans f start c k h = Scans-if (c == b'\n') (scanned (Consumed-refl k)) (
      Scans-if (c == b';') (operator b';' TokenKind.semi_semi TokenKind.semi k) (
        Scans-if (c == b'|') (operator b'|' TokenKind.or_or TokenKind.pipe k) (
          Scans-if (c == b'&') (operator b'&' TokenKind.and_and TokenKind.ampersand k) (
            Scans-if (c == b'>')
              (greater k (next_is b'>' k.rest) TokenKind.gt_gt
                (operator b'&' TokenKind.gt_ampersand TokenKind.gt k))
              (Scans-if (c == b'<') (scanned (Consumed-refl k)) (
                Scans-if (c == b'(') (scanned (Consumed-refl k)) (
                  Scans-if (c == b')') (scanned (Consumed-refl k)) (
                    Scans-if (c == b'{') (scanned (Consumed-refl k)) (
                      Scans-if (c == b'}') (scanned (Consumed-refl k)) (
                        Scans-if (c == b'\'')
                          (Scans-map TokenKind.single_quoted
                            (scan_single_quoted-Scans start k.rest k.pos))
                          (Scans-if (c == b'"')
                            (Scans-map TokenKind.double_quoted
                              (scan_double_quoted-Scans f start [] [] k.rest k.pos h))
                            (Scans-if (c == b'$') (scanned (scan_dollar-Consumed k))
                              (scanned (Takes-Consumed (scan_word-Takes k.rest k.pos)))))))))))))))
