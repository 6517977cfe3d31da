-- ===== src/Lexer/RoundTrip.antt =====
-- Arguments written out, plain or between single quotes, are read back by `lex`.
use ferrite_mcp.Prelude.{
  ℕ, zero, suc, ◌+◌, ◌<◌, ◌≡◌, refl, ap, ◌∙◌, Bool, true, false, not, ◌&&◌, ◌||◌, Option, some,
  List, [], ◌∷◌, ◌++◌, map, append_assoc, arith, ◌==◌, Text, len_utf8, byte_len, length,
  length-append,
}
use ferrite_mcp.Lexer.Token.{TokenKind, eof, word, single_quoted, Token, Scan, done, ◌>>=◌}
use ferrite_mcp.Lexer.Cursor.{Cursor, at, onto, ends_word, skip_blanks, scan_word}
use ferrite_mcp.Lexer.Quoted.{scan_single_quoted}
use ferrite_mcp.Lexer.Scan.{token, scan_kind, next_at, next_token, lex_from, lex}

-- a character that stands for itself inside a word
abbrev pub is_plain : ℕ → Bool
is_plain c = not (ends_word c || c == b'\\')

-- a character that begins a word
abbrev pub begins_word : ℕ → Bool
begins_word c =
    is_plain c && not (c == b'{' || c == b'}' || c == b'\'' || c == b'"' || c == b'$' || c == b'#')

pub data Arg : Type 0 where
  plain : ℕ → Text → Arg
  quoted : Text → Arg

abbrev pub all : (ℕ → Bool) → Text → Bool
all p [] = true
all p (c ∷ cs) = p c && all p cs

-- What the shell syntax can express: a plain argument of word characters, or a text with no quote.
abbrev pub Writable : Arg → Type 0
Writable (plain c cs) = (begins_word c ≡ true) × (all is_plain cs ≡ true)
Writable (quoted t) = all (λ c. not (c == b'\'')) t ≡ true

abbrev pub AllWritable : List Arg → Type 0
AllWritable [] = Unit
AllWritable (a ∷ args) = Writable a × AllWritable args

abbrev pub written : Arg → Text
written (plain c cs) = c ∷ cs
written (quoted t) = b'\'' ∷ (t ++ b'\'' ∷ [])

abbrev pub command_line : List Arg → Text
command_line [] = []
command_line (a ∷ args) = written a ++ (b' ' ∷ command_line args)

abbrev pub kind_of : Arg → TokenKind
kind_of (plain c cs) = word (c ∷ cs)
kind_of (quoted t) = single_quoted t

abbrev pub kinds : Scan (List Token) → Scan (List TokenKind)
kinds r = r >>= λ (ts : List Token). done (map (λ t. t.kind) ts)

not-or : (x y : Bool) → not (x || y) ≡ true → (x ≡ false) × (y ≡ false)
not-or x y h = ground arith

scan_word-cons :
    (c : ℕ) (s : Text) (p : ℕ)
    → is_plain c ≡ true
    → scan_word (c ∷ s) p ≡ onto c (scan_word s (p + len_utf8 c))
unfolding scan_word
scan_word-cons c [] p h = rw ((not-or (ends_word c) _ h).0)
scan_word-cons c (d ∷ ds) p h =
    let (stops, escapes) = not-or (ends_word c) (c == b'\\') h in rw (stops, escapes)

scan_word-blank : (s : Text) (p : ℕ) → scan_word (b' ' ∷ s) p ≡ ([], at (b' ' ∷ s) p)
unfolding scan_word ends_word
scan_word-blank [] p = refl
scan_word-blank (d ∷ ds) p = refl

and-true : (x y : Bool) → x && y ≡ true → (x ≡ true) × (y ≡ true)
and-true x y h = ground arith

scan_word-plain :
    (w rest : Text) (p : ℕ)
    → all is_plain w ≡ true
    → scan_word (w ++ (b' ' ∷ rest)) p ≡ (w, at (b' ' ∷ rest) (p + byte_len w))
scan_word-plain [] rest p h =
    scan_word-blank rest p ∙ ap (λ (n : ℕ). ([], at (b' ' ∷ rest) n)) (omega arith)
scan_word-plain (c ∷ w) rest p h =
    let (one, others) = and-true (is_plain c) (all is_plain w) h in
    scan_word-cons c _ p one
    ∙ ap (onto c) (scan_word-plain w rest (p + len_utf8 c) others)
    ∙ ap (λ (n : ℕ). (c ∷ w, at (b' ' ∷ rest) n)) (omega arith)

quote_len : len_utf8 b'\'' ≡ 1
unfolding len_utf8
quote_len = refl

scan_single_quoted-append :
    (start : ℕ) (t rest : Text) (p : ℕ)
    → all (λ c. not (c == b'\'')) t ≡ true
    → scan_single_quoted start (t ++ (b'\'' ∷ rest)) p ≡ done (t, at rest (p + byte_len t + 1))
unfolding scan_single_quoted
scan_single_quoted-append start [] rest p h = ground (arith, quote_len)
scan_single_quoted-append start (c ∷ cs) rest p h =
    ground (arith, scan_single_quoted-append start cs rest (p + len_utf8 c))

module _ (alphanumeric : ℕ → Bool) where
  scan_kind-word :
      (f p c : ℕ) (k : Cursor)
      → begins_word c ≡ true
      → scan_kind alphanumeric f p c k
        ≡ done (word (c ∷ (scan_word k.rest k.pos).0), (scan_word k.rest k.pos).1)
  unfolding scan_kind ends_word
  scan_kind-word f p c k h = ground arith

  begins_word-ne-comment : (c : ℕ) → begins_word c ≡ true → (c == b'#') ≡ false
  unfolding ends_word
  begins_word-ne-comment c h = ground arith

  scan_kind-quoted :
      (f p q : ℕ) (t rest : Text)
      → all (λ c. not (c == b'\'')) t ≡ true
      → scan_kind alphanumeric f p b'\'' (at (t ++ (b'\'' ∷ rest)) q)
        ≡ done (single_quoted t, at rest (q + byte_len t + 1))
  unfolding scan_kind
  scan_kind-quoted f p q t rest h = rw (scan_single_quoted-append p t rest q h)

  -- One written argument with a blank behind it is one token.
  next_at-written :
      (f : ℕ) (again : Cursor → Scan (Option Token × Cursor)) (a : Arg) (rest : Text) (p : ℕ)
      → Writable a
      → (q : ℕ) × (next_at alphanumeric f again (written a ++ (b' ' ∷ rest)) p
          ≡ done (some (token (kind_of a) p q), at (b' ' ∷ rest) q))
  unfolding next_at
  next_at-written f again (plain c cs) rest p h = (
    p + len_utf8 c + byte_len cs,
    rw (begins_word-ne-comment c h.0, scan_kind-word, scan_word-plain cs rest _ h.1, h.0),
  )
  next_at-written f again (quoted t) rest p h = (
    p + len_utf8 b'\'' + byte_len t + 1,
    rw (append_assoc, scan_kind-quoted f p (p + len_utf8 b'\'') t (b' ' ∷ rest) h),
  )

  skip_one : (s : Text) (q : ℕ) → skip_blanks (b' ' ∷ s) q ≡ skip_blanks s (q + len_utf8 b' ')
  skip_one s q = unfold skip_blanks in refl

  skip-begins :
      (c : ℕ) (s : Text) (p : ℕ) → begins_word c ≡ true → skip_blanks (c ∷ s) p ≡ at (c ∷ s) p
  unfolding skip_blanks ends_word
  skip-begins c s p h = ground arith

  skip-written :
      (a : Arg) (s : Text) (p : ℕ)
      → Writable a
      → skip_blanks (written a ++ s) p ≡ at (written a ++ s) p
  skip-written (plain c cs) s p h = skip-begins c (cs ++ s) p h.0
  skip-written (quoted t) s p h = unfold skip_blanks in refl

  next_token-written :
      (f : ℕ) (a : Arg) (rest : Text) (p : ℕ)
      → Writable a
      → (q : ℕ) × (next_token alphanumeric (suc f) (at (written a ++ (b' ' ∷ rest)) p)
          ≡ done (some (token (kind_of a) p q), at (b' ' ∷ rest) q))
  unfolding next_token
  next_token-written f a rest p h =
      rw (skip-written a (b' ' ∷ rest) p h)
        (next_at-written (suc f) (next_token alphanumeric f) a rest p h)

  lex_from-blank :
      (f : ℕ) (s : Text) (q : ℕ)
      → lex_from alphanumeric f (at (b' ' ∷ s) q)
        ≡ lex_from alphanumeric f (at s (q + len_utf8 b' '))
  unfolding lex_from next_token
  lex_from-blank zero s q = refl
  lex_from-blank (suc f) s q = rw (skip_one s q)

  kinds-cons :
      (t : Token) (r : Scan (List Token)) {ks : List TokenKind}
      → kinds r ≡ done ks
      → kinds (r >>= λ (ts : List Token). done (t ∷ ts)) ≡ done (t.kind ∷ ks)
  kinds-cons t r h = ground arith

  length-written : (a : Arg) → 0 < length (written a)
  length-written (plain c cs) = omega arith
  length-written (quoted t) = omega arith

  lex_from-command_line :
      (args : List Arg) (f p : ℕ)
      → AllWritable args
      → length (command_line args) < f
      → kinds (lex_from alphanumeric f (at (command_line args) p))
        ≡ done (map kind_of args ++ eof ∷ [])
  unfolding lex_from
  lex_from-command_line args zero p w h = elim h [ ]
  lex_from-command_line [] (suc f) p w h = unfold next_token next_at skip_blanks in refl
  lex_from-command_line (a ∷ args) (suc f) p w h =
      let (q, e) = next_token-written f a (command_line args) p w.0 in
      let fits : length (command_line args) < f =
        omega (arith, length-append (written a) (b' ' ∷ command_line args), length-written a) in
      rw e (
        kinds-cons (token (kind_of a) p q) _ (
          rw (lex_from-blank f (command_line args) q)
            (lex_from-command_line args f (q + len_utf8 b' ') w.1 fits)))

  -- Writing out any arguments, each plain or between single quotes, and lexing the line gives back
  -- one word or one quoted token for each, with its text unchanged, and then `Eof`.
  pub lex-command_line :
      (args : List Arg)
      → AllWritable args
      → kinds (lex alphanumeric (command_line args)) ≡ done (map kind_of args ++ eof ∷ [])
  unfolding lex
  lex-command_line args w = lex_from-command_line args _ 0 w (omega arith)
