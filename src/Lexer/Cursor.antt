-- ===== src/Lexer/Cursor.antt =====
-- The lexer's position (`peek`, `advance`, `skip_whitespace`) and the scanners that cannot fail.
-- A cursor holds the source from the position on, and the position in bytes; a slice
-- `src[start..pos]` is the text that a scanner passes over.
use ferrite_mcp.Prelude.{
  ℕ, ◌+◌, ◌-◌, Bool, false, ◌||◌, Option, none, some, [], ◌∷◌, ◌==◌, if◌then◌else◌, Text, len_utf8,
}

pub record Cursor : Type 0 where
  pub rest : Text
  pub pos : ℕ

abbrev pub at : Text → ℕ → Cursor
at s p = record { rest = s; pos = p }

-- `Lexer::new`
abbrev pub new : Text → Cursor
new src = at src 0

abbrev pub peek_of : Text → Option ℕ
peek_of [] = none
peek_of (c ∷ cs) = some c

abbrev pub peek : Cursor → Option ℕ
peek c = peek_of c.rest

-- `self.peek() == Some(c)`
abbrev pub next_is : ℕ → Text → Bool
next_is c [] = false
next_is c (d ∷ ds) = d == c

abbrev advance_of : Text → ℕ → Cursor
advance_of [] p = at [] p
advance_of (c ∷ cs) p = at cs (p + len_utf8 c)

-- the position after `advance`; the character is the one that `peek` shows
abbrev pub advance : Cursor → Cursor
advance c = advance_of c.rest c.pos

abbrev pub is_blank : ℕ → Bool
is_blank c = c == b' ' || c == b'\t'

unfoldable pub skip_blanks : Text → ℕ → Cursor
skip_blanks [] p = at [] p
skip_blanks (c ∷ cs) p =
    let more = skip_blanks cs (p + len_utf8 c) in if is_blank c then more else at (c ∷ cs) p

abbrev pub skip_whitespace : Cursor → Cursor
skip_whitespace c = skip_blanks c.rest c.pos

-- the rest of a comment, up to the newline
unfoldable pub skip_comment : Text → ℕ → Cursor
skip_comment [] p = at [] p
skip_comment (c ∷ cs) p =
    let more = skip_comment cs (p + len_utf8 c) in if c == b'\n' then at (c ∷ cs) p else more

-- A scanned slice, and the cursor behind it.
abbrev pub Slice : Type 0
Slice = Text × Cursor

abbrev pub onto : ℕ → Slice → Slice
onto c (t, k) = (c ∷ t, k)

-- the characters that end a word
unfoldable pub ends_word : ℕ → Bool
ends_word c =
    c == b' '
    || c == b'\t'
    || c == b'\n'
    || c == b';'
    || c == b'|'
    || c == b'&'
    || c == b'<'
    || c == b'>'
    || c == b'('
    || c == b')'

-- The loop of `scan_word`: a backslash takes the character behind it along, if there is one.
unfoldable pub scan_word : Text → ℕ → Slice
scan_word [] p = ([], at [] p)
scan_word (c ∷ []) p = if ends_word c then ([], at (c ∷ []) p) else (c ∷ [], at [] (p + len_utf8 c))
scan_word (c ∷ d ∷ ds) p =
    let escaped = onto c (onto d (scan_word ds (p + len_utf8 c + len_utf8 d))) in
    let plain = onto c (scan_word (d ∷ ds) (p + len_utf8 c)) in
    if ends_word c then ([], at (c ∷ d ∷ ds) p) else if c == b'\\' then escaped else plain

-- `scan_until`: up to `stop`, or to the end of the source
unfoldable pub scan_until : ℕ → Text → ℕ → Slice
scan_until stop [] p = ([], at [] p)
scan_until stop (c ∷ cs) p =
    let more = onto c (scan_until stop cs (p + len_utf8 c)) in
    if c == stop then ([], at (c ∷ cs) p) else more

-- `scan_until_close_paren`, with the depth of open parentheses. The closing one is consumed and not
-- part of the slice; without it the slice runs to the end of the source.
unfoldable pub scan_until_close_paren : ℕ → Text → ℕ → Slice
scan_until_close_paren depth [] p = ([], at [] p)
scan_until_close_paren depth (c ∷ cs) p =
    let deeper = onto c (scan_until_close_paren (depth + 1) cs (p + len_utf8 c)) in
    let outer = onto c (scan_until_close_paren (depth - 1) cs (p + len_utf8 c)) in
    let same = onto c (scan_until_close_paren depth cs (p + len_utf8 c)) in
    if c == b'('
    then deeper
    else if c == b')'
    then (if depth - 1 == 0 then ([], at cs (p + len_utf8 c)) else outer)
    else same

-- `char::is_alphanumeric` is a table of Unicode, and a parameter.
module _ (alphanumeric : ℕ → Bool) where
  abbrev pub in_varname : ℕ → Bool
  in_varname c = alphanumeric c || c == b'_'

  unfoldable pub scan_varname : Text → ℕ → Slice
  scan_varname [] p = ([], at [] p)
  scan_varname (c ∷ cs) p =
      let more = onto c (scan_varname cs (p + len_utf8 c)) in
      if in_varname c then more else ([], at (c ∷ cs) p)
