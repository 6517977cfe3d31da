-- ===== src/Lexer/Quoted.antt =====
-- `scan_single_quoted` and `scan_double_quoted` of crates/shell-lexer/src/lexer.rs.
use ferrite_mcp.Prelude.{
  ℕ, zero, suc, ◌+◌, Bool, List, [], ◌∷◌, ◌++◌, ◌==◌, if◌then◌else◌, Text, len_utf8,
}
use ferrite_mcp.Lexer.Token.{
  DqPart, unterminated_single_quote, unterminated_double_quote, Scan, done, fail, out_of_fuel,
  ◌>>=◌,
}
use ferrite_mcp.Lexer.Cursor.{
  Cursor, at, next_is, advance, Slice, onto, scan_until, scan_until_close_paren, scan_varname,
}

-- The opening quote, at byte `start`, is already consumed.
unfoldable pub scan_single_quoted : ℕ → Text → ℕ → Scan Slice
scan_single_quoted start [] p = fail (unterminated_single_quote start)
scan_single_quoted start (c ∷ cs) p =
    let more = (do s ← scan_single_quoted start cs (p + len_utf8 c); done (onto c s)) in
    if c == b'\'' then done ([], at cs (p + len_utf8 c)) else more

-- `if !literal.is_empty() { parts.push(Literal(take(literal))) }`
abbrev pub flush : List DqPart → Text → List DqPart
flush parts [] = parts
flush parts (c ∷ cs) = parts ++ DqPart.literal (c ∷ cs) ∷ []

module _ (alphanumeric : ℕ → Bool) where
  -- What follows a `$` between double quotes: the part, and the cursor behind it.
  unfoldable pub dollar_part : Cursor → DqPart × Cursor
  dollar_part k =
      if next_is b'(' k.rest
      then (let k1 = advance k in
          let (body, k2) = scan_until_close_paren 1 k1.rest k1.pos in (DqPart.cmd_subst body, k2))
      else if next_is b'{' k.rest
      then (let k1 = advance k in
          let (name, k2) = scan_until b'}' k1.rest k1.pos in (DqPart.variable name, advance k2))
      else (let (name, k1) = scan_varname alphanumeric k.rest k.pos in (DqPart.variable name, k1))

  -- The loop of `scan_double_quoted`, on fuel: `parts` and `literal` are its variables.
  unfoldable pub scan_double_quoted :
      ℕ → ℕ → List DqPart → Text → Text → ℕ → Scan (List DqPart × Cursor)
  unfolding dollar_part
  scan_double_quoted zero start parts lit s p = out_of_fuel
  scan_double_quoted (suc f) start parts lit [] p = fail (unterminated_double_quote start)
  scan_double_quoted (suc f) start parts lit (c ∷ []) p =
      let more = scan_double_quoted f start parts (lit ++ c ∷ []) [] (p + len_utf8 c) in
      let (part, k) = dollar_part (at [] (p + len_utf8 c)) in
      let behind = scan_double_quoted f start (flush parts lit ++ part ∷ []) [] k.rest k.pos in
      let escaped = scan_double_quoted f start parts lit [] (p + len_utf8 c) in
      if c == b'"'
      then done (flush parts lit, at [] (p + len_utf8 c))
      else if c == b'$'
      then behind
      else if c == b'\\'
      then escaped
      else more
  scan_double_quoted (suc f) start parts lit (c ∷ d ∷ ds) p =
      let more = scan_double_quoted f start parts (lit ++ c ∷ []) (d ∷ ds) (p + len_utf8 c) in
      let (part, k) = dollar_part (at (d ∷ ds) (p + len_utf8 c)) in
      let behind = scan_double_quoted f start (flush parts lit ++ part ∷ []) [] k.rest k.pos in
      let escaped =
        scan_double_quoted f start parts (lit ++ d ∷ []) ds (p + len_utf8 c + len_utf8 d) in
      if c == b'"'
      then done (flush parts lit, at (d ∷ ds) (p + len_utf8 c))
      else if c == b'$'
      then behind
      else if c == b'\\'
      then escaped
      else more
