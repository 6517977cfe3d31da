-- ===== src/Parser/Returns.antt =====
-- `shell_parser::parse` returns on every source; a token vector without `Eof` makes the parser loop.
use ferrite_mcp.Prelude.{
  ℕ, zero, suc, ◌≡◌, ◌≢◌, refl, Bool, List, [], ◌∷◌, map, arith, Text, length, length-map,
  Bool-cases, inl, inr, text_eq, codes,
}
use ferrite_mcp.Lexer.Token.{Token, TokenKind, word, Scan}
use ferrite_mcp.Lexer.Cursor.{new}
use ferrite_mcp.Lexer.Spans.{Spans, last, more, Lexed, tokens, error, lex-Lexed}
use ferrite_mcp.Parser.Ast.{Word, Redirect, CommandList}
use ferrite_mcp.Parser.Parse.{
  Tokens, Outcome, panicked, stuck, skip_newlines, parse_word, turn, command_turn, command_loop,
  parse_pipeline, list_loop, parse_tokens, parse_lexed, parse,
}
use ferrite_mcp.Parser.Total.{EndsEof, Parses, parsed, rejected, parse_tokens-Parses}

EndsEof-cons : (t : TokenKind) (ts : Tokens) → EndsEof ts → EndsEof (t ∷ ts)
EndsEof-cons t [] e = absurd e
EndsEof-cons t (u ∷ ts) e = e

Spans-EndsEof :
    {total low : ℕ} {ts : List Token} → Spans total low ts → EndsEof (map (λ t. t.kind) ts)
Spans-EndsEof (last h) = refl
Spans-EndsEof (more {t} {ts} a b s) = EndsEof-cons t.kind (map (λ t. t.kind) ts) (Spans-EndsEof s)

-- The parser comes to a result: a list, or a parse error.
abbrev pub Returns : Outcome CommandList → Type 0
Returns r = (r ≢ panicked) × (r ≢ stuck)

Parses-Returns : {n : ℕ} {ts : Tokens} {r : Outcome CommandList} → Parses n ts r → Returns r
Parses-Returns (parsed e l) = (λ h. cc, λ h. cc)
Parses-Returns rejected = (λ h. cc, λ h. cc)

parse_lexed-Returns :
    {src : Text} {r : Scan (List Token)} → Lexed (new src) r → Returns (parse_lexed r)
parse_lexed-Returns (tokens {ts} s) = Parses-Returns (
    parse_tokens-Parses (suc (length ts)) (map (λ t. t.kind) ts) (Spans-EndsEof s)
      (omega (arith, length-map ts (λ (t : Token). t.kind))))
parse_lexed-Returns (error low high) = (λ h. cc, λ h. cc)

-- For every source, `parse` returns a command list or an error: it does not index out of bounds,
-- and its loops end.
pub parse-Returns : (alphanumeric : ℕ → Bool) (src : Text) → Returns (parse alphanumeric src)
unfolding parse
parse-Returns alphanumeric src = parse_lexed-Returns (lex-Lexed alphanumeric src)

command_loop-stuck :
    (f : ℕ) (ws : List Word) (rs : List Redirect) (s : Text)
    → command_loop f ws rs (word s ∷ []) ≡ stuck
unfolding command_loop command_turn turn parse_word
command_loop-stuck zero ws rs s = refl
command_loop-stuck (suc f) ws rs s = command_loop-stuck f _ rs s

-- On tokens that are a single word with no `Eof` behind it, the parser reads the
-- same word for ever: no amount of fuel is enough.
pub parse_tokens-stuck : (f : ℕ) (s : Text) → parse_tokens f (word s ∷ []) ≡ stuck
unfolding parse_tokens skip_newlines list_loop parse_pipeline
parse_tokens-stuck zero s = refl
parse_tokens-stuck (suc f) s = elim (Bool-cases (text_eq s (codes "!"))) [
  | inl bang ↦ rw (bang, command_loop-stuck)
  | inr other ↦ rw (other, command_loop-stuck)
]
