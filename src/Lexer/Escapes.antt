-- ===== src/Lexer/Escapes.antt =====
-- Backslashes in words.
use ferrite_mcp.Prelude.{ℕ, ◌≡◌, Bool, true, [], ◌∷◌, arith, Text}
use ferrite_mcp.Lexer.Token.{word, done}
use ferrite_mcp.Lexer.Cursor.{at, ends_word, scan_word}
use ferrite_mcp.Lexer.Scan.{scan_kind}

-- A backslash that begins a word escapes nothing: where a blank or an operator follows, the backslash alone
-- is the word, and what follows is left for the next token.
pub scan_kind-backslash :
    (alphanumeric : ℕ → Bool) (f start c : ℕ) (cs : Text) (q : ℕ)
    → ends_word c ≡ true
    → scan_kind alphanumeric f start b'\\' (at (c ∷ cs) q) ≡ done (word (b'\\' ∷ []), at (c ∷ cs) q)
unfolding scan_kind scan_word
scan_kind-backslash alphanumeric f start c cs q h = ground (arith, h)
