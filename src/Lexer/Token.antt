-- ===== src/Lexer/Token.antt =====
-- crates/shell-lexer/src/token.rs, `Span` of crates/shell-core/src/types.rs and the lexer's errors.
use ferrite_mcp.Prelude.{ℕ, ◌-◌, List, Text}

-- Byte offsets into the source.
pub record Span : Type 0 where
  pub start : ℕ
  pub end : ℕ

-- `end.saturating_sub(start)`
abbrev pub span_len : Span → ℕ
span_len s = s.end - s.start

pub data DqPart : Type 0 where
  literal variable cmd_subst : Text → DqPart

pub data TokenKind : Type 0 where
  word : Text → TokenKind
  single_quoted : Text → TokenKind
  double_quoted : List DqPart → TokenKind
  variable : Text → TokenKind
  cmd_subst : Text → TokenKind
  pipe or_or and_and semi semi_semi ampersand : TokenKind
  gt gt_gt lt lt_paren gt_paren gt_ampersand : TokenKind
  fd_gt fd_gt_gt : ℕ → TokenKind
  l_paren r_paren l_brace r_brace : TokenKind
  newline eof : TokenKind

pub record Token : Type 0 where
  pub kind : TokenKind
  pub span : Span

-- Each error carries the byte offset where the quoted text began; `unexpected_char` is declared and
-- never raised.
pub data LexError : Type 0 where
  unterminated_single_quote unterminated_double_quote : ℕ → LexError
  unexpected_char : ℕ → ℕ → LexError

-- The outcome of a scanner. `out_of_fuel` stands for a loop cut off by the model.
pub data Scan {ℓ} (A : Type ℓ) : Type ℓ where
  done : A → Scan A
  fail : LexError → Scan A
  out_of_fuel : Scan A

infixl 5 ◌>>=◌
abbrev pub ◌>>=◌ {ℓ κ} : {A : Type ℓ} {B : Type κ} → Scan A → (A → Scan B) → Scan B
done a >>= f = f a
fail e >>= f = fail e
out_of_fuel >>= f = out_of_fuel
