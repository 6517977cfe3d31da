-- ===== src/Parser/Parse.antt =====
-- crates/shell-parser/src/parser.rs. The parser reads only the kinds of the tokens. Its state is the
-- list of those from `pos` on: `advance` never moves behind the last one.
use ferrite_mcp.Prelude.{
  ℕ, zero, suc, Bool, false, List, [], ◌∷◌, ◌++◌, map, if◌then◌else◌, Text, codes, text_eq, length,
}
use ferrite_mcp.Lexer.Token.{
  DqPart, TokenKind, Token, word, single_quoted, double_quoted, pipe, or_or, and_and, semi,
  semi_semi, ampersand, gt, gt_gt, lt, gt_ampersand, fd_gt, fd_gt_gt, r_paren, r_brace, newline,
  eof, LexError, Scan, done, fail, out_of_fuel,
}
use ferrite_mcp.Lexer.Scan.{lex}
use ferrite_mcp.Parser.Ast.{
  Separator, sequential, background, and_then, or_else, end_of_input, WordPart, Word, RedirectKind,
  output, append, input, output_dup, Redirect, Command, simple, Pipeline, ListItem, CommandList,
}

-- The errors hold the token and the lexer's error where the source holds their text.
pub data ParseError : Type 0 where
  lex_error : LexError → ParseError
  unexpected_token : TokenKind → ParseError
  unexpected_eof : ParseError

abbrev pub Tokens : Type 0
Tokens = List TokenKind

-- The outcome of a rule, with the tokens from the new position on. `panicked` is the index out of
-- bounds of `advance` on an empty vector, and `stuck` a loop cut off by the model.
pub data Outcome (A : Type 0) : Type 0 where
  ok : A → Tokens → Outcome A
  err : ParseError → Outcome A
  panicked stuck : Outcome A

infixl 5 ◌>>=◌
abbrev pub ◌>>=◌ : {A B : Type 0} → Outcome A → (A × Tokens → Outcome B) → Outcome B
ok a ts >>= f = f (a, ts)
err e >>= f = err e
panicked >>= f = panicked
stuck >>= f = stuck

abbrev pub peek : Tokens → TokenKind
peek [] = eof
peek (t ∷ ts) = t

abbrev pub advance : Tokens → Outcome TokenKind
advance [] = panicked
advance (t ∷ []) = ok t (t ∷ [])
advance (t ∷ u ∷ ts) = ok t (u ∷ ts)

-- Where the source advances behind a successful `peek`, only the new position counts.
abbrev pub behind : Tokens → Tokens
behind [] = []
behind (t ∷ []) = t ∷ []
behind (t ∷ u ∷ ts) = u ∷ ts

-- The last token is never skipped, so a list that ends with a newline would loop: on fuel.
unfoldable pub skip_newlines : ℕ → Tokens → Outcome Unit
skip_newlines zero ts = stuck
skip_newlines (suc f) ts = elim (peek ts) [ newline ↦ skip_newlines f (behind ts) | _ ↦ ok tt ts ]

unfoldable pub parse_separator : Tokens → Separator × Tokens
parse_separator ts = elim (peek ts) [
  | semi ↦ (sequential, behind ts)
  | newline ↦ (sequential, behind ts)
  | ampersand ↦ (background, behind ts)
  | and_and ↦ (and_then, behind ts)
  | or_or ↦ (or_else, behind ts)
  | _ ↦ (end_of_input, ts)
]

abbrev pub word_part : DqPart → WordPart
word_part (DqPart.literal s) = WordPart.literal s
word_part (DqPart.variable v) = WordPart.variable v
word_part (DqPart.cmd_subst body) = WordPart.literal []

-- The parts of the word that a token stands for; `err` for a token that is no word.
unfoldable pub word_of : TokenKind → Tokens → Outcome Word
word_of (word s) ts = ok (record { parts = WordPart.literal s ∷ [] }) ts
word_of (single_quoted s) ts = ok (record { parts = WordPart.literal s ∷ [] }) ts
word_of (double_quoted parts) ts = ok (record { parts = map word_part parts }) ts
word_of (TokenKind.variable v) ts = ok (record { parts = WordPart.variable v ∷ [] }) ts
word_of (TokenKind.cmd_subst body) ts = ok (record { parts = WordPart.literal [] ∷ [] }) ts
word_of other ts = err (unexpected_token other)

unfoldable pub parse_word : Tokens → Outcome Word
unfolding word_of
parse_word ts = do (t, rest) ← advance ts; word_of t rest

unfoldable pub redirect_of : TokenKind → Tokens → Outcome (ℕ × RedirectKind)
redirect_of gt ts = ok (1, output) ts
redirect_of gt_gt ts = ok (1, append) ts
redirect_of lt ts = ok (0, input) ts
redirect_of gt_ampersand ts = ok (1, output_dup) ts
redirect_of (fd_gt fd) ts = ok (fd, output) ts
redirect_of (fd_gt_gt fd) ts = ok (fd, append) ts
redirect_of other ts = err (unexpected_token other)

unfoldable pub parse_redirect : Tokens → Outcome Redirect
unfolding redirect_of parse_word
parse_redirect ts = do
  (t, at_kind) ← advance ts
  ((fd, kind), at_target) ← redirect_of t at_kind
  (target, rest) ← parse_word at_target
  ok (record { fd = fd; kind = kind; target = target }) rest

-- the arms of the loop of `parse_command`
pub data Turn : Type 0 where
  stop redirect argument : Turn

unfoldable pub turn : TokenKind → Turn
turn eof = stop
turn newline = stop
turn semi = stop
turn semi_semi = stop
turn ampersand = stop
turn and_and = stop
turn or_or = stop
turn pipe = stop
turn r_paren = stop
turn r_brace = stop
turn gt = redirect
turn gt_gt = redirect
turn lt = redirect
turn gt_ampersand = redirect
turn (fd_gt fd) = redirect
turn (fd_gt_gt fd) = redirect
turn _ = argument

-- behind the loop: a command needs a word or a redirect
unfoldable pub finish_command : List Word → List Redirect → Tokens → Outcome Command
finish_command [] [] ts = err (unexpected_token (peek ts))
finish_command words redirects ts = ok (simple (record { words = words; redirects = redirects })) ts

-- One turn of the loop of `parse_command`; `again` is the rest of the loop.
unfoldable pub command_turn :
    (List Word → List Redirect → Tokens → Outcome Command)
    → Turn
    → List Word
    → List Redirect
    → Tokens
    → Outcome Command
command_turn again stop words redirects ts = finish_command words redirects ts
command_turn again redirect words redirects ts = do
  (r, rest) ← parse_redirect ts
  again words (redirects ++ r ∷ []) rest
command_turn again argument words redirects ts = do
  (w, rest) ← parse_word ts
  again (words ++ w ∷ []) redirects rest

unfoldable pub command_loop : ℕ → List Word → List Redirect → Tokens → Outcome Command
command_loop zero words redirects ts = stuck
command_loop (suc f) words redirects ts =
    command_turn (command_loop f) (turn (peek ts)) words redirects ts

abbrev pub parse_command : ℕ → Tokens → Outcome Command
parse_command f = command_loop f [] []

-- `while matches!(self.peek(), Pipe)`
unfoldable pub pipe_loop : ℕ → List Command → Tokens → Outcome (List Command)
pipe_loop zero commands ts = stuck
pipe_loop (suc f) commands ts = elim (peek ts) [
  | pipe ↦ (do
    (u, at_command) ← skip_newlines (suc f) (behind ts)
    (c, rest) ← parse_command (suc f) at_command
    pipe_loop f (commands ++ c ∷ []) rest)
  | _ ↦ ok commands ts
]

abbrev pub is_bang : TokenKind → Bool
is_bang (word w) = text_eq w (codes "!")
is_bang _ = false

-- `let mut commands = vec![self.parse_command()?]` and the loop behind it
unfoldable pub parse_commands : ℕ → Tokens → Outcome (List Command)
parse_commands f ts = do (c, rest) ← parse_command f ts; pipe_loop f (c ∷ []) rest

unfoldable pub parse_pipeline : ℕ → Tokens → Outcome Pipeline
unfolding parse_commands
parse_pipeline f ts = do
  let negate = is_bang (peek ts)
  (commands, rest) ← parse_commands f (if negate then behind ts else ts)
  ok (record { negate = negate; commands = commands }) rest

-- behind a pipeline and its separator: `break` at the end, or the next turn of the loop
unfoldable pub list_next :
    ℕ
    → (List ListItem → Tokens → Outcome CommandList)
    → List ListItem
    → Separator
    → Tokens
    → Outcome CommandList
list_next f again items end_of_input ts = ok (record { items = items }) ts
list_next f again items _ ts = do (u, rest) ← skip_newlines f ts; again items rest

-- the body of the loop of `Parser::parse`; `again` is the rest of the loop
unfoldable pub list_item :
    ℕ
    → (List ListItem → Tokens → Outcome CommandList)
    → List ListItem
    → Tokens
    → Outcome CommandList
list_item f again items ts = do
  (p, at_separator) ← parse_pipeline f ts
  let (s, rest) = parse_separator at_separator
  list_next f again (items ++ record { pipeline = p; separator = s } ∷ []) s rest

unfoldable pub list_loop : ℕ → List ListItem → Tokens → Outcome CommandList
unfolding list_item
list_loop zero items ts = stuck
list_loop (suc f) items ts = elim (peek ts) [
  | eof ↦ ok (record { items = items }) ts
  | _ ↦ list_item (suc f) (list_loop f) items ts
]

-- `Parser::parse`
unfoldable pub parse_tokens : ℕ → Tokens → Outcome CommandList
parse_tokens f ts = do (u, rest) ← skip_newlines f ts; list_loop f [] rest

abbrev pub parse_lexed : Scan (List Token) → Outcome CommandList
parse_lexed (done ts) = parse_tokens (suc (length ts)) (map (λ t. t.kind) ts)
parse_lexed (fail e) = err (lex_error e)
parse_lexed out_of_fuel = stuck

-- `shell_parser::parse`
unfoldable pub parse : (alphanumeric : ℕ → Bool) → Text → Outcome CommandList
parse alphanumeric src = parse_lexed (lex alphanumeric src)
