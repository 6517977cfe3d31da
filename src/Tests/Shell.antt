-- ===== src/Tests/Shell.antt =====
-- The lexer and the parser on concrete command lines.
use ferrite_mcp.Prelude.{
  if◌then◌else◌, text_eq, ℕ, ◌≡◌, refl, Bool, true, ◌&&◌, ◌||◌, List, [], ◌∷◌, ◌++◌, map, leb,
  arith, Text, codes, len_utf8,
}
use ferrite_mcp.Lexer.Token.{
  TokenKind, word, single_quoted, double_quoted, variable, semi, gt, and_and, r_paren, eof, Scan,
  done, fail, unterminated_double_quote,
}
use ferrite_mcp.Lexer.Token
use ferrite_mcp.Lexer.Cursor.{new, ends_word, skip_blanks, skip_comment, scan_word, scan_varname}
use ferrite_mcp.Lexer.Quoted.{scan_double_quoted}
use ferrite_mcp.Lexer.Scan.{scan_dollar, scan_kind, next_at, next_token, lex_from, lex}
use ferrite_mcp.Lexer.Spans.{Lexed, lex-Lexed}
use ferrite_mcp.Lexer.RoundTrip.{Arg, plain, quoted, command_line, kind_of, kinds, lex-command_line}
use ferrite_mcp.Parser.Ast.{end_of_input, and_then, literal, output, Word, simple, ListItem}
use ferrite_mcp.Parser.Parse.{ok, parse, parse_tokens}
use ferrite_mcp.Parser.Returns.{Returns, parse-Returns}
use ferrite_mcp.Parser.Print.{Style, bare, double, items_tokens, Printable}
use ferrite_mcp.Parser.RoundTrip.Items.{parse_tokens-items_tokens, parse_tokens-drops, parenthesis}

-- `char::is_alphanumeric` on ASCII
abbrev ascii_alphanumeric : ℕ → Bool
ascii_alphanumeric c =
    leb b'a' c && leb c b'z' || leb b'A' c && leb c b'Z' || leb b'0' c && leb c b'9'

abbrev line : Text
line = codes "echo \"a $HOME\" > x # end"

lex-line :
    kinds (lex ascii_alphanumeric line)
    ≡ done (
        word (codes "echo")
        ∷ double_quoted
            (Token.DqPart.literal (codes "a ") ∷ Token.DqPart.variable (codes "HOME") ∷ [])
        ∷ gt
        ∷ word (codes "x")
        ∷ eof
        ∷ [])
unfolding lex lex_from next_token next_at scan_kind scan_double_quoted scan_dollar scan_word
    scan_varname skip_blanks skip_comment ends_word len_utf8
lex-line = refl

lex-open_quote : lex ascii_alphanumeric (codes "ls \"x") ≡ fail (unterminated_double_quote 3)
unfolding lex lex_from next_token next_at scan_kind scan_double_quoted scan_word skip_blanks
    ends_word len_utf8
lex-open_quote = refl

lex-Lexed_example : Lexed (new line) (lex ascii_alphanumeric line)
lex-Lexed_example = lex-Lexed ascii_alphanumeric line

abbrev args : List Arg
args = plain b'l' (codes "s") ∷ quoted (codes "a; b") ∷ []

lex-command_line_example :
    kinds (lex ascii_alphanumeric (command_line args)) ≡ done (map kind_of args ++ eof ∷ [])
lex-command_line_example =
    lex-command_line ascii_alphanumeric args (unfold ends_word in ((refl, refl), (refl, tt)))

parse-Returns_example : Returns (parse ascii_alphanumeric line)
parse-Returns_example = parse-Returns ascii_alphanumeric line

abbrev text_word : Text → Word
text_word s = record { parts = literal s ∷ [] }

abbrev item_of : Text → Text → ListItem
item_of a b = record {
  pipeline = record {
    negate = true;
    commands =
        simple (record {
          words = text_word a ∷ [];
          redirects = record { fd = 2; kind = output; target = text_word b } ∷ [];
        })
        ∷ [];
  };
  separator = end_of_input;
}

abbrev plain_item : Printable (item_of [] [] ∷ [])
plain_item = ((tt, (tt, tt), (tt, tt, tt)), tt)

abbrev items : List ListItem
items =
    record (item_of (codes "a") (codes "b")) { separator = and_then }
    ∷ item_of (codes "c") (codes "d")
    ∷ []

-- `a` bare, all else between double quotes, and `>` without its descriptor
abbrev mixed : Style
mixed = record {
  of_literal = λ t. if text_eq t (codes "a") then bare else double;
  bare_variable = λ v. true;
  bare_arrow = true;
}

parse_tokens-items_tokens_example :
    parse_tokens 20 (items_tokens mixed items (eof ∷ [])) ≡ ok (record { items = items }) (eof ∷ [])
parse_tokens-items_tokens_example =
    parse_tokens-items_tokens mixed items 20 (plain_item, (λ e. cc), plain_item) (omega arith)

parse_tokens-drops_example :
    parse_tokens 20
      (items_tokens mixed (item_of [] [] ∷ []) (r_paren ∷ word (codes "rm") ∷ eof ∷ []))
    ≡ ok (record { items = item_of [] [] ∷ [] }) (r_paren ∷ word (codes "rm") ∷ eof ∷ [])
parse_tokens-drops_example =
    parse_tokens-drops mixed (item_of [] []) [] r_paren (word (codes "rm") ∷ eof ∷ []) 20 plain_item
      refl parenthesis (omega arith)
