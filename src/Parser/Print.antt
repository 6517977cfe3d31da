-- ===== src/Parser/Print.antt =====
-- Command lists written as tokens, and the lists that can be written so.
use ferrite_mcp.Prelude.{
  ℕ, Bool, true, false, ◌≡◌, ◌≢◌, List, [], ◌∷◌, ◌&&◌, map, codes, Text, text_eq, ◌==◌,
  if◌then◌else◌,
}
use ferrite_mcp.Lexer.Token.{
  DqPart, TokenKind, word, single_quoted, double_quoted, gt, gt_gt, pipe, or_or, and_and, semi,
  ampersand, lt, gt_ampersand, fd_gt, fd_gt_gt,
}
use ferrite_mcp.Parser.Ast.{
  Separator, sequential, background, and_then, or_else, end_of_input, WordPart, literal, variable,
  glob, cmd_subst, Word, RedirectKind, output, append, input, output_dup, Redirect, Command, simple,
  ListItem,
}
use ferrite_mcp.Parser.Parse.{Tokens}

abbrev pub quote : WordPart → DqPart
quote (literal s) = DqPart.literal s
quote (variable v) = DqPart.variable v
quote (glob s) = DqPart.literal s
quote cmd_subst = DqPart.cmd_subst []

-- How words and redirects are spelled: a literal bare, between single or between double quotes, a variable bare
-- or between double quotes, and `>` and `>>` for descriptor 1 with it or without it. Words of several parts are
-- written between double quotes, and so is a bare `!`, which would be read as a negation.
pub data Quoting : Type 0 where
  bare single double : Quoting

pub record Style : Type 0 where
  pub of_literal : Text → Quoting
  pub bare_variable : Text → Bool
  pub bare_arrow : Bool

abbrev pub quoted : Quoting → Text → TokenKind
quoted bare s = if text_eq s (codes "!") then double_quoted (DqPart.literal s ∷ []) else word s
quoted single s = single_quoted s
quoted double s = double_quoted (DqPart.literal s ∷ [])

abbrev pub named : Bool → Text → TokenKind
named true v = TokenKind.variable v
named false v = double_quoted (DqPart.variable v ∷ [])

abbrev pub bare_one : Bool → ℕ → TokenKind → TokenKind → TokenKind
bare_one b fd short long = if b && fd == 1 then short else long

abbrev pub separator_tokens : Separator → Tokens → Tokens
separator_tokens sequential rest = semi ∷ rest
separator_tokens background rest = ampersand ∷ rest
separator_tokens and_then rest = and_and ∷ rest
separator_tokens or_else rest = or_or ∷ rest
separator_tokens end_of_input rest = rest

module _ (σ : Style) where
  abbrev pub spelled : List WordPart → TokenKind
  spelled (literal s ∷ []) = quoted (σ.of_literal s) s
  spelled (variable v ∷ []) = named (σ.bare_variable v) v
  spelled ps = double_quoted (map quote ps)

  abbrev pub word_token : Word → TokenKind
  word_token w = spelled w.parts

  abbrev pub arrow : RedirectKind → ℕ → TokenKind
  arrow output fd = bare_one σ.bare_arrow fd gt (fd_gt fd)
  arrow append fd = bare_one σ.bare_arrow fd gt_gt (fd_gt_gt fd)
  arrow input fd = lt
  arrow output_dup fd = gt_ampersand

  abbrev pub words_tokens : List Word → Tokens → Tokens
  words_tokens [] rest = rest
  words_tokens (w ∷ ws) rest = word_token w ∷ words_tokens ws rest

  abbrev pub redirects_tokens : List Redirect → Tokens → Tokens
  redirects_tokens [] rest = rest
  redirects_tokens (r ∷ rs) rest =
      arrow r.kind r.fd ∷ word_token r.target ∷ redirects_tokens rs rest

  abbrev pub command_tokens : Command → Tokens → Tokens
  command_tokens (simple c) rest = words_tokens c.words (redirects_tokens c.redirects rest)

  abbrev pub piped_tokens : List Command → Tokens → Tokens
  piped_tokens [] rest = rest
  piped_tokens (c ∷ cs) rest = pipe ∷ command_tokens c (piped_tokens cs rest)

  abbrev pub commands_tokens : List Command → Tokens → Tokens
  commands_tokens [] rest = rest
  commands_tokens (c ∷ cs) rest = command_tokens c (piped_tokens cs rest)

  abbrev pub pipeline_tokens : Bool → List Command → Tokens → Tokens
  pipeline_tokens true cs rest = word (codes "!") ∷ commands_tokens cs rest
  pipeline_tokens false cs rest = commands_tokens cs rest

  -- The list, and the tokens that follow it.
  abbrev pub items_tokens : List ListItem → Tokens → Tokens
  items_tokens [] rest = rest
  items_tokens (i ∷ is) rest =
      pipeline_tokens i.pipeline.negate i.pipeline.commands
        (separator_tokens i.separator (items_tokens is rest))

-- What the parser can build: parts with no glob and no command substitution,
abbrev pub PlainParts : List WordPart → Type 0
PlainParts [] = Unit
PlainParts (literal s ∷ ps) = PlainParts ps
PlainParts (variable s ∷ ps) = PlainParts ps
PlainParts (glob s ∷ ps) = ⊥
PlainParts (cmd_subst ∷ ps) = ⊥

abbrev pub PlainWords : List Word → Type 0
PlainWords [] = Unit
PlainWords (w ∷ ws) = PlainParts w.parts × PlainWords ws

-- `<` only for descriptor 0, and `>&` only for 1,
abbrev pub FitsFd : RedirectKind → ℕ → Type 0
FitsFd output fd = Unit
FitsFd append fd = Unit
FitsFd input fd = fd ≡ 0
FitsFd output_dup fd = fd ≡ 1

abbrev pub PlainRedirects : List Redirect → Type 0
PlainRedirects [] = Unit
PlainRedirects (r ∷ rs) = FitsFd r.kind r.fd × PlainParts r.target.parts × PlainRedirects rs

-- no empty command,
abbrev pub NonEmpty : List Word → List Redirect → Type 0
NonEmpty [] [] = ⊥
NonEmpty _ _ = Unit

abbrev pub PlainCommand : Command → Type 0
PlainCommand (simple c) =
    NonEmpty c.words c.redirects × PlainWords c.words × PlainRedirects c.redirects

abbrev pub PlainCommands : List Command → Type 0
PlainCommands [] = Unit
PlainCommands (c ∷ cs) = PlainCommand c × PlainCommands cs

-- no pipeline without a command,
abbrev pub PlainPipeline : List Command → Type 0
PlainPipeline [] = ⊥
PlainPipeline (c ∷ cs) = PlainCommand c × PlainCommands cs

-- and the end of the input as a separator behind the last item alone.
abbrev pub Printable : List ListItem → Type 0
Printable [] = Unit
Printable (i ∷ []) = PlainPipeline i.pipeline.commands
Printable (i ∷ j ∷ is) =
    PlainPipeline i.pipeline.commands × (i.separator ≢ end_of_input) × Printable (j ∷ is)

-- No separator stands behind the last item.
abbrev pub IsOpen : List ListItem → Type 0
IsOpen [] = ⊥
IsOpen (i ∷ []) = i.separator ≡ end_of_input
IsOpen (i ∷ j ∷ is) = IsOpen (j ∷ is)
