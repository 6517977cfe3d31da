-- ===== src/Parser/Ast.antt =====
-- crates/shell-parser/src/ast.rs. The nested list of `WordPart::CmdSubst` is left out: the parser
-- never builds that variant, and the executor reads nothing of it.
use ferrite_mcp.Prelude.{ℕ, Bool, List, Text}

pub data Separator : Type 0 where
  sequential background and_then or_else end_of_input : Separator

pub data WordPart : Type 0 where
  literal variable glob : Text → WordPart
  cmd_subst : WordPart

pub record Word : Type 0 where
  pub parts : List WordPart

pub data RedirectKind : Type 0 where
  output append input output_dup : RedirectKind

pub record Redirect : Type 0 where
  pub fd : ℕ
  pub kind : RedirectKind
  pub target : Word

pub record SimpleCommand : Type 0 where
  pub words : List Word
  pub redirects : List Redirect

pub data Command : Type 0 where
  simple : SimpleCommand → Command

pub record Pipeline : Type 0 where
  pub negate : Bool
  pub commands : List Command

pub record ListItem : Type 0 where
  pub pipeline : Pipeline
  pub separator : Separator

-- `List` of the source
pub record CommandList : Type 0 where
  pub items : List ListItem
