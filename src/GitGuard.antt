-- ===== src/GitGuard.antt =====
-- crates/shell-mcp/src/tools/git/git_guard.rs: the checkpoint of the repository before a tool changes it.
use ferrite_mcp.Prelude.{
  ◌≡◌, refl, Bool, true, false, not, ◌&&◌, ◌||◌, Option, none, some, List, [], ◌∷◌, ◌++◌,
  if◌then◌else◌, Text, codes, text_eq, elem, Bool-cases, inl, inr, arith, Result, ok, err,
}
use ferrite_mcp.Server.Policy.{expand_tilde}
use ferrite_mcp.Permissions.Recovery.{contains}
pub mod Strict
pub mod Mutations

pub data Class : Type 0 where
  write build deploy : Class

-- `GitConfig`
pub record GitConfig : Type 0 where
  pub auto_checkpoint : Bool
  pub strict : Bool
  pub before_write : Bool
  pub before_build : Bool
  pub before_deploy : Bool
  pub add_mode : Text

-- what the guard reads of the arguments, the Booleans with their default
pub record GuardArgs : Type 0 where
  pub no_checkpoint : Bool
  pub dry_run : Bool
  pub op : Option Text
  pub path : Option Text

abbrev pub write_tools : List Text
write_tools =
    codes "move_file"
    ∷ codes "mkdir"
    ∷ codes "delete_file"
    ∷ codes "project_new"
    ∷ codes "write_file"
    ∷ codes "edit_file"
    ∷ codes "sed_file"
    ∷ codes "apply_patch"
    ∷ codes "edit_transaction"
    ∷ codes "replace_in_files"
    ∷ []

abbrev pub build_tools : List Text
build_tools =
    codes "build_check"
    ∷ codes "test_run"
    ∷ codes "cocotb_run"
    ∷ codes "verilog_sim"
    ∷ codes "vivado_tcl"
    ∷ codes "chip_build_pipeline"
    ∷ []

abbrev pub deploy_tools : List Text
deploy_tools = codes "fpga_program" ∷ codes "sync_project" ∷ codes "remote_build" ∷ []

unfoldable pub is_push : Option Text → Bool
is_push none = false
is_push (some op) = text_eq op (codes "push")

unfoldable pub classify : Text → GuardArgs → Option Class
unfolding is_push
classify tool args =
    if elem tool write_tools
    then (if args.dry_run then none else some write)
    else if elem tool build_tools
    then some build
    else if elem tool deploy_tools
    then some deploy
    else if text_eq tool (codes "gh_sync") && is_push args.op
    then some deploy
    else none

unfoldable pub class_enabled : GitConfig → Class → Bool
class_enabled cfg write = cfg.before_write
class_enabled cfg build = cfg.before_build
class_enabled cfg deploy = cfg.before_deploy

unfoldable pub skip_by_tool : Text → Bool
skip_by_tool tool = elem tool (codes "git_checkpoint" ∷ codes "git_commit" ∷ [])

-- the class whose checkpoint is taken, if one is
unfoldable pub guarded : GitConfig → Text → GuardArgs → Option Class
unfolding skip_by_tool classify class_enabled
guarded cfg tool args =
    if skip_by_tool tool || args.no_checkpoint then none else elim (classify tool args) [
      | none ↦ none
      | some class ↦
          if not cfg.auto_checkpoint || not (class_enabled cfg class) then none else some class
    ]

-- The arguments of the checkpoint that differ from call to call.
pub record Checkpoint : Type 0 where
  pub path : Text
  pub add : Text
  pub tool : Text
  pub class : Class

pub data AuditStatus : Type 0 where
  committed skipped_non_repo checkpoint_failed : AuditStatus

-- the error of the checkpoint with which the tool is refused, in a message that names both, and the status that is audited
unfoldable pub verdict : Bool → Result Text (Unit {0}) → Option Text × AuditStatus
unfolding contains
verdict strict (ok u) = (none, committed)
verdict strict (err e) =
    if contains (codes "not a git repo") e
    then (none, skipped_non_repo)
    else ((if strict then some e else none), checkpoint_failed)

unfoldable pub checkpoint_of : (home cwd : Text) → GitConfig → Text → GuardArgs → Class → Checkpoint
checkpoint_of home cwd cfg tool args class = record {
  path = elim args.path [ none ↦ cwd | some p ↦ expand_tilde home p ];
  add = if text_eq cfg.add_mode (codes "all") then codes "all" else codes "tracked";
  tool = tool;
  class = class;
}

-- `git_checkpoint` is a tool of its own, given by what it answers to a checkpoint. The result is the error for
-- the tool, and what is audited, if a checkpoint was tried.
unfoldable pub maybe_auto_checkpoint :
    (git_checkpoint : Checkpoint → Result Text (Unit {0})) (home cwd : Text)
    → GitConfig
    → Text
    → GuardArgs
    → Option Text × Option AuditStatus
unfolding guarded verdict checkpoint_of
maybe_auto_checkpoint git_checkpoint home cwd cfg tool args = elim (guarded cfg tool args) [
  | none ↦ (none, none)
  | some class ↦
      let (refused, status) =
        verdict cfg.strict (git_checkpoint (checkpoint_of home cwd cfg tool args class)) in
      (refused, some status)
]
