-- ===== src/Tests/GitGuard.antt =====
-- The guard before a write.
use ferrite_mcp.Prelude.{
  ◌≡◌, refl, true, false, none, some, Text, codes, text_eq, elem, starts_with, Result, err, ◌↔◌,
}
use ferrite_mcp.GitGuard.{
  write, GitConfig, GuardArgs, guarded, Checkpoint, checkpoint_failed, maybe_auto_checkpoint,
}
use ferrite_mcp.GitGuard.Strict.{Blocked, maybe_auto_checkpoint-Blocked}
use ferrite_mcp.GitGuard.Mutations.{guarded-mutations}
use ferrite_mcp.Permissions.Recovery.{contains}

abbrev careful : GitConfig
careful = record {
  auto_checkpoint = true;
  strict = true;
  before_write = true;
  before_build = false;
  before_deploy = false;
  add_mode = codes "tracked";
}

abbrev plain : GuardArgs
plain = record { no_checkpoint = false; dry_run = false; op = none; path = none }

abbrev locked : Checkpoint → Result Text (Unit {0})
locked c = err (codes "index.lock exists")

maybe_auto_checkpoint-Blocked_example :
    ((maybe_auto_checkpoint locked (codes "/h") (codes "/r") careful (codes "write_file") plain).0
      ≡ some (codes "index.lock exists"))
    ↔ Blocked locked
        (codes "/h")
        (codes "/r")
        careful
        (codes "write_file")
        plain
        (codes "index.lock exists")
maybe_auto_checkpoint-Blocked_example =
    maybe_auto_checkpoint-Blocked locked (codes "/h") (codes "/r") careful (codes "write_file")
      plain (codes "index.lock exists")

refused_example :
    maybe_auto_checkpoint locked (codes "/h") (codes "/r") careful (codes "write_file") plain
    ≡ (some (codes "index.lock exists"), some checkpoint_failed)
unfolding maybe_auto_checkpoint elem text_eq contains starts_with
refused_example = refl

guarded-mutations_example : guarded careful (codes "edit_transaction") plain ≡ some write
unfolding elem text_eq
guarded-mutations_example =
    guarded-mutations careful (codes "edit_transaction") plain refl refl refl
