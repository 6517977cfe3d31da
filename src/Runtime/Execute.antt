-- ===== src/Runtime/Execute.antt =====
-- crates/shell-runtime/src/executor.rs.
use ferrite_mcp.Prelude.{
  ℕ, Bool, true, false, not, Option, none, some, List, [], ◌∷◌, ◌++◌, if◌then◌else◌, Text, codes,
}
use ferrite_mcp.Runtime.Env
use ferrite_mcp.Runtime.State.{
  ℤ, pos, ExitStatus, status, success, Spawned, ended, not_found, failed, ShellState, Os,
}
use ferrite_mcp.Runtime.Hooks.{
  HookEvent, pre_exec, post_exec, command_not_found, HookRegistry, fire,
}
use ferrite_mcp.Runtime.Jobs.{JobTable}
use ferrite_mcp.Runtime.Expand.{get_or, expand_word}
use ferrite_mcp.Runtime.Builtins
use ferrite_mcp.Runtime.Builtins.{Builtin, lookup, Ran, run_builtin}
use ferrite_mcp.Parser.Ast.{
  Separator, and_then, or_else, WordPart, literal, variable, glob, cmd_subst, Word, Command, simple,
  Pipeline, ListItem, CommandList,
}

abbrev pub part_text : Env.ShellEnv → WordPart → Text
part_text env (literal s) = s
part_text env (variable v) = get_or [] (Env.get env v)
part_text env (glob s) = []
part_text env cmd_subst = []

abbrev pub raw_word : Env.ShellEnv → List WordPart → Text
raw_word env [] = []
raw_word env (p ∷ ps) = part_text env p ++ raw_word env ps

-- the arguments of a simple command; `expand_word` never fails
unfoldable pub expand_words : (ℕ → Bool) → Env.ShellEnv → List Word → List Text
expand_words alphanumeric env [] = []
expand_words alphanumeric env (w ∷ ws) =
    expand_word alphanumeric (raw_word env w.parts) env ∷ expand_words alphanumeric env ws

module _ (os : Os) where
  open os use {World}

  -- `Executor`, and the world it acts on.
  pub record Executor : Type 0 where
    pub state : ShellState
    pub hooks : HookRegistry
    pub jobs : JobTable
    pub world : World

  pub data Outcome : Type 0 where
    running : ExitStatus → Executor → Outcome
    exited : ℤ → World → Outcome

infixl 5 ◌>>=◌
abbrev pub ◌>>=◌ : {os : Os} → Outcome os → (ExitStatus → Executor os → Outcome os) → Outcome os
running s x >>= f = f s x
exited c w >>= f = exited c w

module _ (os : Os) where
  open os use {spawn, print}

  abbrev pub fire_hook : HookEvent → Executor os → Executor os
  fire_hook e x = record x { hooks = fire x.hooks e }

  abbrev from_builtin : Executor os → Ran os → Outcome os
  from_builtin x (Builtins.running s st w) = running s (record x { state = st; world = w })
  from_builtin x (Builtins.exited c w) = exited c w

  abbrev from_spawned : Text → Executor os → Spawned → Outcome os
  from_spawned name x (ended code) = running (record { code = get_or (pos 1) code }) x
  from_spawned name x not_found =
      let x' = fire_hook (command_not_found name) x in
      running (status 127) (record x' {
        world = print (codes "ferrite: " ++ name ++ codes ": command not found\n") x'.world;
      })
  from_spawned name x (failed e) = running (status 1) (record x {
    world = print (codes "ferrite: " ++ name ++ codes ": " ++ e ++ codes "\n") x.world;
  })

  -- `spawn_external`
  unfoldable pub spawn_external : Text → List Text → Executor os → Outcome os
  spawn_external name args x =
      let (result, w) = spawn name args x.world in from_spawned name (record x { world = w }) result

  abbrev dispatch : Option Builtin → Text → List Text → Executor os → Outcome os
  dispatch (some b) name args x = from_builtin x (run_builtin os b args x.state x.world)
  dispatch none name args x = spawn_external name args x

  -- `execute_simple` behind the expansion. A command with no words does nothing; its redirects are
  -- not read.
  unfoldable pub run_words : List Text → Executor os → Outcome os
  run_words [] x = running (status 0) x
  run_words (name ∷ args) x =
      dispatch (lookup name) name args (fire_hook (pre_exec name) x) >>= λ s x'.
      running s (fire_hook (post_exec name s) x')

module _ (alphanumeric : ℕ → Bool) (os : Os) where
  -- `execute_simple` and `execute_command`
  unfoldable pub execute_command : Command → Executor os → Outcome os
  execute_command (simple c) x = run_words os (expand_words alphanumeric x.state.env c.words) x

  -- The commands of a pipeline run one after the other: nothing is piped.
  unfoldable pub execute_commands : List Command → ExitStatus → Executor os → Outcome os
  execute_commands [] last x = running last x
  execute_commands (c ∷ cs) last x = execute_command c x >>= execute_commands cs

  -- `ExitStatus(!status.success() as i32)`: `!` binds more tightly than `as`, so success becomes 0.
  abbrev pub negated : Bool → ExitStatus → ExitStatus
  negated true s = if not (success s) then status 1 else status 0
  negated false s = s

  -- `execute_pipeline`
  unfoldable pub execute_pipeline : Pipeline → Executor os → Outcome os
  execute_pipeline p x =
      execute_commands p.commands (status 0) x >>= λ s x'. running (negated p.negate s) x'

  -- `last = self.execute_pipeline(..); self.state.last_status = last;`
  unfoldable pub run_item : Pipeline → Executor os → Outcome os
  run_item p x = execute_pipeline p x >>= λ s x'.
      running s (record x' { state = record x'.state { last_status = s } })

  -- whether the separator of the item before lets an item run
  abbrev pub should_run : Separator → ExitStatus → Bool
  should_run and_then last = success last
  should_run or_else last = not (success last)
  should_run _ last = true

  -- The loop of `execute_list` behind the first item; `sep` is the separator of the item before.
  unfoldable pub execute_rest : List ListItem → Separator → ExitStatus → Executor os → Outcome os
  execute_rest [] sep last x = running last x
  execute_rest (i ∷ is) sep last x =
      let skipped = execute_rest is i.separator last x in
      let ran = run_item i.pipeline x >>= execute_rest is i.separator in
      if should_run sep last then ran else skipped

  -- `execute_list`
  unfoldable pub execute_list : CommandList → Executor os → Outcome os
  execute_list l x = execute_rest l.items Separator.sequential (status 0) x
