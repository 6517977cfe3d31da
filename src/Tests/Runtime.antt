-- ===== src/Tests/Runtime.antt =====
-- The runtime on concrete commands.
use ferrite_mcp.Prelude.{
  ℕ, suc, ◌≡◌, ◌≢◌, refl, Bool, true, false, none, some, [], ◌∷◌, ◌++◌, leb, ◌&&◌, arith, Text,
  codes, text_eq,
}
use ferrite_mcp.Dict
use ferrite_mcp.Lexer.Token.{single_quoted}
use ferrite_mcp.Parser.Ast.{
  and_then, end_of_input, literal, variable, Word, simple, Pipeline, CommandList,
}
use ferrite_mcp.Parser.Parse.{ok, word_of}
use ferrite_mcp.Runtime.Env.{ShellEnv}
use ferrite_mcp.Runtime.Env
use ferrite_mcp.Runtime.State.{status, ended, Os, pos}
use ferrite_mcp.Runtime.Hooks.{Hook, startup, consume, fire_loop, after, unchanged, fire_loop-stops}
use ferrite_mcp.Runtime.Jobs.{JobTable, IsValid, running}
use ferrite_mcp.Runtime.Jobs
use ferrite_mcp.Runtime.Expand.{get_or}
use ferrite_mcp.Runtime.Execute.{Executor, execute_list, execute_pipeline, expand_words}
use ferrite_mcp.Runtime.Chains.{chains, run_chains, execute_list-chains}
use ferrite_mcp.Runtime.Negation.{seen, execute_pipeline-negated}
use ferrite_mcp.Runtime.Expansion.{single_quotes_expand, values_expand}

abbrev lower_case : ℕ → Bool
lower_case c = leb b'a' c && leb c b'z'

-- A has the value x, B the text `$A`
abbrev env : ShellEnv
env = record { vars = (codes "a", codes "x") ∷ (codes "b", codes "$a") ∷ []; exported = [] }

single_quotes_expand_example :
    (w : Word) × (word_of (single_quoted (codes "$a")) [] ≡ ok w [])
    × (expand_words lower_case env (w ∷ []) ≡ get_or [] (Env.get env (codes "a")) ∷ [])
single_quotes_expand_example = single_quotes_expand lower_case env b'a' [] [] refl refl

values_expand_example :
    expand_words lower_case env (record { parts = variable (codes "b") ∷ [] } ∷ [])
    ≡ get_or [] (Env.get env (codes "a")) ∷ []
unfolding Env.get Dict.get text_eq
values_expand_example = values_expand lower_case env (codes "b") b'a' [] refl refl refl

-- a system on which every command succeeds, counting the calls
abbrev os : Os
os = record {
  World = ℕ;
  spawn = λ name args w. (ended (some (pos 0)), suc w);
  set_current_dir = λ path w. (true, w);
  canonicalize = λ path w. some path;
  set_var = λ name value w. w;
  print = λ text w. w;
}

abbrev shell : Executor os
shell = record {
  state = record {
    env = env;
    cwd = codes "/";
    last_status = status 0;
    interactive = false;
    opts = record { errexit = false; nounset = false; xtrace = false; noglob = false };
  };
  hooks = record { hooks = [] };
  jobs = Jobs.new;
  world = 0;
}

abbrev command : Text → Pipeline
command name = record {
  negate = false;
  commands =
      simple (record { words = record { parts = literal name ∷ [] } ∷ []; redirects = [] }) ∷ [];
}

abbrev list : CommandList
list = record {
  items =
      record { pipeline = command (codes "ls"); separator = and_then }
      ∷ record { pipeline = command (codes "ps"); separator = end_of_input }
      ∷ [];
}

execute_list-chains_example :
    execute_list lower_case os list shell
    ≡ run_chains lower_case os (chains list.items) (status 0) shell
execute_list-chains_example = execute_list-chains lower_case os list shell

execute_pipeline-negated_example :
    seen os (
      execute_pipeline lower_case os
        (record { negate = true; commands = (command (codes "ls")).commands })
        shell)
    ≡ seen os (
        execute_pipeline lower_case os
          (record { negate = false; commands = (command (codes "ls")).commands })
          shell)
execute_pipeline-negated_example =
    execute_pipeline-negated lower_case os (command (codes "ls")).commands shell

abbrev table : JobTable
table = record {
  jobs =
      record { id = 0; cmdline = codes "ls"; pids = []; status = running; foreground = true } ∷ [];
  next_id = 1;
}

abbrev table_IsValid : IsValid table
table_IsValid = record { below = (omega arith, tt) }

add_lem_example :
    let r = Jobs.add table (codes "ps") (7 ∷ []) false in
    (Jobs.get table r.1 ≡ none)
    × ((k : ℕ) → k ≢ r.1 → Jobs.get r.0 k ≡ Jobs.get table k)
    × (Jobs.get r.0 r.1
        ≡ some (record {
          id = r.1;
          cmdline = codes "ps";
          pids = 7 ∷ [];
          status = running;
          foreground = false;
        }))
    × IsValid r.0
add_lem_example = Jobs.add_lem table (codes "ps") (7 ∷ []) false table_IsValid

abbrev silent : Hook
silent = record { name = codes "log"; reply = λ seen e. consume; handled = [] }

fire_loop-stops_example :
    fire_loop startup ([] ++ silent ∷ silent ∷ []) ≡ [] ++ after silent startup ∷ silent ∷ []
fire_loop-stops_example = fire_loop-stops silent (silent ∷ []) unchanged (λ next e. cc)
