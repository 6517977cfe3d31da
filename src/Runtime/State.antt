-- ===== src/Runtime/State.antt =====
-- `ExitStatus` and `ShellState` of crates/shell-core, and the operating system below the runtime.
use ferrite_mcp.Prelude.{ℕ, zero, Bool, true, false, Option, List, Text}
use ferrite_mcp.Runtime.Env.{ShellEnv}

-- An `i32`; `negsuc n` is -(n + 1).
pub data ℤ : Type 0 where
  pos : ℕ → ℤ
  negsuc : ℕ → ℤ

pub record ExitStatus : Type 0 where
  pub code : ℤ

abbrev pub status : ℕ → ExitStatus
status n = record { code = pos n }

abbrev is_zero : ℤ → Bool
is_zero (pos zero) = true
is_zero _ = false

-- `self.0 == 0`
abbrev pub success : ExitStatus → Bool
success s = is_zero s.code

-- `set -e`, `-u`, `-x`, `-f`: kept, and read by nothing
pub record ShellOpts : Type 0 where
  pub errexit : Bool
  pub nounset : Bool
  pub xtrace : Bool
  pub noglob : Bool

pub record ShellState : Type 0 where
  pub env : ShellEnv
  pub cwd : Text
  pub last_status : ExitStatus
  pub interactive : Bool
  pub opts : ShellOpts

-- Result of `Command::new(name).args(args).status()`: an exit code, which a signal leaves out, or
-- an error.
pub data Spawned : Type 0 where
  ended : Option ℤ → Spawned
  not_found : Spawned
  failed : Text → Spawned

-- The operating system: any type of worlds, and the calls that the runtime makes.
pub record Os : Type 1 where
  pub World : Type 0
  pub spawn : Text → List Text → World → Spawned × World
  pub set_current_dir : Text → World → Bool × World
  pub canonicalize : Text → World → Option Text
  pub set_var : Text → Text → World → World
  pub print : Text → World → World
