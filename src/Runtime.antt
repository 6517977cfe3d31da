-- ===== src/Runtime.antt =====
-- crates/shell-core, shell-hooks and shell-runtime: the environment, hooks, jobs, expansion, builtins
-- and the executor.
pub mod Env
pub mod State
pub mod Hooks
pub mod Jobs
pub mod Negation
pub mod Expand
pub mod Builtins
pub mod Execute
pub mod Chains
pub mod Expansion
