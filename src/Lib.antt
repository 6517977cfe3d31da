-- ===== src/Lib.antt =====
-- Verification of ferrite-mcp: a shell and the core of its MCP server, over the native numbers.
--
-- The shell. A line goes through three parts. Lexer (crates/shell-lexer): the modules Token,
-- Cursor, Quoted and Scan have one function per method of `Lexer`, on an explicit cursor;
-- Consumes, Total and Spans are about all sources, RoundTrip about command lines that are
-- written and read back, Escapes about backslashes. Parser (crates/shell-parser): Ast and Parse
-- are ast.rs and parser.rs; Total and Returns are about all token lists, Print, Spelling and
-- RoundTrip about the grammar and its printer. Runtime (crates/shell-core, crates/shell-hooks,
-- crates/shell-runtime): Env, State, Hooks, Jobs, Expand, Builtins and Execute follow the files
-- of the crates; Chains, Negation and Expansion are about `execute_list`, `execute_pipeline` and
-- `expand_word`. History (crates/shell-tui/src/history.rs) is the command history and its
-- cursor.
--
-- The server (crates/shell-mcp/src). Each request that the event loop reads runs on a thread of
-- its own: `handle_tools_call` asks for the policy of the tool and for the decision of the
-- authorization layer, then takes the locks of the policy, asks the guard of GitGuard for a
-- checkpoint, runs the tool, releases the locks, and the loop writes the response. Authz is
-- authz.rs: Policy has the decision, Patterns and Decides what it means. Server is server.rs:
-- Keys has `sorted_resource_keys`; Scheduler has `ExecutionScheduler::run` as a step relation on
-- threads, with Invariant, Exclusion and Progress about its reachable states, Order about the
-- order of locks, Work and Completes about the steps left; Tools and Policy have the table
-- `tool_execution_policy`, and Paths what it keeps apart; Loop and Settled have `run`; Call has
-- `handle_tools_call`, `response_filter` and the recycling policy; Response the size cap. Dict
-- is a `HashMap` by key; Prelude has shared names, lists and texts; Tests has concrete runs.
--
-- Edit (crates/shell-mcp/src/tools) is what the tools change files with. Content is text.rs:
-- decoding and slices. The rest is edit.rs: Lines has the lines of a text, Patch
-- `apply_diff_to_string`, Changes diffs written from the changes they stand for, Hunks what
-- applying them gives; Disk has `write_bytes` on a disk of which any call may fail, Effects and
-- Writes what it does to the files, Answers what it returns; Replace has `unique_replace`,
-- `regex_substitute` and `apply_unified_diff`; Transaction has `execute_transaction`, with
-- Committed, Whole and Rollback about what it leaves on the disk. JobStore is job_store.rs, with
-- the threads of a job as events: Drains is about its output, Restores about saving and
-- restoring. Pipeline is pipeline.rs: the steps, the turns of the coordinator, `run` and
-- `cancel`; Grounded and Launch are about one turn, Histories about sequences of whole turns and
-- cancellations, Stuck about circular dependencies. Races has the critical sections of the
-- coordinator and of `cancel` as events that interleave, with Places, Writes and Interleaved
-- about all their orders, and Overwritten about a cancellation that is lost. Permissions is
-- permissions.rs: Words splits commands, Rules has the rules of the tools, Rewrite
-- `rewrite_command`, Recovery `classify_error`; Tokens and Twice are about a second rewriting.
-- GitGuard is tools/git/git_guard.rs: Strict has what it refuses, Mutations compares it with the
-- table of the scheduler.
--
-- State is passed explicitly. A `String` is the list of its code points, with lengths in UTF-8
-- bytes where the source takes them. Fuel: the lexer's loop gets one more than the length of the
-- source and each token consumes at least one char; the parser gets fuel above the number of
-- tokens; expansion gets the length of the word and consumes at least one char in each round;
-- `skip_sudo_flags` gets the length of its text and takes two chars at least in each round.
-- `stuck` in the parser is running out of fuel. `usize` counters are natural numbers: no counter
-- of the modelled code comes near its bound.
--
-- Parameters: `char::is_alphanumeric`, `char::is_whitespace`, the operating system below the
-- shell, the outcome of reading the policy file, the values of environment variables, the JSON
-- arguments of a call, the tool that a call runs, the hash, the codecs and the regular
-- expressions behind edit.rs, the names of temporary files and the making of directories, the
-- jobs that a pipeline spawns, the processes behind the job store and how it shows a path, the
-- state of the sudoers entry, and the answer of git_checkpoint. An `RwLock` grants a request
-- when no other thread holds the lock in a conflicting mode; nothing is assumed of the order
-- among the threads that wait.
--
-- Not modelled: the other tools, log files and pseudo-terminals of jobs, the store of pipelines
-- by id, the sudoers entry, the rest of the terminal interface and the vendored code, which are
-- input and output or stand beside the parts above.
pub mod Prelude
pub mod Lexer
pub mod Parser
pub mod Dict
pub mod Edit
pub mod JobStore
pub mod Pipeline
pub mod Permissions
pub mod GitGuard
pub mod Authz
pub mod Runtime
pub mod Server
pub mod History
pub mod Tests
