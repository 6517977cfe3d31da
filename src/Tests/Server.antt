-- ===== src/Tests/Server.antt =====
-- The server's parts on concrete calls.
use ferrite_mcp.Prelude.{
  ℕ_discrete, ℕ, zero, suc, ◌≡◌, ◌≢◌, ◌↔◌, refl, inl, inr, true, false, none, some, List, [], ◌∷◌,
  ◌++◌, take, drop, if◌then◌else◌, arith, Text, codes, text_eq, elem, len_utf8, byte_len, Result,
  starts_with, ◌<◌,
}
use ferrite_mcp.Authz.Policy.{
  AuthzPolicy, RolePolicy, policy, ActionArgs, action_for, matches_action, authorize,
}
use ferrite_mcp.Authz.Decides.{Allowed, authorize-Allowed}
use ferrite_mcp.Authz.Patterns.{Matches, matches_action-Matches}
use ferrite_mcp.Server.Keys.{text_ltb, insert_key, sort, dedup, sorted_resource_keys}
use ferrite_mcp.Server.Scheduler.{
  ToolExecutionPolicy, Request, state_lock, same_lock, conflict, read_key, write_key, or_unknown,
  plan, working, System, update, In, held_by, arrive, acquire, init, Reach, start, later,
}
use ferrite_mcp.Server.Exclusion.{Exclusive, Reach-Exclusive}
use ferrite_mcp.Server.Progress.{Progress, Reach-Progress}
use ferrite_mcp.Server.Work.{work}
use ferrite_mcp.Server.Completes.{Steps, Completed, Reach-completes}
use ferrite_mcp.Server.Policy.{
  Session, Args, or_else, expand_tilde, is_absolute, join, ends_in_slash, path_resource_key,
  tool_execution_policy,
}
use ferrite_mcp.Server.Paths.{Fits, tool_execution_policy-Fits, one_writer_per_path}
use ferrite_mcp.Server.Response.{cap_text, truncation_note, cap_text-keeps, cap_text-panics}
use ferrite_mcp.Server.Loop.{
  RunEvent, Event, request, response, input_closed, Outcome, recycle_check, handle_event, runs,
  run_loop,
}
use ferrite_mcp.Server.Loop
use ferrite_mcp.Server.Settled.{Settled, run_loop-Settled}
use ferrite_mcp.GitGuard.{GitConfig, Checkpoint}
use ferrite_mcp.GitGuard.Strict.{Blocked}
use ferrite_mcp.Server.Call.{
  Reply, ok, Params, handle_tools_call, runs_tool, handle_tools_call-Allowed, RecyclePolicy,
  HealthSnapshot,
}

abbrev session : Session
session = record { cwd = codes "/w"; home = codes "/h" }

-- the arguments of a call with one path
abbrev path_args : Text → Args
path_args p key = if text_eq key (codes "path") then some p else none

abbrev write_a : ToolExecutionPolicy
write_a = tool_execution_policy session (codes "write_file") (path_args (codes "a"))

abbrev read_b : ToolExecutionPolicy
read_b = tool_execution_policy session (codes "read_file") (path_args (codes "/b"))

abbrev state_read : Request
state_read = record { lock = state_lock; writes = false }

abbrev key_a : Request
key_a = write_key (codes "path:/w/a")

abbrev key_b : Request
key_b = read_key (codes "path:/b")

-- a write and a read that come in, take their locks and run
abbrev came_a : System
came_a = record {
  count = 1;
  thread = update init.thread 0 (working write_a [] (plan write_a.lane write_a.resource_keys));
}

abbrev state_a : System
state_a = record {
  count = 1;
  thread = update came_a.thread 0 (working write_a (state_read ∷ []) (key_a ∷ []));
}

abbrev run_a : System
run_a = record {
  count = 1;
  thread = update state_a.thread 0 (working write_a (state_read ∷ key_a ∷ []) []);
}

abbrev came_b : System
came_b = record {
  count = 2;
  thread = update run_a.thread 1 (working read_b [] (plan read_b.lane read_b.resource_keys));
}

abbrev state_b : System
state_b = record {
  count = 2;
  thread = update came_b.thread 1 (working read_b (state_read ∷ []) (key_b ∷ []));
}

abbrev run_b : System
run_b = record {
  count = 2;
  thread = update state_b.thread 1 (working read_b (state_read ∷ key_b ∷ []) []);
}

Reach-run_a : Reach run_a
unfolding plan sorted_resource_keys sort dedup insert_key text_ltb or_unknown read_key write_key
    tool_execution_policy path_resource_key expand_tilde is_absolute join ends_in_slash or_else elem
    text_eq starts_with ℕ_discrete
Reach-run_a =
    later
      (later (later start (arrive write_a)) (
        acquire 0 write_a [] (key_a ∷ []) state_read (omega arith) refl
          (λ j lt ne. absurd (ne (omega arith)))))
      (acquire 0 write_a (state_read ∷ []) [] key_a (omega arith) refl
        (λ j lt ne. absurd (ne (omega arith))))

Reach-run_b : Reach run_b
unfolding plan sorted_resource_keys sort dedup insert_key text_ltb or_unknown read_key write_key
    tool_execution_policy path_resource_key expand_tilde is_absolute join ends_in_slash or_else elem
    text_eq starts_with ℕ_discrete conflict same_lock
Reach-run_b =
    later
      (later (later Reach-run_a (arrive read_b)) (
        acquire 1 read_b [] (key_b ∷ []) state_read (omega arith) refl
          (λ j lt ne. alone_b j lt ne)))
      (acquire 1 read_b (state_read ∷ []) [] key_b (omega arith) refl (λ j lt ne. alone_b' j lt ne))
  where
    alone_b :
        (j : ℕ)
        → j < 2
        → 1 ≢ j
        → (q : Request) → In q (held_by (came_b.thread j))
        → conflict state_read q ≡ false
    alone_b zero lt ne q (inl e) = rw e refl
    alone_b zero lt ne q (inr (inl e)) = rw e refl
    alone_b zero lt ne q (inr (inr m)) = absurd m
    alone_b (suc zero) lt ne q m = absurd (ne refl)
    alone_b (suc (suc j)) lt ne q m = absurd (omega arith)

    alone_b' :
        (j : ℕ)
        → j < 2
        → 1 ≢ j
        → (q : Request) → In q (held_by (state_b.thread j))
        → conflict key_b q ≡ false
    alone_b' zero lt ne q (inl e) = rw e refl
    alone_b' zero lt ne q (inr (inl e)) = rw e refl
    alone_b' zero lt ne q (inr (inr m)) = absurd m
    alone_b' (suc zero) lt ne q m = absurd (ne refl)
    alone_b' (suc (suc j)) lt ne q m = absurd (omega arith)

Reach-Exclusive_example : ¬ Exclusive write_a read_b
unfolding ℕ_discrete
Reach-Exclusive_example =
    Reach-Exclusive Reach-run_b 0 1 write_a read_b (state_read ∷ key_a ∷ [])
      (state_read ∷ key_b ∷ []) (omega arith) (omega arith) (λ e. absurd (omega (arith, e))) refl
      refl

Reach-Progress_example : Progress run_b
unfolding ℕ_discrete
Reach-Progress_example = Reach-Progress Reach-run_b 0 (omega arith) (λ e. cc)

Reach-completes_example : (t : System) × Steps (work run_b) run_b t × Completed run_b t
Reach-completes_example = Reach-completes Reach-run_b

one_writer_per_path_example :
    path_resource_key session (path_args (codes "a") (codes "path"))
    ≢ path_resource_key session (path_args (codes "/b") (codes "path"))
unfolding elem text_eq ℕ_discrete
one_writer_per_path_example =
    one_writer_per_path Reach-run_b 0 1 session session (codes "write_file") (codes "read_file")
      (path_args (codes "a")) (path_args (codes "/b")) (state_read ∷ key_a ∷ [])
      (state_read ∷ key_b ∷ []) (omega arith) (omega arith) (λ e. absurd (omega (arith, e))) refl
      refl refl refl

tool_execution_policy-Fits_example : Fits read_b
tool_execution_policy-Fits_example =
    tool_execution_policy-Fits session (codes "read_file") (path_args (codes "/b"))

cap_text-keeps_example :
    cap_text 2 (codes "abcd")
    ≡ some (take 2 (codes "abcd") ++ truncation_note (byte_len (drop 2 (codes "abcd"))))
cap_text-keeps_example = cap_text-keeps 2 (codes "abcd") (omega arith) (omega arith)

-- one char of three bytes, and a cap of two
cap_text-panics_example : cap_text 2 ([] ++ 0x20AC ∷ []) ≡ none
unfolding len_utf8
cap_text-panics_example = cap_text-panics 2 [] 0x20AC [] (omega arith) (omega arith) (omega arith)

abbrev event : RunEvent → Event
event e = record { event = e; write_ok = true; recycle = false }

abbrev events : List Event
events = event (request 1) ∷ event input_closed ∷ event (response 1) ∷ []

run_loop-Settled_example : Settled events (run_loop Loop.start events)
run_loop-Settled_example = run_loop-Settled Loop.start events refl tt

abbrev recycling : List Event
recycling = record { event = request 1; write_ok = true; recycle = true } ∷ []

-- the server recycles with a request in flight, which gets no response
run_loop-recycles :
    run_loop Loop.start recycling
    ≡ Loop.returned (record { closed = false; in_flight = 1; spawned = 1 ∷ []; written = [] })
unfolding run_loop handle_event recycle_check runs
run_loop-recycles = refl

abbrev observer : RolePolicy
observer = record {
  allow = codes "read.*" ∷ [];
  deny = codes "exec" ∷ [];
  limits = record {
    max_session_mutable_bytes = none;
    max_session_immutable_bytes = none;
    max_total_alloc_bytes = none;
    max_concurrent_jobs = none;
  };
}

abbrev roles : AuthzPolicy
roles = record {
  default_role = codes "observer";
  principals = [];
  roles = (codes "observer", observer) ∷ [];
}

abbrev no_args : ActionArgs
no_args = record { action = none; op = none; input_op = none }

authorize-Allowed_example :
    ((authorize (policy roles) (codes "default") (codes "read_file") no_args).allowed ≡ true)
    ↔ Allowed (policy roles) (codes "default") (action_for (codes "read_file") no_args)
authorize-Allowed_example =
    authorize-Allowed (policy roles) (codes "default") (codes "read_file") no_args

-- `read.*` matches the action `readable`
matches_action-Matches_example :
    (matches_action (codes "read.*") (codes "readable") ≡ true)
    ↔ Matches (codes "read.*") (codes "readable")
matches_action-Matches_example = matches_action-Matches (codes "read.*") (codes "readable")

abbrev tool : Text → Args → Reply Text
tool name args = ok name

abbrev cap : Text → Text → ℕ → Text
cap r filter max_chars = r

abbrev params : Params
params = record {
  name = some (codes "exec");
  args = path_args (codes "/b");
  action_args = no_args;
  guard_args = record { no_checkpoint = false; dry_run = false; op = none; path = none };
  max_chars = none;
}

abbrev strict_builds : GitConfig
strict_builds = record {
  auto_checkpoint = true;
  strict = true;
  before_write = true;
  before_build = true;
  before_deploy = false;
  add_mode = codes "tracked";
}

abbrev locked : Checkpoint → Result Text (Unit {0})
locked c = Result.err (codes "index.lock exists")

handle_tools_call-Allowed_example :
    (runs_tool
        (handle_tools_call tool locked cap session strict_builds
          (policy roles)
          (codes "default")
          (some params)).0
      ≡ true)
    ↔ (Allowed (policy roles) (codes "default") (action_for (codes "exec") no_args)
        × (¬ (
            (m : Text) × Blocked locked session.home session.cwd strict_builds
              (codes "exec")
              params.guard_args
              m)))
handle_tools_call-Allowed_example =
    handle_tools_call-Allowed tool locked cap session strict_builds (policy roles) (codes "default")
      params (codes "exec") refl

abbrev calls_only : RecyclePolicy
calls_only = record { max_calls = some 10; max_uptime_secs = none; max_rss_bytes = none }

abbrev snapshot : HealthSnapshot
snapshot = record { uptime_secs = 5; total_tool_calls = 10; rss_bytes = none }
