-- ===== src/Pipeline.antt =====
-- crates/shell-mcp/src/pipeline.rs: steps with dependencies, started by a coordinator as their dependencies end.
use ferrite_mcp.Prelude.{
  ℕ, zero, suc, ◌+◌, ◌≡◌, Bool, true, false, not, ◌&&◌, ◌||◌, Option, none, some, List, [], ◌∷◌,
  ◌++◌, map, ◌==◌, if◌then◌else◌, Text, codes, text_eq, elem, Result, ok, err,
}
use ferrite_mcp.JobStore.{JobStatus, killed, attached}
use ferrite_mcp.Runtime.State.{ℤ, pos, negsuc}
pub mod Grounded
pub mod Launch
pub mod Histories
pub mod Stuck
pub mod Races
pub mod Places
pub mod Writes
pub mod Interleaved
pub mod Overwritten

pub data StepStatus : Type 0 where
  pending running skipped : StepStatus
  done failed : ℤ → StepStatus

unfoldable pub is_terminal : StepStatus → Bool
is_terminal pending = false
is_terminal StepStatus.running = false
is_terminal skipped = true
is_terminal (StepStatus.done c) = true
is_terminal (failed c) = true

unfoldable pub is_successful : StepStatus → Bool
is_successful (StepStatus.done c) = true
is_successful pending = false
is_successful StepStatus.running = false
is_successful skipped = false
is_successful (failed c) = false

unfoldable pub is_failed : StepStatus → Bool
is_failed (failed c) = true
is_failed pending = false
is_failed StepStatus.running = false
is_failed skipped = false
is_failed (StepStatus.done c) = false

unfoldable pub is_blocked : StepStatus → Bool
is_blocked skipped = true
is_blocked (failed c) = true
is_blocked pending = false
is_blocked StepStatus.running = false
is_blocked (StepStatus.done c) = false

pub record PipelineStep : Type 0 where
  pub id : Text
  pub cmd : Text
  pub cwd : Option Text
  pub label : Text
  pub depends_on : List Text
  pub job_id : Option Text
  pub status : StepStatus

pub data PipelineStatus : Type 0 where
  running done failed cancelled : PipelineStatus

pub record Pipeline : Type 0 where
  pub pipeline_id : Text
  pub label : Text
  pub steps : List PipelineStep
  pub status : PipelineStatus
  pub stop_on_failure : Bool

-- What a pass meets: the status of each job in the store, and the job that a spawn gives, if it
-- succeeds; a spawn without a directory takes the pipeline's own.
pub record Env : Type 0 where
  pub job_status : Text → Option JobStatus
  pub spawn : (cmd : Text) → (cwd : Option Text) → (label : Text) → Option Text

abbrev pub with_status : PipelineStep → StepStatus → PipelineStep
with_status s st = record {
  id = s.id;
  cmd = s.cmd;
  cwd = s.cwd;
  label = s.label;
  depends_on = s.depends_on;
  job_id = s.job_id;
  status = st;
}

abbrev pub with_job : PipelineStep → Text → PipelineStep
with_job s job = record {
  id = s.id;
  cmd = s.cmd;
  cwd = s.cwd;
  label = s.label;
  depends_on = s.depends_on;
  job_id = some job;
  status = StepStatus.running;
}

abbrev pub with_steps : Pipeline → List PipelineStep → Pipeline
with_steps p steps = record {
  pipeline_id = p.pipeline_id;
  label = p.label;
  steps = steps;
  status = p.status;
  stop_on_failure = p.stop_on_failure;
}

abbrev pub with_outcome : Pipeline → PipelineStatus → Pipeline
with_outcome p st = record {
  pipeline_id = p.pipeline_id;
  label = p.label;
  steps = p.steps;
  status = st;
  stop_on_failure = p.stop_on_failure;
}

unfoldable pub step_by_id : List PipelineStep → Text → Option PipelineStep
step_by_id [] id = none
step_by_id (s ∷ ss) id = let rest = step_by_id ss id in if text_eq s.id id then some s else rest

unfoldable pub any_step : (StepStatus → Bool) → List PipelineStep → Bool
any_step f [] = false
any_step f (s ∷ ss) = f s.status || any_step f ss

unfoldable pub all_steps : (StepStatus → Bool) → List PipelineStep → Bool
all_steps f [] = true
all_steps f (s ∷ ss) = f s.status && all_steps f ss

-- 1. what a job's status makes of its running step
unfoldable pub status_after : Option JobStatus → StepStatus
status_after none = StepStatus.running
status_after (some JobStatus.running) = StepStatus.running
status_after (some attached) = StepStatus.running
status_after (some killed) = failed (negsuc 0)
status_after (some (JobStatus.done (pos n))) =
    if n == 0 then StepStatus.done (pos 0) else failed (pos n)
status_after (some (JobStatus.done (negsuc n))) = failed (negsuc n)

unfoldable pub refreshed : Env → Option Text → StepStatus → StepStatus
unfolding status_after
refreshed env (some job) StepStatus.running = status_after (env.job_status job)
refreshed env none StepStatus.running = StepStatus.running
refreshed env job pending = pending
refreshed env job skipped = skipped
refreshed env job (StepStatus.done c) = StepStatus.done c
refreshed env job (failed c) = failed c

abbrev pub refresh_step : Env → PipelineStep → PipelineStep
refresh_step env s = with_status s (refreshed env s.job_id s.status)

-- 2. a failure skips what has not begun
unfoldable pub skip_pending : StepStatus → StepStatus
skip_pending pending = skipped
skip_pending StepStatus.running = StepStatus.running
skip_pending skipped = skipped
skip_pending (StepStatus.done c) = StepStatus.done c
skip_pending (failed c) = failed c

abbrev pub skip_step : PipelineStep → PipelineStep
skip_step s = with_status s (skip_pending s.status)

unfoldable pub propagate : Bool → List PipelineStep → List PipelineStep
unfolding any_step skip_pending
propagate stop ss = if stop && any_step is_failed ss then map skip_step ss else ss

-- 4. the dependencies of a step, looked up among all the steps; an unknown one is no obstacle
unfoldable pub dep_ok : Option PipelineStep → Bool
unfolding is_successful
dep_ok none = true
dep_ok (some s) = is_successful s.status

unfoldable pub dep_blocked : Option PipelineStep → Bool
unfolding is_blocked
dep_blocked none = false
dep_blocked (some s) = is_blocked s.status

unfoldable pub all_deps_ok : List PipelineStep → List Text → Bool
unfolding dep_ok step_by_id
all_deps_ok all [] = true
all_deps_ok all (d ∷ ds) = dep_ok (step_by_id all d) && all_deps_ok all ds

unfoldable pub any_dep_blocked : List PipelineStep → List Text → Bool
unfolding dep_blocked step_by_id
any_dep_blocked all [] = false
any_dep_blocked all (d ∷ ds) = dep_blocked (step_by_id all d) || any_dep_blocked all ds

unfoldable pub spawned : PipelineStep → Option Text → PipelineStep
spawned s none = with_status s (failed (negsuc 0))
spawned s (some job) = with_job s job

unfoldable pub start : Env → List PipelineStep → PipelineStep → PipelineStep
unfolding all_deps_ok any_dep_blocked spawned
start env all s =
    if any_dep_blocked all s.depends_on
    then with_status s skipped
    else if not (all_deps_ok all s.depends_on)
    then s
    else spawned s (env.spawn s.cmd s.cwd s.label)

unfoldable pub launch_step : Env → List PipelineStep → StepStatus → PipelineStep → PipelineStep
unfolding start
launch_step env all pending s = start env all s
launch_step env all StepStatus.running s = s
launch_step env all skipped s = s
launch_step env all (StepStatus.done c) s = s
launch_step env all (failed c) s = s

-- the loop over the steps: `before` has been through it
unfoldable pub launch : Env → (before todo : List PipelineStep) → List PipelineStep
unfolding launch_step
launch env before [] = before
launch env before (s ∷ ss) =
    launch env (before ++ launch_step env (before ++ s ∷ ss) s.status s ∷ []) ss

-- 5. the outcome once all steps have ended
unfoldable pub outcome : List PipelineStep → Option PipelineStatus
unfolding all_steps any_step
outcome ss =
    if not (all_steps is_terminal ss)
    then none
    else if any_step is_failed ss
    then some PipelineStatus.failed
    else some PipelineStatus.done

unfoldable pub is_cancelled : PipelineStatus → Bool
is_cancelled cancelled = true
is_cancelled PipelineStatus.running = false
is_cancelled PipelineStatus.done = false
is_cancelled PipelineStatus.failed = false

unfoldable pub settle : Pipeline → Option PipelineStatus → Pipeline × Bool
settle p none = (p, false)
settle p (some st) = (with_outcome p st, true)

-- One turn of the coordinator's loop, and whether the loop ends with it.
unfoldable pub turn : Env → Pipeline → Pipeline × Bool
unfolding propagate launch outcome is_cancelled settle
turn env p =
    let current = propagate p.stop_on_failure (map (refresh_step env) p.steps) in
    if is_cancelled p.status
    then (with_steps p current, true)
    else (let launched = launch env [] current in settle (with_steps p launched) (outcome launched))

-- The coordinator, for as many turns as there are environments.
unfoldable pub coordinator : List Env → Pipeline → Pipeline × Bool
unfolding turn
coordinator [] p = (p, false)
coordinator (env ∷ envs) p =
    let rest = coordinator envs (turn env p).0 in
    if (turn env p).1 then ((turn env p).0, true) else rest

-- `cancel`: the jobs of the running steps, which get SIGTERM
unfoldable pub cancel_status : StepStatus → StepStatus
cancel_status pending = skipped
cancel_status StepStatus.running = skipped
cancel_status skipped = skipped
cancel_status (StepStatus.done c) = StepStatus.done c
cancel_status (failed c) = failed c

abbrev pub cancel_step : PipelineStep → PipelineStep
cancel_step s = with_status s (cancel_status s.status)

unfoldable pub killed_job : StepStatus → Option Text → List Text
killed_job StepStatus.running (some job) = job ∷ []
killed_job _ _ = []

unfoldable pub killed_jobs : List PipelineStep → List Text
unfolding killed_job
killed_jobs [] = []
killed_jobs (s ∷ ss) = killed_job s.status s.job_id ++ killed_jobs ss

unfoldable pub cancel : Pipeline → Pipeline × List Text
unfolding cancel_status killed_jobs
cancel p = (with_outcome (with_steps p (map cancel_step p.steps)) cancelled, killed_jobs p.steps)

pub record StepDef : Type 0 where
  pub id : Text
  pub cmd : Text
  pub cwd : Option Text
  pub label : Option Text
  pub depends_on : List Text

pub data RunError : Type 0 where
  unknown_step : (id dep : Text) → RunError
  duplicate_step : (id : Text) → RunError

unfoldable pub unknown_dep : List Text → List Text → Option Text
unknown_dep ids [] = none
unknown_dep ids (d ∷ ds) = let rest = unknown_dep ids ds in if elem d ids then rest else some d

unfoldable pub check_deps : List Text → List StepDef → Result RunError (Unit {0})
unfolding unknown_dep
check_deps ids [] = ok tt
check_deps ids (sd ∷ sds) =
    let rest = check_deps ids sds in
    elim (unknown_dep ids sd.depends_on) [ none ↦ rest | some d ↦ err (unknown_step sd.id d) ]

unfoldable pub check_unique : (seen : List Text) → List StepDef → Result RunError (Unit {0})
check_unique seen [] = ok tt
check_unique seen (sd ∷ sds) =
    let rest = check_unique (sd.id ∷ seen) sds in
    if elem sd.id seen then err (duplicate_step sd.id) else rest

abbrev pub ids_of : List StepDef → List Text
ids_of sds = map (λ sd. sd.id) sds

unfoldable pub new_step : StepDef → PipelineStep
new_step sd = record {
  id = sd.id;
  cmd = sd.cmd;
  cwd = sd.cwd;
  label = elim sd.label [ none ↦ sd.id | some l ↦ l ];
  depends_on = sd.depends_on;
  job_id = none;
  status = pending;
}

unfoldable pub new_pipeline : Text → List StepDef → Option Text → Bool → Pipeline
unfolding new_step
new_pipeline id sds label stop = record {
  pipeline_id = id;
  label = elim label [ none ↦ id | some l ↦ l ];
  steps = map new_step sds;
  status = PipelineStatus.running;
  stop_on_failure = stop;
}

-- `run`, up to the spawn of the coordinator's thread; `id` is the next pipeline id
unfoldable pub run : (id : Text) → List StepDef → Option Text → Bool → Result RunError Pipeline
unfolding check_deps check_unique new_pipeline
run id sds label stop = elim (check_deps (ids_of sds) sds) [
  | err e ↦ err e
  | ok u ↦ elim (check_unique [] sds) [ err e ↦ err e | ok v ↦ ok (new_pipeline id sds label stop) ]
]
