-- ===== src/Pipeline/Races.antt =====
-- The coordinator and `cancel` between each other's locks. The coordinator reads the status of a step under
-- one lock and writes it under a later one, whatever it has become in between; `cancel` changes a step under
-- one lock. The events are these critical sections. They may come in any order here: the orders in which the
-- loops of the source run through them are among these.
use ferrite_mcp.Prelude.{
  ℕ, zero, suc, not, ◌&&◌, Option, none, some, List, [], ◌∷◌, if◌then◌else◌, Text,
}
use ferrite_mcp.JobStore.{JobStatus}
use ferrite_mcp.Runtime.State.{negsuc}
use ferrite_mcp.Pipeline.{
  StepStatus, pending, skipped, failed, is_failed, PipelineStep, Pipeline, cancelled, with_status,
  with_job, with_steps, with_outcome, any_step, status_after, skip_step, all_deps_ok,
  any_dep_blocked, outcome, settle, cancel_step,
}

-- what the coordinator is about to write to a step
pub data Write : Type 0 where
  to_status : StepStatus → Write
  to_job : Text → Write

pub data Doing : Type 0 where
  idle : Doing
  about_to : ℕ → Write → Doing

pub record Moment : Type 0 where
  pub pipeline : Pipeline
  pub doing : Doing

-- The coordinator looks at the job of a step, skips a step after a failure, decides on a step (with the job
-- that a spawn gives, if it succeeds), writes what it is about to, or settles the pipeline; `cancel` marks
-- the pipeline, or a step.
pub data Event : Type 0 where
  looks : ℕ → (Text → Option JobStatus) → Event
  skips : ℕ → Event
  decides : ℕ → Option Text → Event
  writes settles marks : Event
  cancels : ℕ → Event

unfoldable pub step_at : List PipelineStep → ℕ → Option PipelineStep
step_at [] i = none
step_at (s ∷ ss) zero = some s
step_at (s ∷ ss) (suc i) = step_at ss i

unfoldable pub update_at : ℕ → (PipelineStep → PipelineStep) → List PipelineStep → List PipelineStep
update_at i f [] = []
update_at zero f (s ∷ ss) = f s ∷ ss
update_at (suc i) f (s ∷ ss) = s ∷ update_at i f ss

unfoldable pub ends_with : ℕ → StepStatus → Doing
ends_with i StepStatus.running = idle
ends_with i pending = about_to i (to_status pending)
ends_with i skipped = about_to i (to_status skipped)
ends_with i (StepStatus.done c) = about_to i (to_status (StepStatus.done c))
ends_with i (failed c) = about_to i (to_status (failed c))

unfoldable pub looked : (Text → Option JobStatus) → ℕ → Option Text → StepStatus → Doing
unfolding ends_with status_after
looked job_status i (some job) StepStatus.running = ends_with i (status_after (job_status job))
looked job_status i none StepStatus.running = idle
looked job_status i job pending = idle
looked job_status i job skipped = idle
looked job_status i job (StepStatus.done c) = idle
looked job_status i job (failed c) = idle

unfoldable pub started : Option Text → Write
started none = to_status (failed (negsuc 0))
started (some job) = to_job job

unfoldable pub launched : List PipelineStep → ℕ → Option Text → PipelineStep → Doing
unfolding started any_dep_blocked all_deps_ok
launched all i job s =
    if any_dep_blocked all s.depends_on
    then about_to i (to_status skipped)
    else if not (all_deps_ok all s.depends_on)
    then idle
    else about_to i (started job)

unfoldable pub decided : List PipelineStep → ℕ → Option Text → StepStatus → PipelineStep → Doing
unfolding launched
decided all i job pending s = launched all i job s
decided all i job StepStatus.running s = idle
decided all i job skipped s = idle
decided all i job (StepStatus.done c) s = idle
decided all i job (failed c) s = idle

unfoldable pub written : Write → PipelineStep → PipelineStep
written (to_status st) s = with_status s st
written (to_job job) s = with_job s job

-- The coordinator is one thread: it begins nothing while it is about to write.
unfoldable pub unless_busy : Doing → Doing → Doing
unless_busy idle d = d
unless_busy (about_to i w) d = about_to i w

abbrev pub changed : Moment → List PipelineStep → Doing → Moment
changed m steps d = record { pipeline = with_steps m.pipeline steps; doing = d }

unfoldable pub happens : Event → Moment → Moment
unfolding step_at update_at looked decided written unless_busy any_step outcome settle
happens (looks i job_status) m = elim (step_at m.pipeline.steps i) [
  | none ↦ m
  | some s ↦
      changed m m.pipeline.steps (unless_busy m.doing (looked job_status i s.job_id s.status))
]
happens (skips i) m =
    changed m
      (if m.pipeline.stop_on_failure && any_step is_failed m.pipeline.steps
        then update_at i skip_step m.pipeline.steps
        else m.pipeline.steps)
      m.doing
happens (decides i job) m = elim (step_at m.pipeline.steps i) [
  | none ↦ m
  | some s ↦
      changed m m.pipeline.steps (unless_busy m.doing (decided m.pipeline.steps i job s.status s))
]
happens writes m = elim m.doing [
  | idle ↦ m
  | about_to i w ↦ changed m (update_at i (written w) m.pipeline.steps) idle
]
happens settles m = record {
  pipeline = (settle m.pipeline (outcome m.pipeline.steps)).0;
  doing = m.doing;
}
happens marks m = record { pipeline = with_outcome m.pipeline cancelled; doing = m.doing }
happens (cancels i) m = changed m (update_at i cancel_step m.pipeline.steps) m.doing

unfoldable pub happen : List Event → Moment → Moment
unfolding happens
happen [] m = m
happen (e ∷ es) m = happen es (happens e m)
