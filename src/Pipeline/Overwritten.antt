-- ===== src/Pipeline/Overwritten.antt =====
-- A cancellation that comes between the coordinator's look at a job and its write.
use ferrite_mcp.Prelude.{ℕ, zero, suc, ◌≡◌, ap, ◌∙◌, Option, none, some, List, [], ◌∷◌, Text}
use ferrite_mcp.JobStore.{JobStatus}
use ferrite_mcp.Runtime.State.{pos}
use ferrite_mcp.Pipeline.{
  StepStatus, PipelineStep, Pipeline, skipped, cancelled, with_status, cancel_status, cancel_step,
  status_after,
}
use ferrite_mcp.Pipeline.Races.{
  to_status, idle, about_to, Moment, looks, writes, marks, cancels, step_at, update_at, ends_with,
  looked, written, unless_busy, happens, happen,
}

step_at-update_at :
    (f : PipelineStep → PipelineStep) (i : ℕ) (ss : List PipelineStep) (s : PipelineStep)
    → step_at ss i ≡ some s
    → step_at (update_at i f ss) i ≡ some (f s)
unfolding step_at update_at
step_at-update_at f i [] s e = absurd cc
step_at-update_at f zero (t ∷ ss) s e = ap (λ o. elim o [ none ↦ none | some s ↦ some (f s) ]) e
step_at-update_at f (suc i) (t ∷ ss) s e = step_at-update_at f i ss s e

module _ (p : Pipeline) (i : ℕ) (s : PipelineStep) (job : Text)
    (store : Text → Option JobStatus) where
  abbrev pub at_start : Moment
  at_start = record { pipeline = p; doing = idle }

  abbrev about_to_write : Moment
  about_to_write = record { pipeline = p; doing = about_to i (to_status (StepStatus.done (pos 0))) }

  looks_lem :
      step_at p.steps i ≡ some s
      → s.status ≡ StepStatus.running
      → s.job_id ≡ some job
      → store job ≡ some (JobStatus.done (pos 0))
      → happens (looks i store) at_start ≡ about_to_write
  unfolding happens unless_busy looked ends_with status_after
  looks_lem there runs has ends =
      ap
        (λ (o : Option PipelineStep). elim o as (λ _. Moment) [
          | none ↦ at_start
          | some s ↦ record { pipeline = p; doing = looked store i s.job_id s.status }
        ])
        there
      ∙ ((λ k. record { pipeline = p; doing = looked store i (has k) (runs k) })
          ∙ ap (λ o. record { pipeline = p; doing = ends_with i (status_after o) }) ends)

  -- If the job of a running step has ended well when the coordinator looks at it, and the pipeline is
  -- cancelled before the coordinator writes, the step is done in the end: `Skipped` is overwritten.
  pub cancel_overwritten :
      step_at p.steps i ≡ some s
      → s.status ≡ StepStatus.running
      → s.job_id ≡ some job
      → store job ≡ some (JobStatus.done (pos 0))
      → ((happen (looks i store ∷ marks ∷ cancels i ∷ writes ∷ []) at_start).pipeline.status
          ≡ cancelled)
        × (step_at (happen (looks i store ∷ marks ∷ cancels i ∷ []) at_start).pipeline.steps i
            ≡ some (with_status s skipped))
        × (step_at
              (happen (looks i store ∷ marks ∷ cancels i ∷ writes ∷ []) at_start).pipeline.steps
              i
            ≡ some (with_status s (StepStatus.done (pos 0))))
  unfolding happen happens written cancel_status
  cancel_overwritten there runs has ends =
      let looks_path = looks_lem there runs has ends in
      let skips = step_at-update_at cancel_step i p.steps s there in
      (
        ap (λ m. (happen (marks ∷ cancels i ∷ writes ∷ []) m).pipeline.status) looks_path,
        ap (λ m. step_at (happen (marks ∷ cancels i ∷ []) m).pipeline.steps i) looks_path
            ∙ (skips ∙ ap (λ st. some (with_status s (cancel_status st))) runs),
        ap (λ m. step_at (happen (marks ∷ cancels i ∷ writes ∷ []) m).pipeline.steps i) looks_path
            ∙ step_at-update_at (written (to_status (StepStatus.done (pos 0)))) i
                (update_at i cancel_step p.steps) (cancel_step s) skips,
      )
