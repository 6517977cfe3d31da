-- ===== src/Pipeline/Interleaved.antt =====
-- What holds of a pipeline however the critical sections of the coordinator and of `cancel` interleave.
use ferrite_mcp.Prelude.{
  ℕ, ◌≡◌, refl, sym, subst, Bool, true, false, not, ◌&&◌, Option, none, some, List, [], ◌∷◌, map,
  if◌then◌else◌, arith, Text, Bool-cases, inl, inr, ◌⊎◌,
}
use ferrite_mcp.JobStore.{JobStatus}
use ferrite_mcp.Pipeline.{
  StepStatus, pending, skipped, failed, is_failed, PipelineStep, PipelineStatus, any_step,
  status_after, skip_pending, skip_step, all_deps_ok, any_dep_blocked, outcome, settle,
  cancel_status, StepDef, new_step, new_pipeline,
}
use ferrite_mcp.Pipeline.Grounded.{begun, Sound, Grounded}
use ferrite_mcp.Pipeline.Races.{
  Write, to_status, Doing, idle, about_to, Moment, Event, looks, skips, decides, writes, settles,
  marks, cancels, step_at, update_at, ends_with, looked, started, launched, decided, written,
  unless_busy, changed, happens, happen,
}
use ferrite_mcp.Pipeline.Places.{
  has_ended, has_job, Keeps, Keeps-refl, Keeps-trans, Linked, Tied, At, At-step_at, Tied-step_at,
}
use ferrite_mcp.Pipeline.Writes.{
  begins, Ready, Fits, Inv, After, skip_pending-Mild, cancel_status-Mild, mild-After, write-After,
}

looked-Fits :
    (store : Text → Option JobStatus) (i : ℕ) (all : List PipelineStep) (s : PipelineStep)
    → Linked all s
    → step_at all i ≡ some s
    → (job : Option Text) (st : StepStatus) → s.status ≡ st
    → Fits all (looked store i job st)
unfolding looked ends_with
looked-Fits store i all s linked e (some job) StepStatus.running is =
    ends (status_after (store job))
  where
    begun_deps : all_deps_ok all s.depends_on ≡ true
    begun_deps = linked (rw is (unfold begun in refl))

    ready : (w : Write) → At i (Ready all w) all
    ready w = At-step_at (Ready all w) i all s e (rw is (unfold has_ended in refl), λ b. begun_deps)

    ends : (st : StepStatus) → Fits all (ends_with i st)
    ends StepStatus.running = tt
    ends pending = ready _
    ends skipped = ready _
    ends (StepStatus.done c) = ready _
    ends (failed c) = ready _
looked-Fits store i all s linked e none StepStatus.running is = tt
looked-Fits store i all s linked e job pending is = tt
looked-Fits store i all s linked e job skipped is = tt
looked-Fits store i all s linked e job (StepStatus.done c) is = tt
looked-Fits store i all s linked e job (failed c) is = tt

decided-Fits :
    (i : ℕ) (job : Option Text) (all : List PipelineStep) (s : PipelineStep)
    → step_at all i ≡ some s
    → (st : StepStatus) → s.status ≡ st
    → Fits all (decided all i job st s)
unfolding decided launched begins begun
decided-Fits i job all s e pending is = elim (Bool-cases (any_dep_blocked all s.depends_on)) [
  | inl blocked ↦ rw blocked (ready (to_status skipped) (λ b. absurd (ground arith)))
  | inr free ↦ rw free (by_deps (Bool-cases (all_deps_ok all s.depends_on)))
]
  where
    ready :
        (w : Write)
        → (begins w ≡ true → all_deps_ok all s.depends_on ≡ true)
        → At i (Ready all w) all
    ready w deps = At-step_at (Ready all w) i all s e (rw is (unfold has_ended in refl), deps)

    start_if : Bool → Doing
    start_if b = if not b then idle else about_to i (started job)

    by_deps :
        (all_deps_ok all s.depends_on ≡ true) ⊎ (all_deps_ok all s.depends_on ≡ false)
        → Fits all (start_if (all_deps_ok all s.depends_on))
    by_deps (inl met) =
        subst (λ b. Fits all (start_if b)) (sym met) (ready (started job) (λ b. met))
    by_deps (inr unmet) = subst (λ b. Fits all (start_if b)) (sym unmet) tt
decided-Fits i job all s e StepStatus.running is = tt
decided-Fits i job all s e skipped is = tt
decided-Fits i job all s e (StepStatus.done c) is = tt
decided-Fits i job all s e (failed c) is = tt

unless_busy-Fits :
    (all : List PipelineStep) (d e : Doing) → Fits all d → Fits all e → Fits all (unless_busy d e)
unfolding unless_busy
unless_busy-Fits all idle e f g = g
unless_busy-Fits all (about_to i w) e f g = f

settle-After :
    (m : Moment) (st : Option PipelineStatus)
    → Inv m
    → After m (record { pipeline = (settle m.pipeline st).0; doing = m.doing })
unfolding settle
settle-After m none inv = (Keeps-refl m.pipeline.steps, record { tied = inv.tied; fits = inv.fits })
settle-After m (some st) inv =
    (Keeps-refl m.pipeline.steps, record { tied = inv.tied; fits = inv.fits })

happens-After : (e : Event) (m : Moment) → Inv m → After m (happens e m)
unfolding happens
happens-After (looks i store) m inv = at_step (step_at m.pipeline.steps i) refl
  where
    at_step :
        (o : Option PipelineStep)
        → step_at m.pipeline.steps i ≡ o
        → After m (elim o as (λ _. Moment) [
          | none ↦ m
          | some s ↦
              changed m m.pipeline.steps (unless_busy m.doing (looked store i s.job_id s.status))
        ])
    at_step none e = (Keeps-refl m.pipeline.steps, inv)
    at_step (some s) e = (
      Keeps-refl m.pipeline.steps,
      record {
        tied = inv.tied;
        fits = unless_busy-Fits m.pipeline.steps m.doing _ inv.fits (
            looked-Fits store i m.pipeline.steps s
              (Tied-step_at m.pipeline.steps m.pipeline.steps i s inv.tied e) e s.job_id s.status
              refl);
      },
    )
happens-After (skips i) m inv =
    by_failure (m.pipeline.stop_on_failure && any_step is_failed m.pipeline.steps)
  where
    by_failure :
        (b : Bool)
        → After m (
            changed m
              (if b then update_at i skip_step m.pipeline.steps else m.pipeline.steps)
              m.doing)
    by_failure true = mild-After skip_pending skip_pending-Mild i m inv
    by_failure false = (Keeps-refl m.pipeline.steps, record { tied = inv.tied; fits = inv.fits })
happens-After (decides i job) m inv = at_step (step_at m.pipeline.steps i) refl
  where
    at_step :
        (o : Option PipelineStep)
        → step_at m.pipeline.steps i ≡ o
        → After m (elim o as (λ _. Moment) [
          | none ↦ m
          | some s ↦
              changed m m.pipeline.steps
                (unless_busy m.doing (decided m.pipeline.steps i job s.status s))
        ])
    at_step none e = (Keeps-refl m.pipeline.steps, inv)
    at_step (some s) e = (
      Keeps-refl m.pipeline.steps,
      record {
        tied = inv.tied;
        fits =
            unless_busy-Fits m.pipeline.steps m.doing _ inv.fits
              (decided-Fits i job m.pipeline.steps s e s.status refl);
      },
    )
happens-After writes m inv = by_doing m.doing inv.fits
  where
    by_doing :
        (d : Doing)
        → Fits m.pipeline.steps d
        → After m (elim d as (λ _. Moment) [
          | idle ↦ m
          | about_to i w ↦ changed m (update_at i (written w) m.pipeline.steps) idle
        ])
    by_doing idle f = (Keeps-refl m.pipeline.steps, inv)
    by_doing (about_to i w) f = write-After i w m inv.tied f
happens-After settles m inv = settle-After m (outcome m.pipeline.steps) inv
happens-After marks m inv =
    (Keeps-refl m.pipeline.steps, record { tied = inv.tied; fits = inv.fits })
happens-After (cancels i) m inv = mild-After cancel_status cancel_status-Mild i m inv

happen-After : (es : List Event) (m : Moment) → Inv m → After m (happen es m)
unfolding happen
happen-After [] m inv = (Keeps-refl m.pipeline.steps, inv)
happen-After (e ∷ es) m inv =
    let (keeps, next) = happens-After e m inv in
    let (keeps', last) = happen-After es (happens e m) next in
    (
      Keeps-trans m.pipeline.steps (happens e m).pipeline.steps
          (happen es (happens e m)).pipeline.steps keeps keeps',
      last,
    )

new_step-Tied : (all : List PipelineStep) (sds : List StepDef) → Tied all (map new_step sds)
unfolding new_step begun has_job
new_step-Tied all [] = tt
new_step-Tied all (sd ∷ sds) = ((λ b. absurd (ground arith)), new_step-Tied all sds)

Tied-Sound : (all ss : List PipelineStep) → Tied all ss → Sound all ss
Tied-Sound all [] tied = tt
Tied-Sound all (s ∷ ss) (here, rest) = ((λ b. here (rw b refl)), Tied-Sound all ss rest)

-- a pipeline that `run` has made, with its coordinator at the start of its loop
abbrev pub beginning : Text → List StepDef → Option Text → Bool → Moment
beginning id sds label stop = record { pipeline = new_pipeline id sds label stop; doing = idle }

beginning-Inv :
    (id : Text) (sds : List StepDef) (label : Option Text) (stop : Bool)
    → Inv (beginning id sds label stop)
unfolding new_pipeline
beginning-Inv id sds label stop = record { tied = new_step-Tied (map new_step sds) sds; fits = tt }

-- However the critical sections of the coordinator and of `cancel` interleave, at any moment of a pipeline that
-- `run` has made: a step that runs, is done or has failed has all its dependencies done; and at any later moment
-- the steps have the same ids and dependencies, and a step that was done or had failed has the same status.
pub happen-Keeps :
    (es later : List Event) (id : Text) (sds : List StepDef) (label : Option Text) (stop : Bool)
    → Grounded (happen es (beginning id sds label stop)).pipeline.steps
      × Keeps
          (happen es (beginning id sds label stop)).pipeline.steps
          (happen later (happen es (beginning id sds label stop))).pipeline.steps
happen-Keeps es later id sds label stop =
    let now = happen es (beginning id sds label stop) in
    let inv = (happen-After es (beginning id sds label stop) (beginning-Inv id sds label stop)).1 in
    (Tied-Sound now.pipeline.steps now.pipeline.steps inv.tied, (happen-After later now inv).0)
