-- ===== src/Pipeline/Writes.antt =====
-- What the coordinator may be about to write, and what its writes and those of `cancel` keep.
use ferrite_mcp.Prelude.{ℕ, ◌≡◌, refl, Bool, true, false, ◌||◌, List, arith, Bool-cases, inl, inr}
use ferrite_mcp.Pipeline.{
  StepStatus, pending, skipped, failed, PipelineStep, with_status, skip_pending, all_deps_ok,
  cancel_status,
}
use ferrite_mcp.Pipeline.Grounded.{begun, LaterBy}
use ferrite_mcp.Pipeline.Races.{
  Write, to_status, to_job, Doing, idle, about_to, Moment, update_at, written, changed,
}
use ferrite_mcp.Pipeline.Places.{
  has_ended, has_job, Keeps, deps_stay, Linked, Tied, Tied-Keeps, At, At-all, update_at-Keeps,
  update_at-Tied, At-update_at,
}

unfoldable pub begins : Write → Bool
begins (to_status st) = begun st
begins (to_job job) = true

-- A step that the coordinator may write to has not ended, and can begin if it is to.
abbrev pub Ready : List PipelineStep → Write → PipelineStep → Type 0
Ready all w s =
    (has_ended s.status ≡ false) × (begins w ≡ true → all_deps_ok all s.depends_on ≡ true)

abbrev pub Fits : List PipelineStep → Doing → Type 0
Fits all idle = Unit {0}
Fits all (about_to i w) = At i (Ready all w) all

pub record Inv (m : Moment) : Type 0 where
  pub tied : Tied m.pipeline.steps m.pipeline.steps
  pub fits : Fits m.pipeline.steps m.doing

abbrev pub After : Moment → Moment → Type 0
After m n = Keeps m.pipeline.steps n.pipeline.steps × Inv n

-- A change of one step by `skip_step` or `cancel_step`.
abbrev pub Mild : (StepStatus → StepStatus) → Type 0
Mild g =
    (st : StepStatus)
    → (has_ended st ≡ true → g st ≡ st)
      × (begun (g st) ≡ true → begun st ≡ true)
      × (has_ended st ≡ false → has_ended (g st) ≡ false)

pub skip_pending-Mild : Mild skip_pending
unfolding skip_pending begun has_ended
skip_pending-Mild pending = ((λ h. absurd (ground arith)), (λ b. absurd (ground arith)), λ h. refl)
skip_pending-Mild StepStatus.running = ((λ h. refl), (λ b. b), λ h. h)
skip_pending-Mild skipped = ((λ h. refl), (λ b. b), λ h. h)
skip_pending-Mild (StepStatus.done c) = ((λ h. refl), (λ b. b), λ h. h)
skip_pending-Mild (failed c) = ((λ h. refl), (λ b. b), λ h. h)

pub cancel_status-Mild : Mild cancel_status
unfolding cancel_status begun has_ended
cancel_status-Mild pending = ((λ h. absurd (ground arith)), (λ b. absurd (ground arith)), λ h. refl)
cancel_status-Mild StepStatus.running =
    ((λ h. absurd (ground arith)), (λ b. absurd (ground arith)), λ h. refl)
cancel_status-Mild skipped = ((λ h. refl), (λ b. b), λ h. h)
cancel_status-Mild (StepStatus.done c) = ((λ h. refl), (λ b. b), λ h. h)
cancel_status-Mild (failed c) = ((λ h. refl), (λ b. b), λ h. h)

pub either_way : {a c : Bool} (b : Bool) → (a ≡ true → c ≡ true) → a || b ≡ true → c || b ≡ true
either_way b h e = ground (arith, h)

module _ (g : StepStatus → StepStatus) (mild : Mild g) where
  abbrev pub by_status : PipelineStep → PipelineStep
  by_status s = with_status s (g s.status)

  pub mild-Keeps : (i : ℕ) (ss : List PipelineStep) → Keeps ss (update_at i by_status ss)
  mild-Keeps i ss =
      update_at-Keeps by_status (λ s. Unit {0}) (λ s p. (refl, refl, (mild s.status).0)) i ss
        (At-all (λ s. tt) i ss)

  pub mild-After :
      (i : ℕ) (m : Moment)
      → Inv m
      → After m (changed m (update_at i by_status m.pipeline.steps) m.doing)
  mild-After i m inv =
      let ss = m.pipeline.steps in
      let ts = update_at i by_status ss in
      let keeps = mild-Keeps i ss in
      (
        keeps,
        record {
          tied = Tied-Keeps ss ts ts keeps (
              update_at-Tied by_status (λ s. Unit {0}) ss
                (λ s p linked b. linked (either_way (has_job s.job_id) (mild s.status).1 b)) i ss
                (At-all (λ s. tt) i ss) inv.tied);
          fits = fits_after m.doing inv.fits;
        },
      )
    where
      fits_after :
          (d : Doing) → Fits m.pipeline.steps d → Fits (update_at i by_status m.pipeline.steps) d
      fits_after idle f = tt
      fits_after (about_to j w) f =
          let ss = m.pipeline.steps in
          let stay = λ (s : PipelineStep) (h : all_deps_ok ss s.depends_on ≡ true).
            deps_stay ss (update_at i by_status ss) s.depends_on (mild-Keeps i ss) h in
          At-update_at (Ready ss w) (Ready (update_at i by_status ss) w) by_status
            (λ s (open_, deps). (open_, λ b. stay s (deps b)))
            (λ s (open_, deps). ((mild s.status).2 open_, λ b. stay s (deps b))) j i ss f

pub written-Later :
    (all : List PipelineStep) (w : Write) (s : PipelineStep)
    → Ready all w s
    → LaterBy has_ended s (written w s)
unfolding written
written-Later all (to_status st) s (open_, deps) = (refl, refl, λ h. absurd (ground arith))
written-Later all (to_job job) s (open_, deps) = (refl, refl, λ h. absurd (ground arith))

pub written-Linked :
    (all : List PipelineStep) (w : Write) (s : PipelineStep)
    → Ready all w s
    → Linked all s
    → Linked all (written w s)
unfolding written begins
written-Linked all (to_status st) s (open_, deps) linked b = elim (Bool-cases (begun st)) [
  | inl starts ↦ deps starts
  | inr rests ↦ linked (ground arith)
]
written-Linked all (to_job job) s (open_, deps) linked b = deps refl

pub write-After :
    (i : ℕ) (w : Write) (m : Moment)
    → Tied m.pipeline.steps m.pipeline.steps
    → At i (Ready m.pipeline.steps w) m.pipeline.steps
    → After m (changed m (update_at i (written w) m.pipeline.steps) idle)
write-After i w m tied ready =
    let ss = m.pipeline.steps in
    let ts = update_at i (written w) ss in
    let keeps = update_at-Keeps (written w) (Ready ss w) (written-Later ss w) i ss ready in
    (
      keeps,
      record {
        tied =
            Tied-Keeps ss ts ts keeps
              (update_at-Tied (written w) (Ready ss w) ss (written-Linked ss w) i ss ready tied);
        fits = tt;
      },
    )
