-- ===== src/Pipeline/Grounded.antt =====
-- The order of the steps: what has begun stands on dependencies that are done.
use ferrite_mcp.Prelude.{
  ◌≡◌, refl, sym, ap, ◌∙◌, subst, Bool, true, false, Option, some, List, [], ◌∷◌, map,
  if◌then◌else◌, arith, Text, text_eq, Bool-cases, inl, inr,
}
use ferrite_mcp.Pipeline.{
  StepStatus, pending, skipped, failed, is_terminal, is_successful, PipelineStep, Env, with_status,
  step_by_id, refreshed, refresh_step, skip_pending, skip_step, dep_ok, all_deps_ok, cancel_status,
  cancel_step,
}

-- A step that a job was started for and that was not cancelled: it runs or has ended by itself.
unfoldable pub begun : StepStatus → Bool
begun pending = false
begun StepStatus.running = true
begun skipped = false
begun (StepStatus.done c) = true
begun (failed c) = true

-- every step that has begun has all its dependencies done
abbrev pub Sound : List PipelineStep → List PipelineStep → Type 0
Sound all [] = Unit {0}
Sound all (s ∷ ss) = (begun s.status ≡ true → all_deps_ok all s.depends_on ≡ true) × Sound all ss

abbrev pub Grounded : List PipelineStep → Type 0
Grounded ss = Sound ss ss

-- the same step later: a status that is final is as it was
abbrev pub LaterBy : (StepStatus → Bool) → PipelineStep → PipelineStep → Type 0
LaterBy final s t =
    (t.id ≡ s.id) × (t.depends_on ≡ s.depends_on) × (final s.status ≡ true → t.status ≡ s.status)

abbrev pub MovesBy : (StepStatus → Bool) → List PipelineStep → List PipelineStep → Type 0
MovesBy final [] [] = Unit {0}
MovesBy final (s ∷ ss) (t ∷ ts) = LaterBy final s t × MovesBy final ss ts
MovesBy final [] (t ∷ ts) = ⊥
MovesBy final (s ∷ ss) [] = ⊥

-- what had ended is as it was
abbrev pub Later : PipelineStep → PipelineStep → Type 0
Later = LaterBy is_terminal

abbrev pub Moves : List PipelineStep → List PipelineStep → Type 0
Moves = MovesBy is_terminal

pub Moves-refl : (ss : List PipelineStep) → Moves ss ss
Moves-refl [] = tt
Moves-refl (s ∷ ss) = ((refl, refl, λ h. refl), Moves-refl ss)

terminal_successful : (st : StepStatus) → is_successful st ≡ true → is_terminal st ≡ true
unfolding is_terminal is_successful
terminal_successful pending h = absurd (ground arith)
terminal_successful StepStatus.running h = absurd (ground arith)
terminal_successful skipped h = refl
terminal_successful (StepStatus.done c) h = refl
terminal_successful (failed c) h = refl

module _ (final : StepStatus → Bool)
    (successful : (st : StepStatus) → is_successful st ≡ true → final st ≡ true) where
  dep_ok-Moves :
      (ss ts : List PipelineStep) (d : Text)
      → MovesBy final ss ts
      → dep_ok (step_by_id ss d) ≡ true
      → dep_ok (step_by_id ts d) ≡ true
  unfolding step_by_id dep_ok
  dep_ok-Moves [] [] d moves h = refl
  dep_ok-Moves (s ∷ ss) (t ∷ ts) d ((same_id, same_deps, kept), moves) h =
      elim (Bool-cases (text_eq s.id d)) [
        | inl this ↦
            found this (subst (λ b. dep_ok (if b then some s else step_by_id ss d) ≡ true) this h)
        | inr that ↦
            subst (λ i. dep_ok (if text_eq i d then some t else step_by_id ts d) ≡ true)
              (sym same_id)
              (subst (λ b. dep_ok (if b then some t else step_by_id ts d) ≡ true) (sym that)
                (dep_ok-Moves ss ts d moves
                  (subst (λ b. dep_ok (if b then some s else step_by_id ss d) ≡ true) that h)))
      ]
    where
      found :
          text_eq s.id d ≡ true
          → is_successful s.status ≡ true
          → dep_ok (if text_eq t.id d then some t else step_by_id ts d) ≡ true
      found this ok_s =
          subst (λ i. dep_ok (if text_eq i d then some t else step_by_id ts d) ≡ true) (sym same_id)
            (subst (λ b. dep_ok (if b then some t else step_by_id ts d) ≡ true) (sym this)
              (ap is_successful (kept (successful s.status ok_s)) ∙ ok_s))
  dep_ok-Moves [] (t ∷ ts) d moves h = elim moves [ ]
  dep_ok-Moves (s ∷ ss) [] d moves h = elim moves [ ]

  pub all_deps_ok-Moves :
      (ss ts : List PipelineStep) (ds : List Text)
      → MovesBy final ss ts
      → all_deps_ok ss ds ≡ true
      → all_deps_ok ts ds ≡ true
  unfolding all_deps_ok
  all_deps_ok-Moves ss ts [] moves h = refl
  all_deps_ok-Moves ss ts (d ∷ ds) moves h =
      ground (arith, dep_ok-Moves ss ts d moves, all_deps_ok-Moves ss ts ds moves)

pub Sound-Moves :
    (all later ss : List PipelineStep) → Moves all later → Sound all ss → Sound later ss
Sound-Moves all later [] moves sound = tt
Sound-Moves all later (s ∷ ss) moves (here, rest) = (
  (λ b. all_deps_ok-Moves is_terminal terminal_successful all later s.depends_on moves (here b)),
  Sound-Moves all later ss moves rest,
)

-- A change of each step that keeps its dependencies and what has ended, and begins nothing.
abbrev pub Gentle : (PipelineStep → PipelineStep) → Type 0
Gentle f = (s : PipelineStep) → Later s (f s) × (begun (f s).status ≡ true → begun s.status ≡ true)

module _ (f : PipelineStep → PipelineStep) (gentle : Gentle f) where
  pub Moves-map : (ss : List PipelineStep) → Moves ss (map f ss)
  Moves-map [] = tt
  Moves-map (s ∷ ss) = ((gentle s).0, Moves-map ss)

  Sound-map : (all ss : List PipelineStep) → Sound all ss → Sound all (map f ss)
  Sound-map all [] sound = tt
  Sound-map all (s ∷ ss) (here, rest) = (
    (λ b. subst (λ ds. all_deps_ok all ds ≡ true) (sym (gentle s).0.1) (here ((gentle s).1 b))),
    Sound-map all ss rest,
  )

  pub Grounded-map : (ss : List PipelineStep) → Grounded ss → Grounded (map f ss)
  Grounded-map ss grounded =
      Sound-Moves ss (map f ss) (map f ss) (Moves-map ss) (Sound-map ss ss grounded)

-- the part of `Gentle` that is about the status
abbrev Mild : (StepStatus → StepStatus) → Type 0
Mild g =
    (st : StepStatus)
    → (is_terminal st ≡ true → g st ≡ st) × (begun (g st) ≡ true → begun st ≡ true)

Mild-Gentle :
    (g : StepStatus → StepStatus) (s : PipelineStep)
    → Mild g
    → Later s (with_status s (g s.status)) × (begun (g s.status) ≡ true → begun s.status ≡ true)
Mild-Gentle g s mild = ((refl, refl, (mild s.status).0), (mild s.status).1)

refreshed-Mild : (env : Env) (job : Option Text) → Mild (refreshed env job)
unfolding refreshed begun is_terminal
refreshed-Mild env job pending = ((λ h. refl), λ b. b)
refreshed-Mild env job StepStatus.running = ((λ h. absurd (ground arith)), λ b. refl)
refreshed-Mild env job skipped = ((λ h. refl), λ b. b)
refreshed-Mild env job (StepStatus.done c) = ((λ h. refl), λ b. b)
refreshed-Mild env job (failed c) = ((λ h. refl), λ b. b)

pub refresh_step-Gentle : (env : Env) → Gentle (refresh_step env)
refresh_step-Gentle env s = Mild-Gentle (refreshed env s.job_id) s (refreshed-Mild env s.job_id)

skip_pending-Mild : Mild skip_pending
unfolding skip_pending begun is_terminal
skip_pending-Mild pending = ((λ h. absurd (ground arith)), λ b. absurd (ground arith))
skip_pending-Mild StepStatus.running = ((λ h. refl), λ b. b)
skip_pending-Mild skipped = ((λ h. refl), λ b. b)
skip_pending-Mild (StepStatus.done c) = ((λ h. refl), λ b. b)
skip_pending-Mild (failed c) = ((λ h. refl), λ b. b)

pub skip_step-Gentle : Gentle skip_step
skip_step-Gentle s = Mild-Gentle skip_pending s skip_pending-Mild

cancel_status-Mild : Mild cancel_status
unfolding cancel_status begun is_terminal
cancel_status-Mild pending = ((λ h. absurd (ground arith)), λ b. absurd (ground arith))
cancel_status-Mild StepStatus.running = ((λ h. absurd (ground arith)), λ b. absurd (ground arith))
cancel_status-Mild skipped = ((λ h. refl), λ b. b)
cancel_status-Mild (StepStatus.done c) = ((λ h. refl), λ b. b)
cancel_status-Mild (failed c) = ((λ h. refl), λ b. b)

pub cancel_step-Gentle : Gentle cancel_step
cancel_step-Gentle s = Mild-Gentle cancel_status s cancel_status-Mild
