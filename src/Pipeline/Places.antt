-- ===== src/Pipeline/Places.antt =====
-- Steps by their places, and what a change of one of them keeps.
use ferrite_mcp.Prelude.{
  ℕ, zero, suc, ◌≡◌, refl, sym, ap, ◌∙◌, subst, Bool, true, false, ◌||◌, Option, none, some, List,
  [], ◌∷◌, arith, Text,
}
use ferrite_mcp.Pipeline.{
  StepStatus, pending, skipped, failed, is_successful, PipelineStep, all_deps_ok,
}
use ferrite_mcp.Pipeline.Grounded.{begun, LaterBy, MovesBy, all_deps_ok-Moves}
use ferrite_mcp.Pipeline.Races.{step_at, update_at}

-- done or failed
unfoldable pub has_ended : StepStatus → Bool
has_ended pending = false
has_ended StepStatus.running = false
has_ended skipped = false
has_ended (StepStatus.done c) = true
has_ended (failed c) = true

unfoldable pub has_job : Option Text → Bool
has_job none = false
has_job (some job) = true

pub successful_ended : (st : StepStatus) → is_successful st ≡ true → has_ended st ≡ true
unfolding is_successful has_ended
successful_ended pending h = absurd (ground arith)
successful_ended StepStatus.running h = absurd (ground arith)
successful_ended skipped h = absurd (ground arith)
successful_ended (StepStatus.done c) h = refl
successful_ended (failed c) h = refl

abbrev pub Keeps : List PipelineStep → List PipelineStep → Type 0
Keeps = MovesBy has_ended

pub Keeps-refl : (ss : List PipelineStep) → Keeps ss ss
Keeps-refl [] = tt
Keeps-refl (s ∷ ss) = ((refl, refl, λ h. refl), Keeps-refl ss)

pub Keeps-trans : (rs ss ts : List PipelineStep) → Keeps rs ss → Keeps ss ts → Keeps rs ts
Keeps-trans [] [] [] m n = tt
Keeps-trans (r ∷ rs) (s ∷ ss) (t ∷ ts) ((id, deps, kept), ms) ((id', deps', kept'), ns) = (
  (id' ∙ id, deps' ∙ deps, λ h. kept' (ap has_ended (kept h) ∙ h) ∙ kept h),
  Keeps-trans rs ss ts ms ns,
)
Keeps-trans [] (s ∷ ss) ts m n = elim m [ ]
Keeps-trans (r ∷ rs) [] ts m n = elim m [ ]
Keeps-trans [] [] (t ∷ ts) m n = elim n [ ]
Keeps-trans (r ∷ rs) (s ∷ ss) [] m n = elim n [ ]

pub deps_stay :
    (ss ts : List PipelineStep) (ds : List Text)
    → Keeps ss ts
    → all_deps_ok ss ds ≡ true
    → all_deps_ok ts ds ≡ true
deps_stay ss ts ds = all_deps_ok-Moves has_ended successful_ended ss ts ds

-- A step that has begun, or for which a job was started before it was cancelled, has its dependencies done.
abbrev pub Linked : List PipelineStep → PipelineStep → Type 0
Linked all s = begun s.status || has_job s.job_id ≡ true → all_deps_ok all s.depends_on ≡ true

abbrev pub Tied : List PipelineStep → List PipelineStep → Type 0
Tied all [] = Unit {0}
Tied all (s ∷ ss) = Linked all s × Tied all ss

pub Tied-Keeps : (all later ss : List PipelineStep) → Keeps all later → Tied all ss → Tied later ss
Tied-Keeps all later [] k tied = tt
Tied-Keeps all later (s ∷ ss) k (here, rest) =
    ((λ b. deps_stay all later s.depends_on k (here b)), Tied-Keeps all later ss k rest)

-- A fact of the step at a place, if there is one.
abbrev pub At : ℕ → (PipelineStep → Type 0) → List PipelineStep → Type 0
At i P [] = Unit {0}
At zero P (s ∷ ss) = P s
At (suc i) P (s ∷ ss) = At i P ss

pub At-all :
    {P : PipelineStep → Type 0} (h : (s : PipelineStep) → P s) (i : ℕ) (ss : List PipelineStep)
    → At i P ss
At-all h i [] = tt
At-all h zero (s ∷ ss) = h s
At-all h (suc i) (s ∷ ss) = At-all h i ss

pub At-step_at :
    (P : PipelineStep → Type 0) (i : ℕ) (ss : List PipelineStep) (s : PipelineStep)
    → step_at ss i ≡ some s
    → P s
    → At i P ss
unfolding step_at
At-step_at P i [] s e p = tt
At-step_at P zero (t ∷ ss) s e p = subst P (sym (cc)) p
At-step_at P (suc i) (t ∷ ss) s e p = At-step_at P i ss s e p

pub Tied-step_at :
    (all ss : List PipelineStep) (i : ℕ) (s : PipelineStep)
    → Tied all ss
    → step_at ss i ≡ some s
    → Linked all s
unfolding step_at
Tied-step_at all [] i s tied e = absurd cc
Tied-step_at all (t ∷ ss) zero s (here, rest) e =
    let same : t ≡ s = cc in subst (Linked all) same here
Tied-step_at all (t ∷ ss) (suc i) s (here, rest) e = Tied-step_at all ss i s rest e

-- the change of one step
module _ (f : PipelineStep → PipelineStep) (P : PipelineStep → Type 0) where
  pub update_at-Keeps :
      ((s : PipelineStep) → P s → LaterBy has_ended s (f s))
      → (i : ℕ) (ss : List PipelineStep) → At i P ss
      → Keeps ss (update_at i f ss)
  unfolding update_at
  update_at-Keeps h i [] p = tt
  update_at-Keeps h zero (s ∷ ss) p = (h s p, Keeps-refl ss)
  update_at-Keeps h (suc i) (s ∷ ss) p = ((refl, refl, λ h. refl), update_at-Keeps h i ss p)

  pub update_at-Tied :
      (all : List PipelineStep)
      → ((s : PipelineStep) → P s → Linked all s → Linked all (f s))
      → (i : ℕ) (ss : List PipelineStep) → At i P ss
      → Tied all ss
      → Tied all (update_at i f ss)
  unfolding update_at
  update_at-Tied all h i [] p tied = tt
  update_at-Tied all h zero (s ∷ ss) p (here, rest) = (h s p here, rest)
  update_at-Tied all h (suc i) (s ∷ ss) p (here, rest) = (here, update_at-Tied all h i ss p rest)

pub At-update_at :
    (P Q : PipelineStep → Type 0) (f : PipelineStep → PipelineStep)
    → ((s : PipelineStep) → P s → Q s)
    → ((s : PipelineStep) → P s → Q (f s))
    → (i j : ℕ) (ss : List PipelineStep) → At i P ss
    → At i Q (update_at j f ss)
unfolding update_at
At-update_at P Q f g h i j [] p = tt
At-update_at P Q f g h zero zero (s ∷ ss) p = h s p
At-update_at P Q f g h zero (suc j) (s ∷ ss) p = g s p
At-update_at P Q f g h (suc i) (suc j) (s ∷ ss) p = At-update_at P Q f g h i j ss p
At-update_at P Q f g h (suc i) zero (s ∷ ss) p = At-map g i ss p
  where
    At-map :
        {P Q : PipelineStep → Type 0}
        → ((s : PipelineStep) → P s → Q s)
        → (i : ℕ) (ss : List PipelineStep) → At i P ss
        → At i Q ss
    At-map g i [] p = tt
    At-map g zero (s ∷ ss) p = g s p
    At-map g (suc i) (s ∷ ss) p = At-map g i ss p
