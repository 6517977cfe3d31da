-- ===== src/Pipeline/Launch.antt =====
-- The launches of a turn, and what the coordinator keeps over all its turns.
use ferrite_mcp.Prelude.{
  ◌≡◌, refl, sym, ap, ◌∙◌, subst, Bool, true, false, not, ◌&&◌, Option, none, some, List, [], ◌∷◌,
  ◌++◌, map, append-nil, append_assoc, if◌then◌else◌, arith, Text, Bool-cases, inl, inr, ◌⊎◌,
}
use ferrite_mcp.Pipeline.{
  StepStatus, pending, skipped, failed, is_terminal, is_failed, PipelineStep, Pipeline, Env,
  any_step, refresh_step, skip_step, propagate, all_deps_ok, any_dep_blocked, spawned, start,
  launch_step, launch, outcome, settle, turn, is_cancelled, PipelineStatus, with_steps,
}
use ferrite_mcp.Pipeline.Grounded.{
  begun, Sound, Grounded, Later, Moves, Moves-refl, Sound-Moves, Moves-map, Grounded-map,
  refresh_step-Gentle, skip_step-Gentle,
}

-- a launch that begins a step finds its dependencies done
abbrev Launched : List PipelineStep → PipelineStep → PipelineStep → Type 0
Launched all s t =
    Later s t
    × (begun t.status ≡ true → (begun s.status ≡ true) ⊎ (all_deps_ok all s.depends_on ≡ true))

open_status : (st : StepStatus) → st ≡ pending → is_terminal st ≡ false
unfolding is_terminal
open_status st waits = ap is_terminal waits

module _ (all : List PipelineStep) (s : PipelineStep) where
  ended : {A : Type 0} → s.status ≡ pending → is_terminal s.status ≡ true → A
  ended waits h = absurd (ground (arith, open_status s.status waits))

  spawned_lem :
      (job : Option Text)
      → s.status ≡ pending
      → all_deps_ok all s.depends_on ≡ true
      → Launched all s (spawned s job)
  unfolding spawned
  spawned_lem none waits deps = ((refl, refl, ended waits), λ b. inr deps)
  spawned_lem (some job) waits deps = ((refl, refl, ended waits), λ b. inr deps)

  start_lem : (env : Env) → s.status ≡ pending → Launched all s (start env all s)
  unfolding start begun
  start_lem env waits = elim (Bool-cases (any_dep_blocked all s.depends_on)) [
    | inl blocked ↦ rw blocked ((refl, refl, ended waits), λ b. absurd (ground arith))
    | inr free ↦ rw free (by_deps (Bool-cases (all_deps_ok all s.depends_on)))
  ]
    where
      tried : PipelineStep
      tried = spawned s (env.spawn s.cmd s.cwd s.label)

      by_deps :
          (all_deps_ok all s.depends_on ≡ true) ⊎ (all_deps_ok all s.depends_on ≡ false)
          → Launched all s (if not (all_deps_ok all s.depends_on) then s else tried)
      by_deps (inl ready) =
          subst (λ b. Launched all s (if not b then s else tried)) (sym ready)
            (spawned_lem (env.spawn s.cmd s.cwd s.label) waits ready)
      by_deps (inr not_ready) =
          subst (λ b. Launched all s (if not b then s else tried)) (sym not_ready)
            ((refl, refl, λ h. refl), λ b. inl b)

  launch_step_lem :
      (env : Env) (st : StepStatus) → s.status ≡ st → Launched all s (launch_step env all st s)
  unfolding launch_step
  launch_step_lem env pending is = start_lem env is
  launch_step_lem env StepStatus.running is = ((refl, refl, λ h. refl), λ b. inl b)
  launch_step_lem env skipped is = ((refl, refl, λ h. refl), λ b. inl b)
  launch_step_lem env (StepStatus.done c) is = ((refl, refl, λ h. refl), λ b. inl b)
  launch_step_lem env (failed c) is = ((refl, refl, λ h. refl), λ b. inl b)

module _ (s t : PipelineStep) (ss : List PipelineStep) where
  Moves-at : Later s t → (before : List PipelineStep) → Moves (before ++ s ∷ ss) (before ++ t ∷ ss)
  Moves-at later [] = (later, Moves-refl ss)
  Moves-at later (b ∷ bs) = ((refl, refl, λ h. refl), Moves-at later bs)

  Sound-at :
      (all : List PipelineStep)
      → Launched all s t
      → (before : List PipelineStep) → Sound all (before ++ s ∷ ss)
      → Sound all (before ++ t ∷ ss)
  Sound-at all launched [] (here, rest) = (
    (λ b.
        subst (λ ds. all_deps_ok all ds ≡ true) (sym launched.0.1)
          (elim (launched.1 b) [ inl was ↦ here was | inr ready ↦ ready ])),
    rest,
  )
  Sound-at all launched (b ∷ bs) (here, rest) = (here, Sound-at all launched bs rest)

Later-trans : (r s t : PipelineStep) → Later r s → Later s t → Later r t
Later-trans r s t (id, deps, kept) (id', deps', kept') =
    (id' ∙ id, deps' ∙ deps, λ h. kept' (ap is_terminal (kept h) ∙ h) ∙ kept h)

pub Moves-trans : (rs ss ts : List PipelineStep) → Moves rs ss → Moves ss ts → Moves rs ts
Moves-trans [] [] [] m n = tt
Moves-trans (r ∷ rs) (s ∷ ss) (t ∷ ts) (m, ms) (n, ns) =
    (Later-trans r s t m n, Moves-trans rs ss ts ms ns)
Moves-trans [] (s ∷ ss) ts m n = elim m [ ]
Moves-trans (r ∷ rs) [] ts m n = elim m [ ]
Moves-trans [] [] (t ∷ ts) m n = elim n [ ]
Moves-trans (r ∷ rs) (s ∷ ss) [] m n = elim n [ ]

-- what each part of a turn does to the steps
abbrev pub Carries : List PipelineStep → List PipelineStep → Type 0
Carries ss ts = Moves ss ts × (Grounded ss → Grounded ts)

Carries-trans : (rs ss ts : List PipelineStep) → Carries rs ss → Carries ss ts → Carries rs ts
Carries-trans rs ss ts (m, g) (n, h) = (Moves-trans rs ss ts m n, λ x. h (g x))

launch-Carries :
    (env : Env) (before todo : List PipelineStep)
    → Carries (before ++ todo) (launch env before todo)
unfolding launch
launch-Carries env before [] =
    subst (λ ss. Carries ss before) (sym (append-nil before)) (Moves-refl before, λ g. g)
launch-Carries env before (s ∷ ss) =
    let all = before ++ s ∷ ss in
    let t = launch_step env all s.status s in
    let launched = launch_step_lem all s env s.status refl in
    let moves = Moves-at s t ss launched.0 before in
    let next = before ++ t ∷ ss in
    Carries-trans all next (launch env (before ++ t ∷ []) ss)
      (moves, λ g. Sound-Moves all next next moves (Sound-at s t ss all launched before g))
      (subst (λ ts. Carries ts (launch env (before ++ t ∷ []) ss)) (append_assoc before (t ∷ []) ss)
        (launch-Carries env (before ++ t ∷ []) ss))

propagate-Carries : (stop : Bool) (ss : List PipelineStep) → Carries ss (propagate stop ss)
unfolding propagate
propagate-Carries stop ss = elim (Bool-cases (stop && any_step is_failed ss)) [
  | inl skips ↦
      rw skips (Moves-map skip_step skip_step-Gentle ss, Grounded-map skip_step skip_step-Gentle ss)
  | inr keeps ↦ rw keeps (Moves-refl ss, λ g. g)
]

settle_steps : (p : Pipeline) (st : Option PipelineStatus) → (settle p st).0.steps ≡ p.steps
unfolding settle
settle_steps p none = refl
settle_steps p (some st) = refl

pub turn-Carries : (env : Env) (p : Pipeline) → Carries p.steps (turn env p).0.steps
unfolding turn
turn-Carries env p =
    let refreshed = map (refresh_step env) p.steps in
    let current = propagate p.stop_on_failure refreshed in
    let one =
      Carries-trans p.steps refreshed current
        (
          Moves-map (refresh_step env) (refresh_step-Gentle env) p.steps,
          Grounded-map (refresh_step env) (refresh_step-Gentle env) p.steps,
        )
        (propagate-Carries p.stop_on_failure refreshed) in
    elim (Bool-cases (is_cancelled p.status)) [
      | inl stopped ↦ rw stopped one
      | inr goes ↦
          rw
            (
              goes,
              settle_steps (with_steps p (launch env [] current)) (outcome (launch env [] current)),
            )
            (Carries-trans p.steps current (launch env [] current) one
              (launch-Carries env [] current))
    ]
