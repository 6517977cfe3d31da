-- ===== src/Pipeline/Stuck.antt =====
-- Dependencies in a circle.
use ferrite_mcp.Prelude.{
  ◌≡◌, refl, ap, ◌∙◌, Bool, true, false, ◌&&◌, none, List, [], ◌∷◌, map, if◌then◌else◌, Text,
  text_eq, text_eq_refl, text_eq_sym, elem, ok,
}
use ferrite_mcp.Pipeline.{
  is_terminal, is_successful, is_failed, is_blocked, PipelineStep, Pipeline, Env, step_by_id,
  any_step, all_steps, dep_ok, dep_blocked, all_deps_ok, any_dep_blocked, start, launch_step,
  outcome, settle, skip_step, run, unknown_dep, check_deps, check_unique, turn, coordinator,
  is_cancelled, refreshed, propagate, launch, with_steps, StepDef, new_step, new_pipeline,
}

abbrev step : (id cmd dep : Text) → StepDef
step id cmd dep = record { id = id; cmd = cmd; cwd = none; label = none; depends_on = dep ∷ [] }

-- two steps that wait for each other
abbrev pub circle : (a b cmd_a cmd_b : Text) → List StepDef
circle a b cmd_a cmd_b = step a cmd_a b ∷ step b cmd_b a ∷ []

and_false : (b : Bool) → b && false ≡ false
and_false true = refl
and_false false = refl

module _ (id a b cmd_a cmd_b : Text) (stop : Bool) (apart : text_eq a b ≡ false) where
  abbrev p : Pipeline
  p = new_pipeline id (circle a b cmd_a cmd_b) none stop

  abbrev first : PipelineStep
  first = new_step (step a cmd_a b)

  abbrev second : PipelineStep
  second = new_step (step b cmd_b a)

  abbrev both : List PipelineStep
  both = first ∷ second ∷ []

  first_waits : (env : Env) → start env both first ≡ first
  unfolding start any_dep_blocked dep_blocked is_blocked all_deps_ok dep_ok is_successful step_by_id
      new_step
  first_waits env = rw (apart, text_eq_refl b) refl

  second_waits : (env : Env) → start env both second ≡ second
  unfolding start any_dep_blocked dep_blocked is_blocked all_deps_ok dep_ok is_successful step_by_id
      new_step
  second_waits env = rw (text_eq_refl a) refl

  launch_idle : (env : Env) → launch env [] both ≡ both
  unfolding launch launch_step new_step
  launch_idle env =
      ap (λ s. launch env (s ∷ []) (second ∷ [])) (first_waits env)
      ∙ ap (λ s. first ∷ s ∷ []) (second_waits env)

  propagate_idle : propagate stop both ≡ both
  unfolding propagate any_step is_failed new_step
  propagate_idle = ap (λ c. if c then map skip_step both else both) (and_false stop)

  turn_idle : (env : Env) → turn env p ≡ (p, false)
  unfolding turn new_pipeline new_step refreshed is_cancelled outcome all_steps is_terminal settle
  turn_idle env =
      ap (λ ss. settle (with_steps p (launch env [] ss)) (outcome (launch env [] ss)))
        propagate_idle
      ∙ ap (λ ss. settle (with_steps p ss) (outcome ss)) (launch_idle env)

  coordinator_idle : (envs : List Env) → coordinator envs p ≡ (p, false)
  unfolding coordinator
  coordinator_idle [] = refl
  coordinator_idle (env ∷ envs) =
      ap (λ t. if t.1 then (t.0, true) else coordinator envs t.0) (turn_idle env)
      ∙ coordinator_idle envs

  unknown_none : (d : Text) → elem d (a ∷ b ∷ []) ≡ true → unknown_dep (a ∷ b ∷ []) (d ∷ []) ≡ none
  unfolding unknown_dep
  unknown_none d h = rw h refl

  check_unique-circle : check_unique [] (circle a b cmd_a cmd_b) ≡ ok tt
  unfolding check_unique elem
  check_unique-circle = rw (text_eq_sym b a ∙ apart) refl

  check_deps-circle : check_deps (a ∷ b ∷ []) (circle a b cmd_a cmd_b) ≡ ok tt
  unfolding check_deps elem
  check_deps-circle =
      rw
        (
          unknown_none b (rw (text_eq_sym b a ∙ apart, text_eq_refl b) refl),
          unknown_none a (rw (text_eq_refl a) refl),
          check_deps,
        )
        refl

  run-circle : run id (circle a b cmd_a cmd_b) none stop ≡ ok p
  unfolding run
  run-circle = rw (check_deps-circle, check_unique-circle, run) refl

  -- `run` accepts two steps with different ids that depend on each other, and they never begin: whatever the
  -- jobs and the spawns do, the coordinator is still in its loop after any number of turns, with the pipeline
  -- unchanged.
  pub coordinator-circle :
      (envs : List Env)
      → (run id (circle a b cmd_a cmd_b) none stop ≡ ok p) × (coordinator envs p ≡ (p, false))
  coordinator-circle envs = (run-circle, coordinator_idle envs)
