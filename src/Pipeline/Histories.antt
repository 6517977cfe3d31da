-- ===== src/Pipeline/Histories.antt =====
-- What holds of a pipeline over whole turns of the coordinator and whole calls of `cancel`; Pipeline/Races has
-- them between each other's locks.
use ferrite_mcp.Prelude.{
  ◌≡◌, refl, sym, ap, ◌∙◌, subst, Bool, true, false, not, ◌&&◌, Option, none, some, List, [], ◌∷◌,
  map, if◌then◌else◌, arith, Text, elem, text_eq_sym, Result, ok, err, Bool-cases, inl, inr, ◌⊎◌,
}
use ferrite_mcp.Pipeline.{
  is_terminal, is_failed, PipelineStep, Pipeline, PipelineStatus, Env, any_step, all_steps, outcome,
  settle, turn, coordinator, cancel_step, cancel, is_cancelled, refresh_step, propagate, launch,
  with_steps, StepDef, RunError, ids_of, unknown_dep, check_deps, check_unique, new_step,
  new_pipeline, run,
}
use ferrite_mcp.Pipeline.Grounded.{
  begun, Sound, Grounded, Moves, Moves-refl, Moves-map, Grounded-map, cancel_step-Gentle,
}
use ferrite_mcp.Pipeline.Launch.{Carries, Moves-trans, turn-Carries}

-- A turn of the coordinator, or a call of `cancel`, each with nothing of the other in between. In the source they
-- lock one step at a time and may interleave, which Pipeline/Races models.
pub data Action : Type 0 where
  takes_turn : Env → Action
  cancels : Action

unfoldable pub act : Action → Pipeline → Pipeline
unfolding turn cancel
act (takes_turn env) p = (turn env p).0
act cancels p = (cancel p).0

unfoldable pub play : List Action → Pipeline → Pipeline
unfolding act
play [] p = p
play (a ∷ acts) p = play acts (act a p)

act-Carries : (a : Action) (p : Pipeline) → Carries p.steps (act a p).steps
unfolding act cancel
act-Carries (takes_turn env) p = turn-Carries env p
act-Carries cancels p = (
  Moves-map cancel_step cancel_step-Gentle p.steps,
  Grounded-map cancel_step cancel_step-Gentle p.steps,
)

-- Over whole turns and cancellations the steps keep their ids and dependencies, and a step that is done, failed
-- or skipped keeps its status.
pub play-Moves : (acts : List Action) (p : Pipeline) → Moves p.steps (play acts p).steps
unfolding play
play-Moves [] p = Moves-refl p.steps
play-Moves (a ∷ acts) p =
    Moves-trans p.steps (act a p).steps (play acts (act a p)).steps (act-Carries a p).0
      (play-Moves acts (act a p))

keeps_Grounded :
    (acts : List Action) (p : Pipeline) → Grounded p.steps → Grounded (play acts p).steps
unfolding play
keeps_Grounded [] p g = g
keeps_Grounded (a ∷ acts) p g = keeps_Grounded acts (act a p) ((act-Carries a p).1 g)

new_step-Sound : (all : List PipelineStep) (sds : List StepDef) → Sound all (map new_step sds)
unfolding new_step begun
new_step-Sound all [] = tt
new_step-Sound all (sd ∷ sds) = ((λ b. absurd (ground arith)), new_step-Sound all sds)

-- In every pipeline that `run` can make, after any sequence of turns and cancellations, a step that runs, is
-- done or has failed has all its dependencies done.
pub play-Grounded :
    (acts : List Action) (id : Text) (sds : List StepDef) (label : Option Text) (stop : Bool)
    → Grounded (play acts (new_pipeline id sds label stop)).steps
unfolding new_pipeline
play-Grounded acts id sds label stop =
    keeps_Grounded acts (new_pipeline id sds label stop) (new_step-Sound (map new_step sds) sds)

-- each of some texts is among the ids
unfoldable pub among : List Text → List Text → Bool
among ids [] = true
among ids (d ∷ ds) = elem d ids && among ids ds

-- every dependency of the definitions is an id among `ids`
unfoldable pub known : List Text → List StepDef → Bool
known ids [] = true
known ids (sd ∷ sds) = among ids sd.depends_on && known ids sds

-- none of the ids is among those behind it
unfoldable pub distinct : List Text → Bool
distinct [] = true
distinct (i ∷ is) = not (elem i is) && distinct is

-- none of the ids has been seen
unfoldable fresh : (seen ids : List Text) → Bool
fresh seen [] = true
fresh seen (i ∷ is) = not (elem i seen) && fresh seen is

unfoldable pub ran : Result RunError Pipeline → Option Pipeline
ran (ok p) = some p
ran (err e) = none

unfoldable pub went : Result RunError (Unit {0}) → Bool
went (ok u) = true
went (err e) = false

unfoldable is_none : Option Text → Bool
is_none none = true
is_none (some t) = false

unknown_dep-among : (ids ds : List Text) → is_none (unknown_dep ids ds) ≡ among ids ds
unfolding unknown_dep among is_none
unknown_dep-among ids [] = refl
unknown_dep-among ids (d ∷ ds) = elim (Bool-cases (elem d ids)) [
  | inl there ↦ rw there (unknown_dep-among ids ds)
  | inr missing ↦ rw missing refl
]

check_deps-known :
    (ids : List Text) (sds : List StepDef) → went (check_deps ids sds) ≡ known ids sds
unfolding check_deps known went is_none
check_deps-known ids [] = refl
check_deps-known ids (sd ∷ sds) =
    rw (← unknown_dep-among ids sd.depends_on)
      (by_dep (unknown_dep ids sd.depends_on) (check_deps-known ids sds))
  where
    by_dep :
        (d : Option Text)
        → went (check_deps ids sds) ≡ known ids sds
        → went (elim d as (λ _. Result RunError (Unit {0})) [
          | none ↦ check_deps ids sds
          | some d ↦ err (RunError.unknown_step sd.id d)
        ])
          ≡ is_none d && known ids sds
    by_dep none h = h
    by_dep (some d) h = refl

fresh-cons :
    (i : Text) (seen ids : List Text) → fresh (i ∷ seen) ids ≡ not (elem i ids) && fresh seen ids
unfolding fresh elem
fresh-cons i seen [] = refl
fresh-cons i seen (j ∷ js) = rw (text_eq_sym j i) (ground (arith, fresh-cons i seen js))

check_unique-distinct :
    (seen : List Text) (sds : List StepDef)
    → went (check_unique seen sds) ≡ fresh seen (ids_of sds) && distinct (ids_of sds)
unfolding check_unique distinct fresh went
check_unique-distinct seen [] = refl
check_unique-distinct seen (sd ∷ sds) = elim (Bool-cases (elem sd.id seen)) [
  | inl twice ↦ rw twice refl
  | inr once ↦ rw once (
      check_unique-distinct (sd.id ∷ seen) sds
      ∙ rw (fresh-cons sd.id seen (ids_of sds)) (
          turned (not (elem sd.id (ids_of sds))) (fresh seen (ids_of sds)) (distinct (ids_of sds))))
]
  where
    turned : (a b c : Bool) → ((a && b) && c) ≡ (b && (a && c))
    turned a b c = ground arith

fresh-nil : (ids : List Text) → fresh [] ids ≡ true
unfolding fresh elem
fresh-nil [] = refl
fresh-nil (i ∷ is) = fresh-nil is

-- `run` makes the pipeline of its definitions, with all steps pending, exactly when every dependency is the
-- id of one of them and no id is there twice; it fails otherwise.
pub run_lem :
    (id : Text) (sds : List StepDef) (label : Option Text) (stop : Bool)
    → ran (run id sds label stop) ≡ (
        if known (ids_of sds) sds && distinct (ids_of sds)
        then some (new_pipeline id sds label stop)
        else none)
unfolding run ran went
run_lem id sds label stop =
    by_checks (check_deps (ids_of sds) sds) (check_unique [] sds)
      (check_deps-known (ids_of sds) sds)
      (check_unique-distinct [] sds ∙ rw (fresh-nil (ids_of sds)) refl)
  where
    by_checks :
        (r s : Result RunError (Unit {0}))
        → went r ≡ known (ids_of sds) sds
        → went s ≡ distinct (ids_of sds)
        → ran (elim r as (λ _. Result RunError Pipeline) [
          | err e ↦ err e
          | ok u ↦ elim s as (λ _. Result RunError Pipeline) [
            | err e ↦ err e
            | ok v ↦ ok (new_pipeline id sds label stop)
          ]
        ])
          ≡ (if known (ids_of sds) sds && distinct (ids_of sds)
              then some (new_pipeline id sds label stop)
              else none)
    by_checks (ok u) (ok v) h k = rw (sym h, sym k) refl
    by_checks (ok u) (err e) h k = rw (sym h, sym k) refl
    by_checks (err e) s h k = rw (sym h) refl

-- what the status of a pipeline says once all its steps have ended
abbrev pub verdict : List PipelineStep → PipelineStatus
verdict ss = if any_step is_failed ss then PipelineStatus.failed else PipelineStatus.done

abbrev Ended : Pipeline × Bool → Type 0
Ended (p, ends) =
    ends ≡ true → (all_steps is_terminal p.steps ≡ true) × (p.status ≡ verdict p.steps)

settle-Ended : (p : Pipeline) → Ended (settle p (outcome p.steps))
unfolding settle outcome
settle-Ended p = elim (Bool-cases (all_steps is_terminal p.steps)) [
  | inl all ↦ elim (Bool-cases (any_step is_failed p.steps)) [
    | inl fails ↦
        rw (all, fails)
          (λ h.
            (all, ap (λ b. if b then PipelineStatus.failed else PipelineStatus.done) (sym fails)))
    | inr passes ↦
        rw (all, passes)
          (λ h.
            (all, ap (λ b. if b then PipelineStatus.failed else PipelineStatus.done) (sym passes)))
  ]
  | inr open_steps ↦ rw open_steps (λ h. absurd (ground arith))
]

settle_status :
    (p : Pipeline) (st : Option PipelineStatus)
    → (settle p st).1 ≡ false
    → (settle p st).0.status ≡ p.status
unfolding settle
settle_status p none h = refl
settle_status p (some st) h = absurd (ground arith)

turn-Ended :
    (env : Env) (p : Pipeline)
    → is_cancelled p.status ≡ false
    → Ended (turn env p) × ((turn env p).1 ≡ false → is_cancelled (turn env p).0.status ≡ false)
unfolding turn
turn-Ended env p goes =
    let launched = launch env [] (propagate p.stop_on_failure (map (refresh_step env) p.steps)) in
    rw goes (
      settle-Ended (with_steps p launched),
      λ h. ap is_cancelled (settle_status (with_steps p launched) (outcome launched) h) ∙ goes,
    )

-- When the coordinator of a pipeline that is not cancelled ends, all steps are done, failed or skipped, and
-- the pipeline's status is failed exactly when a step has failed, and done otherwise.
pub coordinator-verdict :
    (envs : List Env) (p : Pipeline)
    → is_cancelled p.status ≡ false
    → (coordinator envs p).1 ≡ true
    → (all_steps is_terminal (coordinator envs p).0.steps ≡ true)
      × ((coordinator envs p).0.status ≡ verdict (coordinator envs p).0.steps)
unfolding coordinator
coordinator-verdict [] p goes ends = absurd (ground arith)
coordinator-verdict (env ∷ envs) p goes ends =
    by_turn (Bool-cases (turn env p).1)
      (λ on h. coordinator-verdict envs (turn env p).0 ((turn-Ended env p goes).1 on) h) ends
  where
    Verdict : Pipeline × Bool → Type 0
    Verdict q = (all_steps is_terminal q.0.steps ≡ true) × (q.0.status ≡ verdict q.0.steps)

    next : Bool → Pipeline × Bool
    next b = if b then ((turn env p).0, true) else coordinator envs (turn env p).0

    by_turn :
        ((turn env p).1 ≡ true) ⊎ ((turn env p).1 ≡ false)
        → ((turn env p).1 ≡ false
            → (coordinator envs (turn env p).0).1 ≡ true
            → Verdict (coordinator envs (turn env p).0))
        → (next (turn env p).1).1 ≡ true
        → Verdict (next (turn env p).1)
    by_turn (inl over) rest h =
        subst (λ b. Verdict (next b)) (sym over) ((turn-Ended env p goes).0 over)
    by_turn (inr on) rest h =
        subst (λ b. Verdict (next b)) (sym on) (rest on (subst (λ b. (next b).1 ≡ true) on h))
