-- ===== src/Tests/Pipeline.antt =====
-- Pipelines of concrete steps.
use ferrite_mcp.Prelude.{
  ◌≡◌, refl, Option, Text, true, false, ◌&&◌, none, some, List, [], ◌∷◌, map, codes, text_eq,
  if◌then◌else◌, ok,
}
use ferrite_mcp.Runtime.State.{pos, negsuc}
use ferrite_mcp.JobStore.{JobStatus, killed}
use ferrite_mcp.Pipeline.{
  skipped, failed, is_terminal, is_failed, is_successful, is_blocked, Pipeline, PipelineStatus, Env,
  all_steps, refreshed, status_after, coordinator, is_cancelled, StepDef, new_pipeline, run, ids_of,
}
use ferrite_mcp.Pipeline.Grounded.{Grounded}
use ferrite_mcp.Pipeline.Histories
use ferrite_mcp.Pipeline.Histories.{
  takes_turn, play, play-Grounded, ran, known, distinct, run_lem, verdict, coordinator-verdict,
}
use ferrite_mcp.Pipeline.Races.{Event, looks, decides, writes, settles, cancels, happen}
use ferrite_mcp.Pipeline.Places.{Keeps}
use ferrite_mcp.Pipeline.Interleaved.{beginning, happen-Keeps}
use ferrite_mcp.Pipeline.Stuck.{circle, coordinator-circle}

abbrev two_steps : List StepDef
two_steps =
    record { id = codes "b"; cmd = codes "make"; cwd = none; label = none; depends_on = [] }
    ∷ record {
      id = codes "t";
      cmd = codes "make test";
      cwd = none;
      label = none;
      depends_on = codes "b" ∷ [];
    }
    ∷ []

-- every job has succeeded when it is looked at
abbrev swift : Env
swift = record { job_status = λ j. some (JobStatus.done (pos 0)); spawn = λ cmd cwd l. some cmd }

abbrev fresh : Pipeline
fresh = new_pipeline (codes "p0001") two_steps none true

run_lem_example : ran (run (codes "p0001") two_steps none true) ≡ (
    if known (ids_of two_steps) two_steps && distinct (ids_of two_steps) then some fresh else none)
run_lem_example = run_lem (codes "p0001") two_steps none true

play-Grounded_example :
    Grounded (play (takes_turn swift ∷ takes_turn swift ∷ Histories.cancels ∷ []) fresh).steps
play-Grounded_example =
    play-Grounded (takes_turn swift ∷ takes_turn swift ∷ Histories.cancels ∷ []) (codes "p0001")
      two_steps none true

coordinator-verdict_example :
    (all_steps is_terminal (coordinator (swift ∷ swift ∷ swift ∷ []) fresh).0.steps ≡ true)
    × ((coordinator (swift ∷ swift ∷ swift ∷ []) fresh).0.status
        ≡ verdict (coordinator (swift ∷ swift ∷ swift ∷ []) fresh).0.steps)
unfolding coordinator new_pipeline is_cancelled text_eq status_after is_failed refreshed is_terminal
    is_successful is_blocked
coordinator-verdict_example = coordinator-verdict (swift ∷ swift ∷ swift ∷ []) fresh refl refl

-- The second step begins once the first is done.
two_steps_example : (coordinator (swift ∷ swift ∷ swift ∷ []) fresh).0.status ≡ PipelineStatus.done
unfolding coordinator new_pipeline is_cancelled text_eq status_after is_failed refreshed is_terminal
    is_successful is_blocked
two_steps_example = refl

-- A step whose job failed blocks the step that depends on it, also without `stop_on_failure`.
abbrev broken : Env
broken = record { job_status = λ j. some killed; spawn = λ cmd cwd l. some cmd }

skipped_example :
    map
      (λ s. s.status)
      (coordinator
        (broken ∷ broken ∷ [])
        (new_pipeline (codes "p0001") two_steps none false)).0.steps
    ≡ failed (negsuc 0) ∷ skipped ∷ []
unfolding coordinator new_pipeline is_cancelled text_eq status_after is_failed refreshed is_terminal
    is_successful is_blocked
skipped_example = refl

abbrev stuck : Pipeline
stuck = new_pipeline (codes "p0001") (circle (codes "x") (codes "y") [] []) none true

coordinator-circle_example :
    (run (codes "p0001") (circle (codes "x") (codes "y") [] []) none true ≡ ok stuck)
    × (coordinator (swift ∷ swift ∷ []) stuck ≡ (stuck, false))
unfolding text_eq
coordinator-circle_example =
    coordinator-circle (codes "p0001") (codes "x") (codes "y") [] [] true refl (swift ∷ swift ∷ [])

-- The first step is looked at, cancelled, and written to; then the second is decided on.
abbrev all_done : Text → Option JobStatus
all_done j = some (JobStatus.done (pos 0))

abbrev early : List Event
early = decides 0 (some (codes "j1")) ∷ writes ∷ looks 0 all_done ∷ cancels 0 ∷ writes ∷ []

abbrev late : List Event
late = decides 1 (some (codes "j2")) ∷ cancels 1 ∷ writes ∷ settles ∷ []

happen-Keeps_example :
    Grounded (happen early (beginning (codes "p0001") two_steps none true)).pipeline.steps
    × Keeps
        (happen early (beginning (codes "p0001") two_steps none true)).pipeline.steps
        (happen late (happen early (beginning (codes "p0001") two_steps none true))).pipeline.steps
happen-Keeps_example = happen-Keeps early late (codes "p0001") two_steps none true
