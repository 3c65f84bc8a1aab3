-- ===== src/Worker/Completion.antt =====
-- A job of the worker in which nothing fails (backend/app/execution/worker.py, `process`).
use code_collaborator.Base.{ℕ, true, Option, none, [], ◌∷◌, ◌++◌, ok, List}
use code_collaborator.Models.{Execution, ExecutionStatus, running}
use code_collaborator.Execution.{World, execution_status}
use code_collaborator.Worker.{Run, Outcome, with_outcome, commit, target_of, output_events}
use Prim.Native.String.{String}
use code_collaborator.Worker.Outcomes.{with_status}

-- The world after a row was committed and its event was published.
abbrev recorded : ℕ → Execution → World → World
recorded id e w =
    let w' = commit id e w in record w' { events = w'.events ++ execution_status e ∷ [] }

-- A run in which nothing outside the worker fails, and nobody cancels through the API: the container
-- prints before and while the job is running, and `_monitor` forces a status or none.
abbrev pub smooth_run :
    (before during : List (String × String)) → Option ExecutionStatus → ℕ → Outcome → Run
smooth_run before during forced exit_code outcome = record {
  publish_starting = true;
  publish_running = true;
  publish_finished = true;
  publish_failure = true;
  container = none;
  start = none;
  kill = none;
  wait = none;
  collect = none;
  monitored = ok forced;
  stream = true;
  printed_before = before;
  printed_running = during;
  printed_after = [];
  cancellations = [];
  exit_code = exit_code;
  outcome = outcome;
  failure = outcome;
}

abbrev printed : ℕ → List (String × String) → World → World
printed id texts w = record w { events = w.events ++ output_events id texts }

module _ (before during : List (String × String)) (forced : Option ExecutionStatus) (exit_code : ℕ)
    (outcome : Outcome) where
  abbrev run : Run
  run = smooth_run before during forced exit_code outcome

  abbrev target : ExecutionStatus
  target = target_of exit_code forced

  abbrev final_row : Execution → Execution
  final_row e = with_outcome outcome (with_status target e)

  -- The world once the job is running.
  abbrev when_running : ℕ → Execution → World → World
  when_running id e w = recorded id (with_status running e) (printed id before w)

  abbrev when_finished : ℕ → Execution → World → World
  when_finished id e w = recorded id (final_row e) (printed id during (when_running id e w))
