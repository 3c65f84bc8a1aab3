-- ===== src/Worker.antt =====
-- backend/app/execution/worker.py: one worker that claims queued executions, runs each in a container,
-- and records how it ended. Docker, the clock and Redis answer as the `Run` of a job says.
pub mod Ending
pub mod Recovery
pub mod Outcomes
pub mod Stuck
pub mod Monitoring
pub mod Completion
pub mod Output
pub mod History
use code_collaborator.Base.{
  ℕ, ◌+◌, Bool, true, false, not, Option, none, some, List, [], ◌∷◌, ◌++◌, map, ◌==◌, filterb,
  if◌then◌else◌, Result, ok, err,
}
use code_collaborator.Base.Dict.{Dict, lookup, insert}
use code_collaborator.Models.{
  Execution, ExecutionStatus, queued, starting, running, completed, failed, timeout, cancelled,
  same_status, status_in, transition_to, TransitionError,
}
use code_collaborator.Execution.{World, Event, execution_status, execution_output, cancel_execution}
use Prim.Native.String.{String}

-- What ends a step of the worker early: Redis could not publish, a transition was refused, or Docker
-- raised with a message.
pub data Fault : Type 0 where
  publish_failed : Fault
  refused : TransitionError → Fault
  docker : String → Fault

abbrev pub Step : Type 0 → Type 0
Step A = World → Result Fault A × World

infixl 5 ◌>>=◌ ◌>>◌
abbrev pub ◌>>=◌ : {A B : Type 0} → Step A → (A → Step B) → Step B
◌>>=◌ m f w = let (r, w') = m w in elim r [ ok a ↦ f a w' | err e ↦ (err e, w') ]

abbrev pub ◌>>◌ : {A B : Type 0} → Step A → Step B → Step B
m >> k = m >>= λ _. k

abbrev pub pure : {A : Type 0} → A → Step A
pure a w = (ok a, w)

abbrev pub docker_call : Option String → Step (Unit {0})
docker_call none w = (ok tt, w)
docker_call (some message) w = (err (docker message), w)

-- `_publish`
abbrev pub publish : Bool → Event → Step (Unit {0})
publish true event w = (ok tt, record w { events = w.events ++ event ∷ [] })
publish false event w = (err publish_failed, w)

-- `db.commit()` of a row.
abbrev pub commit : ℕ → Execution → World → World
commit id e w = record w { executions = insert id e w.executions }

-- The rest of `_transition` and `_finish`, after the transition was tried: commit, then publish.
unfoldable pub commit_publish : Bool → ℕ → Result TransitionError Execution → Step Execution
commit_publish redis_ok id (err e) w = (err (refused e), w)
commit_publish redis_ok id (ok e) w =
    (publish redis_ok (execution_status e) >> pure e) (commit id e w)

unfoldable pub transition_found :
    Bool → ℕ → ExecutionStatus → ExecutionStatus → Option Execution → Step (Option Execution)
transition_found redis_ok id expected target none w = (ok none, w)
transition_found redis_ok id expected target (some e) w =
    if not (same_status e.status expected)
    then (ok none, w)
    else (commit_publish redis_ok id (transition_to target e) >>= λ e'. pure (some e')) w

-- `_transition`: `none` if the row is gone or not in the expected state.
unfoldable pub transition : Bool → ℕ → ExecutionStatus → ExecutionStatus → Step (Option Execution)
transition redis_ok id expected target w =
    transition_found redis_ok id expected target (lookup id w.executions) w

-- The result columns that `_finish` writes.
pub record Outcome : Type 0 where
  pub stdout : String
  pub stderr : String
  pub exit_code : Option ℕ
  pub elapsed_ms : ℕ
  pub finished_at : ℕ

abbrev pub with_outcome : Outcome → Execution → Execution
with_outcome o e = record e {
  stdout = some o.stdout;
  stderr = some o.stderr;
  exit_code = o.exit_code;
  elapsed_ms = some o.elapsed_ms;
  finished_at = some o.finished_at;
}

-- `if execution.status is not CANCELLED: execution.transition_to(target)`, and the result columns.
unfoldable pub finished : ExecutionStatus → Outcome → Execution → Result TransitionError Execution
finished target o e =
    if same_status e.status cancelled
    then ok (with_outcome o e)
    else elim (transition_to target e) [ ok e' ↦ ok (with_outcome o e') | err x ↦ err x ]

unfoldable pub finish_found :
    Bool → ℕ → ExecutionStatus → Outcome → Option Execution → Step (Unit {0})
finish_found redis_ok id target o none w = (ok tt, w)
finish_found redis_ok id target o (some e) w =
    (commit_publish redis_ok id (finished target o e) >> pure tt) w

-- `_finish`
unfoldable pub finish : Bool → ℕ → ExecutionStatus → Outcome → Step (Unit {0})
finish redis_ok id target o w = finish_found redis_ok id target o (lookup id w.executions) w

-- A cancellation that the API handles while the container runs.
pub record Cancellation : Type 0 where
  pub redis_ok : Bool
  pub session_id : ℕ
  pub execution_id : ℕ
  pub now : ℕ

abbrev pub cancel_all : List Cancellation → World → World
cancel_all [] w = w
cancel_all (c ∷ cs) w =
    cancel_all cs (cancel_execution c.redis_ok c.session_id c.execution_id c.now w).1

-- How everything outside answers during one job. `container`, `start`, `kill`, `wait`, `collect`: the
-- message that Docker raises there, if it raises. `monitored` is what `_monitor` returned or raised.
-- `printed_before`, `printed_running` and `printed_after` are the streams and texts that the task of
-- `_stream_output` publishes before the job is running, while it is awaited, and once the job is being
-- cleaned up (none if the task was awaited before); `stream` says whether it ends without an exception.
pub record Run : Type 0 where
  pub publish_starting : Bool
  pub publish_running : Bool
  pub publish_finished : Bool
  pub publish_failure : Bool
  pub container : Option String
  pub start : Option String
  pub kill : Option String
  pub wait : Option String
  pub collect : Option String
  pub monitored : Result String (Option ExecutionStatus)
  pub stream : Bool
  pub printed_before : List (String × String)
  pub printed_running : List (String × String)
  pub printed_after : List (String × String)
  pub cancellations : List Cancellation
  pub exit_code : ℕ
  pub outcome : Outcome
  pub failure : Outcome

abbrev pub target_of : ℕ → Option ExecutionStatus → ExecutionStatus
target_of exit_code (some status) = status
target_of exit_code none = if exit_code == 0 then completed else failed

-- The API acts while the worker waits.
abbrev pub meanwhile : List Cancellation → Step (Unit {0})
meanwhile cs w = (ok tt, cancel_all cs w)

-- `_publish_output`, called by the task that streams.
abbrev pub output_events : ℕ → List (String × String) → List Event
output_events id printed = map (λ p. execution_output id p.0 p.1) printed

abbrev pub stream_out : ℕ → List (String × String) → Step (Unit {0})
stream_out id printed w = (ok tt, record w { events = w.events ++ output_events id printed })

-- `await stream_task`: what the task raised is raised here.
abbrev pub await_stream : Bool → Step (Unit {0})
await_stream true w = (ok tt, w)
await_stream false w = (err publish_failed, w)

abbrev pub returned : {A : Type 0} → Result String A → Step A
returned (ok a) w = (ok a, w)
returned (err message) w = (err (docker message), w)

-- The wait for the container and what it printed, up to `_finish`.
unfoldable pub run_forced : Run → ℕ → Option ExecutionStatus → Step (Unit {0})
run_forced run id forced =
    docker_call run.wait
    >> await_stream run.stream
    >> docker_call run.collect
    >> finish run.publish_finished id (target_of run.exit_code forced) run.outcome

-- The `try` block of `process` behind the second transition.
unfoldable pub run_started : Run → ℕ → Option Execution → Step (Unit {0})
run_started run id none = docker_call run.kill
run_started run id (some _) =
    meanwhile run.cancellations
    >> stream_out id run.printed_running
    >> returned run.monitored
    >>= run_forced run id

-- The `try` block of `process`.
unfoldable pub run_claimed : Run → ℕ → Step (Unit {0})
run_claimed run id =
    docker_call run.container
    >> docker_call run.start
    >> stream_out id run.printed_before
    >> transition run.publish_running id starting running
    >>= run_started run id

-- `except Exception`: the failure is recorded.
unfoldable pub recovered : Run → ℕ → Result Fault (Unit {0}) → Step (Unit {0})
recovered run id (ok _) = pure tt
recovered run id (err _) = finish run.publish_failure id failed run.failure

-- `finally`: the cancellation key is deleted, and the task that streams is given some time to end.
abbrev pub drop_key : ℕ → World → World
drop_key id w = record w { cancel_keys = filterb (λ k. not (k == id)) w.cancel_keys }

unfoldable pub run_guarded : Run → ℕ → Option Execution → Step (Unit {0})
run_guarded run id none w = (ok tt, w)
run_guarded run id (some _) w =
    let (r, w1) = run_claimed run id w in
    let (r', w2) = recovered run id r w1 in
    (r', (stream_out id run.printed_after (drop_key id w2)).1)

-- `process`
unfoldable pub process : Run → ℕ → Step (Unit {0})
process run id = transition run.publish_starting id queued starting >>= run_guarded run id

-- `lrem(key, 0, raw)` on the processing list.
abbrev pub acknowledge : ℕ → World → World
acknowledge raw w = record w { processing = filterb (λ r. not (r == raw)) w.processing }

-- `blmove`: the oldest item of the queue goes to the end of the processing list.
abbrev pub claim : ℕ → List ℕ → World → World
claim raw rest w = record w { queue = rest; processing = w.processing ++ raw ∷ [] }

module _ (uuid : ℕ → Option ℕ) where
  -- The body of the loop of `run` for a claimed item; a fault ends the worker, after `finally`.
  unfoldable pub handle : Run → ℕ → Option ℕ → Step (Unit {0})
  handle run raw none w = (ok tt, acknowledge raw w)
  handle run raw (some id) w = let (r, w') = process run id w in (r, acknowledge raw w')

  claim_next : Run → List ℕ → Step (Unit {0})
  unfolding handle
  claim_next run [] w = (ok tt, w)
  claim_next run (raw ∷ rest) w = handle run raw (uuid raw) (claim raw rest w)

  -- One round of the loop of `run`; on an empty queue it waits.
  unfoldable pub run_once : Run → Step (Unit {0})
  unfolding claim_next
  run_once run w = claim_next run w.queue w

  -- The row part of one round of `_recover_processing`, with the row that it leaves.
  unfoldable pub interrupted : ℕ → Execution → Result TransitionError Execution
  interrupted now e = elim (transition_to failed e) [
    | err x ↦ err x
    | ok e' ↦ ok (record e' {
      stderr = some "Execution worker restarted before completion.";
      finished_at = some now;
    })
  ]

  unfoldable pub recover_row : ℕ → ℕ → ℕ → Option Execution → Step (Option Execution)
  recover_row raw id now none w = (ok none, w)
  recover_row raw id now (some e) w =
      if same_status e.status queued
      then (ok (some e), record w { queue = w.queue ++ raw ∷ [] })
      else if status_in e.status (starting ∷ running ∷ [])
      then elim (interrupted now e) [
        | err x ↦ (err (refused x), w)
        | ok e' ↦ (ok (some e'), commit id e' w)
      ]
      else (ok (some e), w)

  -- `if execution is not None and execution.status is ExecutionStatus.FAILED`
  unfoldable pub publish_failed_row : Bool → Option Execution → Step (Unit {0})
  publish_failed_row redis_ok none w = (ok tt, w)
  publish_failed_row redis_ok (some e) w =
      if same_status e.status failed then publish redis_ok (execution_status e) w else (ok tt, w)

  unfoldable pub recover_item : Bool → ℕ → ℕ → Option ℕ → Step (Unit {0})
  recover_item redis_ok raw now none w = (ok tt, w)
  recover_item redis_ok raw now (some id) w =
      (recover_row raw id now (lookup id w.executions) >>= publish_failed_row redis_ok) w

  -- The loop of `_recover_processing`, over the items that `lrange` returned. `redis_ok raw` says
  -- whether the event of an item can be published; if not, the worker ends there.
  unfoldable pub recover_items : (ℕ → Bool) → ℕ → List ℕ → Step (Unit {0})
  recover_items redis_ok now [] w = (ok tt, w)
  recover_items redis_ok now (raw ∷ raws) w =
      (recover_item (redis_ok raw) raw now (uuid raw) >>= λ _ w'.
      recover_items redis_ok now raws (acknowledge raw w'))
        w

  unfoldable pub recover_processing : (ℕ → Bool) → ℕ → Step (Unit {0})
  recover_processing redis_ok now w = recover_items redis_ok now w.processing w
