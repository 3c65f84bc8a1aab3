-- ===== src/Execution.antt =====
-- backend/app/execution/service.py and queue.py: the execution table, the Redis queues, and the calls
-- of the API on them. The database commits where the source commits; the calls of Redis may fail, as
-- the arguments say. Execution ids and raw queue items are numbers.
pub mod Lifecycle
pub mod Requests
use code_collaborator.Base.{
  ℕ, ◌+◌, Bool, true, false, not, Option, none, some, List, [], ◌∷◌, ◌++◌, ◌==◌, if◌then◌else◌,
  Result, ok, err,
}
use code_collaborator.Base.Dict.{Dict, lookup, insert, erase}
use code_collaborator.Models.{
  Language, Execution, ExecutionStatus, queued, running, cancelled, same_status, status_in,
  transition_to, TransitionError,
}
use Prim.Native.String.{String}

-- What the worker publishes for the WebSocket rooms: the row of an execution, or a piece of output.
pub data Event : Type 0 where
  execution_status : Execution → Event
  execution_output : ℕ → String → String → Event

pub record World : Type 0 where
  pub executions : Dict Execution
  pub queue : List ℕ
  pub processing : List ℕ
  pub cancel_keys : List ℕ
  pub events : List Event

pub data ExecutionServiceError : Type 0 where
  execution_not_found : ExecutionServiceError
  execution_conflict : ExecutionStatus → ExecutionServiceError
  queue_unavailable : ExecutionServiceError
  -- `ValueError` of `transition_to`
  bad_transition : TransitionError → ExecutionServiceError

-- A call on the world. What was committed before a raise stays.
abbrev pub Call : Type 0 → Type 0
Call A = World → Result ExecutionServiceError A × World

-- The row that `create_queued_execution` adds.
abbrev pub new_execution : ℕ → ℕ → ℕ → String → Language → Execution
new_execution id session_id triggered_by code language = record {
  id = id;
  session_id = session_id;
  triggered_by = triggered_by;
  status = queued;
  code = code;
  language = language;
  stdout = none;
  stderr = none;
  exit_code = none;
  elapsed_ms = none;
  finished_at = none;
}

-- `ExecutionQueue.enqueue`: `redis_ok` says whether `rpush` succeeds.
abbrev pub enqueue : ℕ → World → World
enqueue raw w = record w { queue = w.queue ++ raw ∷ [] }

-- `ExecutionQueue.request_cancellation`: the key is set.
abbrev pub request_cancellation : ℕ → World → World
request_cancellation id w = record w { cancel_keys = id ∷ w.cancel_keys }

-- The first commit of `create_queued_execution`, and the deletion that it commits if Redis raises.
abbrev pub submit_row : (id session_id triggered_by : ℕ) → String → Language → World → World
submit_row id session_id triggered_by code language w = record w {
  executions = insert id (new_execution id session_id triggered_by code language) w.executions;
}

abbrev pub withdraw_row : ℕ → World → World
withdraw_row id w = record w { executions = erase id w.executions }

module _ (str : ℕ → ℕ) where
  -- `create_queued_execution` with nothing between its commits: commit, then hand the id to Redis, and
  -- undo the row if that fails. `str` prints an id as a queue item.
  unfoldable pub create_queued_execution :
      Bool → (id session_id triggered_by : ℕ) → String → Language → Call Execution
  create_queued_execution redis_ok id session_id triggered_by code language w =
      let committed = submit_row id session_id triggered_by code language w in
      if redis_ok
      then (ok (new_execution id session_id triggered_by code language), enqueue (str id) committed)
      else (err queue_unavailable, withdraw_row id committed)

-- `get_execution`: the row must belong to the session.
abbrev pub in_session : ℕ → Option Execution → Option Execution
in_session session_id none = none
in_session session_id (some e) = if e.session_id == session_id then some e else none

unfoldable pub get_execution : ℕ → ℕ → World → Option Execution
get_execution session_id id w = in_session session_id (lookup id w.executions)

-- The commit of `cancel_execution`, once the transition was made.
commit_cancelled : ℕ → ℕ → Result TransitionError Execution → Call Execution
commit_cancelled id now (err e) w = (err (bad_transition e), w)
commit_cancelled id now (ok e) w =
    let finished : Execution = record e { finished_at = some now } in
    (ok finished, record w { executions = insert id finished w.executions })

cancel_found : Bool → ℕ → ℕ → Option Execution → Call Execution
unfolding commit_cancelled
cancel_found redis_ok id now none w = (err execution_not_found, w)
cancel_found redis_ok id now (some e) w =
    if not (status_in e.status (queued ∷ running ∷ []))
    then (err (execution_conflict e.status), w)
    else if same_status e.status running
    then (if redis_ok
        then commit_cancelled id now (transition_to cancelled e) (request_cancellation id w)
        else (err queue_unavailable, w))
    else commit_cancelled id now (transition_to cancelled e) w

-- `cancel_execution`: a running execution is stopped through its Redis key, before the row changes.
unfoldable pub cancel_execution : Bool → (session_id id now : ℕ) → Call Execution
unfolding cancel_found
cancel_execution redis_ok session_id id now w =
    cancel_found redis_ok id now (get_execution session_id id w) w

-- `_raise_execution_error` of backend/app/execution/router.py; the `ValueError` of a transition is
-- raised on, and ends as an internal server error.
unfoldable pub http_status : ExecutionServiceError → ℕ
http_status execution_not_found = 404
http_status (execution_conflict _) = 409
http_status queue_unavailable = 503
http_status (bad_transition _) = 500
