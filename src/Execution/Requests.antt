-- ===== src/Execution/Requests.antt =====
-- The API's calls of execution/service.py: what each leaves in the table and in Redis.
use code_collaborator.Base.{
  ℕ, Bool, true, false, Option, none, some, [], ◌∷◌, ◌++◌, ◌==◌, ◌&&◌, ◌||◌, if◌then◌else◌, ◌≡◌,
  refl, arith, ok, err, Result, ◌⊎◌, ◌∙◌, Bool-cases, Option-cases, inl, inr,
}
use code_collaborator.Base.Dict.{lookup, insert, lookup-insert, lookup-erase}
use code_collaborator.Models.{
  Language, Execution, status_in, same_status, valid_transitions, transition_to, queued, running,
  cancelled,
}
use code_collaborator.Execution.{
  World, ExecutionServiceError, execution_not_found, execution_conflict, queue_unavailable,
  new_execution, create_queued_execution, get_execution, in_session, cancel_execution, cancel_found,
}
use code_collaborator.Execution.Lifecycle.{stay, move, Follows, Follows-same, Follows-insert}
use Prim.Native.String.{String}

-- A submission is all or nothing: if Redis accepts the job, the new row is in the table as queued and
-- its id is the last of the queue; if not, the caller gets the queue error, and under no id does the
-- table hold another row than before. The new id is one that the table does not have yet.
pub create_queued_execution_atomic :
    (str : ℕ → ℕ) (id session_id triggered_by : ℕ) (code : String) (language : Language) (w : World)
    → lookup id w.executions ≡ none
    → (let (r, w') = create_queued_execution str true id session_id triggered_by code language w in
        (r ≡ ok (new_execution id session_id triggered_by code language))
        × (lookup id w'.executions ≡ some (new_execution id session_id triggered_by code language))
        × (w'.queue ≡ w.queue ++ str id ∷ []))
      × (let (r, w') =
            create_queued_execution str false id session_id triggered_by code language w in
          (r ≡ err queue_unavailable)
          × (w'.queue ≡ w.queue)
          × ((j : ℕ) → lookup j w'.executions ≡ lookup j w.executions))
unfolding create_queued_execution
create_queued_execution_atomic str id session_id triggered_by code language w absent =
    let new = new_execution id session_id triggered_by code language in
    (
      (refl, lookup-insert id id new w.executions ∙ ground arith, refl),
      (
        refl,
        refl,
        λ j. ground (
          arith,
          lookup-erase id j (insert id new w.executions),
          lookup-insert id j new w.executions,
        ),
      ),
    )

-- What `cancel_execution` does to the row of an execution, by its status.
abbrev pub cancel_spec : Bool → ℕ → Execution → Result ExecutionServiceError Execution
cancel_spec redis_ok now e =
    let gone : Execution = record e { status = cancelled; finished_at = some now } in
    if same_status e.status queued
    then ok gone
    else if same_status e.status running
    then (if redis_ok then ok gone else err queue_unavailable)
    else err (execution_conflict e.status)

abbrev pub row_after : Option Execution → Result ExecutionServiceError Execution → Option Execution
row_after before (ok e) = some e
row_after before (err _) = before

abbrev cancelled_row : ℕ → Execution → Execution
cancelled_row now e = record e { status = cancelled; finished_at = some now }

cancel_found_row :
    (redis_ok : Bool) (id now j : ℕ) (e : Execution) (w : World)
    → let (r, w') = cancel_found redis_ok id now (some e) w in
      lookup j w'.executions
      ≡ (if id == j then row_after (lookup id w.executions) r else lookup j w.executions)
unfolding cancel_found transition_to
cancel_found_row redis_ok id now j e w =
    ground (arith, lookup-insert id j (cancelled_row now e) w.executions)

cancel_found_queues :
    (redis_ok : Bool) (id now : ℕ) (e : Execution) (w : World)
    → let (r, w') = cancel_found redis_ok id now (some e) w in
      (r ≡ cancel_spec redis_ok now e)
      × (w'.queue ≡ w.queue)
      × (same_status e.status running ≡ true
          → redis_ok ≡ true
          → w'.cancel_keys ≡ id ∷ w.cancel_keys)
unfolding cancel_found transition_to
cancel_found_queues redis_ok id now e w =
    (ground arith, ground arith, λ is_running ok_now. ground arith)

pub cancel_execution_lem :
    (redis_ok : Bool) (session_id id now : ℕ) (w : World)
    → let (r, w') = cancel_execution redis_ok session_id id now w in
      (get_execution session_id id w ≡ none → (r ≡ err execution_not_found) × (w' ≡ w))
      × ((e : Execution)
          → get_execution session_id id w ≡ some e
          → (r ≡ cancel_spec redis_ok now e)
            × ((j : ℕ)
                → lookup j w'.executions ≡ (
                    if id == j
                    then row_after (lookup id w.executions) r
                    else lookup j w.executions))
            × (w'.queue ≡ w.queue)
            × (same_status e.status running ≡ true
                → redis_ok ≡ true
                → w'.cancel_keys ≡ id ∷ w.cancel_keys))
unfolding cancel_execution
cancel_execution_lem redis_ok session_id id now w = (
  λ absent. rw absent (refl, refl),
  λ e found.
      let (result, queue, key) = cancel_found_queues redis_ok id now e w in
      rw found (result, λ j. cancel_found_row redis_ok id now j e w, queue, key),
)

cancel_found_table :
    (redis_ok : Bool) (id now : ℕ) (e : Execution) (w : World)
    → let w' = (cancel_found redis_ok id now (some e) w).1 in
      (w'.executions ≡ w.executions)
      ⊎ ((w'.executions ≡ insert id (cancelled_row now e) w.executions)
          × (status_in cancelled (valid_transitions e.status) ≡ true))
unfolding cancel_found transition_to
cancel_found_table redis_ok id now e w =
    elim (Bool-cases (same_status e.status queued || (same_status e.status running && redis_ok))) [
      | inl may ↦ inr (ground arith, ground arith)
      | inr not_now ↦ inl (ground arith)
    ]

in_session-found :
    (session_id : ℕ) (o : Option Execution) {e : Execution}
    → in_session session_id o ≡ some e
    → o ≡ some e
in_session-found session_id none h = cc
in_session-found session_id (some e) h = ground arith

pub cancel_execution-Follows :
    (redis_ok : Bool) (session_id id now : ℕ) (w : World)
    → Follows w (cancel_execution redis_ok session_id id now w).1
unfolding cancel_execution
cancel_execution-Follows redis_ok session_id id now w =
    elim (Option-cases (get_execution session_id id w)) [
      | inl absent ↦ rw absent (Follows-same w w refl)
      | inr (e, found) ↦ rw found (follows e found)
    ]
  where
    follows :
        (e : Execution)
        → get_execution session_id id w ≡ some e
        → Follows w (cancel_found redis_ok id now (some e) w).1
    follows e found =
        let w' = (cancel_found redis_ok id now (some e) w).1 in
        let row : lookup id w.executions ≡ some e =
          unfold get_execution in in_session-found session_id (lookup id w.executions) found in
        elim (cancel_found_table redis_ok id now e w) [
          | inl same ↦ Follows-same w w' same
          | inr (written, allowed) ↦
              Follows-insert w w' id e (cancelled_row now e) row
                (record { trace = move stay allowed; same_session = refl; same_code = refl })
                written
        ]
