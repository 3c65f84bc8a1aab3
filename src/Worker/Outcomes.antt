-- ===== src/Worker/Outcomes.antt =====
-- A job whose first event Redis does not take (backend/app/execution/worker.py, `process`).
use code_collaborator.Base.{ℕ, ◌≡◌, refl, arith, false, some, ok, err}
use code_collaborator.Base.Dict.{lookup}
use code_collaborator.Models.{Execution, ExecutionStatus, queued, starting, transition_to}
use code_collaborator.Execution.{World}
use code_collaborator.Worker.{
  Run, publish_failed, commit, commit_publish, transition, transition_found, process,
}

abbrev pub with_status : ExecutionStatus → Execution → Execution
with_status s e = record e { status = s }

transition_to_starting :
    (e : Execution) → e.status ≡ queued → transition_to starting e ≡ ok (with_status starting e)
unfolding transition_to
transition_to_starting e is_queued = rw is_queued refl

unpublished_transition :
    (id : ℕ) (e : Execution) (w : World)
    → lookup id w.executions ≡ some e
    → e.status ≡ queued
    → transition false id queued starting w
      ≡ (err publish_failed, commit id (with_status starting e) w)
unfolding transition transition_found commit_publish
unpublished_transition id e w found is_queued =
    ground (arith, found, is_queued, transition_to_starting e is_queued)

pub unpublished_process :
    (run : Run) (id : ℕ) (e : Execution) (w : World)
    → lookup id w.executions ≡ some e
    → e.status ≡ queued
    → run.publish_starting ≡ false
    → process run id w ≡ (err publish_failed, commit id (with_status starting e) w)
unfolding process
unpublished_process run id e w found is_queued fails =
    rw fails (ground (arith, unpublished_transition id e w found is_queued))
