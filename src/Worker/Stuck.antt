-- ===== src/Worker/Stuck.antt =====
-- backend/app/execution/worker.py: a claimed job whose first event cannot be published, and the recovery at
-- the next start of the worker.
use code_collaborator.Base.{ℕ, ◌≡◌, some}
use code_collaborator.Base.Dict.{lookup}
use code_collaborator.Models.{Execution}
use code_collaborator.Execution.{World}
use code_collaborator.Worker.{Step}

-- A step that leaves this row as it is.
abbrev Spares : {A : Type 0} → ℕ → Execution → Step A → Type 0
Spares id e m =
    (w : World) → lookup id w.executions ≡ some e → lookup id (m w).1.executions ≡ some e
