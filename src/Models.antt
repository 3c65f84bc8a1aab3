-- ===== src/Models.antt =====
-- backend/app/models.py: the enums, the role ranks, the execution state machine, and the rows of the
-- tables. UUIDs and timestamps are numbers, since they are only compared; column texts are `String`.
use code_collaborator.Base.{
  ℕ, Bool, false, Option, List, [], ◌∷◌, ◌==◌, ◌||◌, if◌then◌else◌, Result, ok, err,
}
use Prim.Native.String.{String}

-- `RoleEnum`
pub data Role : Type 0 where
  viewer editor owner : Role

pub data Language : Type 0 where
  python cpp javascript : Language

pub data ExecutionStatus : Type 0 where
  queued starting running completed failed timeout cancelled : ExecutionStatus

-- `ROLE_RANK`
abbrev pub role_rank : Role → ℕ
role_rank viewer = 0
role_rank editor = 1
role_rank owner = 2

-- `is` on the members of an enum.
abbrev pub same_role : Role → Role → Bool
same_role a b = role_rank a == role_rank b

abbrev pub status_number : ExecutionStatus → ℕ
status_number queued = 0
status_number starting = 1
status_number running = 2
status_number completed = 3
status_number failed = 4
status_number timeout = 5
status_number cancelled = 6

abbrev pub same_status : ExecutionStatus → ExecutionStatus → Bool
same_status a b = status_number a == status_number b

-- `status in {...}`
abbrev pub status_in : ExecutionStatus → List ExecutionStatus → Bool
status_in s [] = false
status_in s (t ∷ ts) = same_status s t || status_in s ts

-- `VALID_TRANSITIONS`
abbrev pub valid_transitions : ExecutionStatus → List ExecutionStatus
valid_transitions queued = starting ∷ cancelled ∷ []
valid_transitions starting = running ∷ failed ∷ []
valid_transitions running = completed ∷ failed ∷ timeout ∷ cancelled ∷ []
valid_transitions completed = []
valid_transitions failed = []
valid_transitions timeout = []
valid_transitions cancelled = []

pub record User : Type 0 where
  pub id : ℕ
  pub username : String

pub record Session : Type 0 where
  pub id : ℕ
  pub name : String
  pub language : Language
  pub owner_id : ℕ
  pub is_active : Bool
  pub updated_at : ℕ

pub record SessionMember : Type 0 where
  pub session_id : ℕ
  pub user_id : ℕ
  pub role : Role

pub record Execution : Type 0 where
  pub id : ℕ
  pub session_id : ℕ
  pub triggered_by : ℕ
  pub status : ExecutionStatus
  pub code : String
  pub language : Language
  pub stdout : Option String
  pub stderr : Option String
  pub exit_code : Option ℕ
  pub elapsed_ms : Option ℕ
  pub finished_at : Option ℕ

-- The `ValueError` of `transition_to`.
pub data TransitionError : Type 0 where
  invalid_transition : ExecutionStatus → ExecutionStatus → TransitionError

-- `Execution.transition_to`
unfoldable pub transition_to : ExecutionStatus → Execution → Result TransitionError Execution
transition_to new_status e =
    if status_in new_status (valid_transitions e.status)
    then ok (record e { status = new_status })
    else err (invalid_transition e.status new_status)
