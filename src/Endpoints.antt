-- ===== src/Endpoints.antt =====
-- The HTTP endpoints: what backend/app/sessions/router.py, execution/router.py and snapshots/router.py
-- do with the services, the live documents and the rooms. A request that raises `HTTPException` ends with
-- its status code, any other exception with 500. The lock of a room is held throughout an endpoint, so
-- its calls are run one after the other.
pub mod Members
pub mod Documents
pub mod Requests
pub mod Removal
use code_collaborator.Base.{
  ℕ, ◌≡◌, Bool, true, false, Option, none, some, List, [], ◌∷◌, Result, ok, err,
}
use code_collaborator.Sessions.{Db}
use code_collaborator.Models.{Role}
use code_collaborator.Access.{
  Access, AccessError, access_status, role_checker, require_current_editor,
}
use code_collaborator.Execution.{World}
use code_collaborator.Protocol.{PyText}
use code_collaborator.Document.{Crdt}
use code_collaborator.Hub.{Connection, room_of}
use code_collaborator.Rooms.{Room}
use Prim.Native.String.{String}

-- A row of `Snapshot`.
pub record Snapshot (State : Type 0) : Type 0 where
  pub id : ℕ
  pub session_id : ℕ
  pub created_by : ℕ
  pub label : String
  pub document_state : State
  pub size_bytes : ℕ

-- The tables of sessions, members and users, of executions with their queue, and of snapshots, and the
-- rooms with the live documents.
pub record App (Rooms State : Type 0) : Type 0 where
  pub db : Db
  pub world : World
  pub snapshots : List (Snapshot State)
  pub room : Rooms

-- A request on a state of type `S`: the result, or a status code.
abbrev pub Action : Type 0 → Type 0 → Type 0
Action S A = S → Result ℕ A × S

module _ {S : Type 0} where
  abbrev pub carry : {A B : Type 0} → Result ℕ A × S → (A → Action S B) → Result ℕ B × S
  carry (err status, s) next = (err status, s)
  carry (ok a, s) next = next a s

  infixl 5 ◌>>=◌
  abbrev pub ◌>>=◌ : {A B : Type 0} → Action S A → (A → Action S B) → Action S B
  (first >>= next) s = carry (first s) next

  abbrev pub answer : {A : Type 0} → A → Action S A
  answer a s = (ok a, s)

  -- `raise HTTPException(status_code=status)`, if the test holds
  abbrev pub refuse_if : Bool → ℕ → Action S (Unit {0})
  refuse_if false status s = (ok tt, s)
  refuse_if true status s = (err status, s)

  abbrev pub allowed_by : {A : Type 0} → Access A → Action S A
  allowed_by (ok a) s = (ok a, s)
  allowed_by (err e) s = (err (access_status e), s)

-- `Depends(RoleChecker(min_role))`, on the tables that the dependency read.
abbrev pub depends_on_role : {S : Type 0} → Role → Db → (sid caller : ℕ) → Action S ℕ
depends_on_role min_role asked sid caller = allowed_by (role_checker min_role asked sid caller)
