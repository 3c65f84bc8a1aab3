-- ===== src/Endpoints/Documents/Refusal.antt =====
-- No endpoint on a document does anything for a user who is no editor when it holds the lock of the room,
-- whatever the check before the lock has said.
use code_collaborator.Base.{
  ℕ, ◌≡◌, refl, Bool, length, ltb, ◌==◌, Bool-cases, Result-cases, inl, inr, err,
}
use code_collaborator.Lib0.{Bytes}
use code_collaborator.Models.{editor}
use code_collaborator.Sessions.{Db}
use code_collaborator.Access.{AccessError, access_status, role_checker, require_current_editor}
use code_collaborator.Protocol.{PyText}
use code_collaborator.Document.{Crdt}
use code_collaborator.Rooms.{Codec}
use code_collaborator.Endpoints.{answer, ◌>>=◌}
use code_collaborator.Endpoints.Documents.{
  Site, Handler, Met, crdt_max_update_bytes, save_session_document, save_locked, run_document,
  capture, cancel_execution_endpoint, create_snapshot_endpoint, restore_snapshot_endpoint,
  restore_locked,
}
use Prim.Native.String.{String}

-- The requests that work on a document, with their parameters and the keys and times of the server.
pub data DocumentRequest (Text : Type 0) : Type 0 where
  save : Text → (now : ℕ) → Bytes → DocumentRequest Text
  run : (id : ℕ) → DocumentRequest Text
  cancel : (id now : ℕ) → DocumentRequest Text
  take_snapshot : (id : ℕ) → String → DocumentRequest Text
  restore : (id : ℕ) → DocumentRequest Text

module _ (py : PyText) (crdt : Crdt) (codec : Codec py crdt) (alive : ℕ → Bool)
    (met : Met crdt.State) (as_code : crdt.Text → String) (str : ℕ → ℕ)
    (strip : String → String) where
  open crdt use {State}

  abbrev done_with : {A : Type 0} → Handler py crdt A → Handler py crdt (Unit {0})
  done_with request = request >>= (λ _. answer tt)

  -- The dispatch of the routers.
  unfoldable pub route_document :
      Db → (sid caller : ℕ) → DocumentRequest py.Text → Handler py crdt (Unit {0})
  route_document asked sid caller (save name now bytes) =
      done_with (save_session_document py crdt codec alive met asked sid caller name now bytes)
  route_document asked sid caller (run id) =
      done_with (run_document py crdt codec alive met as_code str asked sid caller id)
  route_document asked sid caller (cancel id now) =
      done_with (cancel_execution_endpoint py crdt codec alive met asked sid caller id now)
  route_document asked sid caller (take_snapshot id label) =
      done_with (create_snapshot_endpoint py crdt codec alive met strip asked sid caller id label)
  route_document asked sid caller (restore id) =
      done_with (restore_snapshot_endpoint py crdt codec alive met asked sid caller id)

  abbrev Refused : Handler py crdt (Unit {0}) → Site py crdt → Type 0
  Refused request s = (status : ℕ) × (request s ≡ (err status, s))

  module _ (asked : Db) (sid caller : ℕ) (s : Site py crdt) (e : AccessError)
      (no_editor : require_current_editor s.db sid caller ≡ err e) where
    save-Refused :
        (name : py.Text) (now : ℕ) (bytes : Bytes)
        → Refused (route_document asked sid caller (save name now bytes)) s
    unfolding route_document save_session_document save_locked
    save-Refused name now bytes = elim (Result-cases (role_checker editor asked sid caller)) [
      | inr (x, refused) ↦ (access_status x, rw refused refl)
      | inl (_, permitted) ↦ elim (Bool-cases (length bytes == 0)) [
        | inl empty ↦ (422, rw (permitted, empty) refl)
        | inr some_bytes ↦ elim (Bool-cases (ltb crdt_max_update_bytes (length bytes))) [
          | inl large ↦ (413, rw (permitted, some_bytes, large) refl)
          | inr small ↦ (access_status e, rw (permitted, some_bytes, small, no_editor) refl)
        ]
      ]
    ]

    run-Refused : (id : ℕ) → Refused (route_document asked sid caller (run id)) s
    unfolding route_document run_document capture
    run-Refused id = elim (Result-cases (role_checker editor asked sid caller)) [
      | inr (x, refused) ↦ (access_status x, rw refused refl)
      | inl (_, permitted) ↦ (access_status e, rw (permitted, no_editor) refl)
    ]

    cancel-Refused : (id now : ℕ) → Refused (route_document asked sid caller (cancel id now)) s
    unfolding route_document cancel_execution_endpoint
    cancel-Refused id now = elim (Result-cases (role_checker editor asked sid caller)) [
      | inr (x, refused) ↦ (access_status x, rw refused refl)
      | inl (_, permitted) ↦ (access_status e, rw (permitted, no_editor) refl)
    ]

    take_snapshot-Refused :
        (id : ℕ) (label : String)
        → Refused (route_document asked sid caller (take_snapshot id label)) s
    unfolding route_document create_snapshot_endpoint
    take_snapshot-Refused id label = elim (Result-cases (role_checker editor asked sid caller)) [
      | inr (x, refused) ↦ (access_status x, rw refused refl)
      | inl (_, permitted) ↦ (access_status e, rw (permitted, no_editor) refl)
    ]

    restore-Refused : (id : ℕ) → Refused (route_document asked sid caller (restore id)) s
    unfolding route_document restore_snapshot_endpoint restore_locked
    restore-Refused id = elim (Result-cases (role_checker editor asked sid caller)) [
      | inr (x, refused) ↦ (access_status x, rw refused refl)
      | inl (_, permitted) ↦ (access_status e, rw (permitted, no_editor) refl)
    ]

  -- A save, run, cancellation, snapshot or restore whose user is no editor once it holds the lock is
  -- answered with an error status, and the tables, the queue, the documents, the rooms and what was sent
  -- are as before, whatever the tables were when the request's dependencies were checked.
  pub refused_request_changes_nothing :
      (asked : Db) (sid caller : ℕ) (s : Site py crdt) (e : AccessError)
      (request : DocumentRequest py.Text)
      → require_current_editor s.db sid caller ≡ err e
      → (status : ℕ) × (route_document asked sid caller request s ≡ (err status, s))
  refused_request_changes_nothing asked sid caller s e (save name now bytes) no_editor =
      save-Refused asked sid caller s e no_editor name now bytes
  refused_request_changes_nothing asked sid caller s e (run id) no_editor =
      run-Refused asked sid caller s e no_editor id
  refused_request_changes_nothing asked sid caller s e (cancel id now) no_editor =
      cancel-Refused asked sid caller s e no_editor id now
  refused_request_changes_nothing asked sid caller s e (take_snapshot id label) no_editor =
      take_snapshot-Refused asked sid caller s e no_editor id label
  refused_request_changes_nothing asked sid caller s e (restore id) no_editor =
      restore-Refused asked sid caller s e no_editor id
