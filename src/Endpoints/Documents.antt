-- ===== src/Endpoints/Documents.antt =====
-- The endpoints that work on a live document: the save of backend/app/sessions/router.py, the runs and
-- cancellations of backend/app/execution/router.py, and the snapshots of backend/app/snapshots/router.py
-- with backend/app/snapshots/service.py.
pub mod Refusal
pub mod Effects
use code_collaborator.Base.{
  ℕ, ◌*◌, Bool, true, false, ◌&&◌, Option, none, some, List, [], ◌∷◌, length, ltb, ◌==◌,
  if◌then◌else◌, Result, ok, err,
}
use code_collaborator.Base.Dict.{lookup}
use code_collaborator.Lib0.{Bytes}
use code_collaborator.Models.{Role, editor, Language, Session, Execution}
use code_collaborator.Sessions.{Db}
use code_collaborator.Access.{role_checker, require_current_editor}
use code_collaborator.Execution.{
  World, ExecutionServiceError, create_queued_execution, cancel_execution,
}
use code_collaborator.Protocol.{PyText}
use code_collaborator.Document.{
  Crdt, Documents, DocumentError, DocumentSaveResult, Answers, apply_update, encode_state_as_update,
  read_text, restore_text_from_state,
}
use code_collaborator.Document.Storage.{
  load_from_storage, persist_to_db, checkpoint_to_redis, checkpoint_and_remove,
}
use code_collaborator.Hub.{Connection, room_of}
use code_collaborator.Rooms.{
  Room, Codec, Reply, broadcast_document_update, broadcast_document_saved,
}
use code_collaborator.Endpoints.{
  App, Snapshot, Action, answer, carry, ◌>>=◌, refuse_if, allowed_by, depends_on_role,
}
use Prim.Native.String.{String}

-- `settings.crdt_max_update_bytes`
abbrev pub crdt_max_update_bytes : ℕ
crdt_max_update_bytes = 5 * 1024 * 1024

-- What a request meets: how the stores answer the load and the save, whether Redis takes the checkpoint
-- and the job, and the updates of clients that arrive while the save and the checkpoint are written.
pub record Met (State : Type 0) : Type 0 where
  pub on_load : Answers
  pub on_save : Answers
  pub redis_ok : Bool
  pub during_save : List State
  pub during_checkpoint : List State

-- `bool(_rooms.get(session_id))`
abbrev pub is_occupied : Option (List Connection) → Bool
is_occupied none = false
is_occupied (some []) = false
is_occupied (some (c ∷ cs)) = true

module _ (py : PyText) (crdt : Crdt) where
  open crdt use {Doc, State, Vector, Hash, Text, size}

  abbrev pub Site : Type 0
  Site = App (Room py crdt) State

  abbrev pub Handler : Type 0 → Type 0
  Handler A = Action Site A

  abbrev pub on_found : {A : Type 0} → ℕ → Result DocumentError A × Documents crdt → Handler A
  on_found status (err e, docs) s =
      let room = s.room in (err status, record s { room = record room { docs = docs } })
  on_found status (ok a, docs) s =
      let room = s.room in (ok a, record s { room = record room { docs = docs } })

  -- A call on the documents; what it raises ends the request with `status`.
  abbrev pub on_documents :
      {A : Type 0} → ℕ → (Documents crdt → Result DocumentError A × Documents crdt) → Handler A
  on_documents status call s = on_found status (call s.room.docs) s

  -- A call whose exceptions are logged.
  abbrev pub logged :
      {A : Type 0} → (Documents crdt → Result DocumentError A × Documents crdt) → Handler (Unit {0})
  logged call s =
      let room = s.room in (ok tt, record s { room = record room { docs = (call room.docs).1 } })

  abbrev pub on_reply : Reply py crdt → Handler (Unit {0})
  on_reply (err e, room) s = (err 500, record s { room = room })
  on_reply (ok _, room) s = (ok tt, record s { room = room })

  abbrev pub on_room : (Room py crdt → Reply py crdt) → Handler (Unit {0})
  on_room call s = on_reply (call s.room) s

  -- `_require_current_editor`, under the lock.
  abbrev pub current_editor : (sid caller : ℕ) → Handler (Unit {0})
  current_editor sid caller s = allowed_by (require_current_editor s.db sid caller) s

  abbrev pub has_connections : ℕ → Handler Bool
  has_connections sid s = (ok (is_occupied (s.room.hub.rooms sid)), s)

  -- The recovery copy after a change: an orphan document is evicted.
  abbrev pub checkpoint : Met State → (sid : ℕ) → Bool → Handler (Unit {0})
  checkpoint met sid true = logged (checkpoint_to_redis crdt met.redis_ok met.during_checkpoint sid)
  checkpoint met sid false =
      logged (checkpoint_and_remove crdt met.redis_ok met.during_checkpoint sid)

  abbrev pub evict_orphan : Met State → (sid : ℕ) → Bool → Handler (Unit {0})
  evict_orphan met sid true s = (ok tt, s)
  evict_orphan met sid false s =
      logged (checkpoint_and_remove crdt met.redis_ok met.during_checkpoint sid) s

  module _ (codec : Codec py crdt) (alive : ℕ → Bool) (met : Met State) where
    -- `save_session_document`, under the lock of the room; `now` is the time of the commit.
    unfoldable pub save_locked :
        (sid caller now : ℕ) → Bytes → Handler (DocumentSaveResult Vector Hash)
    save_locked sid caller now bytes = do
      occupied ← has_connections sid
      _ ← current_editor sid caller
      _ ← on_documents 500 (load_from_storage crdt met.on_load sid)
      _ ← on_documents 422 (apply_update crdt sid (codec.as_state bytes))
      result ← on_documents 500 (persist_to_db crdt met.on_save met.during_save now sid)
      _ ← checkpoint met sid occupied
      answer result

    unfoldable pub save_session_document :
        Db
        → (sid caller : ℕ) (name : py.Text) (now : ℕ) → Bytes
        → Handler (DocumentSaveResult Vector Hash)
    unfolding save_locked
    save_session_document asked sid caller name now bytes = do
      _ ← depends_on_role editor asked sid caller
      _ ← refuse_if (length bytes == 0) 422
      _ ← refuse_if (ltb crdt_max_update_bytes (length bytes)) 413
      result ← save_locked sid caller now bytes
      _ ← on_room (broadcast_document_update py crdt codec alive sid bytes)
      _ ← on_room (
          broadcast_document_saved py crdt codec alive sid result.saved_at result.state_vector
            result.state_hash result.dirty name)
      answer result

    -- `_raise_execution_error`
    abbrev pub on_execution : {A : Type 0} → Result ExecutionServiceError A × World → Handler A
    on_execution (err e, world) s =
        (err (code_collaborator.Execution.http_status e), record s { world = world })
    on_execution (ok a, world) s = (ok a, record s { world = world })

    abbrev pub session_or_404 : Option Session → Handler Session
    session_or_404 none s = (err 404, s)
    session_or_404 (some session) s = (ok session, s)

    -- The part of `run_document` under the lock: the text and the language of the job. `as_code` is the
    -- text of a document as the column holds it.
    module _ (as_code : Text → String) (str : ℕ → ℕ) where
      unfoldable pub capture : (sid caller : ℕ) → Handler (String × Language)
      capture sid caller = do
        occupied ← has_connections sid
        _ ← current_editor sid caller
        session ← λ s. session_or_404 (lookup sid s.db.sessions) s
        _ ← on_documents 500 (load_from_storage crdt met.on_load sid)
        code ← λ s. answer (as_code (read_text crdt sid s.room.docs)) s
        _ ← evict_orphan met sid occupied
        answer (code, session.language)

      -- `run_document`; `id` is the key of the new row, and `str` prints it as a queue item.
      unfoldable pub run_document : Db → (sid caller id : ℕ) → Handler Execution
      unfolding capture
      run_document asked sid caller id = do
        _ ← depends_on_role editor asked sid caller
        (code, language) ← capture sid caller
        λ s.
            on_execution
              (create_queued_execution str met.redis_ok id sid caller code language s.world) s

    unfoldable pub cancel_execution_endpoint : Db → (sid caller id now : ℕ) → Handler Execution
    cancel_execution_endpoint asked sid caller id now = do
      _ ← depends_on_role editor asked sid caller
      _ ← current_editor sid caller
      λ s. on_execution (cancel_execution met.redis_ok sid id now s.world) s

    -- `create_snapshot`: `strip` is that of the label.
    unfoldable pub create_snapshot :
        (strip : String → String) (id sid caller : ℕ) → String → State → Handler (Snapshot State)
    create_snapshot strip id sid caller label state s =
        let snapshot : Snapshot State = record {
          id = id;
          session_id = sid;
          created_by = caller;
          label = strip label;
          document_state = state;
          size_bytes = size state;
        } in
        (ok snapshot, record s { snapshots = snapshot ∷ s.snapshots })

    -- `get_snapshot`
    unfoldable pub get_snapshot : (sid id : ℕ) → List (Snapshot State) → Option (Snapshot State)
    get_snapshot sid id [] = none
    get_snapshot sid id (x ∷ xs) =
        if x.id == id && x.session_id == sid then some x else get_snapshot sid id xs

    unfoldable pub create_snapshot_endpoint :
        (strip : String → String) → Db → (sid caller id : ℕ) → String → Handler (Snapshot State)
    create_snapshot_endpoint strip asked sid caller id label = do
      _ ← depends_on_role editor asked sid caller
      occupied ← has_connections sid
      _ ← current_editor sid caller
      _ ← on_documents 500 (load_from_storage crdt met.on_load sid)
      state ← on_documents 500 (encode_state_as_update crdt sid none)
      _ ← refuse_if (ltb crdt_max_update_bytes (size state)) 413
      snapshot ← create_snapshot strip id sid caller label state
      _ ← evict_orphan met sid occupied
      answer snapshot

    abbrev pub snapshot_or_404 : Option (Snapshot State) → Handler (Snapshot State)
    snapshot_or_404 none s = (err 404, s)
    snapshot_or_404 (some snapshot) s = (ok snapshot, s)

    -- The part of `restore_snapshot_endpoint` under the lock.
    unfoldable pub restore_locked : (sid caller id : ℕ) → Handler State
    restore_locked sid caller id = do
      occupied ← has_connections sid
      _ ← current_editor sid caller
      snapshot ← λ s. snapshot_or_404 (get_snapshot sid id s.snapshots) s
      _ ← refuse_if (ltb crdt_max_update_bytes snapshot.size_bytes) 413
      _ ← on_documents 500 (load_from_storage crdt met.on_load sid)
      update ← on_documents 422 (restore_text_from_state crdt sid snapshot.document_state)
      _ ← checkpoint met sid occupied
      answer update

    abbrev broadcast_if_any : (sid : ℕ) → Bytes → Handler (Unit {0})
    broadcast_if_any sid [] s = (ok tt, s)
    broadcast_if_any sid (byte ∷ bytes) s =
        on_room (broadcast_document_update py crdt codec alive sid (byte ∷ bytes)) s

    -- The answer is the length of the update.
    unfoldable pub restore_snapshot_endpoint : Db → (sid caller id : ℕ) → Handler ℕ
    unfolding restore_locked
    restore_snapshot_endpoint asked sid caller id = do
      _ ← depends_on_role editor asked sid caller
      update ← restore_locked sid caller id
      _ ← broadcast_if_any sid (codec.state_bytes update)
      answer (length (codec.state_bytes update))
