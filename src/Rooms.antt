-- ===== src/Rooms.antt =====
-- backend/app/collaboration/websocket.py: what the connections of a room send and receive. The hub, the
-- documents and the awareness states are the state; `sent` are the frames that the transport took.
-- `alive` says of a WebSocket whether sending to it succeeds, and nothing else runs during one handler:
-- interleavings of the authorization are in Hub/System.
pub mod Endpoint
pub mod Serving
pub mod Cleanup
pub mod Editing
pub mod Cutting
pub mod Flush
use code_collaborator.Base.{
  ℕ, Bool, true, false, Option, none, some, is_some, List, [], ◌∷◌, ◌++◌, ltb, ◌==◌, if◌then◌else◌,
  update, Result, ok, err,
}
use code_collaborator.Lib0.{Bytes, Parse, ProtocolError}
use code_collaborator.Models.{Role, editor, role_rank}
use code_collaborator.Protocol.{
  PyText, SyncMessage, AwarenessEntry, ParsedMessage, sync, awareness, query, auth, sync_step1,
  parse_message, encode_sync_step1, encode_sync_step2, encode_sync_update, encode_awareness_message,
  encode_permission_denied, encode_document_saved, encode_execution_event,
}
use code_collaborator.Awareness.{
  AwarenessStore, active_entries, remove_owner, prune_stale, discard_session,
}
use code_collaborator.Document.{
  Crdt, Documents, DocumentStatus, DocumentError, Answers, get_or_create, encode_state_as_update,
  get_state_vector, get_document_status,
}
use code_collaborator.Document.Storage.{
  load_from_storage, checkpoint_to_redis, checkpoint_and_remove,
}
use code_collaborator.Hub.{
  Hub, Connection, Closing, Decision, invalid, denied, allowed, decide, room_of, unrevoked,
  get_room_connections, revoke, close_connection, enter_room, leave_hub, without,
}

-- The bytes of the values that the documents take and give, and the texts of the frames. `as_vector` is
-- `none` where `Doc.get_update` raises, and `saved_text` is the JSON of `encode_document_saved`.
pub record Wire (Text State Vector Hash : Type 0) : Type 0 where
  pub as_state : Bytes → State
  pub as_vector : Bytes → Option Vector
  pub state_bytes : State → Bytes
  pub vector_bytes : Vector → Bytes
  pub viewers_cannot_edit : Text
  pub null_text : Text
  pub saved_text : Option ℕ → Vector → Hash → Bool → Option Text → Text

pub record Server (Text Entry Docs : Type 0) : Type 0 where
  pub hub : Hub
  pub docs : Docs
  pub store : AwarenessStore Text Entry
  pub sent : List (ℕ × Bytes)

-- What ends the handler of a connection.
pub data Raised : Type 0 where
  protocol : ProtocolError → Raised
  document : DocumentError → Raised
  transport : Raised

module _ (py : PyText) (crdt : Crdt) where
  open crdt use {State, Vector, Hash}

  abbrev pub Room : Type 0
  Room = Server py.Text py.State (Documents crdt)

  abbrev pub Codec : Type 0
  Codec = Wire py.Text State Vector Hash

  abbrev pub Reply : Type 0
  Reply = Result Raised (Unit {0}) × Room

  module _ (codec : Codec) (alive : ℕ → Bool) where
    -- `websocket.send_bytes`
    unfoldable pub send_bytes : ℕ → Parse Bytes → Room → Reply
    send_bytes w (err e) s = (err (protocol e), s)
    send_bytes w (ok frame) s =
        if alive w
        then (ok tt, record s { sent = s.sent ++ (w, frame) ∷ [] })
        else (err transport, s)

    -- The frames of a broadcast that arrive; a failed send is logged.
    unfoldable pub deliveries : Bytes → List Connection → List (ℕ × Bytes)
    deliveries frame [] = []
    deliveries frame (c ∷ cs) =
        let rest = deliveries frame cs in
        if alive c.websocket then (c.websocket, frame) ∷ rest else rest

    -- `_broadcast_binary`
    unfoldable pub broadcast_binary : ℕ → Parse Bytes → Room → Reply
    unfolding get_room_connections
    broadcast_binary sid (err e) s = (err (protocol e), s)
    broadcast_binary sid (ok frame) s =
        (ok tt, record s { sent = s.sent ++ deliveries frame (get_room_connections sid s.hub) })

    -- `broadcast_document_update`
    unfoldable pub broadcast_document_update : ℕ → Bytes → Room → Reply
    broadcast_document_update sid bytes = broadcast_binary sid (encode_sync_update bytes)

    -- `broadcast_execution_event`, on the JSON text of the event.
    unfoldable pub broadcast_execution_event : ℕ → py.Text → Room → Reply
    broadcast_execution_event sid event = broadcast_binary sid (encode_execution_event py event)

    -- `_document_saved_frame`
    unfoldable pub document_saved_frame :
        Option ℕ → Vector → Hash → Bool → Option py.Text → Parse Bytes
    document_saved_frame saved_at vector hash dirty saved_by =
        encode_document_saved py (codec.saved_text saved_at vector hash dirty saved_by)

    unfoldable pub broadcast_document_saved :
        ℕ → (saved_at : ℕ) → Vector → Hash → (dirty : Bool) → (saved_by : py.Text) → Room → Reply
    broadcast_document_saved sid saved_at vector hash dirty saved_by =
        broadcast_binary sid
          (document_saved_frame (some saved_at) vector hash dirty (some saved_by))

    abbrev send_status : ℕ → Option (DocumentStatus Vector Hash) → Room → Reply
    send_status w none s = (ok tt, s)
    send_status w (some status) s =
        send_bytes w
          (document_saved_frame status.saved_at status.saved_state_vector status.saved_state_hash
            status.dirty none)
          s

    -- `_send_current_document_status`
    unfoldable pub send_current_document_status : (w sid : ℕ) → Room → Reply
    send_current_document_status w sid s = send_status w (get_document_status crdt sid s.docs) s

    -- `_broadcast_awareness`
    unfoldable pub broadcast_awareness : ℕ → List (AwarenessEntry py.Text py.State) → Room → Reply
    broadcast_awareness sid [] s = (ok tt, s)
    broadcast_awareness sid (e ∷ es) s =
        broadcast_binary sid (encode_awareness_message py (e ∷ es)) s

    -- `_prune_stale_awareness`
    unfoldable pub prune_stale_awareness : (sid now : ℕ) → Room → Reply
    prune_stale_awareness sid now s =
        let (store, removed) = prune_stale codec.null_text sid now s.store in
        broadcast_awareness sid removed (record s { store = store })

    -- The answer to a sync step 1; what the documents raise is logged.
    abbrev answer_update : ℕ → Result DocumentError State × Documents crdt → Room → Reply
    answer_update w (err e, docs) s = (ok tt, record s { docs = docs })
    answer_update w (ok state, docs) s =
        send_bytes w (encode_sync_step2 (codec.state_bytes state)) (record s { docs = docs })

    unfoldable pub answer_step1 : (w sid : ℕ) → Option Vector → Room → Reply
    answer_step1 w sid none s = (ok tt, record s { docs = (get_or_create crdt sid s.docs).1 })
    answer_step1 w sid (some vector) s =
        answer_update w (encode_state_as_update crdt sid (some vector) s.docs) s

    -- `close_required`
    abbrev close_once : ℕ → Closing → Hub → Hub
    close_once w c hub =
        if is_some (hub.revoked w) then revoke w c hub else close_connection w c (revoke w c hub)

    abbrev applied_to_room :
        (sid : ℕ) → Bytes → Result DocumentError (Unit {0}) × Documents crdt → Room → Reply
    applied_to_room sid payload (err e, docs) s = (ok tt, record s { docs = docs })
    applied_to_room sid payload (ok _, docs) s =
        broadcast_binary sid (encode_sync_update payload) (record s { docs = docs })

    -- `apply_if_authorized`, and what follows its decision.
    unfoldable pub apply_decided : Decision → (w sid : ℕ) → Bytes → Room → Reply
    apply_decided (invalid c) w sid payload s = (ok tt, record s { hub = close_once w c s.hub })
    apply_decided denied w sid payload s =
        send_bytes w (encode_permission_denied py codec.viewers_cannot_edit) s
    apply_decided allowed w sid payload s =
        applied_to_room sid payload
          (code_collaborator.Document.apply_update crdt sid (codec.as_state payload) s.docs) s

    unfoldable pub handle_parsed :
        (w sid uid : ℕ) → Role → (now : ℕ) → Parse (ParsedMessage py.Text py.State) → Room → Reply
    handle_parsed w sid uid role now (err e) s = (ok tt, s)
    handle_parsed w sid uid role now (ok (sync m)) s =
        if m.subtype == sync_step1
        then answer_step1 w sid (codec.as_vector m.payload) s
        else apply_decided (decide s.hub sid uid w role) w sid m.payload s
    handle_parsed w sid uid role now (ok (awareness entries)) s =
        let (store, accepted) =
          code_collaborator.Awareness.apply_update sid w entries now s.store in
        broadcast_awareness sid accepted (record s { store = store })
    handle_parsed w sid uid role now (ok query) s =
        send_bytes w (encode_awareness_message py (active_entries sid s.store)) s
    handle_parsed w sid uid role now (ok (auth subtype reason)) s = (ok tt, s)

    -- `_handle_binary_message`, as the receive loop calls it.
    unfoldable pub handle_binary_message : (w sid uid : ℕ) → Role → (now : ℕ) → Bytes → Room → Reply
    handle_binary_message w sid uid role now frame s =
        if is_some (s.hub.revoked w)
        then (ok tt, s)
        else handle_parsed w sid uid role now (parse_message py frame) s
