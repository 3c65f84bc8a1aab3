-- ===== src/Rooms/Endpoint.antt =====
-- backend/app/collaboration/websocket.py: joining and leaving a room, the receive loop of
-- `websocket_endpoint`, and the checkpoints of a room.
use code_collaborator.Base.{
  ℕ, Bool, true, false, Option, none, some, List, [], ◌∷◌, ltb, if◌then◌else◌, update, Result, ok,
  err,
}
use code_collaborator.Lib0.{Bytes}
use code_collaborator.Models.{Role, editor, role_rank}
use code_collaborator.Protocol.{PyText, encode_sync_step1, encode_awareness_message}
use code_collaborator.Awareness.{active_entries, remove_owner, discard_session}
use code_collaborator.Document.{Crdt, Documents, DocumentError, Answers, get_state_vector}
use code_collaborator.Document.Storage.{
  load_from_storage, checkpoint_to_redis, checkpoint_and_remove,
}
use code_collaborator.Hub.{
  Hub, Connection, room_of, enter_room, leave_hub, without, close_if_invalidated,
}
use code_collaborator.Rooms.{
  Room, Codec, Reply, document, send_bytes, broadcast_awareness, prune_stale_awareness,
  send_current_document_status, handle_binary_message,
}

-- What `websocket.receive` returns, each with the time it is read; `dropped` is an exception instead.
pub data Received : Type 0 where
  disconnect dropped text_frame : Received
  binary_frame : Bytes → Received

-- How the receive loop ends: by a `return` or `break`, or by an exception; or it still waits.
pub data Outcome : Type 0 where
  waiting ended failed : Outcome

module _ (py : PyText) (crdt : Crdt) where
  open crdt use {State}

  -- A message, the time at which it is read, and what the other tasks of the server (other connections,
  -- fences, endpoints) make of the rooms before.
  abbrev pub Arrival : Type 0
  Arrival = ℕ × (Room py crdt → Room py crdt) × Received

  abbrev joined_room : (sid : ℕ) → Connection → Room py crdt → Room py crdt
  joined_room sid c s = record s { hub = enter_room sid c s.hub }

  -- The load of the document for the first connection; the room of a failed load stays, and is empty.
  abbrev pub loaded :
      (sid : ℕ)
      → Connection
      → Result DocumentError crdt.Doc × Documents crdt
      → Room py crdt
      → Reply py crdt
  loaded sid c (err e, docs) s =
      let hub = s.hub in
      (
        err (document e),
        record s { docs = docs; hub = record hub { rooms = update hub.rooms sid (some []) } },
      )
  loaded sid c (ok doc, docs) s = (ok tt, joined_room sid c (record s { docs = docs }))

  abbrev pub join_found :
      Answers → (sid : ℕ) → Connection → List Connection → Room py crdt → Reply py crdt
  join_found answers sid c [] s = loaded sid c (load_from_storage crdt answers sid s.docs) s
  join_found answers sid c (other ∷ others) s = (ok tt, joined_room sid c s)

  -- `_join_room`
  unfoldable pub join_room : Answers → (sid : ℕ) → Connection → Room py crdt → Reply py crdt
  join_room answers sid c s = join_found answers sid c (room_of (s.hub.rooms sid)) s

  -- `maintain_document_checkpoint`; `edits` arrive while Redis is written.
  abbrev maintain_found : Bool → List State → ℕ → List Connection → Room py crdt → Room py crdt
  maintain_found redis_ok edits sid [] s = record s {
    docs = (checkpoint_and_remove crdt redis_ok edits sid s.docs).1;
  }
  maintain_found redis_ok edits sid (c ∷ cs) s = record s {
    docs = (checkpoint_to_redis crdt redis_ok edits sid s.docs).1;
  }

  unfoldable pub maintain_document_checkpoint : Bool → List State → ℕ → Room py crdt → Room py crdt
  maintain_document_checkpoint redis_ok edits sid s =
      maintain_found redis_ok edits sid (room_of (s.hub.rooms sid)) s

  module _ (codec : Codec py crdt) (alive : ℕ → Bool) where
    -- The last connection checkpoints the document and drops the awareness states; any other tells the
    -- rest that its states are gone.
    abbrev pub left_found :
        Bool → List State → (sid w now : ℕ) → List Connection → Room py crdt → Reply py crdt
    left_found redis_ok edits sid w now [] s = (
      ok tt,
      record s {
        docs = (checkpoint_and_remove crdt redis_ok edits sid s.docs).1;
        store = discard_session sid (remove_owner codec.null_text sid w now s.store).0;
      },
    )
    left_found redis_ok edits sid w now (c ∷ cs) s =
        let (store, removed) = remove_owner codec.null_text sid w now s.store in
        broadcast_awareness py crdt codec alive sid removed (record s { store = store })

    abbrev pub leave_found :
        Bool
        → List State
        → (sid w now : ℕ) → Option (List Connection)
        → Room py crdt
        → Reply py crdt
    leave_found redis_ok edits sid w now none s = (ok tt, s)
    leave_found redis_ok edits sid w now (some room) s =
        left_found redis_ok edits sid w now (without w room) s

    -- `_leave_room`
    unfoldable pub leave_room : Bool → List State → (sid w now : ℕ) → Room py crdt → Reply py crdt
    leave_room redis_ok edits sid w now s =
        leave_found redis_ok edits sid w now (s.hub.rooms sid)
          (record s { hub = leave_hub sid w s.hub })

    infixl 5 ◌then_do◌
    abbrev ◌then_do◌ : Reply py crdt → (Room py crdt → Reply py crdt) → Reply py crdt
    (err e, s) then_do next = (err e, s)
    (ok _, s) then_do next = next s

    -- `encode_sync_step1(doc_manager.get_state_vector(session_id))`
    abbrev send_vector :
        ℕ → Result DocumentError crdt.Vector × Documents crdt → Room py crdt → Reply py crdt
    send_vector w (err e, docs) s = (err (document e), record s { docs = docs })
    send_vector w (ok vector, docs) s =
        send_bytes py crdt codec alive w (encode_sync_step1 (codec.vector_bytes vector))
          (record s { docs = docs })

    abbrev handshake : (w sid : ℕ) → Role → Room py crdt → Reply py crdt
    handshake w sid role s =
        if ltb (role_rank role) (role_rank editor)
        then (ok tt, s)
        else send_vector w (get_state_vector crdt sid s.docs) s

    abbrev send_awareness : (w sid : ℕ) → Room py crdt → Reply py crdt
    send_awareness w sid s = elim (active_entries sid s.store) [
      | [] ↦ (ok tt, s)
      | e ∷ es ↦ send_bytes py crdt codec alive w (encode_awareness_message py (e ∷ es)) s
    ]

    -- The frames that a connection is sent once it has joined.
    unfoldable pub greet : (w sid : ℕ) → Role → Room py crdt → Reply py crdt
    greet w sid role s =
        handshake w sid role s
        then_do send_current_document_status py crdt codec alive w sid
        then_do send_awareness w sid

    abbrev outcome_of : Reply py crdt → Outcome × Room py crdt
    outcome_of (ok _, s) = (waiting, s)
    outcome_of (err e, s) = (failed, s)

    abbrev handle_received :
        (w sid uid : ℕ) → Role → (now : ℕ) → Received → Room py crdt → Reply py crdt
    handle_received w sid uid role now (binary_frame frame) s =
        handle_binary_message py crdt codec alive w sid uid role now frame s
    handle_received w sid uid role now other s = (ok tt, s)

    -- One round of the receive loop, after the check.
    abbrev checked_round :
        (w sid uid : ℕ)
        → Role
        → (now : ℕ) → Received
        → Bool × Hub
        → Room py crdt
        → Outcome × Room py crdt
    checked_round w sid uid role now message (true, hub) s = (ended, record s { hub = hub })
    checked_round w sid uid role now message (false, hub) s = outcome_of (
        prune_stale_awareness py crdt codec alive sid now (record s { hub = hub })
        then_do handle_received w sid uid role now message)

    unfoldable pub round :
        (w sid uid : ℕ) → Role → (now : ℕ) → Received → Room py crdt → Outcome × Room py crdt
    round w sid uid role now disconnect s = (ended, s)
    round w sid uid role now dropped s = (failed, s)
    round w sid uid role now text_frame s =
        checked_round w sid uid role now text_frame (close_if_invalidated sid uid w s.hub) s
    round w sid uid role now (binary_frame frame) s =
        checked_round w sid uid role now (binary_frame frame) (close_if_invalidated sid uid w s.hub)
          s

    -- Only a loop that has not ended goes on.
    abbrev pub go_on : Outcome → Room py crdt → Outcome × Room py crdt → Outcome × Room py crdt
    go_on waiting s rest = rest
    go_on ended s rest = (ended, s)
    go_on failed s rest = (failed, s)

    -- The loop, on what arrives. Before each message is handled, other tasks act while this one waits.
    unfoldable pub receive_all :
        (w sid uid : ℕ) → Role → List Arrival → Room py crdt → Outcome × Room py crdt
    receive_all w sid uid role [] s = (waiting, s)
    receive_all w sid uid role ((now, meanwhile, message) ∷ arrivals) s =
        let (outcome, s') = round w sid uid role now message (meanwhile s) in
        let rest = receive_all w sid uid role arrivals s' in go_on outcome s' rest
