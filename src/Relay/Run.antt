-- ===== src/Relay/Run.antt =====
-- backend/app/execution/events.py: a run of the relay, against a relation that knows of the messages only
-- which are genuine.
use code_collaborator.Base.{ℕ, Bool, ◌≡◌, List, [], ◌∷◌, ◌++◌, ok, err}
use code_collaborator.Lib0.{Bytes, ProtocolError}
use code_collaborator.Protocol.{PyText, encode_execution_event}
use code_collaborator.Document.{Crdt}
use code_collaborator.Hub.{get_room_connections}
use code_collaborator.Rooms.{Room, Codec, protocol, deliveries}
use code_collaborator.Relay.{
  Raw, Polled, silence, other_message, pmessage, unavailable, broadcast, recursion, unhashable,
  Events, Relayed, run_execution_event_relay,
}
use code_collaborator.Relay.Binding.{IsGenuine, IsTooDeep, IsUntyped}

module _ (py : PyText) (crdt : Crdt) (codec : Codec py crdt) (alive : ℕ → Bool)
    (events : Events py.Text) where
  open events use {Value, dumps, key}

  -- The poll brings this event of this session.
  abbrev pub Brings : Polled py.Text → py.Text → Value → Type 0
  Brings (pmessage channel payload) session event = IsGenuine events channel payload session event
  Brings silence session event = ⊥
  Brings other_message session event = ⊥
  Brings unavailable session event = ⊥

  -- The frames of an event, for the session's connections.
  abbrev pub forwarded : py.Text → Bytes → Room py crdt → Room py crdt
  forwarded session frame s = record s {
    sent =
        s.sent ++ deliveries py crdt codec alive frame (get_room_connections (key session) s.hub);
  }

  -- What a relay may do: each genuine event goes to the connections of its session, in order, each other
  -- poll is ignored, and the run ends early at a payload that is nested too deeply, at an event whose type
  -- cannot be hashed, and where the encoding of an event raises.
  pub data Relays
      : List (Polled py.Text) → Room py crdt → Relayed py crdt codec alive events → Type 0 where
    stopped : {s : Room py crdt} → Relays [] s (ok tt, s)
    ignored :
        {poll : Polled py.Text} {polls : List (Polled py.Text)} {s : Room py crdt}
        {r : Relayed py crdt codec alive events}
        → ((session : py.Text) (event : Value) → Brings poll session event → ⊥)
        → Relays polls s r
        → Relays (poll ∷ polls) s r
    sent :
        {poll : Polled py.Text} {polls : List (Polled py.Text)} {s : Room py crdt}
        {r : Relayed py crdt codec alive events} (session : py.Text) (event : Value) (frame : Bytes)
        → Brings poll session event
        → encode_execution_event py (dumps event) ≡ ok frame
        → Relays polls (forwarded session frame s) r
        → Relays (poll ∷ polls) s r
    unsent :
        {poll : Polled py.Text} {polls : List (Polled py.Text)} {s : Room py crdt}
        {e : ProtocolError} (session : py.Text) (event : Value)
        → Brings poll session event
        → encode_execution_event py (dumps event) ≡ err e
        → Relays (poll ∷ polls) s (err (broadcast (protocol e)), s)
    too_deep :
        {channel payload : Raw py.Text} {polls : List (Polled py.Text)} {s : Room py crdt}
        → IsTooDeep events channel payload
        → Relays (pmessage channel payload ∷ polls) s (err recursion, s)
    untyped :
        {channel payload : Raw py.Text} {polls : List (Polled py.Text)} {s : Room py crdt}
        → IsUntyped events channel payload
        → Relays (pmessage channel payload ∷ polls) s (err unhashable, s)

  abbrev rest_of : List (Polled py.Text) → Room py crdt → Relayed py crdt codec alive events
  rest_of polls s = run_execution_event_relay py crdt codec alive events polls s
