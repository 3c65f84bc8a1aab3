-- ===== src/Tests/Relay.antt =====
-- The relay of backend/app/execution/events.py, with the connection of Tests.Rooms in session 7.
use code_collaborator.Base.{
  ℕ, ◌≡◌, refl, Bool, true, false, Option, none, some, Result, List, [], ◌∷◌, ◌==◌, if◌then◌else◌,
  ok, err,
}
use code_collaborator.Lib0.{Bytes, encode_var_uint, encode_loop, encode_var_bytes, Acc-lt}
use code_collaborator.Protocol.{encode_var_string, encode_execution_event}
use code_collaborator.Hub.{get_room_connections}
use code_collaborator.Rooms.{deliveries, broadcast_binary, broadcast_execution_event}
use code_collaborator.Relay.{
  decoded, undecoded, Polled, silence, pmessage, unavailable, unhashable, Events, LoadError,
  value_error, validate_execution_event, validated_session, validated_event, validated_fields,
  in_event_types, is_bound, relay_event, relay_poll, run_execution_event_relay,
}
use code_collaborator.Tests.Frames.{py}
use code_collaborator.Tests.Documents.{crdt}
use code_collaborator.Tests.Rooms.{codec, alive, room}

abbrev is_uuid : Bytes → Bool
is_uuid (_ ∷ []) = true
is_uuid _ = false

data Json : Type 0 where
  text : Bytes → Json
  items : Json
  object : (type session_id execution_id : Json) → Json

abbrev same : Bytes → Bytes → Bool
same (a ∷ []) (b ∷ []) = a == b
same _ _ = false

abbrev loaded : Bytes → Result LoadError Json
loaded (t ∷ s ∷ e ∷ []) = ok (object (text (t ∷ [])) (text (s ∷ [])) (text (e ∷ [])))
loaded (s ∷ e ∷ []) = ok (object items (text (s ∷ [])) (text (e ∷ [])))
loaded _ = err value_error

abbrev field : Json → Json → Json → Bytes → Json
field type session_id execution_id name =
    if same name (1 ∷ []) then type else if same name (2 ∷ []) then session_id else execution_id

abbrev fields : Json → Option (Bytes → Json)
fields (object type session_id execution_id) = some (field type session_id execution_id)
fields _ = none

abbrev as_text : Json → Option Bytes
as_text (text t) = some t
as_text _ = none

abbrev is_hashable : Json → Bool
is_hashable (text t) = true
is_hashable _ = false

abbrev str : Json → Bytes
str (text t) = t
str _ = []

abbrev after_prefix : Bytes → Option Bytes
after_prefix (c ∷ rest) = if c == 100 then some rest else none
after_prefix [] = none

abbrev key : Bytes → ℕ
key (n ∷ _) = n
key [] = 0

abbrev events : Events Bytes
events = record {
  Value = Json;
  same = same;
  decode_replace = λ bytes. bytes;
  after_prefix = after_prefix;
  is_uuid = is_uuid;
  loads = loaded;
  fields = fields;
  as_text = as_text;
  is_hashable = is_hashable;
  str = str;
  dumps = λ event. 44 ∷ [];
  type_field = 1 ∷ [];
  session_id_field = 2 ∷ [];
  execution_id_field = 3 ∷ [];
  execution_status = 10 ∷ [];
  execution_output = 11 ∷ [];
  key = key;
}

-- An event of session 8 on the channel of session 7, a lost connection, and an event of session 7.
abbrev polls : List (Polled Bytes)
polls =
    pmessage (decoded (100 ∷ 7 ∷ [])) (decoded (10 ∷ 8 ∷ 3 ∷ []))
    ∷ unavailable
    ∷ pmessage (undecoded (100 ∷ 7 ∷ [])) (decoded (11 ∷ 7 ∷ 3 ∷ []))
    ∷ silence
    ∷ []

event_encoded : encode_execution_event py (44 ∷ []) ≡ ok (5 ∷ 1 ∷ 44 ∷ [])
unfolding encode_execution_event encode_var_string encode_var_uint encode_loop Acc-lt
    encode_var_bytes native.Mathlib.Decide.dec_lt
event_encoded = refl

second_is_sent :
    run_execution_event_relay py crdt codec alive events polls room
    ≡ (ok tt, record room { sent = (5, 5 ∷ 1 ∷ 44 ∷ []) ∷ [] })
unfolding run_execution_event_relay relay_poll relay_event validate_execution_event
    validated_session validated_event validated_fields in_event_types is_bound
    broadcast_execution_event broadcast_binary deliveries get_room_connections
    encode_execution_event encode_var_string encode_var_uint encode_loop Acc-lt encode_var_bytes
    native.Mathlib.Decide.dec_lt
second_is_sent = refl

-- A type that is a JSON array ends the relay.
array_type_raises :
    run_execution_event_relay py crdt codec alive events
      (pmessage (decoded (100 ∷ 7 ∷ [])) (decoded (7 ∷ 3 ∷ [])) ∷ polls)
      room
    ≡ (err unhashable, room)
unfolding run_execution_event_relay relay_poll relay_event validate_execution_event
    validated_session validated_event validated_fields in_event_types
array_type_raises = refl
