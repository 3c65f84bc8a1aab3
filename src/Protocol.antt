-- ===== src/Protocol.antt =====
-- backend/app/collaboration/protocol.py, the frames: sync, awareness, auth and the server's own events.
pub mod RoundTrip
pub mod Awareness
pub mod Strict
pub mod Accepted
use code_collaborator.Base.{
  ℕ, zero, suc, ◌*◌, Bool, ◌||◌, not, Option, List, [], ◌∷◌, ◌++◌, length, ltb, ◌==◌, if◌then◌else◌,
  ok, err, ◌>>=◌, ◌>>◌, raise_if, or_raise,
}
use code_collaborator.Lib0.{
  Bytes, Parse, unknown_subtype, not_utf8, too_many_entries, not_json, empty_frame, frame_too_large,
  unknown_sync, unknown_auth, unknown_type, encode_var_uint, decode_var_uint, encode_var_bytes,
  decode_var_bytes, ensure_finished,
}

abbrev pub message_sync : ℕ
message_sync = 0

abbrev pub message_awareness : ℕ
message_awareness = 1

abbrev pub message_auth : ℕ
message_auth = 2

abbrev pub message_query_awareness : ℕ
message_query_awareness = 3

abbrev pub message_document_status : ℕ
message_document_status = 4

abbrev pub message_execution_event : ℕ
message_execution_event = 5

abbrev pub sync_step1 : ℕ
sync_step1 = 0

abbrev pub sync_step2 : ℕ
sync_step2 = 1

abbrev pub sync_update : ℕ
sync_update = 2

abbrev pub auth_permission_denied : ℕ
auth_permission_denied = 0

abbrev pub max_message_size : ℕ
max_message_size = 16 * 1024 * 1024

abbrev pub max_awareness_entries : ℕ
max_awareness_entries = 10000

-- What the module takes from Python: texts and their UTF-8 codec (`none`: `UnicodeDecodeError`),
-- and `json.loads` (outer `none`: `ValueError` or `RecursionError`; inner `none`: Python's `None`).
pub record PyText : Type 1 where
  pub Text : Type 0
  pub State : Type 0
  pub utf8_encode : Text → Bytes
  pub utf8_decode : Bytes → Option Text
  pub loads : Text → Option (Option State)

pub record SyncMessage : Type 0 where
  pub subtype : ℕ
  pub payload : Bytes

-- `SyncMessage.modifies_document`
unfoldable pub modifies_document : SyncMessage → Bool
modifies_document m = m.subtype == sync_step2 || m.subtype == sync_update

pub record AwarenessEntry (Text State : Type 0) : Type 0 where
  pub client_id : ℕ
  pub clock : ℕ
  pub state : Option State
  pub encoded_state : Text

pub data ParsedMessage (Text State : Type 0) : Type 0 where
  sync : SyncMessage → ParsedMessage Text State
  awareness : List (AwarenessEntry Text State) → ParsedMessage Text State
  query : ParsedMessage Text State
  auth : ℕ → Text → ParsedMessage Text State

abbrev known_subtype : ℕ → Bool
known_subtype subtype = subtype == sync_step1 || subtype == sync_step2 || subtype == sync_update

unfoldable pub encode_sync_message : ℕ → Bytes → Parse Bytes
encode_sync_message subtype payload = do
  raise_if (not (known_subtype subtype)) (unknown_subtype subtype)
  outer ← encode_var_uint message_sync
  inner ← encode_var_uint subtype
  body ← encode_var_bytes payload
  ok (outer ++ (inner ++ body))

unfoldable pub encode_sync_step1 : Bytes → Parse Bytes
encode_sync_step1 state_vector = encode_sync_message sync_step1 state_vector

unfoldable pub encode_sync_step2 : Bytes → Parse Bytes
encode_sync_step2 update = encode_sync_message sync_step2 update

unfoldable pub encode_sync_update : Bytes → Parse Bytes
encode_sync_update update = encode_sync_message sync_update update

module _ (py : PyText) where
  open py use {Text, State, utf8_encode, utf8_decode, loads}

  abbrev pub Entry : Type 0
  Entry = AwarenessEntry Text State

  abbrev pub Message : Type 0
  Message = ParsedMessage Text State

  -- `_encode_var_string`
  unfoldable pub encode_var_string : Text → Parse Bytes
  encode_var_string value = encode_var_bytes (utf8_encode value)

  -- `_decode_var_string`
  pub decode_var_string : Bytes → ℕ → Parse (Text × ℕ)
  decode_var_string bytes offset = do
    (encoded, next) ← decode_var_bytes bytes offset
    text ← or_raise (utf8_decode encoded) not_utf8
    ok (text, next)

  -- One round of the loop of `_decode_awareness_entries`.
  pub decode_entry : Bytes → ℕ → Parse (Entry × ℕ)
  decode_entry payload offset = do
    (client_id, o1) ← decode_var_uint payload offset
    (clock, o2) ← decode_var_uint payload o1
    (encoded_state, o3) ← decode_var_string payload o2
    state ← or_raise (loads encoded_state) not_json
    ok (
      record { client_id = client_id; clock = clock; state = state; encoded_state = encoded_state },
      o3,
    )

  -- `for _ in range(count)`
  pub decode_entries : ℕ → Bytes → ℕ → Parse (List Entry × ℕ)
  decode_entries zero payload offset = ok ([], offset)
  decode_entries (suc count) payload offset = do
    (entry, next) ← decode_entry payload offset
    (entries, last) ← decode_entries count payload next
    ok (entry ∷ entries, last)

  -- `_decode_awareness_entries`
  pub decode_awareness_entries : Bytes → Parse (List Entry)
  unfolding decode_entries
  decode_awareness_entries payload = do
    (count, offset) ← decode_var_uint payload 0
    raise_if (ltb max_awareness_entries count) too_many_entries
    (entries, last) ← decode_entries count payload offset
    ensure_finished payload last
    ok entries

  -- The branches of `parse_message` by message type.
  parse_sync : Bytes → ℕ → Parse Message
  parse_sync frame offset = do
    (subtype, o1) ← decode_var_uint frame offset
    raise_if (not (known_subtype subtype)) (unknown_sync subtype)
    (payload, o2) ← decode_var_bytes frame o1
    ensure_finished frame o2
    ok (sync (record { subtype = subtype; payload = payload }))

  parse_awareness : Bytes → ℕ → Parse Message
  parse_awareness frame offset = do
    (payload, o1) ← decode_var_bytes frame offset
    ensure_finished frame o1
    entries ← decode_awareness_entries payload
    ok (awareness entries)

  parse_query : Bytes → ℕ → Parse Message
  parse_query frame offset = ensure_finished frame offset >> ok query

  parse_auth : Bytes → ℕ → Parse Message
  parse_auth frame offset = do
    (subtype, o1) ← decode_var_uint frame offset
    raise_if (not (subtype == auth_permission_denied)) (unknown_auth subtype)
    (reason, o2) ← decode_var_string frame o1
    ensure_finished frame o2
    ok (auth subtype reason)

  pub dispatch : ℕ → Bytes → ℕ → Parse Message
  unfolding parse_sync parse_awareness parse_query parse_auth
  dispatch message_type frame offset =
      if message_type == message_sync
      then parse_sync frame offset
      else if message_type == message_awareness
      then parse_awareness frame offset
      else if message_type == message_query_awareness
      then parse_query frame offset
      else if message_type == message_auth
      then parse_auth frame offset
      else err (unknown_type message_type)

  unfoldable pub parse_message : Bytes → Parse Message
  unfolding dispatch
  parse_message frame = do
    raise_if (length frame == 0) empty_frame
    raise_if (ltb max_message_size (length frame)) frame_too_large
    (message_type, offset) ← decode_var_uint frame 0
    dispatch message_type frame offset

  -- One round of the loop of `encode_awareness_message`.
  unfoldable pub encode_entry : Entry → Parse Bytes
  encode_entry entry = do
    client_id ← encode_var_uint entry.client_id
    clock ← encode_var_uint entry.clock
    state ← encode_var_string entry.encoded_state
    ok (client_id ++ (clock ++ state))

  unfoldable pub encode_entries : List Entry → Parse Bytes
  encode_entries [] = ok []
  encode_entries (entry ∷ entries) = do
    bytes ← encode_entry entry
    more ← encode_entries entries
    ok (bytes ++ more)

  unfoldable pub encode_awareness_message : List Entry → Parse Bytes
  unfolding encode_entries
  encode_awareness_message entries = do
    count ← encode_var_uint (length entries)
    body ← encode_entries entries
    outer ← encode_var_uint message_awareness
    frame ← encode_var_bytes (count ++ body)
    ok (outer ++ frame)

  unfoldable pub encode_permission_denied : Text → Parse Bytes
  encode_permission_denied reason = do
    outer ← encode_var_uint message_auth
    inner ← encode_var_uint auth_permission_denied
    body ← encode_var_string reason
    ok (outer ++ (inner ++ body))

  -- `encode_document_saved` and `encode_execution_event` on the text that `json.dumps` returned.
  unfoldable pub encode_document_saved : Text → Parse Bytes
  encode_document_saved payload = do
    outer ← encode_var_uint message_document_status
    body ← encode_var_string payload
    ok (outer ++ body)

  unfoldable pub encode_execution_event : Text → Parse Bytes
  encode_execution_event payload = do
    outer ← encode_var_uint message_execution_event
    body ← encode_var_string payload
    ok (outer ++ body)
