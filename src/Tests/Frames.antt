-- ===== src/Tests/Frames.antt =====
-- Frames of backend/app/collaboration/protocol.py that are written and read.
use code_collaborator.Base.{
  ℕ, ◌≡◌, refl, arith, Option, none, some, [], ◌∷◌, ◌++◌, length, ok, err, ◌+◌, ◌<◌, ◌≤◌,
}
use code_collaborator.Lib0.{
  Bytes, max_safe_integer, unknown_type, trailing_bytes, encode_var_uint, decode_var_uint,
  encode_var_bytes, encode_loop, decode_loop, Acc-lt,
}
use code_collaborator.Lib0.RoundTrip.{decode_var_uint-encode_var_uint}
use code_collaborator.Lib0.Bounds.{decode_var_uint_bounds}
use code_collaborator.Protocol.{
  PyText, Message, Entry, sync, awareness, message_document_status, message_execution_event,
  max_message_size, parse_message, encode_sync_message, encode_awareness_message,
  encode_permission_denied, encode_document_saved, encode_execution_event, encode_entries,
  encode_entry, encode_var_string,
}
use code_collaborator.Protocol.RoundTrip.{parse_message-encode_sync_message}
use code_collaborator.Protocol.Awareness.{
  parse_message-encode_awareness_message, parse_message_server_only,
}
use code_collaborator.Protocol.Strict.{parse_message_trailing}
use code_collaborator.Protocol.Accepted.{parse_message-IsAccepted, IsAccepted}

-- Texts that are their own bytes, and `json.loads` as `None` for the empty text.
abbrev loads : Bytes → Option (Option ℕ)
loads [] = some none
loads (b ∷ _) = some (some b)

abbrev pub py : PyText
py = record { Text = Bytes; State = ℕ; utf8_encode = λ t. t; utf8_decode = some; loads = loads }

three_hundred : encode_var_uint 300 ≡ ok (172 ∷ 2 ∷ [])
unfolding encode_var_uint encode_loop Acc-lt native.Mathlib.Decide.dec_lt
three_hundred = refl

decoded_300 : decode_var_uint (9 ∷ 172 ∷ 2 ∷ 5 ∷ []) 1 ≡ ok (300, 3)
unfolding decode_var_uint decode_loop
decoded_300 = refl

two_bytes : encode_var_bytes (7 ∷ 8 ∷ []) ≡ ok (2 ∷ 7 ∷ 8 ∷ [])
unfolding encode_var_uint encode_loop Acc-lt encode_var_bytes native.Mathlib.Decide.dec_lt
two_bytes = refl

abbrev framed_300 : Bytes
framed_300 = 9 ∷ 172 ∷ 2 ∷ 5 ∷ []

abbrev pub update_frame : Bytes
update_frame = 0 ∷ 2 ∷ 2 ∷ 7 ∷ 8 ∷ []

pub update_encoded : encode_sync_message 2 (7 ∷ 8 ∷ []) ≡ ok update_frame
unfolding encode_sync_message encode_var_uint encode_loop Acc-lt encode_var_bytes
    native.Mathlib.Decide.dec_lt
update_encoded = refl

abbrev pub update_message : Message py
update_message = sync (record { subtype = 2; payload = 7 ∷ 8 ∷ [] })

abbrev cursor : Entry py
cursor = record { client_id = 5; clock = 1; state = some 9; encoded_state = 9 ∷ [] }

abbrev cursor_frame : Bytes
cursor_frame = 1 ∷ 5 ∷ 1 ∷ 5 ∷ 1 ∷ 1 ∷ 9 ∷ []

cursor_encoded : encode_awareness_message py (cursor ∷ []) ≡ ok cursor_frame
unfolding encode_awareness_message encode_entries encode_entry encode_var_string encode_var_uint
    encode_loop Acc-lt encode_var_bytes native.Mathlib.Decide.dec_lt
cursor_encoded = refl

denied_encoded : encode_permission_denied py (6 ∷ []) ≡ ok (2 ∷ 0 ∷ 1 ∷ 6 ∷ [])
unfolding encode_permission_denied encode_var_string encode_var_uint encode_loop Acc-lt
    encode_var_bytes native.Mathlib.Decide.dec_lt
denied_encoded = refl

saved_encoded : encode_document_saved py (6 ∷ []) ≡ ok (4 ∷ 1 ∷ 6 ∷ [])
unfolding encode_document_saved encode_var_string encode_var_uint encode_loop Acc-lt
    encode_var_bytes native.Mathlib.Decide.dec_lt
saved_encoded = refl

event_encoded : encode_execution_event py (6 ∷ []) ≡ ok (5 ∷ 1 ∷ 6 ∷ [])
unfolding encode_execution_event encode_var_string encode_var_uint encode_loop Acc-lt
    encode_var_bytes native.Mathlib.Decide.dec_lt
event_encoded = refl

update_parsed : parse_message py update_frame ≡ ok update_message
update_parsed = parse_message-encode_sync_message py 2 (7 ∷ 8 ∷ []) update_encoded (omega arith)

decode_var_uint-encode_var_uint_example : decode_var_uint (9 ∷ 172 ∷ 2 ∷ 5 ∷ []) 1 ≡ ok (300, 3)
decode_var_uint-encode_var_uint_example =
    decode_var_uint-encode_var_uint 300 (9 ∷ []) (5 ∷ []) three_hundred

decode_var_uint_bounds_example :
    (300 ≤ max_safe_integer) × (1 < 3) × (3 ≤ 1 + 8) × (3 ≤ length framed_300)
decode_var_uint_bounds_example = decode_var_uint_bounds framed_300 1 decoded_300

parse_message-encode_sync_message_example : parse_message py update_frame ≡ ok update_message
parse_message-encode_sync_message_example =
    parse_message-encode_sync_message py 2 (7 ∷ 8 ∷ []) update_encoded (omega arith)

parse_message-encode_awareness_message_example :
    parse_message py cursor_frame ≡ ok (awareness (cursor ∷ []))
parse_message-encode_awareness_message_example =
    parse_message-encode_awareness_message py (λ t. refl) (cursor ∷ []) (refl, tt) (omega arith)
      cursor_encoded (omega arith)

parse_message_server_only_example :
    (parse_message py (4 ∷ 1 ∷ 6 ∷ []) ≡ err (unknown_type message_document_status))
    × (parse_message py (5 ∷ 1 ∷ 6 ∷ []) ≡ err (unknown_type message_execution_event))
parse_message_server_only_example =
    parse_message_server_only py (λ t. refl) (6 ∷ []) saved_encoded event_encoded (omega arith)
      (omega arith)

parse_message_trailing_example : parse_message py (update_frame ++ (1 ∷ [])) ≡ err trailing_bytes
parse_message_trailing_example =
    parse_message_trailing py update_frame (1 ∷ []) update_message update_parsed (omega arith)
      (omega arith)

parse_message-IsAccepted_example :
    (1 ≤ length update_frame)
    × (length update_frame ≤ max_message_size)
    × IsAccepted py (length update_frame) update_message
parse_message-IsAccepted_example =
    parse_message-IsAccepted py update_frame update_message update_parsed
