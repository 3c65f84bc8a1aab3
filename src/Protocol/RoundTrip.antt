-- ===== src/Protocol/RoundTrip.antt =====
-- The sync frames of protocol.py: `parse_message` reads back what `encode_sync_message` builds.
use code_collaborator.Base.{
  ℕ, ◌+◌, ◌≤◌, ◌≡◌, ap, ◌∙◌, arith, true, false, not, [], ◌++◌, length, ltb-false, ok, ◌==◌,
  length-append, >>=-eq-ok, raise_if-eq-ok, raise_if,
}
use code_collaborator.Lib0.{Bytes, max_safe_integer, encode_var_uint, encode_var_bytes}
use code_collaborator.Lib0.VarUint.{groups, length-groups}
use code_collaborator.Lib0.Reading.{
  At, At-start, At-prefix, At-skip, At-last, At-end, decode_var_uint-At, var_bytes,
  decode_var_bytes-At, ensure_finished-At_end, encode_var_uint-eq_ok, encode_var_bytes-eq_ok,
}
use code_collaborator.Protocol.{
  PyText, sync, known_subtype, max_message_size, parse_message, dispatch, parse_sync,
  encode_sync_message, message_sync,
}

encode_sync_message-eq_ok :
    (subtype : ℕ) (payload : Bytes) {frame : Bytes}
    → encode_sync_message subtype payload ≡ ok frame
    → (known_subtype subtype ≡ true)
      × (length payload ≤ max_safe_integer)
      × (frame ≡ groups 7 message_sync ++ (groups 7 subtype ++ var_bytes payload))
unfolding encode_sync_message
encode_sync_message-eq_ok subtype payload e =
    let (_, guard, e1) = >>=-eq-ok (raise_if (not (known_subtype subtype)) _) _ e in
    let (outer, zeroth, e2) = >>=-eq-ok (encode_var_uint message_sync) _ e1 in
    let (inner, first, e3) = >>=-eq-ok (encode_var_uint subtype) _ e2 in
    let (body, second, e4) = >>=-eq-ok (encode_var_bytes payload) _ e3 in
    let (safe, body_is) = encode_var_bytes-eq_ok payload second in
    (
      ground (arith, raise_if-eq-ok _ _ guard),
      safe,
      cc (
        (encode_var_uint-eq_ok message_sync zeroth).1,
        (encode_var_uint-eq_ok subtype first).1,
        body_is,
        e4,
      ),
    )

module _ (py : PyText) where
  open py use {Text, State, utf8_encode, utf8_decode, loads}

  -- A frame within the size limit that begins with a written type is dispatched on that type.
  pub parse_message-dispatch :
      (message_type : ℕ) (rest : Bytes)
      → message_type ≤ max_safe_integer
      → length (groups 7 message_type ++ rest) ≤ max_message_size
      → parse_message py (groups 7 message_type ++ rest)
        ≡ dispatch py message_type (groups 7 message_type ++ rest) (length (groups 7 message_type))
  unfolding parse_message
  parse_message-dispatch message_type rest safe fits =
      let frame = groups 7 message_type ++ rest in
      let some_bytes : (length frame == 0) ≡ false =
        ground (arith, length-append (groups 7 message_type) rest, length-groups 7 message_type) in
      let read = decode_var_uint-At frame 0 message_type rest safe (At-start frame) in
      rw (some_bytes, ltb-false max_message_size (length frame) fits, read)
        (ap (dispatch py message_type frame) (omega arith))

  parse_sync-At :
      (frame : Bytes) (offset : ℕ) (subtype : ℕ) (payload : Bytes)
      → known_subtype subtype ≡ true
      → length payload ≤ max_safe_integer
      → At frame offset (groups 7 subtype ++ var_bytes payload)
      → parse_sync py frame offset ≡ ok (sync (record { subtype = subtype; payload = payload }))
  unfolding parse_sync
  parse_sync-At frame offset subtype payload known safe at =
      let after = At-skip frame (groups 7 subtype) (var_bytes payload) offset at in
      let o1 = offset + length (groups 7 subtype) in
      rw (
        decode_var_uint-At frame offset subtype (var_bytes payload) (ground arith) at,
        known,
        decode_var_bytes-At frame o1 payload [] safe (At-last frame _ o1 after),
        ensure_finished-At_end frame _ (At-end frame _ o1 after),
      )

  -- A frame that `encode_sync_message` built, and that is within the frame size limit, parses back to the
  -- same subtype and payload.
  pub parse_message-encode_sync_message :
      (subtype : ℕ) (payload : Bytes) {frame : Bytes}
      → encode_sync_message subtype payload ≡ ok frame
      → length frame ≤ max_message_size
      → parse_message py frame ≡ ok (sync (record { subtype = subtype; payload = payload }))
  parse_message-encode_sync_message subtype payload {frame} e fits =
      let (known, safe, parts) = encode_sync_message-eq_ok subtype payload e in
      let rest = groups 7 subtype ++ var_bytes payload in
      let type_0 = groups 7 message_sync in
      rw parts (
        parse_message-dispatch message_sync rest (omega arith) (rw parts at fits)
        ∙ unfold dispatch in
          parse_sync-At _ (length type_0) subtype payload known safe (At-prefix type_0 rest))
