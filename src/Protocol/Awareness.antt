-- ===== src/Protocol/Awareness.antt =====
-- The frames of protocol.py that carry text: awareness updates, the permission-denied frame, and the
-- server's own events. Decoding returns what was encoded, or refuses what only a server sends.
use code_collaborator.Base.{
  ℕ, ◌+◌, ◌≤◌, ◌≡◌, refl, ap, subst, ◌∙◌, arith, some, List, [], ◌∷◌, ◌++◌, length, ltb-false, ok,
  err, All, length-append, ◌>>=◌, >>=-eq-ok,
}
use code_collaborator.Lib0.{
  Bytes, max_safe_integer, encode_var_uint, encode_var_bytes, unknown_type,
}
use code_collaborator.Lib0.VarUint.{groups}
use code_collaborator.Lib0.Reading.{
  At, At-start, At-prefix, At-skip, At-last, At-end, At-assoc, decode_var_uint-At, var_bytes,
  decode_var_bytes-At, ensure_finished-At_end, encode_var_uint-eq_ok, encode_var_bytes-eq_ok,
}
use code_collaborator.Protocol.RoundTrip.{parse_message-dispatch}
use code_collaborator.Protocol.{
  PyText, awareness, auth, Entry, max_message_size, max_awareness_entries, parse_message, dispatch,
  parse_awareness, parse_auth, encode_var_string, decode_var_string, decode_entry, decode_entries,
  decode_awareness_entries, encode_entry, encode_entries, encode_awareness_message,
  encode_permission_denied, encode_document_saved, encode_execution_event, message_awareness,
  message_auth, message_document_status, message_execution_event, auth_permission_denied,
}

module _ (py : PyText)
    (utf8_round : (t : PyText.Text py)
      → PyText.utf8_decode py (PyText.utf8_encode py t) ≡ some t) where
  open py use {Text, utf8_encode, loads}

  text_bytes : Text → Bytes
  text_bytes value = var_bytes (utf8_encode value)

  decode_var_string-At :
      (bytes : Bytes) (offset : ℕ) (value : Text) (rest : Bytes)
      → length (utf8_encode value) ≤ max_safe_integer
      → At bytes offset (text_bytes value ++ rest)
      → decode_var_string py bytes offset ≡ ok (value, offset + length (text_bytes value))
  unfolding decode_var_string text_bytes
  decode_var_string-At bytes offset value rest safe at =
      rw (decode_var_bytes-At bytes offset (utf8_encode value) rest safe at, utf8_round value)

  entry_bytes : Entry py → Bytes
  entry_bytes e = groups 7 e.client_id ++ (groups 7 e.clock ++ text_bytes e.encoded_state)

  abbrev pub IsSafeEntry : Entry py → Type 0
  IsSafeEntry e =
      (e.client_id ≤ max_safe_integer)
      × (e.clock ≤ max_safe_integer)
      × (length (utf8_encode e.encoded_state) ≤ max_safe_integer)

  -- The JSON text of an entry stands for its state.
  abbrev pub IsLoaded : Entry py → Type 0
  IsLoaded e = loads e.encoded_state ≡ some e.state

  decode_entry-At :
      (bytes : Bytes) (offset : ℕ) (e : Entry py) (rest : Bytes)
      → IsSafeEntry e
      → IsLoaded e
      → At bytes offset (entry_bytes e ++ rest)
      → decode_entry py bytes offset ≡ ok (e, offset + length (entry_bytes e))
  unfolding decode_entry entry_bytes
  decode_entry-At bytes offset e rest safe loaded at =
      let id_bytes = groups 7 e.client_id in
      let clock_bytes = groups 7 e.clock in
      let text = text_bytes e.encoded_state in
      let at0 = At-assoc bytes id_bytes (clock_bytes ++ text) rest offset at in
      let o1 = offset + length id_bytes in
      let at1 = At-assoc bytes clock_bytes text rest o1 (At-skip bytes id_bytes _ offset at0) in
      let at2 = At-skip bytes clock_bytes (text ++ rest) o1 at1 in
      rw
        (
          decode_var_uint-At bytes offset e.client_id _ safe.0 at0,
          decode_var_uint-At bytes o1 e.clock _ safe.1 at1,
          decode_var_string-At bytes (o1 + length clock_bytes) e.encoded_state rest safe.2 at2,
          loaded,
        )
        (ap (λ n. ok (e, n))
          (omega
            (arith, length-append id_bytes (clock_bytes ++ text), length-append clock_bytes text)))

  entries_bytes : List (Entry py) → Bytes
  entries_bytes [] = []
  entries_bytes (e ∷ es) = entry_bytes e ++ entries_bytes es

  decode_entries-At :
      (bytes : Bytes) (offset : ℕ) (es : List (Entry py)) (rest : Bytes)
      → All IsSafeEntry es
      → All IsLoaded es
      → At bytes offset (entries_bytes es ++ rest)
      → decode_entries py (length es) bytes offset ≡ ok (es, offset + length (entries_bytes es))
  unfolding decode_entries entries_bytes
  decode_entries-At bytes offset [] rest safe loaded at = ap (λ n. ok ([], n)) (omega arith)
  decode_entries-At bytes offset (e ∷ es) rest safe loaded at =
      let at0 = At-assoc bytes (entry_bytes e) (entries_bytes es) rest offset at in
      let o1 = offset + length (entry_bytes e) in
      rw
        (
          decode_entry-At bytes offset e (entries_bytes es ++ rest) safe.0 loaded.0 at0,
          decode_entries-At bytes o1 es rest safe.1 loaded.1
              (At-skip bytes (entry_bytes e) _ offset at0),
        )
        (ap (λ n. ok (e ∷ es, n)) (omega (arith, length-append (entry_bytes e) (entries_bytes es))))

  decode_awareness_entries-bytes :
      (es : List (Entry py))
      → length es ≤ max_awareness_entries
      → All IsSafeEntry es
      → All IsLoaded es
      → decode_awareness_entries py (groups 7 (length es) ++ entries_bytes es) ≡ ok es
  unfolding decode_awareness_entries
  decode_awareness_entries-bytes es few safe loaded =
      let prefix = groups 7 (length es) in
      let payload = prefix ++ entries_bytes es in
      let at = At-skip payload prefix (entries_bytes es) 0 (At-start payload) in
      let o1 = 0 + length prefix in
      rw (
        decode_var_uint-At payload 0 (length es) (entries_bytes es) (omega arith)
            (At-start payload),
        ltb-false max_awareness_entries (length es) few,
        decode_entries-At payload o1 es [] safe loaded (At-last payload (entries_bytes es) o1 at),
        ensure_finished-At_end payload _ (At-end payload (entries_bytes es) o1 at),
      )

  encode_entry-eq_ok :
      (e : Entry py) {bytes : Bytes}
      → encode_entry py e ≡ ok bytes
      → IsSafeEntry e × (bytes ≡ entry_bytes e)
  unfolding encode_entry encode_var_string entry_bytes text_bytes
  encode_entry-eq_ok e h =
      let (_, first, h1) = >>=-eq-ok (encode_var_uint e.client_id) _ h in
      let (_, second, h2) = >>=-eq-ok (encode_var_uint e.clock) _ h1 in
      let (_, third, h3) = >>=-eq-ok (encode_var_bytes (utf8_encode e.encoded_state)) _ h2 in
      let (safe0, is0) = encode_var_uint-eq_ok e.client_id first in
      let (safe1, is1) = encode_var_uint-eq_ok e.clock second in
      let (safe2, is2) = encode_var_bytes-eq_ok (utf8_encode e.encoded_state) third in
      ((safe0, safe1, safe2), cc)

  encode_entries-eq_ok :
      (es : List (Entry py)) {bytes : Bytes}
      → encode_entries py es ≡ ok bytes
      → All IsSafeEntry es × (bytes ≡ entries_bytes es)
  unfolding encode_entries entries_bytes
  encode_entries-eq_ok [] h = (tt, cc)
  encode_entries-eq_ok (e ∷ es) h =
      let (_, first, h1) = >>=-eq-ok (encode_entry py e) _ h in
      let (_, second, h2) = >>=-eq-ok (encode_entries py es) _ h1 in
      let (safe0, is0) = encode_entry-eq_ok e first in
      let (safe1, is1) = encode_entries-eq_ok es second in ((safe0, safe1), cc)

  parse_awareness-At :
      (frame : Bytes) (offset : ℕ) (es : List (Entry py)) (payload : Bytes)
      → length payload ≤ max_safe_integer
      → decode_awareness_entries py payload ≡ ok es
      → At frame offset (var_bytes payload)
      → parse_awareness py frame offset ≡ ok (awareness es)
  unfolding parse_awareness
  parse_awareness-At frame offset es payload safe decoded at = rw (
    decode_var_bytes-At frame offset payload [] safe (At-last frame _ offset at),
    ensure_finished-At_end frame _ (At-end frame _ offset at),
    decoded,
  )

  abbrev payload_of : List (Entry py) → Bytes
  payload_of es = groups 7 (length es) ++ entries_bytes es

  encode_awareness_message-eq_ok :
      (es : List (Entry py)) {frame : Bytes}
      → encode_awareness_message py es ≡ ok frame
      → All IsSafeEntry es
        × (length (payload_of es) ≤ max_safe_integer)
        × (frame ≡ groups 7 message_awareness ++ var_bytes (payload_of es))
  unfolding encode_awareness_message
  encode_awareness_message-eq_ok es e =
      let (count, first, e1) = >>=-eq-ok (encode_var_uint (length es)) _ e in
      let (entries, second, e2) = >>=-eq-ok (encode_entries py es) _ e1 in
      let (outer, third, e3) = >>=-eq-ok (encode_var_uint message_awareness) _ e2 in
      let (body, fourth, e4) = >>=-eq-ok (encode_var_bytes (count ++ entries)) _ e3 in
      let (safe, are) = encode_entries-eq_ok es second in
      let payload_is : count ++ entries ≡ payload_of es =
        cc ((encode_var_uint-eq_ok (length es) first).1, are) in
      let (small, body_is) =
        encode_var_bytes-eq_ok (payload_of es)
          (subst (λ t. encode_var_bytes t ≡ ok body) payload_is fourth) in
      (safe, small, cc ((encode_var_uint-eq_ok message_awareness third).1, body_is, e4))

  -- An awareness update of at most 10000 entries, each with the JSON text of its state, that
  -- `encode_awareness_message` built within the frame size limit parses back to the same entries.
  pub parse_message-encode_awareness_message :
      (es : List (Entry py)) {frame : Bytes}
      → All IsLoaded es
      → length es ≤ max_awareness_entries
      → encode_awareness_message py es ≡ ok frame
      → length frame ≤ max_message_size
      → parse_message py frame ≡ ok (awareness es)
  parse_message-encode_awareness_message es loaded few e fits =
      let (safe, small, parts) = encode_awareness_message-eq_ok es e in
      let rest = var_bytes (payload_of es) in
      let type_1 = groups 7 message_awareness in
      rw parts (
        parse_message-dispatch py message_awareness rest (omega arith) (rw parts at fits)
        ∙ unfold dispatch in
          parse_awareness-At _ (length type_1) es (payload_of es) small
            (decode_awareness_entries-bytes es few safe loaded) (At-prefix type_1 rest))

  parse_auth-At :
      (frame : Bytes) (offset : ℕ) (reason : Text)
      → length (utf8_encode reason) ≤ max_safe_integer
      → At frame offset (groups 7 auth_permission_denied ++ text_bytes reason)
      → parse_auth py frame offset ≡ ok (auth auth_permission_denied reason)
  unfolding parse_auth
  parse_auth-At frame offset reason safe at =
      let subtype = groups 7 auth_permission_denied in
      let o1 = offset + length subtype in
      let after = At-skip frame subtype (text_bytes reason) offset at in
      rw (
        decode_var_uint-At frame offset auth_permission_denied (text_bytes reason) (omega arith) at,
        decode_var_string-At frame o1 reason [] safe (At-last frame _ o1 after),
        ensure_finished-At_end frame _ (At-end frame _ o1 after),
      )

  -- The permission-denied frame that the server builds, within the frame size limit, parses back to
  -- the auth message with its reason.
  pub parse_message-encode_permission_denied :
      (reason : Text) {frame : Bytes}
      → encode_permission_denied py reason ≡ ok frame
      → length frame ≤ max_message_size
      → parse_message py frame ≡ ok (auth auth_permission_denied reason)
  unfolding encode_permission_denied encode_var_string text_bytes
  parse_message-encode_permission_denied reason {frame} e fits =
      let (outer, first, e1) = >>=-eq-ok (encode_var_uint message_auth) _ e in
      let (inner, second, e2) = >>=-eq-ok (encode_var_uint auth_permission_denied) _ e1 in
      let (body, third, e3) = >>=-eq-ok (encode_var_bytes (utf8_encode reason)) _ e2 in
      let (safe, body_is) = encode_var_bytes-eq_ok (utf8_encode reason) third in
      let type_2 = groups 7 message_auth in
      let rest = groups 7 auth_permission_denied ++ text_bytes reason in
      let parts : frame ≡ type_2 ++ rest = cc (
        (encode_var_uint-eq_ok message_auth first).1,
        (encode_var_uint-eq_ok auth_permission_denied second).1,
        body_is,
        e3,
      ) in
      rw parts (
        parse_message-dispatch py message_auth rest (omega arith) (rw parts at fits)
        ∙ unfold dispatch in parse_auth-At _ (length type_2) reason safe (At-prefix type_2 rest))

  -- No client can feed the server's own events back: a document-status or execution-event frame of
  -- any text, within the frame size limit, is refused for its message type.
  pub parse_message_server_only :
      (payload : Text) {saved event : Bytes}
      → encode_document_saved py payload ≡ ok saved
      → encode_execution_event py payload ≡ ok event
      → length saved ≤ max_message_size
      → length event ≤ max_message_size
      → (parse_message py saved ≡ err (unknown_type message_document_status))
        × (parse_message py event ≡ err (unknown_type message_execution_event))
  unfolding encode_document_saved encode_execution_event dispatch
  parse_message_server_only payload s e fits_s fits_e = (
    refused message_document_status s fits_s (λ bytes offset. refl),
    refused message_execution_event e fits_e (λ bytes offset. refl),
  )
    where
      refused :
          (t : ℕ) {frame : Bytes}
          → (encode_var_uint t >>= λ outer.
              encode_var_string py payload >>= λ body. ok (outer ++ body))
            ≡ ok frame
          → length frame ≤ max_message_size
          → ((bytes : Bytes) (offset : ℕ) → dispatch py t bytes offset ≡ err (unknown_type t))
          → parse_message py frame ≡ err (unknown_type t)
      refused t {frame} h fits unknown =
          let (outer, first, h1) = >>=-eq-ok (encode_var_uint t) _ h in
          let (body, second, h2) = >>=-eq-ok (encode_var_string py payload) _ h1 in
          let (safe, outer_is) = encode_var_uint-eq_ok t first in
          let parts : frame ≡ groups 7 t ++ body = cc (outer_is, h2) in
          rw parts (parse_message-dispatch py t body safe (rw parts at fits) ∙ unknown _ _)
