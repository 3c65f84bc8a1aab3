-- ===== src/Protocol/Strict.antt =====
-- `parse_message` of protocol.py on any input: what an accepted frame guarantees, and that nothing may
-- follow an accepted message.
use code_collaborator.Base.{
  ℕ, ◌≤◌, ◌<◌, ◌≡◌, arith, Bool, true, false, not, ◌++◌, length, ltb, ltb-false, ok, err, ◌==◌,
  length-append, >>=-eq-ok, raise_if-eq-ok, raise_if, if◌then◌else◌,
}
use code_collaborator.Lib0.{
  Bytes, Parse, decode_var_uint, decode_var_bytes, ensure_finished, trailing_bytes,
}
use code_collaborator.Lib0.Bounds.{decode_var_uint-append, decode_var_bytes-append}
use code_collaborator.Protocol.{
  PyText, Message, known_subtype, max_message_size, parse_message, dispatch, parse_sync,
  parse_awareness, parse_query, parse_auth, decode_var_string, message_awareness, message_sync,
  message_query_awareness, message_auth, auth_permission_denied,
}

ensure_finished-append :
    (frame more : Bytes) (offset : ℕ) {u : Unit}
    → 0 < length more
    → ensure_finished frame offset ≡ ok u
    → ensure_finished (frame ++ more) offset ≡ err trailing_bytes
unfolding ensure_finished
ensure_finished-append frame more offset longer e =
    ground (arith, raise_if-eq-ok _ _ e, length-append frame more)

module _ (py : PyText) where
  open py use {Text, State, utf8_decode, loads}

  -- A branch that accepted a frame refuses the frame with anything after it.
  abbrev RefusesMore : (Bytes → ℕ → Parse (Message py)) → Type 0
  RefusesMore branch =
      (frame more : Bytes) (offset : ℕ) (m : Message py)
      → 0 < length more
      → branch frame offset ≡ ok m
      → branch (frame ++ more) offset ≡ err trailing_bytes

  decode_var_string-append :
      (bytes more : Bytes) (offset : ℕ) {r : Text × ℕ}
      → decode_var_string py bytes offset ≡ ok r
      → decode_var_string py (bytes ++ more) offset ≡ ok r
  unfolding decode_var_string
  decode_var_string-append bytes more offset e =
      let (_, read, e1) = >>=-eq-ok (decode_var_bytes bytes offset) _ e in
      rw (decode_var_bytes-append bytes more offset read) e1

  parse_sync-more : RefusesMore (parse_sync py)
  unfolding parse_sync
  parse_sync-more frame more offset m longer e =
      let ((subtype, o1), first, e1) = >>=-eq-ok (decode_var_uint frame offset) _ e in
      let (_, known, e2) = >>=-eq-ok (raise_if (not (known_subtype subtype)) _) _ e1 in
      let ((payload, o2), second, e3) = >>=-eq-ok (decode_var_bytes frame o1) _ e2 in
      let (_, third, e4) = >>=-eq-ok (ensure_finished frame o2) _ e3 in
      rw (
        decode_var_uint-append frame more offset first,
        raise_if-eq-ok _ _ known,
        decode_var_bytes-append frame more o1 second,
        ensure_finished-append frame more o2 longer third,
      )

  parse_awareness-more : RefusesMore (parse_awareness py)
  unfolding parse_awareness
  parse_awareness-more frame more offset m longer e =
      let ((payload, o1), first, e1) = >>=-eq-ok (decode_var_bytes frame offset) _ e in
      let (_, second, e2) = >>=-eq-ok (ensure_finished frame o1) _ e1 in
      rw (
        decode_var_bytes-append frame more offset first,
        ensure_finished-append frame more o1 longer second,
      )

  parse_query-more : RefusesMore (parse_query py)
  unfolding parse_query
  parse_query-more frame more offset m longer e =
      let (_, first, e1) = >>=-eq-ok (ensure_finished frame offset) _ e in
      rw (ensure_finished-append frame more offset longer first)

  parse_auth-more : RefusesMore (parse_auth py)
  unfolding parse_auth
  parse_auth-more frame more offset m longer e =
      let ((subtype, o1), first, e1) = >>=-eq-ok (decode_var_uint frame offset) _ e in
      let (_, known, e2) = >>=-eq-ok (raise_if (not (subtype == auth_permission_denied)) _) _ e1 in
      let ((reason, o2), second, e3) = >>=-eq-ok (decode_var_string py frame o1) _ e2 in
      let (_, third, e4) = >>=-eq-ok (ensure_finished frame o2) _ e3 in
      rw (
        decode_var_uint-append frame more offset first,
        raise_if-eq-ok _ _ known,
        decode_var_string-append frame more o1 second,
        ensure_finished-append frame more o2 longer third,
      )

  -- A test of the dispatch, decided either way.
  if-more :
      (b : Bool) (p q : Bytes → ℕ → Parse (Message py))
      → RefusesMore p
      → RefusesMore q
      → RefusesMore (λ frame offset. if b then p frame offset else q frame offset)
  if-more true p q hp hq = hp
  if-more false p q hp hq = hq

  dispatch-more : (t : ℕ) → RefusesMore (dispatch py t)
  unfolding dispatch
  dispatch-more t = if-more (t == message_sync) _ _ parse_sync-more (
      if-more (t == message_awareness) _ _ parse_awareness-more (
        if-more (t == message_query_awareness) _ _ parse_query-more
          (if-more (t == message_auth) _ _ parse_auth-more (λ frame more offset m longer e. cc))))

  -- Messages are framed strictly: bytes added behind an accepted frame, within the size limit, make it
  -- fail with the trailing-bytes error, whatever they are.
  pub parse_message_trailing :
      (frame more : Bytes) (m : Message py)
      → parse_message py frame ≡ ok m
      → 0 < length more
      → length (frame ++ more) ≤ max_message_size
      → parse_message py (frame ++ more) ≡ err trailing_bytes
  unfolding parse_message
  parse_message_trailing frame more m e longer fits =
      let (_, some_bytes, e1) = >>=-eq-ok (raise_if (length frame == 0) _) _ e in
      let (_, small, e2) = >>=-eq-ok (raise_if (ltb max_message_size (length frame)) _) _ e1 in
      let ((t, offset), read, e3) = >>=-eq-ok (decode_var_uint frame 0) _ e2 in
      let still_some : (length (frame ++ more) == 0) ≡ false =
        ground (arith, length-append frame more) in
      rw
        (
          still_some,
          ltb-false max_message_size (length (frame ++ more)) fits,
          decode_var_uint-append frame more 0 read,
        )
        (dispatch-more t frame more offset m longer e3)
