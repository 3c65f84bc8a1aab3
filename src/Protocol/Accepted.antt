-- ===== src/Protocol/Accepted.antt =====
-- What a message guarantees that `parse_message` of protocol.py accepted.
use code_collaborator.Base.{
  ℕ, zero, suc, ◌+◌, ◌≤◌, ◌<◌, ◌≡◌, refl, ap, subst, arith, Bool, true, false, not, List, [], ◌∷◌,
  length, ltb, ok, ◌==◌, All, >>=-eq-ok, raise_if-eq-ok, raise_if, or_raise, or_raise-eq-ok, some,
  if◌then◌else◌,
}
use code_collaborator.Lib0.{
  Bytes, Parse, max_safe_integer, decode_var_uint, decode_var_bytes, ensure_finished,
}
use code_collaborator.Lib0.Bounds.{decode_var_uint_bounds, decode_var_bytes_bounds}
use code_collaborator.Protocol.{
  PyText, sync, awareness, query, auth, Entry, Message, known_subtype, max_message_size,
  max_awareness_entries, parse_message, dispatch, parse_sync, parse_awareness, parse_query,
  parse_auth, decode_var_string, decode_entry, decode_entries, decode_awareness_entries,
  message_awareness, message_sync, message_query_awareness, message_auth, auth_permission_denied,
}

module _ (py : PyText) where
  open py use {Text, State, utf8_decode, loads}

  -- The integers of an entry are JavaScript-safe, and its state is what its JSON text stands for.
  abbrev pub IsSoundEntry : Entry py → Type 0
  IsSoundEntry e =
      (e.client_id ≤ max_safe_integer)
      × (e.clock ≤ max_safe_integer)
      × (loads e.encoded_state ≡ some e.state)

  -- What holds of a message that a frame of `size` bytes carried.
  abbrev pub IsAccepted : ℕ → Message py → Type 0
  IsAccepted size (sync m) = (m.subtype ≤ 2) × (length m.payload + 2 < size)
  IsAccepted size (awareness es) = (length es ≤ max_awareness_entries) × All IsSoundEntry es
  IsAccepted size query = size ≤ 8
  IsAccepted size (auth subtype reason) = subtype ≡ auth_permission_denied

  decode_entry-IsSoundEntry :
      (payload : Bytes) (offset : ℕ) {entry : Entry py} {next : ℕ}
      → decode_entry py payload offset ≡ ok (entry, next)
      → IsSoundEntry entry
  unfolding decode_entry
  decode_entry-IsSoundEntry payload offset {entry} e =
      let ((client_id, o1), first, e1) = >>=-eq-ok (decode_var_uint payload offset) _ e in
      let ((clock, o2), second, e2) = >>=-eq-ok (decode_var_uint payload o1) _ e1 in
      let ((text, o3), third, e3) = >>=-eq-ok (decode_var_string py payload o2) _ e2 in
      let (state, fourth, e4) = >>=-eq-ok (or_raise (loads text) _) _ e3 in
      let loaded = or_raise-eq-ok (loads text) _ fourth in
      let found : Entry py = record {
        client_id = client_id;
        clock = clock;
        state = state;
        encoded_state = text;
      } in
      let same : found ≡ entry = cc e4 in
      subst IsSoundEntry same (
        (decode_var_uint_bounds payload offset first).0,
        (decode_var_uint_bounds payload o1 second).0,
        loaded,
      )

  decode_entries-All :
      (count : ℕ) (payload : Bytes) (offset : ℕ) {es : List (Entry py)} {next : ℕ}
      → decode_entries py count payload offset ≡ ok (es, next)
      → (length es ≡ count) × All IsSoundEntry es
  unfolding decode_entries
  decode_entries-All zero payload offset {es} e =
      let same : [] ≡ es = cc e in subst (λ l. (length l ≡ 0) × All IsSoundEntry l) same (refl, tt)
  decode_entries-All (suc count) payload offset {es} e =
      let ((entry, o1), first, e1) = >>=-eq-ok (decode_entry py payload offset) _ e in
      let ((rest, o2), second, e2) = >>=-eq-ok (decode_entries py count payload o1) _ e1 in
      let (counted, sound) = decode_entries-All count payload o1 second in
      let same : entry ∷ rest ≡ es = cc e2 in
      subst (λ l. (length l ≡ suc count) × All IsSoundEntry l) same
        (ap suc counted, (decode_entry-IsSoundEntry payload offset first, sound))

  decode_awareness_entries-All :
      (payload : Bytes) {es : List (Entry py)}
      → decode_awareness_entries py payload ≡ ok es
      → (length es ≤ max_awareness_entries) × All IsSoundEntry es
  unfolding decode_awareness_entries
  decode_awareness_entries-All payload {es} e =
      let ((count, o1), first, e1) = >>=-eq-ok (decode_var_uint payload 0) _ e in
      let (_, few, e2) = >>=-eq-ok (raise_if (ltb max_awareness_entries count) _) _ e1 in
      let ((rest, o2), second, e3) = >>=-eq-ok (decode_entries py count payload o1) _ e2 in
      let (_, third, e4) = >>=-eq-ok (ensure_finished payload o2) _ e3 in
      let (counted, sound) = decode_entries-All count payload o1 second in
      let same : rest ≡ es = cc e4 in
      let bounded : length rest ≤ max_awareness_entries = ground (arith, raise_if-eq-ok _ _ few) in
      subst (λ l. (length l ≤ max_awareness_entries) × All IsSoundEntry l) same (bounded, sound)

  abbrev Accepts : (Bytes → ℕ → Parse (Message py)) → Type 0
  Accepts branch =
      (frame : Bytes) (offset : ℕ) (m : Message py)
      → 1 ≤ offset
      → offset ≤ 8
      → branch frame offset ≡ ok m
      → IsAccepted (length frame) m

  ensure_finished-eq-ok :
      (frame : Bytes) (offset : ℕ) {u : Unit}
      → ensure_finished frame offset ≡ ok u
      → offset ≡ length frame
  unfolding ensure_finished
  ensure_finished-eq-ok frame offset e = ground (arith, raise_if-eq-ok _ _ e)

  parse_sync-Accepts : Accepts (parse_sync py)
  unfolding parse_sync
  parse_sync-Accepts frame offset m lo hi e =
      let ((subtype, o1), first, e1) = >>=-eq-ok (decode_var_uint frame offset) _ e in
      let (_, known, e2) = >>=-eq-ok (raise_if (not (known_subtype subtype)) _) _ e1 in
      let ((payload, o2), second, e3) = >>=-eq-ok (decode_var_bytes frame o1) _ e2 in
      let (_, third, e4) = >>=-eq-ok (ensure_finished frame o2) _ e3 in
      let bounds = decode_var_bytes_bounds frame o1 second in
      let later = (decode_var_uint_bounds frame offset first).1 in
      let small : subtype ≤ 2 = ground (arith, raise_if-eq-ok _ _ known) in
      let found : Message py = sync (record { subtype = subtype; payload = payload }) in
      let same : found ≡ m = cc e4 in subst (IsAccepted (length frame)) same (small, omega arith)

  parse_awareness-Accepts : Accepts (parse_awareness py)
  unfolding parse_awareness
  parse_awareness-Accepts frame offset m lo hi e =
      let ((payload, o1), first, e1) = >>=-eq-ok (decode_var_bytes frame offset) _ e in
      let (_, second, e2) = >>=-eq-ok (ensure_finished frame o1) _ e1 in
      let (es, third, e3) = >>=-eq-ok (decode_awareness_entries py payload) _ e2 in
      let same : awareness es ≡ m = cc e3 in
      subst (IsAccepted (length frame)) same (decode_awareness_entries-All payload third)

  parse_query-Accepts : Accepts (parse_query py)
  unfolding parse_query
  parse_query-Accepts frame offset m lo hi e =
      let (_, first, e1) = >>=-eq-ok (ensure_finished frame offset) _ e in
      let same : query ≡ m = cc e1 in
      let short : length frame ≤ 8 = omega (arith, ensure_finished-eq-ok frame offset first) in
      subst (IsAccepted (length frame)) same short

  parse_auth-Accepts : Accepts (parse_auth py)
  unfolding parse_auth
  parse_auth-Accepts frame offset m lo hi e =
      let ((subtype, o1), first, e1) = >>=-eq-ok (decode_var_uint frame offset) _ e in
      let (_, known, e2) = >>=-eq-ok (raise_if (not (subtype == auth_permission_denied)) _) _ e1 in
      let ((reason, o2), second, e3) = >>=-eq-ok (decode_var_string py frame o1) _ e2 in
      let (_, third, e4) = >>=-eq-ok (ensure_finished frame o2) _ e3 in
      let denied : subtype ≡ auth_permission_denied = ground (arith, raise_if-eq-ok _ _ known) in
      let same : auth subtype reason ≡ m = cc e4 in subst (IsAccepted (length frame)) same denied

  if-Accepts :
      (b : Bool) (p q : Bytes → ℕ → Parse (Message py))
      → Accepts p
      → Accepts q
      → Accepts (λ frame offset. if b then p frame offset else q frame offset)
  if-Accepts true p q hp hq = hp
  if-Accepts false p q hp hq = hq

  dispatch-Accepts : (t : ℕ) → Accepts (dispatch py t)
  unfolding dispatch
  dispatch-Accepts t = if-Accepts (t == message_sync) _ _ parse_sync-Accepts (
      if-Accepts (t == message_awareness) _ _ parse_awareness-Accepts (
        if-Accepts (t == message_query_awareness) _ _ parse_query-Accepts
          (if-Accepts (t == message_auth) _ _ parse_auth-Accepts (λ frame offset m lo hi e. cc))))

  -- An accepted frame is not empty and has at most 16 MiB. It carries a sync message of subtype 0, 1 or 2
  -- whose payload is shorter than the frame by at least three bytes; or at most 10000 awareness entries
  -- with JavaScript-safe client ids and clocks, each with the state that its JSON text stands for; or a
  -- query of at most eight bytes; or a permission-denied message.
  pub parse_message-IsAccepted :
      (frame : Bytes) (m : Message py)
      → parse_message py frame ≡ ok m
      → (1 ≤ length frame) × (length frame ≤ max_message_size) × IsAccepted (length frame) m
  unfolding parse_message
  parse_message-IsAccepted frame m e =
      let (_, some_bytes, e1) = >>=-eq-ok (raise_if (length frame == 0) _) _ e in
      let (_, small, e2) = >>=-eq-ok (raise_if (ltb max_message_size (length frame)) _) _ e1 in
      let ((t, offset), read, e3) = >>=-eq-ok (decode_var_uint frame 0) _ e2 in
      let (_, later, short, _) = decode_var_uint_bounds frame 0 read in
      (
        ground (arith, raise_if-eq-ok _ _ some_bytes),
        ground (arith, raise_if-eq-ok _ _ small),
        dispatch-Accepts t frame offset m (omega arith) (omega arith) e3,
      )
