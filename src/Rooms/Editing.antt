-- ===== src/Rooms/Editing.antt =====
-- backend/app/collaboration/websocket.py, `_handle_binary_message`: what becomes of an edit.
use code_collaborator.Base.{
  ℕ, ◌+◌, ◌≤◌, ◌<◌, ◌≡◌, ◌≢◌, ◌⊎◌, refl, Bool, Option, none, some, is_some, List, [], ◌∷◌, ◌++◌,
  ◌==◌, length, Bool-cases, inl, inr, ok, err, arith,
}
use code_collaborator.Base.Dict.{lookup}
use code_collaborator.Models.{Role, editor, role_rank}
use code_collaborator.Lib0.{Bytes, Parse}
use code_collaborator.Lib0.VarUint.{groups, encode_var_uint-groups}
use code_collaborator.Lib0.Reading.{var_bytes, encode_var_bytes-var_bytes}
use code_collaborator.Protocol.{
  PyText, ParsedMessage, sync, awareness, query, auth, sync_step1, sync_update, message_sync,
  max_message_size, parse_message, encode_sync_message, encode_sync_update,
  encode_permission_denied, encode_awareness_message, encode_sync_step2, AwarenessEntry,
}
use code_collaborator.Awareness.{active_entries, apply_update}
use code_collaborator.Document.{
  Crdt, Documents, DocumentError, get_or_create, encode_state_as_update,
}
use code_collaborator.Document.Generations.{get_or_create_live}
use code_collaborator.Hub.{
  Hub, Decision, Closing, invalid, denied, allowed, decide, decision_of, authorization_failure,
}
use code_collaborator.Rooms.{
  Room, Codec, send_bytes, broadcast_binary, broadcast_awareness, answer_step1, apply_decided,
  handle_parsed, handle_binary_message,
}

-- The frame of a sync update whose payload leaves room for its head.
abbrev pub sync_update_frame : Bytes → Bytes
sync_update_frame payload = groups 7 message_sync ++ (groups 7 sync_update ++ var_bytes payload)

pub encode_sync_update-frame :
    (payload : Bytes)
    → length payload + 10 ≤ max_message_size
    → encode_sync_update payload ≡ ok (sync_update_frame payload)
unfolding encode_sync_update encode_sync_message
encode_sync_update-frame payload fits = rw (
  encode_var_uint-groups message_sync (omega arith),
  encode_var_uint-groups sync_update (omega arith),
  encode_var_bytes-var_bytes payload (omega arith),
)

refused-decision_of :
    (o : Option Closing) (role : Role)
    → (role_rank role < role_rank editor) ⊎ (o ≢ none)
    → decision_of o role ≢ allowed
refused-decision_of (some c) role why = λ e. cc
refused-decision_of none role (inl low) = λ e. ground arith
refused-decision_of none role (inr stale) = absurd (stale refl)

refused-decide :
    (h : Hub) (sid uid w : ℕ) (role : Role)
    → (role_rank role < role_rank editor) ⊎ (authorization_failure h sid uid w ≢ none)
    → decide h sid uid w role ≢ allowed
unfolding decide
refused-decide h sid uid w role why =
    refused-decision_of (authorization_failure h sid uid w) role why

module _ (py : PyText) (crdt : Crdt) (codec : Codec py crdt) (alive : ℕ → Bool) where
  open crdt use {Doc, State}

  docs-send_bytes :
      (w : ℕ) (p : Parse Bytes) (s : Room py crdt)
      → (send_bytes py crdt codec alive w p s).1.docs ≡ s.docs
  unfolding send_bytes
  docs-send_bytes w (err e) s = refl
  docs-send_bytes w (ok frame) s = elim (Bool-cases (alive w)) [
    | inl e ↦ rw e refl
    | inr e ↦ rw e refl
  ]

  docs-broadcast_binary :
      (sid : ℕ) (p : Parse Bytes) (s : Room py crdt)
      → (broadcast_binary py crdt codec alive sid p s).1.docs ≡ s.docs
  unfolding broadcast_binary
  docs-broadcast_binary sid (err e) s = refl
  docs-broadcast_binary sid (ok frame) s = refl

  docs-broadcast_awareness :
      (sid : ℕ) (es : List (AwarenessEntry py.Text py.State)) (s : Room py crdt)
      → (broadcast_awareness py crdt codec alive sid es s).1.docs ≡ s.docs
  unfolding broadcast_awareness
  docs-broadcast_awareness sid [] s = refl
  docs-broadcast_awareness sid (e ∷ es) s =
      docs-broadcast_binary sid (encode_awareness_message py (e ∷ es)) s

  encode_state_live :
      (sid : ℕ) (vector : crdt.Vector) (m : Documents crdt) (doc : Doc)
      → lookup sid m.docs ≡ some doc
      → encode_state_as_update crdt sid (some vector) m ≡ (ok (crdt.get_diff vector doc), m)
  unfolding encode_state_as_update
  encode_state_live sid vector m doc live =
      let e = get_or_create_live crdt sid m doc live in rw (encode_state_as_update, e) (rw e refl)

  docs-answer_step1 :
      (w sid : ℕ) (vector : Option crdt.Vector) (s : Room py crdt) (doc : Doc)
      → lookup sid s.docs.docs ≡ some doc
      → (answer_step1 py crdt codec alive w sid vector s).1.docs ≡ s.docs
  unfolding answer_step1
  docs-answer_step1 w sid none s doc live = rw (get_or_create_live crdt sid s.docs doc live) refl
  docs-answer_step1 w sid (some vector) s doc live =
      rw (encode_state_live sid vector s.docs doc live)
        (docs-send_bytes w (encode_sync_step2 (codec.state_bytes (crdt.get_diff vector doc))) s)

  docs-apply_decided :
      (d : Decision) (w sid : ℕ) (payload : Bytes) (s : Room py crdt)
      → d ≢ allowed
      → (apply_decided py crdt codec alive d w sid payload s).1.docs ≡ s.docs
  unfolding apply_decided
  docs-apply_decided (invalid c) w sid payload s refused = refl
  docs-apply_decided denied w sid payload s refused =
      docs-send_bytes w (encode_permission_denied py codec.viewers_cannot_edit) s
  docs-apply_decided allowed w sid payload s refused = absurd (refused refl)

  docs-handle_parsed :
      (w sid uid : ℕ) (role : Role) (now : ℕ) (p : Parse (ParsedMessage py.Text py.State))
      (s : Room py crdt) (doc : Doc)
      → lookup sid s.docs.docs ≡ some doc
      → decide s.hub sid uid w role ≢ allowed
      → (handle_parsed py crdt codec alive w sid uid role now p s).1.docs ≡ s.docs
  unfolding handle_parsed
  docs-handle_parsed w sid uid role now (err e) s doc live refused = refl
  docs-handle_parsed w sid uid role now (ok (sync m)) s doc live refused =
      elim (Bool-cases (m.subtype == sync_step1)) [
        | inl e ↦ rw e (docs-answer_step1 w sid (codec.as_vector m.payload) s doc live)
        | inr e ↦ rw e (docs-apply_decided (decide s.hub sid uid w role) w sid m.payload s refused)
      ]
  docs-handle_parsed w sid uid role now (ok (awareness entries)) s doc live refused =
      let (store, accepted) = apply_update sid w entries now s.store in
      docs-broadcast_awareness sid accepted (record s { store = store })
  docs-handle_parsed w sid uid role now (ok query) s doc live refused =
      docs-send_bytes w (encode_awareness_message py (active_entries sid s.store)) s
  docs-handle_parsed w sid uid role now (ok (auth subtype reason)) s doc live refused = refl

  -- No frame of a connection that may not write, because it is a viewer's or because its authorization is
  -- stale, changes any document, its metadata or the stores, as long as the document of its room is live.
  pub refused_keeps_documents :
      (w sid uid : ℕ) (role : Role) (now : ℕ) (frame : Bytes) (s : Room py crdt) (doc : Doc)
      → lookup sid s.docs.docs ≡ some doc
      → (role_rank role < role_rank editor) ⊎ (authorization_failure s.hub sid uid w ≢ none)
      → (handle_binary_message py crdt codec alive w sid uid role now frame s).1.docs ≡ s.docs
  unfolding handle_binary_message
  refused_keeps_documents w sid uid role now frame s doc live why =
      elim (Bool-cases (is_some (s.hub.revoked w))) [
        | inl e ↦ rw e refl
        | inr e ↦ rw e (
            docs-handle_parsed w sid uid role now (parse_message py frame) s doc live
              (refused-decide s.hub sid uid w role why))
      ]
