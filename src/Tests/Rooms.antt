-- ===== src/Tests/Rooms.antt =====
-- A room of backend/app/collaboration/websocket.py: user 2, an editor of session 7, has joined it with
-- WebSocket 5.
use code_collaborator.Base.{
  ◌==◌, ℕ, ◌≡◌, ◌≢◌, refl, arith, Bool, true, some, List, [], ◌∷◌, length, ok, update, inl,
}
use code_collaborator.Models.{editor, viewer, python}
use code_collaborator.Sessions.History.{no_sessions}
use code_collaborator.Access.{require_current_editor}
use code_collaborator.Document.{Crdt, Documents, contains}
use code_collaborator.Hub.{
  AuthorizationStamp, Connection, allowed, decide, authorization_failure, check_session,
  member_role, stamp_now, set_stamp, enter_room, closing, ws_forbidden,
  invalidate_member_connections,
}
use code_collaborator.Hub.System.{
  System, started, stamped, session_read, authenticated, accepted, joined, create, add, take_stamp,
  read_session, read_member, accept, join, Reach, start, later,
}
use code_collaborator.Hub.Safety.{allowed_is_editor}
use code_collaborator.Rooms.{Room, Codec, handle_binary_message}
use code_collaborator.Rooms.Endpoint.{disconnect, binary_frame, waiting}
use code_collaborator.Rooms.Serving.{Circumstances, serve_connection}
use code_collaborator.Rooms.Cleanup.{IsGone, disconnected_is_gone}
use code_collaborator.Rooms.Flush.{checkpoint_on_shutdown, shutdown_checkpoints_all}
use code_collaborator.Base.Dict.{lookup}
use code_collaborator.Rooms.Editing.{refused_keeps_documents}
use code_collaborator.Tests.Frames.{py, update_frame}
use code_collaborator.Tests.Members.{users, created, shared, open_row, creates, adds}
use code_collaborator.Tests.Documents.{crdt, one, doc, meta}

abbrev empty_system : System
empty_system = started (no_sessions users)

abbrev with_session : System
with_session = record empty_system { db = created }

abbrev with_editor : System
with_editor = record with_session { db = shared }

abbrev stamp : AuthorizationStamp
stamp = stamp_now with_editor.hub 7 2

abbrev after_stamp : System
after_stamp = record with_editor { phases = update with_editor.phases 5 (stamped 7 2 stamp) }

abbrev after_session : System
after_session = record after_stamp { phases = update after_stamp.phases 5 (session_read 7 2 stamp) }

abbrev after_read : System
after_read = record after_session {
  phases = update after_session.phases 5 (authenticated 7 2 editor stamp);
}

abbrev after_accept : System
after_accept = record after_read {
  hub = set_stamp 5 stamp after_read.hub;
  phases = update after_read.phases 5 (accepted 7 2 editor);
}

abbrev bob : Connection
bob = record { websocket = 5; user_id = 2; username = "bob"; role = editor }

abbrev pub connected : System
connected = record after_accept {
  hub = enter_room 7 bob after_accept.hub;
  phases = update after_accept.phases 5 (joined 7 2 editor);
}

session_open : check_session shared 7 2 ≡ ok open_row
unfolding check_session
session_open = refl

bob_is_editor : member_role shared 7 2 ≡ ok editor
unfolding member_role
bob_is_editor = refl

with_editor-reached : Reach (no_sessions users) with_editor
with_editor-reached =
    later (later start (create 7 10 "room" python 1 creates)) (add 7 2 editor adds)

after_read-reached : Reach (no_sessions users) after_read
after_read-reached =
    later
      (later (later with_editor-reached (take_stamp 7 2 5 refl))
        (read_session 7 2 5 stamp refl session_open))
      (read_member 7 2 5 stamp editor refl bob_is_editor)

pub connected-reached : Reach (no_sessions users) connected
connected-reached =
    later (later after_read-reached (accept 7 2 5 stamp editor refl))
      (join 7 2 5 editor "bob" refl refl)

bob_may_write : decide connected.hub 7 2 5 editor ≡ allowed
unfolding decide authorization_failure stamp_now
bob_may_write = refl

allowed_is_editor_example : require_current_editor connected.db 7 2 ≡ ok tt
allowed_is_editor_example = allowed_is_editor 7 2 5 editor connected-reached refl refl bob_may_write

abbrev pub codec : Codec py crdt
codec = record {
  as_state = λ bytes. bytes;
  as_vector = λ bytes. some (length bytes);
  state_bytes = λ state. state;
  vector_bytes = λ vector. vector ∷ [];
  viewers_cannot_edit = 33 ∷ [];
  null_text = [];
  saved_text = λ saved_at vector hash dirty saved_by. 1 ∷ [];
}

abbrev pub alive : ℕ → Bool
alive _ = true

abbrev pub room : Room py crdt
room = record {
  hub = connected.hub;
  docs = one;
  store = record { sessions = []; stale_timeout = 30 };
  sent = [];
}

abbrev edited_one : Documents crdt
edited_one = record one {
  docs = (7, 7 ∷ 8 ∷ doc) ∷ [];
  metadata = (7, record meta { generation = 3 }) ∷ [];
}

refused_keeps_documents_example :
    (handle_binary_message py crdt codec alive 5 7 2 viewer 40 update_frame room).1.docs ≡ one
refused_keeps_documents_example =
    refused_keeps_documents py crdt codec alive 5 7 2 viewer 40 update_frame room doc refl
      (inl (omega arith))

abbrev empty_room : Room py crdt
empty_room = record room { hub = with_editor.hub }

abbrev met : Circumstances (List ℕ)
met = record {
  on_join = record { database_ok = true; redis_ok = true };
  redis_ok = true;
  edits = [];
  left_at = 60;
}

abbrev unchanged : Room py crdt → Room py crdt
unchanged s = s

-- Another task fences the member.
abbrev fenced_meanwhile : Room py crdt → Room py crdt
fenced_meanwhile s = record s {
  hub =
      (invalidate_member_connections 7 2 (closing ws_forbidden "Session membership required")
        s.hub).1;
}

disconnected_is_gone_example :
    let (outcome, after) =
      serve_connection py crdt codec alive met 7 bob stamp
        ((50, unchanged, binary_frame update_frame) ∷ (55, fenced_meanwhile, disconnect) ∷ [])
        empty_room in
    (outcome ≢ waiting) × IsGone 7 5 after.hub
disconnected_is_gone_example =
    disconnected_is_gone py crdt codec alive met 7 bob stamp
      ((50, unchanged, binary_frame update_frame) ∷ []) [] 55 fenced_meanwhile empty_room refl

-- Redis takes the checkpoint of session 7 and of no other.
abbrev only_seven : ℕ → Bool
only_seven sid = sid == 7

shutdown_checkpoints_all_example :
    lookup 7 (checkpoint_on_shutdown crdt only_seven one).checkpoints ≡ some doc
shutdown_checkpoints_all_example =
    shutdown_checkpoints_all crdt only_seven one 7 doc meta refl refl refl
