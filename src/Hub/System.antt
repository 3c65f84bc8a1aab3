-- ===== src/Hub/System.antt =====
-- The authorization of WebSockets as a whole: connections that authenticate, join, write and leave, in
-- any interleaving with the endpoints of backend/app/sessions/router.py that change sessions and members.
-- Between two awaits nothing else runs, so each step is one such piece; the lock of a room is held from
-- the commit of an endpoint to its fence.
use code_collaborator.Base.{ℕ, ◌≡◌, ◌⊎◌, Option, none, some, [], update, ok}
use code_collaborator.Models.{Role, Language, Session, SessionMember}
use code_collaborator.Sessions.{
  Db, create_session, add_member, update_member_role, remove_member, close_session,
}
use code_collaborator.Hub.{
  Hub, AuthorizationStamp, stamp_now, check_session, member_role, close_if_invalidated,
  reauthenticate_member_connections, revoke_member_connections, close_session_connections,
  set_stamp, forget, enter_room, leave_hub,
}
use Prim.Native.String.{String}

-- How far the handler of a WebSocket has come, with its local variables.
pub data Phase : Type 0 where
  absent gone : Phase
  stamped : (sid uid : ℕ) → AuthorizationStamp → Phase
  session_read : (sid uid : ℕ) → AuthorizationStamp → Phase
  authenticated : (sid uid : ℕ) → Role → AuthorizationStamp → Phase
  accepted joined : (sid uid : ℕ) → Role → Phase

-- What an endpoint that holds a room's lock has committed and has not fenced yet.
pub data Fence : Type 0 where
  role_changed removed : ℕ → Fence
  session_closed : Fence

pub record System : Type 0 where
  pub db : Db
  pub hub : Hub
  pub phases : ℕ → Phase
  pub pending : ℕ → Option Fence

-- The call that an endpoint makes on the hub before it gives the lock back.
abbrev pub fence : ℕ → Fence → Hub → Hub
fence sid (role_changed uid) hub = (reauthenticate_member_connections sid uid hub).1
fence sid (removed uid) hub = (revoke_member_connections sid uid hub).1
fence sid session_closed hub = (close_session_connections sid hub).1

pub data Step (s : System) : System → Type 0 where
  create :
      (sid now : ℕ) (name : String) (language : Language) (owner_id : ℕ) {db : Db} {x : Session}
      → create_session s.db sid now name language owner_id ≡ ok (db, x)
      → Step s (record s { db = db })
  add :
      (sid uid : ℕ) (role : Role) {db : Db} {m : SessionMember}
      → add_member s.db sid uid role ≡ ok (db, m)
      → Step s (record s { db = db })
  commit_role :
      (sid uid : ℕ) (role : Role) {db : Db} {m : SessionMember}
      → s.pending sid ≡ none
      → update_member_role s.db sid uid role ≡ ok (db, m)
      → Step s (record s { db = db; pending = update s.pending sid (some (role_changed uid)) })
  commit_removal :
      (sid uid : ℕ) {db : Db}
      → s.pending sid ≡ none
      → remove_member s.db sid uid ≡ ok db
      → Step s (record s { db = db; pending = update s.pending sid (some (removed uid)) })
  commit_close :
      (sid now : ℕ) {db : Db} {x : Session}
      → s.pending sid ≡ none
      → close_session s.db sid now ≡ ok (db, x)
      → Step s (record s { db = db; pending = update s.pending sid (some session_closed) })
  finish :
      (sid : ℕ) (f : Fence)
      → s.pending sid ≡ some f
      → Step s (record s { hub = fence sid f s.hub; pending = update s.pending sid none })
  take_stamp :
      (sid uid w : ℕ)
      → s.phases w ≡ absent
      → Step s (record s { phases = update s.phases w (stamped sid uid (stamp_now s.hub sid uid)) })
  -- The session and the member are read in two queries, between which others may commit.
  read_session :
      (sid uid w : ℕ) (stamp : AuthorizationStamp) {x : Session}
      → s.phases w ≡ stamped sid uid stamp
      → check_session s.db sid uid ≡ ok x
      → Step s (record s { phases = update s.phases w (session_read sid uid stamp) })
  read_member :
      (sid uid w : ℕ) (stamp : AuthorizationStamp) (role : Role)
      → s.phases w ≡ session_read sid uid stamp
      → member_role s.db sid uid ≡ ok role
      → Step s (record s { phases = update s.phases w (authenticated sid uid role stamp) })
  accept :
      (sid uid w : ℕ) (stamp : AuthorizationStamp) (role : Role)
      → s.phases w ≡ authenticated sid uid role stamp
      → Step s (record s {
        hub = set_stamp w stamp s.hub;
        phases = update s.phases w (accepted sid uid role);
      })
  join :
      (sid uid w : ℕ) (role : Role) (username : String)
      → s.phases w ≡ accepted sid uid role
      → s.pending sid ≡ none
      → Step s (record s {
        hub =
            enter_room sid
              (record { websocket = w; user_id = uid; username = username; role = role })
              s.hub;
        phases = update s.phases w (joined sid uid role);
      })
  -- The check before a join, after it, and before each message; a write that fails the same check.
  check : (sid uid w : ℕ) → Step s (record s { hub = (close_if_invalidated sid uid w s.hub).1 })
  leave :
      (sid uid w : ℕ) (role : Role)
      → s.phases w ≡ joined sid uid role
      → s.pending sid ≡ none
      → Step s (record s { hub = leave_hub sid w s.hub; phases = update s.phases w gone })
  abandon :
      (sid uid w : ℕ) (role : Role)
      → s.phases w ≡ accepted sid uid role
      → Step s (record s { hub = forget w s.hub; phases = update s.phases w gone })
  refuse :
      (w sid uid : ℕ) (stamp : AuthorizationStamp)
      → (s.phases w ≡ stamped sid uid stamp) ⊎ (s.phases w ≡ session_read sid uid stamp)
      → Step s (record s { phases = update s.phases w gone })

-- A server that has just started, on any tables.
abbrev pub start_hub : Hub
start_hub = record {
  rooms = λ _. none;
  member_invalidations = λ _ _. none;
  session_invalidations = λ _. none;
  stamps = λ _. none;
  revoked = λ _. none;
  closed = [];
}

abbrev pub started : Db → System
started db = record { db = db; hub = start_hub; phases = λ _. absent; pending = λ _. none }

pub data Reach (db : Db) : System → Type 0 where
  start : Reach db (started db)
  later : {s t : System} → Reach db s → Step s t → Reach db t
