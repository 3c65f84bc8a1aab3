-- ===== src/Hub.antt =====
-- backend/app/collaboration/websocket.py: the rooms, and the fences that cut off connections whose
-- authorization has become stale. WebSockets, sessions and users are numbers; each module-level dict is a
-- function of its key. Closing a connection never fails the caller, so it is only recorded.
pub mod System
pub mod Fences
pub mod Trust
pub mod Changes
pub mod Safety
use code_collaborator.Base.{
  ℕ, ◌+◌, Bool, true, false, not, Option, none, some, is_some, List, [], ◌∷◌, ◌++◌, map, length,
  filterb, ltb, ◌==◌, if◌then◌else◌, update, update_pair, Result, ok, err, ◌>>=◌, ◌>>◌, raise_if,
  or_raise,
}
use code_collaborator.Base.Dict.{lookup}
use code_collaborator.Models.{Role, editor, User, Session, SessionMember, role_rank}
use code_collaborator.Sessions.{Db, find_member}
use Prim.Native.String.{String}

abbrev pub ws_unauthorized : ℕ
ws_unauthorized = 4401

abbrev pub ws_forbidden : ℕ
ws_forbidden = 4403

abbrev pub ws_not_found : ℕ
ws_not_found = 4404

abbrev pub ws_session_closed : ℕ
ws_session_closed = 4410

abbrev pub ws_role_changed : ℕ
ws_role_changed = 4001

pub record AuthorizationStamp : Type 0 where
  pub member_version : ℕ
  pub session_version : ℕ

-- The code and the reason of a close frame; also what `WebSocketAuthError` carries.
pub record Closing : Type 0 where
  pub code : ℕ
  pub reason : String

pub record AuthorizationInvalidation : Type 0 where
  pub version : ℕ
  pub closing : Closing

-- `ConnectionInfo`
pub record Connection : Type 0 where
  pub websocket : ℕ
  pub user_id : ℕ
  pub username : String
  pub role : Role

-- The module's dicts, and the close frames that were sent.
pub record Hub : Type 0 where
  pub rooms : ℕ → Option (List Connection)
  pub member_invalidations : ℕ → ℕ → Option AuthorizationInvalidation
  pub session_invalidations : ℕ → Option AuthorizationInvalidation
  pub stamps : ℕ → Option AuthorizationStamp
  pub revoked : ℕ → Option Closing
  pub closed : List (ℕ × Closing)

-- `invalidation.version if invalidation else 0`
abbrev pub version_of : Option AuthorizationInvalidation → ℕ
version_of none = 0
version_of (some i) = i.version

abbrev pub room_of : Option (List Connection) → List Connection
room_of none = []
room_of (some room) = room

-- The stamp that `_authenticate_ws` takes before it reads the database.
unfoldable pub stamp_now : Hub → (sid uid : ℕ) → AuthorizationStamp
stamp_now hub sid uid = record {
  member_version = version_of (hub.member_invalidations sid uid);
  session_version = version_of (hub.session_invalidations sid);
}

abbrev pub closing : ℕ → String → Closing
closing code reason = record { code = code; reason = reason }

-- The reads of `_authenticate_ws`: the user and the session, and then the role of the member.
unfoldable pub check_session : Db → (sid uid : ℕ) → Result Closing Session
check_session db sid uid = do
  _ ← or_raise (lookup uid db.users) (closing ws_unauthorized "User not found")
  session ← or_raise (lookup sid db.sessions) (closing ws_not_found "Session not found")
  raise_if (not session.is_active) (closing ws_session_closed "Session is closed")
  ok session

unfoldable pub member_role : Db → (sid uid : ℕ) → Result Closing Role
member_role db sid uid = do
  member ←
      or_raise (find_member sid uid db.members) (closing ws_forbidden "Session membership required")
  ok member.role

-- Both, where nothing else runs between them.
unfoldable pub authenticate_db : Db → (sid uid : ℕ) → Result Closing Role
authenticate_db db sid uid = do _ ← check_session db sid uid; member_role db sid uid

-- `_authenticate_ws` on a query token and a path parameter, where nothing else runs while it reads the
-- database. `decode` is `decode_token` with the parse of its subject, and `uuid` the parse of a path.
module _ {Token Raw : Type 0} (decode : Token → Option ℕ) (uuid : Raw → Option ℕ) where
  unfoldable pub authenticate_ws :
      Hub → Db → Option Token → Option Raw → Result Closing (ℕ × ℕ × Role × AuthorizationStamp)
  authenticate_ws hub db token raw = do
    given ← or_raise token (closing ws_unauthorized "Authentication required")
    path ← or_raise raw (closing ws_not_found "Session not found")
    uid ← or_raise (decode given) (closing ws_unauthorized "Invalid or expired access token")
    sid ← or_raise (uuid path) (closing ws_not_found "Session not found")
    role ← authenticate_db db sid uid
    ok (uid, sid, role, stamp_now hub sid uid)

-- The closing of an invalidation that is newer than `version`.
abbrev pub newer : Option AuthorizationInvalidation → ℕ → Option Closing
newer none version = none
newer (some i) version = if ltb version i.version then some i.closing else none

abbrev pub or_else : Option Closing → Option Closing → Option Closing
or_else none second = second
or_else (some first) second = some first

abbrev pub failure_of :
    Option Closing
    → Option AuthorizationStamp
    → Option AuthorizationInvalidation
    → Option AuthorizationInvalidation
    → Option Closing
failure_of (some c) stamp session member = some c
failure_of none none session member = none
failure_of none (some stamp) session member =
    or_else (newer session stamp.session_version) (newer member stamp.member_version)

-- `_authorization_failure`
unfoldable pub authorization_failure : Hub → (sid uid w : ℕ) → Option Closing
authorization_failure hub sid uid w =
    failure_of (hub.revoked w) (hub.stamps w) (hub.session_invalidations sid)
      (hub.member_invalidations sid uid)

-- `_close_connection`
abbrev pub close_connection : ℕ → Closing → Hub → Hub
close_connection w c hub = record hub { closed = hub.closed ++ (w, c) ∷ [] }

abbrev pub revoke : ℕ → Closing → Hub → Hub
revoke w c hub = record hub { revoked = update hub.revoked w (some c) }

abbrev pub close_failed : ℕ → Option Closing → Hub → Bool × Hub
close_failed w none hub = (false, hub)
close_failed w (some c) hub = (true, close_connection w c (revoke w c hub))

-- `_close_if_invalidated`
unfoldable pub close_if_invalidated : (sid uid w : ℕ) → Hub → Bool × Hub
close_if_invalidated sid uid w hub = close_failed w (authorization_failure hub sid uid w) hub

-- The next invalidation after `previous`.
abbrev pub next_invalidation :
    Option AuthorizationInvalidation → Closing → AuthorizationInvalidation
next_invalidation previous c = record { version = version_of previous + 1; closing = c }

abbrev pub websockets : List Connection → List ℕ
websockets [] = []
websockets (c ∷ cs) = c.websocket ∷ websockets cs

abbrev pub of_user : ℕ → List Connection → List ℕ
of_user uid [] = []
of_user uid (c ∷ cs) =
    let rest = of_user uid cs in if c.user_id == uid then c.websocket ∷ rest else rest

abbrev pub revoke_all : List ℕ → Closing → Hub → Hub
revoke_all [] c hub = hub
revoke_all (w ∷ ws) c hub = revoke_all ws c (revoke w c hub)

abbrev pub close_all : List ℕ → Closing → Hub → Hub
close_all [] c hub = hub
close_all (w ∷ ws) c hub = close_all ws c (close_connection w c hub)

-- `fence_connections` of `invalidate_member_connections`: the new fence, and the room's connections of
-- the member.
unfoldable pub fence_member : (sid uid : ℕ) → Closing → Hub → List ℕ × Hub
fence_member sid uid c hub =
    let targets = of_user uid (room_of (hub.rooms sid)) in
    let fenced : Hub = record hub {
      member_invalidations =
          update_pair hub.member_invalidations sid uid
            (some (next_invalidation (hub.member_invalidations sid uid) c));
    } in
    (targets, revoke_all targets c fenced)

-- `invalidate_member_connections`, under the lock of the room.
unfoldable pub invalidate_member_connections : (sid uid : ℕ) → Closing → Hub → ℕ × Hub
invalidate_member_connections sid uid c hub =
    let (targets, fenced) = fence_member sid uid c hub in
    (length targets, close_all targets c fenced)

unfoldable pub reauthenticate_member_connections : (sid uid : ℕ) → Hub → ℕ × Hub
reauthenticate_member_connections sid uid =
    invalidate_member_connections sid uid
      (closing ws_role_changed "Session role changed; reconnecting")

unfoldable pub revoke_member_connections : (sid uid : ℕ) → Hub → ℕ × Hub
revoke_member_connections sid uid =
    invalidate_member_connections sid uid (closing ws_forbidden "Session membership required")

-- `fence_connections` of `close_session_connections`.
unfoldable pub fence_session : (sid : ℕ) → Hub → List ℕ × Hub
fence_session sid hub =
    let c = closing ws_session_closed "Session is closed" in
    let targets = websockets (room_of (hub.rooms sid)) in
    let fenced : Hub = record hub {
      session_invalidations =
          update hub.session_invalidations sid
            (some (next_invalidation (hub.session_invalidations sid) c));
    } in
    (targets, revoke_all targets c fenced)

-- `close_session_connections`, under the lock of the room.
unfoldable pub close_session_connections : (sid : ℕ) → Hub → ℕ × Hub
close_session_connections sid hub =
    let (targets, fenced) = fence_session sid hub in
    (length targets, close_all targets (closing ws_session_closed "Session is closed") fenced)

-- The connections that `_broadcast_binary` sends to, and that `get_room_connections` returns.
abbrev pub unrevoked : Hub → List Connection → List Connection
unrevoked hub [] = []
unrevoked hub (c ∷ cs) =
    let rest = unrevoked hub cs in if is_some (hub.revoked c.websocket) then rest else c ∷ rest

unfoldable pub get_room_connections : (sid : ℕ) → Hub → List Connection
get_room_connections sid hub = unrevoked hub (room_of (hub.rooms sid))

-- `_connection_stamps[websocket] = authorization_stamp`
abbrev pub set_stamp : ℕ → AuthorizationStamp → Hub → Hub
set_stamp w stamp hub = record hub { stamps = update hub.stamps w (some stamp) }

-- The two `pop`s of a connection that ends.
abbrev pub forget : ℕ → Hub → Hub
forget w hub = record hub { stamps = update hub.stamps w none; revoked = update hub.revoked w none }

-- `room.append(connection)`
abbrev pub enter_room : (sid : ℕ) → Connection → Hub → Hub
enter_room sid c hub = record hub {
  rooms = update hub.rooms sid (some (room_of (hub.rooms sid) ++ c ∷ []));
}

abbrev pub without : ℕ → List Connection → List Connection
without w [] = []
without w (c ∷ cs) = let rest = without w cs in if c.websocket == w then rest else c ∷ rest

-- `_rooms.pop` of a room that is empty.
abbrev pub room_or_none : List Connection → Option (List Connection)
room_or_none [] = none
room_or_none (c ∷ cs) = some (c ∷ cs)

abbrev pub left_room : ℕ → Option (List Connection) → Option (List Connection)
left_room w none = none
left_room w (some room) = room_or_none (without w room)

-- What `_leave_room` does to the dicts of this module.
unfoldable pub leave_hub : (sid w : ℕ) → Hub → Hub
leave_hub sid w hub =
    let forgot = forget w hub in
    record forgot { rooms = update hub.rooms sid (left_room w (hub.rooms sid)) }

-- What `apply_if_authorized` finds before it touches the document.
pub data Decision : Type 0 where
  invalid : Closing → Decision
  denied allowed : Decision

abbrev pub decision_of : Option Closing → Role → Decision
decision_of (some c) role = invalid c
decision_of none role = if ltb (role_rank role) (role_rank editor) then denied else allowed

unfoldable pub decide : Hub → (sid uid w : ℕ) → Role → Decision
decide hub sid uid w role = decision_of (authorization_failure hub sid uid w) role
