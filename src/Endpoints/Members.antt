-- ===== src/Endpoints/Members.antt =====
-- backend/app/sessions/router.py: the endpoints that change sessions and members. What the database has
-- changed is fenced in the rooms before the lock is given back.
use code_collaborator.Base.{ℕ, Option, none, some, [], ◌∷◌, Result, ok, err, if◌then◌else◌}
use code_collaborator.Base.Dict.{Dict}
use code_collaborator.Models.{Role, owner, Language, User}
use code_collaborator.Sessions.{
  Db, Service, http_status, create_session, add_member, update_member_role, remove_member,
  close_session,
}
use code_collaborator.Hub.{
  Hub, reauthenticate_member_connections, revoke_member_connections, close_session_connections,
}
use code_collaborator.Endpoints.{Action, answer, ◌>>=◌, depends_on_role}
use text.Mathlib.Text.{◌==◌}
use Prim.Native.String.{String}

-- The tables and the hub, which is all that these endpoints use.
pub record Tables : Type 0 where
  pub db : Db
  pub hub : Hub

-- `select(User.id).where(User.username == username)`
abbrev pub find_username : String → Dict User → Option ℕ
find_username name [] = none
find_username name ((uid, user) ∷ users) =
    let rest = find_username name users in if user.username == name then some uid else rest

abbrev found_or : Option ℕ → ℕ → Result ℕ ℕ
found_or none status = err status
found_or (some uid) status = ok uid

-- `AddMemberRequest`: exactly one of the two.
pub data Invited : Type 0 where
  by_id : ℕ → Invited
  by_name : String → Invited

-- `_resolve_member_user_id`
unfoldable pub resolve_member_user_id : Invited → Action Tables ℕ
resolve_member_user_id (by_id uid) s = (ok uid, s)
resolve_member_user_id (by_name name) s = (found_or (find_username name s.db.users) 404, s)

-- A call of the service, which commits; `_raise_http_error` ends it otherwise.
abbrev pub served : {A : Type 0} → Service (Db × A) → Action Tables A
served (err e) s = (err (http_status e), s)
served (ok (db, a)) s = (ok a, record s { db = db })

abbrev with_unit : Service Db → Service (Db × Unit {0})
with_unit (err e) = err e
with_unit (ok db) = ok (db, tt)

-- A call on the hub; its count is not looked at.
abbrev fenced : (Hub → ℕ × Hub) → Action Tables (Unit {0})
fenced cut s = (ok tt, record s { hub = (cut s.hub).1 })

unfoldable pub create_session_endpoint :
    (sid now : ℕ) → String → Language → (caller : ℕ) → Action Tables (Unit {0})
create_session_endpoint sid now name language caller = do
  _ ← λ s. served (create_session s.db sid now name language caller) s
  answer tt

unfoldable pub add_member_endpoint :
    Db → (sid caller : ℕ) → Invited → Role → Action Tables (Unit {0})
add_member_endpoint asked sid caller invited role = do
  _ ← depends_on_role owner asked sid caller
  uid ← resolve_member_user_id invited
  _ ← λ s. served (add_member s.db sid uid role) s
  answer tt

unfoldable pub update_member_role_endpoint :
    Db → (sid caller uid : ℕ) → Role → Action Tables (Unit {0})
update_member_role_endpoint asked sid caller uid role = do
  _ ← depends_on_role owner asked sid caller
  _ ← λ s. served (update_member_role s.db sid uid role) s
  fenced (reauthenticate_member_connections sid uid)

unfoldable pub remove_member_endpoint : Db → (sid caller uid : ℕ) → Action Tables (Unit {0})
remove_member_endpoint asked sid caller uid = do
  _ ← depends_on_role owner asked sid caller
  _ ← λ s. served (with_unit (remove_member s.db sid uid)) s
  fenced (revoke_member_connections sid uid)

unfoldable pub close_session_endpoint : Db → (sid caller now : ℕ) → Action Tables (Unit {0})
close_session_endpoint asked sid caller now = do
  _ ← depends_on_role owner asked sid caller
  _ ← λ s. served (close_session s.db sid now) s
  fenced (close_session_connections sid)

-- The requests on sessions and members that change something, as the router dispatches them. The
-- session's key and the times are the server's.
pub data Request : Type 0 where
  create_request : (sid now : ℕ) → String → Language → Request
  add_request : (sid : ℕ) → Invited → Role → Request
  update_request : (sid uid : ℕ) → Role → Request
  remove_request : (sid uid : ℕ) → Request
  close_request : (sid now : ℕ) → Request

unfoldable pub route : Db → (caller : ℕ) → Request → Action Tables (Unit {0})
route asked caller (create_request sid now name language) =
    create_session_endpoint sid now name language caller
route asked caller (add_request sid invited role) =
    add_member_endpoint asked sid caller invited role
route asked caller (update_request sid uid role) =
    update_member_role_endpoint asked sid caller uid role
route asked caller (remove_request sid uid) = remove_member_endpoint asked sid caller uid
route asked caller (close_request sid now) = close_session_endpoint asked sid caller now
