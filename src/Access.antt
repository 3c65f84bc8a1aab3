-- ===== src/Access.antt =====
-- Who may do what: `get_current_user` and `RoleChecker` of backend/app/auth/dependencies.py, and
-- `_require_current_editor` of backend/app/sessions/router.py, which runs again inside the room lock.
pub mod Rules
use code_collaborator.Base.{
  ℕ, Bool, true, false, ◌&&◌, not, Option, none, some, ◌==◌, ltb, if◌then◌else◌, Result, ok, err,
  ◌>>=◌, ◌>>◌, raise_if, or_raise,
}
use code_collaborator.Base.Dict.{lookup}
use code_collaborator.Models.{
  Role, editor, owner, User, Session, SessionMember, role_rank, same_role,
}
use code_collaborator.Sessions.{Db, find_member}

-- Each `HTTPException` of the two checks.
pub data AccessError : Type 0 where
  bad_credentials : AccessError
  session_not_found : AccessError
  session_closed : AccessError
  not_member not_canonical_owner insufficient_role : AccessError

unfoldable pub access_status : AccessError → ℕ
access_status bad_credentials = 401
access_status session_not_found = 404
access_status session_closed = 410
access_status not_member = 403
access_status not_canonical_owner = 403
access_status insufficient_role = 403

abbrev pub Access : Type 0 → Type 0
Access A = Result AccessError A

-- `get_current_user`, over what it takes from elsewhere: `decode_token` with the payload's `"sub"`
-- (outer `none`: `JWTError`; inner `none`: not a string), and the parser of UUIDs.
module _ {Token Subject : Type 0} (decode_token : Token → Option (Option Subject))
    (uuid : Subject → Option ℕ) where
  unfoldable pub get_current_user : Db → Token → Access User
  get_current_user db token = do
    payload ← or_raise (decode_token token) bad_credentials
    subject ← or_raise payload bad_credentials
    user_id ← or_raise (uuid subject) bad_credentials
    or_raise (lookup user_id db.users) bad_credentials

-- `RoleChecker(min_role)`: it returns the user that it was given.
unfoldable pub role_checker : Role → Db → ℕ → ℕ → Access ℕ
role_checker min_role db session_id user_id = do
  session ← or_raise (lookup session_id db.sessions) session_not_found
  raise_if (not session.is_active) session_closed
  membership ← or_raise (find_member session_id user_id db.members) not_member
  raise_if (same_role min_role owner && not (session.owner_id == user_id)) not_canonical_owner
  raise_if (ltb (role_rank membership.role) (role_rank min_role)) insufficient_role
  ok user_id

-- The role that the outer join found, if any.
abbrev insufficient : Option SessionMember → Bool
insufficient none = true
insufficient (some m) = ltb (role_rank m.role) (role_rank editor)

-- `_require_current_editor`
unfoldable pub require_current_editor : Db → ℕ → ℕ → Access (Unit {0})
require_current_editor db session_id user_id = do
  session ← or_raise (lookup session_id db.sessions) session_not_found
  raise_if (not session.is_active) session_closed
  raise_if (insufficient (find_member session_id user_id db.members)) insufficient_role
