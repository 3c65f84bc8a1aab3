-- ===== src/Sessions.antt =====
-- backend/app/sessions/service.py: sessions and their members. Each operation runs in one database
-- transaction, which commits at its end: a raise leaves the tables as they were.
pub mod Members
pub mod Outcomes
pub mod Invariant
pub mod History
pub mod Closing
use code_collaborator.Base.{
  ℕ, Bool, true, false, ◌&&◌, not, Option, none, some, is_some, List, [], ◌∷◌, ◌==◌, if◌then◌else◌,
  Result, ok, err, ◌>>=◌, ◌>>◌, raise_if, or_raise,
}
use code_collaborator.Base.Dict.{Dict, lookup, insert}
use code_collaborator.Models.{Role, owner, Language, User, Session, SessionMember, same_role}
use Prim.Native.String.{String}

pub record Db : Type 0 where
  pub users : Dict User
  pub sessions : Dict Session
  pub members : List SessionMember

-- The reasons that the service raises, by the class of the exception.
pub data NotFound : Type 0 where
  session_not_found user_not_found member_not_found : NotFound

pub data Conflict : Type 0 where
  single_owner owner_replaced already_member owner_demoted owner_removed : Conflict

pub data SessionServiceError : Type 0 where
  resource_not_found : NotFound → SessionServiceError
  inactive : SessionServiceError
  conflict : Conflict → SessionServiceError
  -- A primary key that is taken already: the database's own refusal.
  integrity : SessionServiceError

abbrev pub Service : Type 0 → Type 0
Service A = Result SessionServiceError A

-- The rows of one member: `session_id` and `user_id` are the primary key.
abbrev pub is_row : ℕ → ℕ → SessionMember → Bool
is_row session user m = m.session_id == session && m.user_id == user

-- `select(SessionMember).where(...)`, `scalar_one_or_none`
abbrev pub find_member : ℕ → ℕ → List SessionMember → Option SessionMember
find_member session user [] = none
find_member session user (m ∷ ms) =
    if is_row session user m then some m else find_member session user ms

abbrev pub set_role : ℕ → ℕ → Role → List SessionMember → List SessionMember
set_role session user role [] = []
set_role session user role (m ∷ ms) =
    (if is_row session user m then record m { role = role } else m) ∷ set_role session user role ms

abbrev pub delete_member : ℕ → ℕ → List SessionMember → List SessionMember
delete_member session user [] = []
delete_member session user (m ∷ ms) =
    let rest = delete_member session user ms in if is_row session user m then rest else m ∷ rest

-- `_get_active_session`
unfoldable pub get_active_session : Db → ℕ → Service Session
get_active_session db session_id = do
  session ← or_raise (lookup session_id db.sessions) (resource_not_found session_not_found)
  raise_if (not session.is_active) inactive
  ok session

-- `session_id` is the key that `uuid.uuid4` gives the new row, and `now` the server's time.
unfoldable pub create_session : Db → ℕ → ℕ → String → Language → ℕ → Service (Db × Session)
create_session db session_id now name language owner_id = do
  raise_if (is_some (lookup session_id db.sessions)) integrity
  raise_if (is_some (find_member session_id owner_id db.members)) integrity
  let session : Session = record {
    id = session_id;
    name = name;
    language = language;
    owner_id = owner_id;
    is_active = true;
    updated_at = now;
  }
  let member : SessionMember = record { session_id = session_id; user_id = owner_id; role = owner }
  ok (
    record db { sessions = insert session_id session db.sessions; members = member ∷ db.members },
    session,
  )

unfoldable pub add_member : Db → ℕ → ℕ → Role → Service (Db × SessionMember)
unfolding get_active_session
add_member db session_id user_id role = do
  session ← get_active_session db session_id
  raise_if (same_role role owner) (conflict single_owner)
  raise_if (user_id == session.owner_id) (conflict owner_replaced)
  _ ← or_raise (lookup user_id db.users) (resource_not_found user_not_found)
  raise_if (is_some (find_member session_id user_id db.members)) (conflict already_member)
  let member : SessionMember = record { session_id = session_id; user_id = user_id; role = role }
  ok (record db { members = member ∷ db.members }, member)

unfoldable pub update_member_role : Db → ℕ → ℕ → Role → Service (Db × SessionMember)
unfolding get_active_session
update_member_role db session_id user_id new_role = do
  session ← get_active_session db session_id
  raise_if (user_id == session.owner_id && not (same_role new_role owner)) (conflict owner_demoted)
  raise_if (not (user_id == session.owner_id) && same_role new_role owner) (conflict single_owner)
  member ←
      or_raise (find_member session_id user_id db.members) (resource_not_found member_not_found)
  ok (
      if same_role member.role new_role then (db, member) else (
        record db { members = set_role session_id user_id new_role db.members },
        record member { role = new_role },
      ))

unfoldable pub remove_member : Db → ℕ → ℕ → Service Db
unfolding get_active_session
remove_member db session_id user_id = do
  session ← get_active_session db session_id
  raise_if (user_id == session.owner_id) (conflict owner_removed)
  _ ← or_raise (find_member session_id user_id db.members) (resource_not_found member_not_found)
  ok (record db { members = delete_member session_id user_id db.members })

-- `onupdate=func.now()` sets `updated_at` with the change.
unfoldable pub close_session : Db → ℕ → ℕ → Service (Db × Session)
unfolding get_active_session
close_session db session_id now = do
  session ← get_active_session db session_id
  let closed : Session = record session { is_active = false; updated_at = now }
  ok (record db { sessions = insert session_id closed db.sessions }, closed)

-- `_raise_http_error` of backend/app/sessions/router.py; a database refusal is no service error and
-- ends as an internal server error.
unfoldable pub http_status : SessionServiceError → ℕ
http_status (resource_not_found _) = 404
http_status inactive = 410
http_status (conflict _) = 409
http_status integrity = 500
