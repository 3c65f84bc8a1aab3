-- ===== src/Sessions/Members.antt =====
-- The member table of sessions/service.py under each of its three updates.
use code_collaborator.Base.{
  ℕ, Bool, ◌&&◌, Option, none, some, List, [], ◌∷◌, ◌==◌, if◌then◌else◌, ◌≡◌, arith,
}
use code_collaborator.Models.{Role, SessionMember}
use code_collaborator.Sessions.{find_member, set_role, delete_member}

-- The role that the table gives a user in a session.
abbrev pub role_of_row : Option SessionMember → Option Role
role_of_row none = none
role_of_row (some m) = some m.role

abbrev pub role_of : ℕ → ℕ → List SessionMember → Option Role
role_of session user members = role_of_row (find_member session user members)

-- `(session, user)` is the pair `(s, u)`.
abbrev pub same_pair : ℕ → ℕ → ℕ → ℕ → Bool
same_pair s u session user = s == session && u == user

pub role_of-add :
    (s u session user : ℕ) (role : Role) (members : List SessionMember)
    → role_of session user (record { session_id = s; user_id = u; role = role } ∷ members)
      ≡ (if same_pair s u session user then some role else role_of session user members)
role_of-add s u session user role members = ground arith

abbrev pub replaced : Role → Option Role → Option Role
replaced role none = none
replaced role (some _) = some role

pub role_of-set_role :
    (s u session user : ℕ) (role : Role) (members : List SessionMember)
    → role_of session user (set_role s u role members) ≡ (
        if same_pair s u session user
        then replaced role (role_of session user members)
        else role_of session user members)
role_of-set_role s u session user role [] = ground arith
role_of-set_role s u session user role (m ∷ ms) =
    ground (arith, role_of-set_role s u session user role ms)

pub role_of-delete_member :
    (s u session user : ℕ) (members : List SessionMember)
    → role_of session user (delete_member s u members)
      ≡ (if same_pair s u session user then none else role_of session user members)
role_of-delete_member s u session user [] = ground arith
role_of-delete_member s u session user (m ∷ ms) =
    ground (arith, role_of-delete_member s u session user ms)
