-- ===== src/Sessions/Outcomes.antt =====
-- When each operation of sessions/service.py succeeds, and what it then leaves in the tables.
use code_collaborator.Base.{
  ℕ, true, false, ◌&&◌, not, Option, none, some, is_some, ◌∷◌, ◌==◌, if◌then◌else◌, ◌≡◌, refl,
  arith, Result, ok, >>=-eq-ok, raise_if, raise_if-eq-ok, or_raise, or_raise-eq-ok, Bool-cases, inl,
  inr, ap, subst, ◌≢◌, ◌↔◌,
}
use code_collaborator.Base.Dict.{lookup, insert}
use code_collaborator.Models.{Role, owner, Session, SessionMember, same_role, Language}
use code_collaborator.Sessions.{
  Db, SessionServiceError, find_member, set_role, delete_member, get_active_session, create_session,
  add_member, update_member_role, remove_member, close_session,
}
use code_collaborator.Sessions.Members.{role_of, role_of_row, same_pair, role_of-set_role}
use Prim.Native.String.{String}

-- The session is there and has not been closed.
pub record IsOpen (db : Db) (sid : ℕ) (s : Session) : Type 0 where
  pub found : lookup sid db.sessions ≡ some s
  pub active : s.is_active ≡ true

pub get_active_session-eq_ok :
    (db : Db) (sid : ℕ) {s : Session} → get_active_session db sid ≡ ok s → IsOpen db sid s
unfolding get_active_session
get_active_session-eq_ok db sid e =
    let (s, found, e1) = >>=-eq-ok (or_raise (lookup sid db.sessions) _) _ e in
    let (_, active, e2) = >>=-eq-ok (raise_if (not s.is_active) _) _ e1 in
    let row = or_raise-eq-ok _ _ found in
    let open_now = raise_if-eq-ok _ _ active in
    record { found = ground (arith, row, e2); active = ground arith }

not_some : {A : Type 0} (o : Option A) → is_some o ≡ false → o ≡ none
not_some none h = refl
not_some (some a) h = cc

not_equal : (a b : ℕ) → (a == b) ≡ false → a ≢ b
not_equal a b h = λ e. ground arith

not_same_role : (a b : Role) → same_role a b ≡ false → a ≢ b
not_same_role a b h = λ e. ground arith

pub record Added (db : Db) (sid uid : ℕ) (role : Role) (db' : Db) : Type 0 where
  pub session : Session
  pub is_open : IsOpen db sid session
  pub no_owner : role ≢ owner
  pub not_owner : uid ≢ session.owner_id
  pub user_exists : lookup uid db.users ≢ none
  pub was_no_member : role_of sid uid db.members ≡ none
  pub result :
      db'
      ≡ record db { members = record { session_id = sid; user_id = uid; role = role } ∷ db.members }

pub add_member-eq_ok :
    (db : Db) (sid uid : ℕ) (role : Role) {db' : Db} {m : SessionMember}
    → add_member db sid uid role ≡ ok (db', m)
    → Added db sid uid role db'
unfolding add_member
add_member-eq_ok db sid uid role e =
    let (s, first, e1) = >>=-eq-ok (get_active_session db sid) _ e in
    let (_, second, e2) = >>=-eq-ok (raise_if (same_role role owner) _) _ e1 in
    let (_, third, e3) = >>=-eq-ok (raise_if (uid == s.owner_id) _) _ e2 in
    let (user, fourth, e4) = >>=-eq-ok (or_raise (lookup uid db.users) _) _ e3 in
    let (_, fifth, e5) = >>=-eq-ok (raise_if (is_some (find_member sid uid db.members)) _) _ e4 in
    let exists_user = or_raise-eq-ok _ _ fourth in
    record {
      session = s;
      is_open = get_active_session-eq_ok db sid first;
      no_owner = not_same_role role owner (raise_if-eq-ok _ _ second);
      not_owner = not_equal uid s.owner_id (raise_if-eq-ok _ _ third);
      user_exists = λ absent. cc (exists_user, absent);
      was_no_member = ap role_of_row (not_some _ (raise_if-eq-ok _ _ fifth));
      result = cc e5;
    }

-- The member keeps its place in the table and has the new role.
pub record Changed (db : Db) (sid uid : ℕ) (role : Role) (db' : Db) : Type 0 where
  pub session : Session
  pub is_open : IsOpen db sid session
  pub owner_alone : (uid ≡ session.owner_id) ↔ (role ≡ owner)
  pub was_member : role_of sid uid db.members ≢ none
  pub users_kept : db'.users ≡ db.users
  pub sessions_kept : db'.sessions ≡ db.sessions
  pub roles :
      (s u : ℕ)
      → role_of s u db'.members
        ≡ (if same_pair sid uid s u then some role else role_of s u db.members)

same_role-eq : (a b : Role) → same_role a b ≡ true → a ≡ b
same_role-eq a b h = ground arith

role_after :
    (db : Db) (sid uid : ℕ) (role : Role) (m : SessionMember) (s u : ℕ)
    → find_member sid uid db.members ≡ some m
    → role_of s u (if same_role m.role role then db.members else set_role sid uid role db.members)
      ≡ (if same_pair sid uid s u then some role else role_of s u db.members)
role_after db sid uid role m s u found = elim (Bool-cases (same_role m.role role)) [
  | inl same ↦ rw same (ground (arith, same_role-eq m.role role same, found))
  | inr other ↦ rw other (ground (arith, role_of-set_role sid uid s u role db.members, found))
]

owner_rule :
    (uid owner_id : ℕ) (role : Role)
    → (uid == owner_id && not (same_role role owner)) ≡ false
    → (not (uid == owner_id) && same_role role owner) ≡ false
    → (uid ≡ owner_id) ↔ (role ≡ owner)
owner_rule uid owner_id role h k = (λ e. ground arith, λ e. ground arith)

abbrev ok_pair : Db × SessionMember → Result SessionServiceError (Db × SessionMember)
ok_pair p = ok p

members_after :
    (db : Db) (sid uid : ℕ) (role : Role) (m : SessionMember) {db' : Db} {m' : SessionMember}
    → ok_pair (
        if same_role m.role role
        then (db, m)
        else (record db { members = set_role sid uid role db.members }, record m { role = role }))
      ≡ ok (db', m')
    → (if same_role m.role role then db.members else set_role sid uid role db.members) ≡ db'.members
members_after db sid uid role m e = ground arith

pub update_member_role-eq_ok :
    (db : Db) (sid uid : ℕ) (role : Role) {db' : Db} {m : SessionMember}
    → update_member_role db sid uid role ≡ ok (db', m)
    → Changed db sid uid role db'
unfolding update_member_role
update_member_role-eq_ok db sid uid role {db'} e =
    let (s, first, e1) = >>=-eq-ok (get_active_session db sid) _ e in
    let (_, second, e2) =
      >>=-eq-ok (raise_if (uid == s.owner_id && not (same_role role owner)) _) _ e1 in
    let (_, third, e3) =
      >>=-eq-ok (raise_if (not (uid == s.owner_id) && same_role role owner) _) _ e2 in
    let (m, fourth, e4) = >>=-eq-ok (or_raise (find_member sid uid db.members) _) _ e3 in
    let found = or_raise-eq-ok _ _ fourth in
    let member = ap role_of_row found in
    record {
      session = s;
      is_open = get_active_session-eq_ok db sid first;
      owner_alone =
          owner_rule uid s.owner_id role (raise_if-eq-ok _ _ second) (raise_if-eq-ok _ _ third);
      was_member = λ absent. cc (member, absent);
      users_kept = ground (arith, e4);
      sessions_kept = ground (arith, e4);
      roles = λ t u.
          subst
            (λ l.
              role_of t u l ≡ (if same_pair sid uid t u then some role else role_of t u db.members))
            (members_after db sid uid role m e4) (role_after db sid uid role m t u found);
    }

pub record Removed (db : Db) (sid uid : ℕ) (db' : Db) : Type 0 where
  pub session : Session
  pub is_open : IsOpen db sid session
  pub not_owner : uid ≢ session.owner_id
  pub was_member : role_of sid uid db.members ≢ none
  pub result : db' ≡ record db { members = delete_member sid uid db.members }

pub remove_member-eq_ok :
    (db : Db) (sid uid : ℕ) {db' : Db} → remove_member db sid uid ≡ ok db' → Removed db sid uid db'
unfolding remove_member
remove_member-eq_ok db sid uid e =
    let (s, first, e1) = >>=-eq-ok (get_active_session db sid) _ e in
    let (_, second, e2) = >>=-eq-ok (raise_if (uid == s.owner_id) _) _ e1 in
    let (m, third, e3) = >>=-eq-ok (or_raise (find_member sid uid db.members) _) _ e2 in
    let member = ap role_of_row (or_raise-eq-ok _ _ third) in
    record {
      session = s;
      is_open = get_active_session-eq_ok db sid first;
      not_owner = not_equal uid s.owner_id (raise_if-eq-ok _ _ second);
      was_member = λ absent. cc (member, absent);
      result = cc e3;
    }

pub record Closed (db : Db) (sid now : ℕ) (db' : Db) : Type 0 where
  pub session : Session
  pub is_open : IsOpen db sid session
  pub result : db' ≡ record db {
    sessions = insert sid (record session { is_active = false; updated_at = now }) db.sessions;
  }

pub close_session-eq_ok :
    (db : Db) (sid now : ℕ) {db' : Db} {closed : Session}
    → close_session db sid now ≡ ok (db', closed)
    → Closed db sid now db'
unfolding close_session
close_session-eq_ok db sid now e =
    let (s, first, e1) = >>=-eq-ok (get_active_session db sid) _ e in
    record { session = s; is_open = get_active_session-eq_ok db sid first; result = cc e1 }

pub record Created (db : Db) (sid now : ℕ) (owner_id : ℕ) (db' : Db) : Type 0 where
  pub session : Session
  pub owned : session.owner_id ≡ owner_id
  pub active : session.is_active ≡ true
  pub was_free : lookup sid db.sessions ≡ none
  pub result : db' ≡ record db {
    sessions = insert sid session db.sessions;
    members = record { session_id = sid; user_id = owner_id; role = owner } ∷ db.members;
  }

pub create_session-eq_ok :
    (db : Db) (sid now : ℕ) (name : String) (language : Language) (owner_id : ℕ) {db' : Db}
    {s : Session}
    → create_session db sid now name language owner_id ≡ ok (db', s)
    → Created db sid now owner_id db'
unfolding create_session
create_session-eq_ok db sid now name language owner_id e =
    let (_, first, e1) = >>=-eq-ok (raise_if (is_some (lookup sid db.sessions)) _) _ e in
    let (_, second, e2) =
      >>=-eq-ok (raise_if (is_some (find_member sid owner_id db.members)) _) _ e1 in
    record {
      session = record {
        id = sid;
        name = name;
        language = language;
        owner_id = owner_id;
        is_active = true;
        updated_at = now;
      };
      owned = refl;
      active = refl;
      was_free = not_some _ (raise_if-eq-ok _ _ first);
      result = cc e2;
    }
