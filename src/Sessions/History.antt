-- ===== src/Sessions/History.antt =====
-- Any sequence of calls of sessions/service.py: the ownership invariant in every state that is reached,
-- owners that stay, and closed sessions that stay closed.
use code_collaborator.Base.{
  ℕ, false, some, [], ◌==◌, if◌then◌else◌, ◌≡◌, refl, arith, ok, sym, ap, ◌∙◌,
}
use code_collaborator.Base.Dict.{Dict, lookup, lookup-insert}
use code_collaborator.Models.{Role, owner, User, Session, SessionMember, Language}
use code_collaborator.Sessions.{
  Db, create_session, add_member, update_member_role, remove_member, close_session,
}
use code_collaborator.Sessions.Members.{role_of}
use code_collaborator.Sessions.Outcomes.{
  add_member-eq_ok, update_member_role-eq_ok, remove_member-eq_ok, close_session-eq_ok,
  create_session-eq_ok,
}
use code_collaborator.Sessions.Invariant.{
  IsValid, add_member-IsValid, update_member_role-IsValid, remove_member-IsValid,
  close_session-IsValid, create_session-IsValid,
}
use Prim.Native.String.{String}

-- One call that succeeded. A call that raises leaves the tables as they were.
pub data Step (db db' : Db) : Type 0 where
  create :
      (sid now : ℕ) (name : String) (language : Language) (owner_id : ℕ) {s : Session}
      → create_session db sid now name language owner_id ≡ ok (db', s)
      → Step db db'
  add :
      (sid uid : ℕ) (role : Role) {m : SessionMember}
      → add_member db sid uid role ≡ ok (db', m)
      → Step db db'
  update :
      (sid uid : ℕ) (role : Role) {m : SessionMember}
      → update_member_role db sid uid role ≡ ok (db', m)
      → Step db db'
  remove : (sid uid : ℕ) → remove_member db sid uid ≡ ok db' → Step db db'
  close : (sid now : ℕ) {s : Session} → close_session db sid now ≡ ok (db', s) → Step db db'

pub data Reach (start : Db) : Db → Type 0 where
  here : Reach start start
  next : {db db' : Db} → Reach start db → Step db db' → Reach start db'

Step-IsValid : {db db' : Db} → Step db db' → IsValid db → IsValid db'
Step-IsValid {db} {db'} (create sid now name language owner_id e) =
    create_session-IsValid db db' sid now owner_id
      (create_session-eq_ok db sid now name language owner_id e)
Step-IsValid {db} {db'} (add sid uid role e) =
    add_member-IsValid db db' sid uid role (add_member-eq_ok db sid uid role e)
Step-IsValid {db} {db'} (update sid uid role e) =
    update_member_role-IsValid db db' sid uid role (update_member_role-eq_ok db sid uid role e)
Step-IsValid {db} {db'} (remove sid uid e) =
    remove_member-IsValid db db' sid uid (remove_member-eq_ok db sid uid e)
Step-IsValid {db} {db'} (close sid now e) =
    close_session-IsValid db db' sid now (close_session-eq_ok db sid now e)

Reach-IsValid : {start db : Db} → IsValid start → Reach start db → IsValid db
Reach-IsValid v here = v
Reach-IsValid v (next r st) = Step-IsValid st (Reach-IsValid v r)

-- Tables with users and no session yet.
abbrev pub no_sessions : Dict User → Db
no_sessions users = record { users = users; sessions = []; members = [] }

-- Whatever calls are made on tables that start with no session, each session has its canonical owner
-- as a member with the role owner, no one else has that role there, and no member row is without its
-- session.
pub reached-IsValid : (users : Dict User) (db : Db) → Reach (no_sessions users) db → IsValid db
reached-IsValid users db r =
    Reach-IsValid
      (record {
        owner_is_member = λ sid s found. cc;
        sole_owner = λ sid uid s found is_owner. cc;
        has_session = λ sid uid absent. refl;
      })
      r

-- A session keeps its owner.
abbrev KeepsOwner : ℕ → ℕ → Db → Type 0
KeepsOwner sid owner_id db =
    (s : Session) × (lookup sid db.sessions ≡ some s) × (s.owner_id ≡ owner_id)

Step-KeepsOwner :
    (sid owner_id : ℕ) {db db' : Db}
    → Step db db'
    → KeepsOwner sid owner_id db
    → KeepsOwner sid owner_id db'
Step-KeepsOwner sid owner_id {db} {db'} (create t now name language o e) (s, found, owned) =
    let c = create_session-eq_ok db t now name language o e in
    (s, ground (arith, c.result, c.was_free, lookup-insert t sid c.session db.sessions), owned)
Step-KeepsOwner sid owner_id {db} {db'} (add t uid role e) (s, found, owned) =
    let a = add_member-eq_ok db t uid role e in (s, ground (arith, a.result), owned)
Step-KeepsOwner sid owner_id {db} {db'} (update t uid role e) (s, found, owned) =
    let c = update_member_role-eq_ok db t uid role e in
    (s, ap (lookup sid) c.sessions_kept ∙ found, owned)
Step-KeepsOwner sid owner_id {db} {db'} (remove t uid e) (s, found, owned) =
    let r = remove_member-eq_ok db t uid e in (s, ground (arith, r.result), owned)
Step-KeepsOwner sid owner_id {db} {db'} (close t now e) (s, found, owned) =
    let c = close_session-eq_ok db t now e in
    let closed : Session = record c.session { is_active = false; updated_at = now } in
    (
      if t == sid then closed else s,
      ground (arith, c.result, lookup-insert t sid closed db.sessions),
      ground (arith, c.is_open.found),
    )

Reach-KeepsOwner :
    (sid owner_id : ℕ) {start db : Db}
    → KeepsOwner sid owner_id start
    → Reach start db
    → KeepsOwner sid owner_id db
Reach-KeepsOwner sid owner_id k here = k
Reach-KeepsOwner sid owner_id k (next r st) =
    Step-KeepsOwner sid owner_id st (Reach-KeepsOwner sid owner_id k r)

-- From valid tables, no calls take a session away, change who owns it, or take the role owner from its
-- owner.
pub owner_is_permanent :
    (sid : ℕ) (s : Session) (start db : Db)
    → IsValid start
    → lookup sid start.sessions ≡ some s
    → Reach start db
    → (s' : Session) × (lookup sid db.sessions ≡ some s')
      × (s'.owner_id ≡ s.owner_id)
      × (role_of sid s.owner_id db.members ≡ some owner)
owner_is_permanent sid s start db v found r =
    let (s', still, owned) = Reach-KeepsOwner sid s.owner_id (s, found, refl) r in
    (
      s',
      still,
      owned,
      ap (λ o. role_of sid o db.members) (sym owned)
          ∙ (Reach-IsValid v r).owner_is_member sid s' still,
    )
