-- ===== src/Sessions/Closing.antt =====
-- A closed session in sessions/service.py: it refuses every change, and stays as it was.
use code_collaborator.Base.{
  ℕ, false, Option, some, ◌==◌, ◌≡◌, refl, arith, ok, err, subst, sym, ap, ◌∙◌,
}
use code_collaborator.Base.Dict.{lookup, lookup-insert}
use code_collaborator.Models.{Role, owner, Session}
use code_collaborator.Sessions.{
  Db, inactive, get_active_session, add_member, update_member_role, remove_member, close_session,
}
use code_collaborator.Sessions.Members.{role_of, role_of-add, role_of-delete_member}
use code_collaborator.Sessions.Outcomes.{
  IsOpen, add_member-eq_ok, update_member_role-eq_ok, remove_member-eq_ok, close_session-eq_ok,
  create_session-eq_ok,
}
use code_collaborator.Sessions.History.{Step, create, add, update, remove, close, Reach, here, next}

-- The session is there, is closed, and has these roles.
record IsFrozen (sid : ℕ) (s : Session) (roles : ℕ → Option Role) (db : Db) : Type 0 where
  found : lookup sid db.sessions ≡ some s
  closed : s.is_active ≡ false
  same_roles : (u : ℕ) → role_of sid u db.members ≡ roles u

-- An open session is some other one.
other_session :
    {sid t : ℕ} {s s' : Session} {roles : ℕ → Option Role} {db : Db}
    → IsFrozen sid s roles db
    → IsOpen db t s'
    → (t == sid) ≡ false
other_session f o = ground (arith, f.found, f.closed, o.found, o.active)

Step-IsFrozen :
    (sid : ℕ) (s : Session) (roles : ℕ → Option Role) {db db' : Db}
    → Step db db'
    → IsFrozen sid s roles db
    → IsFrozen sid s roles db'
Step-IsFrozen sid s roles {db} {db'} (create t now name language o e) f =
    let c = create_session-eq_ok db t now name language o e in
    let other : (t == sid) ≡ false = ground (arith, f.found, c.was_free) in
    subst (IsFrozen sid s roles) (sym c.result) (record {
      found = ground (arith, other, f.found, lookup-insert t sid c.session db.sessions);
      closed = f.closed;
      same_roles =
          λ u. ground (arith, other, role_of-add t o sid u owner db.members, f.same_roles u);
    })
Step-IsFrozen sid s roles {db} {db'} (add t uid role e) f =
    let a = add_member-eq_ok db t uid role e in
    let other = other_session f a.is_open in
    subst (IsFrozen sid s roles) (sym a.result) (record {
      found = f.found;
      closed = f.closed;
      same_roles =
          λ u. ground (arith, other, role_of-add t uid sid u role db.members, f.same_roles u);
    })
Step-IsFrozen sid s roles {db} {db'} (update t uid role e) f =
    let c = update_member_role-eq_ok db t uid role e in
    let other = other_session f c.is_open in
    record {
      found = ap (lookup sid) c.sessions_kept ∙ f.found;
      closed = f.closed;
      same_roles = λ u. ground (arith, other, c.roles sid u, f.same_roles u);
    }
Step-IsFrozen sid s roles {db} {db'} (remove t uid e) f =
    let r = remove_member-eq_ok db t uid e in
    let other = other_session f r.is_open in
    subst (IsFrozen sid s roles) (sym r.result) (record {
      found = f.found;
      closed = f.closed;
      same_roles =
          λ u. ground (arith, other, role_of-delete_member t uid sid u db.members, f.same_roles u);
    })
Step-IsFrozen sid s roles {db} {db'} (close t now e) f =
    let c = close_session-eq_ok db t now e in
    let other = other_session f c.is_open in
    let closed : Session = record c.session { is_active = false; updated_at = now } in
    subst (IsFrozen sid s roles) (sym c.result) (record {
      found = ground (arith, other, f.found, lookup-insert t sid closed db.sessions);
      closed = f.closed;
      same_roles = f.same_roles;
    })

Reach-IsFrozen :
    (sid : ℕ) (s : Session) (roles : ℕ → Option Role) {start db : Db}
    → IsFrozen sid s roles start
    → Reach start db
    → IsFrozen sid s roles db
Reach-IsFrozen sid s roles f here = f
Reach-IsFrozen sid s roles f (next r st) =
    Step-IsFrozen sid s roles st (Reach-IsFrozen sid s roles f r)

-- Closing is final: from tables in which a session is closed, no calls change its row or the role of
-- any user in it.
pub closed_is_final :
    (sid : ℕ) (s : Session) (start db : Db)
    → lookup sid start.sessions ≡ some s
    → s.is_active ≡ false
    → Reach start db
    → (lookup sid db.sessions ≡ some s)
      × ((u : ℕ) → role_of sid u db.members ≡ role_of sid u start.members)
closed_is_final sid s start db found closed r =
    let f =
      Reach-IsFrozen sid s (λ u. role_of sid u start.members)
        (record { found = found; closed = closed; same_roles = λ u. refl }) r in
    (f.found, f.same_roles)

get_active_session_closed :
    (db : Db) (sid : ℕ) (s : Session)
    → lookup sid db.sessions ≡ some s
    → s.is_active ≡ false
    → get_active_session db sid ≡ err inactive
unfolding get_active_session
get_active_session_closed db sid s found closed = rw (found, closed)

-- After `close_session` succeeded, adding, changing or removing any member of the session, and closing
-- it again, all raise that the session is inactive.
pub close_session_refuses :
    (db db' : Db) (sid now : ℕ) (s : Session) (uid : ℕ) (role : Role) (later : ℕ)
    → close_session db sid now ≡ ok (db', s)
    → (add_member db' sid uid role ≡ err inactive)
      × (update_member_role db' sid uid role ≡ err inactive)
      × (remove_member db' sid uid ≡ err inactive)
      × (close_session db' sid later ≡ err inactive)
unfolding add_member update_member_role remove_member close_session
close_session_refuses db db' sid now s uid role later e =
    let c = close_session-eq_ok db sid now e in
    let closed : Session = record c.session { is_active = false; updated_at = now } in
    let found : lookup sid db'.sessions ≡ some closed =
      ground (arith, c.result, lookup-insert sid sid closed db.sessions) in
    let refused = get_active_session_closed db' sid closed found refl in
    (rw refused, rw refused, rw refused, rw refused)
