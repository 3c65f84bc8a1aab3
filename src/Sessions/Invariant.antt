-- ===== src/Sessions/Invariant.antt =====
-- The ownership invariant of sessions/service.py, and that every operation keeps it.
use code_collaborator.Base.{ℕ, false, none, some, ◌≡◌, arith, subst, sym, ap, ◌∙◌}
use code_collaborator.Base.Dict.{lookup, lookup-insert}
use code_collaborator.Models.{Role, owner, Session}
use code_collaborator.Sessions.{Db}
use code_collaborator.Sessions.Members.{role_of, role_of-add, role_of-delete_member}
use code_collaborator.Sessions.Outcomes.{Added, Changed, Removed, Closed, Created}

-- Each session has its canonical owner, and only that user, as a member with the role owner; and there
-- are no members of a session that does not exist.
pub record IsValid (db : Db) : Type 0 where
  pub owner_is_member :
      (sid : ℕ) (s : Session)
      → lookup sid db.sessions ≡ some s
      → role_of sid s.owner_id db.members ≡ some owner
  pub sole_owner :
      (sid uid : ℕ) (s : Session)
      → lookup sid db.sessions ≡ some s
      → role_of sid uid db.members ≡ some owner
      → uid ≡ s.owner_id
  pub has_session :
      (sid uid : ℕ) → lookup sid db.sessions ≡ none → role_of sid uid db.members ≡ none

pub add_member-IsValid :
    (db db' : Db) (sid uid : ℕ) (role : Role) → Added db sid uid role db' → IsValid db → IsValid db'
add_member-IsValid db db' sid uid role a v = subst IsValid (sym a.result) (record {
  owner_is_member = λ t s found. ground (
    arith,
    role_of-add sid uid t s.owner_id role db.members,
    v.owner_is_member t s found,
    a.was_no_member,
  );
  sole_owner = λ t u s found is_owner.
      ground (arith, role_of-add sid uid t u role db.members, v.sole_owner t u s found, a.no_owner);
  has_session = λ t u absent.
      ground
        (arith, role_of-add sid uid t u role db.members, v.has_session t u absent, a.is_open.found);
})

pub update_member_role-IsValid :
    (db db' : Db) (sid uid : ℕ) (role : Role)
    → Changed db sid uid role db'
    → IsValid db
    → IsValid db'
update_member_role-IsValid db db' sid uid role c v = record {
  owner_is_member = λ t s found.
      let before = ap (lookup t) (sym c.sessions_kept) ∙ found in
      ground
        (arith, c.roles t s.owner_id, v.owner_is_member t s before, c.is_open.found, c.owner_alone);
  sole_owner = λ t u s found is_owner.
      let before = ap (lookup t) (sym c.sessions_kept) ∙ found in
      ground (arith, c.roles t u, v.sole_owner t u s before, c.is_open.found, c.owner_alone);
  has_session = λ t u absent.
      let before = ap (lookup t) (sym c.sessions_kept) ∙ absent in
      ground (arith, c.roles t u, v.has_session t u before, c.is_open.found);
}

pub remove_member-IsValid :
    (db db' : Db) (sid uid : ℕ) → Removed db sid uid db' → IsValid db → IsValid db'
remove_member-IsValid db db' sid uid r v = subst IsValid (sym r.result) (record {
  owner_is_member = λ t s found. ground (
    arith,
    role_of-delete_member sid uid t s.owner_id db.members,
    v.owner_is_member t s found,
    r.is_open.found,
    r.not_owner,
  );
  sole_owner = λ t u s found is_owner.
      ground (arith, role_of-delete_member sid uid t u db.members, v.sole_owner t u s found);
  has_session = λ t u absent.
      ground (arith, role_of-delete_member sid uid t u db.members, v.has_session t u absent);
})

pub close_session-IsValid :
    (db db' : Db) (sid now : ℕ) → Closed db sid now db' → IsValid db → IsValid db'
close_session-IsValid db db' sid now c v =
    let closed : Session = record c.session { is_active = false; updated_at = now } in
    let old = c.is_open.found in
    subst IsValid (sym c.result) (record {
      owner_is_member = λ t s found. ground (
        arith,
        lookup-insert sid t closed db.sessions,
        v.owner_is_member t s,
        v.owner_is_member sid c.session old,
      );
      sole_owner = λ t u s found is_owner. ground (
        arith,
        lookup-insert sid t closed db.sessions,
        v.sole_owner t u s,
        v.sole_owner sid u c.session old,
      );
      has_session =
          λ t u absent. ground (arith, lookup-insert sid t closed db.sessions, v.has_session t u);
    })

pub create_session-IsValid :
    (db db' : Db) (sid now owner_id : ℕ)
    → Created db sid now owner_id db'
    → IsValid db
    → IsValid db'
create_session-IsValid db db' sid now owner_id c v = subst IsValid (sym c.result) (record {
  owner_is_member = λ t s found. ground (
    arith,
    lookup-insert sid t c.session db.sessions,
    role_of-add sid owner_id t s.owner_id owner db.members,
    v.owner_is_member t s,
    c.owned,
  );
  sole_owner = λ t u s found is_owner. ground (
    arith,
    lookup-insert sid t c.session db.sessions,
    role_of-add sid owner_id t u owner db.members,
    v.sole_owner t u s,
    v.has_session sid u c.was_free,
    c.owned,
  );
  has_session = λ t u absent. ground (
    arith,
    lookup-insert sid t c.session db.sessions,
    role_of-add sid owner_id t u owner db.members,
    v.has_session t u,
  );
})
