-- ===== src/Access/Rules.antt =====
-- Exactly when the checks of auth/dependencies.py and sessions/router.py grant access.
use code_collaborator.Base.{
  ℕ, false, ◌&&◌, not, Option, none, some, ◌==◌, ltb, ◌≡◌, ◌≤◌, ◌↔◌, ok, arith, refl, sym,
  >>=-eq-ok, or_raise-eq-ok, raise_if-eq-ok, or_raise, raise_if, ap, ◌∙◌, ltb-false,
}
use code_collaborator.Base.Dict.{lookup}
use code_collaborator.Models.{
  Role, viewer, editor, owner, Session, SessionMember, role_rank, same_role,
}
use code_collaborator.Sessions.{Db, find_member}
use code_collaborator.Sessions.Members.{role_of, role_of_row}
use code_collaborator.Sessions.Outcomes.{IsOpen}
use code_collaborator.Sessions.Invariant.{IsValid}
use code_collaborator.Access.{role_checker, require_current_editor, insufficient}

-- What a grant means: the session is open, the user has a role there of at least the rank asked for,
-- and is the canonical owner where the role owner is asked for.
pub record HasAccess (min_role : Role) (db : Db) (sid uid : ℕ) : Type 0 where
  pub session : Session
  pub is_open : IsOpen db sid session
  pub member : SessionMember
  pub is_member : find_member sid uid db.members ≡ some member
  pub ranks : role_rank min_role ≤ role_rank member.role
  pub canonical : min_role ≡ owner → session.owner_id ≡ uid

canonical_test :
    (r : Role) (a b : ℕ) → (r ≡ owner → a ≡ b) → (same_role r owner && not (a == b)) ≡ false
canonical_test viewer a b h = refl
canonical_test editor a b h = refl
canonical_test owner a b h = ground (arith, h refl)

canonical_tested :
    (r : Role) (a b : ℕ) → (same_role r owner && not (a == b)) ≡ false → r ≡ owner → a ≡ b
canonical_tested r a b h e = ground arith

sufficient :
    (o : Option SessionMember)
    → insufficient o ≡ false
    → (m : SessionMember) × (o ≡ some m) × (role_rank editor ≤ role_rank m.role)
sufficient none h = cc
sufficient (some m) h = (m, refl, ground arith)

-- `RoleChecker` grants access to the user exactly when the user has access: all of its refusals are
-- needed, and no other call passes.
pub role_checker_iff :
    (min_role : Role) (db : Db) (sid uid : ℕ)
    → (role_checker min_role db sid uid ≡ ok uid) ↔ HasAccess min_role db sid uid
unfolding role_checker
role_checker_iff min_role db sid uid = (
  λ e.
      let (s, first, e1) = >>=-eq-ok (or_raise (lookup sid db.sessions) _) _ e in
      let (_, second, e2) = >>=-eq-ok (raise_if (not s.is_active) _) _ e1 in
      let (m, third, e3) = >>=-eq-ok (or_raise (find_member sid uid db.members) _) _ e2 in
      let (_, fourth, e4) =
        >>=-eq-ok (raise_if (same_role min_role owner && not (s.owner_id == uid)) _) _ e3 in
      let (_, fifth, e5) =
        >>=-eq-ok (raise_if (ltb (role_rank m.role) (role_rank min_role)) _) _ e4 in
      let active = raise_if-eq-ok _ _ second in
      record {
        session = s;
        is_open = record { found = or_raise-eq-ok _ _ first; active = ground arith };
        member = m;
        is_member = or_raise-eq-ok _ _ third;
        ranks = ground (arith, raise_if-eq-ok _ _ fifth);
        canonical = canonical_tested min_role s.owner_id uid (raise_if-eq-ok _ _ fourth);
      },
  λ a. rw (
    a.is_open.found,
    a.is_open.active,
    a.is_member,
    canonical_test min_role a.session.owner_id uid a.canonical,
    ltb-false (role_rank a.member.role) (role_rank min_role) a.ranks,
  ),
)

current_editor-HasAccess :
    (db : Db) (sid uid : ℕ)
    → require_current_editor db sid uid ≡ ok tt
    → HasAccess editor db sid uid
unfolding require_current_editor
current_editor-HasAccess db sid uid e =
    let (s, first, e1) = >>=-eq-ok (or_raise (lookup sid db.sessions) _) _ e in
    let (_, second, e2) = >>=-eq-ok (raise_if (not s.is_active) _) _ e1 in
    let active = raise_if-eq-ok _ _ second in
    let (m, found, ranks) = sufficient (find_member sid uid db.members) (raise_if-eq-ok _ _ e2) in
    record {
      session = s;
      is_open = record { found = or_raise-eq-ok _ _ first; active = ground arith };
      member = m;
      is_member = found;
      ranks = ranks;
      canonical = λ absurd_role. cc;
    }

-- The check that runs again inside the room lock grants exactly what `RoleChecker` grants to editors.
pub require_current_editor_iff :
    (db : Db) (sid uid : ℕ)
    → (require_current_editor db sid uid ≡ ok tt) ↔ (role_checker editor db sid uid ≡ ok uid)
unfolding require_current_editor
require_current_editor_iff db sid uid = (
  λ e. (role_checker_iff editor db sid uid).1 (current_editor-HasAccess db sid uid e),
  λ e.
      let a = (role_checker_iff editor db sid uid).0 e in
      rw (
        a.is_open.found,
        a.is_open.active,
        a.is_member,
        ltb-false (role_rank a.member.role) (role_rank editor) a.ranks,
      ),
)

pub member_of :
    (o : Option SessionMember) (r : Role)
    → role_of_row o ≡ some r
    → (m : SessionMember) × (o ≡ some m) × (m.role ≡ r)
member_of none r e = cc
member_of (some m) r e = (m, refl, cc)

-- Where the ownership invariant holds, the owner's operations are open to one user: a user passes the
-- check for the role owner exactly when the session is open and the user is its canonical owner.
pub owner_access_iff :
    (db : Db) (sid uid : ℕ)
    → IsValid db
    → (role_checker owner db sid uid ≡ ok uid)
      ↔ ((s : Session) × IsOpen db sid s × (s.owner_id ≡ uid))
owner_access_iff db sid uid v = (
  λ e. let a = (role_checker_iff owner db sid uid).0 e in (a.session, a.is_open, a.canonical refl),
  λ (s, is_open, owned).
      let role =
        ap (λ (u : ℕ). role_of sid u db.members) (sym owned)
        ∙ v.owner_is_member sid s is_open.found in
      let (m, found, is_owner) = member_of (find_member sid uid db.members) owner role in
      (role_checker_iff owner db sid uid).1 (record {
        session = s;
        is_open = is_open;
        member = m;
        is_member = found;
        ranks = ground arith;
        canonical = λ _. owned;
      }),
)
